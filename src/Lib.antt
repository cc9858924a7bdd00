-- ===== src/Lib.antt =====
-- Verification of StdioTunnel (tun01): TCP connections tunnelled over the standard input and
-- output of a remote login.
--
-- Parts and files.
-- - src/com/antlersoft/net: Net/WriteStream and Net/ReadStream frame messages, Net/SockBuffer
--   buffers raw bytes, Net/Poller holds the polled objects and the poll loop, and
--   Net/Poller/Subpoll is the poll of systems that have select(2) only.
-- - src/com/antlersoft/stdio_tunnel: Tunnel/Spec is ConnectionSpec and parseConnection, Tunnel/Main
--   is main, Tunnel/Terminal the terminal modes, Tunnel/Options is CreateTunnel, configure and
--   bindStatus, Tunnel/Detector is MagicStringDetector, Tunnel/Link is ConnectionLink with the
--   writer and reader of its tunnel, Tunnel/Connection is TunnelConnection with ListenSide and
--   ConnectSide, Tunnel/Side is CreateConnection, Tunnel/Side/Listener is ListenSide::initialize,
--   Tunnel/Remote is StdioTunnelRemote, Tunnel/Local is StdioTunnelLocal with its polled in
--   Tunnel/Local/Polled and its start, with forkpipe, in Tunnel/Local/Launch, and
--   Tunnel/Remote/Handshake has the CMD_CREATE message that goes from the local end to the remote
--   one.
--   Tunnel/Local/Order is the order of the connection map.
-- - The SOCKS5 server of the same file: Tunnel/Socks is the parsing of connect_socks_target,
--   Tunnel/Socks/Handshake the rest of it with socks5_handshake, Tunnel/Socks/Relay copyloop,
--   Tunnel/Socks/Client socks5_clientthread, and Tunnel/Socks/Threads the threads and their
--   collection.
-- - Tunnel/Protocol is the life of one link at both ends of a tunnel, as a step relation on the
--   two ends and the messages under way between them; Tunnel/Protocol/Refinement ties what a
--   message does there to processMessage of the two sides.
-- - Tunnel/Multiplex puts the parts together: data for any links of any connections, sent by
--   sendData at one end and taken by polled of the other. Its Steps, Runs and Arrivals are about
--   an end that takes a message for each call, RemoteEnd and LocalEnd are the two ends, Sender is
--   the sender, and Channel joins them.
-- Method names keep their words: `WriteStream::writeShort` is `write_short`. A method takes its
-- object last and returns the new object; what may throw, or run into undefined behaviour, returns
-- a `Result` (Net/Result).
--
-- Integers. A char is a number below 256, a short one below 2 ^ 16 and an int one below 2 ^ 32, in
-- two's complement; `size_t` subtraction wraps. The machine is 64-bit and little-endian, where
-- `htonl` and `ntohl` swap the four bytes of their argument. A packet's length is stored
-- there as eight bytes, so that to send a message of one to three bytes is undefined.
--
-- The system. `read` and `write` belong to a parameter, `Net.Kernel`: a read takes a prefix of the
-- bytes to come and a write accepts a prefix of the bytes offered, of any length; `Frame` there
-- says that a read or write at one descriptor leaves the bytes of the others alone. poll(2), the
-- objects that a Poller calls, `processReadData`, accept(2), connect(2), bind(2), gethostbyname(3),
-- inet_ntop(3), `resolve` of server.c, chdir(2), the write of a remote command and of the magic
-- string, the start of the SOCKS5 server, pthread_create(3), and the operations of sblist are
-- parameters, and so are socket(2), listen(2), tcgetattr(3) and tcsetattr(3), select(2), fork(2),
-- forkpty(3), and pipe(2), close(2) and dup2(2) where a process is made
-- (Tunnel/Local/Launch/Pipes).
-- Tests/Channel, Tests/Sockets and Tests/LaunchTests have systems that meet the assumptions.
--
-- Fuel. `SockBuffer.read_data` takes fuel, of which more than the bytes to come is enough;
-- `Poller.traverse` takes the number of entries, and `Poller.grow` the size wanted. The loop of
-- `Poller.Start.start` runs until a signal, and takes fuel for one round more than it makes.
-- `socks5_handshake` needs two rounds, `send_all` one for each byte and one more, `collect` one
-- for each thread and one more; `copyloop` runs until a descriptor ends, on any fuel.
--
-- Not modelled: what is printed; Trace and MyException (diagnostics); memory freed by destructors;
-- server.c and sblist, which are copied libraries.
mod Prelude
pub mod Net
pub mod Tunnel
mod Tests
