-- ===== src/Tunnel/Multiplex/Channel.antt =====
-- Both ends of the links over one channel: sendData with writes in any pieces at one end, and polled
-- with reads in any pieces at the other.
use tun.Prelude.{length, take, ◌≤◌, ℕ, ◌≡◌, List, [], ◌++◌, All, Option}
use tun.Net.Result.{Result, ok, Errno}
use tun.Net.Kernel.{Kernel, Events, got}
use tun.Net.WriteStream.Packets.{unsent}
use tun.Net.ReadStream.Frames.{unread}
use tun.Tunnel.Spec.{ConnectionSpec}
use tun.Tunnel.Link.{Shared}
use tun.Tunnel.Connection.{Attempt}
use tun.Tunnel.Side.{Opened}
use tun.Tunnel.Remote.{Remote, Started, remote_stdin}
use tun.Tunnel.Local.{Local}
use tun.Tunnel.Local.Polled.{tunnel_read}
use tun.Tunnel.Multiplex.{IsKnown}
use tun.Tunnel.Multiplex.Steps.{Moved}
use tun.Tunnel.Multiplex.Runs.{run_end, run_end-Moved}
use tun.Tunnel.Multiplex.Arrivals.{IsReadable, IsDelivered, run_end-IsDelivered}
use tun.Tunnel.Multiplex.RemoteEnd
use tun.Tunnel.Multiplex.RemoteEnd.{remote_view, remote_stdin-Moved, remote_stdin-IsDelivered}
use tun.Tunnel.Multiplex.LocalEnd
use tun.Tunnel.Multiplex.LocalEnd.{local_view, tunnel_read-Moved, tunnel_read-IsDelivered}
use tun.Tunnel.Multiplex.Sender.{Act, pieces, IsWriting, run_links, run_links-frames, all_written}

module _ (start_socks5 : ℕ → Started) (open_listener : ConnectionSpec → Opened)
    (attempt : ConnectionSpec → Attempt) (report : Attempt → Shared → Result Shared) where
  -- The sending end has its poller and nothing to send; it calls `sendData` for any links of any
  -- connections, with calls of `empty` in between. What it has written since is what the remote end,
  -- which is connected and has read no message in part, has to read, a packet begun or not. The
  -- pieces have at most 4096 bytes, and are for links that are there and not being closed. Then,
  -- after any calls of `polled` for standard input, the buffer and output block of each link of each
  -- connection are what they were, followed by the bytes of a prefix of the pieces, those for this
  -- link only and in the order sent; what is not read, with what is not written, is the frames of
  -- the other pieces. Undefined behaviour is not possible, and a call throws only if the poll or the
  -- read fails, the input ends, or a packet is too long.
  pub remote_delivers :
      (s r : Kernel) (sfd : ℕ) (acts : List Act) (rounds : List Events) (sh sh' : Shared)
      (o o' : s.Os) (t : Remote) (p : r.Os)
      → IsWriting sh
      → run_links s sfd acts sh o ≡ ok (sh', o')
      → s.outgoing o' sfd ≡ s.outgoing o sfd ++ unread r 0 t.shared.reader p
      → RemoteEnd.IsReady t
      → All (IsKnown t.connection_map) (pieces acts)
      → Moved r 0 remote_view
          (pieces acts)
          (unsent sh'.writer)
          t.connection_map
          (run_end (remote_stdin r start_socks5 open_listener attempt report) rounds t p)
  remote_delivers s r sfd acts rounds sh sh' o o' t p writing sent channel ready known =
      run_end-Moved r 0 remote_view (remote_stdin r start_socks5 open_listener attempt report)
        (remote_stdin-Moved r start_socks5 open_listener attempt report) rounds t p (pieces acts)
        (unsent sh'.writer) ready
        (run_links-frames s sfd acts sh sh' o o' (unread r 0 t.shared.reader p) writing sent
          channel)
        known

  -- The sender starts with nothing to send, and has written all that it sent: that is what the
  -- remote end, connected and with no packet begun, has to read. The pieces have at most 4096 bytes
  -- and are for links that are there and not being closed; a read returns all it is asked for where
  -- that much is to come. Then as many calls of `polled` with input and without an error as there are
  -- pieces return, with nothing left to read, and each link has all the bytes of its pieces, in
  -- order, after those it had.
  pub remote_delivers_each :
      (s r : Kernel) (sfd : ℕ) (acts : List Act) (rounds : List Events) (sh sh' : Shared)
      (o o' : s.Os) (t : Remote) (p : r.Os)
      → ((n : ℕ) (p : r.Os)
          → n ≤ length (r.incoming p 0)
          → (p' : r.Os) × (r.read 0 n p ≡ (got (take n (r.incoming p 0)), p')))
      → IsWriting sh
      → run_links s sfd acts sh o ≡ ok (sh', o')
      → unsent sh'.writer ≡ []
      → s.outgoing o' sfd ≡ s.outgoing o sfd ++ r.incoming p 0
      → RemoteEnd.IsReady t
      → t.shared.reader.read_buf ≡ []
      → All (IsKnown t.connection_map) (pieces acts)
      → length rounds ≡ length (pieces acts)
      → All IsReadable rounds
      → IsDelivered r 0 remote_view
          (pieces acts)
          t.connection_map
          []
          (run_end (remote_stdin r start_socks5 open_listener attempt report) rounds t p)
  remote_delivers_each s r sfd acts rounds sh sh' o o' t p full writing sent all channel ready b
        known n good =
      run_end-IsDelivered r 0 remote_view (remote_stdin r start_socks5 open_listener attempt report)
        (remote_stdin-IsDelivered r start_socks5 open_listener attempt report full) rounds t p
        (pieces acts) [] n good ready b
        (all_written s sfd acts sh sh' o o' (r.incoming p 0) writing sent all channel) known

module _ (detach : Result (Unit {0})) (refuses : List ℕ → Option Errno)
    (attempt : ConnectionSpec → Attempt) where
  -- The same where the local end reads its pipe: the sender starts with nothing to send, what it has
  -- written since is what is to be read, the pieces have at most 4096 bytes and are for links that
  -- are there and not being closed. After any calls of `polled` for the pipe, each link's buffer and
  -- output block have gained the bytes of a prefix of the pieces, its own and in order, the frames of
  -- the others are unread or unsent, and a call throws only for its input.
  pub local_delivers :
      (s r : Kernel) (sfd fd : ℕ) (acts : List Act) (rounds : List Events) (sh sh' : Shared)
      (o o' : s.Os) (t : Local) (p : r.Os)
      → IsWriting sh
      → run_links s sfd acts sh o ≡ ok (sh', o')
      → s.outgoing o' sfd ≡ s.outgoing o sfd ++ unread r fd t.shared.reader p
      → LocalEnd.IsReady fd t
      → All (IsKnown t.connection_map) (pieces acts)
      → Moved r fd
          (local_view fd)
          (pieces acts)
          (unsent sh'.writer)
          t.connection_map
          (run_end (tunnel_read detach refuses r attempt) rounds t p)
  local_delivers s r sfd fd acts rounds sh sh' o o' t p writing sent channel ready known =
      run_end-Moved r fd (local_view fd) (tunnel_read detach refuses r attempt)
        (tunnel_read-Moved detach refuses r attempt fd) rounds t p (pieces acts) (unsent sh'.writer)
        ready
        (run_links-frames s sfd acts sh sh' o o' (unread r fd t.shared.reader p) writing sent
          channel)
        known

  -- The same where the local end reads its pipe, if the sender has written all that it sent, no
  -- packet is begun, the pieces have at most 4096 bytes and are for links that are there and not
  -- being closed, and a read returns all it is asked for where that much is to come: one call for
  -- each piece, with input and without an error, returns, nothing is left to read, and each link has
  -- all the bytes of its pieces, in order, after those it had.
  pub local_delivers_each :
      (s r : Kernel) (sfd fd : ℕ) (acts : List Act) (rounds : List Events) (sh sh' : Shared)
      (o o' : s.Os) (t : Local) (p : r.Os)
      → ((n : ℕ) (p : r.Os)
          → n ≤ length (r.incoming p fd)
          → (p' : r.Os) × (r.read fd n p ≡ (got (take n (r.incoming p fd)), p')))
      → IsWriting sh
      → run_links s sfd acts sh o ≡ ok (sh', o')
      → unsent sh'.writer ≡ []
      → s.outgoing o' sfd ≡ s.outgoing o sfd ++ r.incoming p fd
      → LocalEnd.IsReady fd t
      → t.shared.reader.read_buf ≡ []
      → All (IsKnown t.connection_map) (pieces acts)
      → length rounds ≡ length (pieces acts)
      → All IsReadable rounds
      → IsDelivered r fd
          (local_view fd)
          (pieces acts)
          t.connection_map
          []
          (run_end (tunnel_read detach refuses r attempt) rounds t p)
  local_delivers_each s r sfd fd acts rounds sh sh' o o' t p full writing sent all channel ready b
        known n good =
      run_end-IsDelivered r fd (local_view fd) (tunnel_read detach refuses r attempt)
        (tunnel_read-IsDelivered detach refuses r attempt fd full) rounds t p (pieces acts) [] n
        good ready b (all_written s sfd acts sh sh' o o' (r.incoming p fd) writing sent all channel)
        known
