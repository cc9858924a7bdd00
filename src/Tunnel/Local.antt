-- ===== src/Tunnel/Local.antt =====
-- class StdioTunnelLocal of StdioTunnel.h and StdioTunnel.cpp: the end that runs the connection
-- command, and looks for the magic string in what that command prints.
pub mod Order
pub mod Startup
pub mod Polled
pub mod Launch
use tun.Prelude.{
  ℕ, suc, ◌+◌, List, [], ◌∷◌, ◌++◌, map, Bool, true, false, not, ◌&&◌, ◌||◌, Option, none, some,
  length, ◌==◌, if◌then◌else◌, to_short, to_int,
}
use tun.Net.Result.{
  Result, ok, throw, undefined, Errno, errno, stdin_closed, bad_state, read_side_closed,
  unexpected_revents, read_pipe_closed, write_pipe_closed, require, ◌>>=◌, ◌>>◌,
}
use tun.Net.Kernel.{Kernel, Events}
use tun.Net.WriteStream
use tun.Net.WriteStream.{pending_write}
use tun.Net.ReadStream
use tun.Net.ReadStream.{available}
use tun.Net.ReadStream.Values.{read_short, read_string}
use tun.Net.SockBuffer.{SockBuffer, clear, unsent_data, read_data, write_data}
use tun.Net.Poller.{add_polled, set_events, remove_polled, request_finish}
use tun.Tunnel.Terminal.{Termios, Tty, given_modes}
use tun.Tunnel.Spec.{ConnectionSpec}
use tun.Tunnel.Detector.{Detector, Signal, start_handshaking, remote_init, process_read_data}
use tun.Tunnel.Link.{Shared, wants, reading, writing, send, cmd_error, cmd_connection}
use tun.Tunnel.Connection.{Connection, Attempt}
use tun.Tunnel.Side.{Side, listening, connecting, Opened, create_connection, process_message}
use tun.Tunnel.Remote.{put_side, find_side, cmd_create, cmd_shutdown}
use tun.Tunnel.Remote.Handshake.{Named, write_create}

pub data LocalState : Type 0 where
  initial set_stdio_read set_stdio_write set_pipe_read : LocalState
  pass_through hand_shake connected shut_down : LocalState

-- `commands` are the remote commands that have been written to the pipe, and `modes`
-- what tcsetattr(3) has been given; `tty` is `m_is_terminal` with `m_termios`.
pub record Local : Type 0 where
  pub state : LocalState
  pub read_fd : ℕ
  pub write_fd : ℕ
  pub read_buffer : SockBuffer
  pub detector : Detector
  pub write_buffer : SockBuffer
  pub connection_map : List (ℕ × Side)
  pub closed_by_request : Bool
  pub daemon : Bool
  pub tty : Tty
  pub modes : List Termios
  pub commands : List (List ℕ)
  pub address : ℕ
  pub shared : Shared

-- The descriptor and the events that `setPollfd` fills in.
unfoldable pub set_pollfd : Local → Result (ℕ × Events × Local)
set_pollfd t = elim t.state [
  | initial ↦ ok (0, wants true false, record t { state = set_stdio_read })
  | set_stdio_read ↦ ok (1, wants false false, record t { state = set_stdio_write })
  | set_stdio_write ↦ ok (t.read_fd, wants true false, record t { state = set_pipe_read })
  | set_pipe_read ↦ ok (t.write_fd, wants false false, record t { state = pass_through })
  | pass_through ↦ throw bad_state
  | hand_shake ↦ throw bad_state
  | connected ↦ throw bad_state
  | shut_down ↦ throw bad_state
]

-- `m_poller.addPolled(*this)`
unfoldable pub add_self : Local → Result Local
unfolding set_pollfd
add_self t = do
  (fd, events, t') ← set_pollfd t
  ok (record t' {
    shared = record t'.shared { poller = add_polled t.address fd events t'.shared.poller };
  })

-- The connection object of either kind.
abbrev pub side_connection : Side → Connection
side_connection (listening a) = a.connection
side_connection (connecting c) = c

-- What `startHandshaking` sends of the connections, in the order of the map.
abbrev pub named : List (ℕ × Side) → List Named
named sides = map (λ (x : ℕ × Side). ((side_connection x.1).id, (side_connection x.1).spec)) sides

-- The four calls of `start`, with the writer set to the pipe.
unfoldable pub start_polling : Local → Result Local
unfolding add_self
start_polling t = do
  let t0 : Local = record t {
    shared = record t.shared { writer_polled = some (t.address, t.write_fd) };
  }
  t1 ← add_self t0
  t2 ← add_self t1
  t3 ← add_self t2
  add_self t3

-- `detach` is daemon(), which throws in the parent; `refuses` is what write(2) makes of a remote
-- command, `none` where it is written whole.
module _ (detach : Result (Unit {0})) (refuses : List ℕ → Option Errno) where
  -- `startHandshaking`.
  unfoldable pub start_handshake : Local → Result Local
  start_handshake t = do
    s ← send (writing (write_create (named t.connection_map)) t.shared)
    let t' : Local = record t {
      state = hand_shake;
      write_buffer = clear t.write_buffer;
      shared = record s { poller = remove_polled t.address 0 s.poller };
    }
    modes ← given_modes t.tty.is_terminal t.tty.termios
    (if t.daemon then detach else ok tt) >> ok (record t' { modes = t.modes ++ modes })

  sent_command : List ℕ → Local → Option Errno → Result Local
  sent_command command t none = ok (record t { commands = t.commands ++ command ∷ [] })
  sent_command command t (some e) = throw (errno e)

  -- `remoteInit`: the command is written with a newline.
  unfoldable pub init_remote : Local → Result Local
  unfolding sent_command
  init_remote t =
      let command = t.detector.remote_cmd ++ 10 ∷ [] in sent_command command t (refuses command)

  unfoldable pub obey : List Signal → Local → Result Local
  unfolding start_handshake init_remote
  obey [] t = ok t
  obey (start_handshaking ∷ signals) t = start_handshake t >>= obey signals
  obey (remote_init ∷ signals) t = init_remote t >>= obey signals

  -- The `processReadData` of `m_read_buffer`.
  unfoldable pub detect : List ℕ → Local → Result Local
  unfolding obey
  detect bytes t = process_read_data bytes t.detector >>= λ (d, signals).
      obey signals (record t { detector = d })

-- The loop of `start` that makes the connections; ids are shorts, counted from `g_id`.
module _ (open_listener : ConnectionSpec → Opened) (attempt : ConnectionSpec → Attempt) where
  unfoldable pub add_side : Local → Option Side × Shared → Local
  add_side t (none, s) = record t { shared = s }
  add_side t (some side, s) = record t {
    connection_map = put_side (side_connection side).id side t.connection_map;
    shared = s;
  }

  unfoldable pub create_connections : ℕ → List ConnectionSpec → Local → Result Local
  unfolding add_side
  create_connections id [] t = ok t
  create_connections id (spec ∷ specs) t = do
    x ← create_connection open_listener attempt (λ a s. ok s) true (to_int id) spec t.shared
    create_connections (to_short (id + 1)) specs (add_side t x)
