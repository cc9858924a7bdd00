-- ===== src/Tests/LocalTests.antt =====
-- The local end at concrete inputs.
use tun.Prelude.{true, some, map, ℕ, ◌≡◌, refl, List, [], ◌∷◌, ◌++◌, false, none, Option}
use tun.Net.Result.{ok, Errno}
use tun.Net.WriteStream.Packets.{frame, unsent}
use tun.Net.ReadStream.Values.Laws.{short_bytes}
use tun.Net.SockBuffer.Order.{contents}
use tun.Tunnel.Detector.Laws.{magic_text}
use tun.Tunnel.Link
use tun.Tunnel.Side.{Side, connecting}
use tun.Tunnel.Remote.{cmd_create}
use tun.Tunnel.Remote.Handshake.{create_body}
use tun.Tunnel.Local.{Local, initial, hand_shake, start_handshake, named}
use tun.Tunnel.Spec.{ConnectionSpec}
use tun.Tunnel.Terminal.{Termios}
use tun.Tunnel.Local.Order.{AreAscending}
use tun.Tunnel.Local.Startup.{polling_all, SetsModes, start_handshake-posts}

abbrev sides : List (ℕ × Side)
sides =
    (
      0,
      connecting (record {
        spec = record {
          connection_type = 0;
          connect_host = b'd' ∷ b'b' ∷ [];
          connect_port = 5432;
          listen_port = 8080;
          flags = 1;
        };
        id = 0;
        link_map = [];
      }),
    )
    ∷ []

abbrev pub cooked : Termios
cooked = record {
  ignbrk = false;
  brkint = true;
  parmrk = false;
  istrip = false;
  inlcr = false;
  igncr = false;
  icrnl = true;
  ixon = true;
  opost = true;
  echo = true;
  echonl = false;
  icanon = true;
  isig = true;
  iexten = true;
  parenb = false;
  csize = 8;
  others = 5;
}

abbrev pub local : Local
local = record {
  state = initial;
  read_fd = 3;
  write_fd = 4;
  read_buffer = record { queue = []; output = [] };
  detector = record {
    recognized_count = 0;
    magic_string = magic_text;
    recognized_login_count = 0;
    login_pattern = [];
    remote_cmd = [];
  };
  write_buffer = record { queue = []; output = [] };
  connection_map = sides;
  closed_by_request = false;
  daemon = false;
  tty = record { is_terminal = some true; termios = some cooked };
  modes = [];
  commands = [];
  address = 1;
  shared = record {
    writer = record { queue = []; packet_queue = [] };
    writer_polled = none;
    reader = record { queue = []; read_buf = []; read_size = 4096 };
    poller = record { entries = []; size = 10; orig_size = 0; next_index = 0; finishing = false };
    closed = [];
  };
}

abbrev pub accepts : List ℕ → Option Errno
accepts command = none

handshake_runs : (t : Local) × (start_handshake (ok tt) accepts (polling_all local) ≡ ok t)
unfolding start_handshake Link.send tun.Net.WriteStream.send
    tun.Tunnel.Remote.Handshake.write_create tun.Tunnel.Terminal.given_modes
    tun.Tunnel.Spec.serialize tun.Net.WriteStream.write_short tun.Net.WriteStream.write_string
handshake_runs = (_, refl)

start_handshake-posts_example :
    (unsent handshake_runs.0.shared.writer
      ≡ frame (short_bytes cmd_create ++ create_body (named sides)))
    × AreAscending (map (λ (x : ℕ × ConnectionSpec). x.0) (named sides))
    × (handshake_runs.0.shared.writer.queue ≡ [])
    × (contents handshake_runs.0.write_buffer ≡ [])
    × (handshake_runs.0.state ≡ hand_shake)
    × (handshake_runs.0.connection_map ≡ sides)
    × ((modes : List Termios) × SetsModes (ok tt) accepts local modes
        × (handshake_runs.0.modes ≡ modes))
start_handshake-posts_example =
    start_handshake-posts (ok tt) accepts (polling_all local) handshake_runs.0 refl (refl, tt, tt)
      handshake_runs.1
