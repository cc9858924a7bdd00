-- ===== src/Tests/RemoteTests.antt =====
-- The handshake at a concrete input.
use tun.Prelude.{ℕ, ◌≡◌, refl, List, [], ◌∷◌, ◌++◌, map, arith, true, false, Option, none, some}
use tun.Net.Result.{Result, ok, undefined, ◌>>=◌, socks5_failed}
use tun.Net.WriteStream
use tun.Net.ReadStream
use tun.Net.Poller
use tun.Tunnel.Spec.{ConnectionSpec, connect}
use tun.Tunnel.Link.{Shared}
use tun.Tunnel.Connection.{Attempt, no_host, remote_report_error}
use tun.Tunnel.Side.{Opened, not_opened}
use tun.Tunnel.Remote.{Remote, Started, not_started, handshaking, handshake, cmd_create}
use tun.Tunnel.Remote.Handshake.{
  Named, at, create_body, create_all, received, answered, handshake-write_create,
}
use tun.Net.Result.{Errno}
use tun.Net.Poller.Entries.{new_entry}
use tun.Tunnel.Detector.{Detector, Signal, process_read_data}
use tun.Tunnel.Detector.Laws.{magic_text, starts}
use tun.Tunnel.Remote.{initial}
use tun.Tunnel.Link.{wants}
use tun.Tunnel.Remote.Start.{start_remote, start_remote-detects}
use tun.Tests.Channel.{fours}

abbrev remote : Remote
unfolding WriteStream.fresh ReadStream.fresh Poller.fresh
remote = record {
  state = handshaking;
  connection_map = [];
  socks5_server = false;
  closed_by_request = false;
  address = 1;
  shared = record {
    writer = WriteStream.fresh;
    writer_polled = some (1, 1);
    reader = ReadStream.fresh;
    poller = Poller.fresh;
    closed = [];
  };
}

abbrev specs : List Named
specs =
    (
      0,
      record {
        connection_type = connect;
        connect_host = b'd' ∷ b'b' ∷ [];
        connect_port = 5432;
        listen_port = 8080;
        flags = 1;
      },
    )
    ∷ []

abbrev pub no_server : ℕ → Started
no_server port = not_started socks5_failed

abbrev pub no_listener : ConnectionSpec → Opened
no_listener s = not_opened

abbrev pub unreachable : ConnectionSpec → Attempt
unreachable s = no_host

abbrev pub report : Attempt → Shared → Result Shared
report a s = remote_report_error [] s

-- Two bytes wait in front of the answer.
abbrev preceded : Remote
unfolding remote
preceded = record remote {
  shared = record remote.shared { writer = record { queue = 1 ∷ 2 ∷ []; packet_queue = [] } };
}

handshake-write_create_example :
    handshake fours no_server no_listener unreachable report cmd_create
      (at (create_body specs ++ 7 ∷ []) preceded)
    ≡ create_all fours no_server no_listener unreachable report
        (map (received fours no_server no_listener unreachable report) specs)
        (at (7 ∷ []) preceded)
      >>= answered fours no_server no_listener unreachable report
handshake-write_create_example =
    handshake-write_create fours no_server no_listener unreachable report specs (7 ∷ []) preceded
      (omega arith, tt) (omega arith)

-- Without them the answer is two bytes long, and is written past its block.
answer_overruns : answered fours no_server no_listener unreachable report remote ≡ undefined
unfolding remote WriteStream.fresh
answer_overruns = refl

abbrev new_remote : Remote
unfolding remote
new_remote = record remote { state = initial }

abbrev new_detector : Detector
new_detector = record {
  recognized_count = 0;
  magic_string = magic_text;
  recognized_login_count = 0;
  login_pattern = [];
  remote_cmd = [];
}

abbrev accepts_all : List ℕ → Option Errno
accepts_all bytes = none

start_remote-detects_example :
    (bytes : List ℕ) × (r' : Remote) × (d' : Detector) × (signals : List Signal) × (start_remote
        accepts_all none new_remote
      ≡ ok (bytes, r'))
    × (r'.state ≡ handshaking)
    × (r'.shared.poller.entries
        ≡ new_remote.shared.poller.entries
          ++ (new_entry new_remote.address 0 (wants true false)
              ∷ new_entry new_remote.address 1 (wants false false)
              ∷ []))
    × (process_read_data ((b'$' ∷ []) ++ (bytes ++ (b'Z' ∷ []))) new_detector ≡ ok (d', signals))
    × (starts signals ≡ true)
unfolding new_remote
start_remote-detects_example =
    start_remote-detects accepts_all none new_remote new_detector (b'$' ∷ []) (b'Z' ∷ []) refl refl
      refl refl refl (omega arith)
