-- ===== src/Tests/MultiplexTests.antt =====
-- The links of two connections over one channel at a concrete input.
use tun.Prelude.{ℕ, All, length, ◌<◌, ◌≤◌, ◌≡◌, refl, List, [], ◌∷◌, arith, true, false, some}
use tun.Net.Result.{ok}
use tun.Net.Kernel.{Events}
use tun.Net.WriteStream
use tun.Net.ReadStream
use tun.Net.Poller
use tun.Net.Poller.{set_events}
use tun.Net.Poller.Entries.{no_events, find_polled}
use tun.Tunnel.Spec.{ConnectionSpec, connect}
use tun.Tunnel.Link
use tun.Tunnel.Link.{ConnectionLink, Shared, wants}
use tun.Tunnel.Connection.{Connection, find_link}
use tun.Tunnel.Side.{Side, listening, connecting}
use tun.Tunnel.Remote.{Remote, connected, find_side, remote_stdin}
use tun.Tunnel.Multiplex.{Piece, IsSmall, IsKnown}
use tun.Tunnel.Multiplex.Steps.{Moved}
use tun.Tunnel.Multiplex.Runs.{run_end}
use tun.Tunnel.Multiplex.Ends.{IsIdle}
use tun.Tunnel.Multiplex.Arrivals.{IsReadable, IsDelivered}
use tun.Tunnel.Multiplex.LocalEnd.{local_view}
use tun.Tunnel.Local.{Local}
use tun.Tunnel.Local.Polled.{tunnel_read}
use tun.Tests.LocalTests.{local, accepts}
use tun.Tunnel.Multiplex.RemoteEnd.{remote_view}
use tun.Tunnel.Multiplex.Sender.{Act, sends, flush, pieces, IsWriting, run_links}
use tun.Tunnel.Multiplex.Channel.{
  remote_delivers, remote_delivers_each, local_delivers, local_delivers_each,
}
use tun.Tests.Channel.{greedy, blank, greedy_full}
use tun.Tests.RemoteTests.{no_server, no_listener, unreachable, report}

abbrev both : Events
both = record no_events { pollin = true; pollout = true }

abbrev link : ℕ → ConnectionLink
link i = record {
  address = 70;
  socket = 9;
  link_id = i;
  buffer = record { queue = 5 ∷ []; output = [] };
  closing = false;
  acknowledged = true;
}

abbrev pub spec : ConnectionSpec
spec = record {
  connection_type = connect;
  connect_host = b'd' ∷ b'b' ∷ [];
  connect_port = 5432;
  listen_port = 8080;
  flags = 1;
}

abbrev connection : ℕ → Connection
connection id = record { spec = spec; id = id; link_map = link 501 ∷ link 502 ∷ [] }

abbrev sides : List (ℕ × Side)
sides =
    (0, connecting (connection 0))
    ∷ (1, listening (record { connection = connection 1; next_id = 503 }))
    ∷ []

-- The first piece is for acknowledgment.
abbrev acts : List Act
acts =
    sends 1 0 (link 502) (7 ∷ 8 ∷ [])
    ∷ sends 0 1 (link 501) (9 ∷ [])
    ∷ sends 0 0 (link 502) (3 ∷ [])
    ∷ flush both both
    ∷ flush both both
    ∷ flush both both
    ∷ []

abbrev idle : Shared
unfolding WriteStream.fresh ReadStream.fresh Poller.fresh
idle = record {
  writer = WriteStream.fresh;
  writer_polled = some (1, 1);
  reader = ReadStream.fresh;
  poller = Poller.fresh;
  closed = [];
}

-- What the sender has written.
abbrev wired : List ℕ
wired =
    0 ∷ 0 ∷ 0 ∷ 12 ∷ 1 ∷ 147 ∷ 0 ∷ 0 ∷ 1 ∷ 136 ∷ 1 ∷ 246 ∷ 0 ∷ 2 ∷ 7 ∷ 8 ∷ 0 ∷ 0 ∷ 0 ∷ 11 ∷ 1 ∷ 147
    ∷ 0 ∷ 1 ∷ 1 ∷ 132 ∷ 1 ∷ 245 ∷ 0 ∷ 1 ∷ 9 ∷ 0 ∷ 0 ∷ 0 ∷ 11 ∷ 1 ∷ 147 ∷ 0 ∷ 0 ∷ 1 ∷ 132 ∷ 1 ∷ 246
    ∷ 0 ∷ 1 ∷ 3 ∷ []

idle-IsWriting : IsWriting idle
unfolding idle WriteStream.fresh
idle-IsWriting = record {
  queue = refl;
  sound = tt;
  nothing = refl;
  polled = (1, 1);
  has_polled = refl;
}

idle-IsIdle : IsIdle idle
unfolding idle ReadStream.fresh
idle-IsIdle = record {
  queue = refl;
  valid = record { room = omega arith; within = omega arith; begun = tt };
  polled = λ e. cc;
}

acts-sent : run_links greedy 1 acts idle blank ≡ ok (idle, record { inbox = []; outbox = wired })
unfolding idle run_links Link.send_data WriteStream.empty WriteStream.send WriteStream.write_bytes
    WriteStream.write_short WriteStream.send_packet WriteStream.write_packet set_events find_polled
acts-sent = refl

acts-IsKnown : All (IsKnown sides) (pieces acts)
unfolding find_side find_link
acts-IsKnown = (
  (small (omega arith) (omega arith) (omega arith), λ e. cc),
  (
    (small (omega arith) (omega arith) (omega arith), λ e. cc),
    ((small (omega arith) (omega arith) (omega arith), λ e. cc), tt),
  ),
)
  where
    small : {p : Piece} → p.id < 32768 → p.link_id < 65536 → length p.bytes ≤ 4096 → IsSmall p
    small h i n = record { small_id = h; small_link = i; small_bytes = n }

abbrev remote : Remote
remote = record {
  state = connected;
  connection_map = sides;
  socks5_server = false;
  closed_by_request = false;
  address = 1;
  shared = idle;
}

remote_delivers_example : Moved greedy 0 remote_view (pieces acts) [] sides (
    run_end
      (remote_stdin greedy no_server no_listener unreachable report)
      (both ∷ both ∷ [])
      remote
      (record { inbox = wired; outbox = [] }))
unfolding idle WriteStream.fresh
remote_delivers_example =
    remote_delivers no_server no_listener unreachable report greedy greedy 1 acts (both ∷ both ∷ [])
      idle idle blank (record { inbox = []; outbox = wired }) remote
      (record { inbox = wired; outbox = [] }) idle-IsWriting acts-sent refl
      (record { is_connected = refl; idle = idle-IsIdle }) acts-IsKnown

good : IsReadable both
good = record { input = refl; no_err = refl; no_hup = refl; no_nval = refl }

remote_delivers_each_example : IsDelivered greedy 0 remote_view (pieces acts) sides [] (
    run_end
      (remote_stdin greedy no_server no_listener unreachable report)
      (both ∷ both ∷ both ∷ [])
      remote
      (record { inbox = wired; outbox = [] }))
unfolding idle WriteStream.fresh ReadStream.fresh
remote_delivers_each_example =
    remote_delivers_each no_server no_listener unreachable report greedy greedy 1 acts
      (both ∷ both ∷ both ∷ []) idle idle blank (record { inbox = []; outbox = wired }) remote
      (record { inbox = wired; outbox = [] }) (greedy_full 0) idle-IsWriting acts-sent refl refl
      (record { is_connected = refl; idle = idle-IsIdle }) refl acts-IsKnown refl
      (good, (good, (good, tt)))

abbrev local_end : Local
local_end = record local { read_fd = 0; connection_map = sides; shared = idle }

local_delivers_example : Moved greedy 0 (local_view 0) (pieces acts) [] sides (
    run_end
      (tunnel_read (ok tt) accepts greedy unreachable)
      (both ∷ both ∷ [])
      local_end
      (record { inbox = wired; outbox = [] }))
unfolding idle WriteStream.fresh
local_delivers_example =
    local_delivers (ok tt) accepts unreachable greedy greedy 1 0 acts (both ∷ both ∷ []) idle idle
      blank (record { inbox = []; outbox = wired }) local_end
      (record { inbox = wired; outbox = [] }) idle-IsWriting acts-sent refl
      (record { pipe = refl; idle = idle-IsIdle }) acts-IsKnown

local_delivers_each_example : IsDelivered greedy 0 (local_view 0) (pieces acts) sides [] (
    run_end
      (tunnel_read (ok tt) accepts greedy unreachable)
      (both ∷ both ∷ both ∷ [])
      local_end
      (record { inbox = wired; outbox = [] }))
unfolding idle WriteStream.fresh ReadStream.fresh
local_delivers_each_example =
    local_delivers_each (ok tt) accepts unreachable greedy greedy 1 0 acts (both ∷ both ∷ both ∷ [])
      idle idle blank (record { inbox = []; outbox = wired }) local_end
      (record { inbox = wired; outbox = [] }) (greedy_full 0) idle-IsWriting acts-sent refl refl
      (record { pipe = refl; idle = idle-IsIdle }) refl acts-IsKnown refl (good, (good, (good, tt)))
