-- ===== src/Tests/ProtocolTests.antt =====
-- The theorems on the life of a link at concrete inputs.
use tun.Prelude.{◌≡◌, refl, [], ◌∷◌, ◌++◌, arith, true, false, some}
use tun.Net.WriteStream
use tun.Net.ReadStream
use tun.Net.Poller
use tun.Tunnel.Spec.{ConnectionSpec, connect}
use tun.Tunnel.Link.{ConnectionLink, Shared}
use tun.Tunnel.Link.Messages.{arriving}
use tun.Net.Result.{Result, ok}
use tun.Tunnel.Connection.{
  remote_report_error, Connection, find_link, listen_process_message, connect_process_message,
  Attempt, connected,
}
use tun.Tunnel.Protocol.{
  close, create, created, payload, fresh, open_end, closing, gone, System, accept, near_sends,
  near_closes, near_takes, far_takes, Reach, begin, next, near_receive, far_receive,
}
use tun.Tunnel.Protocol.Phases.{IsPhase, Handled, Reach-IsPhase, Reach-Handled}
use tun.Tunnel.Protocol.Refinement.{Follows, Returns, body_bytes}
use tun.Tunnel.Protocol.Refinement.Near.{listen-Follows}
use tun.Tunnel.Protocol.Refinement.Far.{connects, connect-Follows}

-- A client has come, has been connected, and both ends have sent something.
abbrev busy : System
busy = record {
  near = closing;
  far = open_end;
  to_far = payload (7 ∷ 8 ∷ []) ∷ close ∷ [];
  to_near = [];
}

busy-Reach : Reach true busy
unfolding near_receive far_receive
busy-Reach =
    next
      (next
        (next (next (next begin (accept refl)) (far_takes true refl refl))
          (near_takes {m = created true} refl refl))
        (near_sends (7 ∷ 8 ∷ []) refl))
      (near_closes refl)

abbrev link : ConnectionLink
link = record {
  address = 70;
  socket = 9;
  link_id = 501;
  buffer = record { queue = []; output = [] };
  closing = false;
  acknowledged = true;
}

abbrev spec : ConnectionSpec
spec = record {
  connection_type = connect;
  connect_host = b'd' ∷ b'b' ∷ [];
  connect_port = 5432;
  listen_port = 8080;
  flags = 1;
}

abbrev shared : Shared
unfolding WriteStream.fresh ReadStream.fresh Poller.fresh
shared = record {
  writer = WriteStream.fresh;
  writer_polled = some (1, 5);
  reader = ReadStream.fresh;
  poller = Poller.fresh;
  closed = [];
}

abbrev reachable : ConnectionSpec → Attempt
reachable s = connected 80 12

abbrev near_side : Connection
near_side = record { spec = spec; id = 0; link_map = link ∷ [] }

abbrev far_side : Connection
far_side = record { spec = spec; id = 0; link_map = [] }

Reach-IsPhase_example : IsPhase busy
Reach-IsPhase_example = Reach-IsPhase busy-Reach

Reach-Handled_example :
    Handled (near_receive true) closing []
    × Handled (far_receive true true) open_end (payload (7 ∷ 8 ∷ []) ∷ close ∷ [])
Reach-Handled_example = Reach-Handled true busy-Reach

listen-Follows_example :
    Returns
      (Follows 1 501 shared gone (close ∷ []) (1 ∷ []))
      (listen_process_message near_side (arriving (body_bytes 1 501 close ++ 1 ∷ []) shared))
unfolding near_receive find_link shared
listen-Follows_example =
    listen-Follows 1 501 near_side shared (1, 5) (1 ∷ []) (omega arith) (tt, tt) refl refl open_end
      gone close (close ∷ []) refl tt refl

abbrev report : Attempt → Shared → Result Shared
report a = remote_report_error []

never :
    connects (reachable far_side.spec) ≡ false
    → (s : Shared) → report (reachable far_side.spec) s ≡ ok s
never q s = cc

connect-Follows_example : Returns (Follows 1 501 shared open_end (created true ∷ []) (1 ∷ [])) (
    connect_process_message reachable report far_side
      (arriving (body_bytes 1 501 create ++ 1 ∷ []) shared))
unfolding far_receive find_link shared
connect-Follows_example =
    connect-Follows reachable report 1 501 far_side shared never (1, 5) (1 ∷ []) (omega arith) tt
      refl refl fresh open_end create (created true ∷ []) refl tt refl
