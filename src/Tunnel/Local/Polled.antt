-- ===== src/Tunnel/Local/Polled.antt =====
-- StdioTunnelLocal::polled of StdioTunnel.cpp.
use tun.Prelude.{
  ℕ, suc, List, Bool, true, false, not, ◌||◌, Option, none, some, length, ◌==◌, if◌then◌else◌,
  to_int,
}
use tun.Net.Result.{
  Result, ok, undefined, Errno, stdin_closed, read_side_closed, unexpected_revents,
  read_pipe_closed, write_pipe_closed, require, ◌>>=◌, ◌>>◌,
}
use tun.Net.Kernel.{Kernel, Events}
use tun.Net.WriteStream
use tun.Net.WriteStream.{pending_write}
use tun.Net.ReadStream
use tun.Net.ReadStream.{available}
use tun.Net.ReadStream.Values.{read_short, read_string}
use tun.Net.SockBuffer.{SockBuffer, unsent_data, read_data, write_data}
use tun.Net.Poller.{set_events, remove_polled, request_finish}
use tun.Tunnel.Spec.{ConnectionSpec}
use tun.Tunnel.Link.{Shared, wants, reading, cmd_error, cmd_connection}
use tun.Tunnel.Connection.{Attempt}
use tun.Tunnel.Side.{Side, Opened, process_message}
use tun.Tunnel.Remote.{put_side, find_side, cmd_create, cmd_shutdown}
use tun.Tunnel.Local.{
  Local, initial, set_stdio_read, set_stdio_write, set_pipe_read, pass_through, hand_shake,
  connected, shut_down, detect,
}

module _ (detach : Result (Unit {0})) (refuses : List ℕ → Option Errno) (k : Kernel)
    (attempt : ConnectionSpec → Attempt) where
  open k use {Os, incoming}

  abbrev pub read_result :
      Option (Result (ℕ × SockBuffer × Local × Os)) → Result (ℕ × SockBuffer × Local × Os)
  read_result none = undefined
  read_result (some r) = r

  -- `readData`, with fuel for all that is to come, which is enough.
  unfoldable pub read_all :
      (List ℕ → Local → Result Local)
      → ℕ
      → SockBuffer
      → Local
      → Os
      → Result (ℕ × SockBuffer × Local × Os)
  read_all process fd b t o =
      read_result (read_data k process (suc (length (incoming o fd))) fd 0 b t o)

  abbrev pub polling : ℕ → Events → Local → Local
  polling fd events t = record t {
    shared = record t.shared { poller = set_events t.address fd events t.shared.poller };
  }

  abbrev pub Polled : Type 0
  Polled = Result (Local × Os)

  -- The four cases of PASS_THROUGH.
  unfoldable pub pass_read : Local → Os → Polled
  unfolding read_all
  pass_read t o = do
    (total, b, t', o') ← read_all (detect detach refuses) t.read_fd t.read_buffer t o
    require (not (total == 0)) read_side_closed
    let t'' : Local = record t' { read_buffer = b }
    ok (if unsent_data b then polling 1 (wants false true) t'' else t'', o')

  unfoldable pub pass_write : Events → Local → Os → Polled
  pass_write revents t o = do
    require revents.pollout unexpected_revents
    (n, b, o') ← write_data k t.write_fd t.write_buffer o
    let t' : Local = record t { write_buffer = b }
    ok (if unsent_data b then t' else polling t.write_fd (wants false false) t', o')

  unfoldable pub pass_stdin : Local → Os → Polled
  unfolding read_all
  pass_stdin t o = do
    (total, b, t', o') ← read_all (λ bytes h. ok h) 0 t.write_buffer t o
    require (not (total == 0)) stdin_closed
    let t'' : Local = record t' { write_buffer = b }
    ok (if unsent_data b then polling t.write_fd (wants false true) t'' else t'', o')

  unfoldable pub pass_stdout : Events → Local → Os → Polled
  pass_stdout revents t o = do
    require revents.pollout unexpected_revents
    (n, b, o') ← write_data k 1 t.read_buffer o
    let t' : Local = record t { read_buffer = b }
    ok (if unsent_data b then t' else polling 1 (wants false false) t', o')

  unfoldable pub pass_polled : ℕ → Events → Local → Os → Polled
  unfolding pass_read pass_write pass_stdin pass_stdout
  pass_polled fd revents t o = do
    (t1, o1) ← if fd == t.read_fd then pass_read t o else ok (t, o)
    (t2, o2) ← if fd == t1.write_fd then pass_write revents t1 o1 else ok (t1, o1)
    (t3, o3) ← if fd == 0 then pass_stdin t2 o2 else ok (t2, o2)
    if fd == 1 then pass_stdout revents t3 o3 else ok (t3, o3)

  dispatch_side : ℕ → Local → Option Side → Shared → Result Local
  dispatch_side id t none s = undefined
  dispatch_side id t (some side) s = do
    (side', s') ← process_message (λ spec. Opened.not_opened) attempt (λ a s. ok s) side s
    ok (record t { connection_map = put_side id side' t.connection_map; shared = s' })

  -- A message from the remote end; an unknown command does nothing, and an error is printed.
  unfoldable pub local_command : ℕ → Local → Result Local
  unfolding dispatch_side
  local_command command t =
      if command == cmd_error
      then (do (message, s) ← reading read_string t.shared; ok (record t { shared = s }))
      else if command == cmd_create
      then ok (record t { state = connected })
      else if command == cmd_connection
      then (do
        (id, s) ← reading read_short t.shared
        dispatch_side (to_int id) t (find_side (to_int id) t.connection_map) s)
      else if command == cmd_shutdown
      then ok (record t {
        closed_by_request = true;
        shared = record t.shared { poller = request_finish t.shared.poller };
      })
      else ok t

  abbrev pub is_broken : Events → Bool
  is_broken e = e.pollerr || (e.pollnval || e.pollhup)

  -- The three cases of HAND_SHAKE and CONNECTED.
  unfoldable pub tunnel_read : Events → Local → Os → Polled
  unfolding local_command
  tunnel_read revents t o = do
    require (not (is_broken revents)) read_pipe_closed
    (r, o') ← ReadStream.fill k t.read_fd revents t.shared.reader o
    let t1 : Local = record t { shared = record t.shared { reader = r } }
    t2 ←
        if available r
        then (reading read_short t1.shared >>= λ (command, s).
            local_command command (record t1 { shared = s }))
        else ok t1
    ok (t2, o')

  unfoldable pub tunnel_write : Events → Events → Local → Os → Result (Local × Events × Os)
  tunnel_write revents events t o = do
    require (not (is_broken revents)) write_pipe_closed
    (w, events', o') ← WriteStream.empty k t.write_fd revents events t.shared.writer o
    let t' : Local = record t { shared = record t.shared { writer = w } }
    ok (if pending_write w then t' else polling t.write_fd (wants false false) t', events', o')

  unfoldable pub tunnel_stdout : Local → Os → Polled
  tunnel_stdout t o =
      if unsent_data t.read_buffer
      then (do (n, b, o') ← write_data k 1 t.read_buffer o; ok (record t { read_buffer = b }, o'))
      else ok (
        record t {
          shared = record t.shared { poller = remove_polled t.address 1 t.shared.poller };
        },
        o,
      )

  unfoldable pub tunnel_polled : ℕ → Events → Events → Local → Os → Result (Local × Events × Os)
  unfolding tunnel_read tunnel_write tunnel_stdout
  tunnel_polled fd revents events t o = do
    (t1, o1) ← if fd == t.read_fd then tunnel_read revents t o else ok (t, o)
    (t2, events', o2) ←
        if fd == t1.write_fd then tunnel_write revents events t1 o1 else ok (t1, events, o1)
    (t3, o3) ← if fd == 1 then tunnel_stdout t2 o2 else ok (t2, o2)
    ok (t3, events', o3)

  abbrev pub passing : Events → Polled → Result (Local × Events × Os)
  passing events m = m >>= λ (t, o). ok (t, events, o)

  -- `polled`, with the descriptor, the results and the events of the pollfd.
  unfoldable pub local_polled : ℕ → Events → Events → Local → Os → Result (Local × Events × Os)
  unfolding pass_polled tunnel_polled
  local_polled fd revents events t o = elim t.state [
    | initial ↦ ok (t, events, o)
    | set_stdio_read ↦ ok (t, events, o)
    | set_stdio_write ↦ ok (t, events, o)
    | set_pipe_read ↦ ok (t, events, o)
    | pass_through ↦ passing events (pass_polled fd revents t o)
    | hand_shake ↦ tunnel_polled fd revents events t o
    | connected ↦ tunnel_polled fd revents events t o
    | shut_down ↦ ok (t, events, o)
  ]
