-- ===== src/Tunnel/Multiplex/RemoteEnd.antt =====
-- `polled` of StdioTunnelRemote for standard input, once connected.
use tun.Prelude.{ℕ, ◌≤◌, length, take, ◌≡◌, refl, subst, List, [], ◌∷◌, not, to_int, ◌++◌, map, All}
use tun.Net.Result.{Result, stdin_closed, bad_poll}
use tun.Net.Kernel.{Kernel, Events, got}
use tun.Net.WriteStream.Packets.{frame, frames}
use tun.Net.ReadStream.{ReadStream, fill}
use tun.Net.ReadStream.Frames.{IsValid, unread, Fills, fill_step_lem}
use tun.Net.ReadStream.Failures.{fill_fails}
use tun.Net.ReadStream.Values.Laws.{read_short-bytes}
use tun.Tunnel.Spec.{ConnectionSpec}
use tun.Tunnel.Link.{Shared, cmd_connection, send_command}
use tun.Tunnel.Link.Messages.{arriving, link_bytes, data_bytes}
use tun.Tunnel.Connection.{Attempt}
use tun.Tunnel.Side.{Opened}
use tun.Tunnel.Remote.{
  Remote, Started, connected, remote_command, remote_message, remote_stdin, has_error,
}
use tun.Tunnel.Multiplex.{Piece, piece_bytes, IsSmall, IsKnown, found_lem, Found}
use tun.Tunnel.Multiplex.Steps.{View, Moved, Handled, Unchanged, filled-Moved, require-Moved}
use tun.Tunnel.Multiplex.Arrivals.{IsReadable, IsDelivered, Handled-IsDelivered, fill_piece}
use tun.Tunnel.Multiplex.Ends.{
  IsIdle, take_message, take_message-empty, take_message-piece, after_command, id_lem,
  dispatched-Handled, dispatched,
}

pub record IsReady (t : Remote) : Type 0 where
  pub is_connected : t.state ≡ connected
  pub idle : IsIdle t.shared

abbrev pub remote_view : View Remote
remote_view = record {
  sides = λ t. t.connection_map;
  reader = λ t. t.shared.reader;
  IsReady = IsReady;
}

module _ (k : Kernel) (start_socks5 : ℕ → Started) (open_listener : ConnectionSpec → Opened)
    (attempt : ConnectionSpec → Attempt) (report : Attempt → Shared → Result Shared) where
  open k use {Os}

  abbrev filled : Remote → ReadStream → Remote
  filled t r = record t { shared = record t.shared { reader = r } }

  -- The message that follows `fill`.
  abbrev handle : Remote → ReadStream → ℕ → Shared → Result Remote
  handle t r command s =
      remote_message k start_socks5 open_listener attempt report (to_int command)
        (record (filled t r) { shared = s })

  abbrev rest : Remote → ReadStream → Result Remote
  rest t r = take_message (handle t r) (filled t r) (filled t r).shared

  remote_message-connected :
      (command : ℕ) (t : Remote)
      → t.state ≡ connected
      → remote_message k start_socks5 open_listener attempt report command t
        ≡ remote_command k start_socks5 open_listener attempt report command t
  unfolding remote_message
  remote_message-connected command t h = rw h refl

  remote_dispatch :
      (t : Remote) (s : Shared) (p : Piece) (f : Found t.connection_map p.id p.link_id)
      → t.state ≡ connected
      → IsSmall p
      → remote_message k start_socks5 open_listener attempt report cmd_connection
          (record t { shared = arriving (after_command p) s })
        ≡ dispatched open_listener attempt report
            (λ sides s'. record t { connection_map = sides; shared = s' })
            t.connection_map
            p
            f.side
            s
  unfolding remote_command
  remote_dispatch t s p f h small =
      let rest = link_bytes (send_command p.flags) p.link_id (data_bytes p.bytes) in
      rw
        (
          remote_message-connected cmd_connection
              (record t { shared = arriving (after_command p) s }) h,
          (read_short-bytes p.id).takes rest s.reader,
          id_lem p small,
          f.there,
        )
        refl

  rest-Handled :
      (t : Remote) (r : ReadStream) (p : Piece)
      → IsReady t
      → IsValid r
      → r.queue ≡ piece_bytes p
      → IsKnown t.connection_map p
      → Handled k 0 remote_view p t.connection_map r (rest t r)
  rest-Handled t r p ready valid q known =
      let f = found_lem t.connection_map p.id p.link_id known.1 in
      let s : Shared = (filled t r).shared in
      rw
        (
          take_message-piece (handle t r) (filled t r) s p q,
          remote_dispatch t s p f ready.is_connected known.0,
        )
        (dispatched-Handled open_listener attempt report remote_view
          (λ sides s'. record t { connection_map = sides; shared = s' }) (λ sides s. refl)
          (λ sides s. refl)
          (λ sides s idle. record { is_connected = ready.is_connected; idle = idle }) k 0 p
          t.connection_map s f known.0 valid ready.idle.polled)

  rest-Unchanged :
      (t : Remote) (r : ReadStream)
      → IsReady t
      → IsValid r
      → r.queue ≡ []
      → Unchanged k 0 remote_view t.connection_map r (rest t r)
  rest-Unchanged t r ready valid q =
      rw (take_message-empty (handle t r) (filled t r) (filled t r).shared q) (
        record {
          is_connected = ready.is_connected;
          idle = record { queue = q; valid = valid; polled = ready.idle.polled };
        },
        refl,
        refl,
      )

  pub remote_stdin-Moved :
      (revents : Events) (t : Remote) (o : Os) (ps : List Piece) (more : List ℕ)
      → IsReady t
      → unread k 0 t.shared.reader o ++ more ≡ frames (map piece_bytes ps)
      → All (IsKnown t.connection_map) ps
      → Moved k 0 remote_view ps more t.connection_map
          (remote_stdin k start_socks5 open_listener attempt report revents t o)
  unfolding remote_stdin
  remote_stdin-Moved revents t o ps more ready e known =
      let filled_lem =
        filled-Moved k 0 remote_view t.connection_map (rest t) (λ r. rest-Unchanged t r ready)
          (λ r p. rest-Handled t r p ready) ps more (unread k 0 t.shared.reader o)
          (fill k 0 revents t.shared.reader o)
          (subst
            (λ q. Fills k 0 q (unread k 0 t.shared.reader o) (fill k 0 revents t.shared.reader o))
            ready.idle.queue (fill_step_lem k 0 t.shared.reader revents o ready.idle.valid))
          (fill_fails k 0 revents t.shared.reader o) e known in
      require-Moved k 0 remote_view ps more t.connection_map
        (not (has_error k start_socks5 open_listener attempt report revents)) stdin_closed _ tt
        (require-Moved k 0 remote_view ps more t.connection_map revents.pollin bad_poll _ tt
          filled_lem)

  module _
      (full : (n : ℕ) (o : Os)
        → n ≤ length (k.incoming o 0)
        → (o' : Os) × (k.read 0 n o ≡ (got (take n (k.incoming o 0)), o'))) where
    pub remote_stdin-IsDelivered :
        (revents : Events) (t : Remote) (o : Os) (p : Piece) (u : List ℕ)
        → IsReadable revents
        → IsReady t
        → t.shared.reader.read_buf ≡ []
        → k.incoming o 0 ≡ frame (piece_bytes p) ++ u
        → IsKnown t.connection_map p
        → IsDelivered k 0 remote_view
            (p ∷ [])
            t.connection_map
            u
            (remote_stdin k start_socks5 open_listener attempt report revents t o)
    unfolding remote_stdin
    remote_stdin-IsDelivered revents t o p u good ready b e known =
        let s : Shared = t.shared in
        let (r, o', run, arrived) =
          fill_piece k 0 full p u s.reader revents o good.input ready.idle.queue ready.idle.valid b
            e known.0 in
        simp (good.input, good.no_err, good.no_hup, good.no_nval, run)
          (Handled-IsDelivered k 0 remote_view p t.connection_map u r o' (rest t r)
            (rest-Handled t r p ready arrived.valid arrived.queue known) arrived.begun arrived.left)
