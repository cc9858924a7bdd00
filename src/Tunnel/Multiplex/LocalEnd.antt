-- ===== src/Tunnel/Multiplex/LocalEnd.antt =====
-- `polled` of StdioTunnelLocal for the read pipe, during the handshake and once connected.
use tun.Prelude.{
  ℕ, ◌≤◌, length, take, ◌∷◌, ◌≡◌, refl, sym, subst, List, [], not, ◌++◌, map, All, Option,
}
use tun.Net.Result.{Result, ok, Errno, read_pipe_closed, ◌>>=◌}
use tun.Net.Kernel.{Kernel, Events, got}
use tun.Net.WriteStream.Packets.{frame, frames}
use tun.Net.ReadStream.{ReadStream, fill}
use tun.Net.ReadStream.Frames.{IsValid, unread, Fills, fill_step_lem}
use tun.Net.ReadStream.Failures.{fill_fails}
use tun.Net.ReadStream.Values.Laws.{read_short-bytes}
use tun.Tunnel.Spec.{ConnectionSpec}
use tun.Tunnel.Link.{Shared, cmd_connection, send_command}
use tun.Tunnel.Link.Messages.{arriving, link_bytes, data_bytes}
use tun.Tunnel.Connection.{Attempt}
use tun.Tunnel.Side.{Opened}
use tun.Tunnel.Local.{Local}
use tun.Tunnel.Local.Polled.{local_command, tunnel_read, is_broken}
use tun.Tunnel.Multiplex.{Piece, piece_bytes, IsSmall, IsKnown, found_lem, Found}
use tun.Tunnel.Multiplex.Steps.{View, Moved, Handled, Unchanged, filled-Moved, require-Moved}
use tun.Tunnel.Multiplex.Arrivals.{IsReadable, IsDelivered, Handled-IsDelivered, fill_piece}
use tun.Tunnel.Multiplex.Ends.{
  IsIdle, take_message, take_message-empty, take_message-piece, after_command, id_lem,
  dispatched-Handled, dispatched,
}

pub record IsReady (fd : ℕ) (t : Local) : Type 0 where
  pub pipe : t.read_fd ≡ fd
  pub idle : IsIdle t.shared

abbrev pub local_view : ℕ → View Local
local_view fd = record {
  sides = λ t. t.connection_map;
  reader = λ t. t.shared.reader;
  IsReady = IsReady fd;
}

module _ (detach : Result (Unit {0})) (refuses : List ℕ → Option Errno) (k : Kernel)
    (attempt : ConnectionSpec → Attempt) where
  open k use {Os}

  abbrev filled : Local → ReadStream → Local
  filled t r = record t { shared = record t.shared { reader = r } }

  -- The message that follows `fill`.
  abbrev handle : Local → ReadStream → ℕ → Shared → Result Local
  handle t r command s =
      local_command detach refuses k attempt command (record (filled t r) { shared = s })

  abbrev rest : Local → ReadStream → Result Local
  rest t r = take_message (handle t r) (filled t r) (filled t r).shared

  local_dispatch :
      (t : Local) (s : Shared) (p : Piece) (f : Found t.connection_map p.id p.link_id)
      → IsSmall p
      → local_command detach refuses k attempt cmd_connection
          (record t { shared = arriving (after_command p) s })
        ≡ dispatched
            (λ spec. Opened.not_opened)
            attempt
            (λ a s'. ok s')
            (λ sides s'. record t { connection_map = sides; shared = s' })
            t.connection_map
            p
            f.side
            s
  unfolding local_command
  local_dispatch t s p f small =
      let rest = link_bytes (send_command p.flags) p.link_id (data_bytes p.bytes) in
      rw ((read_short-bytes p.id).takes rest s.reader, id_lem p small, f.there) refl

  rest-Handled :
      (fd : ℕ) (t : Local) (r : ReadStream) (p : Piece)
      → IsReady fd t
      → IsValid r
      → r.queue ≡ piece_bytes p
      → IsKnown t.connection_map p
      → Handled k fd (local_view fd) p t.connection_map r (rest t r)
  rest-Handled fd t r p ready valid q known =
      let f = found_lem t.connection_map p.id p.link_id known.1 in
      let s : Shared = (filled t r).shared in
      rw (take_message-piece (handle t r) (filled t r) s p q, local_dispatch t s p f known.0)
        (dispatched-Handled (λ spec. Opened.not_opened) attempt (λ a s'. ok s') (local_view fd)
          (λ sides s'. record t { connection_map = sides; shared = s' }) (λ sides s. refl)
          (λ sides s. refl) (λ sides s idle. record { pipe = ready.pipe; idle = idle }) k fd p
          t.connection_map s f known.0 valid ready.idle.polled)

  rest-Unchanged :
      (fd : ℕ) (t : Local) (r : ReadStream)
      → IsReady fd t
      → IsValid r
      → r.queue ≡ []
      → Unchanged k fd (local_view fd) t.connection_map r (rest t r)
  rest-Unchanged fd t r ready valid q =
      rw (take_message-empty (handle t r) (filled t r) (filled t r).shared q) (
        record {
          pipe = ready.pipe;
          idle = record { queue = q; valid = valid; polled = ready.idle.polled };
        },
        refl,
        refl,
      )

  pub tunnel_read-Moved :
      (fd : ℕ) (revents : Events) (t : Local) (o : Os) (ps : List Piece) (more : List ℕ)
      → IsReady fd t
      → unread k fd t.shared.reader o ++ more ≡ frames (map piece_bytes ps)
      → All (IsKnown t.connection_map) ps
      → Moved k fd
          (local_view fd)
          ps
          more
          t.connection_map
          (tunnel_read detach refuses k attempt revents t o)
  unfolding tunnel_read
  tunnel_read-Moved fd revents t o ps more ready e known =
      let before = unread k fd t.shared.reader o in
      let filled_lem =
        filled-Moved k fd (local_view fd) t.connection_map (rest t)
          (λ r. rest-Unchanged fd t r ready) (λ r p. rest-Handled fd t r p ready) ps more before
          (fill k fd revents t.shared.reader o)
          (subst (λ q. Fills k fd q before (fill k fd revents t.shared.reader o)) ready.idle.queue
            (fill_step_lem k fd t.shared.reader revents o ready.idle.valid))
          (fill_fails k fd revents t.shared.reader o) e known in
      require-Moved k fd (local_view fd) ps more t.connection_map
        (not (is_broken detach refuses k attempt revents)) read_pipe_closed _ tt
        (subst
          (λ n.
            Moved k fd (local_view fd) ps more t.connection_map
              (fill k n revents t.shared.reader o >>= λ (r, o'). rest t r >>= λ t'. ok (t', o')))
          (sym ready.pipe) filled_lem)

  module _ (fd : ℕ)
      (full : (n : ℕ) (o : Os)
        → n ≤ length (k.incoming o fd)
        → (o' : Os) × (k.read fd n o ≡ (got (take n (k.incoming o fd)), o'))) where
    pub tunnel_read-IsDelivered :
        (revents : Events) (t : Local) (o : Os) (p : Piece) (u : List ℕ)
        → IsReadable revents
        → IsReady fd t
        → t.shared.reader.read_buf ≡ []
        → k.incoming o fd ≡ frame (piece_bytes p) ++ u
        → IsKnown t.connection_map p
        → IsDelivered k fd
            (local_view fd)
            (p ∷ [])
            t.connection_map
            u
            (tunnel_read detach refuses k attempt revents t o)
    unfolding tunnel_read
    tunnel_read-IsDelivered revents t o p u good ready b e known =
        let s : Shared = t.shared in
        let (r, o', run, arrived) =
          fill_piece k fd full p u s.reader revents o good.input ready.idle.queue ready.idle.valid b
            e known.0 in
        let run' : fill k t.read_fd revents s.reader o ≡ ok (r, o') =
          subst (λ n. fill k n revents s.reader o ≡ ok (r, o')) (sym ready.pipe) run in
        simp (good.no_err, good.no_hup, good.no_nval, run')
          (Handled-IsDelivered k fd (local_view fd) p t.connection_map u r o' (rest t r)
            (rest-Handled fd t r p ready arrived.valid arrived.queue known) arrived.begun
            arrived.left)
