-- ===== src/Tunnel/Multiplex/Take.antt =====
-- What one data message does to the connections of the end that takes it.
use tun.Prelude.{
  ℕ, ◌≡◌, refl, sym, ap, subst, ◌∙◌, List, [], ◌∷◌, ◌++◌, append_assoc, append-nil, true, false,
  some, arith, to_short, ◌==◌, if◌then◌else◌, Bool-cases, inl, inr,
}
use tun.Net.Result.{Result, ok, throw, undefined, ◌>>=◌}
use tun.Net.WriteStream
use tun.Net.ReadStream.Values.Laws.{holding}
use tun.Net.Poller.{set_events}
use tun.Net.SockBuffer.{push_on_buffer}
use tun.Tunnel.Spec.{ConnectionSpec}
use tun.Tunnel.Link.{
  ConnectionLink, Shared, acks, write_data_message, send_command, writing, write_header, link_ack,
  wants,
}
use tun.Tunnel.Link.Messages.{arriving, link_bytes, data_bytes, send_long, write_header_long}
use tun.Tunnel.Connection.{Connection, find_link, put_link, Attempt}
use tun.Tunnel.Connection.Delivery.{data_outcome, body, body-data, listen-data, connect-data}
use tun.Tunnel.Connection.Links.{find_link-put_link, find_link-id}
use tun.Tunnel.Side.{Side, listening, connecting, Opened, process_message}
use tun.Tunnel.Remote.{find_side, put_side}
use tun.Tunnel.Local.{side_connection}
use tun.Tunnel.Multiplex.{
  IsSmall, Piece, for_link, contents_of, waiting, appended, appended-nil, find_side-put_side,
}

-- The link with the bytes in its buffer.
abbrev pub filled : List ℕ → ConnectionLink → ConnectionLink
filled bytes l = record l { buffer = push_on_buffer bytes l.buffer }

contents_of-filled :
    (bytes : List ℕ) (l : ConnectionLink)
    → l.closing ≡ false
    → contents_of (some (filled bytes l)) ≡ appended bytes (contents_of (some l))
unfolding push_on_buffer
contents_of-filled bytes l h =
    rw h (ap some (sym (append_assoc l.buffer.output l.buffer.queue bytes)))

module _ (p : Piece) (sides : List (ℕ × Side)) (side side' : Side) (l : ConnectionLink)
    (there : find_side p.id sides ≡ some side)
    (found : find_link p.link_id (side_connection side).link_map ≡ some l)
    (open' : l.closing ≡ false)
    (link_map' : (side_connection side').link_map
      ≡ put_link (filled p.bytes l) (side_connection side).link_map) where
  same_side :
      (i : ℕ)
      → contents_of (find_link i (side_connection side').link_map)
        ≡ appended
            (if p.link_id == i then p.bytes else [])
            (contents_of (find_link i (side_connection side).link_map))
  same_side i =
      let links : List ConnectionLink = (side_connection side).link_map in
      let id_is : l.link_id ≡ p.link_id = find_link-id p.link_id links l found in
      let put = find_link-put_link (filled p.bytes l) i links in
      elim (Bool-cases (p.link_id == i)) [
        | inl e ↦
            let hit : (l.link_id == i) ≡ true = ap (λ j. j == i) id_is ∙ e in
            let found_i : find_link i links ≡ some l =
              subst (λ j. find_link j links ≡ some l) (ground arith) found in
            rw (link_map', put, hit, e, found_i) (contents_of-filled p.bytes l open')
        | inr e ↦
            let miss : (l.link_id == i) ≡ false = ap (λ j. j == i) id_is ∙ e in
            rw (link_map', put, miss, e) (sym (appended-nil _))
      ]

  pub waiting-put_side :
      (id i : ℕ)
      → waiting (put_side p.id side' sides) id i
        ≡ appended (for_link id i (p ∷ [])) (waiting sides id i)
  waiting-put_side id i =
      let put = find_side-put_side p.id id side' sides in
      elim (Bool-cases (p.id == id)) [
        | inl e ↦
            let there_id : find_side id sides ≡ some side =
              subst (λ j. find_side j sides ≡ some side) (ground arith) there in
            rw (put, e, there_id, append-nil) (same_side i)
        | inr e ↦ rw (put, e) (sym (appended-nil _))
      ]

-- A side that took the piece: the bytes are in the link, and nothing is left in the reader.
pub record IsTaken (p : Piece) (side : Side) (l : ConnectionLink) (s : Shared) (side' : Side)
    (s' : Shared) : Type 0 where
  pub links :
      (side_connection side').link_map ≡ put_link (filled p.bytes l) (side_connection side).link_map
  pub reader : s'.reader ≡ holding [] s.reader
  pub polled : s'.writer_polled ≡ s.writer_polled

abbrev pub Takes : Piece → Side → ConnectionLink → Shared → Result (Side × Shared) → Type 0
Takes p side l s (ok (side', s')) = IsTaken p side l s side' s'
Takes p side l s (throw e) = ⊥
Takes p side l s undefined = ⊥

data_outcome-Takes :
    (p : Piece) (c : Connection) (l : ConnectionLink) (s : Shared) (q : ℕ × ℕ)
    (wrap : Connection → Side)
    → s.writer_polled ≡ some q
    → ((c' : Connection) → side_connection (wrap c') ≡ c')
    → Takes p
        (wrap c)
        l
        s
        (data_outcome p.flags p.bytes c l (arriving [] s) >>= λ (c', s'). ok (wrap c', s'))
data_outcome-Takes p c l s q wrap h same =
    let links =
      ap (λ (c' : Connection). c'.link_map)
        (same (record c { link_map = put_link (filled p.bytes l) c.link_map }))
      ∙ sym (ap (λ (c' : Connection). put_link (filled p.bytes l) c'.link_map) (same c)) in
    let answering : Shared =
      writing (write_header c.id link_ack l.link_id) (record (arriving [] s) {
        poller = set_events l.address l.socket (wants false true) s.poller;
      }) in
    let long = write_header_long c.id link_ack l.link_id s.writer in
    elim (Bool-cases (acks p.flags)) [
      | inl e ↦
          rw (e, send_long answering q h (omega (arith, long)))
            (record { links = links; reader = refl; polled = refl })
      | inr e ↦ rw e (record { links = links; reader = refl; polled = refl })
    ]

-- The message without the connection is what `body` leaves of one of `send_data`.
link_bytes-body :
    (p : Piece) (id : ℕ)
    → link_bytes (send_command p.flags) p.link_id (data_bytes p.bytes)
      ≡ body (write_data_message p.flags id p.link_id p.bytes WriteStream.fresh) ++ []
link_bytes-body p id = sym (body-data p.flags id p.link_id p.bytes [] ∙ rw append-nil refl)

module _ (open_listener : ConnectionSpec → Opened) (attempt : ConnectionSpec → Attempt)
    (report : Attempt → Shared → Result Shared) where
  pub process_message-Takes :
      (p : Piece) (side : Side) (l : ConnectionLink) (s : Shared) (q : ℕ × ℕ)
      → IsSmall p
      → s.writer_polled ≡ some q
      → find_link p.link_id (side_connection side).link_map ≡ some l
      → l.closing ≡ false
      → Takes p side l s (
          process_message open_listener attempt report side
            (arriving (link_bytes (send_command p.flags) p.link_id (data_bytes p.bytes)) s))
  unfolding process_message
  process_message-Takes p (listening a) l s q small h found open' =
      let own : to_short p.link_id ≡ p.link_id = omega (arith, small.small_link) in
      let found' : find_link (to_short p.link_id) a.connection.link_map ≡ some l = rw own found in
      rw
        (
          link_bytes-body p a.connection.id,
          listen-data p.flags p.link_id p.bytes [] a.connection l s small.small_bytes found' open',
        )
        (data_outcome-Takes p a.connection l s q (λ c. listening (record a { connection = c })) h
          (λ c. refl))
  process_message-Takes p (connecting c) l s q small h found open' =
      let own : to_short p.link_id ≡ p.link_id = omega (arith, small.small_link) in
      let found' : find_link (to_short p.link_id) c.link_map ≡ some l = rw own found in
      rw
        (
          link_bytes-body p c.id,
          connect-data attempt report p.flags p.link_id p.bytes [] c l s small.small_bytes found'
              open',
        )
        (data_outcome-Takes p c l s q connecting h (λ c. refl))
