-- ===== src/Tunnel/Protocol/Refinement/Links.antt =====
-- What process_link_message does to a link of the map, message by message.
use tun.Prelude.{
  ℕ, ◌≤◌, ◌≡◌, refl, sym, ◌∙◌, ap, subst, List, [], ◌∷◌, ◌++◌, append-nil, true, false, Option,
  none, some, length, arith, if◌then◌else◌, Bool-cases, inl, inr,
}
use mathlib.Core.Option.{some-injective}
use tun.Net.Result.{ok}
use tun.Net.WriteStream
use tun.Net.WriteStream.{WriteStream}
use tun.Net.WriteStream.Packets.{frame, unsent, unsent-packed}
use tun.Net.ReadStream.Values.Laws.{holding}
use tun.Net.Poller.{set_events}
use tun.Net.SockBuffer.{push_on_buffer, unsent_data}
use tun.Tunnel.Link.{
  wants, ConnectionLink, Shared, send, writing, write_header, set_acknowledged, close_link,
  set_closing, acks, send_command, link_close, link_ack,
}
use tun.Tunnel.Link.Messages.{
  arriving, message_bytes, data_bytes, queue-write_header, receive_data-bytes, sent_to, send_long,
}
use tun.Tunnel.Connection.{Connection, find_link, erase_link, put_link, keep, process_link_message}
use tun.Tunnel.Connection.Delivery.{process_link-data}
use tun.Tunnel.Protocol.{
  Message, create, created, payload, close, ack, End, fresh, waiting, open_end, closing, gone,
  link_receive,
}
use tun.Tunnel.Protocol.Refinement.{
  closing_of, status, shows, Fits, command_of, content, Follows, Returns,
}
use tun.Tunnel.Connection.Links.{IsMap, find_link-put_link_self, find_link-erase_link}

module _ (flags i : ℕ) where
  pub kept_status :
      (l : ConnectionLink) (ls : List ConnectionLink) (e : End)
      → l.link_id ≡ i
      → some l.closing ≡ shows e
      → status i (put_link l ls) ≡ shows e
  kept_status l ls e n k =
      ap closing_of
        (subst (λ j. find_link j (put_link l ls) ≡ some l) n (find_link-put_link_self l ls))
      ∙ k

  pub dropped_status :
      (j : ℕ) (ls : List ConnectionLink) → j ≡ i → IsMap ls → status i (erase_link j ls) ≡ none
  dropped_status j ls n h =
      ap closing_of
        (subst (λ x. find_link i (erase_link x ls) ≡ none) (sym n) (find_link-erase_link i ls h))

  -- Nothing is posted.
  pub quiet :
      (c : Connection) (l : ConnectionLink) (s s' : Shared) (e : End) (rest : List ℕ)
      → l.link_id ≡ i
      → some l.closing ≡ shows e
      → s'.writer ≡ s.writer
      → s.writer.queue ≡ []
      → s'.reader ≡ holding rest s.reader
      → Follows flags i s e [] rest (keep c (l, s'))
  quiet c l s s' e rest n k w q r = (
    kept_status l c.link_map e n k,
    ap unsent w ∙ sym (append-nil (unsent s.writer)),
    ap (λ (x : WriteStream). x.queue) w ∙ q,
    r,
  )

  -- One message of four shorts is posted.
  posted_header :
      (id command : ℕ) (s : Shared) (p : ℕ × ℕ)
      → s.writer_polled ≡ some p
      → s.writer.queue ≡ []
      → (s' : Shared) × (send (writing (write_header id command i) s) ≡ ok s')
        × (unsent s'.writer ≡ unsent s.writer ++ (frame (message_bytes id command i []) ++ []))
        × (s'.writer.queue ≡ [])
        × (s'.reader ≡ s.reader)
  unfolding write_header WriteStream.write_short
  posted_header id command s p e q =
      let w = write_header id command i s.writer in
      let m : w.queue ≡ message_bytes id command i [] =
        queue-write_header id command i s.writer ∙ rw q refl in
      (
        sent_to p (record s { writer = w }),
        send_long (record s { writer = w }) p e (rw m (omega arith)),
        unsent-packed w
            ∙ ap (λ (xs : List ℕ). unsent s.writer ++ frame xs) m
            ∙ ap (λ (xs : List ℕ). unsent s.writer ++ xs)
                (sym (append-nil (frame (message_bytes id command i [])))),
        refl,
        refl,
      )

  module _ (c : Connection) (l : ConnectionLink) (s : Shared) (p : ℕ × ℕ) (rest : List ℕ)
      (distinct : IsMap c.link_map) (id_is : l.link_id ≡ i) (polled : s.writer_polled ≡ some p)
      (empty : s.writer.queue ≡ []) where
    abbrev pub Does : ℕ → List ℕ → End → List Message → Type 0
    Does command bytes e sent =
        Returns (Follows flags i s e sent rest)
          (process_link_message c command l (arriving (bytes ++ rest) s))

    payload_closing :
        (bs : List ℕ) (e : End)
        → length bs ≤ 4096
        → l.closing ≡ true
        → shows e ≡ some true
        → Does (send_command flags) (data_bytes bs) e []
    unfolding process_link_message set_acknowledged
    payload_closing bs e h k x = elim (Bool-cases (acks flags)) [
      | inl a ↦
          rw (a, receive_data-bytes bs rest l s h, k)
            (quiet c (record l { closing = true; acknowledged = true }) s (arriving rest s) e rest
              id_is (sym x) refl empty refl)
      | inr a ↦
          rw (a, receive_data-bytes bs rest l s h, k)
            (quiet c (record l { closing = true }) s (arriving rest s) e rest id_is (sym x) refl
              empty refl)
    ]

    payload_open :
        (bs : List ℕ) (e : End)
        → length bs ≤ 4096
        → l.closing ≡ false
        → shows e ≡ some false
        → Does (send_command flags) (data_bytes bs) e (if acks flags then ack ∷ [] else [])
    payload_open bs e h k x =
        rw (process_link-data flags bs rest c l s h k) (elim (Bool-cases (acks flags)) [
          | inl a ↦
              let s' : Shared = record (arriving rest s) {
                poller = set_events l.address l.socket (wants false true) s.poller;
              } in
              let r = posted_header c.id link_ack s' p polled empty in
              rw (a, id_is, r.1)
                (kept_status _ c.link_map e refl (ap some k ∙ sym x), r.2, r.3, r.4)
          | inr a ↦ rw a (
              quiet c (record l { buffer = push_on_buffer bs l.buffer }) s
                (record (arriving rest s) {
                  poller = set_events l.address l.socket (wants false true) s.poller;
                })
                e rest id_is (ap some k ∙ sym x) refl empty refl)
        ])

    close_closing : l.closing ≡ true → Does link_close [] gone []
    unfolding process_link_message close_link
    close_closing k = rw k (
      dropped_status l.link_id c.link_map id_is distinct,
      sym (append-nil (unsent s.writer)),
      empty,
      refl,
    )

    close_open : l.closing ≡ false → Does link_close [] gone (close ∷ [])
    unfolding process_link_message close_link set_closing
    close_open k =
        let s' = (set_closing l (arriving rest s)).1 in
        let r = posted_header c.id link_close s' p polled empty in
        rw (k, id_is, r.1) (dropped_status i c.link_map refl distinct, r.2, r.3, r.4)

    ack_any : (e : End) → some l.closing ≡ shows e → Does link_ack [] e []
    unfolding process_link_message set_acknowledged
    ack_any e k = elim (Bool-cases l.closing) [
      | inl b ↦ rw b (
          quiet c (record l { closing = true; acknowledged = true }) s (arriving rest s) e rest
            id_is (rw b at k) refl empty refl)
      | inr b ↦ rw b (
          quiet c (record l { closing = false; acknowledged = true }) s
            (record (arriving rest s) {
              poller = set_events l.address l.socket (wants true (unsent_data l.buffer)) s.poller;
            })
            e rest id_is (rw b at k) refl empty refl)
    ]

    -- A message for a link that is not there is not in question.
    abbrev pub Answers : Message → Option (End × List Message) → Type 0
    Answers m none = Unit
    Answers m (some (e, sent)) = Does (command_of flags m) (content m) e sent

    pub process-follows :
        (e : End) (m : Message)
        → Fits m
        → some l.closing ≡ shows e
        → Answers m (link_receive (acks flags) e m)
    unfolding link_receive
    process-follows fresh m h k = tt
    process-follows gone m h k = tt
    process-follows e create h k = tt
    process-follows e (created b) h k = tt
    process-follows waiting ack h k = ack_any waiting k
    process-follows open_end ack h k = ack_any open_end k
    process-follows closing ack h k = ack_any closing k
    process-follows closing (payload bs) h k =
        payload_closing bs closing h (some-injective _ _ k) refl
    process-follows waiting (payload bs) h k = payload_open bs waiting h (some-injective _ _ k) refl
    process-follows open_end (payload bs) h k =
        payload_open bs open_end h (some-injective _ _ k) refl
    process-follows closing close h k = close_closing (some-injective _ _ k)
    process-follows waiting close h k = close_open (some-injective _ _ k)
    process-follows open_end close h k = close_open (some-injective _ _ k)
