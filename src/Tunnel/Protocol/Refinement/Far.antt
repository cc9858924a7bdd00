-- ===== src/Tunnel/Protocol/Refinement/Far.antt =====
-- ConnectSide::processMessage with the bytes of a message before it.
use tun.Prelude.{
  ℕ, ◌<◌, ◌≡◌, refl, sym, ◌∙◌, ap, subst, List, [], ◌∷◌, ◌++◌, append-nil, Bool, true, false,
  Option, none, some, arith, to_short, if◌then◌else◌,
}
use tun.Net.Result.{Result, ok, ◌>>=◌}
use tun.Net.WriteStream
use tun.Net.WriteStream.{WriteStream}
use tun.Net.WriteStream.Packets.{frame, unsent, unsent-packed}
use tun.Net.ReadStream.Values.Laws.{short_bytes, read_short-bytes}
use tun.Net.Poller.{add_polled}
use tun.Tunnel.Spec.{ConnectionSpec}
use tun.Tunnel.Link.{
  ConnectionLink, Shared, wants, acks, send, writing, write_header, new_link, link_create,
  link_success, link_failure,
}
use tun.Tunnel.Link.Messages.{arriving, message_bytes, queue-write_header, sent_to, send_long}
use tun.Tunnel.Connection.{
  Connection, find_link, process_link_message, connect_process_message, try_connect, Attempt,
  no_host, no_socket, not_connected, not_non_blocking, connected,
}
use tun.Tunnel.Protocol.{
  Message, create, created, End, fresh, waiting, open_end, closing, gone, link_receive, far_receive,
}
use tun.Tunnel.Protocol.Refinement.{
  status, shows, Fits, command_of, content, body_bytes, Follows, Returns,
}
use tun.Tunnel.Connection.Links.{IsMap, find_link-id}
use tun.Tunnel.Protocol.Refinement.Links.{process-follows, Answers, kept_status}
use tun.Tunnel.Protocol.Refinement.Near.{IsPlain, command_of-plain, link_of}

-- Whether an attempt leads to a connection.
abbrev pub connects : Attempt → Bool
connects (connected address socket) = true
connects _ = false

-- The answer to LINK_CREATE.
posted_answer :
    (id i code : ℕ) (s : Shared) (p : ℕ × ℕ)
    → s.writer_polled ≡ some p
    → s.writer.queue ≡ []
    → (s' : Shared) × (send
          (writing (λ w. WriteStream.write_short code (write_header id link_create i w)) s)
        ≡ ok s')
      × (unsent s'.writer
          ≡ unsent s.writer ++ (frame (message_bytes id link_create i (short_bytes code)) ++ []))
      × (s'.writer.queue ≡ [])
      × (s'.reader ≡ s.reader)
unfolding write_header WriteStream.write_short
posted_answer id i code s p e q =
    let w = WriteStream.write_short code (write_header id link_create i s.writer) in
    let m : w.queue ≡ message_bytes id link_create i (short_bytes code) =
      ap (λ (xs : List ℕ). xs ++ short_bytes code)
        (subst
          (λ (xs : List ℕ).
            (write_header id link_create i s.writer).queue
            ≡ xs ++ message_bytes id link_create i [])
          q (queue-write_header id link_create i s.writer)) in
    (
      sent_to p (record s { writer = w }),
      send_long (record s { writer = w }) p e (rw m (omega arith)),
      unsent-packed w
          ∙ ap (λ (xs : List ℕ). unsent s.writer ++ frame xs) m
          ∙ ap (λ (xs : List ℕ). unsent s.writer ++ xs)
              (sym (append-nil (frame (message_bytes id link_create i (short_bytes code))))),
      refl,
      refl,
    )

module _ (attempt : ConnectionSpec → Attempt) (report : Attempt → Shared → Result Shared)
    (flags i : ℕ) (c : Connection) (s : Shared)
    (prints : connects (attempt c.spec) ≡ false → (x : Shared) → report (attempt c.spec) x ≡ ok x)
    (p : ℕ × ℕ) (rest : List ℕ) (small : i < 65536) (distinct : IsMap c.link_map)
    (polled : s.writer_polled ≡ some p) (empty : s.writer.queue ≡ []) where
  abbrev Reads : Message → Shared
  Reads m = arriving (body_bytes flags i m ++ rest) s

  abbrev Takes : Message → Option (End × List Message) → Type 0
  Takes m none = Unit
  Takes m (some (e, sent)) =
      Returns (Follows flags i s e sent rest) (connect_process_message attempt report c (Reads m))

  module _ (l : ConnectionLink) (found : find_link i c.link_map ≡ some l) where
    connect_plain :
        (m : Message)
        → IsPlain m
        → connect_process_message attempt report c (Reads m)
          ≡ process_link_message c (command_of flags m) l (arriving (content m ++ rest) s)
    unfolding connect_process_message
    connect_plain m h =
        let n = command_of-plain flags m h in
        let k : to_short i ≡ i = omega arith in
        rw
          (
            (read_short-bytes (command_of flags m)).takes (short_bytes i ++ (content m ++ rest))
                s.reader,
            (read_short-bytes i).takes (content m ++ rest) s.reader,
            n.0,
            k,
            n.1,
            found,
          )
          refl

    plain-Takes :
        (e : End) (m : Message)
        → some l.closing ≡ shows e
        → IsPlain m
        → Fits m
        → Takes m (link_receive (acks flags) e m)
    plain-Takes e m shown h fits =
        given (link_receive (acks flags) e m) m h
          (process-follows flags i c l s p rest distinct id_is polled empty e m fits shown)
      where
        id_is : l.link_id ≡ i
        id_is = find_link-id i c.link_map l found

        given :
            (o : Option (End × List Message)) (m : Message)
            → IsPlain m
            → Answers flags i c l s p rest distinct id_is polled empty m o
            → Takes m o
        given none m h x = tt
        given (some (e', sent)) m h x = rw (connect_plain m h) x

  -- The message is read, and the attempt is made.
  reads_create :
      (a : Attempt)
      → attempt c.spec ≡ a
      → connect_process_message attempt report c (Reads create) ≡ (
          try_connect attempt report c i a (arriving rest s) >>= λ (success, c', s1).
          (send (
              writing
                (λ w.
                  WriteStream.write_short
                    (if success then link_success else link_failure)
                    (write_header c.id link_create i w))
                s1)
            >>= λ s2. ok (c', s2)))
  unfolding connect_process_message
  reads_create a e =
      let n : to_short i ≡ i = omega arith in
      rw
        (
          (read_short-bytes link_create).takes (short_bytes i ++ rest) s.reader,
          (read_short-bytes i).takes rest s.reader,
          n,
          e,
        )
        refl

  -- An attempt that fails, with the descriptors that it leaves to be closed.
  refused :
      (left : List ℕ)
      → status i c.link_map ≡ none
      → Returns (Follows flags i s gone (created false ∷ []) rest) (
          (send (
            writing
              (λ w. WriteStream.write_short link_failure (write_header c.id link_create i w))
              (record (arriving rest s) { closed = left })))
          >>= λ s2. ok (c, s2))
  refused left k =
      let r =
        posted_answer c.id i link_failure (record (arriving rest s) { closed = left }) p polled
          empty in
      rw r.1 (k, r.2, r.3, r.4)

  reported :
      (a : Attempt)
      → attempt c.spec ≡ a
      → connects a ≡ false
      → report a (arriving rest s) ≡ ok (arriving rest s)
  reported a e =
      subst (λ b. connects b ≡ false → report b (arriving rest s) ≡ ok (arriving rest s)) e
        (λ q. prints q (arriving rest s))

  create-Takes :
      (a : Attempt)
      → attempt c.spec ≡ a
      → status i c.link_map ≡ none
      → Takes create (far_receive (connects a) (acks flags) fresh create)
  unfolding try_connect far_receive new_link
  create-Takes (connected address socket) e k =
      let r =
        posted_answer c.id i link_success
          (record (arriving rest s) {
            poller = add_polled address socket (wants true false) s.poller;
          })
          p polled empty in
      rw (reads_create (connected address socket) e, r.1)
        (
          kept_status flags i (new_link address i socket) c.link_map open_end (omega arith) refl,
          r.2,
          r.3,
          r.4,
        )
  create-Takes no_host e k =
      rw (reads_create no_host e, reported no_host e refl) (refused s.closed k)
  create-Takes no_socket e k =
      rw (reads_create no_socket e, reported no_socket e refl) (refused s.closed k)
  create-Takes (not_connected socket) e k =
      rw (reads_create (not_connected socket) e, reported (not_connected socket) e refl)
        (refused (s.closed ++ socket ∷ []) k)
  create-Takes (not_non_blocking socket) e k =
      rw (reads_create (not_non_blocking socket) e, reported (not_non_blocking socket) e refl)
        (refused (s.closed ++ socket ∷ []) k)

  known-Takes :
      (e : End) (m : Message) (b : Bool)
      → some b ≡ shows e
      → status i c.link_map ≡ some b
      → Fits m
      → Takes m (link_receive (acks flags) e m)
  unfolding link_receive
  known-Takes fresh m b h k fits = tt
  known-Takes gone m b h k fits = tt
  known-Takes e create b h k fits = tt
  known-Takes e (created x) b h k fits = tt
  known-Takes e m b h k fits =
      let l = link_of c.link_map i b k in plain-Takes l.0 l.1 e m (ap some l.2 ∙ h) tt fits

  all-Takes :
      (e : End) (m : Message)
      → status i c.link_map ≡ shows e
      → Fits m
      → Takes m (far_receive (connects (attempt c.spec)) (acks flags) e m)
  unfolding far_receive
  all-Takes fresh create k fits = create-Takes (attempt c.spec) refl k
  all-Takes fresh m k fits = tt
  all-Takes gone m k fits = tt
  all-Takes waiting m k fits = known-Takes waiting m false refl k fits
  all-Takes open_end m k fits = known-Takes open_end m false refl k fits
  all-Takes closing m k fits = known-Takes closing m true refl k fits

  -- A message that the protocol has an answer to, with at most 4096 bytes of data and an id below
  -- 2 ^ 16, for a link of a connecting end that has each id once in its map, whose writer is polled
  -- and has no bytes that are not posted, and which connects to its host, or else reports an error
  -- without a change to its own state, as the local process does: processMessage returns, takes
  -- exactly the message off the reader, posts exactly what the protocol sends, and the link is then
  -- as the protocol has it: not in the map, there, or there and being closed.
  pub connect-Follows :
      (e e' : End) (m : Message) (sent : List Message)
      → status i c.link_map ≡ shows e
      → Fits m
      → far_receive (connects (attempt c.spec)) (acks flags) e m ≡ some (e', sent)
      → Returns
          (Follows flags i s e' sent rest)
          (connect_process_message attempt report c (arriving (body_bytes flags i m ++ rest) s))
  connect-Follows e e' m sent k fits q = subst (Takes m) q (all-Takes e m k fits)
