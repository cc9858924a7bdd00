-- ===== src/Net/Transfer.antt =====
-- Both ends of com/antlersoft/net over one byte channel: a WriteStream that posts messages and is
-- emptied by partial writes, and a ReadStream that is filled by partial reads.
use tun.Prelude.{
  ℕ, ◌<◌, ◌^◌, ◌%◌, ◌/◌, ◌≡◌, refl, sym, subst, ◌∙◌, List, [], ◌∷◌, ◌++◌, append_assoc, append-nil,
  length, concat, concat-append, All-append_right, append_inj_left, All, arith, of_be32, ltb,
  Bool-cases, inl, inr,
}
use tun.Net.Result.{Result, ok, throw, undefined, ◌>>=◌}
use tun.Net.Kernel.{Kernel, Events}
use tun.Net.WriteStream
use tun.Net.WriteStream.{WriteStream, write_bytes, send, empty}
use tun.Net.WriteStream.Packets.{
  frame, frames, unsent, IsSound, unsent-packed, packed-IsSound, packed, send_empty, send_short,
  send_long, Empties, empty-Empties,
}
use tun.Net.ReadStream.{ReadStream, fresh, fill}
use tun.Net.ReadStream.Frames.{
  IsFrame, Progress, waits, delivers, IsValid, unread, Fills, fill_step_lem,
}

-- What the owner of a WriteStream does: post a message, or call `empty` after poll(2).
pub data Act : Type 0 where
  post : List ℕ → Act
  flush : Events → Events → Act

-- `send` drops an empty message.
abbrev pub posted : List Act → List (List ℕ)
posted [] = []
posted (post [] ∷ acts) = posted acts
posted (post (b ∷ bs) ∷ acts) = (b ∷ bs) ∷ posted acts
posted (flush revents events ∷ acts) = posted acts

write_bytes-empty :
    (m : List ℕ) (w : WriteStream) → w.queue ≡ [] → write_bytes m w ≡ record w { queue = m }
unfolding write_bytes
write_bytes-empty m w q = rw q refl

module _ (k : Kernel) (fd : ℕ) where
  open k use {Os, incoming, outgoing}

  unfoldable pub run_sender : List Act → WriteStream → Os → Result (WriteStream × Os)
  run_sender [] w o = ok (w, o)
  run_sender (post m ∷ acts) w o = send (write_bytes m w) >>= λ w'. run_sender acts w' o
  run_sender (flush revents events ∷ acts) w o =
      (empty k fd revents events w o >>= λ (w', ev, o'). ok (w', o')) >>= λ (w', o').
      run_sender acts w' o'

  unfoldable pub run_receiver : List Events → ReadStream → Os → Result (ReadStream × Os)
  run_receiver [] r o = ok (r, o)
  run_receiver (revents ∷ rounds) r o =
      fill k fd revents r o >>= λ (r', o'). run_receiver rounds r' o'

  -- The bytes written or unsent at the end of a run.
  abbrev Sent : List ℕ → Result (WriteStream × Os) → Type 0
  Sent b (ok (w, o)) = outgoing o fd ++ unsent w ≡ b
  Sent b (throw e) = Unit {0}
  Sent b undefined = Unit {0}

  flush_step :
      (b f : List ℕ) (m : Result (WriteStream × Os))
      (next : WriteStream → Os → Result (WriteStream × Os))
      → Empties k fd [] b m
      → ((w : WriteStream) (o : Os)
          → w.queue ≡ []
          → IsSound w
          → Sent ((outgoing o fd ++ unsent w) ++ f) (next w o))
      → Sent (b ++ f) (m >>= λ (w, o). next w o)
  flush_step b f (ok (w, o)) next h ih = rw (h.0) at (ih w o h.2 h.1)
  flush_step b f (throw e) next h ih = tt
  flush_step b f undefined next h ih = tt

  run_sender_step :
      (acts : List Act) (w : WriteStream) (o : Os)
      → w.queue ≡ []
      → IsSound w
      → Sent ((outgoing o fd ++ unsent w) ++ frames (posted acts)) (run_sender acts w o)
  unfolding run_sender
  run_sender_step [] w o q s = sym (append-nil _)
  run_sender_step (post [] ∷ acts) w o q s =
      let w' : WriteStream = record w { queue = [] } in
      rw (write_bytes-empty [] w q, send_empty w' refl) (run_sender_step acts w' o refl s)
  run_sender_step (post (b ∷ bs) ∷ acts) w o q s = elim (Bool-cases (ltb (length (b ∷ bs)) 4)) [
    | inl e ↦
        rw (write_bytes-empty (b ∷ bs) w q, send_short w' (omega arith) (ground (arith, e))) tt
    | inr e ↦
        rw (write_bytes-empty (b ∷ bs) w q, send_long w' (ground (arith, e)))
          (rw (unsent-packed w', split) at
            (run_sender_step acts (packed w') o refl (packed-IsSound w' s)))
  ]
    where
      w' : WriteStream
      w' = record w { queue = b ∷ bs }

      split :
          (outgoing o fd ++ (unsent w ++ frame (b ∷ bs))) ++ frames (posted acts)
          ≡ (outgoing o fd ++ unsent w) ++ (frame (b ∷ bs) ++ frames (posted acts))
      split = simp append_assoc
  run_sender_step (flush revents events ∷ acts) w o q s =
      flush_step (outgoing o fd ++ unsent w) (frames (posted acts)) _ (run_sender acts)
        (subst
          (λ xs.
            Empties k fd xs (outgoing o fd ++ unsent w)
              (empty k fd revents events w o >>= λ (w', ev, o'). ok (w', o')))
          q (empty-Empties k fd revents events w o s))
        (run_sender_step acts)

  -- From a writer with nothing to send, what a run has written and what it has left are the frames
  -- of the messages posted.
  pub run_sender-frames :
      (acts : List Act) (w w' : WriteStream) (o o' : Os)
      → w.queue ≡ []
      → IsSound w
      → unsent w ≡ []
      → run_sender acts w o ≡ ok (w', o')
      → outgoing o' fd ++ unsent w' ≡ outgoing o fd ++ frames (posted acts)
  run_sender-frames acts w w' o o' q sound start sent =
      subst (Sent ((outgoing o fd ++ unsent w) ++ frames (posted acts))) sent
        (run_sender_step acts w o q sound)
      ∙ rw (start, append-nil) refl

same_length :
    (n b0 b1 b2 b3 : ℕ)
    → n < 2 ^ 32
    → b0 ≡ n / 16777216 % 256
    → b1 ≡ n / 65536 % 256
    → b2 ≡ n / 256 % 256
    → b3 ≡ n % 256
    → of_be32 b0 b1 b2 b3 ≡ n
same_length n b0 b1 b2 b3 h e0 e1 e2 e3 = omega arith

-- A packet off the front of a stream of frames is the first of them.
pub IsFrame-frames :
    (stream m rest more : List ℕ) (ms : List (List ℕ))
    → IsFrame stream m rest
    → stream ++ more ≡ frames ms
    → All (λ (m : List ℕ). length m < 2 ^ 32) ms
    → (ns : List (List ℕ)) × (ms ≡ m ∷ ns) × (rest ++ more ≡ frames ns)
IsFrame-frames stream m rest more [] f e small = cc (subst (λ xs. xs ++ more ≡ []) f.bytes e)
IsFrame-frames stream m rest more (m0 ∷ ms) f e small =
    let e' : f.b0 ∷ f.b1 ∷ f.b2 ∷ f.b3 ∷ (m ++ rest) ++ more ≡ frames (m0 ∷ ms) =
      subst (λ xs. xs ++ more ≡ frames (m0 ∷ ms)) f.bytes e in
    let e0 : f.b0 ≡ length m0 / 16777216 % 256 = cc in
    let e1 : f.b1 ≡ length m0 / 65536 % 256 = cc in
    let e2 : f.b2 ≡ length m0 / 256 % 256 = cc in
    let e3 : f.b3 ≡ length m0 % 256 = cc in
    let tails : (m ++ rest) ++ more ≡ m0 ++ frames ms = cc in
    let size : length m ≡ length m0 =
      sym f.len ∙ same_length (length m0) f.b0 f.b1 f.b2 f.b3 small.0 e0 e1 e2 e3 in
    let (same, left) =
      append_inj_left m m0 (rest ++ more) (frames ms) size
        (sym (append_assoc m rest more) ∙ tails) in
    (ms, cc, left)

-- What a run of `fill` has taken off the messages `ms`, of which `more` is not in the channel yet.
abbrev IsReceived : List (List ℕ) → List ℕ → List ℕ → List ℕ → List ℕ → Type 0
IsReceived ms more q q' u' =
    (done : List (List ℕ)) × (ahead : List (List ℕ)) × (ms ≡ done ++ ahead)
    × (q' ≡ q ++ concat done)
    × (u' ++ more ≡ frames ahead)

Progress-IsReceived :
    (q u q' u' more : List ℕ) (ms : List (List ℕ))
    → Progress q u q' u'
    → u ++ more ≡ frames ms
    → All (λ (m : List ℕ). length m < 2 ^ 32) ms
    → IsReceived ms more q q' u'
Progress-IsReceived q u q' u' more ms (waits e f) h small =
    ([], ms, refl, e ∙ sym (append-nil q), rw f h)
Progress-IsReceived q u q' u' more ms (delivers m e f) h small =
    let (ns, first, left) = IsFrame-frames u m u' more ms f h small in
    (m ∷ [], ns, first, rw append-nil e, left)

IsReceived-trans :
    (ms ahead done : List (List ℕ)) (more q q1 q2 u2 : List ℕ)
    → ms ≡ done ++ ahead
    → q1 ≡ q ++ concat done
    → IsReceived ahead more q1 q2 u2
    → IsReceived ms more q q2 u2
IsReceived-trans ms ahead done more q q1 q2 u2 e f (done', ahead', e', f', left) = (
  done ++ done',
  ahead',
  rw (e, e') (sym (append_assoc done done' ahead')),
  rw (f', f, concat-append) (append_assoc q (concat done) (concat done')),
  left,
)

module _ (k : Kernel) (fd : ℕ) where
  open k use {Os, incoming}

  abbrev Receives : List (List ℕ) → List ℕ → List ℕ → Result (ReadStream × Os) → Type 0
  Receives ms more q (ok (r, o)) = IsReceived ms more q r.queue (unread k fd r o)
  Receives ms more q (throw e) = Unit {0}
  Receives ms more q undefined = ⊥

  Receives-trans :
      (ms ahead done : List (List ℕ)) (more q q1 : List ℕ) (x : Result (ReadStream × Os))
      → ms ≡ done ++ ahead
      → q1 ≡ q ++ concat done
      → Receives ahead more q1 x
      → Receives ms more q x
  Receives-trans ms ahead done more q q1 (ok (r, o)) e f h =
      IsReceived-trans ms ahead done more q q1 r.queue (unread k fd r o) e f h
  Receives-trans ms ahead done more q q1 (throw x) e f h = tt
  Receives-trans ms ahead done more q q1 undefined e f h = h

  fill_then :
      (ms : List (List ℕ)) (more q u : List ℕ) (x : Result (ReadStream × Os))
      (next : ReadStream → Os → Result (ReadStream × Os))
      → Fills k fd q u x
      → u ++ more ≡ frames ms
      → All (λ (m : List ℕ). length m < 2 ^ 32) ms
      → ((r : ReadStream) (o : Os) (ns : List (List ℕ))
          → IsValid r
          → unread k fd r o ++ more ≡ frames ns
          → All (λ (m : List ℕ). length m < 2 ^ 32) ns
          → Receives ns more r.queue (next r o))
      → Receives ms more q (x >>= λ (r, o). next r o)
  fill_then ms more q u (ok (r, o)) next h e small ih =
      let (done, ahead, split, f, left) =
        Progress-IsReceived q u r.queue (unread k fd r o) more ms h.1 e small in
      Receives-trans ms ahead done more q r.queue (next r o) split f
        (ih r o ahead h.0 left (All-append_right _ done ahead (subst (All _) split small)))
  fill_then ms more q u (throw x) next h e small ih = tt
  fill_then ms more q u undefined next h e small ih = h

  run_receiver_step :
      (rounds : List Events) (r : ReadStream) (o : Os) (ms : List (List ℕ)) (more : List ℕ)
      → IsValid r
      → unread k fd r o ++ more ≡ frames ms
      → All (λ (m : List ℕ). length m < 2 ^ 32) ms
      → Receives ms more r.queue (run_receiver k fd rounds r o)
  unfolding run_receiver
  run_receiver_step [] r o ms more v e small = ([], ms, refl, sym (append-nil r.queue), e)
  run_receiver_step (revents ∷ rounds) r o ms more v e small =
      fill_then ms more r.queue (unread k fd r o) (fill k fd revents r o) (run_receiver k fd rounds)
        (fill_step_lem k fd r revents o v) e small
        (λ r' o' ns v' e' small'. run_receiver_step rounds r' o' ns more v' e' small')

fresh-IsValid : IsValid fresh
unfolding fresh
fresh-IsValid = record { room = omega arith; within = omega arith; begun = tt }

-- The sender posts messages and writes them in any pieces; the receiver has what was written as
-- its incoming bytes, and reads them in any pieces. Then its queue is a prefix of the messages
-- posted, each whole and in order, and what it has not delivered, with what the sender has not
-- written, is the frames of the others. A run that posts a message of one to three bytes is undefined,
-- and is not in question.
pub transfer :
    (s r : Kernel) (sfd rfd : ℕ) (acts : List Act) (rounds : List Events) (o o' : s.Os)
    (p p' : r.Os) (w' : WriteStream) (r' : ReadStream)
    → s.outgoing o sfd ≡ []
    → run_sender s sfd acts WriteStream.fresh o ≡ ok (w', o')
    → r.incoming p rfd ≡ s.outgoing o' sfd
    → All (λ (m : List ℕ). length m < 2 ^ 32) (posted acts)
    → run_receiver r rfd rounds fresh p ≡ ok (r', p')
    → (done : List (List ℕ)) × (ahead : List (List ℕ)) × (posted acts ≡ done ++ ahead)
      × (r'.queue ≡ concat done)
      × (unread r rfd r' p' ++ unsent w' ≡ frames ahead)
unfolding fresh WriteStream.fresh
transfer s r sfd rfd acts rounds o o' p p' w' r' start sent channel small received =
    subst (Receives r rfd (posted acts) (unsent w') []) received
      (run_receiver_step r rfd rounds fresh p (posted acts) (unsent w') fresh-IsValid stream small)
  where
    written : s.outgoing o' sfd ++ unsent w' ≡ frames (posted acts)
    written =
        run_sender-frames s sfd acts WriteStream.fresh w' o o' refl tt refl sent ∙ rw start refl

    stream : r.incoming p rfd ++ unsent w' ≡ frames (posted acts)
    stream = rw channel written
