-- ===== src/Net/WriteStream/Packets.antt =====
-- WriteStream as a byte stream: `send` appends one framed message to what is unsent, and `empty`
-- moves a prefix of that into the kernel.
use tun.Prelude.{
  append_split, lt→ltb, ℕ, ◌+◌, ◌≤◌, ◌<◌, ◌≡◌, refl, sym, ap, ◌∙◌, List, [], ◌∷◌, ◌++◌,
  append_assoc, append-nil, length, drop, drop_all, drop-drop, length-drop, All, All-append, arith,
  inl, inr, Bool-cases, ◌==◌, if◌then◌else◌, be32,
}
use tun.Net.Result.{Result, ok, throw, undefined, ◌>>=◌}
use tun.Net.Kernel.{Kernel, Events, WriteResult, wrote, write_failed}
use tun.Net.WriteStream.{
  WritePacket, WriteStream, write_packet, send, wrote_packet, send_packet, empty_front,
  empty_packets, empty,
}

-- A message as it stands on the wire.
abbrev pub frame : List ℕ → List ℕ
frame m = be32 (length m) ++ m

abbrev pub frames : List (List ℕ) → List ℕ
frames [] = []
frames (m ∷ ms) = frame m ++ frames ms

pub frames-append : (ms ns : List (List ℕ)) → frames (ms ++ ns) ≡ frames ms ++ frames ns
frames-append [] ns = refl
frames-append (m ∷ ms) ns =
    ap (◌++◌ (frame m)) (frames-append ms ns) ∙ sym (append_assoc (frame m) (frames ms) (frames ns))

-- What the packets still have to write.
abbrev pub unsent_packets : List WritePacket → List ℕ
unsent_packets [] = []
unsent_packets (p ∷ ps) = drop p.written p.buf ++ unsent_packets ps

abbrev pub unsent : WriteStream → List ℕ
unsent w = unsent_packets w.packet_queue

abbrev pub IsSound : WriteStream → Type 0
IsSound w = All (λ (p : WritePacket). p.written ≤ length p.buf) w.packet_queue

pub unsent_packets-append :
    (ps qs : List WritePacket) → unsent_packets (ps ++ qs) ≡ unsent_packets ps ++ unsent_packets qs
unsent_packets-append [] qs = refl
unsent_packets-append (p ∷ ps) qs =
    ap (◌++◌ (drop p.written p.buf)) (unsent_packets-append ps qs)
    ∙ sym (append_assoc (drop p.written p.buf) (unsent_packets ps) (unsent_packets qs))

-- The stream when `send` has made a packet of its queue.
abbrev pub packed : WriteStream → WriteStream
packed w = record {
  queue = [];
  packet_queue = w.packet_queue ++ record { buf = frame w.queue; written = 0 } ∷ [];
}

-- The eight bytes of the length fit in the block of a message of four bytes or more.
write_packet-frame :
    (m : List ℕ) → 4 ≤ length m → write_packet m ≡ ok (record { buf = frame m; written = 0 })
unfolding write_packet
write_packet-frame m h = ground (arith, h)

-- A message of one to three bytes is written past its block.
pub write_packet-short : (m : List ℕ) → length m < 4 → write_packet m ≡ undefined
unfolding write_packet
write_packet-short m h = ground (arith, h)

pub send_long : (w : WriteStream) → 4 ≤ length w.queue → send w ≡ ok (packed w)
unfolding send
send_long w h = rw (lt→ltb 0 (length w.queue) (omega arith), write_packet-frame w.queue h) refl

pub send_empty : (w : WriteStream) → length w.queue ≡ 0 → send w ≡ ok w
unfolding send
send_empty w h = rw h refl

pub send_short : (w : WriteStream) → 0 < length w.queue → length w.queue < 4 → send w ≡ undefined
unfolding send
send_short w h n = rw (lt→ltb 0 (length w.queue) h, write_packet-short w.queue n) refl

-- The queue is appended as one frame.
pub unsent-packed : (w : WriteStream) → unsent (packed w) ≡ unsent w ++ frame w.queue
unsent-packed w =
    unsent_packets-append w.packet_queue _ ∙ ap (◌++◌ (unsent w)) (append-nil (frame w.queue))

pub packed-IsSound : (w : WriteStream) → IsSound w → IsSound (packed w)
packed-IsSound w s = All-append _ w.packet_queue _ s (omega arith, tt)

module _ (k : Kernel) (fd : ℕ) where
  open k use {Os, write, outgoing, write_accepts}

  -- Nothing is lost and nothing sent twice, from `q` and the bytes `b` written or unsent.
  abbrev pub Empties : List ℕ → List ℕ → Result (WriteStream × Os) → Type 0
  Empties q b (ok (w, o)) = (outgoing o fd ++ unsent w ≡ b) × IsSound w × (w.queue ≡ q)
  Empties q b _ = Unit {0}

  wrote_front :
      (p : WritePacket) (rest : List WritePacket) (q : List ℕ) (o : Os) (x : WriteResult × Os)
      → write fd (drop p.written p.buf) o ≡ x
      → p.written ≤ length p.buf
      → All (λ (p : WritePacket). p.written ≤ length p.buf) rest
      → Empties q (outgoing o fd ++ unsent_packets (p ∷ rest)) (
          wrote_packet k p x >>= λ (done, front', o').
          ok (record { queue = q; packet_queue = if done then rest else front' ∷ rest }, o'))
  unfolding wrote_packet
  wrote_front p rest q o (write_failed e, o') eq h s = tt
  wrote_front p rest q o (wrote n, o') eq h s =
      let law = write_accepts fd n (drop p.written p.buf) o o' eq in
      let left : drop n (drop p.written p.buf) ≡ drop (p.written + n) p.buf =
        drop-drop p.written n p.buf in
      let moved : outgoing o' fd ++ (drop (p.written + n) p.buf ++ unsent_packets rest)
          ≡ outgoing o fd ++ (drop p.written p.buf ++ unsent_packets rest) =
        rw (law.1, ← left)
          (append_split (outgoing o fd) n (drop p.written p.buf) (unsent_packets rest)) in
      let bound : p.written + n ≤ length p.buf =
        omega (arith, law.0, length-drop p.written p.buf) in
      elim (Bool-cases ((p.written + n) == length p.buf)) [
        | inl e ↦
            let full : length p.buf ≤ p.written + n = ground (arith, e) in
            rw e (rw (drop_all (p.written + n) p.buf full) at moved, s, refl)
        | inr e ↦ rw e (moved, (bound, s), refl)
      ]

  empty_packets_step :
      (w : WriteStream) (ps : List WritePacket) (o : Os)
      → w.packet_queue ≡ ps
      → All (λ (p : WritePacket). p.written ≤ length p.buf) ps
      → Empties w.queue (outgoing o fd ++ unsent_packets ps) (empty_packets k fd w ps o)
  unfolding empty_packets empty_front send_packet
  empty_packets_step w [] o e s = (rw e, rw e tt, refl)
  empty_packets_step w (p ∷ rest) o e s = wrote_front p rest w.queue o _ refl s.0 s.1

  add_events :
      (q b : List ℕ) (m : Result (WriteStream × Os)) (g : WriteStream → Events)
      → Empties q b m
      → Empties q b ((m >>= λ (w, o). ok (w, g w, o)) >>= λ (w, ev, o). ok (w, o))
  add_events q b (ok (w, o)) g h = h
  add_events q b (throw e) g h = tt
  add_events q b undefined g h = tt

  -- `empty` moves bytes of the packets, in order, to the descriptor.
  pub empty-Empties :
      (revents events : Events) (w : WriteStream) (o : Os)
      → IsSound w
      → Empties w.queue
          (outgoing o fd ++ unsent w)
          (empty k fd revents events w o >>= λ (w', ev, o'). ok (w', o'))
  unfolding empty
  empty-Empties revents events w o s = elim (Bool-cases revents.pollout) [
    | inl e ↦ rw e (add_events _ _ _ _ (empty_packets_step w w.packet_queue o refl s))
    | inr e ↦ rw e (refl, s, refl)
  ]
