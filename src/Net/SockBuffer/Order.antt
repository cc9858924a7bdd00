-- ===== src/Net/SockBuffer/Order.antt =====
-- A SockBuffer as a first-in first-out queue of bytes: nothing is lost, repeated or reordered.
use tun.Prelude.{
  ◌≢◌, ℕ, zero, suc, ◌+◌, ◌≤◌, ◌<◌, ◌≡◌, refl, ◌∙◌, ap, sym, List, [], ◌∷◌, ◌++◌, append_assoc,
  true, false, none, some, length, take, ◌==◌, arith, Bool-cases, inl, inr, take-append-drop,
  length-append, ◌↔◌, length-take, length-drop, append_split, subst,
}
use tun.Net.Result.{
  Result, ok, throw, undefined, eagain, ehostunreach, econnreset, eintr, eaddrinuse, other_errno,
  ◌>>=◌,
}
use tun.Net.Kernel.{
  Kernel, ReadResult, got, read_failed, WriteResult, wrote, write_failed, Took, read-Took,
}
use tun.Net.SockBuffer.{
  SockBuffer, buffer_size, push_on_buffer, unsent_data, refill, wrote_data, write_data, soft_read,
  read_round, read_data, Round, Total, next_round, after_round,
}

-- Oldest first.
abbrev pub contents : SockBuffer → List ℕ
contents b = b.output ++ b.queue

nil_of_length : (xs : List ℕ) → (length xs == 0) ≡ true → xs ≡ []
nil_of_length [] h = refl
nil_of_length (x ∷ xs) h = absurd (ground arith)

-- `unsentData` is false exactly when there is nothing left.
pub unsent_data_iff : (b : SockBuffer) → (unsent_data b ≡ false) ↔ (contents b ≡ [])
unfolding unsent_data
unsent_data_iff b = (
  λ h. rw (nil_of_length b.output (ground arith), nil_of_length b.queue (ground arith)),
  λ h.
      let e : length b.output + length b.queue ≡ 0 =
        sym (length-append b.output b.queue) ∙ ap length h in
      ground arith,
)

take_le : (n : ℕ) (xs : List ℕ) → length (take n xs) ≤ n
take_le n xs = omega (arith, length-take n xs)

contents-refill : (b : SockBuffer) → contents (refill b) ≡ contents b
unfolding refill
contents-refill b = elim (Bool-cases (length b.output == 0)) [
  | inl e ↦ rw e (take-append-drop buffer_size b.queue ∙ rw (nil_of_length b.output e))
  | inr e ↦ rw e
]

module _ (k : Kernel) (fd : ℕ) where
  open k use {Os, read, write, incoming, outgoing, write_accepts}

  -- A result of `writeData` from the bytes `c` written or held.
  abbrev Writes : List ℕ → Result (ℕ × SockBuffer × Os) → Type 0
  Writes c (ok (n, b, o)) = (outgoing o fd ++ contents b ≡ c) × (length b.output ≤ 4096)
  Writes c _ = Unit {0}

  wrote_data-Writes :
      (b : SockBuffer) (o : Os) (x : WriteResult × Os)
      → write fd b.output o ≡ x
      → length b.output ≤ 4096
      → Writes (outgoing o fd ++ contents b) (wrote_data k b x)
  unfolding wrote_data
  wrote_data-Writes b o (write_failed e, o') eq h = tt
  wrote_data-Writes b o (wrote n, o') eq h =
      let law = write_accepts fd n b.output o o' eq in
      (
        rw (law.1) (append_split (outgoing o fd) n b.output b.queue),
        omega (arith, length-drop n b.output),
      )

  refill_small : (b : SockBuffer) → length b.output ≤ 4096 → length (refill b).output ≤ 4096
  unfolding refill
  refill_small b h = elim (Bool-cases (length b.output == 0)) [
    | inl e ↦ rw e (take_le buffer_size b.queue)
    | inr e ↦ rw e h
  ]

  write_data-Writes :
      (b : SockBuffer) (o : Os)
      → length b.output ≤ 4096
      → Writes (outgoing o fd ++ contents b) (write_data k fd b o)
  unfolding write_data
  write_data-Writes b o h =
      rw (← contents-refill b) (wrote_data-Writes (refill b) o _ refl (refill_small b h))

  -- `writeData` moves bytes off the front to the descriptor, and keeps the rest in order.
  pub write_data-contents :
      (b b' : SockBuffer) (n : ℕ) (o o' : Os)
      → length b.output ≤ 4096
      → write_data k fd b o ≡ ok (n, b', o')
      → (outgoing o' fd ++ contents b' ≡ outgoing o fd ++ contents b) × (length b'.output ≤ 4096)
  write_data-contents b b' n o o' h e =
      subst (Writes (outgoing o fd ++ contents b)) e (write_data-Writes b o h)

  SoftRead : Os → Result (List ℕ × Os) → Type 0
  SoftRead o (ok (bs, o')) = incoming o fd ≡ bs ++ incoming o' fd
  SoftRead o _ = Unit {0}

  soft_read-SoftRead :
      (n : ℕ) (o : Os) (x : ReadResult × Os) → Took k fd n o x → SoftRead o (soft_read k x)
  unfolding soft_read SoftRead
  soft_read-SoftRead n o (got bs, o') t = t.1
  soft_read-SoftRead n o (read_failed eagain, o') t = sym t
  soft_read-SoftRead n o (read_failed ehostunreach, o') t = sym t
  soft_read-SoftRead n o (read_failed econnreset, o') t = sym t
  soft_read-SoftRead n o (read_failed eintr, o') t = tt
  soft_read-SoftRead n o (read_failed eaddrinuse, o') t = tt
  soft_read-SoftRead n o (read_failed (other_errno e), o') t = tt

  module _ {H : Type 0} (process : List ℕ → H → Result H) where
    -- What one round took from `o`, behind what `b` held.
    abbrev RoundOf : SockBuffer → Os → Result (Round k process) → Type 0
    RoundOf b o (ok (bs, b', h', o')) =
        (contents b' ≡ contents b ++ bs)
        × (incoming o fd ≡ bs ++ incoming o' fd)
        × (b'.output ≡ b.output)
    RoundOf b o _ = Unit {0}

    processed :
        (b : SockBuffer) (o : Os) (x : Result (List ℕ × Os)) (h : H)
        → SoftRead o x
        → RoundOf b o
            (x >>= λ (bs, o'). process bs h >>= λ h'. ok (bs, push_on_buffer bs b, h', o'))
    unfolding SoftRead push_on_buffer
    processed b o (throw e) h s = tt
    processed b o undefined h s = tt
    processed b o (ok (bs, o')) h s =
        elim (process bs h)
          as (λ x. RoundOf b o (x >>= λ h'. ok (bs, push_on_buffer bs b, h', o'))) [
            | ok h' ↦ (sym (append_assoc b.output b.queue bs), s, refl)
            | throw e ↦ tt
            | undefined ↦ tt
          ]

    read_round-RoundOf :
        (b : SockBuffer) (h : H) (o : Os) → RoundOf b o (read_round k process fd b h o)
    unfolding read_round
    read_round-RoundOf b h o =
        processed b o _ h (soft_read-SoftRead buffer_size o _ (read-Took k fd buffer_size o))

    -- A result of `readData` that began with the bytes `c` held or to come, at the count `t`, when
    -- `n` bytes were held.
    abbrev ReadsAll : List ℕ → ℕ → ℕ → Total k process → Type 0
    ReadsAll c t n none = ⊥
    ReadsAll c t n (some (ok (total, b, h, o))) =
        (contents b ++ incoming o fd ≡ c) × (total + n ≡ t + length (contents b))
    ReadsAll c t n (some (throw e)) = Unit {0}
    ReadsAll c t n (some undefined) = Unit {0}

    after_round-ReadsAll :
        (fuel total : ℕ) (b : SockBuffer) (o : Os)
        (again : ℕ → SockBuffer → H → Os → Total k process) (x : Result (Round k process))
        → RoundOf b o x
        → length (incoming o fd) < suc fuel
        → ((t : ℕ) (b' : SockBuffer) (h' : H) (o' : Os)
            → length (incoming o' fd) < fuel
            → ReadsAll (contents b' ++ incoming o' fd) t (length (contents b')) (again t b' h' o'))
        → ReadsAll
            (contents b ++ incoming o fd)
            total
            (length (contents b))
            (after_round k process again total x)
    after_round-ReadsAll fuel total b o again (throw e) r f ih = tt
    after_round-ReadsAll fuel total b o again undefined r f ih = tt
    after_round-ReadsAll fuel total b o again (ok (bs, b', h', o')) (r0, r1, r2) f ih =
        let all : contents b' ++ incoming o' fd ≡ contents b ++ incoming o fd =
          rw (r0, r1) (append_assoc (contents b) bs (incoming o' fd)) in
        let more : length (contents b') ≡ length (contents b) + length bs =
          ap length r0 ∙ length-append (contents b) bs in
        let less : length (incoming o fd) ≡ length bs + length (incoming o' fd) =
          ap length r1 ∙ length-append bs (incoming o' fd) in
        elim (Bool-cases (length bs == buffer_size)) [
          | inl e ↦
              let full : length bs ≡ 4096 = ground (arith, e) in
              rw (e, next_round) (shift _ all more (ih (total + length bs) b' h' o' (omega arith)))
          | inr e ↦ rw (e, next_round) (all, omega arith)
        ]
      where
        shift :
            (y : Total k process)
            → contents b' ++ incoming o' fd ≡ contents b ++ incoming o fd
            → length (contents b') ≡ length (contents b) + length bs
            → ReadsAll (contents b' ++ incoming o' fd) (total + length bs) (length (contents b')) y
            → ReadsAll (contents b ++ incoming o fd) total (length (contents b)) y
        shift none all more h = h
        shift (some (ok (t, b2, h2, o2))) all more h = (h.0 ∙ all, omega arith)
        shift (some (throw e)) all more h = tt
        shift (some undefined) all more h = tt

    read_data-ReadsAll :
        (fuel total : ℕ) (b : SockBuffer) (h : H) (o : Os)
        → length (incoming o fd) < fuel
        → ReadsAll
            (contents b ++ incoming o fd)
            total
            (length (contents b))
            (read_data k process fuel fd total b h o)
    unfolding read_data
    read_data-ReadsAll zero total b h o f = absurd (omega arith)
    read_data-ReadsAll (suc fuel) total b h o f =
        after_round-ReadsAll fuel total b o (read_data k process fuel fd)
          (read_round k process fd b h o) (read_round-RoundOf b h o) f
          (λ t b' h' o' f'. read_data-ReadsAll fuel t b' h' o' f')

    -- `readData` takes bytes off the front of the descriptor and appends them to the buffer, in
    -- order, and returns their number; fuel above the number of bytes to come is enough.
    pub read_data-contents :
        (fuel : ℕ) (b b' : SockBuffer) (h h' : H) (o o' : Os) (total : ℕ)
        → read_data k process fuel fd 0 b h o ≡ some (ok (total, b', h', o'))
        → length (incoming o fd) < fuel
        → (contents b' ++ incoming o' fd ≡ contents b ++ incoming o fd)
          × (length (contents b') ≡ length (contents b) + total)
    read_data-contents fuel b b' h h' o o' total e f =
        let r =
          subst (ReadsAll (contents b ++ incoming o fd) 0 (length (contents b))) e
            (read_data-ReadsAll fuel 0 b h o f) in
        (r.0, omega arith)

    -- The loop of readData ends: with more fuel than there are bytes still to come from the
    -- descriptor, it does not run out.
    pub read_data-ne-none :
        (fuel : ℕ) (b : SockBuffer) (h : H) (o : Os)
        → length (incoming o fd) < fuel
        → read_data k process fuel fd 0 b h o ≢ none
    read_data-ne-none fuel b h o f e =
        subst (ReadsAll (contents b ++ incoming o fd) 0 (length (contents b))) e
          (read_data-ReadsAll fuel 0 b h o f)
