-- ===== src/Net/ReadStream/Frames.antt =====
-- What one call of `ReadStream::fill` does to the byte stream: it stays inside its buffer, and
-- either waits for more of a packet or delivers one whole packet.
use tun.Prelude.{
  suc, ◌⊎◌, lt→ltb, le→ltb, ltb→lt, ◌-◌, subst, sub_size, ℕ, ◌+◌, ◌≤◌, ◌<◌, ◌≡◌, refl, sym, ap,
  List, [], ◌∷◌, ◌++◌, append_assoc, length, length-append, of_be32, arith, true, false, inl, inr,
  Bool-cases, ltb, leb, ◌==◌, if◌then◌else◌,
}
use tun.Net.Result.{
  Result, ok, throw, undefined, eagain, ehostunreach, econnreset, eintr, eaddrinuse, other_errno,
  ◌>>=◌,
}
use tun.Net.Kernel.{Kernel, Events, ReadResult, got, read_failed, Took, read-Took}
use tun.Net.ReadStream.{
  ReadStream, load_length, grow, finish, read_into, got_header, got_body, fill_header, fill_rest,
  fill_body, fill_after, fill,
}

-- A packet off the front of a byte stream.
pub record IsFrame (stream m rest : List ℕ) : Type 0 where
  pub b0 : ℕ
  pub b1 : ℕ
  pub b2 : ℕ
  pub b3 : ℕ
  pub bytes : stream ≡ b0 ∷ b1 ∷ b2 ∷ b3 ∷ m ++ rest
  pub len : of_be32 b0 b1 b2 b3 ≡ length m

-- From the queue and the unread bytes before to those after.
pub data Progress (q u q' u' : List ℕ) : Type 0 where
  waits : q' ≡ q → u' ≡ u → Progress q u q' u'
  delivers : (m : List ℕ) → q' ≡ q ++ m → IsFrame u m u' → Progress q u q' u'

-- A packet that has begun has a length that was accepted, and is not complete.
abbrev pub IsPartial : List ℕ → Type 0
IsPartial (a ∷ b ∷ c ∷ d ∷ t) = (length t < of_be32 a b c d) × (of_be32 a b c d ≤ 50000000)
IsPartial _ = Unit {0}

pub record IsValid (r : ReadStream) : Type 0 where
  pub room : 4 ≤ r.read_size
  pub within : length r.read_buf ≤ r.read_size
  pub begun : IsPartial r.read_buf

IsPartial-le :
    (a b c d : ℕ) (t : List ℕ) → IsPartial (a ∷ b ∷ c ∷ d ∷ t) → length t ≤ of_be32 a b c d
IsPartial-le a b c d t h = omega arith

-- Fewer bytes than a length has, or as many.
four_cases :
    (xs : List ℕ)
    → (length xs < 4) × IsPartial xs
      ⊎ ((a : ℕ) × (b : ℕ) × (c : ℕ) × (d : ℕ) × (t : List ℕ) × (xs ≡ a ∷ b ∷ c ∷ d ∷ t))
four_cases [] = inl (omega arith, tt)
four_cases (a ∷ []) = inl (omega arith, tt)
four_cases (a ∷ b ∷ []) = inl (omega arith, tt)
four_cases (a ∷ b ∷ c ∷ []) = inl (omega arith, tt)
four_cases (a ∷ b ∷ c ∷ d ∷ t) = inr (a, b, c, d, t, refl)

finish_step :
    (a b c d : ℕ) (t q rest : List ℕ) (s : ℕ)
    → length t ≤ of_be32 a b c d
    → of_be32 a b c d ≤ 50000000
    → length t + 4 ≤ s
    → let r' =
        finish
          (of_be32 a b c d)
          (record { queue = q; read_buf = a ∷ b ∷ c ∷ d ∷ t; read_size = s }) in
      IsValid r' × Progress q (a ∷ b ∷ c ∷ d ∷ t ++ rest) r'.queue (r'.read_buf ++ rest)
unfolding finish
finish_step a b c d t q rest s h1 h2 h3 =
    elim (Bool-cases (suc (suc (suc (suc (length t)))) == (of_be32 a b c d + 4))) [
      | inl e ↦ rw e (
        record { room = omega arith; within = omega arith; begun = tt },
        delivers t refl
            (record { b0 = a; b1 = b; b2 = c; b3 = d; bytes = refl; len = ground arith }),
      )
      | inr e ↦ rw e (
        record { room = omega arith; within = omega arith; begun = ground arith },
        waits refl refl,
      )
    ]

module _ (k : Kernel) (fd : ℕ) where
  open k use {Os, read, incoming}

  -- What has been sent to this end and is in no packet delivered yet.
  abbrev pub unread : ReadStream → Os → List ℕ
  unread r o = r.read_buf ++ incoming o fd

  -- A result of `fill` that started with queue `q` and unread bytes `u`.
  abbrev pub Fills : List ℕ → List ℕ → Result (ReadStream × Os) → Type 0
  Fills q u (ok (r', o')) = IsValid r' × Progress q u r'.queue (unread r' o')
  Fills q u (throw e) = Unit {0}
  Fills q u undefined = ⊥

  got_body_step :
      (a b c d : ℕ) (t q : List ℕ) (s n : ℕ) (o : Os) (x : ReadResult × Os)
      → length t + n ≡ of_be32 a b c d
      → of_be32 a b c d ≤ 50000000
      → length t + n + 4 ≤ s
      → Took k fd n o x
      → Fills q (a ∷ b ∷ c ∷ d ∷ t ++ incoming o fd) (
          got_body k
            (of_be32 a b c d)
            (record { queue = q; read_buf = a ∷ b ∷ c ∷ d ∷ t; read_size = s })
            x)
  unfolding got_body
  got_body_step a b c d t q s n o (got bs, o') h1 h2 h3 took =
      let (v, p) =
        finish_step a b c d (t ++ bs) q (incoming o' fd) s (omega (arith, length-append t bs)) h2
          (omega (arith, length-append t bs)) in
      (v, rw (took.1, ← append_assoc) p)
  got_body_step a b c d t q s n o (read_failed eagain, o') h1 h2 h3 took =
      rw (← took) (finish_step a b c d t q (incoming o' fd) s (omega arith) h2 (omega arith))
  got_body_step a b c d t q s n o (read_failed ehostunreach, o') h1 h2 h3 took = tt
  got_body_step a b c d t q s n o (read_failed econnreset, o') h1 h2 h3 took = tt
  got_body_step a b c d t q s n o (read_failed eintr, o') h1 h2 h3 took = tt
  got_body_step a b c d t q s n o (read_failed eaddrinuse, o') h1 h2 h3 took = tt
  got_body_step a b c d t q s n o (read_failed (other_errno e), o') h1 h2 h3 took = tt

  fill_rest_step :
      (a b c d : ℕ) (t q : List ℕ) (s : ℕ) (o : Os)
      → length t ≤ of_be32 a b c d
      → 4 ≤ s
      → Fills q (a ∷ b ∷ c ∷ d ∷ t ++ incoming o fd) (
          fill_rest k fd
            (record { queue = q; read_buf = a ∷ b ∷ c ∷ d ∷ t; read_size = s })
            o
            (of_be32 a b c d))
  unfolding fill_rest grow read_into
  fill_rest_step a b c d t q s o h1 h2 = elim (Bool-cases (ltb 50000000 (of_be32 a b c d))) [
    | inl e ↦ rw e tt
    | inr e ↦
        let n : ℕ = of_be32 a b c d in
        let size : ℕ = if ltb s (n + 4) then n + 4 else s in
        let len : ℕ = suc (suc (suc (suc (length t)))) in
        let small : n ≤ 50000000 = ground arith in
        let large : n + 4 ≤ size = ground arith in
        let count : sub_size (n + 4) len ≡ n - length t = omega arith in
        let fits : leb (len + (n - length t)) size ≡ true = ground arith in
        rw (e, count, fits)
          (got_body_step a b c d t q size (n - length t) o _ (omega arith) small (omega arith)
            (read-Took k fd (n - length t) o))
  ]

  -- A stream whose packet has at least its length.
  fill_body_step :
      (r : ReadStream) (o : Os) (a b c d : ℕ) (t : List ℕ)
      → r.read_buf ≡ a ∷ b ∷ c ∷ d ∷ t
      → length t ≤ of_be32 a b c d
      → 4 ≤ r.read_size
      → Fills r.queue (unread r o) (fill_body k fd r o)
  unfolding fill_body load_length
  fill_body_step r o a b c d t e h1 h2 =
      subst
        (λ buf.
          Fills r.queue (buf ++ incoming o fd) (fill_body k fd (record r { read_buf = buf }) o))
        (sym e) (fill_rest_step a b c d t r.queue r.read_size o h1 h2)

  fill_after_step :
      (r : ReadStream) (o : Os)
      → 4 ≤ r.read_size
      → length r.read_buf ≤ r.read_size
      → ((a b c d : ℕ) (t : List ℕ) → r.read_buf ≡ a ∷ b ∷ c ∷ d ∷ t → length t ≤ of_be32 a b c d)
      → Fills r.queue (unread r o) (fill_after k fd (r, o))
  unfolding fill_after
  fill_after_step r o h1 h2 h3 = elim (four_cases r.read_buf) [
    | inl (short, p) ↦
        rw (lt→ltb _ _ short) (record { room = h1; within = h2; begun = p }, waits refl refl)
    | inr (a, b, c, d, t, e) ↦
        let long : ltb (length r.read_buf) 4 ≡ false = le→ltb _ _ (omega (arith, ap length e)) in
        rw long (fill_body_step r o a b c d t e (h3 a b c d t e) h1)
  ]

  got_header_step :
      (r : ReadStream) (o : Os) (x : ReadResult × Os)
      → IsValid r
      → length r.read_buf < 4
      → Took k fd (4 - length r.read_buf) o x
      → Fills r.queue (unread r o) (got_header k r x >>= fill_after k fd)
  unfolding got_header
  got_header_step r o (read_failed e, o') v h took = tt
  got_header_step r o (got [], o') v h took = tt
  got_header_step r o (got (b ∷ bs), o') v h took =
      let buf : List ℕ = r.read_buf ++ b ∷ bs in
      let len : length buf ≤ 4 = omega (arith, length-append r.read_buf (b ∷ bs)) in
      let after : Fills r.queue (buf ++ incoming o' fd)
          (fill_after k fd (record r { read_buf = buf }, o')) =
        fill_after_step (record r { read_buf = buf }) o' v.room (omega arith)
          (λ a b' c d t e. omega (arith, ap length e)) in
      rw (took.1, ← append_assoc) after

  pub fill_step_lem :
      (r : ReadStream) (revents : Events) (o : Os)
      → IsValid r
      → Fills r.queue (unread r o) (fill k fd revents r o)
  unfolding fill fill_header read_into
  fill_step_lem r revents o v = elim (Bool-cases revents.pollin) [
    | inl e ↦ rw e (elim (Bool-cases (ltb (length r.read_buf) 4)) [
      | inl short ↦
          let count : sub_size 4 (length r.read_buf) ≡ 4 - length r.read_buf = ground arith in
          let fits : leb (length r.read_buf + (4 - length r.read_buf)) r.read_size ≡ true =
            ground (arith, v.room) in
          rw (short, count, fits)
            (got_header_step r o _ v (ltb→lt _ _ short) (read-Took k fd (4 - length r.read_buf) o))
      | inr long ↦ rw long (
          fill_after_step r o v.room v.within
            (λ a b c d t e'. IsPartial-le a b c d t (subst IsPartial e' v.begun)))
    ])
    | inr e ↦ rw e (v, waits refl refl)
  ]
