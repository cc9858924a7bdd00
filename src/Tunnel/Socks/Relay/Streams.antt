-- ===== src/Tunnel/Socks/Relay/Streams.antt =====
-- What copyloop does to the two byte streams, and why it ends.
use tun.Prelude.{
  ℕ, zero, suc, ◌≤◌, ◌≡◌, ◌≢◌, refl, sym, ◌∙◌, ap, subst, List, [], ◌∷◌, ◌++◌, append_assoc, true,
  false, Option, none, some, length, length-append, arith, Bool-cases, ◌⊎◌, inl, inr,
}
use tun.Net.Kernel.{Kernel, Frame, Events, ReadResult, got, read_failed}
use tun.Tunnel.Link.{wants}
use tun.Net.Poller.{PollResult, ready, timed_out, poll_failed}
use tun.Tunnel.Socks.Relay.{
  copy_size, first_ready, is_again, Sent, copied, polled_round, copy_round, next_copy, copyloop,
}
use tun.Tunnel.Socks.Relay.Sends.{Failed, Sends, send_all-Sends}

module _ (k : Kernel) (frame : Frame k) (poll : List (ℕ × Events) → k.Os → PollResult) where
  open k use {Os, read, write, incoming, outgoing, read_takes, read_fails, write_accepts}

  -- The stream from `src` to `dst`, with `lost` missing.
  abbrev pub Stream : ℕ → ℕ → List ℕ → Os → Os → Type 0
  Stream src dst lost o o' =
      outgoing o' dst ++ (lost ++ incoming o' src) ≡ outgoing o dst ++ incoming o src

  abbrev IsEnd : ReadResult → Type 0
  IsEnd (got (b ∷ bs)) = ⊥
  IsEnd _ = Unit

  -- A read has met the end of the input, or has failed, and left the system as it is.
  abbrev pub EndsInput : ℕ → Os → Type 0
  EndsInput src o' = (o1 : Os) × (x : ReadResult) × (read src copy_size o1 ≡ (x, o')) × IsEnd x

  -- Why the copying from `src` to `dst` stops: nothing was read, and nothing is lost, or a write
  -- has failed, and what it should have written is lost.
  abbrev pub Cut : ℕ → ℕ → List ℕ → Os → Type 0
  Cut src dst lost o' =
      ((lost ≡ []) × EndsInput src o')
      ⊎ ((length lost ≤ copy_size) × Failed k frame poll dst lost o')

  abbrev Moves : ℕ → ℕ → Os → Sent k poll → Type 0
  Moves src dst o none = Unit
  Moves src dst o (some (true, o')) = Stream src dst [] o o' × Stream dst src [] o o'
  Moves src dst o (some (false, o')) =
      (lost : List ℕ) × Stream src dst lost o o' × Stream dst src [] o o' × Cut src dst lost o'

  sent-Moves :
      (src dst : ℕ) (bs : List ℕ) (o o' : Os) (x : Sent k poll)
      → src ≢ dst
      → length bs ≤ copy_size
      → incoming o src ≡ bs ++ incoming o' src
      → outgoing o' dst ≡ outgoing o dst
      → outgoing o' src ++ incoming o' dst ≡ outgoing o src ++ incoming o dst
      → Sends k frame poll dst bs o' x
      → Moves src dst o x
  sent-Moves src dst bs o o' none n z i q other h = tt
  sent-Moves src dst bs o o' (some (true, o'')) n z i q other h = (
    rw (h.0, h.1.0 src, q, i) (append_assoc (outgoing o dst) bs (incoming o' src)),
    rw (h.1.1 src n, h.1.0 dst) other,
  )
  sent-Moves src dst bs o o' (some (false, o'')) n z i q other (sent, l, (e, w, f), t) = (
    l,
    rw (t.0 src, w, q, i, e) (simp append_assoc),
    rw (t.1 src n, t.0 dst) other,
    inr (omega (arith, z, ap length e, length-append sent l), f),
  )

  -- Reading from `src` has changed only what comes from `src`.
  read_still :
      (src dst n : ℕ) (o : Os) (x : ReadResult × Os)
      → src ≢ dst
      → read src n o ≡ x
      → (outgoing x.1 dst ≡ outgoing o dst)
        × (outgoing x.1 src ++ incoming x.1 dst ≡ outgoing o src ++ incoming o dst)
  read_still src dst n o x d r = rw (← r) (
    frame.read_outgoing src n dst o,
    rw (frame.read_outgoing src n src o, frame.read_incoming src n dst o (λ e. d (sym e))) refl,
  )

  -- Nothing was read.
  idle-Moves :
      (src dst : ℕ) (o : Os) (x : ReadResult × Os)
      → src ≢ dst
      → read src copy_size o ≡ x
      → IsEnd x.0
      → incoming x.1 src ≡ incoming o src
      → Moves src dst o (some (false, x.1))
  idle-Moves src dst o x d r end i =
      let s = read_still src dst copy_size o x d r in
      ([], rw (s.0, i) refl, s.1, inl (refl, (o, x.0, r, end)))

  copied-Moves :
      (fuel src dst : ℕ) (o : Os) (x : ReadResult × Os)
      → src ≢ dst
      → read src copy_size o ≡ x
      → Moves src dst o (copied k poll fuel dst x)
  unfolding copied
  copied-Moves fuel src dst o (read_failed e, o') d r =
      idle-Moves src dst o (read_failed e, o') d r tt (read_fails src copy_size o o' e r)
  copied-Moves fuel src dst o (got [], o') d r =
      idle-Moves src dst o (got [], o') d r tt (sym (read_takes src copy_size o o' [] r).1)
  copied-Moves fuel src dst o (got (b ∷ bs), o') d r =
      let s = read_still src dst copy_size o (got (b ∷ bs), o') d r in
      let t = read_takes src copy_size o o' (b ∷ bs) r in
      sent-Moves src dst (b ∷ bs) o o' _ d t.0 t.1 s.0 s.1
        (send_all-Sends k frame poll fuel dst (b ∷ bs) o')

  module _ (fd1 fd2 : ℕ) (distinct : fd1 ≢ fd2) where
    abbrev IsOver : PollResult → Type 0
    IsOver timed_out = Unit
    IsOver (poll_failed e) = is_again e ≡ false
    IsOver (ready revents) = ⊥

    -- poll(2) finds nothing ready, or fails for another reason than EINTR and EAGAIN.
    abbrev pub PollEnds : Os → Type 0
    PollEnds o' = IsOver (poll ((fd1, wants true false) ∷ (fd2, wants true false) ∷ []) o')

    -- Why the loop ends, and in which direction something is lost, if it is.
    abbrev pub Cause : List ℕ → List ℕ → Os → Type 0
    Cause lost1 lost2 o' =
        ((lost2 ≡ []) × Cut fd1 fd2 lost1 o')
        ⊎ (((lost1 ≡ []) × Cut fd2 fd1 lost2 o') ⊎ ((lost1 ≡ []) × (lost2 ≡ []) × PollEnds o'))

    -- Both streams; in a round that is not the last nothing is lost.
    abbrev Both : Os → Sent k poll → Type 0
    Both o none = Unit
    Both o (some (true, o')) = Stream fd1 fd2 [] o o' × Stream fd2 fd1 [] o o'
    Both o (some (false, o')) =
        (lost1 : List ℕ) × (lost2 : List ℕ) × Stream fd1 fd2 lost1 o o'
        × Stream fd2 fd1 lost2 o o'
        × Cause lost1 lost2 o'

    Both-forth : (o : Os) (x : Sent k poll) → Moves fd1 fd2 o x → Both o x
    Both-forth o none h = tt
    Both-forth o (some (true, o')) h = h
    Both-forth o (some (false, o')) h = (h.0, [], h.1, h.2, inl (refl, h.3))

    Both-back : (o : Os) (x : Sent k poll) → Moves fd2 fd1 o x → Both o x
    Both-back o none h = tt
    Both-back o (some (true, o')) h = (h.1, h.0)
    Both-back o (some (false, o')) h = ([], h.0, h.2, h.1, inr (inl (refl, h.3)))

    stopped-Both : (o : Os) → PollEnds o → Both o (some (false, o))
    stopped-Both o p = ([], [], refl, refl, inr (inr (refl, refl, p)))

    polled_round-Both :
        (fuel : ℕ) (o : Os) (x : PollResult)
        → poll ((fd1, wants true false) ∷ (fd2, wants true false) ∷ []) o ≡ x
        → Both o (polled_round k poll fuel fd1 fd2 x o)
    unfolding polled_round
    polled_round-Both fuel o timed_out q = stopped-Both o (subst IsOver (sym q) tt)
    polled_round-Both fuel o (poll_failed e) q = elim (Bool-cases (is_again e)) [
      | inl y ↦ rw y (refl, refl)
      | inr y ↦ rw y (stopped-Both o (subst IsOver (sym q) y))
    ]
    polled_round-Both fuel o (ready revents) q = elim (Bool-cases (first_ready revents)) [
      | inl e ↦ rw e (Both-forth o _ (copied-Moves fuel fd1 fd2 o _ distinct refl))
      | inr e ↦ rw e (Both-back o _ (copied-Moves fuel fd2 fd1 o _ (λ n. distinct (sym n)) refl))
    ]

    -- Where the loop ends.
    abbrev pub Relayed : Os → Option Os → Type 0
    Relayed o none = Unit
    Relayed o (some o') =
        (lost1 : List ℕ) × (lost2 : List ℕ) × Stream fd1 fd2 lost1 o o'
        × Stream fd2 fd1 lost2 o o'
        × Cause lost1 lost2 o'

    Relayed-after :
        (o o' : Os) (x : Option Os) → Both o (some (true, o')) → Relayed o' x → Relayed o x
    Relayed-after o o' none h r = tt
    Relayed-after o o' (some o'') h r = (r.0, r.1, r.2 ∙ h.0, r.3 ∙ h.1, r.4)

    next_copy-Relayed :
        (again : Os → Option Os) (o : Os) (x : Sent k poll)
        → Both o x
        → ((o' : Os) → Relayed o' (again o'))
        → Relayed o (next_copy k poll again x)
    next_copy-Relayed again o none h r = tt
    next_copy-Relayed again o (some (true, o')) h r = Relayed-after o o' (again o') h (r o')
    next_copy-Relayed again o (some (false, o')) h r = h

    copyloop-Relayed :
        (rounds writes : ℕ) (o : Os) → Relayed o (copyloop k poll rounds writes fd1 fd2 o)
    unfolding copyloop copy_round
    copyloop-Relayed zero writes o = tt
    copyloop-Relayed (suc rounds) writes o =
        next_copy-Relayed _ o _ (polled_round-Both writes o _ refl) (copyloop-Relayed rounds writes)

    -- Where copyloop between two descriptors ends, what each has been sent, then what was lost on
    -- the way, then what is still to come from the other, is exactly what it had been sent and
    -- what was to come at the start. It ends because poll(2) finds nothing ready or fails
    -- otherwise than with EINTR or EAGAIN, because a read fails or meets the end of the input, or
    -- because a write fails; only in the last case something is lost, in that one direction: the
    -- bytes of the write that failed, no more than one read can take.
    pub copyloop-Stream :
        (rounds writes : ℕ) (o o' : Os)
        → copyloop k poll rounds writes fd1 fd2 o ≡ some o'
        → (lost1 : List ℕ) × (lost2 : List ℕ) × Stream fd1 fd2 lost1 o o'
          × Stream fd2 fd1 lost2 o o'
          × Cause lost1 lost2 o'
    copyloop-Stream rounds writes o o' e = subst (Relayed o) e (copyloop-Relayed rounds writes o)
