-- ===== src/Tunnel/Socks/Relay/Sends.antt =====
-- The inner loop of copyloop: what it writes, and what it leaves when a write fails.
use tun.Prelude.{
  ℕ, zero, suc, ◌<◌, ◌≡◌, ◌≢◌, refl, sym, ◌∙◌, ap, subst, List, [], ◌∷◌, ◌++◌, append_assoc,
  append-nil, true, false, none, some, length, take, drop, take-append-drop, length-drop, arith,
  ◌⊎◌, inl, inr,
}
use tun.Net.Kernel.{Kernel, Frame, Events, WriteResult, wrote, write_failed}
use tun.Net.Result.{Errno}
use tun.Net.Poller.{PollResult}
use tun.Tunnel.Socks.Relay.{Sent, sent_some, send_all}

module _ (k : Kernel) (frame : Frame k) (poll : List (ℕ × Events) → k.Os → PollResult) where
  open k use {Os, read, write, incoming, outgoing, read_takes, read_fails, write_accepts}

  -- Writing to `dst` has changed nothing else.
  abbrev pub Still : ℕ → Os → Os → Type 0
  Still dst o o' =
      ((fd : ℕ) → incoming o' fd ≡ incoming o fd)
      × ((fd : ℕ) → fd ≢ dst → outgoing o' fd ≡ outgoing o fd)

  Still-trans : (dst : ℕ) (o o' o'' : Os) → Still dst o o' → Still dst o' o'' → Still dst o o''
  Still-trans dst o o' o'' s t = (λ fd. t.0 fd ∙ s.0 fd, λ fd n. t.1 fd n ∙ s.1 fd n)

  write-Still :
      (dst : ℕ) (bs : List ℕ) (o : Os) (x : WriteResult × Os) → write dst bs o ≡ x → Still dst o x.1
  write-Still dst bs o x e =
      rw (← e) (λ fd. frame.write_incoming dst fd bs o, λ fd n. frame.write_outgoing dst fd bs o n)

  -- A write of `l` to `dst` has failed and left the system as it is.
  abbrev pub Failed : ℕ → List ℕ → Os → Type 0
  Failed dst l o' = (o1 : Os) × (e : Errno) × (write dst l o1 ≡ (write_failed e, o'))

  -- `sent` is out and then the write of `l`, the rest of the bytes, has failed.
  abbrev pub Stops : ℕ → List ℕ → Os → Os → List ℕ → List ℕ → Type 0
  Stops dst bs o o' sent l =
      (bs ≡ sent ++ l) × (outgoing o' dst ≡ outgoing o dst ++ sent) × Failed dst l o'

  abbrev pub Sends : ℕ → List ℕ → Os → Sent k poll → Type 0
  Sends dst bs o none = Unit
  Sends dst bs o (some (true, o')) = (outgoing o' dst ≡ outgoing o dst ++ bs) × Still dst o o'
  Sends dst bs o (some (false, o')) = (sent l : List ℕ) × Stops dst bs o o' sent l × Still dst o o'

  -- Some of the bytes are out already.
  Sends-after :
      (dst : ℕ) (sent rest : List ℕ) (o o' : Os) (x : Sent k poll)
      → outgoing o' dst ≡ outgoing o dst ++ sent
      → Still dst o o'
      → Sends dst rest o' x
      → Sends dst (sent ++ rest) o x
  Sends-after dst sent rest o o' none e s h = tt
  Sends-after dst sent rest o o' (some (true, o'')) e s h = (
    h.0 ∙ ap (λ (xs : List ℕ). xs ++ rest) e ∙ append_assoc (outgoing o dst) sent rest,
    Still-trans dst o o' o'' s h.1,
  )
  Sends-after dst sent rest o o' (some (false, o'')) e s (sent', l, (q, w, f), t) = (
    sent ++ sent',
    l,
    (
      ap (λ (xs : List ℕ). sent ++ xs) q ∙ sym (append_assoc sent sent' l),
      w ∙ ap (λ (xs : List ℕ). xs ++ sent') e ∙ append_assoc (outgoing o dst) sent sent',
      f,
    ),
    Still-trans dst o o' o'' s t,
  )

  pub send_all-Sends :
      (fuel dst : ℕ) (bs : List ℕ) (o : Os) → Sends dst bs o (send_all k poll fuel dst bs o)
  unfolding send_all
  send_all-Sends zero dst bs o = tt
  send_all-Sends (suc fuel) dst [] o =
      (sym (append-nil (outgoing o dst)), (λ fd. refl, λ fd n. refl))
  send_all-Sends (suc fuel) dst (b ∷ bs) o =
      go (write dst (b ∷ bs) o) refl (λ m o'. send_all-Sends fuel dst (drop m (b ∷ bs)) o')
    where
      go :
          (x : WriteResult × Os)
          → write dst (b ∷ bs) o ≡ x
          → ((m : ℕ) (o' : Os)
              → Sends dst (drop m (b ∷ bs)) o' (send_all k poll fuel dst (drop m (b ∷ bs)) o'))
          → Sends dst (b ∷ bs) o (sent_some k poll (send_all k poll fuel dst) (b ∷ bs) x)
      go (write_failed e, o') w ih = (
        [],
        b ∷ bs,
        (
          refl,
          frame.write_fails dst (b ∷ bs) o o' e w ∙ sym (append-nil (outgoing o dst)),
          (o, e, w),
        ),
        write-Still dst (b ∷ bs) o _ w,
      )
      go (wrote m, o') w ih =
          subst (λ xs. Sends dst xs o (send_all k poll fuel dst (drop m (b ∷ bs)) o'))
            (take-append-drop m (b ∷ bs))
            (Sends-after dst (take m (b ∷ bs)) (drop m (b ∷ bs)) o o' _
              (write_accepts dst m (b ∷ bs) o o' w).1 (write-Still dst (b ∷ bs) o _ w) (ih m o'))

  -- Each write of some bytes takes at least one of them, or fails.
  abbrev pub Progresses : Type 0
  Progresses = (fd b m : ℕ) (bs : List ℕ) (o o' : Os) → write fd (b ∷ bs) o ≡ (wrote m, o') → 0 < m

  send_all-ne-none :
      Progresses
      → (fuel fd : ℕ) (bs : List ℕ) (o : Os) → length bs < fuel
      → send_all k poll fuel fd bs o ≢ none
  unfolding send_all
  send_all-ne-none p zero fd bs o h = absurd (omega arith)
  send_all-ne-none p (suc fuel) fd [] o h = λ e. cc
  send_all-ne-none p (suc fuel) fd (b ∷ bs) o h =
      go (write fd (b ∷ bs) o) refl (λ m o' q. send_all-ne-none p fuel fd (drop m (b ∷ bs)) o' q)
    where
      go :
          (x : WriteResult × Os)
          → write fd (b ∷ bs) o ≡ x
          → ((m : ℕ) (o' : Os)
              → length (drop m (b ∷ bs)) < fuel
              → send_all k poll fuel fd (drop m (b ∷ bs)) o' ≢ none)
          → sent_some k poll (send_all k poll fuel fd) (b ∷ bs) x ≢ none
      go (write_failed e, o') w ih = λ q. cc
      go (wrote m, o') w ih = ih m o' (omega (arith, p fd b m bs o o' w, length-drop m (b ∷ bs)))

  -- The inner loop of copyloop ends if each write of some bytes takes one at least or fails: with
  -- more fuel than there are bytes to write it does not run out. Either it says that all is out,
  -- and then exactly those bytes have been written, or it stops, and then a part of them from the
  -- start has been written and the write of all that remained has failed.
  pub send_all-ends :
      Progresses
      → (fuel fd : ℕ) (bs : List ℕ) (o : Os) → length bs < fuel
      → (o' : Os) × (((send_all k poll fuel fd bs o ≡ some (true, o'))
            × (outgoing o' fd ≡ outgoing o fd ++ bs))
          ⊎ ((send_all k poll fuel fd bs o ≡ some (false, o'))
              × ((sent l : List ℕ) × Stops fd bs o o' sent l)))
  send_all-ends p fuel fd bs o h =
      go (send_all k poll fuel fd bs o) (send_all-ne-none p fuel fd bs o h)
        (send_all-Sends fuel fd bs o)
    where
      go :
          (x : Sent k poll)
          → x ≢ none
          → Sends fd bs o x
          → (o' : Os) × (((x ≡ some (true, o')) × (outgoing o' fd ≡ outgoing o fd ++ bs))
              ⊎ ((x ≡ some (false, o')) × ((sent l : List ℕ) × Stops fd bs o o' sent l)))
      go none n s = absurd (n refl)
      go (some (true, o')) n s = (o', inl (refl, s.0))
      go (some (false, o')) n s = (o', inr (refl, (s.0, s.1, s.2)))
