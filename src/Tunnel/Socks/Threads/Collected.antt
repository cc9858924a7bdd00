-- ===== src/Tunnel/Socks/Threads/Collected.antt =====
-- The loop of collect, with its index and deletions, is a filter.
use tun.Prelude.{
  ℕ, zero, suc, ◌+◌, ◌<◌, ◌≤◌, ◌≡◌, refl, sym, ◌∙◌, ap, List, [], ◌∷◌, ◌++◌, append_assoc,
  append-nil, Bool, true, false, not, Option, none, some, length, take, drop, get_elem?,
  get_elem?-append, arith, length-append, select, Bool-cases, ◌⊎◌, inl, inr, lt→ltb, le→ltb,
}
use tun.Tunnel.Socks.Threads.{
  Sblist, arrived, Pool, collect, collect_thread, server_polled, arrive, added,
}

-- An element taken out of the middle.
erase_middle :
    (front back : List ℕ) (t : ℕ)
    → take (length front) (front ++ t ∷ back) ++ drop (suc (length front)) (front ++ t ∷ back)
      ≡ front ++ back
erase_middle [] back t = refl
erase_middle (x ∷ front) back t = ap (λ (xs : List ℕ). x ∷ xs) (erase_middle front back t)

module _ (sblist : Sblist) (done : ℕ → Bool) where
  open sblist use {
    Items, contents, get_size, get, delete, get_size_lem, get_lem, delete_lem, add, add_lem,
  }

  abbrev pub live : ℕ → Bool
  live t = not (done t)

  collect_step :
      (fuel i : ℕ) (l : Items) (joined : List ℕ) (t : ℕ) (b : Bool)
      → i < get_size l
      → get l i ≡ some t
      → done t ≡ b
      → collect sblist done (suc fuel) i l joined
        ≡ collect_thread sblist done (collect sblist done fuel) i l joined t b
  unfolding collect
  collect_step fuel i l joined t b h g d = rw (lt→ltb i (get_size l) h, g, d) refl

  collect_end :
      (fuel i : ℕ) (l : Items) (joined : List ℕ)
      → get_size l ≤ i
      → collect sblist done (suc fuel) i l joined ≡ some (l, joined)
  unfolding collect
  collect_end fuel i l joined h = rw (le→ltb i (get_size l) h) refl

  -- The loop at the front of `back`, when the threads of `front` have been looked at.
  collect_from :
      (back front : List ℕ) (fuel : ℕ) (l : Items) (joined : List ℕ)
      → contents l ≡ front ++ back
      → length back < fuel
      → (l' : Items) × (collect sblist done fuel (length front) l joined
          ≡ some (l', joined ++ select done back))
        × (contents l' ≡ front ++ select live back)
  collect_from back front zero l joined e h = absurd (omega arith)
  collect_from [] front (suc fuel) l joined e h =
      let n : get_size l ≡ length front = get_size_lem l ∙ ap length (e ∙ append-nil front) in
      (
        l,
        collect_end fuel (length front) l joined (omega arith)
            ∙ ap (λ (j : List ℕ). some (l, j)) (sym (append-nil joined)),
        e,
      )
  collect_from (t ∷ back) front (suc fuel) l joined e h =
      let n : get_size l ≡ length front + suc (length back) =
        get_size_lem l ∙ ap length e ∙ length-append front (t ∷ back) in
      let g : get l (length front) ≡ some t =
        get_lem l (length front)
        ∙ ap (λ (c : List ℕ). get_elem? c (length front)) e
        ∙ get_elem?-append front t back in
      elim (Bool-cases (done t)) [
        | inl d ↦
            let r =
              collect_from back front fuel (delete l (length front)) (joined ++ t ∷ [])
                (delete_lem l (length front)
                  ∙ ap (λ (c : List ℕ). take (length front) c ++ drop (suc (length front)) c) e
                  ∙ erase_middle front back t)
                (omega arith) in
            (
              r.0,
              collect_step fuel (length front) l joined t true (omega arith) g d
                  ∙ r.1
                  ∙ ap (λ (j : List ℕ). some (r.0, j))
                      (append_assoc joined (t ∷ []) (select done back) ∙ rw d refl),
              rw d r.2,
            )
        | inr d ↦
            let r =
              collect_from back (front ++ t ∷ []) fuel l joined
                (e ∙ sym (append_assoc front (t ∷ []) back)) (omega arith) in
            let m : length (front ++ t ∷ []) ≡ suc (length front) =
              omega (arith, length-append front (t ∷ [])) in
            (
              r.0,
              collect_step fuel (length front) l joined t false (omega arith) g d
                  ∙ ap (λ (i : ℕ). collect sblist done fuel i l joined) (sym m)
                  ∙ r.1
                  ∙ rw d refl,
              rw d (r.2 ∙ append_assoc front (t ∷ []) (select live back)),
            )
      ]

  -- With more fuel than there are threads, collect joins and frees exactly the threads that are
  -- done and keeps exactly the others, both in their order.
  pub collect-select :
      (fuel : ℕ) (l : Items)
      → length (contents l) < fuel
      → (l' : Items) × (collect sblist done fuel 0 l [] ≡ some (l', select done (contents l)))
        × (contents l' ≡ select live (contents l))
  collect-select fuel l h = collect_from (contents l) [] fuel l [] refl h

  -- A client is kept as the last thread, or its descriptor is closed and its thread freed.
  abbrev pub Accepts : ℕ → ℕ → Pool Items → Pool Items → Type 0
  Accepts t fd p p' =
      (contents p'.threads ≡ select live (contents p.threads) ++ t ∷ []) × (p'.closed ≡ p.closed)
      ⊎ (contents p'.threads ≡ select live (contents p.threads)) × (p'.closed ≡ p.closed ++ fd ∷ [])

  added-Accepts :
      (t fd : ℕ) (starts : Bool) (p q : Pool Items) (x : Option Items)
      → add q.threads t ≡ x
      → contents q.threads ≡ select live (contents p.threads)
      → q.closed ≡ p.closed
      → Accepts t fd p (added sblist done q t fd starts x)
  unfolding server_polled
  added-Accepts t fd starts p q none a e c = inr (e, ap (λ (xs : List ℕ). xs ++ fd ∷ []) c)
  added-Accepts t fd starts p q (some l) a e c =
      inl (add_lem q.threads l t a ∙ ap (λ (xs : List ℕ). xs ++ t ∷ []) e, c)

  -- When a client arrives, the server's polled returns with the finished threads gone from its
  -- list, the others in their order, and the client either kept behind them or disconnected.
  pub server_polled-Accepts :
      (fuel t fd : ℕ) (starts : Bool) (p : Pool Items)
      → length (contents p.threads) < fuel
      → (p' : Pool Items) × (server_polled sblist done fuel (arrived t fd starts) p ≡ some p')
        × Accepts t fd p p'
  unfolding server_polled
  server_polled-Accepts fuel t fd starts p h =
      let r = collect-select fuel p.threads h in
      let q : Pool Items = record p {
        threads = r.0;
        freed = p.freed ++ select done (contents p.threads);
      } in
      (
        arrive sblist done (arrived t fd starts) q,
        rw r.1 refl,
        added-Accepts t fd starts p q (add q.threads t) refl r.2 refl,
      )
