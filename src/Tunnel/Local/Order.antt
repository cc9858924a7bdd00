-- ===== src/Tunnel/Local/Order.antt =====
-- The connection map of the local end is kept by ascending id, as a std::map keeps it.
use tun.Prelude.{
  ℕ, ◌+◌, ◌≡◌, refl, sym, subst, List, [], ◌∷◌, map, All, Option, none, some, true, ◌==◌, arith,
  Bool-cases, inl, inr, int_ltb, int_ltb_trans, int_ltb_total, to_int, to_short,
}
use tun.Net.Result.{Result, ok, throw, undefined, ◌>>=◌}
use tun.Tunnel.Spec.{ConnectionSpec}
use tun.Tunnel.Link.{Shared}
use tun.Tunnel.Connection.{Attempt}
use tun.Tunnel.Side.{Side, Opened, create_connection}
use tun.Tunnel.Remote.{put_side}
use tun.Tunnel.Local.{Local, side_connection, named, add_side, create_connections}

-- Ints in strictly ascending order.
abbrev pub AreAscending : List ℕ → Type 0
AreAscending [] = Unit
AreAscending (i ∷ is) = All (λ j. int_ltb i j ≡ true) is × AreAscending is

-- Each connection stands under its own id, and the keys ascend.
abbrev Above : ℕ → List (ℕ × Side) → Type 0
Above i sides = All (λ (x : ℕ × Side). int_ltb i x.0 ≡ true) sides

abbrev pub AreOrdered : List (ℕ × Side) → Type 0
AreOrdered [] = Unit
AreOrdered (x ∷ sides) = ((side_connection x.1).id ≡ x.0) × Above x.0 sides × AreOrdered sides

Above-below :
    (i j : ℕ) (sides : List (ℕ × Side)) → int_ltb i j ≡ true → Above j sides → Above i sides
Above-below i j [] h a = tt
Above-below i j (x ∷ sides) h a = (int_ltb_trans i j x.0 h a.0, Above-below i j sides h a.1)

Above-put_side :
    (i id : ℕ) (side : Side) (sides : List (ℕ × Side))
    → int_ltb i id ≡ true
    → Above i sides
    → Above i (put_side id side sides)
unfolding put_side
Above-put_side i id side [] h a = (h, tt)
Above-put_side i id side ((j, x) ∷ sides) h a = elim (Bool-cases (j == id)) [
  | inl e ↦ rw e (h, a.1)
  | inr e ↦ elim (Bool-cases (int_ltb id j)) [
    | inl l ↦ rw (e, l) (h, a)
    | inr l ↦ rw (e, l) (a.0, Above-put_side i id side sides h a.1)
  ]
]

put_side-AreOrdered :
    (id : ℕ) (side : Side) (sides : List (ℕ × Side))
    → (side_connection side).id ≡ id
    → AreOrdered sides
    → AreOrdered (put_side id side sides)
unfolding put_side
put_side-AreOrdered id side [] k h = (k, tt, tt)
put_side-AreOrdered id side ((j, x) ∷ sides) k (own, above, rest) = elim (Bool-cases (j == id)) [
  | inl e ↦ rw e (k, subst (λ i. Above i sides) (ground (arith, e)) above, rest)
  | inr e ↦ elim (Bool-cases (int_ltb id j)) [
    | inl l ↦ rw (e, l) (k, (l, Above-below id j sides l above), (own, above, rest))
    | inr l ↦
        rw (e, l)
          (
            own,
            Above-put_side j id side sides (int_ltb_total id j (ground (arith, e)) l) above,
            put_side-AreOrdered id side sides k rest,
          )
  ]
]

All-named :
    (i : ℕ) (sides : List (ℕ × Side))
    → Above i sides
    → AreOrdered sides
    → All (λ j. int_ltb i j ≡ true) (map (λ (x : ℕ × ConnectionSpec). x.0) (named sides))
All-named i [] a h = tt
All-named i (x ∷ sides) a h =
    (subst (λ j. int_ltb i j ≡ true) (sym h.0) a.0, All-named i sides a.1 h.2)

-- The ids that startHandshaking sends ascend.
pub named-AreAscending :
    (sides : List (ℕ × Side))
    → AreOrdered sides
    → AreAscending (map (λ (x : ℕ × ConnectionSpec). x.0) (named sides))
named-AreAscending [] h = tt
named-AreAscending (x ∷ sides) h = (
  subst (λ i. All (λ j. int_ltb i j ≡ true) (map (λ (x : ℕ × ConnectionSpec). x.0) (named sides)))
      (sym h.0) (All-named x.0 sides h.1 h.2),
  named-AreAscending sides h.2,
)

module _ (open_listener : ConnectionSpec → Opened) (attempt : ConnectionSpec → Attempt) where
  add_side-AreOrdered :
      (t : Local) (x : Option Side × Shared)
      → AreOrdered t.connection_map
      → AreOrdered (add_side open_listener attempt t x).connection_map
  unfolding add_side
  add_side-AreOrdered t (none, s) h = h
  add_side-AreOrdered t (some side, s) h =
      put_side-AreOrdered (side_connection side).id side t.connection_map refl h

  abbrev Orders : Result Local → Type 0
  Orders (ok t) = AreOrdered t.connection_map
  Orders (throw e) = Unit
  Orders undefined = Unit

  Orders-after :
      (m : Result (Option Side × Shared)) (f : Option Side × Shared → Result Local)
      → ((x : Option Side × Shared) → Orders (f x))
      → Orders (m >>= f)
  Orders-after (ok x) f h = h x
  Orders-after (throw e) f h = tt
  Orders-after undefined f h = tt

  create_connections-Orders :
      (id : ℕ) (specs : List ConnectionSpec) (t : Local)
      → AreOrdered t.connection_map
      → Orders (create_connections open_listener attempt id specs t)
  unfolding create_connections
  create_connections-Orders id [] t h = h
  create_connections-Orders id (spec ∷ specs) t h =
      Orders-after
        (create_connection open_listener attempt (λ a s. ok s) true (to_int id) spec t.shared) _
        (λ x.
          create_connections-Orders (to_short (id + 1)) specs (add_side open_listener attempt t x)
            (add_side-AreOrdered t x h))

  -- The connections that `start` makes leave the map ordered.
  pub create_connections-AreOrdered :
      (id : ℕ) (specs : List ConnectionSpec) (t t' : Local)
      → AreOrdered t.connection_map
      → create_connections open_listener attempt id specs t ≡ ok t'
      → AreOrdered t'.connection_map
  create_connections-AreOrdered id specs t t' h e =
      subst Orders e (create_connections-Orders id specs t h)
