-- ===== src/Tunnel/Socks/Bounds.antt =====
-- The reads of connect_socks_target stay inside the bytes received.
use tun.Prelude.{
  ℕ, zero, suc, ◌+◌, ◌-◌, ◌≤◌, ◌<◌, ◌≡◌, refl, List, [], ◌∷◌, false, Option, none, some, length,
  arith, ltb, leb, Bool-cases, inl, inr, IsByte, All, ◌==◌, le→leb,
}
use tun.Net.Result.{Result, ok, throw, undefined}
use tun.Tunnel.Socks.{
  numeric_name, byte_at, slice, with_port, numeric_target, named_target, address_target,
  request_target, socks_target,
}

-- Neither a throw nor undefined behaviour.
abbrev pub IsReturn : {A : Type 0} → Result A → Type 0
IsReturn (ok a) = Unit
IsReturn (throw e) = ⊥
IsReturn undefined = ⊥

byte_at-lt : (buf : List ℕ) (i : ℕ) → i < length buf → (b : ℕ) × (byte_at buf i ≡ ok b)
unfolding byte_at
byte_at-lt [] i h = absurd (omega arith)
byte_at-lt (b ∷ bs) zero h = (b, refl)
byte_at-lt (b ∷ bs) (suc i) h = byte_at-lt bs i (omega arith)

with_port-IsReturn :
    (buf : List ℕ) (minlen : ℕ) (name : List ℕ)
    → 2 ≤ minlen
    → minlen ≤ length buf
    → IsReturn (with_port buf minlen name)
unfolding with_port
with_port-IsReturn buf minlen name two h =
    let high = byte_at-lt buf (minlen - 2) (omega arith) in
    let low = byte_at-lt buf (minlen - 1) (omega arith) in rw (high.1, low.1) tt

module _ (inet_ntop : List ℕ → Option (List ℕ)) where
  name_cases :
      (buf : List ℕ) (minlen : ℕ) (x : Option (List ℕ))
      → 2 ≤ minlen
      → minlen ≤ length buf
      → IsReturn (numeric_name inet_ntop buf minlen x)
  unfolding numeric_target
  name_cases buf minlen none two h = tt
  name_cases buf minlen (some name) two h = with_port-IsReturn buf minlen name two h

  numeric-IsReturn :
      (buf : List ℕ) (minlen size : ℕ)
      → 2 ≤ minlen
      → 4 + size ≤ minlen
      → IsReturn (numeric_target inet_ntop buf minlen size)
  unfolding numeric_target slice
  numeric-IsReturn buf minlen size two h = elim (Bool-cases (ltb (length buf) minlen)) [
    | inl e ↦ rw e tt
    | inr e ↦
        let n : minlen ≤ length buf = ground arith in
        rw (e, le→leb (4 + size) (length buf) (omega arith)) (name_cases buf minlen _ two n)
  ]

  named-IsReturn : (buf : List ℕ) (l : ℕ) → IsByte l → IsReturn (named_target inet_ntop buf l)
  unfolding named_target slice
  named-IsReturn buf l h = elim (Bool-cases (ltb (length buf) (4 + 2 + l + 1))) [
    | inl e ↦ rw e tt
    | inr e ↦
        let n : 4 + 2 + l + 1 ≤ length buf = ground arith in
        let s : leb 256 l ≡ false = ground arith in
        rw (e, s, le→leb (5 + l) (length buf) (omega arith))
          (with_port-IsReturn buf (4 + 2 + l + 1) _ (omega arith) n)
  ]

  address-IsReturn :
      (buf : List ℕ) (kind l : ℕ)
      → byte_at buf 4 ≡ ok l
      → IsByte l
      → IsReturn (address_target inet_ntop buf kind)
  unfolding address_target
  address-IsReturn buf kind l e h = elim (Bool-cases (kind == 4)) [
    | inl e4 ↦ rw e4 (numeric-IsReturn buf 22 16 (omega arith) (omega arith))
    | inr e4 ↦ rw e4 (elim (Bool-cases (kind == 1)) [
      | inl e1 ↦ rw e1 (numeric-IsReturn buf 10 4 (omega arith) (omega arith))
      | inr e1 ↦ rw e1 (elim (Bool-cases (kind == 3)) [
        | inl e3 ↦ rw (e3, e) (named-IsReturn buf l h)
        | inr e3 ↦ rw e3 tt
      ])
    ])
  ]

  -- On bytes of any number, connect_socks_target either refuses the request or finds a name and a
  -- port, and reads nothing outside the bytes received nor writes outside its name buffer.
  pub socks_target-IsReturn :
      (buf : List ℕ) → All IsByte buf → IsReturn (socks_target inet_ntop buf)
  unfolding socks_target request_target byte_at
  socks_target-IsReturn [] h = tt
  socks_target-IsReturn (a ∷ []) h = tt
  socks_target-IsReturn (a ∷ b ∷ []) h = tt
  socks_target-IsReturn (a ∷ b ∷ c ∷ []) h = tt
  socks_target-IsReturn (a ∷ b ∷ c ∷ d ∷ []) h = tt
  socks_target-IsReturn (a ∷ b ∷ c ∷ d ∷ e ∷ rest) h =
      let s : ltb (length (a ∷ b ∷ c ∷ d ∷ e ∷ rest)) 5 ≡ false = ground arith in
      let r = address-IsReturn (a ∷ b ∷ c ∷ d ∷ e ∷ rest) d e refl (h.1.1.1.1.0) in
      rw s (elim (Bool-cases (a == 5)) [
        | inr x ↦ rw x tt
        | inl x ↦ rw x (elim (Bool-cases (b == 1)) [
          | inr y ↦ rw y tt
          | inl y ↦ rw y (elim (Bool-cases (c == 0)) [ inr z ↦ rw z tt | inl z ↦ rw z r ])
        ])
      ])
