-- ===== src/Prelude/Ints.antt =====
-- Machine integers as bit patterns: a `char` is a number below 256, a `short` one below 2 ^ 16,
-- and an `int` one below 2 ^ 32, in two's complement.
use Prim.Native.Nat.{ℕ, ◌+◌, ◌-◌, ◌*◌, ◌/◌, ◌%◌, ◌^◌, ◌<◌}
use mathlib.Core.Path.{◌≡◌}
use mathlib.Core.List.{List, [], ◌∷◌}
use mathlib.Core.Bool.{Bool, true, false, not, ◌&&◌, ◌||◌}
use native.Mathlib.Omega.{arith}
use tun.Prelude.Tests.{ltb, leb, ◌==◌, if◌then◌else◌}
use tun.Prelude.Lists.{All}

abbrev pub IsByte : ℕ → Type 0
IsByte b = b < 256

-- `(short) x`
abbrev pub to_short : ℕ → ℕ
to_short x = x % 65536

-- `(int) s` of a short: the sign bit is extended.
abbrev pub to_int : ℕ → ℕ
to_int s = if ltb s 32768 then s else (s + 4294901760)

-- `a - b` of two `size_t`.
abbrev pub sub_size : ℕ → ℕ → ℕ
sub_size a b = (a + 2 ^ 64 - b) % 2 ^ 64

-- The sign of an int.
abbrev pub is_negative : ℕ → Bool
is_negative x = leb 2147483648 x

-- `a < b` of two ints.
abbrev pub int_ltb : ℕ → ℕ → Bool
int_ltb a b =
    if is_negative a then not (is_negative b) || ltb a b else not (is_negative b) && ltb a b

pub int_ltb_trans : (a b c : ℕ) → int_ltb a b ≡ true → int_ltb b c ≡ true → int_ltb a c ≡ true
int_ltb_trans a b c h k = ground (arith, h, k)

pub int_ltb_total : (a b : ℕ) → (a == b) ≡ false → int_ltb a b ≡ false → int_ltb b a ≡ true
int_ltb_total a b h k = ground (arith, h, k)

-- The four bytes of `htonl(x)` in memory: most significant first.
abbrev pub be32 : ℕ → List ℕ
be32 x = (x / 16777216 % 256) ∷ (x / 65536 % 256) ∷ (x / 256 % 256) ∷ (x % 256) ∷ []

-- `ntohl` of four bytes in memory.
abbrev pub of_be32 : ℕ → ℕ → ℕ → ℕ → ℕ
of_be32 a b c d = ((a * 256 + b) * 256 + c) * 256 + d

pub be32-IsByte : (x : ℕ) → All IsByte (be32 x)
be32-IsByte x = omega arith

pub of_be32-be32 :
    (x : ℕ) → of_be32 (x / 16777216 % 256) (x / 65536 % 256) (x / 256 % 256) (x % 256) ≡ x % 2 ^ 32
of_be32-be32 x = omega arith

-- Widening keeps the low sixteen bits, and gives the int back exactly where it fits a short.
pub to_short-to_int : (s : ℕ) → s < 65536 → to_short (to_int s) ≡ s
to_short-to_int s h = ground arith
