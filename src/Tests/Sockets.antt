-- ===== src/Tests/Sockets.antt =====
-- A kernel for the tests with a pair of byte lists for each descriptor: reads give all that is
-- there, up to the size, as chars, and writes take everything.
use tun.Prelude.{
  take_all, ℕ, zero, suc, ◌%◌, ◌≤◌, ◌<◌, ◌≡◌, true, ◌∙◌, refl, sym, ap, List, [], ◌∷◌, ◌++◌, length,
  take, drop, length-take, arith, ◌==◌, if◌then◌else◌, All, IsByte,
}
use tun.Net.Result.{Errno}
use tun.Net.Kernel.{Kernel, Frame, ReadResult, got, read_failed, WriteResult, wrote}
use tun.Tests.Channel.{Wire, blank}

abbrev pub Wires : Type 0
Wires = ℕ → Wire

abbrev pub update : Wires → ℕ → Wire → Wires
update o fd w fd' = if fd' == fd then w else o fd'

abbrev pub chars : List ℕ → List ℕ
chars [] = []
chars (x ∷ xs) = (x % 256) ∷ chars xs

chars-split : (n : ℕ) (xs : List ℕ) → chars xs ≡ take n (chars xs) ++ chars (drop n xs)
chars-split zero xs = refl
chars-split (suc n) [] = refl
chars-split (suc n) (x ∷ xs) = ap (λ (ys : List ℕ). (x % 256) ∷ ys) (chars-split n xs)

chars-All : (n : ℕ) (xs : List ℕ) → All IsByte (take n (chars xs))
chars-All zero xs = tt
chars-All (suc n) [] = tt
chars-All (suc n) (x ∷ xs) = (omega arith, chars-All n xs)

abbrev pub sockets_read : ℕ → ℕ → Wires → ReadResult × Wires
sockets_read fd n o =
    (got (take n (chars (o fd).inbox)), update o fd (record (o fd) { inbox = drop n (o fd).inbox }))

abbrev pub sockets_write : ℕ → List ℕ → Wires → WriteResult × Wires
sockets_write fd bs o =
    (wrote (length bs), update o fd (record (o fd) { outbox = (o fd).outbox ++ bs }))

self : (n : ℕ) → (n == n) ≡ true
self n = ground arith

pub sockets_takes :
    (fd n : ℕ) (o o' : Wires) (bs : List ℕ)
    → sockets_read fd n o ≡ (got bs, o')
    → (length bs ≤ n) × (chars (o fd).inbox ≡ bs ++ chars (o' fd).inbox)
sockets_takes fd n o o' bs e =
    let eb : take n (chars (o fd).inbox) ≡ bs = cc in
    let eo : drop n (o fd).inbox ≡ (o' fd).inbox =
      sym (rw (self fd) refl) ∙ ap (λ (x : ReadResult × Wires). (x.1 fd).inbox) e in
    rw (← eb, ← eo) (omega (arith, length-take n (chars (o fd).inbox)), chars-split n (o fd).inbox)

pub sockets_accepts :
    (fd k : ℕ) (bs : List ℕ) (o o' : Wires)
    → sockets_write fd bs o ≡ (wrote k, o')
    → (k ≤ length bs) × ((o' fd).outbox ≡ (o fd).outbox ++ take k bs)
sockets_accepts fd k bs o o' e =
    let ek : length bs ≡ k = cc in
    let eo : (o fd).outbox ++ bs ≡ (o' fd).outbox =
      sym (rw (self fd) refl) ∙ ap (λ (x : WriteResult × Wires). (x.1 fd).outbox) e in
    rw (← eo, ← ek) (omega arith, rw (take_all (length bs) bs (omega arith)) refl)

pub sockets_fails :
    (fd n : ℕ) (o o' : Wires) (e : Errno)
    → sockets_read fd n o ≡ (read_failed e, o')
    → chars (o' fd).inbox ≡ chars (o fd).inbox
sockets_fails fd n o o' e h = cc

abbrev pub sockets : Kernel
sockets = record {
  Os = Wires;
  read = sockets_read;
  write = sockets_write;
  incoming = λ o fd. chars (o fd).inbox;
  outgoing = λ o fd. (o fd).outbox;
  read_takes = sockets_takes;
  read_fails = sockets_fails;
  write_accepts = sockets_accepts;
}

pub sockets_frame : Frame sockets
sockets_frame = record {
  read_outgoing = λ fd n fd' o. ground arith;
  read_incoming = λ fd n fd' o h. ground arith;
  write_incoming = λ fd fd' bs o. ground arith;
  write_outgoing = λ fd fd' bs o h. ground arith;
  write_fails = λ fd bs o o' e h. cc;
}

pub sockets_bytes :
    (fd n : ℕ) (o o' : Wires) (bs : List ℕ) → sockets_read fd n o ≡ (got bs, o') → All IsByte bs
sockets_bytes fd n o o' bs e =
    let eb : take n (chars (o fd).inbox) ≡ bs = cc in rw (← eb) (chars-All n (o fd).inbox)

pub sockets_progress :
    (fd b m : ℕ) (bs : List ℕ) (o o' : Wires) → sockets_write fd (b ∷ bs) o ≡ (wrote m, o') → 0 < m
sockets_progress fd b m bs o o' e = let em : suc (length bs) ≡ m = cc in omega arith

-- Nothing to come on any descriptor.
abbrev pub silent : Wires
silent fd = blank
