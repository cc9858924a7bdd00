-- ===== src/Tests/Channel.antt =====
-- A kernel for the tests: every descriptor is the same pair of byte lists, of `n` bytes asked
-- for or offered at most `chunk n` are moved.
use Prim.Native.Nat.{min}
use tun.Prelude.{
  take_all, drop_all, ℕ, ◌≤◌, ◌≡◌, refl, sym, ap, List, [], ◌++◌, length, take, drop,
  take-append-drop, length-take, arith,
}
use tun.Net.Result.{Errno}
use tun.Net.Kernel.{Kernel, ReadResult, got, read_failed, WriteResult, wrote}

pub record Wire : Type 0 where
  pub inbox : List ℕ
  pub outbox : List ℕ

module _ (chunk : ℕ → ℕ) where
  abbrev pub wire_read : ℕ → ℕ → Wire → ReadResult × Wire
  wire_read fd n o =
      (got (take (min n (chunk n)) o.inbox), record o { inbox = drop (min n (chunk n)) o.inbox })

  abbrev pub wire_write : ℕ → List ℕ → Wire → WriteResult × Wire
  wire_write fd bs o =
      let k = min (chunk (length bs)) (length bs) in
      (wrote k, record o { outbox = o.outbox ++ take k bs })

  pub wire_takes :
      (fd n : ℕ) (o o' : Wire) (bs : List ℕ)
      → wire_read fd n o ≡ (got bs, o')
      → (length bs ≤ n) × (o.inbox ≡ bs ++ o'.inbox)
  wire_takes fd n o o' bs e =
      let eb : take (min n (chunk n)) o.inbox ≡ bs = cc in
      let eo : drop (min n (chunk n)) o.inbox ≡ o'.inbox =
        ap (λ (x : ReadResult × Wire). x.1.inbox) e in
      rw (← eb, ← eo)
        (
          omega (arith, length-take (min n (chunk n)) o.inbox),
          sym (take-append-drop (min n (chunk n)) o.inbox),
        )

  pub wire_fails :
      (fd n : ℕ) (o o' : Wire) (e : Errno)
      → wire_read fd n o ≡ (read_failed e, o')
      → o'.inbox ≡ o.inbox
  wire_fails fd n o o' e h = cc

  pub wire_accepts :
      (fd k : ℕ) (bs : List ℕ) (o o' : Wire)
      → wire_write fd bs o ≡ (wrote k, o')
      → (k ≤ length bs) × (o'.outbox ≡ o.outbox ++ take k bs)
  wire_accepts fd k bs o o' e =
      let ek : min (chunk (length bs)) (length bs) ≡ k = cc in
      let eo : o.outbox ++ take (min (chunk (length bs)) (length bs)) bs ≡ o'.outbox =
        ap (λ (x : WriteResult × Wire). x.1.outbox) e in
      rw (← eo, ← ek) (omega arith, refl)

  abbrev pub wire : Kernel
  wire = record {
    Os = Wire;
    read = wire_read;
    write = wire_write;
    incoming = λ o fd. o.inbox;
    outgoing = λ o fd. o.outbox;
    read_takes = wire_takes;
    read_fails = wire_fails;
    write_accepts = wire_accepts;
  }

abbrev pub fours : Kernel
fours = wire (λ n. 4)

abbrev pub greedy : Kernel
greedy = wire (λ n. n)

abbrev pub blank : Wire
blank = record { inbox = []; outbox = [] }

pub fours_end : (fd n : ℕ) → fours.read fd n blank ≡ (got [], blank)
fours_end fd n =
    rw (take_all {A = ℕ} (min n 4) [] (omega arith), drop_all {A = ℕ} (min n 4) [] (omega arith))

pub greedy_full :
    (fd n : ℕ) (o : Wire)
    → n ≤ length o.inbox
    → (o' : Wire) × (greedy.read fd n o ≡ (got (take n o.inbox), o'))
greedy_full fd n o h =
    let e : min n n ≡ n = omega arith in (record o { inbox = drop n o.inbox }, rw e)
