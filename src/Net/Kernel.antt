-- ===== src/Net/Kernel.antt =====
-- The system calls `read` and `write`, and the `revents` mask of poll(2): parameters of the model,
-- with what POSIX says of them.
use tun.Prelude.{refl, ◌≢◌, ℕ, ◌++◌, ◌≤◌, ◌≡◌, List, length, take, Bool}
use tun.Net.Result.{Errno}

pub data ReadResult : Type 0 where
  got : List ℕ → ReadResult
  read_failed : Errno → ReadResult

pub data WriteResult : Type 0 where
  wrote : ℕ → WriteResult
  write_failed : Errno → WriteResult

-- The bits of `pollfd::revents` and `pollfd::events` that the code tests.
pub record Events : Type 0 where
  pub pollin : Bool
  pub pollout : Bool
  pub pollerr : Bool
  pub pollhup : Bool
  pub pollnval : Bool

-- `incoming o fd` is what is still to be read from `fd`, also what has not arrived yet, and
-- `outgoing o fd` what has been written to it.
pub record Kernel : Type 1 where
  pub Os : Type 0
  pub read : ℕ → ℕ → Os → ReadResult × Os
  pub write : ℕ → List ℕ → Os → WriteResult × Os
  pub incoming : Os → ℕ → List ℕ
  pub outgoing : Os → ℕ → List ℕ
  -- A read takes at most as many bytes as it was asked for, off the front.
  pub read_takes :
      (fd n : ℕ) (o o' : Os) (bs : List ℕ)
      → read fd n o ≡ (got bs, o')
      → (length bs ≤ n) × (incoming o fd ≡ bs ++ incoming o' fd)
  pub read_fails :
      (fd n : ℕ) (o o' : Os) (e : Errno)
      → read fd n o ≡ (read_failed e, o')
      → incoming o' fd ≡ incoming o fd
  -- A write accepts a prefix of what it is given.
  pub write_accepts :
      (fd k : ℕ) (bs : List ℕ) (o o' : Os)
      → write fd bs o ≡ (wrote k, o')
      → (k ≤ length bs) × (outgoing o' fd ≡ outgoing o fd ++ take k bs)

-- What a call leaves alone: each descriptor is a stream of its own, in both directions.
pub record Frame (k : Kernel) : Type 0 where
  pub read_outgoing :
      (fd n fd' : ℕ) (o : k.Os) → k.outgoing (k.read fd n o).1 fd' ≡ k.outgoing o fd'
  pub read_incoming :
      (fd n fd' : ℕ) (o : k.Os) → fd' ≢ fd → k.incoming (k.read fd n o).1 fd' ≡ k.incoming o fd'
  pub write_incoming :
      (fd fd' : ℕ) (bs : List ℕ) (o : k.Os) → k.incoming (k.write fd bs o).1 fd' ≡ k.incoming o fd'
  pub write_outgoing :
      (fd fd' : ℕ) (bs : List ℕ) (o : k.Os)
      → fd' ≢ fd
      → k.outgoing (k.write fd bs o).1 fd' ≡ k.outgoing o fd'
  pub write_fails :
      (fd : ℕ) (bs : List ℕ) (o o' : k.Os) (e : Errno)
      → k.write fd bs o ≡ (write_failed e, o')
      → k.outgoing o' fd ≡ k.outgoing o fd

module _ (k : Kernel) where
  open k use {Os, read, incoming, read_takes, read_fails}

  -- What a read did to the bytes that are still to come.
  abbrev pub Took : ℕ → ℕ → Os → ReadResult × Os → Type 0
  Took fd n o (got bs, o') = (length bs ≤ n) × (incoming o fd ≡ bs ++ incoming o' fd)
  Took fd n o (read_failed e, o') = incoming o' fd ≡ incoming o fd

  Took-of_read : (fd n : ℕ) (o : Os) (x : ReadResult × Os) → read fd n o ≡ x → Took fd n o x
  Took-of_read fd n o (got bs, o') e = read_takes fd n o o' bs e
  Took-of_read fd n o (read_failed x, o') e = read_fails fd n o o' x e

  pub read-Took : (fd n : ℕ) (o : Os) → Took fd n o (read fd n o)
  read-Took fd n o = Took-of_read fd n o (read fd n o) refl
