-- ===== src/Tunnel/Local/Launch/Pipes.antt =====
-- The descriptors of a process, and pipe(2), close(2) and dup2(2) on them: parameters of the model,
-- with what POSIX says of them.
use tun.Prelude.{ℕ, ◌≡◌, ◌≢◌, Option, none, some, ◌==◌, if◌then◌else◌}

-- What a descriptor stands for: an end of a pipe, or something else.
pub data File : Type 0 where
  reader writer other : ℕ → File

-- Two new descriptors for the ends of the new pipe `n`, and all others as they were.
pub record IsPipe {Table : Type 0} (at : Table → ℕ → Option File) (t t' : Table) (r w n : ℕ)
    : Type 0 where
  pub distinct : r ≢ w
  pub free_r : at t r ≡ none
  pub free_w : at t w ≡ none
  pub new_reader : (j : ℕ) → at t j ≢ some (reader n)
  pub new_writer : (j : ℕ) → at t j ≢ some (writer n)
  pub reads : at t' r ≡ some (reader n)
  pub writes : at t' w ≡ some (writer n)
  pub others : (j : ℕ) → j ≢ r → j ≢ w → at t' j ≡ at t j

pub record Descriptors : Type 1 where
  pub Table : Type 0
  pub at : Table → ℕ → Option File
  pub pipe : Table → Option (ℕ × ℕ × Table)
  pub close : ℕ → Table → Table
  pub dup2 : ℕ → ℕ → Table → Table
  pub pipe_opens :
      (t t' : Table) (r w : ℕ) → pipe t ≡ some (r, w, t') → (n : ℕ) × IsPipe at t t' r w n
  pub close_at : (fd j : ℕ) (t : Table) → at (close fd t) j ≡ (if fd == j then none else at t j)
  pub dup2_at :
      (a b j : ℕ) (t : Table)
      → at t a ≢ none
      → at (dup2 a b t) j ≡ (if b == j then at t a else at t j)
