-- ===== src/Tests/LaunchTests.antt =====
-- forkpipe and `start` at concrete inputs. A table for the tests: descriptors below a limit, pipes
-- by number.
use Prim.Native.Nat.{max}
use tun.Prelude.{
  ℕ, ◌≡◌, ◌≢◌, ◌≤◌, refl, subst, ◌+◌, [], ◌∷◌, Option, none, some, ◌==◌, ltb, arith, if◌then◌else◌,
  Bool-cases, inl, inr,
}
use tun.Tunnel.Local.Launch.Pipes.{File, reader, writer, other, IsPipe, Descriptors}
use tun.Net.Result.{Errno}
use tun.Tests.LocalTests.{local, cooked}
use tun.Tests.RemoteTests.{no_listener, unreachable}
use tun.Tests.MultiplexTests.{spec}
use tun.Tunnel.Local.Launch.{start_parent}
use tun.Tunnel.Local.Launch.Started.{Yields, Starts, Refused, start_parent-Starts}
use tun.Tunnel.Terminal.{Termios, Terminals, IsRestored, terminal-Terminates}
use tun.Tunnel.Local.Launch.Wired.{IsWired, forkpipe-IsWired}

record Files : Type 0 where
  limit : ℕ
  pipes : ℕ
  get : ℕ → Option File

-- Only pipes that were made.
abbrev known : ℕ → Option File → Option File
known n none = none
known n (some (reader i)) = if ltb i n then some (reader i) else none
known n (some (writer i)) = if ltb i n then some (writer i) else none
known n (some (other i)) = some (other i)

abbrev file_at : Files → ℕ → Option File
file_at t j = if ltb j t.limit then known t.pipes (t.get j) else none

known-known : (n m : ℕ) (x : Option File) → n ≤ m → known m (known n x) ≡ known n x
known-known n m none h = refl
known-known n m (some (reader i)) h = ground (arith, h)
known-known n m (some (writer i)) h = ground (arith, h)
known-known n m (some (other i)) h = refl

known-file_at : (t : Files) (m j : ℕ) → t.pipes ≤ m → known m (file_at t j) ≡ file_at t j
known-file_at t m j h = elim (Bool-cases (ltb j t.limit)) [
  | inl e ↦ rw e (known-known t.pipes m (t.get j) h)
  | inr e ↦ rw e refl
]

known-ne : (n : ℕ) (x : Option File) → (known n x ≢ some (reader n)) × (known n x ≢ some (writer n))
known-ne n none = (λ e. cc, λ e. cc)
known-ne n (some (reader i)) = (grind arith, grind arith)
known-ne n (some (writer i)) = (grind arith, grind arith)
known-ne n (some (other i)) = (λ e. cc, λ e. cc)

abbrev add_pipe : Files → Files
add_pipe t = record {
  limit = t.limit + 2;
  pipes = t.pipes + 1;
  get = λ j.
      if t.limit == j
      then some (reader t.pipes)
      else if (t.limit + 1) == j
      then some (writer t.pipes)
      else file_at t j;
}

abbrev close_file : ℕ → Files → Files
close_file fd t = record t { get = λ j. if fd == j then none else file_at t j }

abbrev dup_file : ℕ → ℕ → Files → Files
dup_file a b t = record t {
  limit = max t.limit (b + 1);
  get = λ j. if b == j then file_at t a else file_at t j;
}

add_pipe-IsPipe : (t : Files) → IsPipe file_at t (add_pipe t) t.limit (t.limit + 1) t.pipes
add_pipe-IsPipe t = record {
  distinct = λ e. omega arith;
  free_r = ground arith;
  free_w = ground arith;
  new_reader = λ j. elim (Bool-cases (ltb j t.limit)) [
    | inl e ↦ rw e ((known-ne t.pipes (t.get j)).0)
    | inr e ↦ rw e (λ q. cc)
  ];
  new_writer = λ j. elim (Bool-cases (ltb j t.limit)) [
    | inl e ↦ rw e ((known-ne t.pipes (t.get j)).1)
    | inr e ↦ rw e (λ q. cc)
  ];
  reads = ground arith;
  writes = ground arith;
  others = λ j h g. grind (arith, h, g, known-file_at t (t.pipes + 1) j);
}

close_file-at :
    (fd j : ℕ) (t : Files) → file_at (close_file fd t) j ≡ (if fd == j then none else file_at t j)
close_file-at fd j t = grind (arith, known-file_at t t.pipes j)

dup_file-at :
    (a b j : ℕ) (t : Files)
    → file_at (dup_file a b t) j ≡ (if b == j then file_at t a else file_at t j)
dup_file-at a b j t = grind (arith, known-file_at t t.pipes j, known-file_at t t.pipes a)

opens-IsPipe :
    (t t' : Files) (r w : ℕ)
    → ◌≡◌ {A = Option (ℕ × ℕ × Files)} (some (t.limit, t.limit + 1, add_pipe t)) (some (r, w, t'))
    → IsPipe file_at t t' r w t.pipes
opens-IsPipe t t' r w e =
    let new : ℕ × ℕ × Files = (t.limit, t.limit + 1, add_pipe t) in
    let same : new ≡ (r, w, t') = cc in
    subst (λ (x : ℕ × ℕ × Files). IsPipe file_at t x.2 x.0 x.1 t.pipes) same (add_pipe-IsPipe t)

abbrev files : Descriptors
files = record {
  Table = Files;
  at = file_at;
  pipe = λ t. some (t.limit, t.limit + 1, add_pipe t);
  close = close_file;
  dup2 = dup_file;
  pipe_opens = λ t t' r w e. (t.pipes, opens-IsPipe t t' r w e);
  close_at = close_file-at;
  dup2_at = λ a b j t h. dup_file-at a b j t;
}

-- The standard descriptors alone.
abbrev standard : Files
standard = record { limit = 3; pipes = 0; get = λ j. some (other j) }

forkpipe-IsWired_example : IsWired files standard
forkpipe-IsWired_example =
    forkpipe-IsWired files standard (add_pipe standard) (add_pipe (add_pipe standard)) 3 4 5 6
      (λ e. cc) (λ e. cc) refl refl

abbrev no_refusal : ℕ → Option Errno
no_refusal fd = none

start_parent-Starts_example :
    Yields
      (Starts no_refusal no_listener unreachable 3 6 (spec ∷ []) local)
      (Refused no_refusal no_listener unreachable 3 6 (spec ∷ []))
      (start_parent no_refusal no_listener unreachable 3 6 (spec ∷ []) local)
start_parent-Starts_example =
    start_parent-Starts no_refusal no_listener unreachable 3 6 (spec ∷ []) local refl

-- Standard input is a terminal, or is not.
abbrev set_terminal : Termios → Option Termios → Option Termios
set_terminal m none = none
set_terminal m (some old) = some m

set_terminal-sets : (m : Termios) (w : Option Termios) → w ≢ none → set_terminal m w ≡ some m
set_terminal-sets m none h = absurd (h refl)
set_terminal-sets m (some old) h = refl

abbrev terminals : Terminals
terminals = record {
  World = Option Termios;
  tcgetattr = λ w. w;
  tcsetattr = set_terminal;
  block = λ fd w. w;
  set_modes = set_terminal-sets;
  block_modes = λ fd w. refl;
}

terminal-Terminates_example : IsRestored terminals cooked (some cooked)
terminal-Terminates_example = terminal-Terminates terminals (some cooked)
