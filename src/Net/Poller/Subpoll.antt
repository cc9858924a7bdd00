-- ===== src/Net/Poller/Subpoll.antt =====
-- The poll of com/antlersoft/net/Poller.cpp for systems without poll(2), made of select(2).
pub mod Answers
use tun.Prelude.{
  ℕ, zero, suc, ◌+◌, ◌/◌, ◌%◌, ◌*◌, List, [], ◌∷◌, map, Bool, true, false, ◌||◌, Option, none, some,
  ltb, ◌==◌, if◌then◌else◌, is_negative,
}
use tun.Net.Result.{Result, ok, undefined, Errno, ◌>>=◌}
use tun.Net.Kernel.{Events}
use tun.Net.Poller.{PollResult, ready, timed_out, poll_failed}
use tun.Net.Poller.Entries.{no_events}

-- The three `fd_set`s, each the list of its descriptors.
pub record FdSets : Type 0 where
  pub reads : List ℕ
  pub writes : List ℕ
  pub excepts : List ℕ

abbrev pub fd_zero : FdSets
fd_zero = record { reads = []; writes = []; excepts = [] }

-- `FD_ISSET`
abbrev pub is_set : ℕ → List ℕ → Bool
is_set fd [] = false
is_set fd (x ∷ xs) = x == fd || is_set fd xs

-- `FD_SET`, if it is asked for.
abbrev pub set_if : Bool → ℕ → List ℕ → List ℕ
set_if asked fd xs = if asked then fd ∷ xs else xs

-- What select(2) returns: -1, or a count and the sets of the descriptors that are ready.
pub data Selected : Type 0 where
  select_failed : Errno → Selected
  selected : ℕ → FdSets → Selected

-- The first loop, with one more than `max_fd`; FD_SET is undefined from FD_SETSIZE on.
unfoldable pub prepare : ℕ → List (ℕ × Events) → ℕ → FdSets → Result (ℕ × FdSets)
prepare setsize [] n s = ok (n, s)
prepare setsize ((fd, events) ∷ rest) n s =
    let next = prepare setsize rest (if ltb n (fd + 1) then fd + 1 else n) (record {
      reads = set_if events.pollin fd s.reads;
      writes = set_if events.pollout fd s.writes;
      excepts = fd ∷ s.excepts;
    }) in
    if ltb fd setsize then next else undefined

-- The second loop for one entry.
unfoldable pub answer : FdSets → ℕ → Events
answer s fd = record no_events {
  pollhup = is_set fd s.excepts;
  pollin = is_set fd s.reads;
  pollout = is_set fd s.writes;
}

abbrev pub is_answered : Events → Bool
is_answered e = e.pollhup || (e.pollin || e.pollout)

-- How many entries have an answer.
abbrev pub count_answers : List Events → ℕ
count_answers [] = 0
count_answers (e ∷ es) = if is_answered e then count_answers es + 1 else count_answers es

-- The second loop.
unfoldable pub collect_answers : List (ℕ × Events) → Selected → PollResult
unfolding answer
collect_answers entries (select_failed e) = poll_failed e
collect_answers entries (selected zero s) = timed_out
collect_answers entries (selected (suc n) s) =
    let answers = map (λ (x : ℕ × Events). answer s x.0) entries in
    if count_answers answers == 0 then timed_out else ready answers

-- `timeout_v`, or a null pointer.
unfoldable pub timeout_of : ℕ → Option (ℕ × ℕ)
timeout_of timeout =
    if is_negative timeout then none else some (timeout / 1000, timeout % 1000 * 1000)

module _ {W : Type 0} (setsize : ℕ) (select : ℕ → FdSets → Option (ℕ × ℕ) → W → Selected × W) where
  -- `poll` with a timeout in milliseconds.
  unfoldable pub sub_poll : ℕ → List (ℕ × Events) → W → Result (PollResult × W)
  unfolding prepare collect_answers timeout_of
  sub_poll timeout entries w = do
    (n, s) ← prepare setsize entries 0 fd_zero
    let (found, w') = select n s (timeout_of timeout) w
    ok (collect_answers entries found, w')
