-- ===== src/Tests/PollerTests.antt =====
-- Poller::start on objects that come and go, until a signal.
use tun.Net.Poller.Subpoll.{FdSets, Selected, selected, sub_poll}
use tun.Net.Poller.Subpoll.Answers.{sub_poll-answered}
use tun.Prelude.{
  ℕ, ◌≡◌, refl, List, [], ◌∷◌, ◌++◌, Bool, true, false, Option, some, length, ◌==◌, arith,
  if◌then◌else◌,
}
use tun.Net.Result.{Result, ok}
use tun.Net.Kernel.{Events}
use tun.Net.Poller
use tun.Net.Poller.{Poller, Op, adds, sets, removes, PollResult, ready}
use tun.Net.Poller.Entries.{Entry, no_events, new_entry, find_polled, splice}
use tun.Net.Poller.Start.{start, Round, no_round, round, start-Rounds}

abbrev readable : Events
readable = record {
  pollin = true;
  pollout = false;
  pollerr = false;
  pollhup = false;
  pollnval = false;
}

abbrev entry : ℕ → ℕ → Entry
entry polled fd = record { polled = polled; fd = fd; events = readable; revents = readable }

-- Object 1 removes itself and registers object 2.
abbrev first : Poller
first = record {
  entries = entry 1 11 ∷ entry 3 13 ∷ [];
  size = 10;
  orig_size = 0;
  next_index = 0;
  finishing = false;
}

abbrev calls : Entry → List ℕ → Result (List Op × List ℕ)
calls e log =
    ok (if e.polled == 1 then removes 1 11 ∷ adds 2 12 readable ∷ [] else [], log ++ e.polled ∷ [])

abbrev all_ready : List (ℕ × Events) → List ℕ → PollResult × List ℕ
all_ready fds log = (ready (readable ∷ readable ∷ []), log)

abbrev stopped : List ℕ → Bool
stopped log = length log == 4

abbrev closes : Entry → List ℕ → List ℕ
closes e log = log ++ (e.fd ∷ [])

abbrev second : Poller
second = record {
  entries = entry 3 13 ∷ new_entry 2 12 readable ∷ [];
  size = 10;
  orig_size = 1;
  next_index = 1;
  finishing = false;
}

abbrev third : Poller
third = record {
  entries = entry 3 13 ∷ entry 2 12 ∷ [];
  size = 10;
  orig_size = 2;
  next_index = 2;
  finishing = false;
}

first_Round : Round calls all_ready stopped closes first [] second (1 ∷ 3 ∷ [])
unfolding Poller.poll_once Poller.traverse Poller.set_revents Poller.apply_all Poller.apply
    Poller.add_polled Poller.remove_polled find_polled splice Poller.grow
first_Round = record {
  result = ready (readable ∷ readable ∷ []);
  going_on = refl;
  in_time = λ e. cc;
  returns = refl;
}

second_Round : Round calls all_ready stopped closes second (1 ∷ 3 ∷ []) third (1 ∷ 3 ∷ 3 ∷ 2 ∷ [])
unfolding Poller.poll_once Poller.traverse Poller.set_revents Poller.apply_all Poller.apply
    Poller.add_polled Poller.remove_polled find_polled splice Poller.grow
second_Round = record {
  result = ready (readable ∷ readable ∷ []);
  going_on = refl;
  in_time = λ e. cc;
  returns = refl;
}

start-Rounds_example :
    start calls all_ready stopped closes 3 first []
    ≡ some (ok (Poller.request_finish third, 1 ∷ 3 ∷ 3 ∷ 2 ∷ 13 ∷ 12 ∷ []))
start-Rounds_example =
    start-Rounds calls all_ready stopped closes 3 (omega arith) refl (omega arith)
      (round first_Round refl no_round) second_Round refl

abbrev asking : List (ℕ × Events)
asking =
    (3, record no_events { pollin = true })
    ∷ (5, record no_events { pollin = true; pollout = true })
    ∷ []

-- Only descriptor 5 is ready, for reading.
abbrev select_five : ℕ → FdSets → Option (ℕ × ℕ) → Unit {0} → Selected × Unit {0}
select_five n s t w = (selected 1 (record { reads = 5 ∷ []; writes = []; excepts = [] }), w)

sub_poll-answered_example :
    sub_poll 1024 select_five 0 asking tt
    ≡ ok (ready (no_events ∷ record no_events { pollin = true } ∷ []), tt)
sub_poll-answered_example =
    sub_poll-answered 1024 select_five 0 asking tt tt 0
      (record { reads = 5 ∷ []; writes = []; excepts = [] }) (λ j. j == 5) (λ j. false) (λ j. false)
      (omega arith, (omega arith, tt)) ((λ e. omega arith, tt), (tt, tt)) refl
      (record {
        reads = λ j h. grind arith;
        writes = λ j h. grind arith;
        excepts = λ j h. grind arith;
      })
