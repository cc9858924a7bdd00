-- ===== src/Net/Poller/Subpoll/Answers.antt =====
-- What the substitute for poll(2) answers.
use tun.Prelude.{
  ℕ, suc, ◌+◌, ◌<◌, ◌≤◌, ◌≡◌, ◌≢◌, refl, ap, ◌∙◌, List, [], ◌∷◌, map, Bool, true, false, ◌&&◌, ◌||◌,
  All, ltb, lt→ltb, ◌==◌, if◌then◌else◌, arith, Option, All-both, map-All,
}
use tun.Net.Result.{ok}
use tun.Net.Kernel.{Events}
use tun.Net.Poller.{PollResult, ready, timed_out}
use tun.Net.Poller.Entries.{no_events}
use tun.Net.Poller.Subpoll.{
  FdSets, fd_zero, is_set, set_if, Selected, selected, prepare, answer, count_answers,
  collect_answers, timeout_of, sub_poll,
}

-- Each descriptor once.
abbrev pub AreDistinct : List (ℕ × Events) → Type 0
AreDistinct [] = Unit
AreDistinct (x ∷ xs) = All (λ (y : ℕ × Events). y.0 ≢ x.0) xs × AreDistinct xs

-- Whether some entry for the descriptor asks for it.
abbrev asked : (Events → Bool) → List (ℕ × Events) → ℕ → Bool
asked get [] j = false
asked get ((fd, events) ∷ rest) j = (fd == j && get events) || asked get rest j

-- The sets and the bound that the first loop leaves.
abbrev pub sets : List (ℕ × Events) → FdSets → FdSets
sets [] s = s
sets ((fd, events) ∷ rest) s = sets rest (record {
  reads = set_if events.pollin fd s.reads;
  writes = set_if events.pollout fd s.writes;
  excepts = fd ∷ s.excepts;
})

abbrev pub top : List (ℕ × Events) → ℕ → ℕ
top [] n = n
top ((fd, events) ∷ rest) n = top rest (if ltb n (fd + 1) then fd + 1 else n)

pub prepare_lem :
    (setsize : ℕ) (entries : List (ℕ × Events)) (n : ℕ) (s : FdSets)
    → All (λ (x : ℕ × Events). x.0 < setsize) entries
    → prepare setsize entries n s ≡ ok (top entries n, sets entries s)
unfolding prepare
prepare_lem setsize [] n s h = refl
prepare_lem setsize ((fd, events) ∷ rest) n s h =
    rw
      (lt→ltb fd setsize h.0, prepare_lem setsize rest (if ltb n (fd + 1) then fd + 1 else n) _ h.1)
      refl

is_set-set_if :
    (b : Bool) (fd j : ℕ) (xs : List ℕ)
    → is_set j (set_if b fd xs) ≡ ((fd == j && b) || is_set j xs)
is_set-set_if true fd j xs = ground arith
is_set-set_if false fd j xs = ground arith

or_swap : (a b c : Bool) → (a || (b || c)) ≡ ((b || a) || c)
or_swap a b c = grind arith

reads_lem :
    (entries : List (ℕ × Events)) (s : FdSets) (j : ℕ)
    → is_set j (sets entries s).reads ≡ (asked (λ e. e.pollin) entries j || is_set j s.reads)
reads_lem [] s j = refl
reads_lem ((fd, events) ∷ rest) s j =
    reads_lem rest _ j
    ∙ ap (◌||◌ (asked (λ e. e.pollin) rest j)) (is_set-set_if events.pollin fd j s.reads)
    ∙ or_swap (asked (λ e. e.pollin) rest j) (fd == j && events.pollin) (is_set j s.reads)

writes_lem :
    (entries : List (ℕ × Events)) (s : FdSets) (j : ℕ)
    → is_set j (sets entries s).writes ≡ (asked (λ e. e.pollout) entries j || is_set j s.writes)
writes_lem [] s j = refl
writes_lem ((fd, events) ∷ rest) s j =
    writes_lem rest _ j
    ∙ ap (◌||◌ (asked (λ e. e.pollout) rest j)) (is_set-set_if events.pollout fd j s.writes)
    ∙ or_swap (asked (λ e. e.pollout) rest j) (fd == j && events.pollout) (is_set j s.writes)

excepts_lem :
    (entries : List (ℕ × Events)) (s : FdSets) (j : ℕ)
    → is_set j (sets entries s).excepts ≡ (asked (λ e. true) entries j || is_set j s.excepts)
excepts_lem [] s j = refl
excepts_lem ((fd, events) ∷ rest) s j =
    excepts_lem rest _ j
    ∙ ap (◌||◌ (asked (λ e. true) rest j)) (is_set-set_if true fd j s.excepts)
    ∙ or_swap (asked (λ e. true) rest j) (fd == j && true) (is_set j s.excepts)

asked_other :
    (get : Events → Bool) (entries : List (ℕ × Events)) (j : ℕ)
    → All (λ (y : ℕ × Events). y.0 ≢ j) entries
    → asked get entries j ≡ false
asked_other get [] j h = refl
asked_other get (x ∷ rest) j h = ground (arith, h.0, asked_other get rest j h.1)

-- An entry in a list of distinct descriptors asks for itself.
asked_own :
    (get : Events → Bool) (entries : List (ℕ × Events))
    → AreDistinct entries
    → All (λ (y : ℕ × Events). asked get entries y.0 ≡ get y.1) entries
asked_own get [] h = tt
asked_own get (x ∷ rest) h = (
  ground (arith, asked_other get rest x.0 h.0),
  All-both (λ y. asked get (x ∷ rest) y.0 ≡ get y.1) rest (λ y p q. ground (arith, p, q)) h.0
      (asked_own get rest h.1),
)

top_lem : (entries : List (ℕ × Events)) (n : ℕ) → n ≤ top entries n
top_lem [] n = omega arith
top_lem ((fd, events) ∷ rest) n =
    ground (arith, top_lem rest (if ltb n (fd + 1) then fd + 1 else n))

below_top :
    (entries : List (ℕ × Events)) (n : ℕ) → All (λ (x : ℕ × Events). x.0 < top entries n) entries
below_top [] n = tt
below_top ((fd, events) ∷ rest) n = (
  ground (arith, top_lem rest (if ltb n (fd + 1) then fd + 1 else n)),
  below_top rest (if ltb n (fd + 1) then fd + 1 else n),
)

-- What select(2) leaves in the sets: the descriptors below the bound that were in them and are
-- ready.
pub record IsSelect (n : ℕ) (s s' : FdSets) (readable writable exceptional : ℕ → Bool)
    : Type 0 where
  pub reads : (j : ℕ) → j < n → is_set j s'.reads ≡ (is_set j s.reads && readable j)
  pub writes : (j : ℕ) → j < n → is_set j s'.writes ≡ (is_set j s.writes && writable j)
  pub excepts : (j : ℕ) → j < n → is_set j s'.excepts ≡ (is_set j s.excepts && exceptional j)

-- What the substitute says of one entry.
abbrev pub expected : (ℕ → Bool) → (ℕ → Bool) → (ℕ → Bool) → ℕ × Events → Events
expected readable writable exceptional x = record no_events {
  pollin = x.1.pollin && readable x.0;
  pollout = x.1.pollout && writable x.0;
  pollhup = exceptional x.0;
}

or_false : (b : Bool) → (b || false) ≡ b
or_false b = grind arith

module _ (entries : List (ℕ × Events)) (s' : FdSets) (readable writable exceptional : ℕ → Bool)
    (distinct : AreDistinct entries)
    (sel : IsSelect (top entries 0) (sets entries fd_zero) s' readable writable exceptional) where
  one_answer :
      (x : ℕ × Events)
      → (x.0 < top entries 0) × (asked (λ e. true) entries x.0 ≡ true)
      → (asked (λ e. e.pollin) entries x.0 ≡ x.1.pollin)
        × (asked (λ e. e.pollout) entries x.0 ≡ x.1.pollout)
      → answer s' x.0 ≡ expected readable writable exceptional x
  unfolding answer
  one_answer x (lt, ex) (in', out') =
      let reads =
        sel.reads x.0 lt
        ∙ ap (λ b. b && readable x.0)
            (reads_lem entries fd_zero x.0 ∙ or_false (asked (λ e. e.pollin) entries x.0) ∙ in') in
      let writes =
        sel.writes x.0 lt
        ∙ ap (λ b. b && writable x.0)
            (writes_lem entries fd_zero x.0
              ∙ or_false (asked (λ e. e.pollout) entries x.0)
              ∙ out') in
      let excepts =
        sel.excepts x.0 lt
        ∙ ap (λ b. b && exceptional x.0)
            (excepts_lem entries fd_zero x.0 ∙ or_false (asked (λ e. true) entries x.0) ∙ ex) in
      λ i. record no_events { pollin = reads i; pollout = writes i; pollhup = excepts i }

  pub answer_lem :
      map (λ (x : ℕ × Events). answer s' x.0) entries
      ≡ map (expected readable writable exceptional) entries
  answer_lem =
      map-All (λ (x : ℕ × Events). answer s' x.0) (expected readable writable exceptional) entries
        (All-both (λ x. answer s' x.0 ≡ expected readable writable exceptional x) entries one_answer
          (All-both (λ x. (x.0 < top entries 0) × (asked (λ e. true) entries x.0 ≡ true)) entries
            (λ x p q. (p, q)) (below_top entries 0) (asked_own (λ e. true) entries distinct))
          (All-both
            (λ x.
              (asked (λ e. e.pollin) entries x.0 ≡ x.1.pollin)
              × (asked (λ e. e.pollout) entries x.0 ≡ x.1.pollout))
            entries (λ x p q. (p, q)) (asked_own (λ e. e.pollin) entries distinct)
            (asked_own (λ e. e.pollout) entries distinct)))

-- What the caller gets for the answers.
abbrev pub answered : List Events → PollResult
answered es = if count_answers es == 0 then timed_out else ready es

module _ {W : Type 0} (setsize : ℕ) (select : ℕ → FdSets → Option (ℕ × ℕ) → W → Selected × W) where
  -- Descriptors that are distinct and below FD_SETSIZE, and a call of select(2) with one more than
  -- the largest and with the sets of those that are asked for, which says that some are ready and
  -- leaves those that are: each entry is answered POLLIN and POLLOUT exactly if it asks for it and
  -- its descriptor is ready for it, POLLHUP exactly if select(2) has an exception for it, and never
  -- POLLERR or POLLNVAL, in the order of the entries; where no entry has an answer, the result
  -- is 0.
  pub sub_poll-answered :
      (timeout : ℕ) (entries : List (ℕ × Events)) (w w' : W) (m : ℕ) (s' : FdSets)
      (readable writable exceptional : ℕ → Bool)
      → All (λ (x : ℕ × Events). x.0 < setsize) entries
      → AreDistinct entries
      → select (top entries 0) (sets entries fd_zero) (timeout_of timeout) w
        ≡ (selected (suc m) s', w')
      → IsSelect (top entries 0) (sets entries fd_zero) s' readable writable exceptional
      → sub_poll setsize select timeout entries w
        ≡ ok (answered (map (expected readable writable exceptional) entries), w')
  unfolding sub_poll collect_answers
  sub_poll-answered timeout entries w w' m s' readable writable exceptional small distinct run sel =
      rw
        (
          prepare_lem setsize entries 0 fd_zero small,
          run,
          answer_lem entries s' readable writable exceptional distinct sel,
        )
        refl
