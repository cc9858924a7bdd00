-- ===== src/Net/Poller/Entries.antt =====
-- The entries of a Poller, found by object and descriptor and changed in place.
use tun.Prelude.{
  ℕ, zero, suc, ◌+◌, ◌-◌, ◌<◌, ◌≡◌, refl, ap, sym, ◌∙◌, List, [], ◌∷◌, ◌++◌, append_assoc, Bool,
  true, false, ◌&&◌, Option, none, some, length, ◌==◌, arith,
}
use tun.Net.Kernel.{Events}

-- `struct PolledAndPollfd`; `polled` is the address of the object.
pub record Entry : Type 0 where
  pub polled : ℕ
  pub fd : ℕ
  pub events : Events
  pub revents : Events

abbrev pub no_events : Events
no_events = record {
  pollin = false;
  pollout = false;
  pollerr = false;
  pollhup = false;
  pollnval = false;
}

abbrev pub new_entry : ℕ → ℕ → Events → Entry
new_entry polled fd events = record {
  polled = polled;
  fd = fd;
  events = events;
  revents = no_events;
}

-- The index of the first match, from whether the first entry matches and from that of the rest.
abbrev pub next_match : Bool → Option ℕ → Option ℕ
next_match true rest = some 0
next_match false none = none
next_match false (some i) = some (suc i)

-- `findPolled`: the index of the first match.
unfoldable pub find_polled : ℕ → ℕ → List Entry → Option ℕ
find_polled polled fd [] = none
find_polled polled fd (e ∷ es) =
    next_match (e.polled == polled && e.fd == fd) (find_polled polled fd es)

-- An entry replaced by those that `f` makes of it.
unfoldable pub splice : (Entry → List Entry) → ℕ → List Entry → List Entry
splice f i [] = []
splice f zero (e ∷ es) = f e ++ es
splice f (suc i) (e ∷ es) = e ∷ splice f i es

abbrev pub erase_at : ℕ → List Entry → List Entry
erase_at = splice (λ _. [])

abbrev pub modify_at : (Entry → Entry) → ℕ → List Entry → List Entry
modify_at f = splice (λ e. f e ∷ [])

-- The first match of two lists in a row.
abbrev pub find_first : ℕ → Option ℕ → Option ℕ → Option ℕ
find_first n (some i) j = some i
find_first n none none = none
find_first n none (some j) = some (n + j)

next_match-first :
    (t : Bool) (n : ℕ) (a b : Option ℕ)
    → next_match t (find_first n a b) ≡ find_first (suc n) (next_match t a) b
next_match-first true n a b = refl
next_match-first false n (some i) b = refl
next_match-first false n none none = refl
next_match-first false n none (some j) = ap some (omega arith)

find_first_zero : (b : Option ℕ) → b ≡ find_first 0 none b
find_first_zero none = refl
find_first_zero (some j) = ap some (omega arith)

next_match-lt :
    (t : Bool) (n i : ℕ) (a : Option ℕ)
    → ((j : ℕ) → a ≡ some j → j < n)
    → next_match t a ≡ some i
    → i < suc n
next_match-lt true n i a h e = ground arith
next_match-lt false n i none h e = cc
next_match-lt false n i (some j) h e = ground (arith, h j refl)

pub find_polled-append :
    (polled fd : ℕ) (xs ys : List Entry)
    → find_polled polled fd (xs ++ ys)
      ≡ find_first (length xs) (find_polled polled fd xs) (find_polled polled fd ys)
unfolding find_polled
find_polled-append polled fd [] ys = find_first_zero (find_polled polled fd ys)
find_polled-append polled fd (e ∷ xs) ys =
    ap (next_match (e.polled == polled && e.fd == fd)) (find_polled-append polled fd xs ys)
    ∙ next_match-first (e.polled == polled && e.fd == fd) (length xs) (find_polled polled fd xs)
        (find_polled polled fd ys)

pub find_polled-lt :
    (polled fd i : ℕ) (xs : List Entry) → find_polled polled fd xs ≡ some i → i < length xs
unfolding find_polled
find_polled-lt polled fd i [] h = cc
find_polled-lt polled fd i (e ∷ xs) h =
    next_match-lt (e.polled == polled && e.fd == fd) (length xs) i (find_polled polled fd xs)
      (λ j p. find_polled-lt polled fd j xs p) h

pub splice-append_left :
    (f : Entry → List Entry) (i : ℕ) (xs ys : List Entry)
    → i < length xs
    → splice f i (xs ++ ys) ≡ splice f i xs ++ ys
unfolding splice
splice-append_left f i [] ys h = absurd (omega arith)
splice-append_left f zero (x ∷ xs) ys h = sym (append_assoc (f x) xs ys)
splice-append_left f (suc i) (x ∷ xs) ys h = ap (◌∷◌ x) (splice-append_left f i xs ys (omega arith))

pub splice-append_right :
    (f : Entry → List Entry) (i : ℕ) (xs ys : List Entry)
    → splice f (length xs + i) (xs ++ ys) ≡ xs ++ splice f i ys
unfolding splice
splice-append_right f i [] ys = ap (λ j. splice f j ys) (omega arith)
splice-append_right f i (x ∷ xs) ys =
    let e : suc (length xs) + i ≡ suc (length xs + i) = omega arith in
    rw e (ap (◌∷◌ x) (splice-append_right f i xs ys))

pub length-erase_at :
    (i : ℕ) (xs : List Entry) → i < length xs → length (erase_at i xs) ≡ length xs - 1
unfolding splice
length-erase_at i [] h = absurd (omega arith)
length-erase_at zero (x ∷ xs) h = omega arith
length-erase_at (suc i) (x ∷ xs) h = omega (arith, length-erase_at i xs (omega arith))

pub length-modify_at :
    (f : Entry → Entry) (i : ℕ) (xs : List Entry) → length (modify_at f i xs) ≡ length xs
unfolding splice
length-modify_at f i [] = refl
length-modify_at f zero (x ∷ xs) = refl
length-modify_at f (suc i) (x ∷ xs) = ap suc (length-modify_at f i xs)
