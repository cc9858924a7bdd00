-- ===== src/Net/Poller/Traversal.antt =====
-- The loop of `pollOnce` by index against a walk over the list itself.
use tun.Prelude.{
  ℕ, ◌+◌, ◌<◌, ◌≤◌, ◌≡◌, refl, ap, ◌∙◌, List, [], ◌∷◌, ◌++◌, append_assoc, Option, none, some,
  length, arith, le→ltb, lt→ltb,
}
use tun.Net.Kernel.{Events}
use tun.Net.Poller.Entries.{
  Entry, new_entry, find_polled, find_first, erase_at, modify_at, splice, find_polled-append,
  find_polled-lt, splice-append_left, splice-append_right, length-erase_at, length-modify_at,
}
use tun.Net.Poller.{
  Poller, Op, adds, sets, removes, finishes, apply, apply_all, add_polled, set_events, set_found,
  remove_polled, remove_found, request_finish,
}

-- The entries that were called or passed, those whose turn comes, and those added meanwhile.
pub record Walk : Type 0 where
  pub seen : List Entry
  pub todo : List Entry
  pub added : List Entry

abbrev pub in_seen : (List Entry → List Entry) → Walk → Walk
in_seen f z = record z { seen = f z.seen }

abbrev pub in_todo : (List Entry → List Entry) → Walk → Walk
in_todo f z = record z { todo = f z.todo }

abbrev pub in_added : (List Entry → List Entry) → Walk → Walk
in_added f z = record z { added = f z.added }

-- A change of the first match, in whichever part it stands.
abbrev pub at_match : (ℕ → List Entry → List Entry) → Walk → Option ℕ → Option ℕ → Option ℕ → Walk
at_match f z (some i) _ _ = in_seen (f i) z
at_match f z none (some i) _ = in_todo (f i) z
at_match f z none none (some i) = in_added (f i) z
at_match f z none none none = z

abbrev pub change : (ℕ → List Entry → List Entry) → ℕ → ℕ → Walk → Walk
change f polled fd z =
    at_match f z (find_polled polled fd z.seen) (find_polled polled fd z.todo)
      (find_polled polled fd z.added)

unfoldable pub walk_apply : Op → Walk → Walk
walk_apply (adds polled fd events) z = record z {
  added = z.added ++ new_entry polled fd events ∷ [];
}
walk_apply (sets polled fd events) z =
    change (modify_at (λ (e : Entry). record e { events = events })) polled fd z
walk_apply (removes polled fd) z = change erase_at polled fd z
walk_apply finishes z = z

unfoldable pub walk_apply_all : List Op → Walk → Walk
walk_apply_all [] z = z
walk_apply_all (op ∷ ops) z = walk_apply_all ops (walk_apply op z)

-- The poller at a point of the walk.
pub record IsAt (p : Poller) (z : Walk) : Type 0 where
  pub list : p.entries ≡ z.seen ++ (z.todo ++ z.added)
  pub next : p.next_index ≡ length z.seen
  pub orig : p.orig_size ≡ length z.seen + length z.todo

find_walk :
    (polled fd : ℕ) (p : Poller) (z : Walk)
    → IsAt p z
    → find_polled polled fd p.entries
      ≡ find_first (length z.seen) (find_polled polled fd z.seen) (
          find_first (length z.todo) (find_polled polled fd z.todo) (find_polled polled fd z.added))
find_walk polled fd p z a =
    ap (find_polled polled fd) a.list
    ∙ find_polled-append polled fd z.seen (z.todo ++ z.added)
    ∙ ap (find_first (length z.seen) (find_polled polled fd z.seen))
        (find_polled-append polled fd z.todo z.added)

-- An index that a search of a list gave lies inside it.
abbrev IsIndex : List Entry → Option ℕ → Type 0
IsIndex es a = (j : ℕ) → a ≡ some j → j < length es

-- The list after a change at an index, part by part.
splice_seen :
    (f : Entry → List Entry) (j : ℕ) (p : Poller) (z : Walk)
    → IsAt p z
    → j < length z.seen
    → splice f j p.entries ≡ splice f j z.seen ++ (z.todo ++ z.added)
splice_seen f j p z a h =
    ap (splice f j) a.list ∙ splice-append_left f j z.seen (z.todo ++ z.added) h

splice_todo :
    (f : Entry → List Entry) (j : ℕ) (p : Poller) (z : Walk)
    → IsAt p z
    → j < length z.todo
    → splice f (length z.seen + j) p.entries ≡ z.seen ++ (splice f j z.todo ++ z.added)
splice_todo f j p z a h =
    ap (splice f (length z.seen + j)) a.list
    ∙ splice-append_right f j z.seen (z.todo ++ z.added)
    ∙ ap (◌++◌ z.seen) (splice-append_left f j z.todo z.added h)

splice_added :
    (f : Entry → List Entry) (j : ℕ) (p : Poller) (z : Walk)
    → IsAt p z
    → splice f (length z.seen + (length z.todo + j)) p.entries
      ≡ z.seen ++ (z.todo ++ splice f j z.added)
splice_added f j p z a =
    ap (splice f (length z.seen + (length z.todo + j))) a.list
    ∙ splice-append_right f (length z.todo + j) z.seen (z.todo ++ z.added)
    ∙ ap (◌++◌ z.seen) (splice-append_right f j z.todo z.added)

remove_step :
    (p : Poller) (z : Walk) (a b c : Option ℕ)
    → IsAt p z
    → IsIndex z.seen a
    → IsIndex z.todo b
    → IsAt
        (remove_found p (find_first (length z.seen) a (find_first (length z.todo) b c)))
        (at_match erase_at z a b c)
unfolding remove_found
remove_step p z (some j) b c at ha hb =
    let h : j < length z.seen = ha j refl in
    let e = length-erase_at j z.seen h in
    record {
      list = splice_seen (λ _. []) j p z at h;
      next = rw (lt→ltb j p.next_index (omega (arith, at.next))) (omega (arith, at.next, e));
      orig = rw (lt→ltb j p.orig_size (omega (arith, at.orig))) (omega (arith, at.orig, e));
    }
remove_step p z none (some j) c at ha hb =
    let h : j < length z.todo = hb j refl in
    let e = length-erase_at j z.todo h in
    record {
      list = splice_todo (λ _. []) j p z at h;
      next = rw (le→ltb (length z.seen + j) p.next_index (omega (arith, at.next))) at.next;
      orig =
          rw (lt→ltb (length z.seen + j) p.orig_size (omega (arith, at.orig)))
            (omega (arith, at.orig, e));
    }
remove_step p z none none (some j) at ha hb =
    let i : ℕ = length z.seen + (length z.todo + j) in
    record {
      list = splice_added (λ _. []) j p z at;
      next = rw (le→ltb i p.next_index (omega (arith, at.next))) at.next;
      orig = rw (le→ltb i p.orig_size (omega (arith, at.orig))) at.orig;
    }
remove_step p z none none none at ha hb = at

set_step :
    (events : Events) (p : Poller) (z : Walk) (a b c : Option ℕ)
    → IsAt p z
    → IsIndex z.seen a
    → IsIndex z.todo b
    → IsAt
        (set_found events p (find_first (length z.seen) a (find_first (length z.todo) b c)))
        (at_match (modify_at (λ (e : Entry). record e { events = events })) z a b c)
unfolding set_found
set_step events p z (some j) b c at ha hb =
    let e = length-modify_at (λ (e : Entry). record e { events = events }) j z.seen in
    record {
      list = splice_seen _ j p z at (ha j refl);
      next = omega (arith, at.next, e);
      orig = omega (arith, at.orig, e);
    }
set_step events p z none (some j) c at ha hb =
    let e = length-modify_at (λ (e : Entry). record e { events = events }) j z.todo in
    record {
      list = splice_todo _ j p z at (hb j refl);
      next = at.next;
      orig = omega (arith, at.orig, e);
    }
set_step events p z none none (some j) at ha hb = record {
  list = splice_added _ j p z at;
  next = at.next;
  orig = at.orig;
}
set_step events p z none none none at ha hb = at

pub apply-IsAt : (op : Op) (p : Poller) (z : Walk) → IsAt p z → IsAt (apply op p) (walk_apply op z)
unfolding apply walk_apply add_polled set_events remove_polled request_finish
apply-IsAt (adds polled fd events) p z at = record {
  list =
      ap (λ es. es ++ new_entry polled fd events ∷ []) at.list
      ∙ append_assoc z.seen (z.todo ++ z.added) (new_entry polled fd events ∷ [])
      ∙ ap (◌++◌ z.seen) (append_assoc z.todo z.added (new_entry polled fd events ∷ []));
  next = at.next;
  orig = at.orig;
}
apply-IsAt (sets polled fd events) p z at = rw (find_walk polled fd p z at) (
    set_step events p z _ _ _ at (λ j. find_polled-lt polled fd j z.seen)
      (λ j. find_polled-lt polled fd j z.todo))
apply-IsAt (removes polled fd) p z at = rw (find_walk polled fd p z at) (
    remove_step p z _ _ _ at (λ j. find_polled-lt polled fd j z.seen)
      (λ j. find_polled-lt polled fd j z.todo))
apply-IsAt finishes p z at = record { list = at.list; next = at.next; orig = at.orig }

pub apply_all-IsAt :
    (ops : List Op) (p : Poller) (z : Walk)
    → IsAt p z
    → IsAt (apply_all ops p) (walk_apply_all ops z)
unfolding apply_all walk_apply_all
apply_all-IsAt [] p z at = at
apply_all-IsAt (op ∷ ops) p z at = apply_all-IsAt ops _ _ (apply-IsAt op p z at)

change_todo_le :
    (f : ℕ → List Entry → List Entry) (z : Walk) (a b c : Option ℕ)
    → ((i : ℕ) → b ≡ some i → length (f i z.todo) ≤ length z.todo)
    → length (at_match f z a b c).todo ≤ length z.todo
change_todo_le f z (some i) b c h = omega arith
change_todo_le f z none (some i) c h = h i refl
change_todo_le f z none none (some i) h = omega arith
change_todo_le f z none none none h = omega arith

walk_apply_todo_le : (op : Op) (z : Walk) → length (walk_apply op z).todo ≤ length z.todo
unfolding walk_apply
walk_apply_todo_le (adds polled fd events) z = omega arith
walk_apply_todo_le (sets polled fd events) z =
    change_todo_le (modify_at (λ (e : Entry). record e { events = events })) z
      (find_polled polled fd z.seen) (find_polled polled fd z.todo) (find_polled polled fd z.added)
      (λ i h.
        omega (arith, length-modify_at (λ (e : Entry). record e { events = events }) i z.todo))
walk_apply_todo_le (removes polled fd) z =
    change_todo_le erase_at z (find_polled polled fd z.seen) (find_polled polled fd z.todo)
      (find_polled polled fd z.added)
      (λ i h. omega (arith, length-erase_at i z.todo (find_polled-lt polled fd i z.todo h)))
walk_apply_todo_le finishes z = omega arith

pub walk_apply_all_todo_le :
    (ops : List Op) (z : Walk) → length (walk_apply_all ops z).todo ≤ length z.todo
unfolding walk_apply_all
walk_apply_all_todo_le [] z = omega arith
walk_apply_all_todo_le (op ∷ ops) z =
    omega (arith, walk_apply_todo_le op z, walk_apply_all_todo_le ops (walk_apply op z))
