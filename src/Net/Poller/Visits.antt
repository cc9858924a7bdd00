-- ===== src/Net/Poller/Visits.antt =====
-- `pollOnce` calls each object that was registered when it began at most once, in order, whatever
-- the objects do to the list meanwhile.
use tun.Prelude.{
  ℕ, zero, suc, ◌+◌, ◌*◌, ◌<◌, ◌≤◌, ◌≡◌, refl, ap, sym, ◌∙◌, List, [], ◌∷◌, ◌++◌, append_assoc,
  append-nil, Bool, true, false, some, length, length-append, get_elem?, get_elem?-append, ltb,
  arith, le→ltb, lt→ltb, map,
}
use tun.Net.Result.{Result, ok, throw, undefined, ◌>>=◌}
use tun.Net.Kernel.{Events}
use tun.Net.Poller.Entries.{Entry}
use tun.Net.Poller.{
  Poller, Op, apply_all, is_ready, dispatch, traverse_if, traverse, Outcome, PollResult, ready,
  set_revents, grow, poll_once, polled_ready,
}
use tun.Net.Poller.Traversal.{Walk, walk_apply_all, walk_apply_all_todo_le, IsAt, apply_all-IsAt}

length-set_revents : (es : List Entry) (rs : List Events) → length (set_revents es rs) ≡ length es
unfolding set_revents
length-set_revents [] rs = refl
length-set_revents (e ∷ es) [] = refl
length-set_revents (e ∷ es) (r ∷ rs) = ap suc (length-set_revents es rs)

-- The array handed to poll(2) holds every entry: doubling `size` reaches `orig` within the fuel.
pub grow-le : (fuel orig size : ℕ) → 0 < size → orig ≤ size + fuel → orig ≤ grow fuel orig size
unfolding grow
grow-le zero orig size h f = omega arith
grow-le (suc fuel) orig size h f =
    ground (arith, grow-le fuel orig (size * 2) (omega arith) (omega arith))

module _ {W : Type 0} (polled : Entry → W → Result (List Op × W)) where
  abbrev pub Walked : Type 0
  Walked = Result (Walk × W)

  abbrev walk_dispatch : (Walk → W → Walked) → Walk → Entry → W → Bool → Walked
  walk_dispatch again z e w true = polled e w >>= λ (ops, w'). again (walk_apply_all ops z) w'
  walk_dispatch again z e w false = again z w

  abbrev walk_next : (Walk → W → Walked) → Walk → W → List Entry → Walked
  walk_next again z w [] = ok (z, w)
  walk_next again z w (e ∷ es) =
      walk_dispatch again (record z { seen = z.seen ++ e ∷ []; todo = es }) e w (is_ready e)

  -- The entries in order: each leaves `todo` before it is called.
  unfoldable pub walk : ℕ → Walk → W → Walked
  walk zero z w = ok (z, w)
  walk (suc fuel) z w = walk_next (walk fuel) z w z.todo

  -- The same end: the same exception, or the same list and state with no turn left.
  abbrev pub Agrees : Outcome polled → Walked → Type 0
  Agrees (ok (p, w)) (ok (z, w')) = IsAt p z × (z.todo ≡ []) × (w ≡ w')
  Agrees (throw e) (throw e') = e ≡ e'
  Agrees undefined undefined = Unit {0}
  Agrees _ _ = ⊥

  bind-Agrees :
      (x : Result (List Op × W)) (f : List Op → W → Outcome polled) (g : List Op → W → Walked)
      → ((ops : List Op) (w : W) → Agrees (f ops w) (g ops w))
      → Agrees (x >>= λ (ops, w). f ops w) (x >>= λ (ops, w). g ops w)
  bind-Agrees (ok (ops, w)) f g h = h ops w
  bind-Agrees (throw e) f g h = refl
  bind-Agrees undefined f g h = tt

  dispatch-Agrees :
      (fuel : ℕ) (p : Poller) (z : Walk) (e : Entry) (w : W) (t : Bool)
      → IsAt p z
      → ((p' : Poller) (z' : Walk) (w' : W)
          → IsAt p' z'
          → length z'.todo ≤ length z.todo
          → Agrees (traverse polled fuel p' w') (walk fuel z' w'))
      → Agrees (dispatch polled (traverse polled fuel) p e w t) (walk_dispatch (walk fuel) z e w t)
  dispatch-Agrees fuel p z e w true at ih = bind-Agrees (polled e w) _ _ (λ ops w'.
      ih (apply_all ops p) (walk_apply_all ops z) w' (apply_all-IsAt ops p z at)
        (walk_apply_all_todo_le ops z))
  dispatch-Agrees fuel p z e w false at ih = ih p z w at (omega arith)

  forget-Agrees :
      (r : PollResult) (x : Outcome polled) (y : Walked)
      → Agrees x y
      → Agrees ((x >>= λ (p, w). ok (r, p, w)) >>= λ (r, p, w). ok (p, w)) y
  forget-Agrees r (ok (p, w)) y h = h
  forget-Agrees r (throw e) y h = h
  forget-Agrees r undefined y h = h

  visit_step :
      (fuel : ℕ) (p : Poller) (seen todo added : List Entry) (e : Entry) (w : W)
      → IsAt p (record { seen = seen; todo = e ∷ todo; added = added })
      → ((p' : Poller) (z' : Walk) (w' : W)
          → IsAt p' z'
          → length z'.todo ≤ length todo
          → Agrees (traverse polled fuel p' w') (walk fuel z' w'))
      → Agrees
          (traverse polled (suc fuel) p w)
          (walk (suc fuel) (record { seen = seen; todo = e ∷ todo; added = added }) w)
  unfolding traverse walk
  visit_step fuel p seen todo added e w at ih =
      let turn : get_elem? p.entries p.next_index ≡ some e =
        ap (get_elem? p.entries) at.next
        ∙ ap (λ es. get_elem? es (length seen)) at.list
        ∙ get_elem?-append seen e (todo ++ added) in
      let more : ltb p.next_index p.orig_size ≡ true =
        lt→ltb p.next_index p.orig_size (omega (arith, at.next, at.orig)) in
      let at' : IsAt (record p { next_index = suc p.next_index })
          (record { seen = seen ++ e ∷ []; todo = todo; added = added }) =
        record {
          list = at.list ∙ sym (append_assoc seen (e ∷ []) (todo ++ added));
          next = omega (arith, at.next, length-append seen (e ∷ []));
          orig = omega (arith, at.orig, length-append seen (e ∷ []));
        } in
      rw (more, traverse_if, turn) (dispatch-Agrees fuel _ _ e w (is_ready e) at' ih)

  traverse-Agrees :
      (fuel : ℕ) (p : Poller) (seen todo added : List Entry) (w : W)
      → IsAt p (record { seen = seen; todo = todo; added = added })
      → length todo ≤ fuel
      → Agrees
          (traverse polled fuel p w)
          (walk fuel (record { seen = seen; todo = todo; added = added }) w)
  traverse-Agrees zero p seen [] added w at h = unfold traverse walk in (at, refl, refl)
  traverse-Agrees zero p seen (e ∷ todo) added w at h = absurd (omega arith)
  traverse-Agrees (suc fuel) p seen [] added w at h =
      let end : ltb p.next_index p.orig_size ≡ false =
        le→ltb p.next_index p.orig_size (omega (arith, at.next, at.orig)) in
      unfold traverse walk in (rw (end, traverse_if) (at, refl, refl))
  traverse-Agrees (suc fuel) p seen (e ∷ todo) added w at h =
      visit_step fuel p seen todo added e w at
        (λ p' z' w' at' le. traverse-Agrees fuel p' z'.seen z'.todo z'.added w' at' (omega arith))

  module _ (poll : List (ℕ × Events) → W → PollResult × W) where
    -- A `pollOnce` in which poll(2) reports events ends as the walk over the entries of its
    -- start does, with the same exception or the same list and state. In the walk each entry
    -- leaves `todo` before it is called and only if it has an event; a removed one is not called,
    -- one added meanwhile waits for the next `pollOnce`, and no index is out of range.
    pub poll_once-walk :
        (p : Poller) (w w' : W) (revents : List Events)
        → poll (map (λ (e : Entry). (e.fd, e.events)) p.entries) w ≡ (ready revents, w')
        → let es = set_revents p.entries revents in
          Agrees
            (poll_once polled poll p w >>= λ (r, p', w''). ok (p', w''))
            (walk (length es) (record { seen = []; todo = es; added = [] }) w')
    unfolding poll_once polled_ready
    poll_once-walk p w w' revents e =
        let es = set_revents p.entries revents in
        let q : Poller = record p {
          orig_size = length p.entries;
          size = grow (length p.entries) (length p.entries) p.size;
          entries = es;
          next_index = 0;
        } in
        let same : length p.entries ≡ length es = sym (length-set_revents p.entries revents) in
        rw e (
          forget-Agrees (ready revents) (traverse polled (length p.entries) q w') _ (
            rw (← same) (
              traverse-Agrees (length p.entries) q [] es [] w'
                (record { list = sym (append-nil es); next = refl; orig = omega (arith, same) })
                (omega arith))))
