-- ===== src/Net/Poller.antt =====
-- com/antlersoft/net/Poller.h and Poller.cpp: the list of polled objects, and the loop that calls
-- poll(2) and then each object that has an event, while those objects change the list.
pub mod Entries
pub mod Traversal
pub mod Visits
pub mod Start
pub mod Subpoll
use tun.Prelude.{
  ℕ, zero, suc, ◌+◌, ◌-◌, ◌*◌, List, [], ◌∷◌, ◌++◌, map, Bool, true, false, ◌||◌, Option, none,
  some, length, get_elem?, ltb, ◌==◌, if◌then◌else◌,
}
use tun.Net.Result.{
  Result, ok, throw, undefined, Error, errno, starting_while_finished, Errno, eagain, ehostunreach,
  econnreset, eintr, eaddrinuse, other_errno, ◌>>=◌,
}
use tun.Net.Kernel.{Events}
use Entries.{Entry, new_entry, find_polled, erase_at, modify_at}

-- While an object is called, `next_index` is `m_index + 1`, since `m_index` may go to -1; at the
-- head of the loop it is `m_index`. Between traversals its value is of no use.
pub record Poller : Type 0 where
  pub entries : List Entry
  pub size : ℕ
  pub orig_size : ℕ
  pub next_index : ℕ
  pub finishing : Bool

unfoldable pub fresh : Poller
fresh = record { entries = []; size = 10; orig_size = 0; next_index = 0; finishing = false }

unfoldable pub request_finish : Poller → Poller
request_finish p = record p { finishing = true }

-- `setPollfd` of the object has filled in the descriptor and the events.
unfoldable pub add_polled : ℕ → ℕ → Events → Poller → Poller
add_polled polled fd events p = record p { entries = p.entries ++ new_entry polled fd events ∷ [] }

set_found : Events → Poller → Option ℕ → Poller
set_found events p none = p
set_found events p (some i) = record p {
  entries = modify_at (λ (e : Entry). record e { events = events }) i p.entries;
}

unfoldable pub set_events : ℕ → ℕ → Events → Poller → Poller
unfolding set_found
set_events polled fd events p = set_found events p (find_polled polled fd p.entries)

remove_found : Poller → Option ℕ → Poller
remove_found p none = p
remove_found p (some i) = record p {
  orig_size = if ltb i p.orig_size then p.orig_size - 1 else p.orig_size;
  next_index = if ltb i p.next_index then p.next_index - 1 else p.next_index;
  entries = erase_at i p.entries;
}

unfoldable pub remove_polled : ℕ → ℕ → Poller → Poller
unfolding remove_found
remove_polled polled fd p = remove_found p (find_polled polled fd p.entries)

-- What an object may do to the poller while it is called.
pub data Op : Type 0 where
  adds sets : ℕ → ℕ → Events → Op
  removes : ℕ → ℕ → Op
  finishes : Op

unfoldable pub apply : Op → Poller → Poller
apply (adds polled fd events) p = add_polled polled fd events p
apply (sets polled fd events) p = set_events polled fd events p
apply (removes polled fd) p = remove_polled polled fd p
apply finishes p = request_finish p

unfoldable pub apply_all : List Op → Poller → Poller
apply_all [] p = p
apply_all (op ∷ ops) p = apply_all ops (apply op p)

-- `if (poll_struct.revents)`
abbrev pub is_ready : Entry → Bool
is_ready e =
    let r = e.revents in r.pollin || (r.pollout || (r.pollerr || (r.pollhup || r.pollnval)))

-- `while (m_size < m_orig_size) m_size *= 2`
unfoldable pub grow : ℕ → ℕ → ℕ → ℕ
grow zero orig size = size
grow (suc fuel) orig size =
    let more = grow fuel orig (size * 2) in if ltb size orig then more else size

-- The answer of poll(2): how many are ready is not used beyond its sign.
pub data PollResult : Type 0 where
  ready : List Events → PollResult
  timed_out : PollResult
  poll_failed : Errno → PollResult

-- The results of the call on the entries, in their order.
unfoldable pub set_revents : List Entry → List Events → List Entry
set_revents (e ∷ es) (r ∷ rs) = record e { revents = r } ∷ set_revents es rs
set_revents es _ = es

-- `W` is the state outside the poller; `polled` is the virtual function of the objects.
module _ {W : Type 0} (polled : Entry → W → Result (List Op × W)) where
  abbrev pub Outcome : Type 0
  Outcome = Result (Poller × W)

  abbrev pub dispatch : (Poller → W → Outcome) → Poller → Entry → W → Bool → Outcome
  dispatch again p e w true = polled e w >>= λ (ops, w'). again (apply_all ops p) w'
  dispatch again p e w false = again p w

  abbrev pub visit : (Poller → W → Outcome) → Poller → W → Option Entry → Outcome
  visit again p w none = undefined
  visit again p w (some e) = dispatch again p e w (is_ready e)

  abbrev pub traverse_if : (Poller → W → Outcome) → Poller → W → Bool → Outcome
  traverse_if again p w true =
      visit again (record p { next_index = suc p.next_index }) w (get_elem? p.entries p.next_index)
  traverse_if again p w false = ok (p, w)

  -- The loop over the objects, from `m_index` on.
  unfoldable pub traverse : ℕ → Poller → W → Outcome
  traverse zero p w = ok (p, w)
  traverse (suc fuel) p w = traverse_if (traverse fuel) p w (ltb p.next_index p.orig_size)

  module _ (poll : List (ℕ × Events) → W → PollResult × W) where
    polled_ready : Poller → PollResult × W → Result (PollResult × Poller × W)
    polled_ready p (ready revents, w) = do
      let p' : Poller = record p { entries = set_revents p.entries revents; next_index = 0 }
      (p'', w') ← traverse p'.orig_size p' w
      ok (ready revents, p'', w')
    polled_ready p (timed_out, w) = ok (timed_out, p, w)
    polled_ready p (poll_failed eintr, w) = ok (poll_failed eintr, p, w)
    polled_ready p (poll_failed e, w) = throw (errno e)

    unfoldable pub poll_once : Poller → W → Result (PollResult × Poller × W)
    unfolding polled_ready
    poll_once p w =
        let n = length p.entries in
        let p' : Poller = record p { orig_size = n; size = grow n n p.size } in
        polled_ready p' (poll (map (λ (e : Entry). (e.fd, e.events)) p.entries) w)
