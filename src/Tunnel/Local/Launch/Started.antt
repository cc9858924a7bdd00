-- ===== src/Tunnel/Local/Launch/Started.antt =====
-- The local end when `start` reaches the loop of the poller.
use mathlib.Core.List.{Memᴰ}
use tun.Prelude.{
  ℕ, ◌≡◌, ◌≢◌, ◌⊎◌, All, refl, Bool, true, false, ◌+◌, to_int, to_short, if◌then◌else◌, inl, inr,
  List, [], ◌∷◌, ◌++◌, Option, none, some,
}
use tun.Net.Result.{Result, ok, throw, undefined, Error, Errno, errno, ◌>>=◌, ◌>>◌}
use tun.Net.Poller.Entries.{Entry}
use tun.Tunnel.Spec.{ConnectionSpec}
use tun.Tunnel.Link.{Shared}
use tun.Tunnel.Connection.{Attempt}
use tun.Tunnel.Side.{
  Side, Opened, bind_failed, not_opened, opened, initialized, connecting, listens,
  create_connection,
}
use tun.Tunnel.Local.{Local, initial, pass_through, add_side, create_connections, start_polling}
use tun.Tunnel.Local.Startup.{four_entries, start_polling_lem}
use tun.Tunnel.Local.Launch.{set_mode, non_blocking, start_parent}

-- The object in its first state, with its descriptors and its address.
pub record IsNew (r w address : ℕ) (t : Local) : Type 0 where
  pub is_initial : t.state ≡ initial
  pub reads : t.read_fd ≡ r
  pub writes : t.write_fd ≡ w
  pub at : t.address ≡ address

-- It is polled for the four descriptors, behind whatever its connections are polled for, and its
-- writer is that of the pipe.
pub record IsStarted (r w : ℕ) (t t' : Local) : Type 0 where
  pub passes : t'.state ≡ pass_through
  pub reads : t'.read_fd ≡ r
  pub writes : t'.write_fd ≡ w
  pub writer : t'.shared.writer_polled ≡ some (t.address, w)
  pub others : List Entry
  pub entries :
      t'.shared.poller.entries ≡ others ++ four_entries (record t { read_fd = r; write_fd = w })

-- What is returned, or thrown; no behaviour is undefined.
abbrev pub Yields : {A : Type 0} → (A → Type 0) → (Error → Type 0) → Result A → Type 0
Yields P F (ok a) = P a
Yields P F (throw e) = F e
Yields P F undefined = ⊥

Yields-bind :
    {A B : Type 0} (P : A → Type 0) (Q : B → Type 0) (F G : Error → Type 0) (m : Result A)
    (f : A → Result B)
    → Yields P F m
    → ((e : Error) → F e → G e)
    → ((a : A) → P a → Yields Q G (f a))
    → Yields Q G (m >>= f)
Yields-bind P Q F G (ok a) f h i g = g a h
Yields-bind P Q F G (throw e) f h i g = i e h
Yields-bind P Q F G undefined f h i g = absurd h

Yields-also :
    {A : Type 0} (P Q : A → Type 0) (F G : Error → Type 0) (m : Result A)
    → Yields P F m
    → ((a : A) → P a → Q a)
    → ((e : Error) → F e → G e)
    → Yields Q G m
Yields-also P Q F G (ok a) h f g = f a h
Yields-also P Q F G (throw e) h f g = g e h
Yields-also P Q F G undefined h f g = h

polls-Yields :
    (F : Error → Type 0) (r w : ℕ) (t t1 : Local)
    → IsNew r w t.address t1
    → Yields (IsStarted r w t) F (start_polling t1)
polls-Yields F r w t t1 h = rw ((start_polling_lem t1 h.is_initial).0) (record {
  passes = refl;
  reads = h.reads;
  writes = h.writes;
  writer = rw (h.at, h.writes) refl;
  others = t1.shared.poller.entries;
  entries = rw (h.at, h.reads, h.writes) refl;
})

module _ (refuses_mode : ℕ → Option Errno) (open_listener : ConnectionSpec → Opened)
    (attempt : ConnectionSpec → Attempt) where
  -- The listener of a spec of the list could not be opened, for that reason.
  abbrev pub BindFails : List ConnectionSpec → Error → Type 0
  BindFails specs e =
      (spec : ConnectionSpec) × (x : Errno) × Memᴰ spec specs
      × (listens true spec ≡ true)
      × (open_listener spec ≡ bind_failed x)
      × (e ≡ errno x)

  -- The mode of a descriptor of the list could not be set, for that reason.
  abbrev pub ModeFails : List ℕ → Error → Type 0
  ModeFails fds e =
      (fd : ℕ) × (x : Errno) × Memᴰ fd fds × (refuses_mode fd ≡ some x) × (e ≡ errno x)

  -- No listener of the list was refused, and no mode.
  abbrev pub NoneRefused : List ConnectionSpec → Type 0
  NoneRefused specs =
      All
        (λ (spec : ConnectionSpec).
          listens true spec ≡ true → (x : Errno) → open_listener spec ≢ bind_failed x)
        specs

  abbrev pub AllSet : List ℕ → Type 0
  AllSet fds = All (λ (fd : ℕ). refuses_mode fd ≡ none) fds

  -- What a first spec adds to the list.
  abbrev First : ConnectionSpec → Error → Type 0
  First spec e =
      (x : Errno) × (listens true spec ≡ true)
      × (open_listener spec ≡ bind_failed x)
      × (e ≡ errno x)

  abbrev Accepted : ConnectionSpec → Type 0
  Accepted spec = listens true spec ≡ true → (x : Errno) → open_listener spec ≢ bind_failed x

  opened-Yields :
      (o : Opened) (spec : ConnectionSpec) (id : ℕ) (s : Shared)
      → open_listener spec ≡ o
      → listens true spec ≡ true
      → Yields (λ _. Accepted spec) (First spec) (initialized o spec id s)
  unfolding initialized
  opened-Yields (bind_failed x) spec id s q l = (x, l, q, refl)
  opened-Yields not_opened spec id s q l = λ l' x e. cc
  opened-Yields (opened address socket) spec id s q l = λ l' x e. cc

  create_connection-Yields :
      (report : Attempt → Shared → Result Shared) (id : ℕ) (spec : ConnectionSpec) (s : Shared)
      → Yields
          (λ _. Accepted spec)
          (First spec)
          (create_connection open_listener attempt report true id spec s)
  unfolding create_connection
  create_connection-Yields report id spec s = go (listens true spec) refl
    where
      go :
          (b : Bool)
          → listens true spec ≡ b
          → Yields
              (λ _. Accepted spec)
              (First spec)
              (if b
                then initialized (open_listener spec) spec id s
                else ok (some (connecting (record { spec = spec; id = id; link_map = [] })), s))
      go true q = opened-Yields (open_listener spec) spec id s refl q
      go false q = λ l. cc

  add_side-IsNew :
      (r w a : ℕ) (t : Local) (x : Option Side × Shared)
      → IsNew r w a t
      → IsNew r w a (add_side open_listener attempt t x)
  unfolding add_side
  add_side-IsNew r w a t (none, s) h = record {
    is_initial = h.is_initial;
    reads = h.reads;
    writes = h.writes;
    at = h.at;
  }
  add_side-IsNew r w a t (some side, s) h = record {
    is_initial = h.is_initial;
    reads = h.reads;
    writes = h.writes;
    at = h.at;
  }

  create_connections-IsNew :
      (r w a id : ℕ) (specs : List ConnectionSpec) (t : Local)
      → IsNew r w a t
      → Yields
          (λ t'. IsNew r w a t' × NoneRefused specs)
          (BindFails specs)
          (create_connections open_listener attempt id specs t)
  unfolding create_connections
  create_connections-IsNew r w a id [] t h = (h, tt)
  create_connections-IsNew r w a id (spec ∷ specs) t h =
      Yields-bind (λ _. Accepted spec) (λ t'. IsNew r w a t' × NoneRefused (spec ∷ specs))
        (First spec) (BindFails (spec ∷ specs))
        (create_connection open_listener attempt (λ a s. ok s) true (to_int id) spec t.shared)
        (λ x.
          create_connections open_listener attempt (to_short (id + 1)) specs
            (add_side open_listener attempt t x))
        (create_connection-Yields (λ a s. ok s) (to_int id) spec t.shared)
        (λ e (x, l, q, p). (spec, x, Memᴰ.head refl, l, q, p))
        (λ x accepted.
          Yields-also (λ t'. IsNew r w a t' × NoneRefused specs) _ (BindFails specs) _ _
            (create_connections-IsNew r w a (to_short (id + 1)) specs _
              (add_side-IsNew r w a t x h))
            (λ t' (n, rest). (n, (accepted, rest)))
            (λ e (s, x, m, l, q, p). (s, x, Memᴰ.tail m, l, q, p)))

  set_mode-Yields :
      (fd : ℕ) (o : Option Errno)
      → refuses_mode fd ≡ o
      → Yields
          (λ _. refuses_mode fd ≡ none)
          (λ e. (x : Errno) × (refuses_mode fd ≡ some x) × (e ≡ errno x))
          (set_mode refuses_mode open_listener attempt o)
  unfolding set_mode
  set_mode-Yields fd none q = q
  set_mode-Yields fd (some x) q = (x, q, refl)

  non_blocking-Yields :
      (fds : List ℕ)
      → Yields
          (λ _. AllSet fds)
          (ModeFails fds)
          (non_blocking refuses_mode open_listener attempt fds)
  unfolding non_blocking
  non_blocking-Yields [] = tt
  non_blocking-Yields (fd ∷ fds) =
      Yields-bind (λ _. refuses_mode fd ≡ none) (λ _. AllSet (fd ∷ fds)) _ (ModeFails (fd ∷ fds))
        (set_mode refuses_mode open_listener attempt (refuses_mode fd))
        (λ _. non_blocking refuses_mode open_listener attempt fds)
        (set_mode-Yields fd (refuses_mode fd) refl) (λ e (x, q, p). (fd, x, Memᴰ.head refl, q, p))
        (λ u set.
          Yields-also (λ _. AllSet fds) _ (ModeFails fds) _ _ (non_blocking-Yields fds)
            (λ v rest. (set, rest)) (λ e (g, x, m, q, p). (g, x, Memᴰ.tail m, q, p)))

  -- What `start` returns in the parent: nothing was refused, and it is started.
  abbrev pub Starts : ℕ → ℕ → List ConnectionSpec → Local → Local → Type 0
  Starts r w specs t t' = IsStarted r w t t' × NoneRefused specs × AllSet (r ∷ w ∷ 0 ∷ 1 ∷ [])

  -- What it throws: the `errno` of a listener that bind(2) refused, or of a mode that was refused.
  abbrev pub Refused : ℕ → ℕ → List ConnectionSpec → Error → Type 0
  Refused r w specs e = BindFails specs e ⊎ ModeFails (r ∷ w ∷ 0 ∷ 1 ∷ []) e

  -- In the parent, `start` of a new local end comes to the loop of the poller exactly when bind(2)
  -- is refused for none of its listeners and fcntl(2) for none of the four descriptors; else it
  -- throws the `errno` of such a refusal. At the loop it passes bytes through: it is polled for
  -- standard input, standard output and the two descriptors it was given, in this order and behind
  -- whatever its connections are polled for, and what it sends goes to the descriptor it writes.
  pub start_parent-Starts :
      (r w : ℕ) (specs : List ConnectionSpec) (t : Local)
      → t.state ≡ initial
      → Yields
          (Starts r w specs t)
          (Refused r w specs)
          (start_parent refuses_mode open_listener attempt r w specs t)
  unfolding start_parent
  start_parent-Starts r w specs t h =
      let t0 : Local = record t { read_fd = r; write_fd = w } in
      let new : IsNew r w t.address t0 = record {
        is_initial = h;
        reads = refl;
        writes = refl;
        at = refl;
      } in
      let fds = r ∷ w ∷ 0 ∷ 1 ∷ [] in
      Yields-bind (λ t1. IsNew r w t.address t1 × NoneRefused specs) (Starts r w specs t)
        (BindFails specs) (Refused r w specs) (create_connections open_listener attempt 0 specs t0)
        (λ t1. non_blocking refuses_mode open_listener attempt fds >> start_polling t1)
        (create_connections-IsNew r w t.address 0 specs t0 new) (λ e f. inl f)
        (λ t1 (n, unrefused).
          Yields-bind (λ _. AllSet fds) (Starts r w specs t) (ModeFails fds) (Refused r w specs)
            (non_blocking refuses_mode open_listener attempt fds) (λ _. start_polling t1)
            (non_blocking-Yields fds) (λ e f. inr f)
            (λ _ set.
              Yields-also (IsStarted r w t) _ (Refused r w specs) _ _
                (polls-Yields (Refused r w specs) r w t t1 n) (λ t' s. (s, unrefused, set))
                (λ e f. f)))
