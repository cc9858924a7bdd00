-- ===== src/Tunnel/Socks/Threads.antt =====
-- Socks5Server of StdioTunnel.h and StdioTunnel.cpp: the list of client threads. The list is an
-- sblist, whose code is a copied library: its operations are an interface.
pub mod Collected
use tun.Prelude.{
  ℕ, zero, suc, ◌+◌, ◌≡◌, List, [], ◌∷◌, ◌++◌, Bool, true, false, Option, none, some, length, take,
  drop, get_elem?, ltb, if◌then◌else◌,
}
use tun.Net.Kernel.{Events}
use tun.Tunnel.Link.{wants}

-- What sblist.h promises of a list of pointers; `contents` are the pointers in their order.
pub record Sblist : Type 1 where
  pub Items : Type 0
  pub contents : Items → List ℕ
  pub create : Items
  pub get_size : Items → ℕ
  pub get : Items → ℕ → Option ℕ
  pub delete : Items → ℕ → Items
  -- `none` where there is no memory.
  pub add : Items → ℕ → Option Items
  pub create_lem : contents create ≡ []
  pub get_size_lem : (l : Items) → get_size l ≡ length (contents l)
  pub get_lem : (l : Items) (i : ℕ) → get l i ≡ get_elem? (contents l) i
  pub delete_lem :
      (l : Items) (i : ℕ) → contents (delete l i) ≡ take i (contents l) ++ drop (suc i) (contents l)
  pub add_lem : (l l' : Items) (x : ℕ) → add l x ≡ some l' → contents l' ≡ contents l ++ x ∷ []

-- One call of `polled` meets: no memory for a thread, accept(2) failing, or a client, with the
-- address of the `struct thread`, the client's descriptor and whether pthread_create starts one.
pub data Arrival : Type 0 where
  no_memory : Arrival
  no_client : ℕ → Arrival
  arrived : ℕ → ℕ → Bool → Arrival

-- The pointers freed, those whose thread was started, and the descriptors closed, in order.
pub record Pool (Items : Type 0) : Type 0 where
  pub threads : Items
  pub freed : List ℕ
  pub running : List ℕ
  pub closed : List ℕ

-- `Socks5Server::setPollfd`
unfoldable pub server_pollfd : ℕ → ℕ × Events
server_pollfd fd = (fd, wants true false)

module _ (sblist : Sblist) (done : ℕ → Bool) where
  open sblist use {Items, create, get_size, get, delete, add}

  unfoldable pub new_pool : Pool Items
  new_pool = record { threads = create; freed = []; running = []; closed = [] }

  abbrev pub Collection : Type 0
  Collection = Option (Items × List ℕ)

  abbrev pub collect_thread :
      (ℕ → Items → List ℕ → Collection) → ℕ → Items → List ℕ → ℕ → Bool → Collection
  collect_thread again i l joined t true = again i (delete l i) (joined ++ t ∷ [])
  collect_thread again i l joined t false = again (suc i) l joined

  abbrev pub collect_at :
      (ℕ → Items → List ℕ → Collection) → ℕ → Items → List ℕ → Option ℕ → Collection
  collect_at again i l joined none = none
  collect_at again i l joined (some t) = collect_thread again i l joined t (done t)

  -- `collect`: the list and the threads joined and freed. `none` means that the fuel ran out, or
  -- a read past the end of the list.
  unfoldable pub collect : ℕ → ℕ → Items → List ℕ → Collection
  collect zero i l joined = none
  collect (suc fuel) i l joined =
      let next = collect_at (collect fuel) i l joined (get l i) in
      if ltb i (get_size l) then next else some (l, joined)

  added : Pool Items → ℕ → ℕ → Bool → Option Items → Pool Items
  added p t fd starts none = record p { freed = p.freed ++ t ∷ []; closed = p.closed ++ fd ∷ [] }
  added p t fd starts (some l) = record p {
    threads = l;
    running = if starts then p.running ++ t ∷ [] else p.running;
  }

  arrive : Arrival → Pool Items → Pool Items
  unfolding added
  arrive no_memory p = p
  arrive (no_client t) p = record p { freed = p.freed ++ t ∷ [] }
  arrive (arrived t fd starts) p = added p t fd starts (add p.threads t)

  collected : Arrival → Pool Items → Collection → Option (Pool Items)
  unfolding arrive
  collected a p none = none
  collected a p (some (l, joined)) =
      some (arrive a (record p { threads = l; freed = p.freed ++ joined }))

  -- `Socks5Server::polled`
  unfoldable pub server_polled : ℕ → Arrival → Pool Items → Option (Pool Items)
  unfolding collected collect
  server_polled fuel a p = collected a p (collect fuel 0 p.threads [])
