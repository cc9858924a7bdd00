-- ===== src/Tunnel/Side/Listener.antt =====
-- ListenSide::initialize of StdioTunnel.cpp: the socket that a listening side accepts clients on.
use tun.Prelude.{
  ℕ, ◌/◌, ◌%◌, ◌≡◌, refl, ◌∙◌, Bool, true, false, Option, none, some, ◌==◌, if◌then◌else◌, to_short,
}
use tun.Net.Result.{Errno}
use tun.Tunnel.Spec.{ConnectionSpec}
use tun.Tunnel.Side.{Opened, bind_failed, not_opened, opened}

abbrev pub inaddr_any : ℕ
inaddr_any = 0

-- 127.0.0.1
abbrev pub inaddr_loopback : ℕ
inaddr_loopback = 2130706433

-- `flags & PROMISCUOUS`
abbrev pub is_promiscuous : ℕ → Bool
is_promiscuous flags = flags / 2 % 2 == 1

-- socket(2), bind(2) to an address and a port, fcntl(2) that makes a descriptor non-blocking, and
-- listen(2), with what each changes. `bound w fd` is the address and the port of a socket.
pub record Sockets : Type 1 where
  pub World : Type 0
  pub bound : World → ℕ → Option (ℕ × ℕ)
  pub socket : World → Option ℕ × World
  pub bind : ℕ → ℕ → ℕ → World → Option Errno × World
  pub fcntl : ℕ → World → Bool × World
  pub listen : ℕ → ℕ → World → Bool × World
  pub bind_bound :
      (fd address port : ℕ) (w w' : World)
      → bind fd address port w ≡ (none, w')
      → bound w' fd ≡ some (address, port)
  pub fcntl_bound : (fd : ℕ) (w : World) → bound (fcntl fd w).1 fd ≡ bound w fd
  pub listen_bound : (fd n : ℕ) (w : World) → bound (listen fd n w).1 fd ≡ bound w fd

-- `saddr`: the address, and the port as htons takes it.
unfoldable pub address_of : ConnectionSpec → ℕ
address_of spec = if is_promiscuous spec.flags then inaddr_any else inaddr_loopback

module _ (k : Sockets) (object : ℕ) where
  open k use {World, bound, socket, bind, fcntl, listen}

  listened : ℕ → Bool × World → Opened × World
  listened fd (true, w) = (opened object fd, w)
  listened fd (false, w) = (not_opened, w)

  made_non_blocking : ℕ → Bool × World → Opened × World
  unfolding listened
  made_non_blocking fd (true, w) = listened fd (listen fd 5 w)
  made_non_blocking fd (false, w) = (not_opened, w)

  is_bound : ℕ → Option Errno × World → Opened × World
  unfolding made_non_blocking
  is_bound fd (none, w) = made_non_blocking fd (fcntl fd w)
  is_bound fd (some e, w) = (bind_failed e, w)

  with_socket : ConnectionSpec → Option ℕ × World → Opened × World
  unfolding is_bound
  with_socket spec (none, w) = (not_opened, w)
  with_socket spec (some fd, w) =
      is_bound fd (bind fd (address_of spec) (to_short spec.listen_port) w)

  -- `object` is the address of the ListenSide. No call closes the socket.
  unfoldable pub initialize : ConnectionSpec → World → Opened × World
  unfolding with_socket
  initialize spec w = with_socket spec (socket w)

  -- A side that is opened listens at the address and the port of its spec.
  abbrev pub IsBound : ConnectionSpec → Opened × World → Type 0
  IsBound spec (opened a fd, w) =
      (a ≡ object)
      × (bound w fd
          ≡ some (
            if is_promiscuous spec.flags then inaddr_any else inaddr_loopback,
            to_short spec.listen_port,
          ))
  IsBound spec (not_opened, w) = Unit
  IsBound spec (bind_failed e, w) = Unit

  listened-IsBound :
      (spec : ConnectionSpec) (fd : ℕ) (x : Bool × World)
      → bound x.1 fd ≡ some (address_of spec, to_short spec.listen_port)
      → IsBound spec (listened fd x)
  unfolding listened address_of
  listened-IsBound spec fd (true, w) h = (refl, h)
  listened-IsBound spec fd (false, w) h = tt

  non_blocking-IsBound :
      (spec : ConnectionSpec) (fd : ℕ) (x : Bool × World)
      → bound x.1 fd ≡ some (address_of spec, to_short spec.listen_port)
      → IsBound spec (made_non_blocking fd x)
  unfolding made_non_blocking
  non_blocking-IsBound spec fd (true, w) h =
      listened-IsBound spec fd (listen fd 5 w) (k.listen_bound fd 5 w ∙ h)
  non_blocking-IsBound spec fd (false, w) h = tt

  bind-IsBound :
      (spec : ConnectionSpec) (fd : ℕ) (w : World) (x : Option Errno × World)
      → bind fd (address_of spec) (to_short spec.listen_port) w ≡ x
      → IsBound spec (is_bound fd x)
  unfolding is_bound
  bind-IsBound spec fd w (none, w') h =
      non_blocking-IsBound spec fd (fcntl fd w')
        (k.fcntl_bound fd w' ∙ k.bind_bound fd (address_of spec) (to_short spec.listen_port) w w' h)
  bind-IsBound spec fd w (some e, w') h = tt

  socket-IsBound :
      (spec : ConnectionSpec) (x : Option ℕ × World) → IsBound spec (with_socket spec x)
  unfolding with_socket
  socket-IsBound spec (none, w) = tt
  socket-IsBound spec (some fd, w) =
      bind-IsBound spec fd w (bind fd (address_of spec) (to_short spec.listen_port) w) refl

  -- A listening side that is opened has its socket bound to the low sixteen bits of its spec's
  -- listen port, at the address of the machine itself unless the spec has the flag PROMISCUOUS, and
  -- then at every address.
  pub initialize-IsBound : (spec : ConnectionSpec) (w : World) → IsBound spec (initialize spec w)
  unfolding initialize
  initialize-IsBound spec w = socket-IsBound spec (socket w)
