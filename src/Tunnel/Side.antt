-- ===== src/Tunnel/Side.antt =====
-- CreateConnection and the virtual processMessage of StdioTunnel.cpp: a connection is one of two
-- kinds.
pub mod Listener
use tun.Prelude.{ℕ, [], Bool, true, false, not, ◌&&◌, ◌||◌, Option, none, some, ◌==◌, if◌then◌else◌}
use tun.Net.Result.{Result, ok, throw, Errno, errno, ◌>>=◌}
use tun.Net.Poller.{add_polled}
use tun.Tunnel.Spec.{ConnectionSpec, listen, connect}
use tun.Tunnel.Link.{Shared, wants}
use tun.Tunnel.Connection.{
  Connection, ListenSide, listen_side, listen_process_message, connect_process_message, Attempt,
}

pub data Side : Type 0 where
  listening : ListenSide → Side
  connecting : Connection → Side

-- `ListenSide::initialize`: bind(2) failed and throws, socket(2), fcntl(2) or listen(2) failed, or
-- the new object's address and its descriptor.
pub data Opened : Type 0 where
  bind_failed : Errno → Opened
  not_opened : Opened
  opened : ℕ → ℕ → Opened

unfoldable pub initialized : Opened → ConnectionSpec → ℕ → Shared → Result (Option Side × Shared)
initialized (bind_failed e) spec id s = throw (errno e)
initialized not_opened spec id s = ok (none, s)
initialized (opened address socket) spec id s = ok (
  some (listening (listen_side spec id)),
  record s { poller = add_polled address socket (wants true false) s.poller },
)

-- Which end listens.
unfoldable pub listens : Bool → ConnectionSpec → Bool
listens is_local spec =
    (is_local && spec.connection_type == connect)
    || (not is_local && spec.connection_type == listen)

module _ (open_listener : ConnectionSpec → Opened) (attempt : ConnectionSpec → Attempt)
    (report : Attempt → Shared → Result Shared) where
  -- `none` is a null pointer.
  unfoldable pub create_connection :
      Bool → ℕ → ConnectionSpec → Shared → Result (Option Side × Shared)
  unfolding initialized listens
  create_connection is_local id spec s =
      if listens is_local spec
      then initialized (open_listener spec) spec id s
      else ok (some (connecting (record { spec = spec; id = id; link_map = [] })), s)

  unfoldable pub process_message : Side → Shared → Result (Side × Shared)
  process_message (listening a) s = listen_process_message a.connection s >>= λ (c, s').
      ok (listening (record a { connection = c }), s')
  process_message (connecting c) s =
      connect_process_message attempt report c s >>= λ (c', s'). ok (connecting c', s')
