-- ===== src/Tunnel/Remote.antt =====
-- class StdioTunnelRemote of StdioTunnel.h and StdioTunnel.cpp: the end that reads and writes its
-- standard input and output.
pub mod Handshake
pub mod Start
use tun.Prelude.{
  ℕ, zero, suc, List, [], ◌∷◌, ◌++◌, Bool, true, false, not, ◌&&◌, ◌||◌, Option, none, some, ◌==◌,
  if◌then◌else◌, to_int, is_negative, int_ltb,
}
use tun.Net.Result.{
  Result, ok, throw, undefined, Error, second_socks5, bad_state, stdin_closed, bad_poll,
  unexpected_handshake_command, unexpected_command, require, ◌>>=◌, ◌>>◌,
}
use tun.Net.Kernel.{Kernel, Events}
use tun.Net.WriteStream
use tun.Net.WriteStream.{write_short, pending_write}
use tun.Net.ReadStream
use tun.Net.ReadStream.{available}
use tun.Net.ReadStream.Values.{read_short}
use tun.Net.Poller.{add_polled, set_events, request_finish}
use tun.Tunnel.Spec.{ConnectionSpec, deserialize, is_socks5}
use tun.Tunnel.Link.{Shared, wants, reading, writing, send, cmd_connection}
use tun.Tunnel.Connection.{Attempt}
use tun.Tunnel.Side.{Side, Opened, create_connection, process_message}

abbrev pub cmd_create : ℕ
cmd_create = 402

abbrev pub cmd_shutdown : ℕ
cmd_shutdown = 404

pub data RemoteState : Type 0 where
  initial set_stdio_read handshaking connected shut_down : RemoteState

-- `m_connection_map` by id, whether `m_socks5_server` is set, and the object's address.
pub record Remote : Type 0 where
  pub state : RemoteState
  pub connection_map : List (ℕ × Side)
  pub socks5_server : Bool
  pub closed_by_request : Bool
  pub address : ℕ
  pub shared : Shared

-- The descriptor and the events that `setPollfd` fills in.
unfoldable pub set_pollfd : Remote → Result (ℕ × Events × Remote)
set_pollfd t = elim t.state [
  | initial ↦ ok (0, wants true false, record t { state = set_stdio_read })
  | set_stdio_read ↦ ok (1, wants false false, record t { state = handshaking })
  | handshaking ↦ throw bad_state
  | connected ↦ throw bad_state
  | shut_down ↦ throw bad_state
]

-- `m_connection_map[id] = side`: a std::map keeps its elements by ascending id, an int.
unfoldable pub put_side : ℕ → Side → List (ℕ × Side) → List (ℕ × Side)
put_side id side [] = (id, side) ∷ []
put_side id side ((i, x) ∷ rest) =
    if i == id
    then (id, side) ∷ rest
    else if int_ltb id i
    then (id, side) ∷ (i, x) ∷ rest
    else (i, x) ∷ put_side id side rest

unfoldable pub find_side : ℕ → List (ℕ × Side) → Option Side
find_side id [] = none
find_side id ((i, x) ∷ rest) = if i == id then some x else find_side id rest

-- Starting the SOCKS5 server: an error, or its address, its descriptor and its port.
pub data Started : Type 0 where
  not_started : Error → Started
  started : ℕ → ℕ → ℕ → Started

abbrev pub localhost : List ℕ
localhost = 108 ∷ 111 ∷ 99 ∷ 97 ∷ 108 ∷ 104 ∷ 111 ∷ 115 ∷ 116 ∷ []

module _ (k : Kernel) (start_socks5 : ℕ → Started) (open_listener : ConnectionSpec → Opened)
    (attempt : ConnectionSpec → Attempt) (report : Attempt → Shared → Result Shared) where
  open k use {Os}

  add_side : ℕ → Remote → Option Side × Shared → Remote
  add_side id t (none, s) = record t { shared = s }
  add_side id t (some side, s) = record t {
    connection_map = put_side id side t.connection_map;
    shared = s;
  }

  add_connection : ℕ → ConnectionSpec → Remote → Result Remote
  unfolding add_side
  add_connection id spec t =
      create_connection open_listener attempt report false id spec t.shared >>= λ x.
      ok (add_side id t x)

  -- A spec for the SOCKS5 server connects to the port that the server listens on.
  add_socks5 : ℕ → ConnectionSpec → Remote → Started → Result Remote
  unfolding add_connection
  add_socks5 id spec t (not_started e) = throw e
  add_socks5 id spec t (started address fd port) =
      add_connection id (record spec { connect_host = localhost; connect_port = port })
        (record t {
          socks5_server = true;
          shared = record t.shared {
            poller = add_polled address fd (wants true false) t.shared.poller;
          };
        })

  -- One round of the loop over the specs.
  unfoldable pub create_one : ℕ → ConnectionSpec → Remote → Result Remote
  unfolding add_socks5 add_connection
  create_one id spec t =
      if is_socks5 spec
      then (if t.socks5_server
          then throw second_socks5
          else add_socks5 id spec t (start_socks5 spec.connect_port))
      else add_connection id spec t

  unfoldable pub create_loop : ℕ → Remote → Result Remote
  create_loop zero t = ok t
  create_loop (suc n) t = do
    (id, s1) ← reading read_short t.shared
    (spec, s2) ← reading deserialize s1
    t' ← create_one (to_int id) spec (record t { shared = s2 })
    create_loop n t'

  -- The first message; a negative count is no round.
  unfoldable pub handshake : ℕ → Remote → Result Remote
  unfolding create_loop
  handshake command t = do
    require (command == cmd_create) unexpected_handshake_command
    (count, s1) ← reading read_short t.shared
    t' ← create_loop (if is_negative (to_int count) then 0 else count) (record t { shared = s1 })
    s2 ← send (writing (write_short cmd_create) t'.shared)
    ok (record t' { state = connected; shared = s2 })

  dispatch_side : ℕ → Remote → Option Side → Shared → Result Remote
  dispatch_side id t none s = undefined
  dispatch_side id t (some side) s = do
    (side', s') ← process_message open_listener attempt report side s
    ok (record t { connection_map = put_side id side' t.connection_map; shared = s' })

  -- A message once connected. An unknown id is a null pointer.
  unfoldable pub remote_command : ℕ → Remote → Result Remote
  unfolding dispatch_side
  remote_command command t =
      if command == cmd_shutdown
      then ok (record t {
        closed_by_request = true;
        shared = record t.shared { poller = request_finish t.shared.poller };
      })
      else if not (command == cmd_connection)
      then throw unexpected_command
      else (do
        (id, s) ← reading read_short t.shared
        dispatch_side (to_int id) t (find_side (to_int id) t.connection_map) s)

  unfoldable pub remote_message : ℕ → Remote → Result Remote
  unfolding handshake remote_command
  remote_message command t = elim t.state [
    | initial ↦ ok t
    | set_stdio_read ↦ ok t
    | handshaking ↦ handshake command t
    | connected ↦ remote_command command t
    | shut_down ↦ ok t
  ]

  abbrev pub has_error : Events → Bool
  has_error e = e.pollhup || (e.pollnval || e.pollerr)

  -- At most one message is taken for each call.
  unfoldable pub remote_stdin : Events → Remote → Os → Result (Remote × Os)
  unfolding remote_message
  remote_stdin revents t o = do
    require (not (has_error revents)) stdin_closed
    require revents.pollin bad_poll
    (r, o') ← ReadStream.fill k 0 revents t.shared.reader o
    let t1 : Remote = record t { shared = record t.shared { reader = r } }
    t2 ←
        if available r
        then (reading read_short t1.shared >>= λ (command, s).
            remote_message (to_int command) (record t1 { shared = s }))
        else ok t1
    ok (t2, o')

  -- `events` is what the poller has for standard output.
  unfoldable pub remote_stdout : Events → Events → Remote → Os → Result (Remote × Events × Os)
  remote_stdout revents events t o =
      if revents.pollin || has_error revents
      then ok (
        record t {
          state = shut_down;
          shared = record t.shared { poller = request_finish t.shared.poller };
        },
        events,
        o,
      )
      else (do
        (w, events', o') ← WriteStream.empty k 1 revents events t.shared.writer o
        let s : Shared = record t.shared { writer = w }
        ok (
          record t {
            shared =
                if pending_write w
                then s
                else record s { poller = set_events t.address 1 (wants false false) s.poller };
          },
          events',
          o',
        ))

  -- `polled`, with the descriptor of the pollfd.
  unfoldable pub remote_polled : ℕ → Events → Events → Remote → Os → Result (Remote × Events × Os)
  unfolding remote_stdin remote_stdout
  remote_polled fd revents events t o = do
    (t1, o1) ← if fd == 0 then remote_stdin revents t o else ok (t, o)
    if fd == 1 then remote_stdout revents events t1 o1 else ok (t1, events, o1)
