-- ===== src/Tests/SocksTests.antt =====
-- connect_socks_target at concrete requests.
use tun.Prelude.{
  ℕ, suc, ◌%◌, ◌≡◌, refl, List, [], ◌∷◌, ◌++◌, Option, none, some, arith, Bool, true, false, ◌⊎◌,
  length, get_elem?, take, drop, ◌==◌,
}
use tun.Net.Kernel.{Events}
use tun.Net.Poller.{PollResult, ready}
use tun.Net.Poller.Entries.{no_events}
use tun.Tests.Sockets.{
  Wires, update, sockets, sockets_frame, sockets_bytes, sockets_progress, silent,
}
use tun.Tunnel.Socks.Handshake.{Connecting, connected, socks5_handshake, ss_1_connected}
use tun.Tunnel.Socks.Handshake.Replies.{Answers, handshake-Answers}
use tun.Tunnel.Socks.Relay.{copyloop, copy_round, polled_round, copied, send_all}
use tun.Tunnel.Socks.Relay.Sends.{Stops, send_all-ends}
use tun.Tunnel.Socks.Relay.Streams.{Stream, Cause, copyloop-Stream}
use tun.Tunnel.Socks.Threads.{Sblist, Pool, arrived, server_polled}
use tun.Tunnel.Socks.Threads.Collected.{Accepts, server_polled-Accepts}
use tun.Net.Result.{ok}
use tun.Tunnel.Socks.{
  target, socks_target, request_target, address_target, named_target, slice, c_string, with_port,
  byte_at,
}
use tun.Tunnel.Socks.Requests.{name_request, socks_target-name_request}
use tun.Tunnel.Socks.Bounds.{IsReturn, socks_target-IsReturn}

pub listed_add :
    (l l' : List ℕ) (x : ℕ)
    → ◌≡◌ {A = Option (List ℕ)} (some (l ++ x ∷ [])) (some l')
    → l' ≡ l ++ x ∷ []
listed_add l l' x e = cc

-- CONNECT to `db`, port 5432.
abbrev db_request : List ℕ
db_request = 5 ∷ 1 ∷ 0 ∷ 3 ∷ 2 ∷ b'd' ∷ b'b' ∷ 21 ∷ 56 ∷ []

abbrev no_address : List ℕ → Option (List ℕ)
no_address a = none

socks_target-IsReturn_example : IsReturn (socks_target no_address db_request)
socks_target-IsReturn_example = socks_target-IsReturn no_address db_request (omega arith)

request_runs : socks_target no_address db_request ≡ ok (target (b'd' ∷ b'b' ∷ []) 5432)
unfolding socks_target request_target address_target named_target slice c_string with_port byte_at
request_runs = refl

socks_target-name_request_example :
    socks_target no_address (name_request (b'd' ∷ b'b' ∷ []) 5432)
    ≡ ok (target (b'd' ∷ b'b' ∷ []) 5432)
socks_target-name_request_example =
    socks_target-name_request no_address (b'd' ∷ b'b' ∷ []) 5432 (omega arith) (omega arith)
      (omega arith)

abbrev resolves : List ℕ → ℕ → Option ℕ
resolves name port = some port

abbrev connects : ℕ → Connecting
connects address = connected 12

-- A client on descriptor 5 that sends one byte, then nothing.
abbrev client : Wires
client = update silent 5 (record { inbox = 5 ∷ []; outbox = [] })

handshake-Answers_example :
    Answers sockets sockets_frame no_address resolves connects 5
      (5 ∷ 0 ∷ [])
      (socks5_handshake sockets no_address resolves connects 2 5 [] ss_1_connected client)
handshake-Answers_example =
    handshake-Answers sockets sockets_frame no_address resolves connects 5 (sockets_bytes 5) 0 []
      client

-- The first descriptor is always ready, until there is nothing more to read.
abbrev first_polled : List (ℕ × Events) → Wires → PollResult
first_polled fds o = ready (record no_events { pollin = true } ∷ [])

relay_runs :
    (o' : Wires) × (copyloop sockets first_polled 3 9 5 6 client ≡ some o')
    × ((o' 6).outbox ≡ 5 ∷ [])
unfolding copyloop copy_round polled_round copied send_all
relay_runs = (_, refl, refl)

copyloop-Stream_example :
    (lost1 : List ℕ) × (lost2 : List ℕ) × Stream sockets sockets_frame first_polled 5 6 lost1 client
      relay_runs.0
    × Stream sockets sockets_frame first_polled 6 5 lost2 client relay_runs.0
    × Cause sockets sockets_frame first_polled 5 6 (omega arith) lost1 lost2 relay_runs.0
copyloop-Stream_example =
    copyloop-Stream sockets sockets_frame first_polled 5 6 (omega arith) 3 9 client relay_runs.0
      relay_runs.1

send_all-ends_example :
    (o' : Wires) × (((send_all sockets first_polled 3 6 (1 ∷ 2 ∷ []) silent ≡ some (true, o'))
        × (sockets.outgoing o' 6 ≡ 1 ∷ 2 ∷ []))
      ⊎ ((send_all sockets first_polled 3 6 (1 ∷ 2 ∷ []) silent ≡ some (false, o'))
          × ((sent l : List ℕ) × Stops sockets sockets_frame first_polled 6
                (1 ∷ 2 ∷ [])
                silent
                o'
                sent
                l)))
send_all-ends_example =
    send_all-ends sockets sockets_frame first_polled sockets_progress 3 6 (1 ∷ 2 ∷ []) silent
      (omega arith)

abbrev listed : Sblist
listed = record {
  Items = List ℕ;
  contents = λ l. l;
  create = [];
  get_size = λ l. length l;
  get = λ l i. get_elem? l i;
  delete = λ l i. take i l ++ drop (suc i) l;
  add = λ l x. some (l ++ x ∷ []);
  create_lem = refl;
  get_size_lem = λ l. refl;
  get_lem = λ l i. refl;
  delete_lem = λ l i. refl;
  add_lem = listed_add;
}

-- Threads 2 and 4 are done.
abbrev even_done : ℕ → Bool
even_done t = t % 2 == 0

abbrev pool : Pool (List ℕ)
pool = record { threads = 1 ∷ 2 ∷ 3 ∷ 4 ∷ []; freed = []; running = []; closed = [] }

server_polled-Accepts_example :
    (p' : Pool (List ℕ)) × (server_polled listed even_done 5 (arrived 6 9 true) pool ≡ some p')
    × Accepts listed even_done 6 9 pool p'
server_polled-Accepts_example = server_polled-Accepts listed even_done 5 6 9 true pool (omega arith)
