-- ===== src/Tunnel/Socks/Client.antt =====
-- socks5_clientthread of StdioTunnel.cpp: one client from the handshake to the end.
use tun.Prelude.{ℕ, List, [], ◌∷◌, ◌++◌, Option, none, some}
use tun.Net.Result.{Result, ok, throw, undefined}
use tun.Net.Kernel.{Kernel, Events}
use tun.Net.Poller.{PollResult}
use tun.Tunnel.Socks.Handshake.{Connecting, ss_1_connected, socks5_handshake}
use tun.Tunnel.Socks.Relay.{copyloop}

module _ (k : Kernel) {Addr : Type 0} (inet_ntop : List ℕ → Option (List ℕ))
    (resolve : List ℕ → ℕ → Option Addr) (connect : Addr → Connecting)
    (poll : List (ℕ × Events) → k.Os → PollResult) where
  open k use {Os}

  -- The system at the end, and the descriptors closed, in order; `none` means that the fuel of
  -- copyloop ran out. `done` is set in each case that returns.
  abbrev pub Served : Type 0
  Served = Option (Result (Os × List ℕ))

  copied_to : ℕ → ℕ → List ℕ → Option Os → Served
  copied_to fd remote_fd closed none = none
  copied_to fd remote_fd closed (some o) = some (ok (o, closed ++ remote_fd ∷ fd ∷ []))

  abbrev after_handshake : ℕ → ℕ → ℕ → Option (Result (Option ℕ × Os × List ℕ)) → Served
  after_handshake rounds writes fd none = none
  after_handshake rounds writes fd (some (throw e)) = some (throw e)
  after_handshake rounds writes fd (some undefined) = some undefined
  after_handshake rounds writes fd (some (ok (none, o, closed))) = some (ok (o, closed ++ fd ∷ []))
  after_handshake rounds writes fd (some (ok (some remote_fd, o, closed))) =
      copied_to fd remote_fd closed (copyloop k poll rounds writes fd remote_fd o)

  -- Two rounds are enough for the handshake.
  unfoldable pub client_thread : ℕ → ℕ → ℕ → Os → Served
  unfolding copied_to
  client_thread rounds writes fd o =
      after_handshake rounds writes fd
        (socks5_handshake k inet_ntop resolve connect 2 fd [] ss_1_connected o)
