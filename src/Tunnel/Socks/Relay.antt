-- ===== src/Tunnel/Socks/Relay.antt =====
-- copyloop of StdioTunnel.cpp: bytes go from each of two descriptors to the other.
pub mod Sends
pub mod Streams
use tun.Prelude.{
  ℕ, zero, suc, List, [], ◌∷◌, Bool, true, false, ◌||◌, Option, none, some, drop, ◌==◌,
  if◌then◌else◌,
}
use tun.Net.Result.{Errno, eintr, eagain}
use tun.Net.Kernel.{Kernel, Events, ReadResult, got, read_failed, WriteResult, wrote, write_failed}
use tun.Net.Poller.{PollResult, ready, timed_out, poll_failed}
use tun.Tunnel.Link.{wants}

-- MIN(16 * 1024, THREAD_STACK_SIZE / 2) is this for every THREAD_STACK_SIZE of the source.
abbrev pub copy_size : ℕ
copy_size = 16384

-- EINTR and EAGAIN go round again.
abbrev pub is_again : Errno → Bool
is_again eintr = true
is_again eagain = true
is_again _ = false

abbrev pub first_ready : List Events → Bool
first_ready [] = false
first_ready (e ∷ es) = e.pollin

module _ (k : Kernel) (poll : List (ℕ × Events) → k.Os → PollResult) where
  open k use {Os, read, write}

  -- Whether all of it is out, and the system; `none` means that the fuel ran out.
  abbrev pub Sent : Type 0
  Sent = Option (Bool × Os)

  abbrev pub sent_some : (List ℕ → Os → Sent) → List ℕ → WriteResult × Os → Sent
  sent_some again bytes (write_failed e, o) = some (false, o)
  sent_some again bytes (wrote m, o) = again (drop m bytes) o

  -- `while (sent < n)`
  unfoldable pub send_all : ℕ → ℕ → List ℕ → Os → Sent
  send_all zero fd bytes o = none
  send_all (suc fuel) fd [] o = some (true, o)
  send_all (suc fuel) fd (b ∷ bs) o = sent_some (send_all fuel fd) (b ∷ bs) (write fd (b ∷ bs) o)

  -- True to go round again.
  unfoldable pub copied : ℕ → ℕ → ReadResult × Os → Sent
  copied fuel out_fd (read_failed e, o) = some (false, o)
  copied fuel out_fd (got [], o) = some (false, o)
  copied fuel out_fd (got (b ∷ bs), o) = send_all fuel out_fd (b ∷ bs) o

  unfoldable pub polled_round : ℕ → ℕ → ℕ → PollResult → Os → Sent
  unfolding copied
  polled_round fuel fd1 fd2 timed_out o = some (false, o)
  polled_round fuel fd1 fd2 (poll_failed e) o = some (is_again e, o)
  polled_round fuel fd1 fd2 (ready revents) o =
      if first_ready revents
      then copied fuel fd2 (read fd1 copy_size o)
      else copied fuel fd1 (read fd2 copy_size o)

  unfoldable pub copy_round : ℕ → ℕ → ℕ → Os → Sent
  unfolding polled_round
  copy_round fuel fd1 fd2 o =
      polled_round fuel fd1 fd2 (poll ((fd1, wants true false) ∷ (fd2, wants true false) ∷ []) o) o

  abbrev pub next_copy : (Os → Option Os) → Sent → Option Os
  next_copy again none = none
  next_copy again (some (true, o)) = again o
  next_copy again (some (false, o)) = some o

  -- The loop, with fuel for the rounds and for the writes of each.
  unfoldable pub copyloop : ℕ → ℕ → ℕ → ℕ → Os → Option Os
  copyloop zero writes fd1 fd2 o = none
  copyloop (suc rounds) writes fd1 fd2 o =
      next_copy (copyloop rounds writes fd1 fd2) (copy_round writes fd1 fd2 o)
