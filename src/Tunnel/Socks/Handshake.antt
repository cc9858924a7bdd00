-- ===== src/Tunnel/Socks/Handshake.antt =====
-- The rest of connect_socks_target, and socks5_handshake, of StdioTunnel.cpp.
pub mod Replies
use tun.Prelude.{
  ℕ, zero, suc, List, [], ◌∷◌, ◌++◌, Bool, true, false, Option, none, some, length, ◌==◌,
}
use tun.Net.Result.{Result, ok, throw, undefined, ◌>>=◌}
use tun.Net.Kernel.{Kernel, ReadResult, got, read_failed, WriteResult, wrote, write_failed}
use tun.Tunnel.Socks.{
  Target, refused, target, socks_target, ec_general_failure, ec_addresstype_not_supported,
}

-- The errors that the code tells apart.
pub data ConnectErrno : Type 0 where
  etimedout eprototype eprotonosupport eafnosupport econnrefused : ConnectErrno
  enetdown enetunreach ehostunreach other_errno : ConnectErrno

-- The `switch` at `eval_errno`.
unfoldable pub error_code : ConnectErrno → ℕ
error_code etimedout = 6
error_code eprototype = ec_addresstype_not_supported
error_code eprotonosupport = ec_addresstype_not_supported
error_code eafnosupport = ec_addresstype_not_supported
error_code econnrefused = 5
error_code enetdown = 3
error_code enetunreach = 3
error_code ehostunreach = 4
error_code other_errno = ec_general_failure

-- socket(2) and connect(2): the first failed, the second failed on a descriptor, or a descriptor.
pub data Connecting : Type 0 where
  no_socket : ConnectErrno → Connecting
  not_connected : ℕ → ConnectErrno → Connecting
  connected : ℕ → Connecting

-- The int that is returned: minus a code, or a descriptor.
pub data Reply : Type 0 where
  failed : ℕ → Reply
  opened : ℕ → Reply

-- A reply, with the descriptors closed so far.
unfoldable pub connect_reply : Connecting → List ℕ → Reply × List ℕ
connect_reply (no_socket e) closed = (failed (error_code e), closed)
connect_reply (not_connected fd e) closed = (failed (error_code e), closed ++ fd ∷ [])
connect_reply (connected fd) closed = (opened fd, closed)

-- `enum socksstate`
pub data SocksState : Type 0 where
  ss_1_connected ss_2_need_auth ss_3_authed : SocksState

-- `buf[1]` of the answer.
abbrev pub reply_code : Reply → ℕ
reply_code (failed code) = code
reply_code (opened fd) = 0

-- The ten bytes of an answer; the address is always 0.0.0.0:0.
abbrev pub reply_bytes : Reply → List ℕ
reply_bytes r = 5 ∷ reply_code r ∷ 0 ∷ 1 ∷ 0 ∷ 0 ∷ 0 ∷ 0 ∷ 0 ∷ 0 ∷ []

-- `ret < 0 ? -1 : ret`, where `none` is -1.
abbrev pub reply_socket : Reply → Option ℕ
reply_socket (failed code) = none
reply_socket (opened fd) = some fd

module _ (k : Kernel) {Addr : Type 0} (inet_ntop : List ℕ → Option (List ℕ))
    (resolve : List ℕ → ℕ → Option Addr) (connect : Addr → Connecting) where
  open k use {Os, read, write}

  resolved : Option Addr → List ℕ → Reply × List ℕ
  unfolding connect_reply
  resolved none closed = (failed ec_general_failure, closed)
  resolved (some a) closed = connect_reply (connect a) closed

  target_reply : List ℕ → Target → Reply × List ℕ
  unfolding resolved
  target_reply closed (refused code) = (failed code, closed)
  target_reply closed (target name port) = resolved (resolve name port) closed

  -- `connect_socks_target`
  unfoldable pub connect_socks_target : List ℕ → List ℕ → Result (Reply × List ℕ)
  unfolding target_reply
  connect_socks_target buf closed = socks_target inet_ntop buf >>= λ t. ok (target_reply closed t)

  -- `write(fd, buf, n) == n`
  abbrev pub is_whole : ℕ → WriteResult × Os → Bool × Os
  is_whole n (write_failed e, o) = (false, o)
  is_whole n (wrote m, o) = (m == n, o)

  unfoldable pub write_whole : ℕ → List ℕ → Os → Bool × Os
  write_whole fd bytes o = is_whole (length bytes) (write fd bytes o)

  -- The descriptor that is returned, or -1; the system; the descriptors closed. The outer `none`
  -- means that the fuel ran out.
  abbrev pub Handshaken : Type 0
  Handshaken = Option (Result (Option ℕ × Os × List ℕ))

  abbrev pub answered : Reply → List ℕ → Bool × Os → Handshaken
  answered r closed (false, o) = some (ok (none, o, closed))
  answered r closed (true, o) = some (ok (reply_socket r, o, closed))

  abbrev pub answer : ℕ → Os → Result (Reply × List ℕ) → Handshaken
  answer fd o (ok (r, closed)) = answered r closed (write_whole fd (reply_bytes r) o)
  answer fd o (throw e) = some (throw e)
  answer fd o undefined = some undefined

  abbrev pub authorized : (Os → Handshaken) → List ℕ → Bool × Os → Handshaken
  authorized again closed (false, o) = some (ok (none, o, closed))
  authorized again closed (true, o) = again o

  abbrev pub request :
      (SocksState → Os → Handshaken) → ℕ → List ℕ → SocksState → List ℕ → Os → Handshaken
  request again fd closed ss_1_connected buf o =
      authorized (again ss_3_authed) closed (write_whole fd (5 ∷ 0 ∷ []) o)
  request again fd closed ss_2_need_auth buf o =
      authorized (again ss_3_authed) closed (write_whole fd (1 ∷ 0 ∷ []) o)
  request again fd closed ss_3_authed buf o = answer fd o (connect_socks_target buf closed)

  abbrev pub received :
      (SocksState → Os → Handshaken) → ℕ → List ℕ → SocksState → ReadResult × Os → Handshaken
  received again fd closed state (read_failed e, o) = some (ok (none, o, closed))
  received again fd closed state (got [], o) = some (ok (none, o, closed))
  received again fd closed state (got (b ∷ bs), o) = request again fd closed state (b ∷ bs) o

  -- `socks5_handshake`, from a state on.
  unfoldable pub socks5_handshake : ℕ → ℕ → List ℕ → SocksState → Os → Handshaken
  socks5_handshake zero fd closed state o = none
  socks5_handshake (suc fuel) fd closed state o =
      received (λ s o'. socks5_handshake fuel fd closed s o') fd closed state (read fd 1024 o)
