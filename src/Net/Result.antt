-- ===== src/Net/Result.antt =====
-- How a C++ function of the program ends: it returns, it throws, or its behaviour is undefined.
use tun.Prelude.{◌≡◌, refl, ℕ, Bool, true, false}

-- The values of `errno` that the code tells apart.
pub data Errno : Type 0 where
  eagain ehostunreach econnreset eintr eaddrinuse : Errno
  other_errno : ℕ → Errno

-- One constructor for each place that throws; `errno` is MY_EXCEPTION_ERRNO.
pub data Error : Type 0 where
  errno : Errno → Error
  end_of_file bad_read_length : Error
  starting_while_finished : Error
  bad_connection_argument bad_listen_port bad_connect_port bad_connect_host_or_port : Error
  socks5_on_remote_side_only : Error
  uninitialized_write_stream bad_receive_length link_not_found : Error
  second_socks5 socks5_failed bad_state stdin_closed bad_poll : Error
  unexpected_handshake_command unexpected_command : Error
  read_side_closed unexpected_revents read_pipe_closed write_pipe_closed run_in_daemon : Error
  unknown_option only_version already_in_background no_connections no_connection_command : Error
  two_socks5_specs : Error

-- `undefined` is a read or a write out of bounds, or of a dead object.
pub data Result {ℓ} (A : Type ℓ) : Type ℓ where
  ok : A → Result A
  throw : Error → Result A
  undefined : Result A

infixl 5 ◌>>=◌ ◌>>◌
abbrev pub ◌>>=◌ {ℓ κ} : {A : Type ℓ} {B : Type κ} → Result A → (A → Result B) → Result B
ok a >>= f = f a
throw e >>= f = throw e
undefined >>= f = undefined

abbrev pub ◌>>◌ {ℓ} : {B : Type ℓ} → Result (Unit {0}) → Result B → Result B
m >> n = m >>= λ _. n

pub bind_assoc {ℓ κ μ} :
    {A : Type ℓ} {B : Type κ} {C : Type μ} (m : Result A) (f : A → Result B) (g : B → Result C)
    → m >>= f >>= g ≡ m >>= λ a. f a >>= g
bind_assoc (ok a) f g = refl
bind_assoc (throw e) f g = refl
bind_assoc undefined f g = refl

pub bind_cong {ℓ κ} :
    {A : Type ℓ} {B : Type κ} (m : Result A) {f g : A → Result B}
    → ((a : A) → f a ≡ g a)
    → m >>= f ≡ m >>= g
bind_cong (ok a) h = h a
bind_cong (throw e) h = refl
bind_cong undefined h = refl

-- `if (!holds) throw e;`
abbrev pub require : Bool → Error → Result (Unit {0})
require true e = ok tt
require false e = throw e
