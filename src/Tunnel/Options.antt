-- ===== src/Tunnel/Options.antt =====
-- The command line: StdioTunnel::CreateTunnel and StdioTunnelLocal::configure of StdioTunnel.cpp,
-- with ConnectionSpec::bindStatus. An argument is a C string without its NUL.
pub mod Arguments
pub mod Configured
use tun.Prelude.{
  ℕ, ◌+◌, ◌-◌, ◌/◌, ◌%◌, ◌^◌, List, [], ◌∷◌, ◌++◌, Bool, true, false, Option, none, some, length,
  ltb, ◌==◌, ◌||◌, ◌&&◌, not, if◌then◌else◌, is_negative,
}
use tun.Net.Result.{
  Result, ok, throw, undefined, Errno, eaddrinuse, errno, unknown_option, only_version,
  already_in_background, no_connections, no_connection_command, two_socks5_specs, require, ◌>>=◌,
  ◌>>◌,
}
use tun.Tunnel.Spec.{ConnectionSpec, listen, connect, is_socks5}
use tun.Tunnel.Spec.Parse.{parse_connection}
use tun.Tunnel.Detector.{Detector, set_login_pattern, set_remote_cmd}
use tun.Tunnel.Detector.Laws.{magic_text}

-- An argument `-x…` is an option, with what follows the letter; `-` alone is none.
unfoldable pub option_of : List ℕ → Option (ℕ × List ℕ)
option_of [] = none
option_of (c ∷ []) = none
option_of (c ∷ x ∷ text) = if c == b'-' then some (x, text) else none

-- `arg[2] == 0`
abbrev pub ends : List ℕ → Bool
ends [] = true
ends (c ∷ text) = false

-- What CreateTunnel makes of an option letter.
pub data Choice : Type 0 where
  local_end remote_end print_trace print_version with_value only_command for_configure : Choice
  unknown : Choice

unfoldable pub choice : ℕ → Choice
choice x =
    if x == b'l'
    then local_end
    else if x == b'r'
    then remote_end
    else if x == b'D'
    then print_trace
    else if x == b'V'
    then print_version
    else if (x == b'L' || x == b'R') || (x == b'p' || x == b'c')
    then with_value
    else if x == b'-'
    then only_command
    else if (x == b'T' || x == b't') || (x == b'd' || x == b's')
    then for_configure
    else unknown

-- `traced` is what `Trace::setPrint` sets.
pub record Scan : Type 0 where
  pub local : Bool
  pub version : Bool
  pub traced : Bool

-- The loop of CreateTunnel. The flag is set when the next argument is the value of an option.
unfoldable pub scan : Bool → List (List ℕ) → Scan → Result Scan
unfolding option_of choice
scan skip [] a = ok a
scan true (arg ∷ rest) a = scan false rest a
scan false (arg ∷ rest) a = elim (option_of arg) [
  | none ↦ ok a
  | some o ↦ elim (choice o.0) [
    | local_end ↦ scan false rest (record a { local = true })
    | remote_end ↦ scan false rest (record a { local = false })
    | print_trace ↦ scan false rest (record a { traced = true })
    | print_version ↦ scan false rest (record a { version = true })
    | with_value ↦ scan (ends o.1) rest a
    | only_command ↦ ok a
    | for_configure ↦ scan false rest a
    | unknown ↦ throw unknown_option
  ]
]

-- What `configure` fills in; `command` is `m_command`, up to the null pointer that ends `argv`.
pub record Config : Type 0 where
  pub command : Option (List (List ℕ))
  pub force_pipe : Bool
  pub expects_pipe : Bool
  pub specs : List ConnectionSpec
  pub socks5_spec_count : ℕ
  pub detector : Detector
  pub daemon : Bool
  pub silent : Bool

-- How far a probe gets: socket(2) fails, bind(2) succeeds, bind(2) fails.
pub data Probe : Type 0 where
  no_probe : Errno → Probe
  bound : Probe
  not_bound : Errno → Probe

abbrev is_in_use : Errno → Bool
is_in_use eaddrinuse = true
is_in_use _ = false

-- What stands behind an option letter, or the next argument, which is then to be skipped.
unfoldable pub value_of : List ℕ → List (List ℕ) → List ℕ × Bool
value_of [] (next ∷ rest) = (next, true)
value_of text rest = (text, false)

-- What `configure` makes of an option letter.
pub data Setting : Type 0 where
  set_listen set_connect set_force_pipe set_expects_pipe set_daemon set_silent : Setting
  set_pattern set_cmd set_nothing : Setting

unfoldable pub setting : ℕ → Setting
setting x =
    if x == b'R'
    then set_listen
    else if x == b'L'
    then set_connect
    else if x == b'T'
    then set_force_pipe
    else if x == b't'
    then set_expects_pipe
    else if x == b'd'
    then set_daemon
    else if x == b's'
    then set_silent
    else if x == b'p'
    then set_pattern
    else if x == b'c'
    then set_cmd
    else set_nothing

-- The options that advance `i` when their value is the next argument.
unfoldable pub takes_value : Setting → Bool
takes_value set_listen = true
takes_value set_connect = true
takes_value set_pattern = true
takes_value set_cmd = true
takes_value _ = false

-- `m_command` points to an argument.
abbrev pub has_command : Option (List (List ℕ)) → Bool
has_command none = false
has_command (some []) = false
has_command (some (arg ∷ rest)) = true

-- The constructors of StdioTunnelLocal and MagicStringDetector.
unfoldable pub new_config : Config
new_config = record {
  command = none;
  force_pipe = false;
  expects_pipe = false;
  specs = [];
  socks5_spec_count = 0;
  detector = record {
    recognized_count = 0;
    magic_string = magic_text;
    recognized_login_count = 0;
    login_pattern = [];
    remote_cmd = [];
  };
  daemon = false;
  silent = false;
}

-- The three checks at the end of `configure`.
unfoldable pub checked_config : Config → Result Config
checked_config a = do
  require (not (length a.specs == 0)) no_connections
  require (has_command a.command) no_connection_command
  require (not (ltb 1 a.socks5_spec_count)) two_socks5_specs
  ok a

-- socket(2) and bind(2) at any address or at the loopback, and a port.
module _ (bind : Bool → ℕ → Probe) where
  status_of : Probe → ℕ × Option Errno
  status_of (no_probe e) = (2 ^ 32 - 1, some e)
  status_of bound = (0, none)
  status_of (not_bound e) = (if is_in_use e then 1 else 2 ^ 32 - 1, some e)

  -- `bindStatus`, with the `errno` that it leaves.
  unfoldable pub bind_status : ConnectionSpec → ℕ × Option Errno
  unfolding status_of
  bind_status s = status_of (bind (s.flags / 2 % 2 == 1) (s.listen_port % 2 ^ 16))

  checked : ℕ × Option Errno → Result (Unit {0})
  checked (status, none) = ok tt
  checked (status, some e) =
      if is_negative status
      then throw (errno e)
      else (if status == 1 then throw already_in_background else ok tt)

  -- A spec of -L; only an -s before it has its port tried.
  unfoldable pub add_connect : List ℕ → Config → Result Config
  unfolding bind_status checked
  add_connect text a = do
    s ← parse_connection connect text
    if a.silent then checked (bind_status s) else ok tt
    ok (record a {
      specs = a.specs ++ s ∷ [];
      socks5_spec_count = a.socks5_spec_count + (if is_socks5 s then 1 else 0);
    })

  unfoldable pub add_listen : List ℕ → Config → Result Config
  add_listen text a = do
    s ← parse_connection listen text
    ok (record a { specs = a.specs ++ s ∷ [] })

  -- One option of `configure`; those of CreateTunnel alone do nothing here.
  unfoldable pub configure_one : Setting → List ℕ → Config → Result Config
  unfolding add_connect add_listen
  configure_one set_listen value a = add_listen value a
  configure_one set_connect value a = add_connect value a
  configure_one set_force_pipe value a = ok (record a { force_pipe = true })
  configure_one set_expects_pipe value a = ok (record a { expects_pipe = true })
  configure_one set_daemon value a = ok (record a { daemon = true })
  configure_one set_silent value a = ok (record a { silent = true })
  configure_one set_pattern value a =
      ok (record a { detector = set_login_pattern value a.detector })
  configure_one set_cmd value a = ok (record a { detector = set_remote_cmd value a.detector })
  configure_one set_nothing value a = ok a

  -- The loop of `configure`. The flag is set when the next argument is the value of an option.
  unfoldable pub configure_args : Bool → List (List ℕ) → Config → Result Config
  unfolding option_of setting configure_one value_of
  configure_args skip [] a = ok a
  configure_args true (arg ∷ rest) a = configure_args false rest a
  configure_args false (arg ∷ rest) a = elim (option_of arg) [
    | none ↦ ok (record a { command = some (arg ∷ rest) })
    | some o ↦ elim (o.0 == b'-') [
      | true ↦ ok (record a { command = some rest })
      | false ↦
          let v = value_of o.1 rest in
          configure_one (setting o.0) v.0 a
          >>= configure_args (takes_value (setting o.0) && v.1) rest
    ]
  ]

  -- `configure` of a StdioTunnelLocal.
  unfoldable pub configure : List (List ℕ) → Config → Result Config
  unfolding checked_config
  configure args a = configure_args false args a >>= checked_config

  -- `CreateTunnel`, with the arguments behind the program's name: a remote end, or a local one.
  unfoldable pub create_tunnel : List (List ℕ) → Result (Option Config)
  unfolding scan configure
  create_tunnel args = do
    a ← scan false args (record { local = true; version = false; traced = false })
    require (not (a.version && length args == 1)) only_version
    if a.local then (do c ← configure args new_config; ok (some c)) else ok none
