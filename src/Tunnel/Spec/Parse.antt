-- ===== src/Tunnel/Spec/Parse.antt =====
-- parseConnection of StdioTunnel.cpp: a connection spec from its command line form.
pub mod Laws
use tun.Prelude.{
  ℕ, ◌+◌, ◌-◌, ◌*◌, ◌^◌, List, [], ◌∷◌, ◌++◌, Bool, true, false, not, ◌&&◌, ◌||◌, length, ltb, leb,
  ◌==◌, if◌then◌else◌, is_negative,
}
use tun.Net.Result.{
  Result, ok, throw, undefined, Error, bad_connection_argument, bad_listen_port, bad_connect_port,
  bad_connect_host_or_port, socks5_on_remote_side_only, require, ◌>>=◌, ◌>>◌,
}
use tun.Tunnel.Spec.{ConnectionSpec, connect, is_socks5}

-- `getline(input, t, ':')` until it extracts nothing: `field` is what was read of the next part.
-- A last part that is empty is not seen.
unfoldable pub split_fields : List ℕ → List ℕ → List (List ℕ)
split_fields [] [] = []
split_fields [] (c ∷ field) = (c ∷ field) ∷ []
split_fields (c ∷ cs) field = elim (c == b':') [
  | true ↦ field ∷ split_fields cs []
  | false ↦ split_fields cs (field ++ c ∷ [])
]

is_space : ℕ → Bool
is_space c = c == 32 || (leb 9 c && leb c 13)

is_digit : ℕ → Bool
is_digit c = leb b'0' c && leb c b'9'

skip_spaces : List ℕ → List ℕ
unfolding is_space
skip_spaces [] = []
skip_spaces (c ∷ cs) = if is_space c then skip_spaces cs else c ∷ cs

digits_value : ℕ → List ℕ → ℕ
unfolding is_digit
digits_value acc [] = acc
digits_value acc (c ∷ cs) = if is_digit c then digits_value (acc * 10 + (c - b'0')) cs else acc

to_result : Bool → ℕ → Result ℕ
to_result negative v =
    if negative
    then (if leb v (2 ^ 31) then ok (if v == 0 then 0 else 2 ^ 32 - v) else undefined)
    else (if ltb v (2 ^ 31) then ok v else undefined)

signed_value : List ℕ → Result ℕ
unfolding to_result digits_value
signed_value [] = ok 0
signed_value (c ∷ cs) =
    if c == b'-'
    then to_result true (digits_value 0 cs)
    else if c == b'+'
    then to_result false (digits_value 0 cs)
    else to_result false (digits_value 0 (c ∷ cs))

-- The C library's `atoi`; a value that is no int is undefined behaviour.
unfoldable pub atoi : List ℕ → Result ℕ
unfolding signed_value skip_spaces
atoi s = signed_value (skip_spaces s)

-- `s.find(c) != string::npos`
unfoldable pub contains : ℕ → List ℕ → Bool
contains c [] = false
contains c (x ∷ xs) = x == c || contains c xs

-- The flags that the options name; without options there are none.
unfoldable pub option_flags : List ℕ → ℕ
unfolding contains
option_flags options =
    (if contains b'a' options then 1 else 0) + (if contains b'p' options then 2 else 0)

unfoldable pub parse_spec : ℕ → List ℕ → List ℕ → List ℕ → List ℕ → Result ConnectionSpec
unfolding option_flags
parse_spec direction listen_text host connect_text options = do
  listen_port ← atoi listen_text
  require (not (is_negative listen_port) && not (listen_port == 0)) bad_listen_port
  connect_port ← atoi connect_text
  require (not (is_negative connect_port)) bad_connect_port
  require
      (not (
        (length host == 0 && not (connect_port == 0))
        && (ltb 0 (length host) && connect_port == 0)))
      bad_connect_host_or_port
  let result : ConnectionSpec = record {
    connection_type = direction;
    connect_host = host;
    connect_port = connect_port;
    listen_port = listen_port;
    flags = option_flags options;
  }
  require (not (is_socks5 result && not (direction == connect))) socks5_on_remote_side_only
  ok result

parse_fields : ℕ → List (List ℕ) → Result ConnectionSpec
parse_fields direction (listen_text ∷ host ∷ connect_text ∷ []) =
    parse_spec direction listen_text host connect_text []
parse_fields direction (listen_text ∷ host ∷ connect_text ∷ options ∷ []) =
    parse_spec direction listen_text host connect_text options
parse_fields direction _ = throw bad_connection_argument

-- `arg` is a C string without its NUL.
unfoldable pub parse_connection : ℕ → List ℕ → Result ConnectionSpec
unfolding parse_fields
parse_connection direction arg = parse_fields direction (split_fields arg [])
