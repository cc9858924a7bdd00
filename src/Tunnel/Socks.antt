-- ===== src/Tunnel/Socks.antt =====
-- connect_socks_target of StdioTunnel.cpp, up to the name and the port that it connects to: the
-- CONNECT request of a SOCKS5 client. `buf` is the bytes received; the rest of the C++ array is
-- not initialised.
pub mod Bounds
pub mod Requests
pub mod Handshake
pub mod Relay
pub mod Client
pub mod Threads
use tun.Prelude.{
  ℕ, zero, suc, ◌+◌, ◌*◌, ◌-◌, List, [], ◌∷◌, Bool, true, false, not, Option, none, some, length,
  take, drop, ltb, leb, ◌==◌, to_short, if◌then◌else◌,
}
use tun.Net.Result.{Result, ok, throw, undefined, ◌>>=◌}

-- `enum errorcode`
abbrev pub ec_general_failure : ℕ
ec_general_failure = 1

abbrev pub ec_command_not_supported : ℕ
ec_command_not_supported = 7

abbrev pub ec_addresstype_not_supported : ℕ
ec_addresstype_not_supported = 8

abbrev pub namebuf_size : ℕ
namebuf_size = 256

-- What a request asks for: an error code, or the characters in `namebuf` and the port.
pub data Target : Type 0 where
  refused : ℕ → Target
  target : List ℕ → ℕ → Target

-- `buf[i]`
unfoldable pub byte_at : List ℕ → ℕ → Result ℕ
byte_at [] i = undefined
byte_at (b ∷ bs) zero = ok b
byte_at (b ∷ bs) (suc i) = byte_at bs i

-- The `l` bytes at `buf + i`.
unfoldable pub slice : List ℕ → ℕ → ℕ → Result (List ℕ)
slice buf i l = if leb (i + l) (length buf) then ok (take l (drop i buf)) else undefined

-- A C string: what stands before the first NUL.
unfoldable pub c_string : List ℕ → List ℕ
c_string [] = []
c_string (c ∷ cs) = let rest = c_string cs in if c == 0 then [] else c ∷ rest

-- The port is the last two bytes of the request.
unfoldable pub with_port : List ℕ → ℕ → List ℕ → Result Target
unfolding byte_at
with_port buf minlen name = do
  high ← byte_at buf (minlen - 2)
  low ← byte_at buf (minlen - 1)
  ok (target name (to_short (high * 256 + low)))

-- inet_ntop(3) on the bytes of an address; `none` is a failure.
module _ (inet_ntop : List ℕ → Option (List ℕ)) where
  numeric_name : List ℕ → ℕ → Option (List ℕ) → Result Target
  unfolding with_port
  numeric_name buf minlen none = ok (refused ec_general_failure)
  numeric_name buf minlen (some name) = with_port buf minlen name

  unfoldable pub numeric_target : List ℕ → ℕ → ℕ → Result Target
  unfolding numeric_name slice
  numeric_target buf minlen size =
      if ltb (length buf) minlen
      then ok (refused ec_general_failure)
      else slice buf 4 size >>= λ address. numeric_name buf minlen (inet_ntop address)

  -- `namebuf[l] = 0` must stay inside the array.
  unfoldable pub named_target : List ℕ → ℕ → Result Target
  unfolding with_port slice
  named_target buf l =
      if ltb (length buf) (4 + 2 + l + 1)
      then ok (refused ec_general_failure)
      else if leb namebuf_size l
      then undefined
      else slice buf 5 l >>= λ name. with_port buf (4 + 2 + l + 1) (c_string name)

  unfoldable pub address_target : List ℕ → ℕ → Result Target
  unfolding numeric_target named_target byte_at
  address_target buf kind =
      if kind == 4
      then numeric_target buf 22 16
      else if kind == 1
      then numeric_target buf 10 4
      else if kind == 3
      then byte_at buf 4 >>= named_target buf
      else ok (refused ec_addresstype_not_supported)

  unfoldable pub request_target : List ℕ → ℕ → ℕ → ℕ → Result Target
  unfolding address_target byte_at
  request_target buf version command reserved =
      if not (version == 5)
      then ok (refused ec_general_failure)
      else if not (command == 1)
      then ok (refused ec_command_not_supported)
      else if not (reserved == 0)
      then ok (refused ec_general_failure)
      else byte_at buf 3 >>= address_target buf

  unfoldable pub socks_target : List ℕ → Result Target
  unfolding request_target byte_at
  socks_target buf = if ltb (length buf) 5 then ok (refused ec_general_failure) else (do
    version ← byte_at buf 0
    command ← byte_at buf 1
    reserved ← byte_at buf 2
    request_target buf version command reserved)
