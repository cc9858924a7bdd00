-- ===== src/Tunnel/Socks/Requests.antt =====
-- The requests that a client writes.
use tun.Prelude.{
  ℕ, zero, suc, ◌+◌, ◌-◌, ◌*◌, ◌/◌, ◌%◌, ◌<◌, ◌≡◌, ◌≢◌, refl, List, [], ◌∷◌, ◌++◌, false, Option,
  length, arith, leb, All, ◌==◌, to_short, le→leb, le→ltb, length-append, take-append, ap,
}
use tun.Net.Result.{ok}
use tun.Tunnel.Socks.{
  target, byte_at, slice, c_string, with_port, named_target, address_target, request_target,
  socks_target,
}

-- CONNECT to a name, as RFC 1928 has it.
abbrev pub name_request : List ℕ → ℕ → List ℕ
name_request name port = 5 ∷ 1 ∷ 0 ∷ 3 ∷ length name ∷ (name ++ (port / 256) ∷ (port % 256) ∷ [])

byte_at-append :
    (xs : List ℕ) (i j : ℕ) (ys : List ℕ) → j ≡ length xs + i → byte_at (xs ++ ys) j ≡ byte_at ys i
unfolding byte_at
byte_at-append [] i j ys e = ap (byte_at ys) (omega arith)
byte_at-append (x ∷ xs) i zero ys e = absurd (omega arith)
byte_at-append (x ∷ xs) i (suc j) ys e = byte_at-append xs i j ys (omega arith)

c_string-id : (xs : List ℕ) → All (λ c. c ≢ 0) xs → c_string xs ≡ xs
unfolding c_string
c_string-id [] h = refl
c_string-id (x ∷ xs) h =
    let e : (x == 0) ≡ false = ground (arith, h.0) in rw (e, c_string-id xs h.1) refl

lt→leb : (n : ℕ) → n < 256 → leb 256 n ≡ false
lt→leb n h = ground arith

with_port-request :
    (name found : List ℕ) (port : ℕ)
    → port < 65536
    → with_port (name_request name port) (4 + 2 + length name + 1) found ≡ ok (target found port)
unfolding with_port byte_at
with_port-request name found port h =
    let front = 5 ∷ 1 ∷ 0 ∷ 3 ∷ length name ∷ name in
    let two = (port / 256) ∷ (port % 256) ∷ [] in
    let p : to_short (port / 256 * 256 + port % 256) ≡ port = omega arith in
    rw
      (
        byte_at-append front 0 (4 + 2 + length name + 1 - 2) two (omega arith),
        byte_at-append front 1 (4 + 2 + length name + 1 - 1) two (omega arith),
        p,
      )
      refl

module _ (inet_ntop : List ℕ → Option (List ℕ)) where
  -- connect_socks_target finds in a request the name and the port that were asked for, if the name
  -- has less than 256 characters, none of them NUL, and the port is below 65536.
  pub socks_target-name_request :
      (name : List ℕ) (port : ℕ)
      → All (λ c. c ≢ 0) name
      → length name < 256
      → port < 65536
      → socks_target inet_ntop (name_request name port) ≡ ok (target name port)
  unfolding socks_target request_target address_target named_target slice byte_at
  socks_target-name_request name port h n p =
      let two = (port / 256) ∷ (port % 256) ∷ [] in
      let l : length (name ++ two) ≡ length name + 2 = length-append name two in
      rw
        (
          le→ltb (length (name_request name port)) 5 (omega arith),
          le→ltb (length (name_request name port)) (4 + 2 + length name + 1) (omega arith),
          lt→leb (length name) n,
          le→leb (5 + length name) (length (name_request name port)) (omega arith),
          take-append name two,
          c_string-id name h,
        )
        (with_port-request name name port p)
