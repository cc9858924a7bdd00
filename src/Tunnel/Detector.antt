-- ===== src/Tunnel/Detector.antt =====
-- class MagicStringDetector of StdioTunnel.h and StdioTunnel.cpp: a SockBuffer that looks for two
-- patterns in what it reads from the pipe. A pattern is a list of bytes.
pub mod Laws
use tun.Prelude.{
  ℕ, zero, suc, ◌+◌, List, [], ◌∷◌, ◌++◌, Bool, true, false, not, Option, none, some, length,
  get_elem?, ltb, leb, ◌==◌, if◌then◌else◌,
}
use tun.Net.Result.{Result, ok, throw, undefined, ◌>>=◌}

pub record Detector : Type 0 where
  pub recognized_count : ℕ
  pub magic_string : List ℕ
  pub recognized_login_count : ℕ
  pub login_pattern : List ℕ
  pub remote_cmd : List ℕ

unfoldable pub set_login_pattern : List ℕ → Detector → Detector
set_login_pattern p d = record d { login_pattern = p }

unfoldable pub set_remote_cmd : List ℕ → Detector → Detector
set_remote_cmd c d = record d { remote_cmd = c }

-- `s[i]` of a std::string: at the length it is the NUL, beyond it is undefined.
unfoldable pub char_at : List ℕ → ℕ → Result ℕ
char_at [] zero = ok 0
char_at [] (suc i) = undefined
char_at (c ∷ s) zero = ok c
char_at (c ∷ s) (suc i) = char_at s i

-- What the detector asks of its tunnel.
pub data Signal : Type 0 where
  start_handshaking remote_init : Signal

-- The count of a pattern after one more byte, and whether that completes it.
unfoldable pub match_byte : List ℕ → ℕ → ℕ → Result (ℕ × Bool)
unfolding char_at
match_byte pattern count byte = do
  c ← char_at pattern count
  ok (if byte == c then (count + 1, leb (length pattern) (count + 1)) else (0, false))

-- The login pattern, once found, is not looked for again.
unfoldable pub match_login : ℕ → Detector → Result (Detector × Bool)
unfolding match_byte
match_login byte d =
    let n = d.recognized_login_count in
    if not (ltb n (length d.login_pattern))
    then ok (d, false)
    else if not (ltb 0 (length d.remote_cmd))
    then ok (record d { recognized_login_count = 0 }, false)
    else match_byte d.login_pattern n byte >>= λ (n', found).
        ok (record d { recognized_login_count = n' }, found)

abbrev pub Processed : Type 0
Processed = Result (Detector × List Signal)

abbrev pub after_login : (Detector → Processed) → Detector × Bool → Processed
after_login again (d, true) = again d >>= λ (d', signals). ok (d', remote_init ∷ signals)
after_login again (d, false) = again d

abbrev pub after_magic : (Detector → Processed) → Detector → ℕ → ℕ × Bool → Processed
after_magic again d byte (n, true) = ok (record d { recognized_count = n }, start_handshaking ∷ [])
after_magic again d byte (n, false) =
    match_login byte (record d { recognized_count = n }) >>= after_login again

-- `processReadData`: the bytes of one read, and the calls to the tunnel in their order. It
-- returns when the magic string is complete; the bytes themselves stay as they are.
unfoldable pub process_read_data : List ℕ → Detector → Processed
process_read_data [] d = ok (d, [])
process_read_data (byte ∷ rest) d =
    match_byte d.magic_string d.recognized_count byte
    >>= after_magic (process_read_data rest) d byte
