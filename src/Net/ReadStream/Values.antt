-- ===== src/Net/ReadStream/Values.antt =====
-- ReadStream::readShort, readLong, readString and readBytes: values taken off the queue.
pub mod Laws
use tun.Prelude.{
  ℕ, ◌+◌, ◌*◌, List, [], ◌∷◌, length, take, drop, leb, if◌then◌else◌, of_be32, is_negative,
}
use tun.Net.Result.{Result, ok, throw, undefined}
use tun.Net.ReadStream.{ReadStream}

-- A function that reads from the stream.
abbrev pub Reader : Type 0 → Type 0
Reader A = ReadStream → Result (A × ReadStream)

abbrev pub pure : {A : Type 0} → A → Reader A
pure a r = ok (a, r)

infixl 5 ◌>>=◌ ◌>>◌
abbrev pub ◌>>=◌ : {A B : Type 0} → Reader A → (A → Reader B) → Reader B
◌>>=◌ m f r = elim (m r) [ ok (a, r') ↦ f a r' | throw e ↦ throw e | undefined ↦ undefined ]

abbrev pub ◌>>◌ : {B : Type 0} → Reader (Unit {0}) → Reader B → Reader B
m >> n = m >>= λ _. n

front_byte : List ℕ → Reader ℕ
front_byte [] r = undefined
front_byte (b ∷ rest) r = ok (b, record r { queue = rest })

-- `front()` and `pop_front()` of the deque, which may not be empty.
unfoldable pub read_byte : Reader ℕ
unfolding front_byte
read_byte r = front_byte r.queue r

unfoldable pub read_short : Reader ℕ
unfolding read_byte
read_short = do x ← read_byte; y ← read_byte; pure (x * 256 + y)

-- On a 64-bit little-endian machine; `ntohl` uses the four bytes that are set.
unfoldable pub read_long : Reader ℕ
unfolding read_byte
read_long = do a ← read_byte; b ← read_byte; c ← read_byte; d ← read_byte; pure (of_be32 a b c d)

-- The first `n` bytes of the queue are copied out and erased; there must be as many.
unfoldable pub read_count : ℕ → Reader (List ℕ)
read_count n r =
    if leb n (length r.queue)
    then ok (take n r.queue, record r { queue = drop n r.queue })
    else undefined

unfoldable pub read_string : Reader (List ℕ)
unfolding read_long read_count
read_string = do n ← read_long; read_count n

-- `length` is an int: a negative one makes an invalid range.
unfoldable pub read_bytes : ℕ → Reader (List ℕ)
unfolding read_count
read_bytes n r = if is_negative n then undefined else read_count n r
