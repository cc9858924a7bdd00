-- ===== src/Net/ReadStream.antt =====
-- com/antlersoft/net/ReadStream.h and ReadStream.cpp: `fill` collects one packet over any number
-- of reads and appends its payload to a queue. The functions that take values from the queue are
-- in ReadStream/Values.
pub mod Values
pub mod Frames
pub mod Failures
pub mod Delivery
use tun.Prelude.{
  ℕ, ◌+◌, List, [], ◌∷◌, ◌++◌, Bool, length, drop, ltb, leb, ◌==◌, if◌then◌else◌, of_be32, sub_size,
}
use tun.Net.Result.{
  Result, ok, throw, undefined, errno, end_of_file, bad_read_length, Errno, eagain, ehostunreach,
  econnreset, eintr, eaddrinuse, other_errno, ◌>>=◌,
}
use tun.Net.Kernel.{Kernel, Events, ReadResult, got, read_failed}

-- `read_buf` is the first `m_read_count` bytes of `m_read_buf`; later ones are never used.
pub record ReadStream : Type 0 where
  pub queue : List ℕ
  pub read_buf : List ℕ
  pub read_size : ℕ

unfoldable pub fresh : ReadStream
fresh = record { queue = []; read_buf = []; read_size = 4096 }

unfoldable pub available : ReadStream → Bool
available r = ltb 0 (length r.queue)

-- `ntohl(*reinterpret_cast<long*>(m_read_buf))`: of the eight bytes read, the first four count.
unfoldable pub load_length : List ℕ → Result ℕ
load_length (a ∷ b ∷ c ∷ d ∷ _) = ok (of_be32 a b c d)
load_length _ = undefined

-- The buffer is made large enough for the packet.
unfoldable pub grow : ℕ → ReadStream → ReadStream
grow length' r = record r {
  read_size = if ltb r.read_size (length' + 4) then length' + 4 else r.read_size;
}

-- A whole packet goes to the queue, without its length.
unfoldable pub finish : ℕ → ReadStream → ReadStream
finish length' r =
    if length r.read_buf == (length' + 4)
    then record r { queue = r.queue ++ drop 4 r.read_buf; read_buf = [] }
    else r

module _ (k : Kernel) where
  open k use {Os, read}

  abbrev pub Filled : Type 0
  Filled = Result (ReadStream × Os)

  -- `read(fd, m_read_buf + m_read_count, count)`, which must stay inside the buffer.
  unfoldable pub read_into : ℕ → ℕ → ReadStream → (ReadResult × Os → Filled) → Os → Filled
  read_into fd count r next o =
      if leb (length r.read_buf + count) r.read_size then next (read fd count o) else undefined

  unfoldable pub got_header : ReadStream → ReadResult × Os → Filled
  got_header r (read_failed e, o) = throw (errno e)
  got_header r (got [], o) = throw end_of_file
  got_header r (got (b ∷ bs), o) = ok (record r { read_buf = r.read_buf ++ b ∷ bs }, o)

  unfoldable pub got_body : ℕ → ReadStream → ReadResult × Os → Filled
  got_body length' r (read_failed eagain, o) = ok (finish length' r, o)
  got_body length' r (read_failed e, o) = throw (errno e)
  got_body length' r (got bs, o) = ok (finish length' (record r { read_buf = r.read_buf ++ bs }), o)

  unfoldable pub fill_header : ℕ → ReadStream → Os → Filled
  unfolding read_into got_header
  fill_header fd r o =
      if ltb (length r.read_buf) 4
      then read_into fd (sub_size 4 (length r.read_buf)) r (got_header r) o
      else ok (r, o)

  unfoldable pub fill_rest : ℕ → ReadStream → Os → ℕ → Filled
  unfolding read_into got_body grow
  fill_rest fd r o length' =
      let r' = grow length' r in
      if ltb 50000000 length'
      then throw bad_read_length
      else read_into fd (sub_size (length' + 4) (length r'.read_buf)) r' (got_body length' r') o

  unfoldable pub fill_body : ℕ → ReadStream → Os → Filled
  unfolding fill_rest load_length
  fill_body fd r o = load_length r.read_buf >>= fill_rest fd r o

  fill_after : ℕ → ReadStream × Os → Filled
  fill_after fd (r, o) = if ltb (length r.read_buf) 4 then ok (r, o) else fill_body fd r o

  unfoldable pub fill : ℕ → Events → ReadStream → Os → Filled
  unfolding fill_after
  fill fd revents r o = if revents.pollin then fill_header fd r o >>= fill_after fd else ok (r, o)
