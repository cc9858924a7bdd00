-- ===== src/Net/WriteStream.antt =====
-- com/antlersoft/net/WriteStream.h and WriteStream.cpp: messages are collected in a queue, `send`
-- turns the queue into a packet with its length in front, and `empty` writes packets out.
use tun.Prelude.{
  ℕ, ◌+◌, ◌-◌, ◌/◌, ◌%◌, List, [], ◌∷◌, ◌++◌, Bool, false, ◌&&◌, length, take, drop, ltb, ◌==◌,
  if◌then◌else◌, to_short, be32, not,
}
pub mod Packets
use tun.Net.Result.{Result, ok, throw, undefined, errno, ◌>>=◌}
use tun.Net.Kernel.{Kernel, Events, WriteResult, wrote, write_failed}

-- `m_size` is the length of `buf`.
pub record WritePacket : Type 0 where
  pub buf : List ℕ
  pub written : ℕ

pub record WriteStream : Type 0 where
  pub queue : List ℕ
  pub packet_queue : List WritePacket

unfoldable pub fresh : WriteStream
fresh = record { queue = []; packet_queue = [] }

-- The eight bytes that the constructor's `size_t` store puts at `m_buf`, on a 64-bit
-- little-endian machine.
unfoldable pub length_store : List ℕ → List ℕ
length_store queue = be32 (length queue) ++ (0 ∷ 0 ∷ 0 ∷ 0 ∷ [])

-- How many of them lie past the end of the block of `queue.size() + 4` bytes.
unfoldable pub length_overrun : List ℕ → ℕ
unfolding length_store
length_overrun queue = length (length_store queue) - (length queue + 4)

-- The payload is copied over the upper half of that store. A store past the block is undefined.
unfoldable pub write_packet : List ℕ → Result WritePacket
unfolding length_store length_overrun
write_packet queue =
    if length_overrun queue == 0
    then ok (record { buf = take 4 (length_store queue) ++ queue; written = 0 })
    else undefined

unfoldable pub write_short : ℕ → WriteStream → WriteStream
write_short x w = let s = to_short x in record w { queue = w.queue ++ (s / 256) ∷ (s % 256) ∷ [] }

-- `htonl` takes the low 32 bits of a `long`.
unfoldable pub write_long : ℕ → WriteStream → WriteStream
write_long x w = record w { queue = w.queue ++ be32 x }

unfoldable pub write_string : List ℕ → WriteStream → WriteStream
unfolding write_long
write_string message w =
    let w' = write_long (length message) w in record w' { queue = w'.queue ++ message }

unfoldable pub write_bytes : List ℕ → WriteStream → WriteStream
write_bytes bytes w = record w { queue = w.queue ++ bytes }

unfoldable pub send : WriteStream → Result WriteStream
unfolding write_packet
send w =
    if ltb 0 (length w.queue)
    then (write_packet w.queue >>= λ p.
        ok (record { queue = []; packet_queue = w.packet_queue ++ p ∷ [] }))
    else ok w

unfoldable pub pending_write : WriteStream → Bool
pending_write w = ltb 0 (length w.packet_queue)

module _ (k : Kernel) where
  open k use {Os, write}

  wrote_packet : WritePacket → WriteResult × Os → Result (Bool × WritePacket × Os)
  wrote_packet p (write_failed e, o) = throw (errno e)
  wrote_packet p (wrote n, o) =
      ok ((p.written + n) == length p.buf, record p { written = p.written + n }, o)

  -- True when the whole packet is out.
  unfoldable pub send_packet : ℕ → WritePacket → Os → Result (Bool × WritePacket × Os)
  unfolding wrote_packet
  send_packet fd p o = wrote_packet p (write fd (drop p.written p.buf) o)

  empty_front : ℕ → WritePacket → List WritePacket → List ℕ → Os → Result (WriteStream × Os)
  empty_front fd front rest queue o = do
    (done, front', o') ← send_packet fd front o
    ok (record { queue = queue; packet_queue = if done then rest else front' ∷ rest }, o')

  empty_packets : ℕ → WriteStream → List WritePacket → Os → Result (WriteStream × Os)
  unfolding empty_front
  empty_packets fd w [] o = ok (w, o)
  empty_packets fd w (front ∷ rest) o = empty_front fd front rest w.queue o

  -- Returns the stream, the `events` of the pollfd and the system.
  unfoldable pub empty : ℕ → Events → Events → WriteStream → Os → Result (WriteStream × Events × Os)
  unfolding empty_packets
  empty fd revents events w o = do
    (w', o') ← if revents.pollout then empty_packets fd w w.packet_queue o else ok (w, o)
    ok (
      w',
      if revents.pollout && pending_write w && not (pending_write w')
          then record events { pollout = false }
          else events,
      o',
    )
