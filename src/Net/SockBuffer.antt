-- ===== src/Net/SockBuffer.antt =====
-- com/antlersoft/net/SockBuffer.h and SockBuffer.cpp: bytes on their way from one descriptor to
-- another. `readData` takes all that is there, `writeData` writes at most one block of 4096.
pub mod Order
use tun.Prelude.{
  ℕ, zero, suc, ◌+◌, List, [], ◌++◌, Bool, true, false, not, ◌||◌, Option, none, some, length, take,
  drop, ◌==◌, if◌then◌else◌,
}
use tun.Net.Result.{
  Result, ok, throw, undefined, errno, Errno, eagain, ehostunreach, econnreset, ◌>>=◌,
}
use tun.Net.Kernel.{Kernel, ReadResult, got, read_failed, WriteResult, wrote, write_failed}

abbrev pub buffer_size : ℕ
buffer_size = 4096

-- `output` is `m_output_buf` from `m_output_position` on, up to BUFFER_SIZE.
pub record SockBuffer : Type 0 where
  pub queue : List ℕ
  pub output : List ℕ

unfoldable pub fresh : SockBuffer
fresh = record { queue = []; output = [] }

unfoldable pub push_on_buffer : List ℕ → SockBuffer → SockBuffer
push_on_buffer bytes b = record b { queue = b.queue ++ bytes }

unfoldable pub unsent_data : SockBuffer → Bool
unsent_data b = not (length b.output == 0) || not (length b.queue == 0)

unfoldable pub clear : SockBuffer → SockBuffer
clear b = record { queue = []; output = [] }

-- The queue alone, with its length.
unfoldable pub get_copy_of_buffer : SockBuffer → List ℕ × ℕ
get_copy_of_buffer b = (b.queue, length b.queue)

-- An empty output block is filled from the queue.
unfoldable pub refill : SockBuffer → SockBuffer
refill b =
    if length b.output == 0
    then record { queue = drop buffer_size b.queue; output = take buffer_size b.queue }
    else b

module _ (k : Kernel) where
  open k use {Os, read, write}

  wrote_data : SockBuffer → WriteResult × Os → Result (ℕ × SockBuffer × Os)
  wrote_data b (write_failed e, o) = throw (errno e)
  wrote_data b (wrote n, o) = ok (n, record b { output = drop n b.output }, o)

  unfoldable pub write_data : ℕ → SockBuffer → Os → Result (ℕ × SockBuffer × Os)
  unfolding wrote_data
  write_data fd b o = let b' = refill b in wrote_data b' (write fd b'.output o)

  -- Some errors count as nothing read.
  unfoldable pub soft_read : ReadResult × Os → Result (List ℕ × Os)
  soft_read (got bs, o) = ok (bs, o)
  soft_read (read_failed eagain, o) = ok ([], o)
  soft_read (read_failed ehostunreach, o) = ok ([], o)
  soft_read (read_failed econnreset, o) = ok ([], o)
  soft_read (read_failed e, o) = throw (errno e)

  -- `processReadData` is virtual: `process` is what it does to the state `H` of the owner.
  module _ {H : Type 0} (process : List ℕ → H → Result H) where
    abbrev pub Round : Type 0
    Round = List ℕ × SockBuffer × H × Os

    -- One round of the loop of `readData`.
    unfoldable pub read_round : ℕ → SockBuffer → H → Os → Result Round
    unfolding soft_read
    read_round fd b h o = do
      (bs, o') ← soft_read (read fd buffer_size o)
      h' ← process bs h
      ok (bs, push_on_buffer bs b, h', o')

    abbrev pub Total : Type 0
    Total = Option (Result (ℕ × SockBuffer × H × Os))

    abbrev pub next_round :
        (ℕ → SockBuffer → H → Os → Total) → ℕ → SockBuffer → H → Os → Bool → Total
    next_round again total b h o true = again total b h o
    next_round again total b h o false = some (ok (total, b, h, o))

    -- Another round if the read filled the buffer.
    abbrev pub after_round : (ℕ → SockBuffer → H → Os → Total) → ℕ → Result Round → Total
    after_round again total (throw e) = some (throw e)
    after_round again total undefined = some undefined
    after_round again total (ok (bs, b', h', o')) =
        next_round again (total + length bs) b' h' o' (length bs == buffer_size)

    -- The loop; `none` means that the fuel ran out.
    unfoldable pub read_data : ℕ → ℕ → ℕ → SockBuffer → H → Os → Total
    read_data zero fd total b h o = none
    read_data (suc fuel) fd total b h o =
        after_round (read_data fuel fd) total (read_round fd b h o)
