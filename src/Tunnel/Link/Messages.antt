-- ===== src/Tunnel/Link/Messages.antt =====
-- The bytes of the messages about links, and how they are read back.
use tun.Prelude.{
  ℕ, ◌<◌, ◌≤◌, ◌≡◌, refl, sym, subst, length-append, some, none, List, [], ◌++◌, append_assoc, true,
  false, length, arith, ltb, to_short, to_int, is_negative, ◌||◌, not, if◌then◌else◌,
}
use tun.Net.Result.{ok, throw, undefined, uninitialized_write_stream, ◌>>=◌}
use tun.Net.WriteStream.{WriteStream, write_short, write_bytes}
use tun.Net.WriteStream.Packets.{packed}
use tun.Net.WriteStream.Packets
use tun.Net.ReadStream.Values.{Reader}
use tun.Net.ReadStream.Values.Laws.{Reads, holding, short_bytes, read_short-bytes, read_bytes-bytes}
use tun.Net.SockBuffer.{push_on_buffer}
use tun.Net.Poller.{set_events}
use tun.Tunnel.Link.{
  ConnectionLink, Shared, reading, receive_data, wants, write_header, write_data_message,
  cmd_connection, send_command, send,
}

-- Bytes that stand in the reader's queue.
abbrev pub arriving : List ℕ → Shared → Shared
arriving q s = record s { reader = holding q s.reader }

pub reading-Reads :
    {A : Type 0} {m : Reader A} {xs : List ℕ} {a : A} (s : Shared) (rest : List ℕ)
    → Reads m xs a
    → reading m (arriving (xs ++ rest) s) ≡ ok (a, arriving rest s)
reading-Reads s rest h = rw (h.takes rest s.reader, ◌>>=◌) refl

-- A message after its CMD_CONNECTION and the id of the connection.
abbrev pub link_bytes : ℕ → ℕ → List ℕ → List ℕ
link_bytes command link_id payload = short_bytes command ++ (short_bytes link_id ++ payload)

abbrev pub message_bytes : ℕ → ℕ → ℕ → List ℕ → List ℕ
message_bytes id command link_id payload =
    short_bytes cmd_connection ++ (short_bytes id ++ link_bytes command link_id payload)

abbrev pub data_bytes : List ℕ → List ℕ
data_bytes bytes = short_bytes (length bytes) ++ bytes

pub queue-write_header :
    (id command link_id : ℕ) (w : WriteStream)
    → (write_header id command link_id w).queue ≡ w.queue ++ message_bytes id command link_id []
unfolding write_header write_short
queue-write_header id command link_id w = simp append_assoc

pub queue-write_data_message :
    (flags id link_id : ℕ) (bytes : List ℕ) (w : WriteStream)
    → (write_data_message flags id link_id bytes w).queue
      ≡ w.queue ++ message_bytes id (send_command flags) link_id (data_bytes bytes)
unfolding write_data_message write_header write_short write_bytes
queue-write_data_message flags id link_id bytes w = simp append_assoc

-- The objects when `send` has made a packet of what the writer holds.
abbrev pub sent_to : ℕ × ℕ → Shared → Shared
sent_to p s = record s {
  writer = packed s.writer;
  poller = set_events p.0 p.1 (wants false true) s.poller;
}

pub send_long :
    (s : Shared) (p : ℕ × ℕ)
    → s.writer_polled ≡ some p
    → 4 ≤ length s.writer.queue
    → send s ≡ ok (sent_to p s)
unfolding send
send_long s p e h = rw (e, Packets.send_long s.writer h) refl

-- A queue of one to three bytes is written past its block.
pub send_short :
    (s : Shared) (p : ℕ × ℕ)
    → s.writer_polled ≡ some p
    → 0 < length s.writer.queue
    → length s.writer.queue < 4
    → send s ≡ undefined
unfolding send
send_short s p e h n = rw (e, Packets.send_short s.writer h n) refl

pub send-none : (s : Shared) → s.writer_polled ≡ none → send s ≡ throw uninitialized_write_stream
unfolding send
send-none s e = rw e refl

pub write_header_long :
    (id command link_id : ℕ) (w : WriteStream)
    → 8 ≤ length (write_header id command link_id w).queue
write_header_long id command link_id w =
    subst (λ (xs : List ℕ). 8 ≤ length xs) (sym (queue-write_header id command link_id w))
      (omega (arith, length-append w.queue (message_bytes id command link_id [])))

pub write_data_message_long :
    (flags id link_id : ℕ) (bytes : List ℕ) (w : WriteStream)
    → 8 ≤ length (write_data_message flags id link_id bytes w).queue
write_data_message_long flags id link_id bytes w =
    let m = message_bytes id (send_command flags) link_id (data_bytes bytes) in
    subst (λ (xs : List ℕ). 8 ≤ length xs) (sym (queue-write_data_message flags id link_id bytes w))
      (omega (arith, length-append w.queue m))

-- Data for a link that is being closed is dropped.
abbrev pub delivered : List ℕ → ConnectionLink → Shared → ConnectionLink × Shared
delivered bytes l s = if l.closing then (l, s) else (
  record l { buffer = push_on_buffer bytes l.buffer },
  record s { poller = set_events l.address l.socket (wants false true) s.poller },
)

fits_buffer :
    (n : ℕ) → n ≤ 4096 → ((is_negative (to_int n) || not (ltb 4096 n)) ≡ true) × (to_int n ≡ n)
fits_buffer n h = ground arith

pub receive_data-bytes :
    (bytes rest : List ℕ) (l : ConnectionLink) (s : Shared)
    → length bytes ≤ 4096
    → receive_data l (arriving (data_bytes bytes ++ rest) s)
      ≡ ok (delivered bytes l (arriving rest s))
unfolding receive_data
receive_data-bytes bytes rest l s h =
    let n : to_short (length bytes) ≡ length bytes = omega arith in
    let f = fits_buffer (length bytes) h in
    rw
      (
        (read_short-bytes (length bytes)).takes (bytes ++ rest) s.reader,
        n,
        f.0,
        f.1,
        (read_bytes-bytes bytes (omega arith)).takes rest s.reader,
      )
      refl
