-- ===== src/Tunnel/Connection/Delivery.antt =====
-- What the messages about links do at the end that reads them.
use tun.Prelude.{
  ℕ, ◌≤◌, ◌≡◌, refl, List, ◌++◌, true, false, length, none, some, to_short, if◌then◌else◌, ◌==◌,
  Bool-cases, inl, inr, drop,
}
use tun.Net.Result.{Result, ok, ◌>>=◌}
use tun.Net.WriteStream
use tun.Net.WriteStream.{WriteStream}
use tun.Net.ReadStream.Values.Laws.{short_bytes, read_short-bytes}
use tun.Net.SockBuffer.{push_on_buffer}
use tun.Net.Poller.{set_events}
use tun.Tunnel.Spec.{ConnectionSpec}
use tun.Tunnel.Link.{
  ConnectionLink, Shared, wants, send, writing, write_header, write_data_message, link_ack, acks,
  send_command, link_create,
}
use tun.Tunnel.Link.Messages.{arriving, data_bytes, receive_data-bytes, queue-write_data_message}
use tun.Tunnel.Connection.{
  Connection, find_link, kept, Processed, process_link_message, listen_process_message,
  connect_process_message, Attempt,
}

-- What is left of a message when CMD_CONNECTION and the id of the connection have been read.
abbrev pub body : WriteStream → List ℕ
body w = drop 4 w.queue

-- The bytes go to the buffer of the link, the link is polled for writing, and a message for
-- acknowledgment is answered.
abbrev pub data_outcome : ℕ → List ℕ → Connection → ConnectionLink → Shared → Processed
data_outcome flags bytes c l s =
    let l' : ConnectionLink = record l { buffer = push_on_buffer bytes l.buffer } in
    let s' : Shared = record s {
      poller = set_events l.address l.socket (wants false true) s.poller;
    } in
    kept c (
      if acks flags
      then (send (writing (write_header c.id link_ack l.link_id) s') >>= λ s''. ok (l', s''))
      else ok (l', s'))

pub process_link-data :
    (flags : ℕ) (bytes rest : List ℕ) (c : Connection) (l : ConnectionLink) (s : Shared)
    → length bytes ≤ 4096
    → l.closing ≡ false
    → process_link_message c (send_command flags) l (arriving (data_bytes bytes ++ rest) s)
      ≡ data_outcome flags bytes c l (arriving rest s)
unfolding process_link_message write_header
process_link-data flags bytes rest c l s h open' = elim (Bool-cases (acks flags)) [
  | inl e ↦ rw (e, receive_data-bytes bytes rest l s h, open') refl
  | inr e ↦ rw (e, receive_data-bytes bytes rest l s h, open') refl
]

-- The message of `send_data`, as the reading end finds it after the id of the connection.
pub body-data :
    (flags id link_id : ℕ) (bytes rest : List ℕ)
    → body (write_data_message flags id link_id bytes WriteStream.fresh) ++ rest
      ≡ short_bytes (send_command flags) ++ (short_bytes link_id ++ (data_bytes bytes ++ rest))
unfolding WriteStream.fresh
body-data flags id link_id bytes rest =
    rw (queue-write_data_message flags id link_id bytes WriteStream.fresh) refl

pub send_command-ne-create :
    (flags : ℕ)
    → (to_short (send_command flags) ≡ send_command flags)
      × ((send_command flags == link_create) ≡ false)
send_command-ne-create flags = elim (Bool-cases (acks flags)) [
  | inl e ↦ rw e (refl, refl)
  | inr e ↦ rw e (refl, refl)
]

-- Data that one end sends about a link, with the id that the listening end knows the link by, of
-- at most 4096 bytes: a listening end that has the link, not being closed, takes exactly that
-- message off its reader, appends the bytes to the link's buffer, has the link polled for writing,
-- and acknowledges exactly if the flags ask for it.
pub listen-data :
    (flags link_id : ℕ) (bytes rest : List ℕ) (c : Connection) (l : ConnectionLink) (s : Shared)
    → length bytes ≤ 4096
    → find_link (to_short link_id) c.link_map ≡ some l
    → l.closing ≡ false
    → listen_process_message c
        (arriving (body (write_data_message flags c.id link_id bytes WriteStream.fresh) ++ rest) s)
      ≡ data_outcome flags bytes c l (arriving rest s)
unfolding listen_process_message
listen-data flags link_id bytes rest c l s h found open' =
    let n = send_command-ne-create flags in
    rw
      (
        body-data flags c.id link_id bytes rest,
        (read_short-bytes (send_command flags)).takes
            (short_bytes link_id ++ (data_bytes bytes ++ rest)) s.reader,
        (read_short-bytes link_id).takes (data_bytes bytes ++ rest) s.reader,
        found,
        n.0,
        n.1,
      )
      (process_link-data flags bytes rest c l s h open')

module _ (attempt : ConnectionSpec → Attempt) (report : Attempt → Shared → Result Shared) where
  -- The same at a connecting end: at most 4096 bytes for a link that it has and that is not being
  -- closed go to the link's buffer in one piece, the rest of the input stays, and there is an
  -- answer exactly if the flags ask for one.
  pub connect-data :
      (flags link_id : ℕ) (bytes rest : List ℕ) (c : Connection) (l : ConnectionLink) (s : Shared)
      → length bytes ≤ 4096
      → find_link (to_short link_id) c.link_map ≡ some l
      → l.closing ≡ false
      → connect_process_message attempt report c (
          arriving (body (write_data_message flags c.id link_id bytes WriteStream.fresh) ++ rest) s)
        ≡ data_outcome flags bytes c l (arriving rest s)
  unfolding connect_process_message
  connect-data flags link_id bytes rest c l s h found open' =
      let n = send_command-ne-create flags in
      rw
        (
          body-data flags c.id link_id bytes rest,
          (read_short-bytes (send_command flags)).takes
              (short_bytes link_id ++ (data_bytes bytes ++ rest)) s.reader,
          (read_short-bytes link_id).takes (data_bytes bytes ++ rest) s.reader,
          found,
          n.0,
          n.1,
        )
        (process_link-data flags bytes rest c l s h open')

  -- Data for a link that a connecting end does not have: it returns without an error, but the
  -- length and the bytes stay in the reader, where the next command is read.
  pub connect-unknown :
      (flags link_id : ℕ) (bytes rest : List ℕ) (c : Connection) (s : Shared)
      → find_link (to_short link_id) c.link_map ≡ none
      → connect_process_message attempt report c (
          arriving (body (write_data_message flags c.id link_id bytes WriteStream.fresh) ++ rest) s)
        ≡ ok (c, arriving (data_bytes bytes ++ rest) s)
  unfolding connect_process_message
  connect-unknown flags link_id bytes rest c s missing =
      let n = send_command-ne-create flags in
      rw
        (
          body-data flags c.id link_id bytes rest,
          (read_short-bytes (send_command flags)).takes
              (short_bytes link_id ++ (data_bytes bytes ++ rest)) s.reader,
          (read_short-bytes link_id).takes (data_bytes bytes ++ rest) s.reader,
          missing,
          n.0,
          n.1,
        )
        refl
