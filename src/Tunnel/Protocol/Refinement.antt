-- ===== src/Tunnel/Protocol/Refinement.antt =====
-- processMessage of both sides does what the protocol says: the link of one id in the map, and the
-- packets that are posted, follow `near_receive` and `far_receive`.
mod Links
pub mod Near
pub mod Far
use tun.Prelude.{
  ℕ, ◌≤◌, ◌<◌, ◌≡◌, ◌≢◌, refl, sym, ◌∙◌, ap, subst, List, [], ◌∷◌, ◌++◌, append_assoc, append-nil,
  map, Bool, true, false, Option, none, some, length, arith, All, ◌==◌, if◌then◌else◌, to_short,
  Bool-cases, inl, inr,
}
use mathlib.Core.Option.{some-injective}
use tun.Net.Result.{Result, ok, throw, undefined, ◌>>=◌}
use tun.Net.WriteStream
use tun.Net.WriteStream.{WriteStream}
use tun.Net.WriteStream.Packets.{frame, frames, unsent, unsent_packets}
use tun.Net.ReadStream.{ReadStream}
use tun.Net.ReadStream.Values.Laws.{short_bytes, holding, read_short-bytes}
use tun.Net.Poller.{set_events}
use tun.Net.SockBuffer.{push_on_buffer, unsent_data}
use tun.Tunnel.Link.{
  wants, ConnectionLink, Shared, send, writing, write_header, set_acknowledged, close_link,
  set_closing, receive_data, acks, send_command, link_create, link_close, link_success,
  link_failure, link_ack,
}
use tun.Tunnel.Link.Messages.{
  arriving, link_bytes, message_bytes, data_bytes, queue-write_header, delivered,
  receive_data-bytes,
}
use tun.Tunnel.Connection.{
  Connection, find_link, erase_link, put_link, keep, kept, dropped, process_link_message,
  listen_process_message, connect_process_message, Attempt,
}
use tun.Tunnel.Connection.Links.{IsMap}
use tun.Tunnel.Connection.Delivery.{data_outcome, process_link-data}
use tun.Tunnel.Protocol.{
  Message, create, created, payload, close, ack, End, fresh, waiting, open_end, closing, gone,
  link_receive, near_receive, far_receive,
}

-- The link map as the protocol sees it: whether the link is there, and whether it is closing.
abbrev pub closing_of : Option ConnectionLink → Option Bool
closing_of none = none
closing_of (some l) = some l.closing

abbrev pub status : ℕ → List ConnectionLink → Option Bool
status i ls = closing_of (find_link i ls)

abbrev pub shows : End → Option Bool
shows fresh = none
shows gone = none
shows waiting = some false
shows open_end = some false
shows closing = some true

-- A message of data has at most 4096 bytes.
abbrev pub Fits : Message → Type 0
Fits (payload bs) = length bs ≤ 4096
Fits _ = Unit

abbrev pub command_of : ℕ → Message → ℕ
command_of flags create = link_create
command_of flags (created b) = link_create
command_of flags (payload bs) = send_command flags
command_of flags close = link_close
command_of flags ack = link_ack

abbrev pub content : Message → List ℕ
content create = []
content (created b) = short_bytes (if b then link_success else link_failure)
content (payload bs) = data_bytes bs
content close = []
content ack = []

-- The message behind the id of the connection, and the whole message.
abbrev pub body_bytes : ℕ → ℕ → Message → List ℕ
body_bytes flags i m = link_bytes (command_of flags m) i (content m)

abbrev pub packet : ℕ → ℕ → ℕ → Message → List ℕ
packet flags i id m = message_bytes id (command_of flags m) i (content m)

-- From `s`, the end `e` is reached for link `i`, `sent` is posted, and `rest` is left to be read.
abbrev pub Follows : ℕ → ℕ → Shared → End → List Message → List ℕ → Connection × Shared → Type 0
Follows flags i s e sent rest (c, s') =
    (status i c.link_map ≡ shows e)
    × (unsent s'.writer ≡ unsent s.writer ++ frames (map (packet flags i c.id) sent))
    × (s'.writer.queue ≡ [])
    × (s'.reader ≡ holding rest s.reader)

abbrev pub Returns : (Connection × Shared → Type 0) → Result (Connection × Shared) → Type 0
Returns P (ok x) = P x
Returns P (throw e) = ⊥
Returns P undefined = ⊥
