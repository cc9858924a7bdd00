-- ===== src/Tunnel/Link.antt =====
-- class ConnectionLink of StdioTunnel.h and StdioTunnel.cpp, CustomWriteStream, and the operations
-- of TunnelConnection on one link. The objects that they share are one record, `Shared`.
pub mod Messages
use tun.Prelude.{
  ℕ, ◌+◌, ◌/◌, ◌%◌, List, [], ◌∷◌, ◌++◌, Bool, true, false, not, ◌&&◌, ◌||◌, Option, none, some,
  length, ltb, ◌==◌, if◌then◌else◌, to_short, to_int, is_negative,
}
use tun.Net.Result.{
  Result, ok, throw, undefined, uninitialized_write_stream, bad_receive_length, require, ◌>>=◌,
  ◌>>◌,
}
use tun.Net.Kernel.{Kernel, Events, ReadResult, got, read_failed}
use tun.Net.WriteStream
use tun.Net.WriteStream.{WriteStream, write_short, write_bytes}
use tun.Net.ReadStream.{ReadStream}
use tun.Net.ReadStream.Values
use tun.Net.ReadStream.Values.{Reader, read_short, read_bytes}
use tun.Net.SockBuffer.{SockBuffer, push_on_buffer, unsent_data, write_data}
use tun.Net.Poller.{Poller, set_events, remove_polled}
use tun.Net.Poller.Entries.{no_events}

-- `m_socket`, `m_id`, `m_buffer`, `m_closing` and `m_acknowledged`; `address` is the object's.
pub record ConnectionLink : Type 0 where
  pub address : ℕ
  pub socket : ℕ
  pub link_id : ℕ
  pub buffer : SockBuffer
  pub closing : Bool
  pub acknowledged : Bool

unfoldable pub new_link : ℕ → ℕ → ℕ → ConnectionLink
new_link address link_id socket = record {
  address = address;
  socket = socket;
  link_id = to_short link_id;
  buffer = record { queue = []; output = [] };
  closing = false;
  acknowledged = true;
}

-- The tunnel's poller, reader and writer, and the descriptors given to close(2), in order.
-- `writer_polled` holds `m_polled` and `m_fd`; it is `none` while `m_poller` is null.
pub record Shared : Type 0 where
  pub writer : WriteStream
  pub writer_polled : Option (ℕ × ℕ)
  pub reader : ReadStream
  pub poller : Poller
  pub closed : List ℕ

abbrev pub wants : Bool → Bool → Events
wants pollin pollout = record no_events { pollin = pollin; pollout = pollout }

send_to : Option (ℕ × ℕ) → Shared → Result Shared
send_to none s = throw uninitialized_write_stream
send_to (some (polled, fd)) s = WriteStream.send s.writer >>= λ w.
    ok (record s { writer = w; poller = set_events polled fd (wants false true) s.poller })

-- `CustomWriteStream::send`
unfoldable pub send : Shared → Result Shared
unfolding send_to
send s = send_to s.writer_polled s

abbrev pub reading : {A : Type 0} → Reader A → Shared → Result (A × Shared)
reading m s = m s.reader >>= λ (a, r). ok (a, record s { reader = r })

-- `enum Commands` and the commands for links.
abbrev pub cmd_error : ℕ
cmd_error = 401

abbrev pub cmd_connection : ℕ
cmd_connection = 403

abbrev pub link_create : ℕ
link_create = 387

abbrev pub link_send : ℕ
link_send = 388

abbrev pub link_close : ℕ
link_close = 389

abbrev pub link_success : ℕ
link_success = 390

abbrev pub link_failure : ℕ
link_failure = 391

abbrev pub link_send_for_ack : ℕ
link_send_for_ack = 392

abbrev pub link_ack : ℕ
link_ack = 393

abbrev pub buffer_size : ℕ
buffer_size = 4096

-- The four shorts that every message about a link starts with.
unfoldable pub write_header : ℕ → ℕ → ℕ → WriteStream → WriteStream
write_header id command link_id w =
    let w1 = write_short cmd_connection w in
    let w2 = write_short id w1 in let w3 = write_short command w2 in write_short link_id w3

abbrev pub writing : (WriteStream → WriteStream) → Shared → Shared
writing f s = record s { writer = f s.writer }

-- `ConnectionLink::setAcknowledged`
unfoldable pub set_acknowledged : Bool → ConnectionLink → Shared → ConnectionLink × Shared
set_acknowledged ack l s = (
  record l { acknowledged = ack },
  if l.closing then s else record s {
    poller = set_events l.address l.socket (wants ack (unsent_data l.buffer)) s.poller;
  },
)

-- `ConnectionLink::setClosing`
unfoldable pub set_closing : ConnectionLink → Shared → ConnectionLink × Shared
set_closing l s = (
  record l { closing = true },
  record s {
    closed = s.closed ++ l.socket ∷ [];
    poller = remove_polled l.address l.socket s.poller;
  },
)

-- `TunnelConnection::closeLink`; `id` is the connection's.
unfoldable pub close_link : ℕ → ConnectionLink → Shared → Result (ConnectionLink × Shared)
unfolding set_closing write_header send
close_link id l s = if l.closing then ok (l, s) else (do
  let (l', s') = set_closing l s
  s'' ← send (writing (write_header id link_close l.link_id) s')
  ok (l', s''))

-- `flags & ACK_PACKETS`
abbrev pub acks : ℕ → Bool
acks flags = flags % 2 == 1

abbrev pub send_command : ℕ → ℕ
send_command flags = if acks flags then link_send_for_ack else link_send

-- `TunnelConnection::sendData`
unfoldable pub write_data_message : ℕ → ℕ → ℕ → List ℕ → WriteStream → WriteStream
unfolding write_header
write_data_message flags id link_id bytes w =
    write_bytes bytes (write_short (length bytes) (write_header id (send_command flags) link_id w))

unfoldable pub send_data : ℕ → ℕ → ConnectionLink → List ℕ → Shared → Result Shared
unfolding write_data_message send
send_data flags id l bytes s = send (writing (write_data_message flags id l.link_id bytes) s)

-- `TunnelConnection::receiveData`; the length is a short, and only a positive one is compared.
unfoldable pub receive_data : ConnectionLink → Shared → Result (ConnectionLink × Shared)
receive_data l s = do
  (n, s1) ← reading read_short s
  require (is_negative (to_int n) || not (ltb buffer_size n)) bad_receive_length
  (bytes, s2) ← reading (read_bytes (to_int n)) s1
  ok (
      if l.closing then (l, s2) else (
        record l { buffer = push_on_buffer bytes l.buffer },
        record s2 { poller = set_events l.address l.socket (wants false true) s2.poller },
      ))

module _ (k : Kernel) where
  open k use {Os, read}

  -- What `polled` does with a read: true when it returns at once.
  unfoldable pub link_read :
      ℕ → ℕ → ConnectionLink → ReadResult → Shared → Result (Bool × ConnectionLink × Shared)
  unfolding close_link send_data set_acknowledged
  link_read flags id l (read_failed e) s = close_link id l s >>= λ (l', s'). ok (true, l', s')
  link_read flags id l (got []) s = close_link id l s >>= λ (l', s'). ok (true, l', s')
  link_read flags id l (got (b ∷ bs)) s = do
    s' ← send_data flags id l (b ∷ bs) s
    let (l', s'') = if acks flags then set_acknowledged false l s' else (l, s')
    ok (false, l', s'')

  -- The rest of `polled`: POLLOUT, then the errors.
  unfoldable pub link_write : ConnectionLink → Shared → Os → Result (ConnectionLink × Shared × Os)
  link_write l s o = do
    (_, b, o') ← write_data k l.socket l.buffer o
    let l' : ConnectionLink = record l { buffer = b }
    ok (
      l',
      if unsent_data b then s else record s {
        poller = set_events l.address l.socket (wants l.acknowledged false) s.poller;
      },
      o',
    )

  link_rest :
      ℕ → Events → Bool × ConnectionLink × Shared → Os → Result (ConnectionLink × Shared × Os)
  unfolding link_write close_link
  link_rest id revents (true, l, s) o = ok (l, s, o)
  link_rest id revents (false, l, s) o = do
    (l', s', o') ← if revents.pollout then link_write l s o else ok (l, s, o)
    (l'', s'') ←
        if revents.pollerr || (revents.pollhup || revents.pollnval)
        then close_link id l' s'
        else ok (l', s')
    ok (l'', s'', o')

  link_input :
      ℕ
      → ℕ
      → Events
      → ConnectionLink
      → Shared
      → ReadResult × Os
      → Result (ConnectionLink × Shared × Os)
  unfolding link_read link_rest
  link_input flags id revents l s (r, o) =
      link_read flags id l r s >>= λ x. link_rest id revents x o

  -- `ConnectionLink::polled`
  unfoldable pub polled :
      ℕ → ℕ → Events → ConnectionLink → Shared → Os → Result (ConnectionLink × Shared × Os)
  unfolding link_input link_rest
  polled flags id revents l s o =
      if revents.pollin
      then link_input flags id revents l s (read l.socket buffer_size o)
      else link_rest id revents (false, l, s) o
