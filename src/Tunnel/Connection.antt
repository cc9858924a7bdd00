-- ===== src/Tunnel/Connection.antt =====
-- class TunnelConnection and its two kinds, ListenSide and ConnectSide, of StdioTunnel.h and
-- StdioTunnel.cpp: links by their id, and the messages about them.
pub mod Delivery
pub mod Closing
pub mod Links
use tun.Prelude.{
  ℕ, ◌+◌, List, [], ◌∷◌, ◌++◌, Bool, true, false, Option, none, some, ◌==◌, if◌then◌else◌, to_short,
  ◌%◌, ◌^◌,
}
use tun.Net.Result.{Result, ok, throw, undefined, Error, Errno, errno, link_not_found, ◌>>=◌}
use tun.Net.WriteStream.{WriteStream, write_short, write_string}
use tun.Net.ReadStream.Values.{read_short}
use tun.Net.Poller.{add_polled}
use tun.Tunnel.Spec.{ConnectionSpec}
use tun.Tunnel.Link.{
  ConnectionLink, new_link, Shared, wants, send, reading, cmd_error, link_create, link_send,
  link_close, link_success, link_failure, link_send_for_ack, link_ack, write_header, writing,
  set_acknowledged, close_link, receive_data,
}

-- `link_map` has one link for each id.
pub record Connection : Type 0 where
  pub spec : ConnectionSpec
  pub id : ℕ
  pub link_map : List ConnectionLink

-- `m_link_map.find`
unfoldable pub find_link : ℕ → List ConnectionLink → Option ConnectionLink
find_link i [] = none
find_link i (l ∷ ls) = if l.link_id == i then some l else find_link i ls

-- `m_link_map.erase`
unfoldable pub erase_link : ℕ → List ConnectionLink → List ConnectionLink
erase_link i [] = []
erase_link i (l ∷ ls) = if l.link_id == i then ls else l ∷ erase_link i ls

-- A change of the object that the map points to, or a new entry: `m_link_map[id] = link`.
unfoldable pub put_link : ConnectionLink → List ConnectionLink → List ConnectionLink
put_link l [] = l ∷ []
put_link l (m ∷ ls) = if m.link_id == l.link_id then l ∷ ls else m ∷ put_link l ls

abbrev pub Processed : Type 0
Processed = Result (Connection × Shared)

abbrev pub keep : Connection → ConnectionLink × Shared → Connection × Shared
keep c (l, s) = (record c { link_map = put_link l c.link_map }, s)

abbrev pub kept : Connection → Result (ConnectionLink × Shared) → Processed
kept c m = m >>= λ x. ok (keep c x)

-- The link leaves the map.
abbrev pub dropped : Connection → Result (ConnectionLink × Shared) → Processed
dropped c m = m >>= λ (l, s). ok (record c { link_map = erase_link l.link_id c.link_map }, s)

-- The answer to LINK_SEND_FOR_ACK: a closing link falls through to LINK_ACK.
acknowledge : ℕ → ConnectionLink × Shared → Result (ConnectionLink × Shared)
unfolding write_header
acknowledge id (l, s) =
    if l.closing
    then ok (set_acknowledged true l s)
    else (do s' ← send (writing (write_header id link_ack l.link_id) s); ok (l, s'))

-- `processLinkMessage`; an unknown command does nothing.
unfoldable pub process_link_message : Connection → ℕ → ConnectionLink → Shared → Processed
unfolding acknowledge
process_link_message c command l s =
    if command == link_send
    then kept c (receive_data l s)
    else if command == link_close
    then dropped c (close_link c.id l s)
    else if command == link_send_for_ack
    then kept c (receive_data l s >>= acknowledge c.id)
    else if command == link_ack
    then ok (keep c (set_acknowledged true l s))
    else ok (c, s)

-- LINK_CREATE at the listening side: the answer of the other end.
link_created : Connection → ConnectionLink → Shared → Processed
link_created c l s = do
  (code, s') ← reading read_short s
  ok (
      if code == link_success
      then (c, record s' { poller = add_polled l.address l.socket (wants true false) s'.poller })
      else (
        record c { link_map = erase_link l.link_id c.link_map },
        record s' { closed = s'.closed ++ l.socket ∷ [] },
      ))

listen_message : Connection → ℕ → Option ConnectionLink → Shared → Processed
unfolding link_created process_link_message
listen_message c command none s = throw link_not_found
listen_message c command (some l) s =
    if command == link_create then link_created c l s else process_link_message c command l s

-- `ListenSide::processMessage`
unfoldable pub listen_process_message : Connection → Shared → Processed
unfolding listen_message
listen_process_message c s = do
  (command, s1) ← reading read_short s
  (link_id, s2) ← reading read_short s1
  listen_message c command (find_link link_id c.link_map) s2

-- `ListenSide`: a connection and `m_next_id`.
pub record ListenSide : Type 0 where
  pub connection : Connection
  pub next_id : ℕ

unfoldable pub listen_side : ConnectionSpec → ℕ → ListenSide
listen_side spec id = record {
  connection = record { spec = spec; id = id; link_map = [] };
  next_id = 501;
}

-- What accept(2) and fcntl(2) gave: an error, or a descriptor, with the address of the new link.
pub data Accepted : Type 0 where
  accept_failed : Errno → Accepted
  accepted : ℕ → ℕ → Accepted

-- `ListenSide::polled`: the link is not polled before the other end has answered.
unfoldable pub listen_polled : Accepted → ListenSide → Shared → Result (ListenSide × Shared)
unfolding write_header
listen_polled (accept_failed e) a s = throw (errno e)
listen_polled (accepted address socket) a s = do
  let l = new_link address a.next_id socket
  s' ← send (writing (write_header a.connection.id link_create a.next_id) s)
  ok (
    record {
      connection = record a.connection { link_map = put_link l a.connection.link_map };
      next_id = (a.next_id + 1) % 2 ^ 32;
    },
    s',
  )

-- How far the connecting side gets: gethostbyname(3), socket(2), connect(2) and fcntl(2), with the
-- descriptor where there is one and the address of the new link.
pub data Attempt : Type 0 where
  no_host no_socket : Attempt
  not_connected not_non_blocking : ℕ → Attempt
  connected : ℕ → ℕ → Attempt

-- `reportError` is virtual: the remote end sends the message, the local one prints it.
unfoldable pub remote_report_error : List ℕ → Shared → Result Shared
remote_report_error message s =
    send (writing (λ w. write_string message (write_short cmd_error w)) s)

module _ (attempt : ConnectionSpec → Attempt) (report : Attempt → Shared → Result Shared) where
  -- The link that an attempt makes, and the descriptor it leaves to be closed.
  unfoldable pub try_connect :
      Connection → ℕ → Attempt → Shared → Result (Bool × Connection × Shared)
  try_connect c link_id (connected address socket) s =
      let l = new_link address link_id socket in
      ok (
        true,
        record c { link_map = put_link l c.link_map },
        record s { poller = add_polled address socket (wants true false) s.poller },
      )
  try_connect c link_id (not_connected socket) s = do
    s' ← report (not_connected socket) s
    ok (false, c, record s' { closed = s'.closed ++ socket ∷ [] })
  try_connect c link_id (not_non_blocking socket) s = do
    s' ← report (not_non_blocking socket) s
    ok (false, c, record s' { closed = s'.closed ++ socket ∷ [] })
  try_connect c link_id no_host s = do s' ← report no_host s; ok (false, c, s')
  try_connect c link_id no_socket s = do s' ← report no_socket s; ok (false, c, s')

  connect_create : Connection → ℕ → Shared → Processed
  unfolding try_connect write_header
  connect_create c link_id s = do
    (success, c', s1) ← try_connect c link_id (attempt c.spec) s
    s2 ← send (
        writing
          (λ w.
            write_short (if success then link_success else link_failure)
              (write_header c.id link_create link_id w))
          s1)
    ok (c', s2)

  connect_known : Connection → ℕ → Option ConnectionLink → Shared → Processed
  unfolding process_link_message
  connect_known c command none s = ok (c, s)
  connect_known c command (some l) s = process_link_message c command l s

  -- `ConnectSide::processMessage`: a message for an unknown link ends it, whatever follows.
  unfoldable pub connect_process_message : Connection → Shared → Processed
  unfolding connect_create connect_known
  connect_process_message c s = do
    (command, s1) ← reading read_short s
    (link_id, s2) ← reading read_short s1
    if command == link_create
        then connect_create c link_id s2
        else connect_known c command (find_link link_id c.link_map) s2
