-- ===== src/Tunnel/Protocol/Refinement/Near.antt =====
-- ListenSide::processMessage with the bytes of a message before it.
use tun.Prelude.{
  subst, ℕ, ◌<◌, ◌≡◌, refl, sym, ap, List, [], ◌++◌, append-nil, Bool, true, false, Option, none,
  some, arith, ◌==◌, to_short,
}
use mathlib.Core.Option.{some-injective, none-ne-some}
use tun.Net.WriteStream.Packets.{unsent}
use tun.Net.ReadStream.Values.Laws.{short_bytes, read_short-bytes}
use tun.Tunnel.Link.{ConnectionLink, Shared, acks, link_create, link_success, link_failure}
use tun.Tunnel.Link.Messages.{arriving}
use tun.Tunnel.Connection.{Connection, find_link, process_link_message, listen_process_message}
use tun.Tunnel.Connection.Delivery.{send_command-ne-create}
use tun.Tunnel.Protocol.{
  Message, create, created, payload, close, ack, End, fresh, waiting, open_end, closing, gone,
  link_receive, near_receive,
}
use tun.Tunnel.Protocol.Refinement.{
  closing_of, status, shows, Fits, command_of, content, body_bytes, Follows, Returns,
}
use tun.Tunnel.Connection.Links.{IsMap, find_link-id}
use tun.Tunnel.Protocol.Refinement.Links.{process-follows, dropped_status, Answers}

-- A message that processLinkMessage handles.
abbrev pub IsPlain : Message → Type 0
IsPlain create = ⊥
IsPlain (created b) = ⊥
IsPlain _ = Unit

pub command_of-plain :
    (flags : ℕ) (m : Message)
    → IsPlain m
    → (to_short (command_of flags m) ≡ command_of flags m)
      × ((command_of flags m == link_create) ≡ false)
command_of-plain flags (payload bs) h = send_command-ne-create flags
command_of-plain flags close h = (refl, refl)
command_of-plain flags ack h = (refl, refl)
command_of-plain flags create h = elim h [ ]
command_of-plain flags (created b) h = elim h [ ]

near_receive-plain :
    (a : Bool) (e : End) (m : Message) → IsPlain m → near_receive a e m ≡ link_receive a e m
unfolding near_receive
near_receive-plain a waiting (created b) h = elim h [ ]
near_receive-plain a e m h = refl

pub link_of :
    (ls : List ConnectionLink) (i : ℕ) (b : Bool)
    → status i ls ≡ some b
    → (l : ConnectionLink) × (find_link i ls ≡ some l) × (l.closing ≡ b)
link_of ls i b k = from (find_link i ls) k
  where
    from :
        (o : Option ConnectionLink)
        → closing_of o ≡ some b
        → (l : ConnectionLink) × (o ≡ some l) × (l.closing ≡ b)
    from none e = elim (none-ne-some _ e) [ ]
    from (some l) e = (l, refl, some-injective _ _ e)

module _ (flags i : ℕ) (c : Connection) (s : Shared) (p : ℕ × ℕ) (rest : List ℕ) (small : i < 65536)
    (distinct : IsMap c.link_map) (polled : s.writer_polled ≡ some p)
    (empty : s.writer.queue ≡ []) where
  abbrev Reads : Message → Shared
  Reads m = arriving (body_bytes flags i m ++ rest) s

  abbrev Takes : Message → Option (End × List Message) → Type 0
  Takes m none = Unit
  Takes m (some (e, sent)) =
      Returns (Follows flags i s e sent rest) (listen_process_message c (Reads m))

  module _ (l : ConnectionLink) (found : find_link i c.link_map ≡ some l) where
    listen_plain :
        (m : Message)
        → IsPlain m
        → listen_process_message c (Reads m)
          ≡ process_link_message c (command_of flags m) l (arriving (content m ++ rest) s)
    unfolding listen_process_message
    listen_plain m h =
        let n = command_of-plain flags m h in
        let k : to_short i ≡ i = omega arith in
        rw
          (
            (read_short-bytes (command_of flags m)).takes (short_bytes i ++ (content m ++ rest))
                s.reader,
            (read_short-bytes i).takes (content m ++ rest) s.reader,
            n.0,
            k,
            found,
            n.1,
          )
          refl

    module _ (e : End) (shown : some l.closing ≡ shows e) where
      plain-Takes : (m : Message) → IsPlain m → Fits m → Takes m (link_receive (acks flags) e m)
      plain-Takes m h fits =
          let id_is = find_link-id i c.link_map l found in
          given (link_receive (acks flags) e m) m h
            (process-follows flags i c l s p rest distinct id_is polled empty e m fits shown)
        where
          given :
              (o : Option (End × List Message)) (m : Message)
              → IsPlain m
              → Answers flags i c l s p rest distinct
                  (find_link-id i c.link_map l found)
                  polled
                  empty
                  m
                  o
              → Takes m o
          given none m h x = tt
          given (some (e', sent)) m h x = rw (listen_plain m h) x

    listen_success :
        status i c.link_map ≡ some false
        → Returns
            (Follows flags i s open_end [] rest)
            (listen_process_message c (Reads (created true)))
    unfolding listen_process_message
    listen_success k =
        let n : to_short i ≡ i = omega arith in
        let r0 =
          (read_short-bytes link_create).takes (short_bytes i ++ (short_bytes link_success ++ rest))
            s.reader in
        let r1 = (read_short-bytes i).takes (short_bytes link_success ++ rest) s.reader in
        let r2 = (read_short-bytes link_success).takes rest s.reader in
        rw (r0, r1, n, found, r2) (k, sym (append-nil (unsent s.writer)), empty, refl)

    listen_failure :
        Returns (Follows flags i s gone [] rest) (listen_process_message c (Reads (created false)))
    unfolding listen_process_message
    listen_failure =
        let n : to_short i ≡ i = omega arith in
        let r0 =
          (read_short-bytes link_create).takes (short_bytes i ++ (short_bytes link_failure ++ rest))
            s.reader in
        let r1 = (read_short-bytes i).takes (short_bytes link_failure ++ rest) s.reader in
        let r2 = (read_short-bytes link_failure).takes rest s.reader in
        rw (r0, r1, n, found, r2)
          (
            dropped_status flags i l.link_id c.link_map (find_link-id i c.link_map l found)
                distinct,
            sym (append-nil (unsent s.writer)),
            empty,
            refl,
          )

    listen-Takes :
        (e : End) (m : Message)
        → some l.closing ≡ shows e
        → status i c.link_map ≡ shows e
        → Fits m
        → Takes m (near_receive (acks flags) e m)
    unfolding near_receive
    listen-Takes fresh m h k fits = tt
    listen-Takes gone m h k fits = tt
    listen-Takes waiting (created true) h k fits = listen_success k
    listen-Takes waiting (created false) h k fits = listen_failure
    listen-Takes e (created b) h k fits = tt
    listen-Takes e create h k fits = tt
    listen-Takes waiting m h k fits = plain-Takes waiting h m tt fits
    listen-Takes open_end m h k fits = plain-Takes open_end h m tt fits
    listen-Takes closing m h k fits = plain-Takes closing h m tt fits

  all-Takes :
      (e : End) (m : Message)
      → status i c.link_map ≡ shows e
      → Fits m
      → Takes m (near_receive (acks flags) e m)
  unfolding near_receive
  all-Takes fresh m k fits = tt
  all-Takes gone m k fits = tt
  all-Takes waiting m k fits =
      let l = link_of c.link_map i false k in listen-Takes l.0 l.1 waiting m (ap some l.2) k fits
  all-Takes open_end m k fits =
      let l = link_of c.link_map i false k in listen-Takes l.0 l.1 open_end m (ap some l.2) k fits
  all-Takes closing m k fits =
      let l = link_of c.link_map i true k in listen-Takes l.0 l.1 closing m (ap some l.2) k fits

  -- A message that the protocol has an answer to, with at most 4096 bytes of data and an id below
  -- 2 ^ 16, for a link of a listening end that has each id once in its map, and whose
  -- writer is polled and has no bytes that are not posted: processMessage returns, takes exactly the
  -- message off the reader, posts exactly what the protocol sends, and the link is then as the
  -- protocol has it: not in the map, there, or there and being closed.
  pub listen-Follows :
      (e e' : End) (m : Message) (sent : List Message)
      → status i c.link_map ≡ shows e
      → Fits m
      → near_receive (acks flags) e m ≡ some (e', sent)
      → Returns
          (Follows flags i s e' sent rest)
          (listen_process_message c (arriving (body_bytes flags i m ++ rest) s))
  listen-Follows e e' m sent k fits q = subst (Takes m) q (all-Takes e m k fits)
