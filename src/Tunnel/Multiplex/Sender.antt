-- ===== src/Tunnel/Multiplex/Sender.antt =====
-- `sendData` for any links of any connections, with the writes in any pieces.
use tun.Prelude.{
  subst, append-nil, ℕ, ◌≡◌, refl, sym, ap, ◌∙◌, List, [], ◌∷◌, ◌++◌, append_assoc, append_inj_left,
  map, true, false, some,
}
use tun.Net.Result.{Result, ok, throw, undefined, ◌>>=◌, bind_assoc, bind_cong}
use tun.Net.Kernel.{Kernel, Events}
use tun.Net.Poller.{set_events}
use tun.Net.WriteStream
use tun.Net.WriteStream.{WriteStream, write_short, write_bytes, empty}
use tun.Net.WriteStream.Packets.{frames, unsent, IsSound}
use tun.Net.Transfer
use tun.Net.Transfer.{run_sender, posted, post, run_sender-frames}
use tun.Tunnel.Link.{
  ConnectionLink, Shared, send_command, write_header, write_data_message, send_data, send, wants,
}
use tun.Tunnel.Link.Messages.{message_bytes, data_bytes, queue-write_data_message}
use tun.Tunnel.Multiplex.{Piece, piece_bytes}

-- What the sending end does: `sendData` with the flags and the id of a connection, for one of its
-- links, or `empty` after poll(2).
pub data Act : Type 0 where
  sends : ℕ → ℕ → ConnectionLink → List ℕ → Act
  flush : Events → Events → Act

abbrev pub pieces : List Act → List Piece
pieces [] = []
pieces (sends flags id l bytes ∷ acts) =
    record { flags = flags; id = id; link_id = l.link_id; bytes = bytes } ∷ pieces acts
pieces (flush revents events ∷ acts) = pieces acts

-- A writer that has its poller, and nothing to send.
pub record IsWriting (s : Shared) : Type 0 where
  pub queue : s.writer.queue ≡ []
  pub sound : IsSound s.writer
  pub nothing : unsent s.writer ≡ []
  pub polled : ℕ × ℕ
  pub has_polled : s.writer_polled ≡ some polled

write_data_message-write_bytes :
    (flags id link_id : ℕ) (bytes : List ℕ) (w : WriteStream)
    → write_data_message flags id link_id bytes w
      ≡ write_bytes (message_bytes id (send_command flags) link_id (data_bytes bytes)) w
unfolding write_bytes write_data_message write_header write_short
write_data_message-write_bytes flags id link_id bytes w =
    ap (λ xs. record w { queue = xs }) (queue-write_data_message flags id link_id bytes w)

-- The same as messages of a WriteStream.
abbrev posts : List Act → List Transfer.Act
posts [] = []
posts (sends flags id l bytes ∷ acts) =
    post (message_bytes id (send_command flags) l.link_id (data_bytes bytes)) ∷ posts acts
posts (flush revents events ∷ acts) = Transfer.Act.flush revents events ∷ posts acts

posted-posts : (acts : List Act) → posted (posts acts) ≡ map piece_bytes (pieces acts)
posted-posts [] = refl
posted-posts (sends flags id l bytes ∷ acts) =
    ap (◌∷◌ (message_bytes id (send_command flags) l.link_id (data_bytes bytes)))
      (posted-posts acts)
posted-posts (flush revents events ∷ acts) = posted-posts acts

module _ (k : Kernel) (fd : ℕ) where
  open k use {Os, outgoing}

  unfoldable pub run_links : List Act → Shared → Os → Result (Shared × Os)
  run_links [] s o = ok (s, o)
  run_links (sends flags id l bytes ∷ acts) s o =
      send_data flags id l bytes s >>= λ s'. run_links acts s' o
  run_links (flush revents events ∷ acts) s o =
      empty k fd revents events s.writer o >>= λ (w, ev, o').
      run_links acts (record s { writer = w }) o'

  abbrev writers : Result (Shared × Os) → Result (WriteStream × Os)
  writers m = m >>= λ (s, o). ok (s.writer, o)

  run_sender-posts :
      (acts : List Act) (s : Shared) (o : Os) (q : ℕ × ℕ)
      → s.writer_polled ≡ some q
      → run_sender k fd (posts acts) s.writer o ≡ writers (run_links acts s o)
  unfolding run_sender run_links send_data send
  run_sender-posts [] s o q h = refl
  run_sender-posts (sends flags id l bytes ∷ acts) s o q h =
      rw (h, write_data_message-write_bytes flags id l.link_id bytes s.writer)
        (go (WriteStream.send written) (λ w. run_sender-posts acts (next w) o q refl))
    where
      written : WriteStream
      written =
          write_bytes (message_bytes id (send_command flags) l.link_id (data_bytes bytes)) s.writer

      next : WriteStream → Shared
      next w = record s {
        writer = w;
        writer_polled = some q;
        poller = set_events q.0 q.1 (wants false true) s.poller;
      }

      go :
          (m : Result WriteStream)
          → ((w : WriteStream)
              → run_sender k fd (posts acts) w o ≡ writers (run_links acts (next w) o))
          → (m >>= λ w. run_sender k fd (posts acts) w o)
            ≡ writers ((m >>= λ w. ok (next w)) >>= λ s'. run_links acts s' o)
      go (ok w) ih = ih w
      go (throw e) ih = refl
      go undefined ih = refl
  run_sender-posts (flush revents events ∷ acts) s o q h =
      let m = empty k fd revents events s.writer o in
      bind_assoc m (λ (w, ev, o'). ok (w, o')) (λ (w, o'). run_sender k fd (posts acts) w o')
      ∙ bind_cong m (λ (w, ev, o'). run_sender-posts acts (record s { writer = w }) o' q h)
      ∙ sym (
          bind_assoc m (λ (w, ev, o'). run_links acts (record s { writer = w }) o')
            (λ (s', o'). ok (s'.writer, o')))

  -- What the run has written, and what it has left to write, are the frames of its pieces.
  pub run_links-frames :
      (acts : List Act) (s s' : Shared) (o o' : Os) (u : List ℕ)
      → IsWriting s
      → run_links acts s o ≡ ok (s', o')
      → outgoing o' fd ≡ outgoing o fd ++ u
      → u ++ unsent s'.writer ≡ frames (map piece_bytes (pieces acts))
  run_links-frames acts s s' o o' u w sent written =
      let run : run_sender k fd (posts acts) s.writer o ≡ ok (s'.writer, o') =
        run_sender-posts acts s o w.polled w.has_polled ∙ ap writers sent in
      let all =
        run_sender-frames k fd (posts acts) s.writer s'.writer o o' w.queue w.sound w.nothing run in
      let same =
        append_inj_left (outgoing o fd) (outgoing o fd) (u ++ unsent s'.writer)
          (frames (posted (posts acts))) refl
          (sym (append_assoc (outgoing o fd) u (unsent s'.writer))
            ∙ ap (λ xs. xs ++ unsent s'.writer) (sym written)
            ∙ all) in
      same.1 ∙ ap frames (posted-posts acts)

  pub all_written :
      (acts : List Act) (s s' : Shared) (o o' : Os) (u : List ℕ)
      → IsWriting s
      → run_links acts s o ≡ ok (s', o')
      → unsent s'.writer ≡ []
      → outgoing o' fd ≡ outgoing o fd ++ u
      → u ≡ frames (map piece_bytes (pieces acts)) ++ []
  all_written acts s s' o o' u w sent all written =
      let e = run_links-frames acts s s' o o' u w sent written in
      sym (append-nil u)
      ∙ subst (λ xs. u ++ xs ≡ frames (map piece_bytes (pieces acts))) all e
      ∙ sym (append-nil _)
