-- ===== src/Tunnel/Local/Startup.antt =====
-- What the local end sets up: its entries in the poller, and the CMD_CREATE message.
use tun.Prelude.{
  ℕ, ◌≡◌, ◌≤◌, map, Bool, ◌⊎◌, inl, inr, false, if◌then◌else◌, length, refl, ◌∙◌, ap₂, subst, List,
  [], ◌∷◌, ◌++◌, append_assoc, true, false, Option, none, some, arith,
}
use tun.Net.Result.{Result, ok, throw, undefined, Errno, bad_state, ◌>>=◌, ◌>>◌}
use tun.Net.WriteStream.Packets.{frame, unsent, unsent_packets, unsent-packed, packed}
use tun.Net.ReadStream.Values.Laws.{short_bytes}
use tun.Net.SockBuffer.{clear}
use tun.Net.SockBuffer.Order.{contents}
use tun.Net.Poller.{add_polled}
use tun.Net.Poller.Entries.{Entry, new_entry}
use tun.Tunnel.Link.{Shared, wants, writing}
use tun.Tunnel.Link.Messages.{send_long, send-none}
use tun.Tunnel.Terminal.{Termios, signal_modes, given_modes}
use tun.Tunnel.Remote.{cmd_create}
use tun.Tunnel.Remote.Handshake.{write_create, write_create_lem, create_body, create_body-eq}
use tun.Tunnel.Local.{
  Local, initial, pass_through, hand_shake, set_pollfd, add_self, start_polling, start_handshake,
  named,
}
use tun.Tunnel.Local.Order.{AreOrdered, AreAscending, named-AreAscending}
use tun.Tunnel.Spec.{ConnectionSpec}

-- The entries of the local end: standard input and output, and the pipe's two ends.
abbrev pub four_entries : Local → List Entry
four_entries t =
    new_entry t.address 0 (wants true false)
    ∷ new_entry t.address 1 (wants false false)
    ∷ new_entry t.address t.read_fd (wants true false)
    ∷ new_entry t.address t.write_fd (wants false false)
    ∷ []

abbrev pub polling_all : Local → Local
polling_all t = record t {
  state = pass_through;
  shared = record t.shared {
    writer_polled = some (t.address, t.write_fd);
    poller = record t.shared.poller { entries = t.shared.poller.entries ++ four_entries t };
  };
}

-- From its first state, the four calls of addPolled in start put exactly the four entries behind
-- the others, in their order, and the state is PASS_THROUGH, where a fifth call throws.
pub start_polling_lem :
    (t : Local)
    → t.state ≡ initial
    → (start_polling t ≡ ok (polling_all t)) × (add_self (polling_all t) ≡ throw bad_state)
unfolding start_polling add_self set_pollfd add_polled
start_polling_lem t h = rw h (simp append_assoc, refl)

module _ (detach : Result (Unit {0})) (refuses : List ℕ → Option Errno) where
  abbrev create_bytes : Local → List ℕ
  create_bytes t = short_bytes cmd_create ++ create_body (named t.connection_map)

  -- What tcsetattr(3) is given: nothing without a terminal, else the saved modes, raw but for the
  -- signals.
  abbrev pub SetsModes : Local → List Termios → Type 0
  SetsModes t modes =
      ((t.tty.is_terminal ≡ some false) × (modes ≡ []))
      ⊎ ((m : Termios) × (t.tty.is_terminal ≡ some true)
          × (t.tty.termios ≡ some m)
          × (modes ≡ signal_modes m ∷ []))

  abbrev Posts : Local → Result Local → Type 0
  Posts t (throw e) = Unit
  Posts t undefined = Unit
  Posts t (ok t') =
      (unsent t'.shared.writer ≡ unsent t.shared.writer ++ frame (create_bytes t))
      × (t'.shared.writer.queue ≡ [])
      × (contents t'.write_buffer ≡ [])
      × (t'.state ≡ hand_shake)
      × (t'.connection_map ≡ t.connection_map)
      × ((modes : List Termios) × SetsModes t modes × (t'.modes ≡ t.modes ++ modes))

  Posts-after : (t t' : Local) (m : Result (Unit {0})) → Posts t (ok t') → Posts t (m >> ok t')
  Posts-after t t' (ok x) h = h
  Posts-after t t' (throw e) h = tt
  Posts-after t t' undefined h = tt

  sent_create :
      (t : Local)
      → t.shared.writer.queue ≡ []
      → (4 ≤ length (write_create (named t.connection_map) t.shared.writer).queue)
        × (unsent (packed (write_create (named t.connection_map) t.shared.writer))
            ≡ unsent t.shared.writer ++ frame (create_bytes t))
  sent_create t h =
      let w = write_create (named t.connection_map) t.shared.writer in
      let c = write_create_lem (named t.connection_map) t.shared.writer in
      let q : w.queue ≡ create_bytes t = c.0 ∙ rw h refl in
      (
        rw (q, create_body-eq (named t.connection_map)) (omega arith),
        unsent-packed w ∙ ap₂ (λ ps (m : List ℕ). unsent_packets ps ++ frame m) c.1 q,
      )

  -- The modes are asked for, and then `f` is done with them.
  given_modes-Posts :
      (t : Local) (f : List Termios → Result Local) (b : Option Bool) (m : Option Termios)
      → t.tty.is_terminal ≡ b
      → t.tty.termios ≡ m
      → ((modes : List Termios) → SetsModes t modes → Posts t (f modes))
      → Posts t (given_modes b m >>= f)
  unfolding given_modes
  given_modes-Posts t f none m e g h = tt
  given_modes-Posts t f (some false) m e g h = h [] (inl (e, refl))
  given_modes-Posts t f (some true) none e g h = tt
  given_modes-Posts t f (some true) (some m) e g h = h (signal_modes m ∷ []) (inr (m, e, g, refl))

  start_handshake-Posts :
      (t : Local) (x : Option (ℕ × ℕ))
      → t.shared.writer_polled ≡ x
      → t.shared.writer.queue ≡ []
      → Posts t (start_handshake detach refuses t)
  unfolding start_handshake clear
  start_handshake-Posts t none e h =
      rw (send-none (writing (write_create (named t.connection_map)) t.shared) e) tt
  start_handshake-Posts t (some p) e h =
      let s = sent_create t h in
      let written : Shared = writing (write_create (named t.connection_map)) t.shared in
      rw (send_long written p e s.0) (
        given_modes-Posts t _ t.tty.is_terminal t.tty.termios refl refl (λ modes n.
          Posts-after t _ (if t.daemon then detach else ok tt)
            (s.1, refl, refl, refl, refl, (modes, n, refl))))

  -- The start of the handshake of a local end with an ordered map, if it returns: one packet with CMD_CREATE and the specs of the
  -- connections, in the order of the map and by ascending id, goes behind the packets that wait;
  -- nothing that was read from standard input waits to be written any more; the connections are
  -- as they were; and if standard input is a terminal, it has been given its saved modes, made raw
  -- but for the signals.
  pub start_handshake-posts :
      (t t' : Local)
      → t.shared.writer.queue ≡ []
      → AreOrdered t.connection_map
      → start_handshake detach refuses t ≡ ok t'
      → (unsent t'.shared.writer
          ≡ unsent t.shared.writer
            ++ frame (short_bytes cmd_create ++ create_body (named t.connection_map)))
        × AreAscending (map (λ (x : ℕ × ConnectionSpec). x.0) (named t.connection_map))
        × (t'.shared.writer.queue ≡ [])
        × (contents t'.write_buffer ≡ [])
        × (t'.state ≡ hand_shake)
        × (t'.connection_map ≡ t.connection_map)
        × ((modes : List Termios) × SetsModes t modes × (t'.modes ≡ t.modes ++ modes))
  start_handshake-posts t t' h k e =
      let p = subst (Posts t) e (start_handshake-Posts t t.shared.writer_polled refl h) in
      (p.0, named-AreAscending t.connection_map k, p.1, p.2, p.3, p.4, p.5)
