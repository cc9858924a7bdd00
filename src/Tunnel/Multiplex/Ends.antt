-- ===== src/Tunnel/Multiplex/Ends.antt =====
-- `polled` of StdioTunnelRemote for standard input and of StdioTunnelLocal for the read pipe, once
-- connected, as ends that take the messages of connections.
use tun.Prelude.{
  ℕ, ◌≡◌, ◌≢◌, refl, sym, ap, subst, ◌∙◌, List, [], ◌++◌, Option, none, some, arith, to_short,
  to_int, if◌then◌else◌, lt→ltb, length,
}
use tun.Net.Result.{Result, ok, throw, undefined, ◌>>=◌}
use tun.Net.Kernel.{Kernel}
use tun.Net.ReadStream.{ReadStream, available}
use tun.Net.ReadStream.Values.{read_short}
use tun.Net.ReadStream.Values.Laws.{holding, short_bytes}
use tun.Net.ReadStream.Frames.{IsValid}
use tun.Tunnel.Spec.{ConnectionSpec}
use tun.Tunnel.Link.{Shared, reading, cmd_connection, send_command}
use tun.Tunnel.Link.Messages.{arriving, link_bytes, data_bytes}
use tun.Tunnel.Connection.{Attempt}
use tun.Tunnel.Side.{Side, Opened, process_message}
use tun.Tunnel.Remote.{put_side}
use tun.Tunnel.Multiplex.{Piece, piece_bytes, IsSmall, Found}
use tun.Tunnel.Multiplex.Take.{Takes, waiting-put_side, process_message-Takes}
use tun.Tunnel.Multiplex.Steps.{View, Handled}

-- No message is half read, and the writer has its poller.
pub record IsIdle (s : Shared) : Type 0 where
  pub queue : s.reader.queue ≡ []
  pub valid : IsValid s.reader
  pub polled : s.writer_polled ≢ none

pub IsValid-holding : (xs : List ℕ) (r : ReadStream) → IsValid r → IsValid (holding xs r)
IsValid-holding xs r v = record { room = v.room; within = v.within; begun = v.begun }

-- The message without CMD_CONNECTION.
abbrev pub after_command : Piece → List ℕ
after_command p =
    short_bytes p.id ++ link_bytes (send_command p.flags) p.link_id (data_bytes p.bytes)

-- The last part of both functions: a message if one is there.
abbrev pub take_message : {T : Type 0} → (ℕ → Shared → Result T) → T → Shared → Result T
take_message handle idle s =
    if available s.reader
    then (reading read_short s >>= λ (command, s'). handle command s')
    else ok idle

pub take_message-empty :
    {T : Type 0} (handle : ℕ → Shared → Result T) (idle : T) (s : Shared)
    → s.reader.queue ≡ []
    → take_message handle idle s ≡ ok idle
unfolding available
take_message-empty handle idle s h = rw h refl

pub take_message-piece :
    {T : Type 0} (handle : ℕ → Shared → Result T) (idle : T) (s : Shared) (p : Piece)
    → s.reader.queue ≡ piece_bytes p
    → take_message handle idle s ≡ handle cmd_connection (arriving (after_command p) s)
unfolding available read_short
take_message-piece handle idle s p h = rw (h, lt→ltb 0 (length (piece_bytes p)) (omega arith)) refl

ne_none-some : {A : Type 0} (o : Option A) → o ≢ none → (a : A) × (o ≡ some a)
ne_none-some none h = absurd (h refl)
ne_none-some (some a) h = (a, refl)

-- The id of the connection, as both ends read it.
pub id_lem : (p : Piece) → IsSmall p → to_int (to_short p.id) ≡ p.id
id_lem p h = ground (arith, h.small_id)

-- The end after a message, from what the connection did.
module _ (open_listener : ConnectionSpec → Opened) (attempt : ConnectionSpec → Attempt)
    (report : Attempt → Shared → Result Shared) where
  -- The same call for both ends.
  abbrev pub dispatched :
      {T : Type 0}
      → (List (ℕ × Side) → Shared → T)
      → List (ℕ × Side)
      → Piece
      → Side
      → Shared
      → Result T
  dispatched put sides p side s =
      process_message open_listener attempt report side
        (arriving (link_bytes (send_command p.flags) p.link_id (data_bytes p.bytes)) s)
      >>= λ (side', s'). ok (put (put_side p.id side' sides) s')

  module _ {T : Type 0} (v : View T) (put : List (ℕ × Side) → Shared → T)
      (put_sides : (sides : List (ℕ × Side)) (s : Shared) → v.sides (put sides s) ≡ sides)
      (put_reader : (sides : List (ℕ × Side)) (s : Shared) → v.reader (put sides s) ≡ s.reader)
      (put_ready : (sides : List (ℕ × Side)) (s : Shared)
        → IsIdle s
        → v.IsReady (put sides s)) where
    taken-Handled :
        (k : Kernel) (fd : ℕ) (p : Piece) (sides : List (ℕ × Side)) (s : Shared)
        (found : Found sides p.id p.link_id) (x : Result (Side × Shared))
        → IsValid s.reader
        → s.writer_polled ≢ none
        → Takes p found.side found.link s x
        → Handled k fd v p sides s.reader
            (x >>= λ (side', s'). ok (put (put_side p.id side' sides) s'))
    taken-Handled k fd p sides s f (ok (side', s')) valid polled t = (
      put_ready (put_side p.id side' sides) s' (record {
        queue = ap (λ (r : ReadStream). r.queue) t.reader;
        valid = subst IsValid (sym t.reader) (IsValid-holding [] s.reader valid);
        polled = subst (λ x. x ≢ none) (sym t.polled) polled;
      }),
      λ id i.
          rw (put_sides (put_side p.id side' sides) s')
            (waiting-put_side p sides f.side side' f.link f.there f.found f.is_open t.links id i),
      ap (λ (r : ReadStream). r.read_buf) (put_reader (put_side p.id side' sides) s' ∙ t.reader),
    )
    taken-Handled k fd p sides s f (throw e) valid polled t = absurd t
    taken-Handled k fd p sides s f undefined valid polled t = absurd t

    pub dispatched-Handled :
        (k : Kernel) (fd : ℕ) (p : Piece) (sides : List (ℕ × Side)) (s : Shared)
        (found : Found sides p.id p.link_id)
        → IsSmall p
        → IsValid s.reader
        → s.writer_polled ≢ none
        → Handled k fd v p sides s.reader (dispatched put sides p found.side s)
    dispatched-Handled k fd p sides s f small valid polled =
        let (q, is_some) = ne_none-some s.writer_polled polled in
        taken-Handled k fd p sides s f _ valid polled (
          process_message-Takes open_listener attempt report p f.side f.link s q small is_some
            f.found f.is_open)
