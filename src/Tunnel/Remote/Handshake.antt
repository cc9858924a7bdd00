-- ===== src/Tunnel/Remote/Handshake.antt =====
-- The CMD_CREATE message: StdioTunnelLocal::startHandshaking of StdioTunnel.cpp writes the specs,
-- and the loop of StdioTunnelRemote::polled reads them.
use tun.Prelude.{
  ℕ, ◌≡◌, ◌<◌, ◌^◌, refl, sym, ◌∙◌, ap, List, [], ◌∷◌, ◌++◌, append_assoc, append-nil, false, All,
  length, arith, to_int, to_short, is_negative, drop, if◌then◌else◌, Bool-cases, inl, inr, map,
  Option, none, some, ltb, length-append, ◌≤◌,
}
use tun.Net.Result.{Result, ok, throw, undefined, uninitialized_write_stream, bind_cong, ◌>>=◌}
use tun.Net.Kernel.{Kernel}
use tun.Net.WriteStream
use tun.Net.WriteStream.{WriteStream, write_short, write_string}
use tun.Net.ReadStream.Values.Laws.{short_bytes, read_short-bytes}
use tun.Tunnel.Spec.{ConnectionSpec, serialize, is_socks5}
use tun.Tunnel.Spec.RoundTrip.{narrow, spec_bytes, queue-serialize, deserialize-Reads}
use tun.Tunnel.Link.{Shared, send, writing}
use tun.Tunnel.Link.Messages.{arriving, sent_to, send-none, send_short, send_long}
use tun.Tunnel.Connection.{Attempt}
use tun.Tunnel.Side.{
  Opened, bind_failed, not_opened, opened, create_connection, initialized, listens,
}
use tun.Tunnel.Remote.{
  Remote, Started, not_started, started, add_side, add_connection, add_socks5, create_one,
  create_loop, handshake, connected, cmd_create,
}

abbrev pub Named : Type 0
Named = ℕ × ConnectionSpec

-- The loop of `startHandshaking` over the connections, by id.
unfoldable pub write_specs : List Named → WriteStream → WriteStream
write_specs [] w = w
write_specs ((id, spec) ∷ rest) w = write_specs rest (serialize spec (write_short id w))

-- The CMD_CREATE message of `startHandshaking`.
unfoldable pub write_create : List Named → WriteStream → WriteStream
unfolding write_specs
write_create specs w = write_specs specs (write_short (length specs) (write_short cmd_create w))

unfoldable pub specs_bytes : List Named → List ℕ
specs_bytes [] = []
specs_bytes ((id, spec) ∷ rest) = short_bytes id ++ (spec_bytes spec ++ specs_bytes rest)

pub queue-write_specs :
    (specs : List Named) (w : WriteStream)
    → (write_specs specs w).queue ≡ w.queue ++ specs_bytes specs
unfolding write_specs specs_bytes write_short
queue-write_specs [] w = sym (append-nil w.queue)
queue-write_specs ((id, spec) ∷ rest) w =
    queue-write_specs rest (serialize spec (write_short id w))
    ∙ (rw (queue-serialize spec (write_short id w)) (simp append_assoc))

-- What is left of the message when its command has been read.
abbrev pub create_body : List Named → List ℕ
create_body specs = drop 2 (write_create specs WriteStream.fresh).queue

pub create_body-eq :
    (specs : List Named) → create_body specs ≡ short_bytes (length specs) ++ specs_bytes specs
unfolding write_create WriteStream.fresh write_short
create_body-eq specs = ap (drop 2) (queue-write_specs specs _)

packet_queue-serialize :
    (spec : ConnectionSpec) (w : WriteStream) → (serialize spec w).packet_queue ≡ w.packet_queue
unfolding serialize write_short write_string
packet_queue-serialize spec w = refl

packet_queue-write_specs :
    (specs : List Named) (w : WriteStream) → (write_specs specs w).packet_queue ≡ w.packet_queue
unfolding write_specs write_short
packet_queue-write_specs [] w = refl
packet_queue-write_specs ((id, spec) ∷ rest) w =
    packet_queue-write_specs rest (serialize spec (write_short id w))
    ∙ packet_queue-serialize spec (write_short id w)

-- The message is written behind what the stream holds, and no packet is touched.
pub write_create_lem :
    (specs : List Named) (w : WriteStream)
    → ((write_create specs w).queue ≡ w.queue ++ (short_bytes cmd_create ++ create_body specs))
      × ((write_create specs w).packet_queue ≡ w.packet_queue)
unfolding write_create write_short
write_create_lem specs w = (
  queue-write_specs specs _ ∙ rw (create_body-eq specs) (simp append_assoc),
  packet_queue-write_specs specs _,
)

fits_count :
    (n : ℕ) → n < 2 ^ 15 → (to_short n ≡ n) × ((if is_negative (to_int n) then 0 else n) ≡ n)
fits_count n h = ground arith

-- The rest of the input, in the tunnel's reader.
abbrev pub at : List ℕ → Remote → Remote
at q t = record t { shared = arriving q t.shared }

abbrev pub HasLength : Named → Type 0
HasLength x = length x.1.connect_host < 2 ^ 32

bind_at :
    {B : Type 0} (q : List ℕ) (m : Result Remote) (f g : Remote → Result B)
    → ((t : Remote) → f (at q t) ≡ g t)
    → (m >>= λ t. ok (at q t)) >>= f ≡ m >>= g
bind_at q (ok t) f g h = h t
bind_at q (throw e) f g h = refl
bind_at q undefined f g h = refl

module _ (k : Kernel) (start_socks5 : ℕ → Started) (open_listener : ConnectionSpec → Opened)
    (attempt : ConnectionSpec → Attempt) (report : Attempt → Shared → Result Shared) where
  abbrev one : ℕ → ConnectionSpec → Remote → Result Remote
  one = create_one k start_socks5 open_listener attempt report

  -- The connections made one after the other.
  unfoldable pub create_all : List Named → Remote → Result Remote
  create_all [] t = ok t
  create_all ((id, spec) ∷ rest) t = one id spec t >>= create_all rest

  abbrev made : ℕ → ConnectionSpec → Remote → Result Remote
  made = add_connection k start_socks5 open_listener attempt report

  abbrev made_at : List ℕ → Result Remote → Result Remote
  made_at q m = m >>= λ t'. ok (at q t')

  initialized-at :
      (q : List ℕ) (id : ℕ) (spec : ConnectionSpec) (t : Remote) (x : Opened)
      → (initialized x spec id (arriving q t.shared) >>= λ y.
          ok (add_side k start_socks5 open_listener attempt report id (at q t) y))
        ≡ made_at q (
            initialized x spec id t.shared >>= λ y.
            ok (add_side k start_socks5 open_listener attempt report id t y))
  unfolding initialized create_one
  initialized-at q id spec t (bind_failed e) = refl
  initialized-at q id spec t not_opened = refl
  initialized-at q id spec t (opened address socket) = refl

  add_connection-at :
      (q : List ℕ) (id : ℕ) (spec : ConnectionSpec) (t : Remote)
      → made id spec (at q t) ≡ made_at q (made id spec t)
  unfolding create_one create_connection
  add_connection-at q id spec t = elim (Bool-cases (listens false spec)) [
    | inl e ↦ rw e (initialized-at q id spec t (open_listener spec))
    | inr e ↦ rw e refl
  ]

  add_socks5-at :
      (q : List ℕ) (id : ℕ) (spec : ConnectionSpec) (t : Remote) (x : Started)
      → add_socks5 k start_socks5 open_listener attempt report id spec (at q t) x
        ≡ made_at q (add_socks5 k start_socks5 open_listener attempt report id spec t x)
  unfolding create_one
  add_socks5-at q id spec t (not_started e) = refl
  add_socks5-at q id spec t (started address fd port) = add_connection-at q id _ _

  -- What arrives after a spec plays no part in its connection.
  create_one-at :
      (q : List ℕ) (id : ℕ) (spec : ConnectionSpec) (t : Remote)
      → one id spec (at q t) ≡ made_at q (one id spec t)
  unfolding create_one
  create_one-at q id spec t = elim (Bool-cases (is_socks5 spec)) [
    | inl e ↦ rw e (elim (Bool-cases t.socks5_server) [
      | inl e' ↦ rw e' refl
      | inr e' ↦ rw e' (add_socks5-at q id spec t (start_socks5 spec.connect_port))
    ])
    | inr e ↦ rw e (add_connection-at q id spec t)
  ]

  abbrev pub received : Named → Named
  received x = (to_int (to_short x.0), narrow x.1)

  create_loop-specs :
      (specs : List Named) (rest : List ℕ) (t : Remote)
      → All HasLength specs
      → create_loop k start_socks5 open_listener attempt report
          (length specs)
          (at (specs_bytes specs ++ rest) t)
        ≡ create_all (map received specs) (at rest t)
  unfolding create_loop create_all specs_bytes
  create_loop-specs [] rest t h = refl
  create_loop-specs ((id, spec) ∷ specs) rest t h =
      let more = specs_bytes specs ++ rest in
      let name = to_int (to_short id) in
      rw
        (
          append_assoc (spec_bytes spec) (specs_bytes specs) rest,
          (read_short-bytes id).takes (spec_bytes spec ++ more) t.shared.reader,
          (deserialize-Reads spec h.0).takes more t.shared.reader,
          create_one-at more name (narrow spec) t,
          create_one-at rest name (narrow spec) t,
        )
        (bind_at more (one name (narrow spec) t) _
            (λ t'. create_all (map received specs) (at rest t'))
            (λ t'. create_loop-specs specs rest t' h.1)
          ∙ sym (
              bind_at rest (one name (narrow spec) t) (create_all (map received specs)) _
                (λ t'. refl)))

  -- What becomes of the answer, two bytes: with a poller, it is sent behind the bytes that the
  -- queue holds already, if there are two or more.
  abbrev pub answer_to : Remote → Option (ℕ × ℕ) → Result Remote
  answer_to t none = throw uninitialized_write_stream
  answer_to t (some p) =
      if ltb (length t.shared.writer.queue) 2
      then undefined
      else ok (record t {
        state = connected;
        shared = sent_to p (writing (write_short cmd_create) t.shared);
      })

  abbrev pub answered : Remote → Result Remote
  answered t = answer_to t t.shared.writer_polled

  answered_lem :
      (t : Remote) (x : Option (ℕ × ℕ))
      → t.shared.writer_polled ≡ x
      → (send (writing (write_short cmd_create) t.shared) >>= λ s.
          ok (record t { state = connected; shared = s }))
        ≡ answer_to t x
  unfolding write_short
  answered_lem t none e = rw (send-none (writing (write_short cmd_create) t.shared) e) refl
  answered_lem t (some p) e =
      let s = writing (write_short cmd_create) t.shared in
      let n = length-append t.shared.writer.queue (short_bytes cmd_create) in
      elim (Bool-cases (ltb (length t.shared.writer.queue) 2)) [
        | inl l ↦
            let few : length t.shared.writer.queue < 2 = ground (arith, l) in
            rw (l, send_short s p e (omega (arith, n)) (omega (arith, n, few))) refl
        | inr l ↦
            let many : 2 ≤ length t.shared.writer.queue = ground (arith, l) in
            rw (l, send_long s p e (omega (arith, n, many))) refl
      ]

  -- The remote end takes from its reader exactly the CMD_CREATE message that startHandshaking
  -- writes, if there are less than 2 ^ 15 specs with hosts shorter than 2 ^ 32: it makes the
  -- connections in the order of the specs, each with its id and ints cut to a short, or fails where
  -- a connection fails. Then it answers and is connected, if it has a poller, and if the queue holds
  -- two bytes or more before the answer; with less, the answer is written past its block, which is
  -- undefined.
  pub handshake-write_create :
      (specs : List Named) (rest : List ℕ) (t : Remote)
      → All HasLength specs
      → length specs < 2 ^ 15
      → handshake k start_socks5 open_listener attempt report cmd_create
          (at (create_body specs ++ rest) t)
        ≡ create_all (map received specs) (at rest t) >>= answered
  unfolding handshake
  handshake-write_create specs rest t h n =
      let f = fits_count (length specs) n in
      rw
        (
          create_body-eq specs,
          (read_short-bytes (length specs)).takes (specs_bytes specs ++ rest) t.shared.reader,
          f.0,
          f.1,
          create_loop-specs specs rest t h,
        )
        (bind_cong (create_all (map received specs) (at rest t))
          (λ t'. answered_lem t' t'.shared.writer_polled refl))
