-- ===== src/Tunnel/Multiplex/Steps.antt =====
-- An end that takes messages off a ReadStream, one for each call: what one call does to the links
-- of its connections.
use tun.Prelude.{
  ℕ, ◌<◌, ◌^◌, ◌≡◌, refl, sym, subst, List, [], ◌∷◌, ◌++◌, map, Bool, true, false, All, length,
  arith,
}
use tun.Net.Result.{Result, ok, throw, undefined, Error, require, ◌>>=◌, ◌>>◌}
use tun.Net.Kernel.{Kernel}
use tun.Net.WriteStream.Packets.{frames}
use tun.Net.ReadStream.{ReadStream}
use tun.Net.ReadStream.Frames.{Progress, waits, delivers, IsValid, unread, Fills}
use tun.Net.ReadStream.Failures.{IsInput, FailsByInput}
use tun.Net.Transfer.{IsFrame-frames}
use tun.Tunnel.Side.{Side}
use tun.Tunnel.Multiplex.{
  Piece, piece_bytes, IsSmall, for_link, waiting, appended, appended-nil, appended-ne-none, IsKnown,
}

-- The parts of an end, and when it takes messages of connections.
pub record View (T : Type 0) : Type 1 where
  pub sides : T → List (ℕ × Side)
  pub reader : T → ReadStream
  pub IsReady : T → Type 0

-- Of the pieces, `done` went to the links, and the rest is unread or `more`, which is not there yet.
pub record IsMoved (ps : List Piece) (more : List ℕ) (sides sides' : List (ℕ × Side)) (u' : List ℕ)
    : Type 0 where
  pub done : List Piece
  pub ahead : List Piece
  pub split : ps ≡ done ++ ahead
  pub moved : (id i : ℕ) → waiting sides' id i ≡ appended (for_link id i done) (waiting sides id i)
  pub left : u' ++ more ≡ frames (map piece_bytes ahead)

-- A piece is a packet whose length fits four bytes.
IsSmall-piece_bytes : (p : Piece) → IsSmall p → length (piece_bytes p) < 2 ^ 32
IsSmall-piece_bytes p h = omega (arith, h.small_bytes)

small_pieces :
    (sides : List (ℕ × Side)) (ps : List Piece)
    → All (IsKnown sides) ps
    → All (λ (m : List ℕ). length m < 2 ^ 32) (map piece_bytes ps)
small_pieces sides [] h = tt
small_pieces sides (p ∷ ps) h = (IsSmall-piece_bytes p h.0.0, small_pieces sides ps h.1)

-- The links that took bytes are still known.
pub still-IsKnown :
    (sides sides' : List (ℕ × Side)) (done ps : List Piece)
    → ((id i : ℕ) → waiting sides' id i ≡ appended (for_link id i done) (waiting sides id i))
    → All (IsKnown sides) ps
    → All (IsKnown sides') ps
still-IsKnown sides sides' done [] e h = tt
still-IsKnown sides sides' done (p ∷ ps) e h = (
  (h.0.0, rw (e p.id p.link_id) (appended-ne-none (for_link p.id p.link_id done) _ h.0.1)),
  still-IsKnown sides sides' done ps e h.1,
)

module _ (k : Kernel) (fd : ℕ) {T : Type 0} (v : View T) where
  open k use {Os}

  abbrev pub Moved : List Piece → List ℕ → List (ℕ × Side) → Result (T × Os) → Type 0
  Moved ps more sides (ok (t', o')) =
      v.IsReady t' × IsMoved ps more sides (v.sides t') (unread k fd (v.reader t') o')
  Moved ps more sides (throw e) = IsInput e
  Moved ps more sides undefined = ⊥

  -- The end took the piece, and only it.
  abbrev pub Handled : Piece → List (ℕ × Side) → ReadStream → Result T → Type 0
  Handled p sides r (ok t') =
      v.IsReady t'
      × ((id i : ℕ)
          → waiting (v.sides t') id i ≡ appended (for_link id i (p ∷ [])) (waiting sides id i))
      × ((v.reader t').read_buf ≡ r.read_buf)
  Handled p sides r (throw e) = ⊥
  Handled p sides r undefined = ⊥

  -- There was no message to take.
  abbrev pub Unchanged : List (ℕ × Side) → ReadStream → Result T → Type 0
  Unchanged sides r (ok t') = v.IsReady t' × (v.sides t' ≡ sides) × (v.reader t' ≡ r)
  Unchanged sides r (throw e) = ⊥
  Unchanged sides r undefined = ⊥

  pub require-Moved :
      (ps : List Piece) (more : List ℕ) (sides : List (ℕ × Side)) (b : Bool) (e : Error)
      (m : Result (T × Os))
      → IsInput e
      → Moved ps more sides m
      → Moved ps more sides (require b e >> m)
  require-Moved ps more sides true e m h g = g
  require-Moved ps more sides false e m h g = h

  Unchanged-Moved :
      (ps : List Piece) (more : List ℕ) (sides : List (ℕ × Side)) (r : ReadStream) (o : Os)
      (m : Result T)
      → Unchanged sides r m
      → unread k fd r o ++ more ≡ frames (map piece_bytes ps)
      → Moved ps more sides (m >>= λ t'. ok (t', o))
  Unchanged-Moved ps more sides r o (ok t') h e = (
    h.0,
    record {
      done = [];
      ahead = ps;
      split = refl;
      moved = λ id i. rw (h.1) (sym (appended-nil _));
      left = rw (h.2) e;
    },
  )
  Unchanged-Moved ps more sides r o (throw x) h e = absurd h
  Unchanged-Moved ps more sides r o undefined h e = absurd h

  Handled-Moved :
      (p : Piece) (ps : List Piece) (more : List ℕ) (sides : List (ℕ × Side)) (r : ReadStream)
      (o : Os) (m : Result T)
      → Handled p sides r m
      → unread k fd r o ++ more ≡ frames (map piece_bytes ps)
      → Moved (p ∷ ps) more sides (m >>= λ t'. ok (t', o))
  Handled-Moved p ps more sides r o (ok t') h e =
      (h.0, record { done = p ∷ []; ahead = ps; split = refl; moved = h.1; left = rw (h.2) e })
  Handled-Moved p ps more sides r o (throw x) h e = absurd h
  Handled-Moved p ps more sides r o undefined h e = absurd h

  -- What follows a `fill` that began with an empty queue.
  module _ (sides : List (ℕ × Side)) (rest : ReadStream → Result T)
      (nothing : (r : ReadStream) → IsValid r → r.queue ≡ [] → Unchanged sides r (rest r))
      (something : (r : ReadStream) (p : Piece)
        → IsValid r
        → r.queue ≡ piece_bytes p
        → IsKnown sides p
        → Handled p sides r (rest r)) where
    Progress-Moved :
        (ps : List Piece) (more u : List ℕ) (r : ReadStream) (o : Os)
        → IsValid r
        → Progress [] u r.queue (unread k fd r o)
        → u ++ more ≡ frames (map piece_bytes ps)
        → All (IsKnown sides) ps
        → Moved ps more sides (rest r >>= λ t'. ok (t', o))
    Progress-Moved ps more u r o valid (waits q same) e h =
        Unchanged-Moved ps more sides r o (rest r) (nothing r valid q) (rw same e)
    Progress-Moved [] more u r o valid (delivers m q frame) e h =
        absurd (cc (subst (λ xs. xs ++ more ≡ []) frame.bytes e))
    Progress-Moved (p ∷ ps) more u r o valid (delivers m q frame) e h =
        let (ns, first, left) =
          IsFrame-frames u m (unread k fd r o) more (map piece_bytes (p ∷ ps)) frame e
            (small_pieces sides (p ∷ ps) h) in
        let whole : r.queue ≡ piece_bytes p = cc in
        let tail : map piece_bytes ps ≡ ns = cc in
        Handled-Moved p ps more sides r o (rest r) (something r p valid whole h.0) (rw tail left)

    pub filled-Moved :
        (ps : List Piece) (more u : List ℕ) (x : Result (ReadStream × Os))
        → Fills k fd [] u x
        → FailsByInput x
        → u ++ more ≡ frames (map piece_bytes ps)
        → All (IsKnown sides) ps
        → Moved ps more sides (x >>= λ (r, o). rest r >>= λ t'. ok (t', o))
    filled-Moved ps more u (ok (r, o)) h f e known = Progress-Moved ps more u r o h.0 h.1 e known
    filled-Moved ps more u (throw x) h f e known = f
    filled-Moved ps more u undefined h f e known = h
