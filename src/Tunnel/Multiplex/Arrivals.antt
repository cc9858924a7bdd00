-- ===== src/Tunnel/Multiplex/Arrivals.antt =====
-- An end whose reads are not cut: each call takes a whole message.
use tun.Prelude.{
  ℕ, ◌≡◌, ◌≤◌, refl, sym, ap, ◌∙◌, List, [], ◌∷◌, ◌++◌, append_assoc, map, All, true, false, length,
  take, ltb, if◌then◌else◌, ◌+◌, arith,
}
use tun.Net.Result.{Result, ok, throw, undefined, ◌>>=◌}
use tun.Net.Kernel.{Kernel, Events, got}
use tun.Net.WriteStream.Packets.{frame, frames}
use tun.Net.ReadStream.{ReadStream, fill}
use tun.Net.ReadStream.Frames.{IsValid}
use tun.Net.ReadStream.Delivery.{fill_delivers}
use tun.Tunnel.Side.{Side}
use tun.Tunnel.Multiplex.{
  Piece, piece_bytes, IsSmall, for_link, for_link-append, waiting, appended, appended-nil,
  appended-append, IsKnown,
}
use tun.Tunnel.Multiplex.Steps.{View, Handled, still-IsKnown}
use tun.Tunnel.Multiplex.Runs.{run_end}

-- There is input, and no error.
pub record IsReadable (e : Events) : Type 0 where
  pub input : e.pollin ≡ true
  pub no_err : e.pollerr ≡ false
  pub no_hup : e.pollhup ≡ false
  pub no_nval : e.pollnval ≡ false

-- The reader when a piece has come whole.
pub record IsArrived (k : Kernel) (fd : ℕ) (p : Piece) (u : List ℕ) (r : ReadStream) (o : k.Os)
    : Type 0 where
  pub valid : IsValid r
  pub queue : r.queue ≡ piece_bytes p
  pub begun : r.read_buf ≡ []
  pub left : k.incoming o fd ≡ u

pub fill_piece :
    (k : Kernel) (fd : ℕ)
    (full : (n : ℕ) (o : k.Os)
      → n ≤ length (k.incoming o fd)
      → (o' : k.Os) × (k.read fd n o ≡ (got (take n (k.incoming o fd)), o')))
    (p : Piece) (u : List ℕ) (r : ReadStream) (revents : Events) (o : k.Os)
    → revents.pollin ≡ true
    → r.queue ≡ []
    → IsValid r
    → r.read_buf ≡ []
    → k.incoming o fd ≡ frame (piece_bytes p) ++ u
    → IsSmall p
    → (r' : ReadStream) × (o' : k.Os) × (fill k fd revents r o ≡ ok (r', o'))
      × IsArrived k fd p u r' o'
fill_piece k fd full p u r revents o on q v b e small =
    let m : List ℕ = piece_bytes p in
    let r0 : ReadStream = record { queue = []; read_buf = []; read_size = r.read_size } in
    let same : r ≡ r0 = λ i. record { queue = q i; read_buf = b i; read_size = r.read_size } in
    let short : length m ≤ 50000000 = omega (arith, small.small_bytes) in
    let (o', run, left) = fill_delivers k fd full [] m u r.read_size revents o on v.room short e in
    let size : ℕ = if ltb r.read_size (length m + 4) then length m + 4 else r.read_size in
    (
      record { queue = m; read_buf = []; read_size = size },
      o',
      ap (λ x. fill k fd revents x o) same ∙ run,
      record {
        valid = record { room = ground (arith, v.room); within = omega arith; begun = tt };
        queue = refl;
        begun = refl;
        left = left;
      },
    )

module _ (k : Kernel) (fd : ℕ) {T : Type 0} (v : View T) where
  open k use {Os, incoming}

  -- It returns, all the pieces are in their links, and `u` is still to be read.
  pub record IsDelivered (ps : List Piece) (sides : List (ℕ × Side)) (u : List ℕ)
      (x : Result (T × Os)) : Type 0 where
    pub end : T
    pub os : Os
    pub runs : x ≡ ok (end, os)
    pub is_ready : v.IsReady end
    pub moved :
        (id i : ℕ) → waiting (v.sides end) id i ≡ appended (for_link id i ps) (waiting sides id i)
    pub begun : (v.reader end).read_buf ≡ []
    pub left : incoming os fd ≡ u

  pub Handled-IsDelivered :
      (p : Piece) (sides : List (ℕ × Side)) (u : List ℕ) (r : ReadStream) (o : Os) (m : Result T)
      → Handled k fd v p sides r m
      → r.read_buf ≡ []
      → incoming o fd ≡ u
      → IsDelivered (p ∷ []) sides u (m >>= λ t. ok (t, o))
  Handled-IsDelivered p sides u r o (ok t) h e i = record {
    end = t;
    os = o;
    runs = refl;
    is_ready = h.0;
    moved = h.1;
    begun = h.2 ∙ e;
    left = i;
  }
  Handled-IsDelivered p sides u r o (throw x) h e i = absurd h
  Handled-IsDelivered p sides u r o undefined h e i = absurd h

  module _ (step : Events → T → Os → Result (T × Os))
      (take_one : (revents : Events) (t : T) (o : Os) (p : Piece) (u : List ℕ)
        → IsReadable revents
        → v.IsReady t
        → (v.reader t).read_buf ≡ []
        → incoming o fd ≡ frame (piece_bytes p) ++ u
        → IsKnown (v.sides t) p
        → IsDelivered (p ∷ []) (v.sides t) u (step revents t o)) where
    pub run_end-IsDelivered :
        (rounds : List Events) (t : T) (o : Os) (ps : List Piece) (u : List ℕ)
        → length rounds ≡ length ps
        → All IsReadable rounds
        → v.IsReady t
        → (v.reader t).read_buf ≡ []
        → incoming o fd ≡ frames (map piece_bytes ps) ++ u
        → All (IsKnown (v.sides t)) ps
        → IsDelivered ps (v.sides t) u (run_end step rounds t o)
    unfolding run_end
    run_end-IsDelivered [] t o [] u n good ready b e known = record {
      end = t;
      os = o;
      runs = refl;
      is_ready = ready;
      moved = λ id i. sym (appended-nil _);
      begun = b;
      left = e;
    }
    run_end-IsDelivered [] t o (p ∷ ps) u n good ready b e known = absurd (omega arith)
    run_end-IsDelivered (revents ∷ rounds) t o [] u n good ready b e known = absurd (omega arith)
    run_end-IsDelivered (revents ∷ rounds) t o (p ∷ ps) u n good ready b e known =
        let first =
          take_one revents t o p (frames (map piece_bytes ps) ++ u) good.0 ready b
            (e ∙ append_assoc (frame (piece_bytes p)) (frames (map piece_bytes ps)) u) known.0 in
        let others =
          run_end-IsDelivered rounds first.end first.os ps u (omega arith) good.1 first.is_ready
            first.begun first.left
            (still-IsKnown (v.sides t) (v.sides first.end) (p ∷ []) ps first.moved known.1) in
        record {
          end = others.end;
          os = others.os;
          runs = rw (first.runs) others.runs;
          is_ready = others.is_ready;
          moved = λ id i.
              rw (others.moved id i, first.moved id i, for_link-append id i (p ∷ []) ps)
                (appended-append (for_link id i (p ∷ [])) (for_link id i ps)
                  (waiting (v.sides t) id i));
          begun = others.begun;
          left = others.left;
        }
