-- ===== src/Tunnel/Multiplex/Runs.antt =====
-- Any number of calls of an end that takes messages.
use tun.Prelude.{
  ℕ, ◌≡◌, refl, sym, ap, subst, ◌∙◌, List, [], ◌∷◌, ◌++◌, append_assoc, map, All, All-append_right,
}
use tun.Net.Result.{Result, ok, throw, undefined, ◌>>=◌}
use tun.Net.Kernel.{Kernel, Events}
use tun.Net.WriteStream.Packets.{frames}
use tun.Net.ReadStream.Frames.{unread}
use tun.Tunnel.Side.{Side}
use tun.Tunnel.Multiplex.{
  Piece, piece_bytes, for_link, for_link-append, waiting, appended, appended-nil, appended-append,
  IsKnown,
}
use tun.Tunnel.Multiplex.Steps.{View, IsMoved, Moved, still-IsKnown}

IsMoved-trans :
    (ps done ahead : List Piece) (more u : List ℕ) (sides sides1 sides2 : List (ℕ × Side))
    → ps ≡ done ++ ahead
    → ((id i : ℕ) → waiting sides1 id i ≡ appended (for_link id i done) (waiting sides id i))
    → IsMoved ahead more sides1 sides2 u
    → IsMoved ps more sides sides2 u
IsMoved-trans ps done ahead more u sides sides1 sides2 e h m = record {
  done = done ++ m.done;
  ahead = m.ahead;
  split = e ∙ ap (◌++◌ done) m.split ∙ sym (append_assoc done m.done m.ahead);
  moved = λ id i.
      rw (m.moved id i, h id i, for_link-append)
        (appended-append (for_link id i done) (for_link id i m.done) (waiting sides id i));
  left = m.left;
}

-- Any number of calls.
unfoldable pub run_end :
    {T Os : Type 0} → (Events → T → Os → Result (T × Os)) → List Events → T → Os → Result (T × Os)
run_end step [] t o = ok (t, o)
run_end step (revents ∷ rounds) t o = step revents t o >>= λ (t', o'). run_end step rounds t' o'

module _ (k : Kernel) (fd : ℕ) {T : Type 0} (v : View T)
    (step : Events → T → k.Os → Result (T × k.Os))
    (delivers_one : (revents : Events) (t : T) (o : k.Os) (ps : List Piece) (more : List ℕ)
      → v.IsReady t
      → unread k fd (v.reader t) o ++ more ≡ frames (map piece_bytes ps)
      → All (IsKnown (v.sides t)) ps
      → Moved k fd v ps more (v.sides t) (step revents t o)) where
  open k use {Os}

  Moved-trans :
      (ps done ahead : List Piece) (more : List ℕ) (sides sides1 : List (ℕ × Side))
      (x : Result (T × Os))
      → ps ≡ done ++ ahead
      → ((id i : ℕ) → waiting sides1 id i ≡ appended (for_link id i done) (waiting sides id i))
      → Moved k fd v ahead more sides1 x
      → Moved k fd v ps more sides x
  Moved-trans ps done ahead more sides sides1 (ok (t, o)) e h m =
      (m.0, IsMoved-trans ps done ahead more _ sides sides1 (v.sides t) e h m.1)
  Moved-trans ps done ahead more sides sides1 (throw x) e h m = m
  Moved-trans ps done ahead more sides sides1 undefined e h m = m

  then_Moved :
      (ps : List Piece) (more : List ℕ) (sides : List (ℕ × Side)) (x : Result (T × Os))
      (next : T → Os → Result (T × Os))
      → Moved k fd v ps more sides x
      → All (IsKnown sides) ps
      → ((t : T) (o : Os) (qs : List Piece)
          → v.IsReady t
          → unread k fd (v.reader t) o ++ more ≡ frames (map piece_bytes qs)
          → All (IsKnown (v.sides t)) qs
          → Moved k fd v qs more (v.sides t) (next t o))
      → Moved k fd v ps more sides (x >>= λ (t, o). next t o)
  then_Moved ps more sides (ok (t, o)) next (ready, m) known ih =
      let known' : All (IsKnown sides) m.ahead =
        All-append_right (IsKnown sides) m.done m.ahead
          (subst (All (IsKnown sides)) m.split known) in
      Moved-trans ps m.done m.ahead more sides (v.sides t) (next t o) m.split m.moved (
        ih t o m.ahead ready m.left (still-IsKnown sides (v.sides t) m.done m.ahead m.moved known'))
  then_Moved ps more sides (throw x) next m known ih = m
  then_Moved ps more sides undefined next m known ih = m

  pub run_end-Moved :
      (rounds : List Events) (t : T) (o : Os) (ps : List Piece) (more : List ℕ)
      → v.IsReady t
      → unread k fd (v.reader t) o ++ more ≡ frames (map piece_bytes ps)
      → All (IsKnown (v.sides t)) ps
      → Moved k fd v ps more (v.sides t) (run_end step rounds t o)
  unfolding run_end
  run_end-Moved [] t o ps more ready e known = (
    ready,
    record { done = []; ahead = ps; split = refl; moved = λ id i. sym (appended-nil _); left = e },
  )
  run_end-Moved (revents ∷ rounds) t o ps more ready e known =
      then_Moved ps more (v.sides t) (step revents t o) (run_end step rounds)
        (delivers_one revents t o ps more ready e known) known
        (λ t' o' qs ready' e' known'. run_end-Moved rounds t' o' qs more ready' e' known')
