-- ===== src/Tunnel/Socks/Handshake/Replies.antt =====
-- socks5_handshake ends, and a client that it accepts has had exactly the two answers of RFC 1928.
use tun.Prelude.{
  ℕ, suc, ◌≤◌, ◌≡◌, refl, ◌∙◌, ap, subst, List, [], ◌∷◌, ◌++◌, Bool, true, false, Option, none,
  some, length, take_all, arith, IsByte, All,
}
use tun.Net.Result.{Result, ok, throw, undefined, ◌>>=◌}
use tun.Net.Kernel.{Kernel, Frame, ReadResult, got, read_failed, WriteResult, wrote, write_failed}
use tun.Tunnel.Socks.{Target, socks_target}
use tun.Tunnel.Socks.Bounds.{IsReturn, socks_target-IsReturn}
use tun.Tunnel.Socks.Handshake.{
  Connecting, Reply, failed, opened, ss_1_connected, ss_3_authed, reply_bytes, connect_socks_target,
  is_whole, write_whole, Handshaken, answered, answer, authorized, received, socks5_handshake,
  target_reply,
}

IsReturn-ok : {A : Type 0} (m : Result A) → IsReturn m → (a : A) × (m ≡ ok a)
IsReturn-ok (ok a) h = (a, refl)
IsReturn-ok (throw e) h = elim h [ ]
IsReturn-ok undefined h = elim h [ ]

module _ (k : Kernel) (frame : Frame k) {Addr : Type 0} (inet_ntop : List ℕ → Option (List ℕ))
    (resolve : List ℕ → ℕ → Option Addr) (connect : Addr → Connecting) (fd : ℕ) where
  open k use {Os, read, write, outgoing, write_accepts}

  -- What recv(2) gives are chars.
  abbrev pub ReadsBytes : Type 0
  ReadsBytes = (n : ℕ) (o o' : Os) (bs : List ℕ) → read fd n o ≡ (got bs, o') → All IsByte bs

  -- It ends without undefined behaviour, and a client that is accepted has been sent `pre` and
  -- the answer of success, no more and no less.
  abbrev pub Answers : List ℕ → Handshaken k inet_ntop resolve connect → Type 0
  Answers pre none = ⊥
  Answers pre (some (throw e)) = ⊥
  Answers pre (some undefined) = ⊥
  Answers pre (some (ok (none, o, closed))) = Unit
  Answers pre (some (ok (some socket, o, closed))) =
      outgoing o fd ≡ pre ++ reply_bytes (opened socket)

  abbrev IsWhole : List ℕ → Os → Bool × Os → Type 0
  IsWhole bytes o x = x.0 ≡ true → outgoing x.1 fd ≡ outgoing o fd ++ bytes

  is_whole-IsWhole :
      (bytes : List ℕ) (o : Os) (x : WriteResult × Os)
      → write fd bytes o ≡ x
      → IsWhole bytes o (is_whole k inet_ntop resolve connect (length bytes) x)
  is_whole-IsWhole bytes o (write_failed e, o') w h = cc
  is_whole-IsWhole bytes o (wrote m, o') w h =
      let n : length bytes ≤ m = ground arith in
      (write_accepts fd m bytes o o' w).1
      ∙ ap (λ (xs : List ℕ). outgoing o fd ++ xs) (take_all m bytes n)

  write_whole-IsWhole :
      (bytes : List ℕ) (o : Os)
      → IsWhole bytes o (write_whole k inet_ntop resolve connect fd bytes o)
  unfolding write_whole
  write_whole-IsWhole bytes o = is_whole-IsWhole bytes o (write fd bytes o) refl

  answered-Answers :
      (o : Os) (r : Reply) (closed : List ℕ) (x : Bool × Os)
      → IsWhole (reply_bytes r) o x
      → Answers (outgoing o fd) (answered k inet_ntop resolve connect r closed x)
  answered-Answers o r closed (false, o') h = tt
  answered-Answers o (failed code) closed (true, o') h = tt
  answered-Answers o (opened s) closed (true, o') h = h refl

  answer-Answers :
      (o : Os) (m : Result (Reply × List ℕ)) (x : Reply × List ℕ)
      → m ≡ ok x
      → Answers (outgoing o fd) (answer k inet_ntop resolve connect fd o m)
  answer-Answers o m (r, closed) e =
      rw e (answered-Answers o r closed _ (write_whole-IsWhole (reply_bytes r) o))

  target-returns :
      (buf closed : List ℕ)
      → All IsByte buf
      → (x : Reply × List ℕ) × (connect_socks_target k inet_ntop resolve connect buf closed ≡ ok x)
  unfolding connect_socks_target
  target-returns buf closed h =
      let t = IsReturn-ok (socks_target inet_ntop buf) (socks_target-IsReturn inet_ntop buf h) in
      (
        target_reply k inet_ntop resolve connect closed t.0,
        ap
            (λ (m : Result Target).
              m >>= λ x. ok (target_reply k inet_ntop resolve connect closed x))
            t.1,
      )

  module _ (bytes : ReadsBytes) (fuel : ℕ) (closed : List ℕ) where
    authed-Answers :
        (o : Os) (x : ReadResult × Os)
        → read fd 1024 o ≡ x
        → Answers (outgoing x.1 fd) (
            received k inet_ntop resolve connect
              (λ s o'. socks5_handshake k inet_ntop resolve connect fuel fd closed s o')
              fd
              closed
              ss_3_authed
              x)
    authed-Answers o (read_failed e, o') r = tt
    authed-Answers o (got [], o') r = tt
    authed-Answers o (got (b ∷ bs), o') r =
        let t = target-returns (b ∷ bs) closed (bytes 1024 o o' (b ∷ bs) r) in
        answer-Answers o' _ t.0 t.1

    handshake_authed :
        (o : Os)
        → Answers
            (outgoing o fd)
            (socks5_handshake k inet_ntop resolve connect (suc fuel) fd closed ss_3_authed o)
    unfolding socks5_handshake
    handshake_authed o =
        subst
          (λ q.
            Answers q
              (socks5_handshake k inet_ntop resolve connect (suc fuel) fd closed ss_3_authed o))
          (frame.read_outgoing fd 1024 fd o) (authed-Answers o (read fd 1024 o) refl)

  module _ (bytes : ReadsBytes) (fuel : ℕ) (closed : List ℕ) where
    authorized-Answers :
        (o : Os) (x : Bool × Os)
        → IsWhole (5 ∷ 0 ∷ []) o x
        → Answers (outgoing o fd ++ 5 ∷ 0 ∷ []) (
            authorized k inet_ntop resolve connect
              (λ o'.
                socks5_handshake k inet_ntop resolve connect (suc fuel) fd closed ss_3_authed o')
              closed
              x)
    authorized-Answers o (false, o') h = tt
    authorized-Answers o (true, o') h =
        subst
          (λ q.
            Answers q
              (socks5_handshake k inet_ntop resolve connect (suc fuel) fd closed ss_3_authed o'))
          (h refl) (handshake_authed bytes fuel closed o')

    connected-Answers :
        (x : ReadResult × Os)
        → Answers (outgoing x.1 fd ++ 5 ∷ 0 ∷ []) (
            received k inet_ntop resolve connect
              (λ s o'. socks5_handshake k inet_ntop resolve connect (suc fuel) fd closed s o')
              fd
              closed
              ss_1_connected
              x)
    connected-Answers (read_failed e, o) = tt
    connected-Answers (got [], o) = tt
    connected-Answers (got (b ∷ bs), o) =
        authorized-Answers o _ (write_whole-IsWhole (5 ∷ 0 ∷ []) o)

    -- From a client that has just connected, socks5_handshake ends within two rounds, throws
    -- nothing and runs into no undefined behaviour; if it returns a descriptor, the client has
    -- been sent `5 0` and the ten bytes of success, and nothing else.
    pub handshake-Answers :
        (o : Os)
        → Answers (outgoing o fd ++ 5 ∷ 0 ∷ []) (
            socks5_handshake k inet_ntop resolve connect
              (suc (suc fuel))
              fd
              closed
              ss_1_connected
              o)
    unfolding socks5_handshake
    handshake-Answers o =
        subst
          (λ q. Answers (q ++ 5 ∷ 0 ∷ []) (
            socks5_handshake k inet_ntop resolve connect (suc (suc fuel)) fd closed ss_1_connected
              o))
          (frame.read_outgoing fd 1024 fd o) (connected-Answers (read fd 1024 o))
