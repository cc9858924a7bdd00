-- ===== src/Net/ReadStream/Delivery.antt =====
-- `ReadStream::fill` from its caller's side: safe, a step of the framing, prompt, and what it does
-- at the end of the input.
use tun.Prelude.{
  ℕ, suc, ◌+◌, ◌≤◌, ◌<◌, ◌/◌, ◌%◌, ◌≡◌, ◌≢◌, refl, sym, ap, subst, ◌∙◌, List, [], ◌∷◌, ◌++◌,
  append-nil, length, length-append, take, take-append, append_inj_left, of_be32, be32, arith, true,
  false, inl, inr, Bool-cases, ltb, leb, ◌==◌, if◌then◌else◌, sub_size,
}
use tun.Net.Result.{ok, undefined}
use tun.Net.Kernel.{Kernel, Events, got}
use tun.Net.ReadStream.{
  ReadStream, load_length, grow, finish, read_into, got_header, got_body, fill_header, fill_rest,
  fill_body, fill_after, fill,
}
use tun.Net.ReadStream.Frames.{IsValid, Progress, unread, Fills, fill_step_lem}
use tun.Net.WriteStream.Packets.{frame}

module _ (k : Kernel) (fd : ℕ) where
  open k use {Os, read, incoming, read_takes}

  -- From a valid stream `fill` never reads outside its buffer or past its header.
  pub fill-ne-undefined :
      (r : ReadStream) (revents : Events) (o : Os) → IsValid r → fill k fd revents r o ≢ undefined
  fill-ne-undefined r revents o v e =
      subst (Fills k fd r.queue (unread k fd r o)) e (fill_step_lem k fd r revents o v)

  -- A call that returns leaves a valid stream, and either neither the queue nor the unread bytes
  -- change, or one whole packet leaves the unread bytes and its payload joins the queue.
  pub fill_step :
      (r r' : ReadStream) (revents : Events) (o o' : Os)
      → IsValid r
      → fill k fd revents r o ≡ ok (r', o')
      → IsValid r' × Progress r.queue (unread k fd r o) r'.queue (unread k fd r' o')
  fill_step r r' revents o o' v e =
      subst (Fills k fd r.queue (unread k fd r o)) e (fill_step_lem k fd r revents o v)

  -- At the end of the input within a packet, where reads return no bytes, `fill` reports nothing:
  -- it returns with the stream as it was, however often it is called.
  pub fill_stalls :
      (r : ReadStream) (a b c d : ℕ) (t : List ℕ) (revents : Events) (o : Os)
      → ((n : ℕ) → read fd n o ≡ (got [], o))
      → r.read_buf ≡ a ∷ b ∷ c ∷ d ∷ t
      → length t < of_be32 a b c d
      → of_be32 a b c d ≤ 50000000
      → of_be32 a b c d + 4 ≤ r.read_size
      → fill k fd revents r o ≡ ok (r, o)
  unfolding fill fill_header fill_after fill_body fill_rest got_body grow read_into load_length
      finish
  fill_stalls r a b c d t revents o end e h1 h2 h3 = elim (Bool-cases revents.pollin) [
    | inr off ↦ rw off
    | inl on ↦
        let n : ℕ = of_be32 a b c d in
        let r' : ReadStream = record r { read_buf = a ∷ b ∷ c ∷ d ∷ t } in
        let same : r ≡ r' = λ i. record r { read_buf = e i } in
        let len : ℕ = suc (suc (suc (suc (length t)))) in
        let head : ltb len 4 ≡ false = ground arith in
        let small : ltb 50000000 n ≡ false = ground arith in
        let room : ltb r.read_size (n + 4) ≡ false = ground arith in
        let fits : leb (len + sub_size (n + 4) len) r.read_size ≡ true = ground arith in
        let short : (len == (n + 4)) ≡ false = ground arith in
        let run : fill k fd revents r' o ≡ ok (r', o) =
          rw (on, head, small, room, fits, end) (rw (append-nil t) (rw (short, head))) in
        subst (λ s. fill k fd revents s o ≡ ok (s, o)) (sym same) run
  ]

  module _
      (full : (n : ℕ) (o : Os)
        → n ≤ length (incoming o fd)
        → (o' : Os) × (read fd n o ≡ (got (take n (incoming o fd)), o'))) where
    full_read :
        (xs rest : List ℕ) (o : Os)
        → incoming o fd ≡ xs ++ rest
        → (o' : Os) × (read fd (length xs) o ≡ (got xs, o')) × (incoming o' fd ≡ rest)
    full_read xs rest o e =
        let (o', r) = full (length xs) o (omega (arith, ap length e, length-append xs rest)) in
        let front : take (length xs) (incoming o fd) ≡ xs = rw e (take-append xs rest) in
        let r' : read fd (length xs) o ≡ (got xs, o') = rw front at r in
        (
          o',
          r',
          (append_inj_left xs xs (incoming o' fd) rest refl
              (sym ((read_takes fd (length xs) o o' xs r').1) ∙ e)).1,
        )

    -- Where the whole packet can be read at once, one call delivers it.
    pub fill_delivers :
        (q m rest : List ℕ) (s : ℕ) (revents : Events) (o : Os)
        → revents.pollin ≡ true
        → 4 ≤ s
        → length m ≤ 50000000
        → incoming o fd ≡ frame m ++ rest
        → (o' : Os) × (fill k fd revents (record { queue = q; read_buf = []; read_size = s }) o
            ≡ ok (
              record {
                queue = q ++ m;
                read_buf = [];
                read_size = if ltb s (length m + 4) then length m + 4 else s;
              },
              o',
            ))
          × (incoming o' fd ≡ rest)
    unfolding fill fill_header fill_after fill_body fill_rest got_header got_body grow read_into
        load_length
    fill_delivers q m rest s revents o on h1 h2 e =
        let n : ℕ = length m in
        let size : ℕ = if ltb s (n + 4) then n + 4 else s in
        let (o1, e1, i1) = full_read (be32 n) (m ++ rest) o e in
        let (o2, e2, i2) = full_read m rest o1 i1 in
        let len : of_be32 (n / 16777216 % 256) (n / 65536 % 256) (n / 256 % 256) (n % 256) ≡ n =
          omega arith in
        let head : leb 4 s ≡ true = ground arith in
        let small : ltb 50000000 n ≡ false = ground arith in
        let count : sub_size (n + 4) 4 ≡ n = omega arith in
        let fits : leb (4 + n) size ≡ true = ground arith in
        let whole : (suc (suc (suc (suc n))) == (n + 4)) ≡ true = ground arith in
        (o2, rw (on, head, e1) (rw (len, small, count, fits, e2) (unfold finish in (rw whole))), i2)
