-- ===== src/Tunnel/Detector/Laws.antt =====
-- When the detector starts the handshake.
use tun.Prelude.{
  ℕ, zero, suc, ◌+◌, ◌<◌, ◌≤◌, ◌≡◌, ◌≢◌, refl, ap, ap₂, sym, ◌∙◌, List, [], ◌∷◌, ◌++◌, append_assoc,
  Bool, true, false, length, ltb, leb, ◌==◌, arith, All, take, take_all, length-append, Bool-cases,
  inl, inr,
}
use tun.Net.Result.{Result, ok, throw, undefined, ◌>>=◌}
use tun.Tunnel.Detector.{
  Detector, Signal, start_handshaking, remote_init, char_at, match_byte, match_login, Processed,
  after_login, after_magic, process_read_data,
}

-- The search for the magic string alone.
abbrev scan_next : (ℕ → Result (ℕ × Bool)) → ℕ × Bool → Result (ℕ × Bool)
scan_next again (n, true) = ok (n, true)
scan_next again (n, false) = again n

unfoldable pub scan : List ℕ → List ℕ → ℕ → Result (ℕ × Bool)
scan magic [] n = ok (n, false)
scan magic (b ∷ bs) n = match_byte magic n b >>= scan_next (scan magic bs)

abbrev pub starts : List Signal → Bool
starts [] = false
starts (start_handshaking ∷ signals) = true
starts (remote_init ∷ signals) = starts signals

-- The outcome as the search sees it.
abbrev pub view : Processed → Result (ℕ × Bool)
view (ok (d, signals)) = ok (d.recognized_count, starts signals)
view (throw e) = throw e
view undefined = undefined

char_at-ok : (s : List ℕ) (n : ℕ) → n ≤ length s → (c : ℕ) × (char_at s n ≡ ok c)
unfolding char_at
char_at-ok [] zero h = (0, refl)
char_at-ok [] (suc n) h = absurd (omega arith)
char_at-ok (c ∷ s) zero h = (c, refl)
char_at-ok (c ∷ s) (suc n) h = char_at-ok s n (omega arith)

-- The login search always returns, and leaves the other one alone.
match_login-ok :
    (byte : ℕ) (d : Detector)
    → (d' : Detector) × (found : Bool) × (match_login byte d ≡ ok (d', found))
      × (d'.recognized_count ≡ d.recognized_count)
      × (d'.magic_string ≡ d.magic_string)
unfolding match_login match_byte
match_login-ok byte d = elim (Bool-cases (ltb d.recognized_login_count (length d.login_pattern))) [
  | inr e ↦ rw e (d, false, refl, refl, refl)
  | inl e ↦ elim (Bool-cases (ltb 0 (length d.remote_cmd))) [
    | inr f ↦ rw (e, f) (record d { recognized_login_count = 0 }, false, refl, refl, refl)
    | inl f ↦
        let (c, at) = char_at-ok d.login_pattern d.recognized_login_count (ground (arith, e)) in
        rw (e, f, at) (_, _, refl, refl, refl)
  ]
]

view-remote_init :
    (x : Processed) → view (x >>= λ (d', signals). ok (d', remote_init ∷ signals)) ≡ view x
view-remote_init (ok (d, s)) = refl
view-remote_init (throw e) = refl
view-remote_init undefined = refl

view-after_login :
    (again : Detector → Processed) (d : Detector) (found : Bool)
    → view (after_login again (d, found)) ≡ view (again d)
view-after_login again d true = view-remote_init (again d)
view-after_login again d false = refl

view_step :
    (bs : List ℕ) (b : ℕ) (d : Detector) (x : Result (ℕ × Bool))
    → ((d' : Detector)
        → view (process_read_data bs d') ≡ scan d'.magic_string bs d'.recognized_count)
    → view (x >>= after_magic (process_read_data bs) d b)
      ≡ (x >>= scan_next (scan d.magic_string bs))
view_step bs b d (throw e) ih = refl
view_step bs b d undefined ih = refl
view_step bs b d (ok (n, true)) ih = refl
view_step bs b d (ok (n, false)) ih =
    let (d', found, e, count, magic) = match_login-ok b (record d { recognized_count = n }) in
    rw e (view-after_login (process_read_data bs) d' found ∙ ih d' ∙ rw (count, magic))

-- The login search never gets in the way of the search for the magic string.
view-process :
    (bs : List ℕ) (d : Detector)
    → view (process_read_data bs d) ≡ scan d.magic_string bs d.recognized_count
unfolding process_read_data scan
view-process [] d = refl
view-process (b ∷ bs) d =
    view_step bs b d (match_byte d.magic_string d.recognized_count b) (view-process bs)

started :
    (x : Processed) (n : ℕ)
    → view x ≡ ok (n, true)
    → (d : Detector) × (signals : List Signal) × (x ≡ ok (d, signals)) × (starts signals ≡ true)
started (ok (d, signals)) n h = (d, signals, refl, cc)
started (throw e) n h = cc
started undefined n h = cc

char_at-append : (xs : List ℕ) (c : ℕ) (ys : List ℕ) → char_at (xs ++ c ∷ ys) (length xs) ≡ ok c
unfolding char_at
char_at-append [] c ys = refl
char_at-append (x ∷ xs) c ys = char_at-append xs c ys

byte_match :
    (m front : List ℕ) (c : ℕ) (back : List ℕ)
    → m ≡ front ++ c ∷ back
    → match_byte m (length front) c ≡ ok (length front + 1, leb (length m) (length front + 1))
unfolding match_byte
byte_match m front c back split =
    let at : char_at m (length front) ≡ ok c =
      ap (λ s. char_at s (length front)) split ∙ char_at-append front c back in
    let same : (c == c) ≡ true = ground arith in rw (at, same)

scan_match :
    (m front : List ℕ) (c : ℕ) (back post : List ℕ)
    → m ≡ front ++ c ∷ back
    → scan m (c ∷ back ++ post) (length front) ≡ ok (length m, true)
unfolding scan
scan_match m front c [] post split =
    let len : length m ≡ length front + 1 = ap length split ∙ length-append front (c ∷ []) in
    let end : leb (length m) (length front + 1) ≡ true = ground (arith, len) in
    rw (byte_match m front c [] split, end) (ap (λ n. ok (n, true)) (sym len))
scan_match m front c (c' ∷ back) post split =
    let len : length m ≡ length front + suc (suc (length back)) =
      ap length split ∙ length-append front (c ∷ c' ∷ back) in
    let more : leb (length m) (length front + 1) ≡ false = ground (arith, len) in
    let count : length front + 1 ≡ length (front ++ c ∷ []) = sym (length-append front (c ∷ [])) in
    rw (byte_match m front c (c' ∷ back) split, more)
      (ap (scan m (c' ∷ back ++ post)) count
        ∙ scan_match m (front ++ c ∷ []) c' back post
            (split ∙ sym (append_assoc front (c ∷ []) (c' ∷ back))))

scan_skip :
    (c : ℕ) (magic pre rest : List ℕ)
    → All (λ b. b ≢ c) pre
    → scan (c ∷ magic) (pre ++ rest) 0 ≡ scan (c ∷ magic) rest 0
unfolding scan match_byte char_at
scan_skip c magic [] rest h = refl
scan_skip c magic (b ∷ pre) rest (hb, hs) =
    let other : (b == c) ≡ false = ground arith in rw other (scan_skip c magic pre rest hs)

-- The handshake starts when the magic string is read, if its first byte does not occur before it
-- and the detector has just begun.
pub process_detects :
    (d : Detector) (c : ℕ) (magic pre post : List ℕ)
    → d.magic_string ≡ c ∷ magic
    → d.recognized_count ≡ 0
    → All (λ b. b ≢ c) pre
    → (d' : Detector) × (signals : List Signal) × (process_read_data
          (pre ++ ((c ∷ magic) ++ post))
          d
        ≡ ok (d', signals))
      × (starts signals ≡ true)
process_detects d c magic pre post hm hc h = started _ (length (c ∷ magic)) (
    view-process (pre ++ ((c ∷ magic) ++ post)) d
    ∙ ap₂ (λ m n. scan m (pre ++ ((c ∷ magic) ++ post)) n) hm hc
    ∙ scan_skip c magic pre ((c ∷ magic) ++ post) h
    ∙ scan_match (c ∷ magic) [] c magic post refl)

-- What the remote end writes when it starts.
abbrev pub magic_text : List ℕ
magic_text =
    83 ∷ 84 ∷ 68 ∷ 73 ∷ 79 ∷ 95 ∷ 84 ∷ 85 ∷ 78 ∷ 78 ∷ 69 ∷ 76 ∷ 32 ∷ 77 ∷ 65 ∷ 71 ∷ 73 ∷ 67 ∷ 32
    ∷ 72 ∷ 65 ∷ 78 ∷ 68 ∷ 83 ∷ 72 ∷ 65 ∷ 75 ∷ 69 ∷ 32 ∷ 45 ∷ 45 ∷ []

-- After a byte `S` the same magic string goes by unnoticed: the search does not look again at a
-- byte that breaks a match.
pub process_misses :
    (d d' : Detector) (signals : List Signal)
    → d.magic_string ≡ magic_text
    → d.recognized_count ≡ 0
    → process_read_data (b'S' ∷ magic_text) d ≡ ok (d', signals)
    → starts signals ≡ false
process_misses d d' signals hm hc e =
    let seen : ok (d'.recognized_count, starts signals) ≡ scan magic_text (b'S' ∷ magic_text) 0 =
      ap view (sym e)
      ∙ view-process (b'S' ∷ magic_text) d
      ∙ ap₂ (λ m n. scan m (b'S' ∷ magic_text) n) hm hc in
    let missed : scan magic_text (b'S' ∷ magic_text) 0 ≡ ok (0, false) =
      unfold scan match_byte char_at in refl in
    cc (seen, missed)

take-suc :
    (s : List ℕ) (n c : ℕ) → n < length s → char_at s n ≡ ok c → take (suc n) s ≡ take n s ++ c ∷ []
unfolding char_at
take-suc [] n c h e = absurd (omega arith)
take-suc (x ∷ s) zero c h e = cc
take-suc (x ∷ s) (suc n) c h e = ap (◌∷◌ x) (take-suc s n c (omega arith) e)

scan_sound :
    (m bs : List ℕ) (n n' : ℕ) (before : List ℕ)
    → n < length m
    → scan m bs n ≡ ok (n', true)
    → (pre : List ℕ) × (post : List ℕ) × (before ++ (take n m ++ bs) ≡ pre ++ (m ++ post))
unfolding scan match_byte
scan_sound m [] n n' before h e = cc
scan_sound m (b ∷ bs) n n' before h e =
    let (c, at) = char_at-ok m n (omega arith) in
    let e1 = rw at at e in
    let moved : (b == c) ≡ true → take n m ++ b ∷ bs ≡ take (suc n) m ++ bs = λ same.
      let eq : c ≡ b = ground (arith, same) in
      rw (take-suc m n c h at, eq) (sym (append_assoc (take n m) (b ∷ []) bs)) in
    elim (Bool-cases (b == c)) [
      | inr other ↦
          let (pre, post, found) =
            scan_sound m bs 0 n' (before ++ (take n m ++ b ∷ [])) (omega arith) (rw other at e1) in
          (pre, post, simp append_assoc at found)
      | inl same ↦ elim (Bool-cases (leb (length m) (n + 1))) [
        | inl end ↦
            let whole : take (suc n) m ≡ m = take_all (suc n) m (ground (arith, end)) in
            (before, bs, ap (◌++◌ before) (moved same ∙ ap (λ s. s ++ bs) whole))
        | inr more ↦
            let next : n + 1 ≡ suc n = omega arith in
            let (pre, post, found) =
              scan_sound m bs (suc n) n' before (ground (arith, more))
                (rw (same, more, next) at e1) in
            (pre, post, rw (moved same) found)
      ]
    ]

-- The handshake starts only behind a whole magic string: after the bytes `before`, whose last ones
-- are the part of it that is recognized so far, it has been read in full.
pub process_sound :
    (d d' : Detector) (before bs : List ℕ) (signals : List Signal)
    → d.recognized_count < length d.magic_string
    → process_read_data bs d ≡ ok (d', signals)
    → starts signals ≡ true
    → (pre : List ℕ) × (post : List ℕ) × (before ++ (take d.recognized_count d.magic_string ++ bs)
        ≡ pre ++ (d.magic_string ++ post))
process_sound d d' before bs signals h e s =
    scan_sound d.magic_string bs d.recognized_count d'.recognized_count before h
      (sym (view-process bs d) ∙ ap view e ∙ ap (λ t. ok (d'.recognized_count, t)) s)
