-- ===== src/Tunnel/Spec/Parse/Laws.antt =====
-- What parseConnection accepts, and what it makes of a spec in its documented form.
use tun.Prelude.{
  ℕ, ◌+◌, ◌-◌, ◌*◌, ◌^◌, ◌<◌, ◌≤◌, ◌≡◌, ◌≢◌, refl, ◌∙◌, ap, sym, List, [], ◌∷◌, ◌++◌, map,
  append_assoc, append-nil, true, false, length, ◌==◌, arith, All, ◌⊎◌,
}
use tun.Net.Result.{ok, throw, Error, bad_connect_host_or_port}
use tun.Tunnel.Spec.{ConnectionSpec, connect, is_socks5}
use tun.Tunnel.Spec.Parse.{
  split_fields, atoi, is_space, is_digit, option_flags, parse_spec, parse_fields, parse_connection,
  to_result, signed_value, skip_spaces, digits_value,
}

-- A part with no separator in it.
abbrev pub IsField : List ℕ → Type 0
IsField = All (λ c. c ≢ b':')

split_fields-field :
    (xs rest field : List ℕ)
    → IsField xs
    → split_fields (xs ++ rest) field ≡ split_fields rest (field ++ xs)
unfolding split_fields
split_fields-field [] rest field h = ap (split_fields rest) (sym (append-nil field))
split_fields-field (c ∷ xs) rest field (hc, hs) =
    let e : (c == b':') ≡ false = ground arith in
    rw (e, split_fields)
      (split_fields-field xs rest (field ++ c ∷ []) hs
        ∙ ap (split_fields rest) (append_assoc field (c ∷ []) xs))

-- The number that digits stand for, the first one the most significant, behind those read so far.
abbrev pub number : ℕ → List ℕ → ℕ
number acc [] = acc
number acc (d ∷ ds) = number (acc * 10 + d) ds

abbrev pub AreDigits : List ℕ → Type 0
AreDigits = All (λ d. d < 10)

-- Digits as they are written.
abbrev pub digits_text : List ℕ → List ℕ
digits_text = map (λ d. 48 + d)

digit-is_digit : (d : ℕ) → d < 10 → is_digit (48 + d) ≡ true
unfolding is_digit
digit-is_digit d h = ground arith

digit-ne-space : (d : ℕ) → d < 10 → is_space (48 + d) ≡ false
unfolding is_space
digit-ne-space d h = ground arith

digits_value-cons :
    (acc d : ℕ) (cs : List ℕ)
    → d < 10
    → digits_value acc ((48 + d) ∷ cs) ≡ digits_value (acc * 10 + d) cs
unfolding digits_value
digits_value-cons acc d cs h = let e : 48 + d - 48 ≡ d = omega arith in rw (digit-is_digit d h, e)

digits_value-digits_text :
    (acc : ℕ) (ds : List ℕ) → AreDigits ds → digits_value acc (digits_text ds) ≡ number acc ds
digits_value-digits_text acc [] h = unfold digits_value in refl
digits_value-digits_text acc (d ∷ ds) h =
    digits_value-cons acc d (digits_text ds) h.0 ∙ digits_value-digits_text (acc * 10 + d) ds h.1

atoi-digit :
    (d : ℕ) (cs : List ℕ)
    → d < 10
    → atoi ((48 + d) ∷ cs) ≡ to_result false (digits_value 0 ((48 + d) ∷ cs))
unfolding atoi
atoi-digit d cs h =
    let minus : ((48 + d) == b'-') ≡ false = ground arith in
    let plus : ((48 + d) == b'+') ≡ false = ground arith in
    rw (digit-ne-space d h, skip_spaces) (rw (minus, plus, signed_value))

-- Digits are read as the number that they stand for, if it is an int.
pub atoi-digits_text :
    (d : ℕ) (ds : List ℕ)
    → AreDigits (d ∷ ds)
    → number 0 (d ∷ ds) < 2 ^ 31
    → atoi (digits_text (d ∷ ds)) ≡ ok (number 0 (d ∷ ds))
unfolding to_result
atoi-digits_text d ds h lt =
    atoi-digit d (digits_text ds) h.0
    ∙ rw (digits_value-digits_text 0 (d ∷ ds) h) (ground (arith, lt))

digits_text-IsField : (ds : List ℕ) → AreDigits ds → IsField (digits_text ds)
digits_text-IsField [] h = tt
digits_text-IsField (d ∷ ds) h = (omega (arith, h.0), digits_text-IsField ds h.1)

-- The options with the separator before them, or nothing.
abbrev pub option_part : List ℕ → List ℕ
option_part [] = []
option_part (o ∷ options) = b':' ∷ o ∷ options

-- A spec as the usage text has it, `listen_port:connect_host:connect_port[:options]`; the ports are
-- given by their digits.
abbrev pub spec_text : List ℕ → List ℕ → List ℕ → List ℕ → List ℕ
spec_text listen host connect options =
    digits_text listen ++ (b':' ∷ (host ++ (b':' ∷ (digits_text connect ++ option_part options))))

abbrev option_fields : List ℕ → List (List ℕ)
option_fields [] = []
option_fields (o ∷ options) = (o ∷ options) ∷ []

split_fields-sep :
    (xs rest : List ℕ)
    → IsField xs
    → split_fields (xs ++ b':' ∷ rest) [] ≡ xs ∷ split_fields rest []
split_fields-sep xs rest h = split_fields-field xs (b':' ∷ rest) [] h ∙ unfold split_fields in refl

split_fields-last :
    (x : ℕ) (xs : List ℕ) → IsField (x ∷ xs) → split_fields (x ∷ xs) [] ≡ (x ∷ xs) ∷ []
split_fields-last x xs h =
    ap (λ ys. split_fields ys []) (sym (append-nil (x ∷ xs)))
    ∙ split_fields-field (x ∷ xs) [] [] h
    ∙ unfold split_fields in refl

split_fields-options :
    (x : ℕ) (xs options : List ℕ)
    → IsField (x ∷ xs)
    → IsField options
    → split_fields ((x ∷ xs) ++ option_part options) [] ≡ (x ∷ xs) ∷ option_fields options
split_fields-options x xs [] h k =
    ap (λ ys. split_fields ys []) (append-nil (x ∷ xs)) ∙ split_fields-last x xs h
split_fields-options x xs (o ∷ options) h k =
    split_fields-sep (x ∷ xs) (o ∷ options) h ∙ ap (◌∷◌ (x ∷ xs)) (split_fields-last o options k)

split_fields-spec_text :
    (c : ℕ) (ls host cs options : List ℕ)
    → AreDigits ls
    → IsField host
    → AreDigits (c ∷ cs)
    → IsField options
    → split_fields (spec_text ls host (c ∷ cs) options) []
      ≡ digits_text ls ∷ host ∷ digits_text (c ∷ cs) ∷ option_fields options
split_fields-spec_text c ls host cs options hl hh hc ho =
    split_fields-sep (digits_text ls) _ (digits_text-IsField ls hl)
    ∙ ap (◌∷◌ (digits_text ls)) (
        split_fields-sep host _ hh
        ∙ ap (◌∷◌ host) (
            split_fields-options (48 + c) (digits_text cs) options (digits_text-IsField (c ∷ cs) hc)
              ho))

parse_spec_ok :
    (direction : ℕ) (listen_text host connect_text options : List ℕ) (lp cp : ℕ)
    → atoi listen_text ≡ ok lp
    → atoi connect_text ≡ ok cp
    → 0 < lp
    → lp < 2 ^ 31
    → cp < 2 ^ 31
    → (0 < length host) ⊎ (direction ≡ connect)
    → parse_spec direction listen_text host connect_text options
      ≡ ok (record {
        connection_type = direction;
        connect_host = host;
        connect_port = cp;
        listen_port = lp;
        flags = option_flags options;
      })
unfolding parse_spec is_socks5
parse_spec_ok direction listen_text host connect_text options lp cp e1 e2 h0 h1 h2 h3 =
    rw (e1, e2) (ground arith)

parse_fields-options :
    (direction : ℕ) (listen_text host connect_text options : List ℕ)
    → parse_fields direction (listen_text ∷ host ∷ connect_text ∷ option_fields options)
      ≡ parse_spec direction listen_text host connect_text options
unfolding parse_fields
parse_fields-options direction a b c [] = refl
parse_fields-options direction a b c (o ∷ options) = refl

-- A spec in the documented form is read back as written: ports in decimal, with any number of
-- digits, that are ints, the listen port not 0; a host and options without a separator, the options
-- left out with their separator where there are none; under -R, a host that is not empty.
pub parse-spec_text :
    (direction l c : ℕ) (ls host cs options : List ℕ)
    → AreDigits (l ∷ ls)
    → IsField host
    → AreDigits (c ∷ cs)
    → IsField options
    → 0 < number 0 (l ∷ ls)
    → number 0 (l ∷ ls) < 2 ^ 31
    → number 0 (c ∷ cs) < 2 ^ 31
    → (0 < length host) ⊎ (direction ≡ connect)
    → parse_connection direction (spec_text (l ∷ ls) host (c ∷ cs) options)
      ≡ ok (record {
        connection_type = direction;
        connect_host = host;
        connect_port = number 0 (c ∷ cs);
        listen_port = number 0 (l ∷ ls);
        flags = option_flags options;
      })
unfolding parse_connection
parse-spec_text direction l c ls host cs options hl hh hc ho h0 h1 h2 h3 =
    ap (parse_fields direction) (split_fields-spec_text c (l ∷ ls) host cs options hl hh hc ho)
    ∙ parse_fields-options direction (digits_text (l ∷ ls)) host (digits_text (c ∷ cs)) options
    ∙ parse_spec_ok direction (digits_text (l ∷ ls)) host (digits_text (c ∷ cs)) options
        (number 0 (l ∷ ls)) (number 0 (c ∷ cs)) (atoi-digits_text l ls hl h1)
        (atoi-digits_text c cs hc h2) h0 h1 h2 h3

-- What a returned spec is known to be.
pub record IsParsed (direction : ℕ) (s : ConnectionSpec) : Type 0 where
  pub kind : s.connection_type ≡ direction
  pub listen_positive : 0 < s.listen_port
  pub listen_int : s.listen_port < 2 ^ 31
  pub connect_int : s.connect_port < 2 ^ 31
  pub known_flags : s.flags ≤ 3
  pub socks5_local : is_socks5 s ≡ true → direction ≡ connect

parse_spec-IsParsed :
    (direction : ℕ) (listen_text host connect_text options : List ℕ) (s : ConnectionSpec)
    → parse_spec direction listen_text host connect_text options ≡ ok s
    → IsParsed direction s
unfolding parse_spec is_socks5
parse_spec-IsParsed direction listen_text host connect_text options s e = record {
  kind = ground arith;
  listen_positive = ground arith;
  listen_int = ground arith;
  connect_int = ground arith;
  known_flags = ground arith;
  socks5_local = λ h. ground arith;
}

signed_value-ne-throw : (xs : List ℕ) (e : Error) → signed_value xs ≢ throw e
unfolding signed_value
signed_value-ne-throw [] e h = cc
signed_value-ne-throw (c ∷ cs) e h = ground arith

atoi-ne-throw : (xs : List ℕ) (e : Error) → atoi xs ≢ throw e
unfolding atoi
atoi-ne-throw xs e = signed_value-ne-throw (skip_spaces xs) e

-- The test for a host without a port, or a port without a host, never fires.
parse_spec-ne-throw :
    (direction : ℕ) (listen_text host connect_text options : List ℕ)
    → parse_spec direction listen_text host connect_text options ≢ throw bad_connect_host_or_port
unfolding parse_spec
parse_spec-ne-throw direction listen_text host connect_text options e = ground (
  arith,
  atoi-ne-throw listen_text bad_connect_host_or_port,
  atoi-ne-throw connect_text bad_connect_host_or_port,
)

parse_fields-IsParsed :
    (direction : ℕ) (fields : List (List ℕ)) (s : ConnectionSpec)
    → parse_fields direction fields ≡ ok s
    → IsParsed direction s
unfolding parse_fields
parse_fields-IsParsed direction (a ∷ b ∷ c ∷ []) s e = parse_spec-IsParsed direction a b c [] s e
parse_fields-IsParsed direction (a ∷ b ∷ c ∷ d ∷ []) s e = parse_spec-IsParsed direction a b c d s e
parse_fields-IsParsed direction _ s e = cc

-- Every spec that is returned has a listen port from 1 and a connect port from 0 within an int, no
-- flags but `a` and `p`, and is a SOCKS5 spec only under -L.
pub parse-IsParsed :
    (direction : ℕ) (arg : List ℕ) (s : ConnectionSpec)
    → parse_connection direction arg ≡ ok s
    → IsParsed direction s
unfolding parse_connection
parse-IsParsed direction arg s = parse_fields-IsParsed direction (split_fields arg []) s

parse_fields-ne-throw :
    (direction : ℕ) (fields : List (List ℕ))
    → parse_fields direction fields ≢ throw bad_connect_host_or_port
unfolding parse_fields
parse_fields-ne-throw direction (a ∷ b ∷ c ∷ []) = parse_spec-ne-throw direction a b c []
parse_fields-ne-throw direction (a ∷ b ∷ c ∷ d ∷ []) = parse_spec-ne-throw direction a b c d
parse_fields-ne-throw direction _ = λ e. cc

-- No argument at all is refused for a host without a port or a port without a host.
pub parse-ne-throw :
    (direction : ℕ) (arg : List ℕ) → parse_connection direction arg ≢ throw bad_connect_host_or_port
unfolding parse_connection
parse-ne-throw direction arg = parse_fields-ne-throw direction (split_fields arg [])
