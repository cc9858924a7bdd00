-- ===== src/Tunnel/Options/Configured.antt =====
-- What a configuration that CreateTunnel accepts is like.
use tun.Prelude.{
  ℕ, ◌+◌, ◌≡◌, ◌≤◌, ◌<◌, refl, sym, ap, ◌∙◌, subst, List, [], ◌∷◌, ◌++◌, Bool, true, false, Option,
  none, some, All, length, ◌==◌, ◌&&◌, ◌⊎◌, ltb, not, if◌then◌else◌, arith, Bool-cases, inl, inr,
  All-append,
}
use tun.Net.Result.{
  Result, ok, throw, undefined, ◌>>=◌, ◌>>◌, Error, require, only_version, no_connections,
  no_connection_command, two_socks5_specs,
}
use tun.Tunnel.Spec.{ConnectionSpec, listen, connect, is_socks5}
use tun.Tunnel.Spec.Parse.{parse_connection}
use tun.Tunnel.Spec.Parse.Laws.{IsParsed, parse-IsParsed}
use tun.Tunnel.Options.{
  Setting, set_listen, set_connect, Config, Probe, new_config, scan, setting, option_of, value_of,
  takes_value, configure_one, configure_args, checked_config, configure, create_tunnel, add_connect,
  add_listen, has_command, checked, bind_status,
}

abbrev socks5_count : List ConnectionSpec → ℕ
socks5_count [] = 0
socks5_count (s ∷ ss) = (if is_socks5 s then 1 else 0) + socks5_count ss

-- What parseConnection returns for some text and the direction that the spec has.
pub record IsReturned (s : ConnectionSpec) : Type 0 where
  pub text : List ℕ
  pub returned : parse_connection s.connection_type text ≡ ok s
  pub parsed : IsParsed s.connection_type s

abbrev pub Specs : List ConnectionSpec → Type 0
Specs ss = All IsReturned ss

pub record IsConfigured (c : Config) : Type 0 where
  pub specs : Specs c.specs
  pub some_spec : 0 < length c.specs
  pub one_socks5 : socks5_count c.specs ≤ 1
  pub commanded : has_command c.command ≡ true

-- The predicate holds of what is returned, if something is.
abbrev Yields {ℓ} : {A : Type ℓ} → (A → Type 0) → Result A → Type 0
Yields P (ok a) = P a
Yields P (throw e) = Unit
Yields P undefined = Unit

yields {ℓ} : {A : Type ℓ} {P : A → Type 0} (m : Result A) → ((a : A) → m ≡ ok a → P a) → Yields P m
yields (ok a) h = h a refl
yields (throw e) h = tt
yields undefined h = tt

Yields-bind {ℓ κ} :
    {A : Type ℓ} {B : Type κ} {P : A → Type 0} (Q : B → Type 0) (m : Result A) (f : A → Result B)
    → Yields P m
    → ((a : A) → P a → Yields Q (f a))
    → Yields Q (m >>= f)
Yields-bind Q (ok a) f h k = k a h
Yields-bind Q (throw e) f h k = tt
Yields-bind Q undefined f h k = tt

Yields-require {κ} :
    {B : Type κ} (Q : B → Type 0) (b : Bool) (e : Error) (m : Result B)
    → (b ≡ true → Yields Q m)
    → Yields Q (require b e >> m)
Yields-require Q true e m h = h refl
Yields-require Q false e m h = tt

socks5_count-append :
    (ss : List ConnectionSpec) (s : ConnectionSpec)
    → socks5_count (ss ++ s ∷ []) ≡ socks5_count ss + (if is_socks5 s then 1 else 0)
socks5_count-append [] s = omega arith
socks5_count-append (x ∷ xs) s = omega (arith, socks5_count-append xs s)

abbrev Kept : Config → Type 0
Kept a = Specs a.specs × (a.socks5_spec_count ≡ socks5_count a.specs)

abbrev From : ℕ → List ℕ → ConnectionSpec → Type 0
From d text s = (parse_connection d text ≡ ok s) × IsParsed d s

parse-Yields : (d : ℕ) (text : List ℕ) → Yields (From d text) (parse_connection d text)
parse-Yields d text = yields (parse_connection d text) (λ s e. (e, parse-IsParsed d text s e))

own : {d : ℕ} (text : List ℕ) (s : ConnectionSpec) → From d text s → IsReturned s
own text s (e, h) = record {
  text = text;
  returned = subst (λ x. parse_connection x text ≡ ok s) (sym h.kind) e;
  parsed = subst (λ x. IsParsed x s) (sym h.kind) h;
}

not_socks5 : (s : ConnectionSpec) → IsParsed listen s → is_socks5 s ≡ false
not_socks5 s p = elim (Bool-cases (is_socks5 s)) [
  | inl e ↦ let x : ⊥ = omega (arith, p.socks5_local e) in elim x [ ]
  | inr e ↦ e
]

known : (o : Option (ℕ × List ℕ)) → (o ≡ none) ⊎ ((x : ℕ × List ℕ) × (o ≡ some x))
known none = inl refl
known (some x) = inr (x, refl)

module _ (bind : Bool → ℕ → Probe) where
  add_connect-Kept : (text : List ℕ) (a : Config) → Kept a → Yields Kept (add_connect bind text a)
  unfolding add_connect
  add_connect-Kept text a h =
      Yields-bind Kept (parse_connection connect text) _ (parse-Yields connect text) (λ s p.
        Yields-bind {P = λ u. Unit} Kept
          (if a.silent then checked bind (bind_status bind s) else ok tt) _ (yields _ (λ u e. tt))
          (λ u v. (
            All-append _ a.specs (s ∷ []) h.0 (own text s p, tt),
            ap (λ n. n + (if is_socks5 s then 1 else 0)) h.1 ∙ sym (socks5_count-append a.specs s),
          )))

  add_listen-Kept : (text : List ℕ) (a : Config) → Kept a → Yields Kept (add_listen bind text a)
  unfolding add_listen
  add_listen-Kept text a h =
      Yields-bind Kept (parse_connection listen text) _ (parse-Yields listen text) (λ s p. (
        All-append _ a.specs (s ∷ []) h.0 (own text s p, tt),
        h.1 ∙ sym (rw (not_socks5 s p.1) (omega arith)) ∙ sym (socks5_count-append a.specs s),
      ))

  configure_one-Kept :
      (x : Setting) (value : List ℕ) (a : Config)
      → Kept a
      → Yields Kept (configure_one bind x value a)
  unfolding configure_one
  configure_one-Kept set_listen value a h = add_listen-Kept value a h
  configure_one-Kept set_connect value a h = add_connect-Kept value a h
  configure_one-Kept _ value a h = h

  configure_args-Kept :
      (skip : Bool) (args : List (List ℕ)) (a : Config)
      → Kept a
      → Yields Kept (configure_args bind skip args a)
  unfolding configure_args
  configure_args-Kept skip [] a h = h
  configure_args-Kept true (arg ∷ rest) a h = configure_args-Kept false rest a h
  configure_args-Kept false (arg ∷ rest) a h = elim (known (option_of arg)) [
    | inl e ↦ rw (Yields, e) h
    | inr (o, e) ↦ elim (Bool-cases (o.0 == b'-')) [
      | inl q ↦ rw (Yields, e, q) h
      | inr q ↦
          let v = value_of o.1 rest in
          rw (Yields, e, q)
            (Yields-bind Kept (configure_one bind (setting o.0) v.0 a) _
              (configure_one-Kept (setting o.0) v.0 a h)
              (λ b k. configure_args-Kept (takes_value (setting o.0) && v.1) rest b k))
    ]
  ]

  checked_config-IsConfigured : (a : Config) → Kept a → Yields IsConfigured (checked_config a)
  unfolding checked_config
  checked_config-IsConfigured a h =
      let last = require (not (ltb 1 a.socks5_spec_count)) two_socks5_specs >> ok a in
      Yields-require IsConfigured (not (length a.specs == 0)) no_connections
        (require (has_command a.command) no_connection_command >> last)
        (λ p. Yields-require IsConfigured (has_command a.command) no_connection_command last (λ q.
          Yields-require IsConfigured (not (ltb 1 a.socks5_spec_count)) two_socks5_specs (ok a)
            (λ r. record {
              specs = h.0;
              some_spec = ground (arith, p);
              one_socks5 = ground (arith, h.1, r);
              commanded = q;
            })))

  abbrev Accepted : Option Config → Type 0
  Accepted none = Unit
  Accepted (some c) = IsConfigured c

  create_tunnel-Accepted : (args : List (List ℕ)) → Yields Accepted (create_tunnel bind args)
  unfolding create_tunnel configure new_config
  create_tunnel-Accepted args =
      let local_config = configure bind args new_config >>= λ c. ok (some c) in
      Yields-bind {P = λ x. Unit} Accepted (scan false args _) _ (yields _ (λ x e. tt)) (λ x u.
        Yields-require Accepted (not (x.version && length args == 1)) only_version
          (if x.local then local_config else ok none) (λ v. chosen x.local))
    where
      new_Kept : Kept new_config
      new_Kept = (tt, refl)

      chosen :
          (b : Bool)
          → Yields Accepted
              (if b then (configure bind args new_config >>= λ c. ok (some c)) else ok none)
      chosen false = tt
      chosen true =
          Yields-bind Accepted (configure bind args new_config) _
            (Yields-bind IsConfigured (configure_args bind false args new_config) checked_config
              (configure_args-Kept false args new_config new_Kept) checked_config-IsConfigured)
            (λ c h. h)

  -- What CreateTunnel accepts for a local end, whatever the arguments: at least one spec, each one
  -- a spec that parseConnection returns for some text, at most one of them SOCKS5, and a connection command.
  pub create_tunnel-IsConfigured :
      (args : List (List ℕ)) (c : Config) → create_tunnel bind args ≡ ok (some c) → IsConfigured c
  create_tunnel-IsConfigured args c e = subst (Yields Accepted) e (create_tunnel-Accepted args)
