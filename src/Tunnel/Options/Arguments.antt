-- ===== src/Tunnel/Options/Arguments.antt =====
-- Command lines of options in their documented forms, and what CreateTunnel makes of them.
use tun.Prelude.{ℕ, ◌≡◌, refl, ◌∙◌, sym, List, [], ◌∷◌, ◌++◌, Bool, true, false, some}
use tun.Net.Result.{Result, ok, ◌>>=◌, bind_assoc, bind_cong}
use tun.Tunnel.Options.{
  Setting, set_listen, set_connect, set_force_pipe, set_expects_pipe, set_daemon, set_silent,
  set_pattern, set_cmd, set_nothing, Config, Scan, Probe, new_config, scan, configure_one,
  configure_args, takes_value, configure, checked_config, create_tunnel,
}

-- A value in the next argument, or behind the option letter.
pub data Value : Type 0 where
  apart : List ℕ → Value
  joined : ℕ → List ℕ → Value

abbrev pub text_of : Value → List ℕ
text_of (apart text) = text
text_of (joined c text) = c ∷ text

pub data Item : Type 0 where
  listen_item connect_item pattern_item cmd_item : Value → Item
  force_pipe_item expects_pipe_item daemon_item silent_item trace_item local_item : Item

abbrev valued : ℕ → Value → List (List ℕ)
valued letter (apart text) = (b'-' ∷ letter ∷ []) ∷ text ∷ []
valued letter (joined c text) = (b'-' ∷ letter ∷ c ∷ text) ∷ []

abbrev plain : ℕ → List (List ℕ)
plain letter = (b'-' ∷ letter ∷ []) ∷ []

-- The arguments of an option.
abbrev pub words : Item → List (List ℕ)
words (listen_item v) = valued b'R' v
words (connect_item v) = valued b'L' v
words (pattern_item v) = valued b'p' v
words (cmd_item v) = valued b'c' v
words force_pipe_item = plain b'T'
words expects_pipe_item = plain b't'
words daemon_item = plain b'd'
words silent_item = plain b's'
words trace_item = plain b'D'
words local_item = plain b'l'

-- The options, then `--` and the command.
abbrev pub arguments : List Item → List (List ℕ) → List (List ℕ)
arguments [] command = (b'-' ∷ b'-' ∷ []) ∷ command
arguments (x ∷ xs) command = words x ++ arguments xs command

abbrev pub meaning : Item → Setting × List ℕ
meaning (listen_item v) = (set_listen, text_of v)
meaning (connect_item v) = (set_connect, text_of v)
meaning (pattern_item v) = (set_pattern, text_of v)
meaning (cmd_item v) = (set_cmd, text_of v)
meaning force_pipe_item = (set_force_pipe, [])
meaning expects_pipe_item = (set_expects_pipe, [])
meaning daemon_item = (set_daemon, [])
meaning silent_item = (set_silent, [])
meaning trace_item = (set_nothing, [])
meaning local_item = (set_nothing, [])

abbrev scanned : Item → Scan → Scan
scanned trace_item a = record a { traced = true }
scanned local_item a = record a { local = true }
scanned _ a = a

scanned-local : (x : Item) (a : Scan) → a.local ≡ true → (scanned x a).local ≡ true
scanned-local local_item a h = refl
scanned-local _ a h = h

scanned-version : (x : Item) (a : Scan) → a.version ≡ false → (scanned x a).version ≡ false
scanned-version trace_item a h = h
scanned-version local_item a h = h
scanned-version _ a h = h

scan-words :
    (x : Item) (rest : List (List ℕ)) (a : Scan)
    → scan false (words x ++ rest) a ≡ scan false rest (scanned x a)
unfolding scan
scan-words (listen_item (apart text)) rest a = refl
scan-words (listen_item (joined c text)) rest a = refl
scan-words (connect_item (apart text)) rest a = refl
scan-words (connect_item (joined c text)) rest a = refl
scan-words (pattern_item (apart text)) rest a = refl
scan-words (pattern_item (joined c text)) rest a = refl
scan-words (cmd_item (apart text)) rest a = refl
scan-words (cmd_item (joined c text)) rest a = refl
scan-words _ rest a = refl

scan-arguments :
    (items : List Item) (command : List (List ℕ)) (a : Scan)
    → a.local ≡ true
    → a.version ≡ false
    → (b : Scan) × (scan false (arguments items command) a ≡ ok b)
      × (b.local ≡ true)
      × (b.version ≡ false)
unfolding scan
scan-arguments [] command a h k = (a, refl, h, k)
scan-arguments (x ∷ xs) command a h k =
    let r = scan-arguments xs command (scanned x a) (scanned-local x a h) (scanned-version x a k) in
    (r.0, scan-words x (arguments xs command) a ∙ r.1, r.2, r.3)

module _ (bind : Bool → ℕ → Probe) where
  -- The options one after another.
  abbrev pub applied : List Item → Config → Result Config
  applied [] a = ok a
  applied (x ∷ xs) a = configure_one bind (meaning x).0 (meaning x).1 a >>= applied xs

  abbrev under : List (List ℕ) → Config → Result Config
  under command a = ok (record a { command = some command })

  configure_args-words :
      (x : Item) (rest : List (List ℕ)) (a : Config)
      → configure_args bind false (words x ++ rest) a
        ≡ configure_one bind (meaning x).0 (meaning x).1 a >>= configure_args bind false rest
  unfolding configure_args takes_value
  configure_args-words (listen_item (apart text)) rest a = refl
  configure_args-words (listen_item (joined c text)) rest a = refl
  configure_args-words (connect_item (apart text)) rest a = refl
  configure_args-words (connect_item (joined c text)) rest a = refl
  configure_args-words (pattern_item (apart text)) rest a = refl
  configure_args-words (pattern_item (joined c text)) rest a = refl
  configure_args-words (cmd_item (apart text)) rest a = refl
  configure_args-words (cmd_item (joined c text)) rest a = refl
  configure_args-words _ rest a = refl

  configure_args-arguments :
      (items : List Item) (command : List (List ℕ)) (a : Config)
      → configure_args bind false (arguments items command) a ≡ applied items a >>= under command
  unfolding configure_args
  configure_args-arguments [] command a = refl
  configure_args-arguments (x ∷ xs) command a =
      configure_args-words x (arguments xs command) a
      ∙ bind_cong (configure_one bind (meaning x).0 (meaning x).1 a)
          (configure_args-arguments xs command)
      ∙ sym (
          bind_assoc (configure_one bind (meaning x).0 (meaning x).1 a) (applied xs)
            (under command))

  -- Options in their documented forms, a value in the next argument or behind its letter, before
  -- `--` and the connection command: CreateTunnel makes a local end, with the options applied one
  -- after another from left to right to the initial configuration, and the checks at the end.
  pub create_tunnel-arguments :
      (items : List Item) (command : List (List ℕ))
      → create_tunnel bind (arguments items command)
        ≡ applied items new_config >>= λ a.
            checked_config (record a { command = some command }) >>= λ b. ok (some b)
  unfolding create_tunnel configure
  create_tunnel-arguments items command =
      let s =
        scan-arguments items command (record { local = true; version = false; traced = false }) refl
          refl in
      rw (s.1, s.2, s.3, configure_args-arguments items command new_config)
        (bind_assoc (applied items new_config >>= under command) checked_config (λ b. ok (some b))
          ∙ bind_assoc (applied items new_config) (under command)
              (λ a. checked_config a >>= λ b. ok (some b)))
