-- ===== src/Tunnel/Main.antt =====
-- main of StdioTunnel.cpp: what its handlers make of an exception, and the exit status.
use tun.Prelude.{
  ◌↔◌, ◌⊎◌, inl, inr, ◌<◌, arith, Bool-cases, ℕ, ◌≡◌, refl, List, Bool, true, false, Option,
  if◌then◌else◌,
}
use tun.Net.Result.{
  Result, ok, throw, undefined, Error, only_version, run_in_daemon, already_in_background,
}
use tun.Tunnel.Options.{Config, Probe, create_tunnel}

-- What is thrown as a `const char*`; all else is a MyException.
unfoldable pub is_message : Error → Bool
is_message only_version = true
is_message run_in_daemon = true
is_message already_in_background = true
is_message _ = false

-- `main_result`, and whether the usage is printed.
pub record Exit : Type 0 where
  pub status : ℕ
  pub usage : Bool

-- The outer handlers.
unfoldable pub caught : Error → Exit
unfolding is_message
caught e = record { status = if is_message e then 0 else 1; usage = false }

-- The inner handler throws an empty message.
unfoldable pub refused : Error → Exit
unfolding caught
refused e = if is_message e then caught e else record (caught only_version) { usage = true }

-- `run` is `startFinish` of the tunnel, whatever it is given.
module _ (probe : Bool → ℕ → Probe) (run : Option Config → Result (Unit {0})) where
  ran : Result (Unit {0}) → Result Exit
  ran (ok x) = ok (record { status = 0; usage = false })
  ran (throw e) = ok (caught e)
  ran undefined = undefined

  created : Result (Option Config) → Result Exit
  unfolding ran
  created (ok c) = ran (run c)
  created (throw e) = ok (refused e)
  created undefined = undefined

  -- `main` with the arguments behind the program's name.
  unfoldable pub main : List (List ℕ) → Result Exit
  unfolding created
  main args = created (create_tunnel probe args)

  -- The run of a tunnel that could be made has thrown, and not a message.
  pub record IsFailure (args : List (List ℕ)) : Type 0 where
    pub config : Option Config
    pub error : Error
    pub made : create_tunnel probe args ≡ ok config
    pub thrown : run config ≡ throw error
    pub exception : is_message error ≡ false

  -- The arguments were refused, and not by a message.
  pub record IsRefusal (args : List (List ℕ)) : Type 0 where
    pub error : Error
    pub thrown : create_tunnel probe args ≡ throw error
    pub exception : is_message error ≡ false

  abbrev pub Ends : List (List ℕ) → Result Exit → Type 0
  Ends args (ok x) =
      ((x.status ≡ 1) ↔ IsFailure args) × ((x.usage ≡ true) ↔ IsRefusal args) × (x.status < 2)
  Ends args (throw e) = ⊥
  Ends args undefined =
      (create_tunnel probe args ≡ undefined)
      ⊎ ((c : Option Config) × (create_tunnel probe args ≡ ok c) × (run c ≡ undefined))

  not_failed :
      (args : List (List ℕ)) (c : Option Config) (x : Unit {0})
      → create_tunnel probe args ≡ ok c
      → run c ≡ ok x
      → ¬ IsFailure args
  not_failed args c x h g f = let a = f.made in let b = f.thrown in cc

  not_made :
      (args : List (List ℕ)) (e : Error) → create_tunnel probe args ≡ throw e → ¬ IsFailure args
  not_made args e h f = let a = f.made in cc

  not_refused :
      (args : List (List ℕ)) (c : Option Config)
      → create_tunnel probe args ≡ ok c
      → ¬ IsRefusal args
  not_refused args c h f = let a = f.thrown in cc

  caught_lem :
      (args : List (List ℕ)) (c : Option Config) (e : Error)
      → create_tunnel probe args ≡ ok c
      → run c ≡ throw e
      → Ends args (ok (caught e))
  unfolding caught
  caught_lem args c e h g = elim (Bool-cases (is_message e)) [
    | inl m ↦ rw m (
      (
        λ q. absurd (omega arith),
        λ f. let a = f.made in let b = f.thrown in let x = f.exception in cc,
      ),
      (λ q. cc, λ f. absurd (not_refused args c h f)),
      omega arith,
    )
    | inr m ↦ rw m (
      (λ q. record { config = c; error = e; made = h; thrown = g; exception = m }, λ f. refl),
      (λ q. cc, λ f. absurd (not_refused args c h f)),
      omega arith,
    )
  ]

  ran-Ends :
      (args : List (List ℕ)) (c : Option Config) (m : Result (Unit {0}))
      → create_tunnel probe args ≡ ok c
      → run c ≡ m
      → Ends args (ran m)
  unfolding ran
  ran-Ends args c (ok x) h g = (
    (λ q. absurd (omega arith), λ f. absurd (not_failed args c x h g f)),
    (λ q. cc, λ f. absurd (not_refused args c h f)),
    omega arith,
  )
  ran-Ends args c (throw e) h g = caught_lem args c e h g
  ran-Ends args c undefined h g = inr (c, h, g)

  refused_lem :
      (args : List (List ℕ)) (e : Error)
      → create_tunnel probe args ≡ throw e
      → Ends args (ok (refused e))
  unfolding refused caught is_message
  refused_lem args e h = elim (Bool-cases (is_message e)) [
    | inl m ↦ rw m (
      (λ q. absurd (omega arith), λ f. absurd (not_made args e h f)),
      (λ q. cc, λ f. let b = f.thrown in let x = f.exception in cc),
      omega arith,
    )
    | inr m ↦ rw m (
      (λ q. absurd (omega arith), λ f. absurd (not_made args e h f)),
      (λ q. record { error = e; thrown = h; exception = m }, λ f. refl),
      omega arith,
    )
  ]

  created-Ends :
      (args : List (List ℕ)) (m : Result (Option Config))
      → create_tunnel probe args ≡ m
      → Ends args (created m)
  unfolding created
  created-Ends args (ok c) h = ran-Ends args c (run c) h refl
  created-Ends args (throw e) h = refused_lem args e h
  created-Ends args undefined h = inl h

  -- No exception leaves main. The exit status is 1 exactly if a tunnel was made and its run threw an
  -- exception that is not a message, and otherwise 0; the usage is printed exactly if the arguments
  -- were refused with such an exception, so that the exit status is 0 then. The behaviour is
  -- undefined only if making the tunnel or running it is.
  pub main-Ends : (args : List (List ℕ)) → Ends args (main args)
  unfolding main
  main-Ends args = created-Ends args (create_tunnel probe args) refl
