-- ===== src/Net/Poller/Start.antt =====
-- Poller::start of Poller.cpp with the PollCallback of StdioTunnel.cpp: rounds of pollOnce until
-- something asks for the end, then `cleanup` of every object.
use tun.Prelude.{
  ℕ, zero, suc, ◌+◌, ◌≡◌, ◌≢◌, refl, ap, ◌∙◌, ◌<◌, ◌≤◌, List, [], ◌∷◌, Bool, true, false, Option,
  none, some, length, ◌==◌, if◌then◌else◌, arith,
}
use mathlib.Core.List.{foldl}
use tun.Net.Result.{Result, ok, throw, undefined, starting_while_finished}
use tun.Net.Kernel.{Events}
use tun.Net.Poller.{
  Poller, Op, PollResult, ready, timed_out, poll_failed, poll_once, request_finish,
}
use tun.Net.Poller.Entries.{Entry}

module _ {W : Type 0} (polled : Entry → W → Result (List Op × W))
    (poll : List (ℕ × Events) → W → PollResult × W) (signaled : W → Bool)
    (cleanup : Entry → W → W) where
  -- `StdioTunnel::pollCallback`, of `g_signaled`.
  unfoldable pub poll_callback : Bool → Poller → Poller
  poll_callback true p = request_finish p
  poll_callback false p = p

  -- The loop over `cleanup`, which has no access to the poller.
  unfoldable pub clean_up : List Entry → W → W
  clean_up [] w = w
  clean_up (e ∷ es) w = clean_up es (cleanup e w)

  -- `none` means that the fuel ran out; start itself has no bound.
  abbrev pub Ending : Type 0
  Ending = Option (Result (Poller × W))

  abbrev pub after_poll : (Poller → W → Ending) → Result (PollResult × Poller × W) → Ending
  after_poll again (ok (timed_out, p, w)) = some (ok (p, w))
  after_poll again (ok (ready revents, p, w)) = again (poll_callback (signaled w) p) w
  after_poll again (ok (poll_failed e, p, w)) = again (poll_callback (signaled w) p) w
  after_poll again (throw e) = some (throw e)
  after_poll again undefined = some undefined

  abbrev pub start_if : (Poller → W → Ending) → Poller → W → Bool → Ending
  start_if again p w true = some (ok (p, clean_up p.entries w))
  start_if again p w false = after_poll again (poll_once polled poll p w)

  unfoldable pub start_loop : ℕ → Poller → W → Ending
  start_loop zero p w = none
  start_loop (suc fuel) p w = start_if (start_loop fuel) p w p.finishing

  unfoldable pub start : ℕ → Poller → W → Ending
  unfolding start_loop
  start fuel p w =
      if length p.entries == 0
      then some (ok (p, w))
      else if p.finishing
      then some (throw starting_while_finished)
      else start_loop fuel p w

  -- A round of pollOnce that returns, other than by a timeout, and before which nothing asked for
  -- the end.
  pub record Round (p : Poller) (w : W) (p' : Poller) (w' : W) : Type 0 where
    pub result : PollResult
    pub going_on : p.finishing ≡ false
    pub in_time : result ≢ timed_out
    pub returns : poll_once polled poll p w ≡ ok (result, p', w')

  -- Rounds before any signal.
  pub data Rounds : Poller → W → ℕ → Poller → W → Type 0 where
    no_round : {p : Poller} {w : W} → Rounds p w 0 p w
    round :
        {n : ℕ} {p p' p'' : Poller} {w w' w'' : W}
        → Round p w p' w'
        → signaled w' ≡ false
        → Rounds p' w' n p'' w''
        → Rounds p w (suc n) p'' w''

  after_Round :
      (p p' : Poller) (w w' : W) (fuel : ℕ)
      → Round p w p' w'
      → start_loop (suc fuel) p w ≡ start_loop fuel (poll_callback (signaled w') p') w'
  unfolding start_loop
  after_Round p p' w w' fuel r =
      ap (start_if (start_loop fuel) p w) r.going_on
      ∙ ap (after_poll (start_loop fuel)) r.returns
      ∙ by_result r.result r.in_time
    where
      by_result :
          (x : PollResult)
          → x ≢ timed_out
          → after_poll (start_loop fuel) (ok (x, p', w'))
            ≡ start_loop fuel (poll_callback (signaled w') p') w'
      by_result (ready revents) h = refl
      by_result timed_out h = elim (h refl) [ ]
      by_result (poll_failed e) h = refl

  quiet-Round :
      (p p' : Poller) (w w' : W) (fuel : ℕ)
      → Round p w p' w'
      → signaled w' ≡ false
      → start_loop (suc fuel) p w ≡ start_loop fuel p' w'
  unfolding poll_callback
  quiet-Round p p' w w' fuel r s =
      after_Round p p' w w' fuel r ∙ ap (λ b. start_loop fuel (poll_callback b p') w') s

  signaled-Round :
      (p p' : Poller) (w w' : W) (fuel : ℕ)
      → Round p w p' w'
      → signaled w' ≡ true
      → start_loop (suc (suc fuel)) p w ≡ some (ok (request_finish p', clean_up p'.entries w'))
  unfolding poll_callback start_loop request_finish
  signaled-Round p p' w w' fuel r s =
      after_Round p p' w w' (suc fuel) r ∙ ap (λ b. start_loop (suc fuel) (poll_callback b p') w') s

  loop-Rounds :
      (fuel : ℕ) {p p' p'' : Poller} {w w' w'' : W} {n : ℕ}
      → n + 2 ≤ fuel
      → Rounds p w n p' w'
      → Round p' w' p'' w''
      → signaled w'' ≡ true
      → start_loop fuel p w ≡ some (ok (request_finish p'', clean_up p''.entries w''))
  loop-Rounds zero h rs r s = let x : ⊥ = omega arith in elim x [ ]
  loop-Rounds (suc zero) h rs r s = let x : ⊥ = omega arith in elim x [ ]
  loop-Rounds (suc (suc fuel)) h no_round r s = signaled-Round _ _ _ _ fuel r s
  loop-Rounds (suc fuel) h (round q z rs) r s =
      quiet-Round _ _ _ _ fuel q z ∙ loop-Rounds fuel (omega arith) rs r s

  clean_up-foldl : (es : List Entry) (w : W) → clean_up es w ≡ foldl (λ x e. cleanup e x) w es
  unfolding clean_up
  clean_up-foldl [] w = refl
  clean_up-foldl (e ∷ es) w = clean_up-foldl es (cleanup e w)

  enters :
      (fuel : ℕ) (p : Poller) (w : W)
      → 0 < length p.entries
      → p.finishing ≡ false
      → start fuel p w ≡ start_loop fuel p w
  unfolding start
  enters fuel p w h f = ground (arith, h, f)

  -- From a poller with an entry, when after some number of rounds of pollOnce without a signal there
  -- is one more, and a signal has come by its end: with fuel for two rounds more than that number
  -- `start` returns then, the poller asked to finish, with `cleanup` called once on each entry that
  -- is left, in the order of the list.
  pub start-Rounds :
      (fuel : ℕ) {p p' p'' : Poller} {w w' w'' : W} {n : ℕ}
      → 0 < length p.entries
      → p.finishing ≡ false
      → n + 2 ≤ fuel
      → Rounds p w n p' w'
      → Round p' w' p'' w''
      → signaled w'' ≡ true
      → start fuel p w ≡ some (ok (request_finish p'', foldl (λ x e. cleanup e x) w'' p''.entries))
  start-Rounds fuel {p = p} {p'' = p''} {w = w} {w'' = w''} h f enough rs r s =
      enters fuel p w h f
      ∙ loop-Rounds fuel enough rs r s
      ∙ ap (λ x. some (ok (request_finish p'', x))) (clean_up-foldl p''.entries w'')
