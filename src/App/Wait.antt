-- ===== src/App/Wait.antt =====
-- `App::wait_for_stop` and the watchdog.
use optronic.Common.{
  ℕ, zero, suc, ◌+◌, ◌%◌, ◌^◌, ◌<◌, ◌≡◌, refl, ap, ◌∙◌, Bool, true, false, none, some, List, ◌∷◌,
  ◌++◌, replicate, arith,
}
use optronic.App.{App, request_stop, wait_rounds, wait_for_stop}

module _ {ℓ} {W : Type ℓ} where
  wait_rounds-idle :
      (n : ℕ) (app : App W) (rest : List Bool)
      → app.kicks < 2 ^ 64
      → wait_rounds app (replicate n false ++ true ∷ rest)
        ≡ some (record app { stop_requested = true; kicks = (app.kicks + n) % 2 ^ 64 })
  unfolding wait_rounds
  wait_rounds-idle zero app rest low =
      ap (λ (k : ℕ). some (record app { stop_requested = true; kicks = k })) (omega (arith, low))
  wait_rounds-idle (suc n) app rest low =
      wait_rounds-idle n (record app { kicks = (app.kicks + 1) % 2 ^ 64 }) rest (omega arith)
      ∙ ap (λ (k : ℕ). some (record app { stop_requested = true; kicks = k })) (omega arith)

  wait_rounds-never : (n : ℕ) (app : App W) → wait_rounds app (replicate n false) ≡ none
  unfolding wait_rounds
  wait_rounds-never zero app = refl
  wait_rounds-never (suc n) app =
      wait_rounds-never n (record app { kicks = (app.kicks + 1) % 2 ^ 64 })

  -- While nobody asks it to stop, the app waits for as long as there are periods; a request seen at
  -- the end of a period ends the wait in that period, with the watchdog kicked once for each period
  -- before it and not for that one, in a counter that wraps at 2 ^ 64; and after a request made earlier it does not wait, and kicks
  -- nothing.
  pub wait_for_stop-kicks :
      (app : App W) (n : ℕ) (rest : List Bool)
      → app.stop_requested ≡ false
      → app.kicks < 2 ^ 64
      → (wait_for_stop app (replicate n false) ≡ none)
        × (wait_for_stop app (replicate n false ++ true ∷ rest)
            ≡ some (record (request_stop app) { kicks = (app.kicks + n) % 2 ^ 64 }))
        × (wait_for_stop (request_stop app) rest ≡ some (request_stop app))
  unfolding wait_for_stop request_stop
  wait_for_stop-kicks app n rest h low = (
    rw (h, wait_for_stop) (wait_rounds-never n app),
    rw (h, wait_for_stop) (wait_rounds-idle n app rest low),
    refl,
  )
