-- ===== src/App.antt =====
-- framework/app: startup and shutdown order (component.hpp, app.hpp, app.cpp). A component is what it
-- does to the world `W` that the components share; `init` and `start` may fail, `stop` may not.
pub mod Order
pub mod Trace
pub mod Wait
pub mod Signals
pub mod Tidy
mod Tests
use optronic.Common.{
  ℕ, zero, suc, Bool, true, false, Option, none, some, List, [], ◌∷◌, ◌++◌, get_elem?, ◌+◌, ◌%◌,
  ◌^◌,
}
use optronic.Core.Expected.{Expected, ok, err, Status, done}

pub record Component {ℓ} (W : Type ℓ) : Type ℓ where
  pub init : W → Status × W
  pub start : W → Status × W
  pub stop : W → W

-- `components_`, `started_`, `running_`, `stop_requested_` and `kicks_`, which wraps at 2 ^ 64.
pub record App {ℓ} (W : Type ℓ) : Type ℓ where
  pub components : List (Component W)
  pub started : ℕ
  pub running : Bool
  pub stop_requested : Bool
  pub kicks : ℕ

-- A default-constructed App.
abbrev pub fresh {ℓ} : {W : Type ℓ} → App W
fresh = record { components = []; started = 0; running = false; stop_requested = false; kicks = 0 }

module _ {ℓ} {W : Type ℓ} where
  unfoldable pub add : App W → Component W → App W
  add app c = record app { components = app.components ++ c ∷ [] }

  -- The loop of `stop_through`: `count` falls to 0, and `components_[count]` is stopped each time.
  -- (An index out of range is undefined in the source; here it is passed over.)
  unfoldable pub stop_down : List (Component W) → ℕ → W → W
  stop_down cs zero w = w
  stop_down cs (suc count) w = elim (get_elem? cs count) [
    | none ↦ stop_down cs count w
    | some c ↦ stop_down cs count (c.stop w)
  ]

  unfoldable pub stop_through : App W → ℕ → W → App W × W
  unfolding stop_down
  stop_through app count w = (record app { started = 0 }, stop_down app.components count w)

  -- The loop of `start` from index `i` on; the list is `components_[i..]`.
  unfoldable pub start_from : List (Component W) → ℕ → App W → W → Status × App W × W
  unfolding stop_through
  start_from [] i app w = (done, record app { running = true }, w)
  start_from (c ∷ cs) i app w =
      let (s, w1) = c.init w in
      elim s [
        | err e ↦ let (app', w') = stop_through app i w1 in (err e, app', w')
        | ok _ ↦
            let app1 = record app { started = i + 1 } in
            let (s', w2) = c.start w1 in
            elim s' [
              | err e ↦ let (app', w') = stop_through app1 app1.started w2 in (err e, app', w')
              | ok _ ↦ start_from cs (i + 1) app1 w2
            ]
      ]

  unfoldable pub start : App W → W → Status × App W × W
  unfolding start_from
  start app w = start_from app.components 0 app w

  unfoldable pub stop : App W → W → App W × W
  unfolding stop_through
  stop app w =
      let (app', w') = stop_through app app.started w in (record app' { running = false }, w')

  -- ~App: the components are as it leaves them.
  abbrev pub destroy : App W → W → W
  destroy app w = (stop app w).1

  unfoldable pub request_stop : App W → App W
  request_stop app = record app { stop_requested = true }

  -- `wait_for_stop`: one entry for each `wait_for` of the loop, which says whether the flag was set
  -- when that wait ended. `none` means that the loop still waits when the entries end.
  unfoldable pub wait_rounds : App W → List Bool → Option (App W)
  wait_rounds app [] = none
  wait_rounds app (set ∷ rest) = elim set [
    | true ↦ some (record app { stop_requested = true })
    | false ↦ wait_rounds (record app { kicks = (app.kicks + 1) % 2 ^ 64 }) rest
  ]

  unfoldable pub wait_for_stop : App W → List Bool → Option (App W)
  unfolding wait_rounds
  wait_for_stop app waits = elim app.stop_requested [
    | true ↦ some app
    | false ↦ wait_rounds app waits
  ]
