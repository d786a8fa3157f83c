-- ===== src/Main.antt =====
-- main.cpp: the services of the node as components of an App, and `main`. The services are
-- parameters of `main` here; what each does is in its own file.
pub mod Node
pub mod Sensor
pub mod Video
pub mod Telemetry
pub mod Assembly
pub mod Exit
pub mod Release
pub mod Rate
pub mod Timer
mod Tests
use optronic.Common.{
  ℕ, Bool, true, false, not, Option, none, some, List, [], ◌∷◌, ◌++◌, if◌then◌else◌,
}
use optronic.Common.Text.{Text, is_empty}
use optronic.Core.Expected.{Expected, ok, err, Status}
use optronic.App.{Component, App, fresh, add, start, stop, wait_for_stop}
use optronic.Options.{Options, default_options, parse_args}

-- The four services, for given options, what `main` does before it builds the App, and what it does
-- once the App is up.
pub record Services {ℓ} (W : Type ℓ) : Type ℓ where
  pub log_service : Options → Component W
  pub sensor : Options → Component W
  pub video_service : Options → Component W
  pub telemetry_service : Options → Component W
  pub prepare : Options → W → W
  pub service_up : W → W

module _ {ℓ} {W : Type ℓ} where
  -- After `app.start()`: the branch on its status, the wait and `app.stop()`.
  unfoldable pub serve_started : (W → W) → Status × App W × W → List Bool → Option (ℕ × W)
  serve_started up (err e, app, w) waits = some (1, w)
  serve_started up (ok _, app, w) waits = elim (wait_for_stop app waits) [
    | none ↦ none
    | some app' ↦ some (0, (stop app' (up w)).1)
  ]

module _ {ℓ} {W : Type ℓ} (services : Services W) where
  -- The calls of `app.add`.
  unfoldable pub wire : Options → App W
  wire opt =
      let base = add (add fresh (services.log_service opt)) (services.sensor opt) in
      let with_video = if opt.video then add base (services.video_service opt) else base in
      if is_empty opt.broker then with_video else add with_video (services.telemetry_service opt)

  -- The exit code and the world then; `none` while it waits. The arguments are those after argv[0].
  unfoldable pub main : List Text → List Bool → W → Option (ℕ × W)
  main args waits w =
      let (fine, opt) = parse_args args default_options in
      if fine
      then serve_started services.service_up (start (wire opt) (services.prepare opt w)) waits
      else some (2, w)
