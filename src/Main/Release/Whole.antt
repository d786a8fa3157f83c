-- ===== src/Main/Release/Whole.antt =====
-- The whole program: what is left of what the services took.
use optronic.Common.{
  ℕ, ◌≡◌, refl, Bool, true, false, inl, inr, ◌⊎◌, Option, none, some, List, [], ◌∷◌, ◌++◌,
  if◌then◌else◌, length, arith,
}
use optronic.Common.Text.{Text, is_empty}
use optronic.App.{Component}
use optronic.App.Order.{all_up}
use optronic.App.Tidy.{AllTidy, Boot-Settled}
use optronic.Log.Logger
use optronic.Log.Record.{Level, info}
use optronic.Hal.Isp.Model.{IspModel}
use optronic.Options.{Options, default_options, parse_args}
use optronic.Main.{main}
use optronic.Main.Node.{Node}
use optronic.Main.Video
use optronic.Main.Telemetry
use optronic.Main.Assembly.{node_services, service_up}
use optronic.Main.Exit.{Exit, usage, aborted, serving, finished, components_of, main-Exit}
use optronic.Main.Release.{
  Held, Off, Only, Like, Like-Only, say-Like, log_service-Tidy, sensor_service-Tidy, the_thread,
  the_block, the_pipeline, the_publisher,
}
use optronic.Main.Release.Stream.{video_service-Tidy}
use optronic.Main.Release.Reports.{telemetry_service-Tidy}

-- How `main` leaves the node: no sink thread that is not joined, no pipeline and no publisher.
abbrev pub Released : Option (ℕ × Node) → Type 0
Released none = Unit
Released (some (code, n)) = (n.logger.joinable ≡ false) × (n.pipeline ≡ none) × (n.publisher ≡ none)

nothing : (n : Node) (code : ℕ) → Only [] n → Released (some (code, n))
nothing n code o = (
  off the_thread (o the_thread),
  off the_pipeline (o the_pipeline),
  off the_publisher (o the_publisher),
)
  where
    off : (j : Held) → (false ≡ true) ⊎ Off j n → Off j n
    off j (inl e) = absurd (ground (arith, e))
    off j (inr h) = h

module _ (clock : ℕ → ℕ) (model : IspModel) (video : Video.Answers)
    (broker : Telemetry.Answers) where
  abbrev services_of : Options → List (Component Node)
  services_of opt = components_of (node_services clock model video broker) opt

  optional-Tidy :
      (opt : Options) (v e : Bool)
      → AllTidy Only (
          (if v then Video.video_service clock video opt ∷ [] else [])
          ++ (if e then [] else Telemetry.telemetry_service clock broker opt ∷ []))
  optional-Tidy opt true true = ((the_pipeline, video_service-Tidy clock video opt), tt)
  optional-Tidy opt true false = (
    (the_pipeline, video_service-Tidy clock video opt),
    ((the_publisher, telemetry_service-Tidy clock broker opt), tt),
  )
  optional-Tidy opt false true = tt
  optional-Tidy opt false false = ((the_publisher, telemetry_service-Tidy clock broker opt), tt)

  all-Tidy : (opt : Options) → AllTidy Only (services_of opt)
  all-Tidy opt = (
    (the_thread, log_service-Tidy clock),
    (
      (the_block, sensor_service-Tidy clock model opt),
      optional-Tidy opt opt.video (is_empty opt.broker),
    ),
  )

  service_up-Like : (n : Node) → Like n (service_up clock model video broker n)
  unfolding service_up
  service_up-Like n =
      say-Like clock info _ _ _ n _ (record { thread = refl; pipeline = refl; publisher = refl })

  prepared-Like :
      (n : Node) (l : Level) → Like n (record n { logger = Logger.set_level n.logger l })
  unfolding Logger.set_level
  prepared-Like n l = record { thread = refl; pipeline = refl; publisher = refl }

  Exit-Released :
      (args : List Text) (n : Node) (r : Option (ℕ × Node))
      → Only [] n
      → Exit (node_services clock model video broker) args n r
      → Released r
  Exit-Released args n _ o (usage bad) = nothing n 2 o
  Exit-Released args n _ o (aborted fine b) = nothing _ 1 (
      Boot-Settled Only [] (all-Tidy (parse_args args default_options).1)
        (Like-Only [] (prepared-Like n _) o) b)
  Exit-Released args n _ o (serving fine up) = tt
  Exit-Released args n _ o (finished fine up) =
      let opt = (parse_args args default_options).1 in
      let (top, h, down) =
        Boot-Settled Only [] (all-Tidy opt) (Like-Only [] (prepared-Like n _) o)
          (all_up {n = length (services_of opt)} refl refl up) in
      nothing _ 0 (down _ (Like-Only top (service_up-Like _) h))

  -- Whatever the arguments, and whatever the device, the parser, the pipeline and the broker answer:
  -- where `main` starts with no sink thread, no pipeline and no publisher and ends, with whichever
  -- code, the sink thread has been joined and there is no pipeline and no publisher.
  pub main-Released :
      (args : List Text) (waits : List Bool) (n : Node)
      → n.logger.joinable ≡ false
      → n.pipeline ≡ none
      → n.publisher ≡ none
      → Released (main (node_services clock model video broker) args waits n)
  main-Released args waits n t p b =
      Exit-Released args n _ none_taken
        (main-Exit (node_services clock model video broker) args waits n)
    where
      none_taken : Only [] n
      none_taken the_thread = inr t
      none_taken the_block = inr tt
      none_taken the_pipeline = inr p
      none_taken the_publisher = inr b
