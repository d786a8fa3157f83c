-- ===== src/Main/Exit.antt =====
-- What `main` does with its components, and the code that it exits with.
use optronic.Common.{
  ℕ, ◌+◌, ◌%◌, ◌^◌, ◌≡◌, refl, sym, ap, ap₂, ◌∙◌, subst, Bool, true, false, Bool-cases,
  Option-cases, inl, inr, Option, none, some, List, [], ◌∷◌, ◌++◌, append-nil, length,
  if◌then◌else◌, arith,
}
use optronic.Common.Text.{Text, is_empty}
use optronic.Core.Error.{Error}
use optronic.Core.Expected.{ok, err, Status}
use optronic.App.{
  Component, App, add, start, stop, stop_down, stop_through, wait_rounds, wait_for_stop,
}
use optronic.App.Order.{
  Up, Boot, all_up, Outcome, stop_all, start-Boot, start-components, stop_down-append,
}
use optronic.Options.{Options, default_options, parse_args}
use optronic.Main.{Services, wire, serve_started, main}

module _ {ℓ} {W : Type ℓ} where
  -- The components for given options, in the order in which they start.
  abbrev pub components_of : Services W → Options → List (Component W)
  components_of s opt =
      s.log_service opt ∷ s.sensor opt ∷ (if opt.video then s.video_service opt ∷ [] else [])
      ++ (if is_empty opt.broker then [] else s.telemetry_service opt ∷ [])

  -- How `main` may end: refused options, an aborted start, a wait that is not over, or a stop.
  pub data Exit (s : Services W) (args : List Text) (w : W) : Option (ℕ × W) → Type ℓ where
    usage : (parse_args args default_options).0 ≡ false → Exit s args w (some (2, w))
    aborted :
        {e : Error} {n : ℕ} {running : Bool} {w' : W}
        → (parse_args args default_options).0 ≡ true
        → Boot
            (components_of s (parse_args args default_options).1)
            (s.prepare (parse_args args default_options).1 w)
            (err e)
            n
            running
            w'
        → Exit s args w (some (1, w'))
    serving :
        {w' : W}
        → (parse_args args default_options).0 ≡ true
        → Up
            (components_of s (parse_args args default_options).1)
            (s.prepare (parse_args args default_options).1 w)
            w'
        → Exit s args w none
    finished :
        {w' : W}
        → (parse_args args default_options).0 ≡ true
        → Up
            (components_of s (parse_args args default_options).1)
            (s.prepare (parse_args args default_options).1 w)
            w'
        → Exit s args w (
            some
              (0, stop_all (components_of s (parse_args args default_options).1) (s.service_up w')))

  wire-components : (s : Services W) (opt : Options) → (wire s opt).components ≡ components_of s opt
  unfolding wire add
  wire-components s opt = elim (Bool-cases opt.video) [
    | inl v ↦
        rw v (elim (Bool-cases (is_empty opt.broker)) [ inl b ↦ rw b refl | inr b ↦ rw b refl ])
    | inr v ↦
        rw v (elim (Bool-cases (is_empty opt.broker)) [ inl b ↦ rw b refl | inr b ↦ rw b refl ])
  ]

  wire-idle :
      (s : Services W) (opt : Options) → ((wire s opt).running ≡ false) × ((wire s opt).started ≡ 0)
  unfolding wire add
  wire-idle s opt = elim (Bool-cases opt.video) [
    | inl v ↦ rw v (elim (Bool-cases (is_empty opt.broker)) [
      | inl b ↦ rw b (refl, refl)
      | inr b ↦ rw b (refl, refl)
    ])
    | inr v ↦ rw v (elim (Bool-cases (is_empty opt.broker)) [
      | inl b ↦ rw b (refl, refl)
      | inr b ↦ rw b (refl, refl)
    ])
  ]

  got : App W → Option (App W) → App W
  got d none = d
  got d (some app) = app

  same_app :
      {a b : App W} → some a ≡ some b → (b.components ≡ a.components) × (b.started ≡ a.started)
  unfolding got
  same_app {a} {b} h =
      let e : a ≡ b = ap (got a) h in
      (sym (ap (λ (x : App W). x.components) e), sym (ap (λ (x : App W). x.started) e))

  wait_rounds-keeps :
      (app app' : App W) (waits : List Bool)
      → wait_rounds app waits ≡ some app'
      → (app'.components ≡ app.components) × (app'.started ≡ app.started)
  unfolding wait_rounds
  wait_rounds-keeps app app' [] h = absurd (ground (arith, h))
  wait_rounds-keeps app app' (true ∷ rest) h = same_app h
  wait_rounds-keeps app app' (false ∷ rest) h =
      wait_rounds-keeps (record app { kicks = (app.kicks + 1) % 2 ^ 64 }) app' rest h

  wait_for_stop-keeps :
      (app app' : App W) (waits : List Bool)
      → wait_for_stop app waits ≡ some app'
      → (app'.components ≡ app.components) × (app'.started ≡ app.started)
  unfolding wait_for_stop
  wait_for_stop-keeps app app' waits h = elim (Bool-cases app.stop_requested) [
    | inl t ↦ let e : wait_for_stop app waits ≡ some app = rw t refl in same_app (sym e ∙ h)
    | inr f ↦
        let e : wait_for_stop app waits ≡ wait_rounds app waits = rw f refl in
        wait_rounds-keeps app app' waits (sym e ∙ h)
  ]

  stop-all :
      (cs : List (Component W)) (app : App W) (w : W)
      → app.components ≡ cs
      → app.started ≡ length cs
      → (stop app w).1 ≡ stop_all cs w
  unfolding stop stop_through
  stop-all cs app w e n =
      ap₂ (λ (l : List (Component W)) (k : ℕ). stop_down l k w) (e ∙ sym (append-nil cs)) n
      ∙ stop_down-append cs [] w

  module _ (s : Services W) (args : List Text) (waits : List Bool) (w : W)
      (fine : (parse_args args default_options).0 ≡ true) where
    serve_started-Exit :
        (r : Status × App W × W)
        → r.1.components ≡ components_of s (parse_args args default_options).1
        → Outcome
            (components_of s (parse_args args default_options).1)
            (s.prepare (parse_args args default_options).1 w)
            r
        → Exit s args w (serve_started s.service_up r waits)
    unfolding serve_started
    serve_started-Exit (err e, app, w1) c b = aborted fine b
    serve_started-Exit (ok a, app, w1) c (all_up n run up) =
        elim (Option-cases (wait_for_stop app waits)) [
          | inl still ↦ rw (still, serve_started) (serving fine up)
          | inr (app', e) ↦
              let (c', n') = wait_for_stop-keeps app app' waits e in
              rw
                (
                  e,
                  serve_started,
                  stop-all (components_of s (parse_args args default_options).1) app'
                      (s.service_up w1) (c' ∙ c) (n' ∙ n),
                )
                (finished fine up)
        ]

  -- For any services: `main` ends with 2 exactly where the arguments are refused, and then touches
  -- nothing; with 1 where, after the logger has its level, a component fails to come up, and the start
  -- of the App has rolled back; and with 0 after every component came up in order (log, sensor, video
  -- unless it is switched off, telemetry if a broker is named), the wait was over, and each was
  -- stopped, the last first. Until the wait is over all of them are up.
  pub main-Exit :
      (s : Services W) (args : List Text) (waits : List Bool) (w : W)
      → Exit s args w (main s args waits w)
  unfolding main
  main-Exit s args waits w = elim (Bool-cases (parse_args args default_options).0) [
    | inr no_start ↦ rw no_start (usage no_start)
    | inl fine ↦
        let opt = (parse_args args default_options).1 in
        let e = wire-components s opt in
        let v = s.prepare opt w in
        let b = start-Boot (wire s opt) v (wire-idle s opt).0 (wire-idle s opt).1 in
        rw fine (
          serve_started-Exit s args waits w fine (start (wire s opt) v)
            (start-components (wire s opt) v ∙ e)
            (subst (λ (cs : List (Component W)). Outcome cs v (start (wire s opt) v)) e b))
  ]
