-- ===== src/Main/Release.antt =====
-- That the services of the node give back what they took, however `main` ends.
pub mod Reports
pub mod Stream
pub mod Whole
use optronic.Common.{
  ℕ, ◌≡◌, refl, ◌∙◌, ap, sym, subst, Bool, true, false, ◌||◌, Bool-cases, inl, inr, ◌⊎◌, Option,
  none, some, List, [], ◌∷◌, ◌++◌, if◌then◌else◌, arith,
}
use optronic.Common.Int.{ℤ}
use optronic.Common.Text.{Text, is_empty}
use optronic.Core.Error.{Error}
use optronic.Core.Expected.{Expected, ok, err, Status}
use optronic.App.{Component}
use optronic.App.Tidy.{Tidy, AllTidy}
use optronic.Log.Record.{Level, info, error}
use optronic.Log.Logger
use optronic.Log.Logger.Thread.{log-joinable, stop-joinable}
use optronic.Hal.Isp.Model.{Device, IspModel, install_state}
use optronic.Hal.Isp.{status, running, power_on_bit}
use optronic.Hal.Register.{any_bit, readable_ro}
use optronic.Options.{Options}
use optronic.Main.Node.{Node, say, start_log, stop_log, log_service}
use optronic.Main.Sensor.{
  regs, program, tested, sensor_service, init_sensor, start_sensor, stop_sensor,
}
use optronic.Main.Video
use optronic.Main.Telemetry

-- What a service takes; the block stands for what is always there.
pub data Held : Type 0 where
  the_thread the_block the_pipeline the_publisher : Held

abbrev pub same : Held → Held → Bool
same the_thread the_thread = true
same the_block the_block = true
same the_pipeline the_pipeline = true
same the_publisher the_publisher = true
same j k = false

abbrev pub among : Held → List Held → Bool
among j [] = false
among j (k ∷ ks) = same j k || among j ks

-- The sink thread does not run; there is no pipeline; there is no publisher.
abbrev pub Off : Held → Node → Type 0
Off the_thread n = n.logger.joinable ≡ false
Off the_block n = Unit
Off the_pipeline n = n.pipeline ≡ none
Off the_publisher n = n.publisher ≡ none

abbrev pub Only : List Held → Node → Type 0
Only ks n = (j : Held) → (among j ks ≡ true) ⊎ Off j n

-- One world is like another where nothing was taken or given back.
pub record Like (n n' : Node) : Type 0 where
  pub thread : n'.logger.joinable ≡ n.logger.joinable
  pub pipeline : n'.pipeline ≡ n.pipeline
  pub publisher : n'.publisher ≡ n.publisher

Like-Off : {n n' : Node} → Like n n' → (j : Held) → Off j n → Off j n'
Like-Off s the_thread h = s.thread ∙ h
Like-Off s the_block h = tt
Like-Off s the_pipeline h = s.pipeline ∙ h
Like-Off s the_publisher h = s.publisher ∙ h

pub Like-Only : {n n' : Node} (ks : List Held) → Like n n' → Only ks n → Only ks n'
Like-Only ks s o j = elim (o j) [ inl e ↦ inl e | inr h ↦ inr (Like-Off s j h) ]

-- Taking one more thing, at most.
pub take-Only : (k : Held) (ks : List Held) {n : Node} → Only ks n → Only (k ∷ ks) n
take-Only k ks o j = elim (o j) [ inl e ↦ inl (rw e (ground arith)) | inr h ↦ inr h ]

-- Nothing but this is touched.
abbrev pub Touches : Held → Node → Node → Type 0
Touches k n n' = (j : Held) → (same j k ≡ true) ⊎ (Off j n → Off j n')

pub same-Off : (j k : Held) (n : Node) → same j k ≡ true → Off k n → Off j n
same-Off the_thread the_thread n e h = h
same-Off the_block k n e h = tt
same-Off the_pipeline the_pipeline n e h = h
same-Off the_publisher the_publisher n e h = h
same-Off the_thread the_block n e h = absurd (ground (arith, e))
same-Off the_thread the_pipeline n e h = absurd (ground (arith, e))
same-Off the_thread the_publisher n e h = absurd (ground (arith, e))
same-Off the_pipeline the_thread n e h = absurd (ground (arith, e))
same-Off the_pipeline the_block n e h = absurd (ground (arith, e))
same-Off the_pipeline the_publisher n e h = absurd (ground (arith, e))
same-Off the_publisher the_thread n e h = absurd (ground (arith, e))
same-Off the_publisher the_block n e h = absurd (ground (arith, e))
same-Off the_publisher the_pipeline n e h = absurd (ground (arith, e))

pub holds-Only :
    (k : Held) (ks : List Held) {n n' : Node} → Touches k n n' → Only (k ∷ ks) n → Only (k ∷ ks) n'
holds-Only k ks t o j = elim (t j) [
  | inl e ↦ inl (rw e (ground arith))
  | inr f ↦ elim (o j) [ inl e ↦ inl e | inr h ↦ inr (f h) ]
]

or-cases : (a b : Bool) → (a || b) ≡ true → (a ≡ true) ⊎ (b ≡ true)
or-cases true b e = inl refl
or-cases false b e = inr e

pub gives-Only :
    (k : Held) (ks : List Held) {n n' : Node}
    → Touches k n n'
    → Off k n'
    → Only (k ∷ ks) n
    → Only ks n'
gives-Only k ks {n' = n'} t off o j = elim (t j) [
  | inl e ↦ inr (same-Off j k n' e off)
  | inr f ↦ elim (o j) [
    | inr h ↦ inr (f h)
    | inl e ↦ elim (or-cases (same j k) (among j ks) e) [
      | inl same_one ↦ inr (same-Off j k n' same_one off)
      | inr a ↦ inl a
    ]
  ]
]

Like-Touches : (k : Held) {n n' : Node} → Like n n' → Touches k n n'
Like-Touches k s j = inr (Like-Off s j)

module _ (clock : ℕ → ℕ) where
  pub say-Like :
      (l : Level) (component msg : Text) (kv : List (Text × ℤ)) (first n : Node)
      → Like first n
      → Like first (say clock l component msg kv n)
  unfolding say
  say-Like l component msg kv first n s = record {
    thread = log-joinable 0 l component msg _ (clock n.readings) n.logger ∙ s.thread;
    pipeline = s.pipeline;
    publisher = s.publisher;
  }

  pub log_service-Tidy : Tidy Only the_thread (log_service clock)
  unfolding start_log stop_log say
  log_service-Tidy = record {
    takes = λ ks n o. take-Only the_thread ks o;
    refuses = λ ks n e f o. o;
    holds = λ ks n o. holds-Only the_thread ks (started n) o;
    gives = λ ks n o. gives-Only the_thread ks (stopped n) (stop-joinable _) o;
  }
    where
      started : (n : Node) → Touches the_thread n (start_log clock n).1
      started n the_thread = inl refl
      started n the_block = inr (λ h. h)
      started n the_pipeline = inr (λ h. h)
      started n the_publisher = inr (λ h. h)

      stopped : (n : Node) → Touches the_thread n (stop_log clock n)
      stopped n the_thread = inl refl
      stopped n the_block = inr (λ h. h)
      stopped n the_pipeline = inr (λ h. h)
      stopped n the_publisher = inr (λ h. h)

module _ (clock : ℕ → ℕ) (model : IspModel) (opt : Options) where
  at_block : (n : Node) (dev : Device) → Like n (record n { dev = dev })
  at_block n dev = record { thread = refl; pipeline = refl; publisher = refl }

  tested-Like :
      (s : Status) (first n : Node) → Like first n → Like first (tested clock model opt s n).1
  tested-Like (err e) first n l = say-Like clock error _ _ _ first n l
  tested-Like (ok u) first n l = say-Like clock info _ _ _ first n l

  init_sensor-Like : (n : Node) → Like n (init_sensor clock model opt n).1
  unfolding init_sensor
  init_sensor-Like n = tested-Like _ n _ (at_block n _)

  start_sensor-Like : (n : Node) → Like n (start_sensor clock model opt n).1
  unfolding start_sensor
  start_sensor-Like n =
      let r = any_bit (regs clock model) status running (program clock model opt n.dev) in
      elim (Bool-cases r.0) [
        | inl e ↦ rw e (say-Like clock info _ _ _ n (record n { dev = r.1 }) (at_block n r.1))
        | inr e ↦ rw e (at_block n r.1)
      ]

  stop_sensor-Like : (n : Node) → Like n (stop_sensor clock model opt n)
  unfolding stop_sensor
  stop_sensor-Like n = say-Like clock info _ _ _ n _ (at_block n _)

  pub sensor_service-Tidy : Tidy Only the_block (sensor_service clock model opt)
  sensor_service-Tidy = record {
    takes = λ ks n o. take-Only the_block ks (Like-Only ks (init_sensor-Like n) o);
    refuses = λ ks n e f o. Like-Only ks (init_sensor-Like n) o;
    holds = λ ks n o. Like-Only (the_block ∷ ks) (start_sensor-Like n) o;
    gives = λ ks n o. gives-Only the_block ks (Like-Touches the_block (stop_sensor-Like n)) tt o;
  }
