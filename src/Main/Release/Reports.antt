-- ===== src/Main/Release/Reports.antt =====
-- The telemetry service gives back what it took.
use optronic.Common.{ℕ, ◌≡◌, refl, ◌∙◌, Option-cases, inl, inr, none, List, arith}
use optronic.Core.Error.{Error}
use optronic.Core.Expected.{ok, err, Status}
use optronic.App.Tidy.{Tidy}
use optronic.Log.Record.{info}
use optronic.Log.Logger.Thread.{log-joinable}
use optronic.Options.{Options}
use optronic.Telemetry.Client
use optronic.Main.Node.{Node, say}
use optronic.Main.Telemetry.{
  Answers, created, init_telemetry, started_telemetry, start_telemetry, stop_telemetry,
  telemetry_service,
}
use optronic.Main.Release.{
  Held, the_thread, the_block, the_pipeline, the_publisher, Only, Touches, take-Only, holds-Only,
  gives-Only,
}

-- Nothing but the publisher changes.
abbrev SameButPublisher : Node → Node → Type 0
SameButPublisher n n' = (n'.logger.joinable ≡ n.logger.joinable) × (n'.pipeline ≡ n.pipeline)

publisher-Touches : (n n' : Node) → SameButPublisher n n' → Touches the_publisher n n'
publisher-Touches n n' (t, p) the_thread = inr (λ h. t ∙ h)
publisher-Touches n n' (t, p) the_block = inr (λ h. tt)
publisher-Touches n n' (t, p) the_pipeline = inr (λ h. p ∙ h)
publisher-Touches n n' (t, p) the_publisher = inl refl

module _ (clock : ℕ → ℕ) (ans : Answers) (opt : Options) where
  created-Same :
      (r : Status × Client.Impl) (n : Node) → SameButPublisher n (created clock ans opt r n).1
  created-Same (err e, p) n = (refl, refl)
  created-Same (ok u, p) n = (refl, refl)

  created-Only :
      (r : Status × Client.Impl) (n : Node) (e : Error) (ks : List Held)
      → (created clock ans opt r n).0 ≡ err e
      → Only ks n
      → Only ks (created clock ans opt r n).1
  created-Only (err e', p) n e ks f o = o
  created-Only (ok u, p) n e ks f o = absurd (ground (arith, f))

  started-Same :
      (r : Status × Client.Impl) (n : Node)
      → SameButPublisher n (started_telemetry clock ans opt r n).1
  unfolding say
  started-Same (err e, p) n = (refl, refl)
  started-Same (ok u, p) n = (log-joinable 0 info _ _ _ (clock n.readings) n.logger, refl)

  start-Same : (n : Node) → SameButPublisher n (start_telemetry clock ans opt n).1
  unfolding start_telemetry
  start-Same n = elim (Option-cases n.publisher) [
    | inl h ↦ rw h (refl, refl)
    | inr (p, h) ↦ rw h (started-Same (Client.start ans.connect_rc ans.loop_rc p) _)
  ]

  stop-Same :
      (n : Node)
      → SameButPublisher n (stop_telemetry clock ans opt n)
        × ((stop_telemetry clock ans opt n).publisher ≡ none)
  unfolding stop_telemetry say
  stop-Same n = elim (Option-cases n.publisher) [
    | inl h ↦ rw h ((refl, refl), refl)
    | inr (p, h) ↦ rw h ((log-joinable 0 info _ _ _ (clock n.readings) n.logger, refl), refl)
  ]

  pub telemetry_service-Tidy : Tidy Only the_publisher (telemetry_service clock ans opt)
  unfolding init_telemetry
  telemetry_service-Tidy = record {
    takes = λ ks n o.
        holds-Only the_publisher ks (publisher-Touches n _ (created-Same _ n))
          (take-Only the_publisher ks o);
    refuses = λ ks n e f o. created-Only _ n e ks f o;
    holds = λ ks n o. holds-Only the_publisher ks (publisher-Touches n _ (start-Same n)) o;
    gives = λ ks n o.
        gives-Only the_publisher ks (publisher-Touches n _ (stop-Same n).0) (stop-Same n).1 o;
  }
