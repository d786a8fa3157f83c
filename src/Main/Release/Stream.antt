-- ===== src/Main/Release/Stream.antt =====
-- The video service gives back what it took.
use optronic.Common.{
  ℕ, ◌≡◌, refl, ◌∙◌, Bool, true, false, Bool-cases, Option-cases, inl, inr, none, some, [],
  if◌then◌else◌, arith,
}
use optronic.Common.Text.{codes}
use optronic.Video.{launch_string}
use optronic.Core.Error.{Error}
use optronic.Core.Expected.{Expected, ok, err, Status}
use optronic.App.Tidy.{Tidy}
use optronic.Log.Record.{info, error, debug}
use optronic.Log.Logger.Thread.{log-joinable}
use optronic.Options.{Options}
use optronic.Main.Node.{Node, say}
use optronic.Video.Pipeline
use optronic.Video.Pipeline.Lifecycle
use optronic.Detect.Stage.{Stage}
use optronic.Main.Video
use optronic.Main.Release.{
  Like, say-Like, the_thread, the_block, the_pipeline, the_publisher, Only, Touches, take-Only,
  holds-Only, gives-Only, Like-Only,
}

-- Nothing but the pipeline changes.
abbrev SameButPipeline : Node → Node → Type 0
SameButPipeline n n' = (n'.logger.joinable ≡ n.logger.joinable) × (n'.publisher ≡ n.publisher)

pipeline-Touches : (n n' : Node) → SameButPipeline n n' → Touches the_pipeline n n'
pipeline-Touches n n' (t, p) the_thread = inr (λ h. t ∙ h)
pipeline-Touches n n' (t, p) the_block = inr (λ h. tt)
pipeline-Touches n n' (t, p) the_pipeline = inl refl
pipeline-Touches n n' (t, p) the_publisher = inr (λ h. p ∙ h)

module _ (clock : ℕ → ℕ) (ans : Video.Answers) (opt : Options) where
  piped-Same :
      (r : Expected Pipeline.Impl) (first n : Node)
      → Like first n
      → SameButPipeline first (Video.piped clock ans opt r n).1
  piped-Same (err e) first n l = (l.thread, l.publisher)
  piped-Same (ok p) first n l = (l.thread, l.publisher)

  piped-Like :
      (r : Expected Pipeline.Impl) (first n : Node) (e : Error)
      → (Video.piped clock ans opt r n).0 ≡ err e
      → Like first n
      → Like first (Video.piped clock ans opt r n).1
  piped-Like (err e') first n e f l = l
  piped-Like (ok p) first n e f l = absurd (ground (arith, f))

  staged-Like :
      (r : Expected Stage) (first n : Node)
      → Like first n
      → Like first (Video.staged clock ans opt r n).1
  staged-Like (err e) first n l = say-Like clock error _ _ _ first n l
  staged-Like (ok st) first n l =
      say-Like clock info _ _ _ first (record n { yolo = some st })
        (record { thread = l.thread; pipeline = l.pipeline; publisher = l.publisher })

  then-Same :
      (r : Status × Node) (first : Node)
      → Like first r.1
      → SameButPipeline first (Video.then_pipeline clock ans opt r).1
  unfolding Video.create_pipeline
  then-Same (err e, n) first l = (l.thread, l.publisher)
  then-Same (ok u, n) first l = piped-Same _ first n l

  then-Like :
      (r : Status × Node) (first : Node) (e : Error)
      → (Video.then_pipeline clock ans opt r).0 ≡ err e
      → Like first r.1
      → Like first (Video.then_pipeline clock ans opt r).1
  unfolding Video.create_pipeline
  then-Like (err e', n) first e f l = l
  then-Like (ok u, n) first e f l = piped-Like _ first n e f l

  itself : (n : Node) → Like n n
  itself n = record { thread = refl; pipeline = refl; publisher = refl }

  init-Same : (n : Node) → SameButPipeline n (Video.init_video clock ans opt n).1
  unfolding Video.init_video Video.create_pipeline Video.create_yolo
  init-Same n =
      let l =
        say-Like clock debug (codes "video") (launch_string (Video.spec_of opt)) [] n n
          (itself n) in
      elim (Bool-cases opt.detect) [
        | inl e ↦ rw e (then-Same _ n (staged-Like _ n _ l))
        | inr e ↦ rw e (piped-Same _ n _ l)
      ]

  either :
      (b : Bool) (x y : Status × Node) (first : Node) (e : Error)
      → (if b then x else y).0 ≡ err e
      → (x.0 ≡ err e → Like first x.1)
      → (y.0 ≡ err e → Like first y.1)
      → Like first (if b then x else y).1
  either true x y first e f k l = k f
  either false x y first e f k l = l f

  init-Like :
      (n : Node) (e : Error)
      → (Video.init_video clock ans opt n).0 ≡ err e
      → Like n (Video.init_video clock ans opt n).1
  unfolding Video.init_video Video.create_pipeline Video.create_yolo
  init-Like n e f =
      let l =
        say-Like clock debug (codes "video") (launch_string (Video.spec_of opt)) [] n n
          (itself n) in
      either opt.detect _ _ n e f (λ g. then-Like _ n e g (staged-Like _ n _ l))
        (λ g. piped-Like _ n _ e g l)

  started-Same :
      (r : Status × Pipeline.Impl) (n : Node)
      → SameButPipeline n (Video.started_video clock ans opt r n).1
  unfolding say
  started-Same (err e, p) n = (refl, refl)
  started-Same (ok u, p) n = (log-joinable 0 info _ _ _ (clock n.readings) n.logger, refl)

  start-Same : (n : Node) → SameButPipeline n (Video.start_video clock ans opt n).1
  unfolding Video.start_video
  start-Same n = elim (Option-cases n.pipeline) [
    | inl h ↦ rw h (refl, refl)
    | inr (p, h) ↦ rw h (started-Same (Lifecycle.play ans.changes ans.reaches p) _)
  ]

  stop-Same :
      (n : Node)
      → SameButPipeline n (Video.stop_video clock ans opt n)
        × ((Video.stop_video clock ans opt n).pipeline ≡ none)
  unfolding Video.stop_video say
  stop-Same n = elim (Option-cases n.pipeline) [
    | inl h ↦ rw h ((refl, refl), refl)
    | inr (p, h) ↦ rw h ((log-joinable 0 info _ _ _ (clock n.readings) n.logger, refl), refl)
  ]

  pub video_service-Tidy : Tidy Only the_pipeline (Video.video_service clock ans opt)
  video_service-Tidy = record {
    takes = λ ks n o.
        holds-Only the_pipeline ks (pipeline-Touches n _ (init-Same n))
          (take-Only the_pipeline ks o);
    refuses = λ ks n e f o. Like-Only ks (init-Like n e f) o;
    holds = λ ks n o. holds-Only the_pipeline ks (pipeline-Touches n _ (start-Same n)) o;
    gives = λ ks n o.
        gives-Only the_pipeline ks (pipeline-Touches n _ (stop-Same n).0) (stop-Same n).1 o;
  }
