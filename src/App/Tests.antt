-- ===== src/App/Tests.antt =====
-- Three components that report what is done to them; the second one fails to start.
use optronic.Common.{
  ℕ, ◌≤◌, ◌≡◌, refl, true, false, Option, none, some, ◌⊎◌, ◌==◌, List, [], ◌∷◌, ◌++◌, reverse,
  arith,
}
use optronic.Core.Error.{hal_open}
use optronic.Core.Expected.{ok, err, Status, done, fail}
use optronic.App.{Component, App, fresh, add, start, stop, request_stop, wait_for_stop}
use optronic.App.Order.{Outcome, start-Boot}
use optronic.App.Trace.{count_up, Reports, ReportAll, stop-start-balanced}
use optronic.App.Signals.{
  Signal, sigterm, sigint, Process, default_action, other, guard, unguard, told, deliver,
  deliver_all, deliver_all-guard,
}
use optronic.App.Wait.{wait_for_stop-kicks}

abbrev World : Type 0
World = List ℕ × List ℕ

abbrev note_init : Status → ℕ → List ℕ → List ℕ
note_init (ok _) i l = l ++ i ∷ []
note_init (err _) i l = l

abbrev spy : ℕ → Status → Status → Component World
spy i on_init on_start = record {
  init = λ w. (on_init, (note_init on_init i w.0, w.1));
  start = λ w. (on_start, w);
  stop = λ w. (w.0, w.1 ++ i ∷ []);
}

abbrev broken : Status
broken = fail hal_open "spy"

abbrev three : App World
three = record fresh { components = spy 0 done done ∷ spy 1 done broken ∷ spy 2 done done ∷ [] }

three_added : add (add (add fresh (spy 0 done done)) (spy 1 done broken)) (spy 2 done done) ≡ three
unfolding add
three_added = refl

three_starts :
    start three ([], []) ≡ (broken, record three { started = 0 }, (0 ∷ 1 ∷ [], 1 ∷ 0 ∷ []))
unfolding start
three_starts = refl

spy-Reports :
    (i : ℕ) (on_init on_start : Status)
    → Reports {W = World} (λ w. w.0) (λ w. w.1) i (spy i on_init on_start)
spy-Reports i on_init on_start = record {
  init_ok = λ w e. ground arith;
  init_err = λ w e. ground arith;
  start_ok = λ w e. ground arith;
  start_err = λ w e. ground arith;
  stop_once = λ w. (refl, refl);
}

three-ReportAll : ReportAll {W = World} (λ w. w.0) (λ w. w.1) 0 three.components
three-ReportAll =
    (spy-Reports 0 done done, (spy-Reports 1 done broken, (spy-Reports 2 done done, tt)))

start-Boot_example : Outcome three.components ([], []) (start three ([], []))
start-Boot_example = start-Boot three ([], []) refl refl

stop-start-balanced_example :
    let (_, app1, w1) = start three ([], []) in
    let (app2, w2) = stop app1 w1 in
    (k : ℕ) × (k ≤ 3)
    × (w2.0 ≡ [] ++ count_up 0 k)
    × (w2.1 ≡ [] ++ reverse (count_up 0 k))
    × (stop app2 w2 ≡ (app2, w2))
stop-start-balanced_example =
    stop-start-balanced (λ w. w.0) (λ w. w.1) three ([], []) refl refl three-ReportAll

wait_for_stop-kicks_example :
    (wait_for_stop three (false ∷ false ∷ []) ≡ none)
    × (wait_for_stop three (false ∷ false ∷ true ∷ [])
        ≡ some (record (request_stop three) { kicks = 2 }))
    × (wait_for_stop (request_stop three) [] ≡ some (request_stop three))
wait_for_stop-kicks_example = wait_for_stop-kicks three 2 [] refl (omega arith)

-- An App at place 7, in a process that had its own handler for SIGINT.
abbrev process : Process World
process = record {
  g_app = none;
  apps = λ j. three;
  on_sigterm = default_action;
  on_sigint = other 5;
}

abbrev ignores : ℕ → Process World → Option (Process World)
ignores n p = some p

deliver_all-guard_example :
    (q : Process World) × (deliver_all ignores (sigint ∷ sigterm ∷ []) (guard 7 process) ≡ some q)
    × ((j : ℕ) → q.apps j ≡ told (j == 7) true three)
    × ((true ≡ false) ⊎ (wait_for_stop (q.apps 7) (false ∷ []) ≡ some (q.apps 7)))
    × ((s : Signal) → deliver ignores s (unguard q) ≡ none)
    × ((unguard q).apps ≡ q.apps)
deliver_all-guard_example = deliver_all-guard ignores (sigint ∷ sigterm ∷ []) 7 process (false ∷ [])
