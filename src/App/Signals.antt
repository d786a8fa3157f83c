-- ===== src/App/Signals.antt =====
-- `SignalStop` and its handler (app.hpp, app.cpp), in a process that may have more than one App. What
-- std::signal keeps for a signal is its disposition; a handler of another part of the program is a
-- number, and what it does is a parameter.
use mathlib.Core.Bool.{or-true}
use optronic.Common.{
  ℕ, Bool, true, false, ◌||◌, Option, none, some, List, [], ◌∷◌, ◌≡◌, refl, sym, if◌then◌else◌,
  ◌==◌, inl, inr, ◌⊎◌, arith,
}
use optronic.App.{App, request_stop, wait_for_stop}

pub data Disposition : Type 0 where
  default_action : Disposition
  handle_stop_signal : Disposition
  other : ℕ → Disposition

pub data Signal : Type 0 where
  sigterm sigint : Signal

-- `g_app` is the place of an App in the process.
pub record Process {ℓ} (W : Type ℓ) : Type ℓ where
  pub g_app : Option ℕ
  pub apps : ℕ → App W
  pub on_sigterm : Disposition
  pub on_sigint : Disposition

abbrev pub any_of : List Signal → Bool
any_of [] = false
any_of (s ∷ ss) = true

module _ {ℓ} {W : Type ℓ} where
  abbrev pub disposition : Process W → Signal → Disposition
  disposition p sigterm = p.on_sigterm
  disposition p sigint = p.on_sigint

  -- The constructor of the guard, and its destructor.
  unfoldable pub guard : ℕ → Process W → Process W
  guard k p = record p {
    g_app = some k;
    on_sigterm = handle_stop_signal;
    on_sigint = handle_stop_signal;
  }

  unfoldable pub unguard : Process W → Process W
  unguard p = record p { g_app = none; on_sigterm = default_action; on_sigint = default_action }

  -- `handle_stop_signal`.
  abbrev pub handled : Option ℕ → Process W → Process W
  handled none p = p
  handled (some k) p = record p { apps = λ j. if j == k then request_stop (p.apps j) else p.apps j }

  -- A signal arrives: `none` when it ends the process.
  abbrev pub dispose :
      (ℕ → Process W → Option (Process W)) → Disposition → Process W → Option (Process W)
  dispose others default_action p = none
  dispose others handle_stop_signal p = some (handled p.g_app p)
  dispose others (other n) p = others n p

  unfoldable pub deliver :
      (ℕ → Process W → Option (Process W)) → Signal → Process W → Option (Process W)
  deliver others s p = dispose others (disposition p s) p

  abbrev pub chain : Option (Process W) → (Process W → Option (Process W)) → Option (Process W)
  chain none next = none
  chain (some p) next = next p

  unfoldable pub deliver_all :
      (ℕ → Process W → Option (Process W)) → List Signal → Process W → Option (Process W)
  unfolding deliver
  deliver_all others [] p = some p
  deliver_all others (s ∷ ss) p = chain (deliver others s p) (deliver_all others ss)

  -- An App as the handler leaves it, by whether it is the guarded one and whether a signal came.
  abbrev pub told : Bool → Bool → App W → App W
  told true true app = request_stop app
  told true false app = app
  told false came app = app

  -- The guard lives: `p` is as the guard of App `k` found it.
  pub record Guarded (k : ℕ) (p q : Process W) (came : Bool) : Type ℓ where
    pub names_it : q.g_app ≡ some k
    pub term : q.on_sigterm ≡ handle_stop_signal
    pub int : q.on_sigint ≡ handle_stop_signal
    pub apps : (j : ℕ) → q.apps j ≡ told (j == k) came (p.apps j)

  told-nobody : (same : Bool) (app : App W) → told same false app ≡ app
  told-nobody true app = refl
  told-nobody false app = refl

  told-again :
      (same came : Bool) (app : App W)
      → (if same then request_stop (told same came app) else told same came app)
        ≡ told same true app
  unfolding request_stop
  told-again true true app = refl
  told-again true false app = refl
  told-again false came app = refl

  guard-Guarded : (k : ℕ) (p : Process W) → Guarded k p (guard k p) false
  unfolding guard
  guard-Guarded k p = record {
    names_it = refl;
    term = refl;
    int = refl;
    apps = λ j. sym (told-nobody (j == k) (p.apps j));
  }

  handled-Guarded :
      (k : ℕ) (p q : Process W) (came : Bool)
      → Guarded k p q came
      → Guarded k p (handled (some k) q) true
  handled-Guarded k p q came g = record {
    names_it = g.names_it;
    term = g.term;
    int = g.int;
    apps = λ j. rw (g.apps j) (told-again (j == k) came (p.apps j));
  }

  deliver-Guarded :
      (others : ℕ → Process W → Option (Process W)) (s : Signal) (k : ℕ) (p q : Process W)
      (came : Bool)
      → Guarded k p q came
      → deliver others s q ≡ some (handled (some k) q)
  unfolding deliver
  deliver-Guarded others sigterm k p q came g = rw (g.term, g.names_it) refl
  deliver-Guarded others sigint k p q came g = rw (g.int, g.names_it) refl

  deliver_all-Guarded :
      (others : ℕ → Process W → Option (Process W)) (ss : List Signal) (k : ℕ) (p q : Process W)
      (came : Bool)
      → Guarded k p q came
      → (r : Process W) × (deliver_all others ss q ≡ some r) × Guarded k p r (came || any_of ss)
  unfolding deliver_all
  deliver_all-Guarded others [] k p q true g = (q, refl, g)
  deliver_all-Guarded others [] k p q false g = (q, refl, g)
  deliver_all-Guarded others (s ∷ ss) k p q came g =
      let (r, e, h) =
        deliver_all-Guarded others ss k p (handled (some k) q) true
          (handled-Guarded k p q came g) in
      (r, rw (deliver-Guarded others s k p q came g, chain) e, rw (or-true came) h)

  stopped_at_once :
      (same came : Bool) (app : App W) (waits : List Bool)
      → same ≡ true
      → (came ≡ false) ⊎ (wait_for_stop (told same came app) waits ≡ some (told same came app))
  unfolding wait_for_stop request_stop
  stopped_at_once true true app waits e = inr refl
  stopped_at_once true false app waits e = inl refl
  stopped_at_once false came app waits e = absurd (ground (arith, e))

  unguarded :
      (others : ℕ → Process W → Option (Process W)) (s : Signal) (p : Process W)
      → deliver others s (unguard p) ≡ none
  unfolding deliver unguard
  unguarded others sigterm p = refl
  unguarded others sigint p = refl

  -- Under the guard of an App no SIGTERM or SIGINT ends the process, in whatever state it was before:
  -- after any of them, in any order, that App was asked to stop if there was one, so that
  -- `wait_for_stop` returns at once and kicks nothing, and every other App is as it was. When the guard
  -- is gone, both signals have the default action, whatever handlers there were before it, and end the
  -- process.
  pub deliver_all-guard :
      (others : ℕ → Process W → Option (Process W)) (ss : List Signal) (k : ℕ) (p : Process W)
      (waits : List Bool)
      → (q : Process W) × (deliver_all others ss (guard k p) ≡ some q)
        × ((j : ℕ) → q.apps j ≡ told (j == k) (any_of ss) (p.apps j))
        × ((any_of ss ≡ false) ⊎ (wait_for_stop (q.apps k) waits ≡ some (q.apps k)))
        × ((s : Signal) → deliver others s (unguard q) ≡ none)
        × ((unguard q).apps ≡ q.apps)
  unfolding unguard
  deliver_all-guard others ss k p waits =
      let (q, e, g) = deliver_all-Guarded others ss k p (guard k p) false (guard-Guarded k p) in
      let here : (k == k) ≡ true = ground arith in
      (
        q,
        e,
        g.apps,
        rw (g.apps k) (stopped_at_once (k == k) (any_of ss) (p.apps k) waits here),
        λ s. unguarded others s q,
        refl,
      )
