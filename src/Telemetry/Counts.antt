-- ===== src/Telemetry/Counts.antt =====
-- What the counters and the warnings of the publisher come to over any sequence of events.
use optronic.Common.{
  ℕ, ◌+◌, ◌%◌, ◌^◌, ◌≤◌, ◌≡◌, refl, Bool, true, Option, none, some, List, [], ◌∷◌, ◌++◌, ◌==◌,
  if◌then◌else◌, ◌⊎◌, arith,
}
use optronic.Common.Int.{ℤ}
use optronic.Common.Text.{Text, codes}
use optronic.Log.Record.{Level, warn, info}
use optronic.Telemetry.Payload.{View}
use optronic.Telemetry.Client.{
  Impl, Library, lib_ref, lib_unref, publish, on_connect, on_disconnect, stats, is_success,
  unreachable,
}

-- What happens to a client that runs: a publish with the library's answer, or a callback.
pub data Event : Type 0 where
  published : Text → View → ℕ → Bool → ℤ → Event
  connected : ℤ → Event
  disconnected : Event

pub happens : Event → Impl → Impl
unfolding publish on_connect on_disconnect
happens (published leaf v qos retain rc) i = publish leaf v qos retain rc i
happens (connected rc) i = on_connect rc i
happens disconnected i = on_disconnect i

pub happens-client : (e : Event) (i : Impl) → (happens e i).client ≡ i.client
unfolding happens publish on_connect on_disconnect
happens-client (published leaf v qos retain rc) i = ground arith
happens-client (connected rc) i = ground arith
happens-client disconnected i = refl

pub run : List Event → Impl → Impl
unfolding happens
run [] i = i
run (e ∷ es) i = run es (happens e i)

pub attempts : List Event → ℕ
attempts [] = 0
attempts (published _ _ _ _ _ ∷ es) = attempts es + 1
attempts (connected _ ∷ es) = attempts es
attempts (disconnected ∷ es) = attempts es

-- How often the broker was reached.
pub reached : List Event → ℕ
reached [] = 0
reached (published _ _ _ _ _ ∷ es) = reached es
reached (connected rc ∷ es) = if is_success rc then reached es + 1 else reached es
reached (disconnected ∷ es) = reached es

abbrev pub is_warning : Level × Text × Option ℤ → ℕ
is_warning (warn, t, some rc) = 1
is_warning (_, t, _) = 0

abbrev pub warnings : List (Level × Text × Option ℤ) → ℕ
warnings [] = 0
warnings (x ∷ xs) = is_warning x + warnings xs

warnings-append :
    (xs ys : List (Level × Text × Option ℤ)) → warnings (xs ++ ys) ≡ warnings xs + warnings ys
warnings-append [] ys = omega arith
warnings-append (x ∷ xs) ys = omega (arith, warnings-append xs ys)

-- Armed: the next failure is reported.
abbrev pub armed : Impl → ℕ
armed i = if i.warned then 0 else 1

step :
    (e : Event) (i : Impl)
    → i.client ≡ true
    → ((happens e i).client ≡ true)
      × (((happens e i).published + (happens e i).failed) % 2 ^ 64
          ≡ (i.published + i.failed + attempts (e ∷ [])) % 2 ^ 64)
      × (warnings (happens e i).logged + armed (happens e i)
          ≤ warnings i.logged + armed i + reached (e ∷ []))
unfolding happens attempts reached publish on_connect on_disconnect
step (published leaf v qos retain rc) i h =
    ground (arith, warnings-append i.logged ((warn, unreachable, some rc) ∷ []))
step (connected rc) i h =
    ground (arith, warnings-append i.logged ((info, codes "connected to broker", none) ∷ []))
step disconnected i h = ground arith

split :
    (e : Event) (es : List Event)
    → (attempts (e ∷ es) ≡ attempts (e ∷ []) + attempts es)
      × (reached (e ∷ es) ≡ reached (e ∷ []) + reached es)
unfolding attempts reached
split (published _ _ _ _ _) es = (omega arith, omega arith)
split (connected rc) es = (omega arith, ground arith)
split disconnected es = (omega arith, omega arith)

run-counts :
    (es : List Event) (i : Impl)
    → i.client ≡ true
    → ((run es i).client ≡ true)
      × (((run es i).published + (run es i).failed) % 2 ^ 64
          ≡ (i.published + i.failed + attempts es) % 2 ^ 64)
      × (warnings (run es i).logged + armed (run es i) ≤ warnings i.logged + armed i + reached es)
unfolding run attempts reached
run-counts [] i h = (h, omega arith, omega arith)
run-counts (e ∷ es) i h =
    let (c, n, w) = step e i h in
    let (c', n', w') = run-counts es (happens e i) c in
    let (a, r) = split e es in (c', omega (arith, n, n', a), omega (arith, w, w', r))

-- Over any sequence of publishes and connection callbacks of a client, every publish is counted once,
-- as published or as failed (modulo 2 ^ 64), and the failures that are logged are at most one for
-- each time the broker was reached, and one more if the warning was armed at first.
pub stats-run :
    (es : List Event) (i : Impl)
    → i.client ≡ true
    → let s = stats (run es i) in
      ((s.published + s.failed) % 2 ^ 64 ≡ (i.published + i.failed + attempts es) % 2 ^ 64)
      × (warnings (run es i).logged ≤ warnings i.logged + armed i + reached es)
unfolding stats
stats-run es i h = let (c, n, w) = run-counts es i h in (n, omega (arith, w))

-- The library is set up once more than it was cleaned up while it has users, and as often otherwise.
abbrev pub Balanced : Library → Type 0
Balanced l = l.inits ≡ l.cleanups + (if l.users == 0 then 0 else 1)

-- Each publisher that is made or destroyed keeps the set-ups and the clean-ups of the library in
-- balance, whatever number of publishers there is.
pub lib_ref-Balanced :
    (l : Library)
    → Balanced l
    → (Balanced (lib_ref l))
      × ((l.users ≡ 0) ⊎ (Balanced (lib_unref l)))
      × (lib_unref (lib_ref l) ≡ record {
        users = l.users;
        inits = if l.users == 0 then l.inits + 1 else l.inits;
        cleanups = if l.users == 0 then l.cleanups + 1 else l.cleanups;
      })
unfolding lib_ref lib_unref
lib_ref-Balanced l h = (ground arith, ground arith, ground arith)
