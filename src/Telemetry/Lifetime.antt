-- ===== src/Telemetry/Lifetime.antt =====
-- The publishers of a process, publisher.cpp: `Publisher::create`, what a program does with one, and
-- `~Impl`. `made` and `destroyed` count the clients that mosquitto_new gave and that
-- mosquitto_destroy took, `closed` the publishers that are gone, as they were left; the moves of a handle change nothing of this.
pub mod Users
use optronic.Common.{
  ℕ, zero, suc, ◌+◌, ◌≡◌, refl, Bool, true, false, Option, none, some, List, [], ◌∷◌, length,
  if◌then◌else◌, arith, Bool-cases, inl, inr, ◌∙◌,
}
use optronic.Common.Int.{ℤ}
use optronic.Common.Text.{Text, codes}
use optronic.Core.Expected.{ok, err, Status, done}
use optronic.Telemetry.Client.{
  Impl, Library, lib_ref, lib_unref, is_success, construct, start, stop, publish,
}
use optronic.Telemetry.Counts.{Event, happens, happens-client, Balanced, lib_ref-Balanced}

-- `period` is in milliseconds.
pub record Config : Type 0 where
  pub name : Text
  pub host : Text
  pub port : ℕ
  pub period : ℕ

abbrev pub default_config : Config
default_config = record {
  name = codes "node1";
  host = codes "127.0.0.1";
  port = 1883;
  period = 1000;
}

-- The members as they are first.
abbrev pub new_impl : Config → Impl
new_impl cfg = record {
  name = cfg.name;
  host = cfg.host;
  port = cfg.port;
  client = false;
  running = false;
  connected = false;
  warned = false;
  published = 0;
  failed = 0;
  calls = [];
  logged = [];
}

pub record Process : Type 0 where
  pub library : Library
  pub made : ℕ
  pub destroyed : ℕ
  pub alive : List Impl
  pub closed : List Impl

-- ~Impl; `rc` answers the publish of `stop`.
unfoldable pub destroy : ℤ → Impl → Process → Process
unfolding stop
destroy rc i p = record p {
  library = lib_unref p.library;
  destroyed = if (stop rc i).client then p.destroyed + 1 else p.destroyed;
  closed = record (stop rc i) { client = false } ∷ p.closed;
}

abbrev pub constructed : ℤ → Status × Impl → Process → Status × Process
constructed rc (err e, i) p = (err e, destroy rc i p)
constructed rc (ok _, i) p = (done, record p { alive = i ∷ p.alive })

unfoldable pub create : Config → Bool → ℤ → ℤ → Process → Status × Process
create cfg made will_rc rc p =
    constructed rc (construct made will_rc (new_impl cfg))
      (record p { library = lib_ref p.library; made = if made then p.made + 1 else p.made })

-- What a program does with the publisher at a place, or with the process.
pub data Act : Type 0 where
  creates : Config → Bool → ℤ → ℤ → Act
  starts : ℕ → ℤ → ℤ → Act
  meets : ℕ → Event → Act
  stops : ℕ → ℤ → Act
  destroys : ℕ → ℤ → Act

unfoldable pub change_at : ℕ → (Impl → Impl) → List Impl → List Impl
change_at k f [] = []
change_at zero f (i ∷ is) = f i ∷ is
change_at (suc k) f (i ∷ is) = i ∷ change_at k f is

-- The publisher at a place, and the others.
unfoldable pub take_out : ℕ → List Impl → Option (Impl × List Impl)
take_out k [] = none
take_out zero (i ∷ is) = some (i, is)
take_out (suc k) (i ∷ is) = elim (take_out k is) [
  | none ↦ none
  | some (j, rest) ↦ some (j, i ∷ rest)
]

abbrev pub destroyed_at : ℤ → Process → Option (Impl × List Impl) → Process
destroyed_at rc p none = p
destroyed_at rc p (some (i, rest)) = destroy rc i (record p { alive = rest })

unfoldable pub act : Act → Process → Process
unfolding create change_at take_out
act (creates cfg made will_rc rc) p = (create cfg made will_rc rc p).1
act (starts k connect_rc loop_rc) p = record p {
  alive = change_at k (λ i. (start connect_rc loop_rc i).1) p.alive;
}
act (meets k e) p = record p { alive = change_at k (happens e) p.alive }
act (stops k rc) p = record p { alive = change_at k (stop rc) p.alive }
act (destroys k rc) p = destroyed_at rc p (take_out k p.alive)

unfoldable pub run : List Act → Process → Process
unfolding act
run [] p = p
run (a ∷ acts) p = run acts (act a p)

abbrev pub no_publishers : Process
no_publishers = record {
  library = record { users = 0; inits = 0; cleanups = 0 };
  made = 0;
  destroyed = 0;
  alive = [];
  closed = [];
}
