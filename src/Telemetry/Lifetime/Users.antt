-- ===== src/Telemetry/Lifetime/Users.antt =====
-- That the library, the clients and the publishers of a process stay in step.
use optronic.Common.{
  ℕ, zero, suc, ◌+◌, ◌≡◌, refl, Bool, true, false, Option, none, some, List, [], ◌∷◌, length,
  if◌then◌else◌, arith, Bool-cases, inl, inr, ◌∙◌,
}
use optronic.Common.Int.{ℤ}
use optronic.Telemetry.Client.{
  Impl, lib_ref, lib_unref, is_success, construct, start, stop, publish,
}
use optronic.Telemetry.Counts.{happens-client, Balanced, lib_ref-Balanced}
use optronic.Telemetry.Lifetime.{
  Config, new_impl, Process, destroy, create, Act, creates, starts, meets, stops, destroys,
  change_at, take_out, destroyed_at, act, run, no_publishers,
}

-- Each has a client.
abbrev pub Clients : List Impl → Type 0
Clients [] = Unit
Clients (i ∷ is) = (i.client ≡ true) × Clients is

-- The library's users are the publishers, it is set up once more than it was cleaned up while there
-- are any, and as often otherwise, and the clients that were made and not destroyed are theirs.
pub record Proper (p : Process) : Type 0 where
  pub users : p.library.users ≡ length p.alive
  pub balance : Balanced p.library
  pub clients : p.made ≡ p.destroyed + length p.alive
  pub all : Clients p.alive

change_at-Clients :
    (k : ℕ) (f : Impl → Impl) (is : List Impl)
    → ((i : Impl) → (f i).client ≡ i.client)
    → Clients is
    → (length (change_at k f is) ≡ length is) × Clients (change_at k f is)
unfolding change_at
change_at-Clients zero f [] h c = (refl, tt)
change_at-Clients (suc k) f [] h c = (refl, tt)
change_at-Clients zero f (i ∷ is) h (c, cs) = (refl, (h i ∙ c, cs))
change_at-Clients (suc k) f (i ∷ is) h (c, cs) =
    let (l, cs') = change_at-Clients k f is h cs in (omega (arith, l), (c, cs'))

start-client :
    (connect_rc loop_rc : ℤ) (i : Impl) → (start connect_rc loop_rc i).1.client ≡ i.client
unfolding start
start-client connect_rc loop_rc i = ground arith

stop-client : (rc : ℤ) (i : Impl) → (stop rc i).client ≡ i.client
unfolding stop publish
stop-client rc i = ground arith

destroy-Proper :
    (rc : ℤ) (i : Impl) (p : Process)
    → p.library.users ≡ length p.alive + 1
    → Balanced p.library
    → p.made ≡ p.destroyed + length p.alive + (if i.client then 1 else 0)
    → Clients p.alive
    → Proper (destroy rc i p)
unfolding destroy lib_unref
destroy-Proper rc i p u b m c = record {
  users = omega (arith, u);
  balance = ground (arith, u, b);
  clients = ground (arith, m, stop-client rc i);
  all = c;
}

create-Proper :
    (cfg : Config) (made : Bool) (will_rc rc : ℤ) (p : Process)
    → Proper p
    → Proper (create cfg made will_rc rc p).1
unfolding create construct lib_ref
create-Proper cfg false will_rc rc p h =
    destroy-Proper rc (construct false will_rc (new_impl cfg)).1
      (record p { library = lib_ref p.library }) (omega (arith, h.users))
      (lib_ref-Balanced p.library h.balance).0 (omega (arith, h.clients)) h.all
create-Proper cfg true will_rc rc p h =
    let ref : Process = record p { library = lib_ref p.library; made = p.made + 1 } in
    elim (Bool-cases (is_success will_rc)) [
      | inl e ↦ rw e (record {
        users = omega (arith, h.users);
        balance = (lib_ref-Balanced p.library h.balance).0;
        clients = omega (arith, h.clients);
        all = (refl, h.all);
      })
      | inr e ↦ rw e (
          destroy-Proper rc _ ref (omega (arith, h.users)) (lib_ref-Balanced p.library h.balance).0
            (omega (arith, h.clients)) h.all)
    ]

-- What is left when one is taken out.
abbrev Taken : List Impl → Option (Impl × List Impl) → Type 0
Taken is none = Unit
Taken is (some (i, rest)) = (length is ≡ length rest + 1) × (i.client ≡ true) × Clients rest

Taken-next :
    (i : Impl) (is : List Impl) (o : Option (Impl × List Impl))
    → i.client ≡ true
    → Taken is o
    → Taken (i ∷ is) (elim o as (λ x. Option (Impl × List Impl)) [
      | none ↦ none
      | some (j, rest) ↦ some (j, i ∷ rest)
    ])
Taken-next i is none c t = tt
Taken-next i is (some (j, rest)) c (l, d, cs) = (omega (arith, l), d, (c, cs))

take_out-Taken : (k : ℕ) (is : List Impl) → Clients is → Taken is (take_out k is)
unfolding take_out
take_out-Taken zero [] c = tt
take_out-Taken (suc k) [] c = tt
take_out-Taken zero (i ∷ is) (c, cs) = (omega arith, c, cs)
take_out-Taken (suc k) (i ∷ is) (c, cs) = Taken-next i is _ c (take_out-Taken k is cs)

destroyed_at-Proper :
    (rc : ℤ) (p : Process) (o : Option (Impl × List Impl))
    → Proper p
    → Taken p.alive o
    → Proper (destroyed_at rc p o)
destroyed_at-Proper rc p none h t = h
destroyed_at-Proper rc p (some (i, rest)) h (l, c, cs) =
    destroy-Proper rc i (record p { alive = rest }) (omega (arith, h.users, l)) h.balance
      (rw c (omega (arith, h.clients, l))) cs

changed-Proper :
    (k : ℕ) (f : Impl → Impl) (p : Process)
    → ((i : Impl) → (f i).client ≡ i.client)
    → Proper p
    → Proper (record p { alive = change_at k f p.alive })
changed-Proper k f p same h =
    let (l, cs) = change_at-Clients k f p.alive same h.all in
    record {
      users = omega (arith, h.users, l);
      balance = h.balance;
      clients = omega (arith, h.clients, l);
      all = cs;
    }

act-Proper : (a : Act) (p : Process) → Proper p → Proper (act a p)
unfolding act
act-Proper (creates cfg made will_rc rc) p h = create-Proper cfg made will_rc rc p h
act-Proper (starts k connect_rc loop_rc) p h =
    changed-Proper k _ p (start-client connect_rc loop_rc) h
act-Proper (meets k e) p h = changed-Proper k _ p (happens-client e) h
act-Proper (stops k rc) p h = changed-Proper k _ p (stop-client rc) h
act-Proper (destroys k rc) p h =
    destroyed_at-Proper rc p (take_out k p.alive) h (take_out-Taken k p.alive h.all)

run-from : (acts : List Act) (p : Process) → Proper p → Proper (run acts p)
unfolding run
run-from [] p h = h
run-from (a ∷ acts) p h = run-from acts (act a p) (act-Proper a p h)

-- Whatever publishers a process makes, uses and destroys, in whatever order, with whatever answers of
-- libmosquitto, failed creations included: the library's users are the publishers that there are, it
-- is set up once more than it was cleaned up while there are any and as often otherwise, each of them
-- has a client, and every other client that mosquitto_new gave was destroyed once.
pub run-Proper : (acts : List Act) → Proper (run acts no_publishers)
run-Proper acts =
    run-from acts no_publishers (record { users = refl; balance = refl; clients = refl; all = tt })
