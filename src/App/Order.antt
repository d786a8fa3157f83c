-- ===== src/App/Order.antt =====
-- `App::start` and `App::stop` bring components up in registration order and down in reverse.
use optronic.Common.{
  ℕ, zero, suc, ◌+◌, ◌≡◌, refl, sym, ap, ◌∙◌, subst, ◌⊎◌, inl, inr, Bool, true, false, some, List,
  [], ◌∷◌, ◌++◌, append_assoc, append-nil, length, get_elem?, length-append, arith,
}
use optronic.Core.Error.{Error}
use optronic.Core.Expected.{ok, err, Status, done}
use optronic.App.{Component, App, stop_down, stop_through, start_from, start}

module _ {ℓ} {W : Type ℓ} where
  -- Each component stopped once, the last first.
  unfoldable pub stop_all : List (Component W) → W → W
  stop_all [] w = w
  stop_all (c ∷ cs) w = c.stop (stop_all cs w)

  -- Each component initialised and then started, in order, with no failure.
  pub data Up : List (Component W) → W → W → Type ℓ where
    none_left : {w : W} → Up [] w w
    one_up :
        {c : Component W} {cs : List (Component W)} {w w1 w2 w3 : W} {a b : Unit {0}}
        → c.init w ≡ (ok a, w1)
        → c.start w1 ≡ (ok b, w2)
        → Up cs w2 w3
        → Up (c ∷ cs) w w3

  -- What starting a list of components may come to: the result, how many count as started, whether
  -- the app runs, and the world.
  pub data Boot (cs : List (Component W)) (w : W) : Status → ℕ → Bool → W → Type ℓ where
    all_up :
        {n : ℕ} {running : Bool} {w' : W}
        → n ≡ length cs
        → running ≡ true
        → Up cs w w'
        → Boot cs w done n running w'
    init_failed :
        {n : ℕ} {running : Bool} {e : Error} {w1 w2 w3 : W} (pre : List (Component W))
        (c : Component W) (post : List (Component W))
        → n ≡ 0
        → running ≡ false
        → cs ≡ pre ++ c ∷ post
        → Up pre w w1
        → c.init w1 ≡ (err e, w2)
        → w3 ≡ stop_all pre w2
        → Boot cs w (err e) n running w3
    start_failed :
        {n : ℕ} {running : Bool} {e : Error} {a : Unit {0}} {w1 w2 w3 w4 : W}
        (pre : List (Component W)) (c : Component W) (post : List (Component W))
        → n ≡ 0
        → running ≡ false
        → cs ≡ pre ++ c ∷ post
        → Up pre w w1
        → c.init w1 ≡ (ok a, w2)
        → c.start w2 ≡ (err e, w3)
        → w4 ≡ stop_all (pre ++ c ∷ []) w3
        → Boot cs w (err e) n running w4

  get_elem?-middle :
      (pre : List (Component W)) (c : Component W) (post : List (Component W))
      → get_elem? (pre ++ c ∷ post) (length pre) ≡ some c
  get_elem?-middle [] c post = refl
  get_elem?-middle (x ∷ pre) c post = get_elem?-middle pre c post

  pub stop_all-append :
      (xs ys : List (Component W)) (w : W) → stop_all (xs ++ ys) w ≡ stop_all xs (stop_all ys w)
  unfolding stop_all
  stop_all-append [] ys w = refl
  stop_all-append (x ∷ xs) ys w = ap x.stop (stop_all-append xs ys w)

  drop_last_cases :
      (xs : List (Component W))
      → (xs ≡ []) ⊎ ((ys : List (Component W)) × (y : Component W) × (xs ≡ ys ++ y ∷ []))
  drop_last_cases [] = inl refl
  drop_last_cases (x ∷ xs) = elim (drop_last_cases xs) [
    | inl e ↦ inr ([], x, rw e)
    | inr (ys, y, e) ↦ inr (x ∷ ys, y, rw e)
  ]

  stop_down-within :
      (n : ℕ) (pre post : List (Component W)) (w : W)
      → n ≡ length pre
      → stop_down (pre ++ post) n w ≡ stop_all pre w
  unfolding stop_down stop_all
  stop_down-within zero [] post w e = refl
  stop_down-within zero (x ∷ pre) post w e = absurd (omega arith)
  stop_down-within (suc n) pre post w e = elim (drop_last_cases pre) [
    | inl h ↦ absurd (omega (arith, ap length h))
    | inr (ys, y, h) ↦
        let m : n ≡ length ys = omega (arith, ap length h, length-append ys (y ∷ [])) in
        rw (h, append_assoc ys (y ∷ []) post, stop_all-append ys (y ∷ []) w)
          (ground
            (arith, get_elem?-middle ys y post, stop_down-within n ys (y ∷ post) (y.stop w) m))
  ]

  -- The loop that counts down stops the first components, the last of them first.
  pub stop_down-append :
      (pre post : List (Component W)) (w : W)
      → stop_down (pre ++ post) (length pre) w ≡ stop_all pre w
  stop_down-append pre post w = stop_down-within (length pre) pre post w refl

  Up-snoc :
      {w w1 w2 w3 : W} {a b : Unit {0}} {pre : List (Component W)} (c : Component W)
      → Up pre w w1
      → c.init w1 ≡ (ok a, w2)
      → c.start w2 ≡ (ok b, w3)
      → Up (pre ++ c ∷ []) w w3
  Up-snoc c none_left i s = one_up i s none_left
  Up-snoc c (one_up i' s' u) i s = one_up i' s' (Up-snoc c u i s)

  Status-cases :
      (r : Status × W)
      → ((e : Error) × (w : W) × (r ≡ (err e, w))) ⊎ ((a : Unit {0}) × (w : W) × (r ≡ (ok a, w)))
  Status-cases (err e, w) = inl (e, w, refl)
  Status-cases (ok a, w) = inr (a, w, refl)

  module _ (c : Component W) (cs : List (Component W)) (i : ℕ) (app : App W) {w w1 : W} where
    start_from-init_failed :
        {e : Error}
        → c.init w ≡ (err e, w1)
        → start_from (c ∷ cs) i app w
          ≡ (err e, record app { started = 0 }, stop_down app.components i w1)
    unfolding start_from stop_through
    start_from-init_failed h = ground arith

    start_from-start_failed :
        {e : Error} {a : Unit {0}} {w2 : W}
        → c.init w ≡ (ok a, w1)
        → c.start w1 ≡ (err e, w2)
        → start_from (c ∷ cs) i app w
          ≡ (err e, record app { started = 0 }, stop_down app.components (i + 1) w2)
    unfolding start_from stop_through
    start_from-start_failed h k = ground arith

    start_from-up :
        {a b : Unit {0}} {w2 : W}
        → c.init w ≡ (ok a, w1)
        → c.start w1 ≡ (ok b, w2)
        → start_from (c ∷ cs) i app w ≡ start_from cs (i + 1) (record app { started = i + 1 }) w2
    unfolding start_from stop_through
    start_from-up h k = ground arith

  abbrev pub Outcome : List (Component W) → W → Status × App W × W → Type ℓ
  Outcome cs w (s, app, w') = Boot cs w s app.started app.running w'

  start_from-Boot :
      (pre pending : List (Component W)) (app : App W) (i : ℕ) (w0 w : W)
      → app.components ≡ pre ++ pending
      → app.running ≡ false
      → app.started ≡ i
      → i ≡ length pre
      → Up pre w0 w
      → Outcome app.components w0 (start_from pending i app w)
  unfolding start_from stop_through
  start_from-Boot pre [] app i w0 w e r n m u =
      all_up (omega (arith, ap length e, ap length (append-nil pre))) refl
        (subst (λ l. Up l w0 w) (sym (e ∙ append-nil pre)) u)
  start_from-Boot pre (c ∷ cs) app i w0 w e r n m u = elim (Status-cases (c.init w)) [
    | inl (x, w1, h) ↦
        rw (start_from-init_failed c cs i app h)
          (init_failed pre c cs refl r e u h (rw (e, m) (stop_down-append pre (c ∷ cs) w1)))
    | inr (a, w1, h) ↦ elim (Status-cases (c.start w1)) [
      | inl (x, w2, k) ↦ rw (start_from-start_failed c cs i app h k) (
          start_failed pre c cs refl r e u h k (
            rw (snoc) (
              stop_down-within (i + 1) (pre ++ c ∷ []) cs w2
                (omega (arith, length-append pre (c ∷ []))))))
      | inr (b, w2, k) ↦ rw (start_from-up c cs i app h k) (
          start_from-Boot (pre ++ c ∷ []) cs (record app { started = i + 1 }) (i + 1) w0 w2 snoc r
            refl (omega (arith, length-append pre (c ∷ []))) (Up-snoc c u h k))
    ]
  ]
    where
      snoc : app.components ≡ (pre ++ c ∷ []) ++ cs
      snoc = e ∙ sym (append_assoc pre (c ∷ []) cs)

  -- Starting an app that is not running either brings every component up in registration order, with
  -- all of them counted and the app running; or stops at the first failing `init` or `start`, reports
  -- that component's error, has stopped in reverse order those already initialised (the one whose
  -- `start` failed included) and no other, and is left with none counted and not running.
  pub start-Boot :
      (app : App W) (w : W)
      → app.running ≡ false
      → app.started ≡ 0
      → Outcome app.components w (start app w)
  unfolding start
  start-Boot app w r n = start_from-Boot [] app.components app 0 w w refl r n refl none_left

  start_from-components :
      (cs : List (Component W)) (i : ℕ) (app : App W) (w : W)
      → (start_from cs i app w).1.components ≡ app.components
  unfolding start_from stop_through
  start_from-components [] i app w = refl
  start_from-components (c ∷ cs) i app w = elim (Status-cases (c.init w)) [
    | inl (e, w1, h) ↦ rw (start_from-init_failed c cs i app h) refl
    | inr (a, w1, h) ↦ elim (Status-cases (c.start w1)) [
      | inl (e, w2, k) ↦ rw (start_from-start_failed c cs i app h k) refl
      | inr (b, w2, k) ↦
          rw (start_from-up c cs i app h k)
            (start_from-components cs (i + 1) (record app { started = i + 1 }) w2)
    ]
  ]

  pub start-components : (app : App W) (w : W) → (start app w).1.components ≡ app.components
  unfolding start
  start-components app w = start_from-components app.components 0 app w
