-- ===== src/App/Trace.antt =====
-- What an observer of the components sees over a whole life: `App::start`, then `App::stop`, then
-- `App::stop` again, as the destructor does.
use optronic.Common.{
  ℕ, zero, suc, ◌+◌, ◌≤◌, ◌≡◌, refl, sym, ap, subst, ◌∙◌, Bool, false, List, [], ◌∷◌, ◌++◌, reverse,
  append_assoc, append-nil, length, length-append, arith,
}
use mathlib.Core.List.{reverse-cons}
use optronic.Core.Error.{Error}
use optronic.Core.Expected.{ok, err, Status}
use optronic.App.{Component, App, stop_down, stop_through, start_from, start, stop}
use optronic.App.Order.{
  stop_all, Up, none_left, one_up, Boot, all_up, init_failed, start_failed, start-Boot,
  stop_down-append,
}

-- n, n + 1, …, n + k - 1
abbrev pub count_up : ℕ → ℕ → List ℕ
count_up n zero = []
count_up n (suc k) = n ∷ count_up (n + 1) k

module _ {ℓ} {W : Type ℓ} (inited stopped : W → List ℕ) where
  -- Component number `i` reports to the two lists: a successful `init` to the first, each `stop` to
  -- the second, and nothing else.
  pub record Reports (i : ℕ) (c : Component W) : Type ℓ where
    pub init_ok :
        {a : Unit {0}} (w : W) {w' : W}
        → c.init w ≡ (ok a, w')
        → (inited w' ≡ inited w ++ i ∷ []) × (stopped w' ≡ stopped w)
    pub init_err :
        {e : Error} (w : W) {w' : W}
        → c.init w ≡ (err e, w')
        → (inited w' ≡ inited w) × (stopped w' ≡ stopped w)
    pub start_ok :
        {a : Unit {0}} (w : W) {w' : W}
        → c.start w ≡ (ok a, w')
        → (inited w' ≡ inited w) × (stopped w' ≡ stopped w)
    pub start_err :
        {e : Error} (w : W) {w' : W}
        → c.start w ≡ (err e, w')
        → (inited w' ≡ inited w) × (stopped w' ≡ stopped w)
    pub stop_once :
        (w : W) → (inited (c.stop w) ≡ inited w) × (stopped (c.stop w) ≡ stopped w ++ i ∷ [])

  -- The components are numbered from `n` on.
  abbrev pub ReportAll : ℕ → List (Component W) → Type ℓ
  ReportAll n [] = Unit
  ReportAll n (c ∷ cs) = Reports n c × ReportAll (n + 1) cs

  ReportAll-prefix :
      (n : ℕ) (pre post : List (Component W)) → ReportAll n (pre ++ post) → ReportAll n pre
  ReportAll-prefix n [] post r = tt
  ReportAll-prefix n (c ∷ pre) post r = (r.0, ReportAll-prefix (n + 1) pre post r.1)

  none_counted : (cs : List (Component W)) (n : ℕ) (w : W) → n ≡ 0 → stop_down cs n w ≡ w
  unfolding stop_down
  none_counted cs n w e = rw e

  Up-inited :
      (n : ℕ) {cs : List (Component W)} {w w' : W}
      → ReportAll n cs
      → Up cs w w'
      → (inited w' ≡ inited w ++ count_up n (length cs)) × (stopped w' ≡ stopped w)
  Up-inited n r none_left = (sym (append-nil _), refl)
  Up-inited n r (one_up {cs} {w} {w1} {w2} i s u) =
      let (p, q) = r.0.init_ok w i in
      let (p', q') = r.0.start_ok w1 s in
      let (p'', q'') = Up-inited (n + 1) r.1 u in
      (
        p'' ∙ rw (p', p, append_assoc (inited w) (n ∷ []) (count_up (n + 1) (length cs))),
        q'' ∙ q' ∙ q,
      )

  stop_all-stopped :
      (n : ℕ) (cs : List (Component W)) (w : W)
      → ReportAll n cs
      → (inited (stop_all cs w) ≡ inited w)
        × (stopped (stop_all cs w) ≡ stopped w ++ reverse (count_up n (length cs)))
  unfolding stop_all
  stop_all-stopped n [] w r = (refl, sym (append-nil _))
  stop_all-stopped n (c ∷ cs) w r =
      let (p, q) = stop_all-stopped (n + 1) cs w r.1 in
      let (p', q') = r.0.stop_once (stop_all cs w) in
      (p' ∙ p, q' ∙ rw (q, append_assoc, ← reverse-cons n (count_up (n + 1) (length cs))))

  abbrev Balanced : ℕ → W → W → Type 0
  Balanced k w w' =
      (inited w' ≡ inited w ++ count_up 0 k) × (stopped w' ≡ stopped w ++ reverse (count_up 0 k))

  count_up-snoc : (n k m : ℕ) → m ≡ n + k → count_up n (suc k) ≡ count_up n k ++ m ∷ []
  count_up-snoc n zero m e = ap (λ (t : ℕ). t ∷ []) (omega arith)
  count_up-snoc n (suc k) m e = ap (◌∷◌ n) (count_up-snoc (n + 1) k m (omega arith))

  ReportAll-middle :
      (n m : ℕ) (pre : List (Component W)) (c : Component W) (post : List (Component W))
      → ReportAll n (pre ++ c ∷ post)
      → m ≡ n + length pre
      → Reports m c
  ReportAll-middle n m [] c post r e = subst (λ k. Reports k c) (omega arith) r.0
  ReportAll-middle n m (x ∷ pre) c post r e =
      ReportAll-middle (n + 1) m pre c post r.1 (omega arith)

  -- Stopping in reverse what has been initialised balances the two lists.
  stop_all-Balanced :
      (pre : List (Component W)) {w w1 : W}
      → ReportAll 0 pre
      → inited w1 ≡ inited w ++ count_up 0 (length pre)
      → stopped w1 ≡ stopped w
      → Balanced (length pre) w (stop_all pre w1)
  stop_all-Balanced pre {w1} r i s =
      let (p, q) = stop_all-stopped 0 pre w1 r in
      (p ∙ i, q ∙ ap (λ (l : List ℕ). l ++ reverse (count_up 0 (length pre))) s)

  start_failed-Balanced :
      {e : Error} {a : Unit {0}} {w w1 w2 w3 : W} (pre : List (Component W)) (c : Component W)
      (post : List (Component W))
      → ReportAll 0 (pre ++ c ∷ post)
      → Up pre w w1
      → c.init w1 ≡ (ok a, w2)
      → c.start w2 ≡ (err e, w3)
      → Balanced (length (pre ++ c ∷ [])) w (stop_all (pre ++ c ∷ []) w3)
  start_failed-Balanced {w} {w1} {w2} {w3} pre c post r u i x =
      let (p, q) = Up-inited 0 (ReportAll-prefix 0 pre (c ∷ post) r) u in
      let at = ReportAll-middle 0 (length pre) pre c post r (omega arith) in
      let (p', q') = at.init_ok w1 i in
      let (p'', q'') = at.start_err w2 x in
      stop_all-Balanced (pre ++ c ∷ [])
        (ReportAll-prefix 0 (pre ++ c ∷ []) post (rw append_assoc r))
        (p'' ∙ p' ∙ rw (p, append_assoc, one_more)) (q'' ∙ q' ∙ q)
    where
      one_more : count_up 0 (length (pre ++ c ∷ [])) ≡ count_up 0 (length pre) ++ length pre ∷ []
      one_more =
          let grown : length (pre ++ c ∷ []) ≡ suc (length pre) =
            omega (arith, length-append pre (c ∷ [])) in
          ap (count_up 0) grown ∙ count_up-snoc 0 (length pre) (length pre) (omega arith)

  ended :
      {cs : List (Component W)} {s : Status} {n : ℕ} {running : Bool} {w w' : W}
      → ReportAll 0 cs
      → Boot cs w s n running w'
      → (k : ℕ) × (k ≤ length cs) × Balanced k w (stop_down cs n w')
  ended {cs} {n} {w} {w'} r (all_up e _ u) = (
    length cs,
    omega arith,
    rw (e, stopped_all) (stop_all-Balanced cs r (Up-inited 0 r u).0 (Up-inited 0 r u).1),
  )
    where
      stopped_all : stop_down cs (length cs) w' ≡ stop_all cs w'
      stopped_all =
          ap (λ l. stop_down l (length cs) w') (sym (append-nil cs)) ∙ stop_down-append cs [] w'
  ended {cs} {n} {w'} r (init_failed {w1} {w2} pre c post n0 _ e u i f) = (
    length pre,
    omega (arith, ap length e, length-append pre (c ∷ post)),
    rw (none_counted cs n w' n0, f)
        (stop_all-Balanced pre within (at.0 ∙ (Up-inited 0 within u).0)
          (at.1 ∙ (Up-inited 0 within u).1)),
  )
    where
      within : ReportAll 0 pre
      within = ReportAll-prefix 0 pre (c ∷ post) (subst (ReportAll 0) e r)

      at : (inited w2 ≡ inited w1) × (stopped w2 ≡ stopped w1)
      at =
          (ReportAll-middle 0 (length pre) pre c post (subst (ReportAll 0) e r)
              (omega arith)).init_err
            w1 i
  ended {cs} {n} {w'} r (start_failed {w3} pre c post n0 _ e u i x f) = (
    length (pre ++ c ∷ []),
    omega (arith, ap length e, length-append pre (c ∷ post), length-append pre (c ∷ [])),
    rw (none_counted cs n w' n0, f)
        (start_failed-Balanced pre c post (subst (ReportAll 0) e r) u i x),
  )

  components-start_from :
      (pending : List (Component W)) (i : ℕ) (app : App W) (w : W)
      → (start_from pending i app w).1.components ≡ app.components
  unfolding start_from stop_through
  components-start_from [] i app w = refl
  components-start_from (c ∷ cs) i app w = ground (
    arith,
    components-start_from cs (i + 1) (record app { started = i + 1 }) (c.start (c.init w).1).1,
  )

  -- Over `start`, `stop` and one more `stop`, whatever `start` came to: the components initialised
  -- with success are the first `k` registered, each is stopped exactly once, in the reverse of the
  -- order in which they were initialised, and the second `stop` changes nothing.
  pub stop-start-balanced :
      (app : App W) (w : W)
      → app.running ≡ false
      → app.started ≡ 0
      → ReportAll 0 app.components
      → let (_, app1, w1) = start app w in
        let (app2, w2) = stop app1 w1 in
        (k : ℕ) × (k ≤ length app.components)
        × (inited w2 ≡ inited w ++ count_up 0 k)
        × (stopped w2 ≡ stopped w ++ reverse (count_up 0 k))
        × (stop app2 w2 ≡ (app2, w2))
  unfolding start stop stop_through
  stop-start-balanced app w r n rep = let (k, h, b) = life in (k, h, b.0, b.1, refl)
    where
      booted : Status × App W × W
      booted = start_from app.components 0 app w

      life :
          (k : ℕ) × (k ≤ length app.components)
          × Balanced k w (stop_down booted.1.components booted.1.started booted.2)
      life =
          subst
            (λ l.
              (k : ℕ) × (k ≤ length app.components)
              × Balanced k w (stop_down l booted.1.started booted.2))
            (sym (components-start_from app.components 0 app w)) (ended rep (start-Boot app w r n))
