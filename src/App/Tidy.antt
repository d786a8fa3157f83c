-- ===== src/App/Tidy.antt =====
-- Components that give back what they took: `init` takes something, `stop` gives it back, and a failing
-- `init` takes nothing. What was taken is a list of keys, and the invariant `I` speaks of it.
use optronic.Common.{ℕ, ◌≡◌, sym, subst, ap, Bool, List, [], ◌∷◌, ◌++◌}
use optronic.Core.Error.{Error}
use optronic.Core.Expected.{ok, err, Status}
use optronic.App.{Component}
use optronic.App.Order.{
  stop_all, Up, none_left, one_up, Boot, all_up, init_failed, start_failed, stop_all-append,
}

module _ {W : Type 0} {K : Type 0} (I : List K → W → Type 0) where
  pub record Tidy (k : K) (c : Component W) : Type 0 where
    pub takes : (ks : List K) (w : W) → I ks w → I (k ∷ ks) (c.init w).1
    pub refuses :
        (ks : List K) (w : W) (e : Error) → (c.init w).0 ≡ err e → I ks w → I ks (c.init w).1
    pub holds : (ks : List K) (w : W) → I (k ∷ ks) w → I (k ∷ ks) (c.start w).1
    pub gives : (ks : List K) (w : W) → I (k ∷ ks) w → I ks (c.stop w)

  abbrev pub AllTidy : List (Component W) → Type 0
  AllTidy [] = Unit
  AllTidy (c ∷ cs) = ((k : K) × Tidy k c) × AllTidy cs

  -- What is taken at the end, and that stopping them all gives it back.
  abbrev pub Stacked : List K → List (Component W) → W → Type 0
  Stacked ks cs w = (top : List K) × I top w × ((v : W) → I top v → I ks (stop_all cs v))

  Up-Stacked :
      (cs : List (Component W)) {w w' : W} (ks : List K)
      → AllTidy cs
      → I ks w
      → Up cs w w'
      → Stacked ks cs w'
  unfolding stop_all
  Up-Stacked [] ks t i none_left = (ks, i, λ v h. h)
  Up-Stacked (x ∷ cs) ks ((k, c), ts) i (one_up e f up) =
      let i1 = subst (λ (r : Status × W). I (k ∷ ks) r.1) e (c.takes ks _ i) in
      let i2 = subst (λ (r : Status × W). I (k ∷ ks) r.1) f (c.holds ks _ i1) in
      let (top, h, down) = Up-Stacked cs (k ∷ ks) ts i2 up in
      (top, h, λ v g. c.gives ks _ (down v g))

  before :
      (pre : List (Component W)) (c : Component W) (post : List (Component W))
      → AllTidy (pre ++ c ∷ post)
      → AllTidy pre × ((k : K) × Tidy k c)
  before [] c post (t, ts) = (tt, t)
  before (x ∷ pre) c post (t, ts) = let (a, b) = before pre c post ts in ((t, a), b)

  -- Whatever starting the components comes to: where it failed, all that was taken was given back;
  -- otherwise stopping them gives it back.
  abbrev pub Settled : List K → List (Component W) → Status → W → Type 0
  Settled ks cs (ok a) w = Stacked ks cs w
  Settled ks cs (err e) w = I ks w

  pub Boot-Settled :
      {cs : List (Component W)} {w w' : W} {s : Status} {n : ℕ} {running : Bool}
      → (ks : List K) → AllTidy cs
      → I ks w
      → Boot cs w s n running w'
      → Settled ks cs s w'
  unfolding stop_all
  Boot-Settled ks t i (all_up n r up) = Up-Stacked _ ks t i up
  Boot-Settled ks t i (init_failed pre c post n r e up f w3) =
      let (ts, (k, tidy)) = before pre c post (subst AllTidy e t) in
      let (top, h, down) = Up-Stacked pre ks ts i up in
      let h' = tidy.refuses top _ _ (ap (λ (r : Status × W). r.0) f) h in
      subst (I ks) (sym w3) (down _ (subst (λ (r : Status × W). I top r.1) f h'))
  Boot-Settled ks t i (start_failed pre c post n r e up f g w4) =
      let (ts, (k, tidy)) = before pre c post (subst AllTidy e t) in
      let (top, h, down) = Up-Stacked pre ks ts i up in
      let h1 = subst (λ (r : Status × W). I (k ∷ top) r.1) f (tidy.takes top _ h) in
      let h2 = subst (λ (r : Status × W). I (k ∷ top) r.1) g (tidy.holds top _ h1) in
      subst (I ks) (sym w4)
        (subst (I ks) (sym (stop_all-append pre (c ∷ []) _)) (down _ (tidy.gives top _ h2)))
