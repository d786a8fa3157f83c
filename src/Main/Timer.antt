-- ===== src/Main/Timer.antt =====
-- main.cpp: the thread that starts a correction once, `--nuc` seconds after the start. Its stop token
-- answers its n-th reading; once a stop was requested it stays so.
use optronic.Common.{
  ℕ, zero, suc, ◌+◌, ◌*◌, ◌^◌, ◌≤◌, ◌<◌, ◌≡◌, refl, ◌∙◌, ap, Bool, true, false, not, Option, none,
  some, ltb, if◌then◌else◌, Bool-cases, inl, inr, ◌⊎◌, arith,
}
use optronic.Common.Int.{ℤ, pos, negsuc}

-- Whether the correction is run, from the reading `i` on with `left` rounds of 100 ms to go.
unfoldable pub rounds : (ℕ → Bool) → ℕ → ℕ → Bool
rounds stop zero i = not (stop i)
rounds stop (suc left) i =
    let rest = rounds stop left (suc i) in if stop i then not (stop (suc i)) else rest

-- The count of the rounds is an `int`: where it overflows the result is undefined, `none`.
unfoldable pub nuc_timer : ℤ → (ℕ → Bool) → Option Bool
unfolding rounds
nuc_timer (negsuc n) stop = some false
nuc_timer (pos zero) stop = some false
nuc_timer (pos (suc n)) stop =
    if ltb (suc n * 10) (2 ^ 31) then some (rounds stop (suc n * 10) 0) else none

-- Once set, the request stays.
abbrev pub Stays : (ℕ → Bool) → Type 0
Stays stop = (i j : ℕ) → stop i ≡ true → i ≤ j → stop j ≡ true

rounds-Stays :
    (stop : ℕ → Bool) (left i : ℕ) → Stays stop → rounds stop left i ≡ not (stop (left + i))
unfolding rounds
rounds-Stays stop zero i h = ap (λ (k : ℕ). not (stop k)) (omega arith)
rounds-Stays stop (suc left) i h = elim (Bool-cases (stop i)) [
  | inl e ↦
      let next = h i (suc i) e (omega arith) in
      let end = h i (suc left + i) e (omega arith) in rw (e, next, end) refl
  | inr e ↦ rw e (rounds-Stays stop left (suc i) h ∙ ap (λ (k : ℕ). not (stop k)) (omega arith))
]

-- With `--nuc n` the correction is run exactly when no stop was requested in the n * 10 rounds of
-- 100 ms that the timer sleeps, n seconds, if that count fits an `int`; a count that does not overflows.
pub nuc_timer-runs :
    (n : ℕ) (stop : ℕ → Bool)
    → 0 < n
    → Stays stop
    → ((n * 10 < 2 ^ 31) × (nuc_timer (pos n) stop ≡ some (not (stop (n * 10)))))
      ⊎ ((2 ^ 31 ≤ n * 10) × (nuc_timer (pos n) stop ≡ none))
unfolding nuc_timer
nuc_timer-runs zero stop p h = absurd (omega arith)
nuc_timer-runs (suc n) stop p h = elim (Bool-cases (ltb (suc n * 10) (2 ^ 31))) [
  | inl e ↦ inl (
    ground arith,
    rw e
        (ap some (rounds-Stays stop (suc n * 10) 0 h ∙ ap (λ (k : ℕ). not (stop k)) (omega arith))),
  )
  | inr e ↦ inr (ground arith, rw e refl)
]
