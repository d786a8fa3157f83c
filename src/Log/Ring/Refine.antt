-- ===== src/Log/Ring/Refine.antt =====
-- The ring is a first-in first-out queue of at most `Capacity` entries, also across the wrap of its
-- indices.
use Prim.Native.Nat.{◌∣◌}
use native.Mathlib.Nat.{
  pow-suc, suc-add, zero-add, mod-eq_of_lt, mod-lt, mod-add-mod, mod-eq-sub-mod, mod-mod_of_dvd,
  dvd_refl, dvd-mul_right_of_dvd, pow-le-pow_right,
}
use optronic.Common.{
  ℕ, zero, suc, ◌+◌, ◌-◌, ◌%◌, ◌^◌, ◌≤◌, ◌<◌, ◌≡◌, ◌≢◌, refl, ap, subst, ◌∙◌, ◌⊎◌, inl, inr, dec_lt,
  ◌↔◌, true, false, none, some, List, [], ◌∷◌, ◌++◌, length, length-append, ltb, ◌==◌, arith,
}
use optronic.Common.Bits.{bit_and-mask}
use optronic.Log.Ring.{
  size_mod, update, SpscRing, capacity, mask, empty, try_push, try_pop, size_approx,
}

-- The entries of the queue stand in the slots from number `base` on, going round.
abbrev pub Holds {ℓ} : {A : Type ℓ} → ℕ → (ℕ → A) → ℕ → List A → Type ℓ
Holds k slots base [] = Unit
Holds k slots base (x ∷ q) = (slots (base % capacity k) ≡ x) × Holds k slots (base + 1) q

-- `base` counts what was taken out since the ring was made; the indices are its images in `size_t`.
pub record Represents {ℓ} {A : Type ℓ} (k : ℕ) (r : SpscRing A) (q : List A) : Type ℓ where
  pub base : ℕ
  pub read_is : r.read ≡ base % size_mod
  pub write_is : r.write ≡ (base + length q) % size_mod
  pub fits : length q ≤ capacity k
  pub held : Holds k r.slots base q

pow-dvd : (d k : ℕ) → 2 ^ k ∣ 2 ^ (d + k)
pow-dvd zero k = rw zero-add (dvd_refl _)
pow-dvd (suc d) k = rw (suc-add, pow-suc) (dvd-mul_right_of_dvd _ (pow-dvd d k) 2)

capacity-dvd : (k : ℕ) → k ≤ 63 → capacity k ∣ size_mod
capacity-dvd k h =
    let e : 64 - k + k ≡ 64 = omega arith in subst (λ (t : ℕ). 2 ^ k ∣ 2 ^ t) e (pow-dvd (64 - k) k)

pub capacity-le : (k : ℕ) → k ≤ 63 → capacity k ≤ 2 ^ 63
capacity-le k h = pow-le-pow_right (omega arith) h

-- Masking an index finds the slot of the count that the index stands for.
pub mask_lem : (k n : ℕ) → k ≤ 63 → mask k (n % size_mod) ≡ n % capacity k
mask_lem k n h = bit_and-mask k (n % size_mod) ∙ mod-mod_of_dvd (capacity k) n (capacity-dvd k h)

-- Two counts less than the capacity apart have different slots.
pub mod_ne : (b c n : ℕ) → b < c → c < b + n → b % n ≢ c % n
mod_ne b c n lo hi e = elim (dec_lt (b % n + (c - b)) n) [
  | yes p ↦ omega (arith, shifted, e, mod-eq_of_lt p)
  | no p ↦ omega (
    arith,
    shifted,
    e,
    mod-lt b {m = n} (omega arith),
    mod-eq-sub-mod {n = b % n + (c - b)} {m = n} (omega arith),
    mod-eq_of_lt {n = b % n + (c - b) - n} {m = n} (omega (arith, mod-lt b {m = n} (omega arith))),
  )
]
  where
    shifted : (b % n + (c - b)) % n ≡ c % n
    shifted = mod-add-mod b n (c - b) ∙ ap (λ (t : ℕ). t % n) (omega arith)

-- The number of entries, from the two indices.
abbrev pub gap : ℕ → ℕ → ℕ
gap w r = (w + size_mod - r) % size_mod

gap_lem : (b n w r : ℕ) → r ≡ b % size_mod → w ≡ (b + n) % size_mod → n < size_mod → gap w r ≡ n
gap_lem b n w r p q h = omega arith

module _ {ℓ} {A : Type ℓ} (k : ℕ) (small : k ≤ 63) where
  pub Holds-update :
      (slots : ℕ → A) (b c : ℕ) (x : A) (q : List A)
      → b + length q ≤ c
      → c < b + capacity k
      → Holds k slots b q
      → Holds k (update slots (c % capacity k) x) b q
  Holds-update slots b c x [] h l held = tt
  Holds-update slots b c x (y ∷ q) h l held = (
    ground (arith, mod_ne b c (capacity k) (omega arith) (omega arith), held.0),
    Holds-update slots (b + 1) c x q (omega arith) (omega arith) held.1,
  )

  pub Holds-snoc :
      (slots : ℕ → A) (b c : ℕ) (x : A) (q : List A)
      → c ≡ b + length q
      → slots (c % capacity k) ≡ x
      → Holds k slots b q
      → Holds k slots b (q ++ x ∷ [])
  Holds-snoc slots b c x [] e s held = (rw (← e') s, tt)
    where
      e' : c ≡ b
      e' = omega arith
  Holds-snoc slots b c x (y ∷ q) e s held =
      (held.0, Holds-snoc slots (b + 1) c x q (omega arith) s held.1)

  push_held :
      (r : SpscRing A) (q : List A) (x : A) (v : Represents k r q)
      → length q < capacity k
      → Holds k (update r.slots (mask k r.write) x) v.base (q ++ x ∷ [])
  push_held r q x v room =
      rw (v.write_is, mask_lem k (v.base + length q) small)
        (Holds-snoc (update r.slots ((v.base + length q) % capacity k) x) v.base (v.base + length q)
          x q refl (ground arith)
          (Holds-update r.slots v.base (v.base + length q) x q (omega arith) (omega arith) v.held))

  pushed_Represents :
      (r : SpscRing A) (q : List A) (x : A)
      → Represents k r q
      → length q < capacity k
      → Represents k
          (record r { slots = update r.slots (mask k r.write) x; write = (r.write + 1) % size_mod })
          (q ++ x ∷ [])
  pushed_Represents r q x v room = record {
    base = v.base;
    read_is = v.read_is;
    write_is = rw (length-append q (x ∷ [])) (omega arith);
    fits = omega (arith, length-append q (x ∷ []));
    held = push_held r q x v room;
  }

  pub push_gap :
      (r : SpscRing A) (q : List A)
      → Represents k r q
      → gap ((r.write + 1) % size_mod) r.read ≡ length q + 1
  push_gap r q v = omega (arith, capacity-le k small)

  -- On a ring that stands for a queue: `try_push` returns false and changes nothing when the queue
  -- has as many entries as the capacity, and otherwise returns true and appends the entry.
  pub try_push-Represents :
      (r : SpscRing A) (q : List A) (x : A)
      → Represents k r q
      → let (pushed, r') = try_push k r x in
        ((length q ≡ capacity k) × (pushed ≡ false) × (r' ≡ r))
        ⊎ ((length q < capacity k) × (pushed ≡ true) × Represents k r' (q ++ x ∷ []))
  unfolding try_push
  try_push-Represents r q x v = elim (dec_lt (length q) (capacity k)) [
    | yes room ↦
        let go : ltb (capacity k) (gap ((r.write + 1) % size_mod) r.read) ≡ false =
          ground (arith, push_gap r q v) in
        rw go (inr (room, refl, pushed_Represents r q x v room))
    | no full ↦
        let stay : ltb (capacity k) (gap ((r.write + 1) % size_mod) r.read) ≡ true =
          ground (arith, push_gap r q v) in
        rw stay (inl (omega arith, refl, refl))
  ]

  pub read-eq-write :
      (r : SpscRing A) (q : List A) → Represents k r q → (r.read ≡ r.write) ↔ (length q ≡ 0)
  read-eq-write r q v = omega (
    arith,
    gap_lem v.base (length q) r.write r.read v.read_is v.write_is
        (omega (arith, capacity-le k small)),
  )

  pub head_slot :
      (r : SpscRing A) (x : A) (q : List A) → Represents k r (x ∷ q) → r.slots (mask k r.read) ≡ x
  head_slot r x q v = rw (v.read_is, mask_lem k v.base small) v.held.0

  pub popped_Represents :
      (r : SpscRing A) (x : A) (q : List A)
      → Represents k r (x ∷ q)
      → Represents k (record r { read = (r.read + 1) % size_mod }) q
  popped_Represents r x q v = record {
    base = v.base + 1;
    read_is = omega arith;
    write_is = rw v.write_is (ap (λ (t : ℕ). t % size_mod) (omega arith));
    fits = omega arith;
    held = v.held.1;
  }

  -- On a ring that stands for a queue: `try_pop` returns false and changes nothing when the queue is
  -- empty, and otherwise hands out its first entry and leaves the ring standing for the rest.
  pub try_pop-Represents :
      (r : SpscRing A) (q : List A)
      → Represents k r q
      → let (out, r') = try_pop k r in
        ((q ≡ []) × (out ≡ none) × (r' ≡ r))
        ⊎ ((x : A) × (rest : List A) × (q ≡ x ∷ rest) × (out ≡ some x) × Represents k r' rest)
  unfolding try_pop
  try_pop-Represents r [] v =
      let same : (r.read == r.write) ≡ true = ground (arith, read-eq-write r [] v) in
      rw same (inl (refl, refl, refl))
  try_pop-Represents r (x ∷ q) v =
      let other : (r.read == r.write) ≡ false = ground (arith, read-eq-write r (x ∷ q) v) in
      rw other (inr (x, q, refl, ap some (head_slot r x q v), popped_Represents r x q v))

  -- Outside of a call the difference of the indices is the number of entries.
  pub size_approx-Represents :
      (r : SpscRing A) (q : List A) → Represents k r q → size_approx r ≡ length q
  unfolding size_approx
  size_approx-Represents r q v =
      gap_lem v.base (length q) r.write r.read v.read_is v.write_is
        (omega (arith, capacity-le k small))

  pub empty-Represents : (a : A) → Represents k (empty a) []
  empty-Represents a = record {
    base = 0;
    read_is = refl;
    write_is = refl;
    fits = omega arith;
    held = tt;
  }
