-- ===== src/Hal/Uio/Owners.antt =====
-- Every handle of the operating system has one owner, and is given back once.
use optronic.Common.{
  ℕ, zero, suc, ◌+◌, ◌≡◌, ◌≢◌, refl, ◌∙◌, Bool, ◌&&◌, Option, none, some, List, [], ◌∷◌, ◌++◌,
  get_elem?, set, get_elem?-set_ne, ◌==◌, if◌then◌else◌, Bool-cases, Option-cases, inl, inr, arith,
}
use optronic.Hal.Uio.{
  Region, Kernel, Op, opens, moves, assigns, destroys, open_region, destroy, move_assign,
  moved_from, keep, assign_places, perform,
}

-- How many of the entries are the one that is asked for.
abbrev pub count : {A : Type 0} → (A → Bool) → List A → ℕ
count p [] = 0
count p (x ∷ xs) = (if p x then 1 else 0) + count p xs

abbrev pub is_handle : {A : Type 0} → (A → Bool) → Option A → ℕ
is_handle p none = 0
is_handle p (some x) = if p x then 1 else 0

-- How many of the regions own the handle.
abbrev pub owners : {A : Type 0} → (A → Bool) → (Region → Option A) → List Region → ℕ
owners p part [] = 0
owners p part (r ∷ rs) = is_handle p (part r) + owners p part rs

-- The mapping that a region owns, with the length that it was made with.
abbrev at_length : Option ℕ → ℕ → Option (ℕ × ℕ)
at_length none length = none
at_length (some at) length = some (at, length)

abbrev pub mapping : Region → Option (ℕ × ℕ)
mapping r = at_length r.base r.length

module _ {A : Type 0} (p : A → Bool) (part : Region → Option A) where
  owners-append :
      (rs : List Region) (r : Region)
      → owners p part (rs ++ r ∷ []) ≡ owners p part rs + is_handle p (part r)
  owners-append [] r = omega arith
  owners-append (x ∷ rs) r = omega (arith, owners-append rs r)

  owners-set :
      (rs : List Region) (i : ℕ) (r r' : Region)
      → get_elem? rs i ≡ some r
      → owners p part (set rs i r') + is_handle p (part r)
        ≡ owners p part rs + is_handle p (part r')
  owners-set [] i r r' h = absurd (cc)
  owners-set (x ∷ rs) zero r r' h = ground arith
  owners-set (x ∷ rs) (suc i) r r' h = omega (arith, owners-set rs i r r' h)

abbrev pub is_mapping : ℕ → ℕ → ℕ × ℕ → Bool
is_mapping at len (a, l) = a == at && l == len

-- Each handle was given as often as it was taken back, and once more for each region that owns it.
pub record Owned (rs : List Region) (k : Kernel) (d at len : ℕ) : Type 0 where
  pub descriptors :
      count (λ x. x == d) k.opened
      ≡ count (λ x. x == d) k.closed + owners (λ x. x == d) (λ r. r.fd) rs
  pub mappings :
      count (is_mapping at len) k.mapped
      ≡ count (is_mapping at len) k.unmapped + owners (is_mapping at len) mapping rs

module _ (d at len : ℕ) where
  abbrev same_fd : ℕ → Bool
  same_fd x = x == d

  destroys-Owned :
      (rs : List Region) (i : ℕ) (r : Region) (k : Kernel)
      → get_elem? rs i ≡ some r
      → Owned rs k d at len
      → Owned (set rs i (destroy r k).0) (destroy r k).1 d at len
  unfolding destroy
  destroys-Owned rs i r k h o =
      let r' : Region = record r { base = none; fd = none } in
      record {
        descriptors = ground (arith, o.descriptors, owners-set same_fd (λ r. r.fd) rs i r r' h);
        mappings = ground (arith, o.mappings, owners-set (is_mapping at len) mapping rs i r r' h);
      }

  moves-Owned :
      (rs : List Region) (i : ℕ) (r : Region) (k : Kernel)
      → get_elem? rs i ≡ some r
      → Owned rs k d at len
      → Owned (set rs i moved_from ++ r ∷ []) k d at len
  moves-Owned rs i r k h o = record {
    descriptors = omega (
      arith,
      o.descriptors,
      owners-set same_fd (λ r. r.fd) rs i r moved_from h,
      owners-append same_fd (λ r. r.fd) (set rs i moved_from) r,
    );
    mappings = omega (
      arith,
      o.mappings,
      owners-set (is_mapping at len) mapping rs i r moved_from h,
      owners-append (is_mapping at len) mapping (set rs i moved_from) r,
    );
  }

  opens-Owned :
      (rs : List Region) (fd base : Option ℕ) (length : ℕ) (k : Kernel)
      → Owned rs k d at len
      → let (r, k') = open_region fd base length k in Owned (keep rs r) k' d at len
  unfolding open_region
  opens-Owned rs none at length k o = o
  opens-Owned rs (some fd) none length k o = record {
    descriptors = omega (arith, o.descriptors);
    mappings = o.mappings;
  }
  opens-Owned rs (some fd) (some base) length k o =
      let r : Region = record { fd = some fd; base = some base; length = length } in
      record {
        descriptors = omega (arith, o.descriptors, owners-append same_fd (λ r. r.fd) rs r);
        mappings = omega (arith, o.mappings, owners-append (is_mapping at len) mapping rs r);
      }

  assigns-Owned :
      (rs : List Region) (i j : ℕ) (this other : Region) (k : Kernel)
      → i ≢ j
      → get_elem? rs i ≡ some this
      → get_elem? rs j ≡ some other
      → Owned rs k d at len
      → Owned (set (set rs i other) j moved_from) (destroy this k).1 d at len
  unfolding destroy
  assigns-Owned rs i j this other k ne h h' o =
      let rs' = set rs i other in
      let still : get_elem? rs' j ≡ some other = get_elem?-set_ne rs other ne ∙ h' in
      record {
        descriptors = ground (
          arith,
          o.descriptors,
          owners-set same_fd (λ r. r.fd) rs i this other h,
          owners-set same_fd (λ r. r.fd) rs' j other moved_from still,
        );
        mappings = ground (
          arith,
          o.mappings,
          owners-set (is_mapping at len) mapping rs i this other h,
          owners-set (is_mapping at len) mapping rs' j other moved_from still,
        );
      }

  assign_places-Owned :
      (rs : List Region) (i j : ℕ) (a b : Option Region) (k : Kernel)
      → i ≢ j
      → get_elem? rs i ≡ a
      → get_elem? rs j ≡ b
      → Owned rs k d at len
      → let (rs', k') = assign_places i j a b rs k in Owned rs' k' d at len
  unfolding move_assign
  assign_places-Owned rs i j none b k ne h h' o = o
  assign_places-Owned rs i j (some this) none k ne h h' o = o
  assign_places-Owned rs i j (some this) (some other) k ne h h' o =
      assigns-Owned rs i j this other k ne h h' o

  perform-Owned :
      (op : Op) (rs : List Region) (k : Kernel)
      → Owned rs k d at len
      → let (rs', k') = perform op rs k in Owned rs' k' d at len
  unfolding perform
  perform-Owned (opens fd base length) rs k o = opens-Owned rs fd base length k o
  perform-Owned (moves i) rs k o = elim (Option-cases (get_elem? rs i)) [
    | inl h ↦ rw (h, perform) o
    | inr (r, h) ↦ rw (h, perform) (moves-Owned rs i r k h o)
  ]
  perform-Owned (assigns i j) rs k o = elim (Bool-cases (i == j)) [
    | inl e ↦ rw (e, perform) o
    | inr e ↦
        rw (e, perform)
          (assign_places-Owned rs i j (get_elem? rs i) (get_elem? rs j) k (ground arith) refl refl
            o)
  ]
  perform-Owned (destroys i) rs k o = elim (Option-cases (get_elem? rs i)) [
    | inl h ↦ rw (h, perform) o
    | inr (r, h) ↦ rw (h, perform) (destroys-Owned rs i r k h o)
  ]

unfoldable pub run : List Op → List Region → Kernel → List Region × Kernel
run [] rs k = (rs, k)
run (op ∷ ops) rs k = let (rs', k') = perform op rs k in run ops rs' k'

-- Whatever a program does with its regions, and whatever the operating system answers, every
-- descriptor and every mapping was given as often as it was given back, and once more for each region
-- that owns it now; a mapping counts as given back only where munmap was given its address and its
-- length. So none is given back more often than it was given, and a failed `open` keeps none.
pub run-Owned :
    (d at len : ℕ) (ops : List Op) (rs : List Region) (k : Kernel)
    → Owned rs k d at len
    → let (rs', k') = run ops rs k in Owned rs' k' d at len
unfolding run
run-Owned d at len [] rs k o = o
run-Owned d at len (op ∷ ops) rs k o =
    let (rs', k') = perform op rs k in
    run-Owned d at len ops rs' k' (perform-Owned d at len op rs k o)
