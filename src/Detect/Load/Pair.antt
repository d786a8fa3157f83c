-- ===== src/Detect/Load/Pair.antt =====
-- Either file of a darknet model names the model.
use optronic.Common.{
  ℕ, zero, suc, ◌+◌, ◌-◌, ◌<◌, ◌≡◌, ◌≢◌, refl, sym, ap, ap₂, ◌∙◌, true, ◌&&◌, Bool-cases, inl, inr,
  Option, none, some, List, [], ◌∷◌, ◌++◌, length, length-append, drop, take-append, get_elem?, ltb,
  arith,
}
use optronic.Common.Text.{Text, codes, same}
use optronic.Core.Expected.{Status}
use optronic.Detect.Load.{
  Format, darknet, YoloConfig, format_of, rfind_from, rfind, complete, derive_pair, is_default_size,
  Loaded, read_model, darknet_size, resolve, NetAnswer, throws, empty, ready, read_from_darknet,
  load,
}

drop-append : (xs ys : Text) → drop (length xs) (xs ++ ys) ≡ ys
drop-append [] ys = refl
drop-append (x ∷ xs) ys = drop-append xs ys

get_elem?-drop : (k i : ℕ) (xs : Text) → get_elem? (drop k xs) i ≡ get_elem? xs (k + i)
get_elem?-drop zero i xs = ap (get_elem? xs) (omega arith)
get_elem?-drop (suc k) i [] = refl
get_elem?-drop (suc k) i (x ∷ xs) =
    let e : suc k + i ≡ suc (k + i) = omega arith in
    get_elem?-drop k i xs ∙ ap (get_elem? (x ∷ xs)) (sym e)

get_elem?-past : (xs ys : Text) (i : ℕ) → get_elem? (xs ++ ys) (length xs + i) ≡ get_elem? ys i
get_elem?-past [] ys i = ap (get_elem? ys) (omega arith)
get_elem?-past (x ∷ xs) ys i =
    let e : length (x ∷ xs) + i ≡ suc (length xs + i) = omega arith in
    ap (get_elem? (x ∷ xs ++ ys)) e ∙ get_elem?-past xs ys i

same-eq : (xs ys : Text) → same xs ys ≡ true → xs ≡ ys
unfolding same
same-eq [] [] h = refl
same-eq [] (y ∷ ys) h = absurd (ground (arith, h))
same-eq (x ∷ xs) [] h = absurd (ground (arith, h))
same-eq (x ∷ xs) (y ∷ ys) h =
    let first : x ≡ y = ground (arith, h) in
    let rest : same xs ys ≡ true = ground (arith, h) in
    ap₂ (λ (c : ℕ) (cs : Text). c ∷ cs) first (same-eq xs ys rest)

-- The last dot is the one found.
rfind_from-past :
    (c : ℕ) (xs ys : Text) (i j : ℕ)
    → rfind_from c ys (i + length xs) ≡ some j
    → rfind_from c (xs ++ ys) i ≡ some j
unfolding rfind_from
rfind_from-past c [] ys i j h = ap (rfind_from c ys) (omega arith) ∙ h
rfind_from-past c (x ∷ xs) ys i j h =
    let e : i + length (x ∷ xs) ≡ i + 1 + length xs = omega arith in
    rw (rfind_from-past c xs ys (i + 1) j (ap (rfind_from c ys) (sym e) ∙ h)) refl

cfg_dot : (k : ℕ) → rfind_from b'.' (codes ".cfg") k ≡ some k
unfolding rfind_from
cfg_dot k = refl

weights_dot : (k : ℕ) → rfind_from b'.' (codes ".weights") k ≡ some k
unfolding rfind_from
weights_dot k = refl

rfind-dot :
    (stem ext : Text)
    → ((k : ℕ) → rfind_from b'.' ext k ≡ some k)
    → rfind b'.' (stem ++ ext) ≡ some (length stem)
rfind-dot stem ext h =
    rfind_from-past b'.' stem ext 0 (length stem) (h (0 + length stem) ∙ ap some (omega arith))

some_inj : {a b : ℕ} → some a ≡ some b → a ≡ b
some_inj {a} e = ap (λ (o : Option ℕ). elim o [ none ↦ a | some n ↦ n ]) e

-- A name that does not end in an x is not one of an ONNX export.
format_of-other :
    (stem ext : Text) (n c : ℕ)
    → length ext ≡ suc n
    → get_elem? ext n ≡ some c
    → c ≢ b'x'
    → format_of (stem ++ ext) ≡ darknet
unfolding format_of
format_of-other stem ext n c l e other =
    elim (Bool-cases (
      ltb 5 (length (stem ++ ext))
      && same (drop (length (stem ++ ext) - 5) (stem ++ ext)) (codes ".onnx"))) [
        | inl t ↦
            let path = stem ++ ext in
            let k = length path - 5 in
            let long : 5 < length path = ground (arith, t) in
            let tail : drop k path ≡ codes ".onnx" =
              same-eq (drop k path) (codes ".onnx") (ground (arith, t)) in
            let x_there : get_elem? path (k + 4) ≡ some b'x' =
              sym (get_elem?-drop k 4 path) ∙ ap (λ (xs : Text). get_elem? xs 4) tail in
            let at : k + 4 ≡ length stem + n = omega (arith, long, length-append stem ext, l) in
            let c_there : get_elem? path (k + 4) ≡ some c =
              ap (get_elem? path) at ∙ get_elem?-past stem ext n ∙ e in
            absurd (other (some_inj (sym c_there ∙ x_there)))
        | inr f ↦ rw f refl
      ]

derive-cfg :
    (cfg : YoloConfig) (stem : Text)
    → derive_pair (record cfg { weights = stem ++ codes ".cfg" })
      ≡ record cfg { weights = stem ++ codes ".weights"; config = stem ++ codes ".cfg" }
unfolding complete same
derive-cfg cfg stem =
    ap (complete (record cfg { weights = stem ++ codes ".cfg" }))
      (rfind-dot stem (codes ".cfg") cfg_dot)
    ∙ rw (drop-append stem (codes ".cfg"), take-append (length stem) stem (codes ".cfg") refl) refl

derive-weights :
    (cfg : YoloConfig) (stem : Text)
    → derive_pair (record cfg { weights = stem ++ codes ".weights" })
      ≡ record cfg { weights = stem ++ codes ".weights"; config = stem ++ codes ".cfg" }
unfolding complete same
derive-weights cfg stem =
    ap (complete (record cfg { weights = stem ++ codes ".weights" }))
      (rfind-dot stem (codes ".weights") weights_dot)
    ∙ rw
        (
          drop-append stem (codes ".weights"),
          take-append (length stem) stem (codes ".weights") refl,
        )
        refl

-- What `load` comes to with either name.
abbrev paired : YoloConfig → Text → YoloConfig
paired cfg stem = record cfg { weights = stem ++ codes ".weights"; config = stem ++ codes ".cfg" }

load-named :
    (cfg : YoloConfig) (stem ext : Text) (lines : Option (List Text)) (answer : NetAnswer)
    → format_of (stem ++ ext) ≡ darknet
    → derive_pair (record cfg { weights = stem ++ ext }) ≡ paired cfg stem
    → load (record cfg { weights = stem ++ ext }) lines answer
      ≡ read_model darknet (darknet_size (paired cfg stem)) lines answer
unfolding load
load-named cfg stem ext lines answer f d =
    ap
      (λ (k : Format). read_model k (resolve k (record cfg { weights = stem ++ ext })) lines answer)
      f
    ∙ ap (λ (c : YoloConfig). read_model darknet (darknet_size c) lines answer) d

first_call :
    (cfg : YoloConfig) (lines : List Text) (answer : NetAnswer)
    → get_elem? (read_model darknet cfg (some lines) answer).1.calls 0
      ≡ some (read_from_darknet cfg.config cfg.weights)
unfolding read_model
first_call cfg lines throws = refl
first_call cfg lines empty = refl
first_call cfg lines ready = refl

sized_files :
    (cfg : YoloConfig)
    → read_from_darknet (darknet_size cfg).config (darknet_size cfg).weights
      ≡ read_from_darknet cfg.config cfg.weights
sized_files cfg = elim (Bool-cases (is_default_size cfg.input_size)) [
  | inl t ↦ rw t refl
  | inr f ↦ rw f refl
]

-- For every configuration and every stem of a name: `load` with the weights named stem.cfg and with
-- the weights named stem.weights come to the same, whether or not the file of names opens and
-- whatever OpenCV answers, and where it opens, the first thing asked of OpenCV is to read stem.cfg
-- with stem.weights.
pub load-pair :
    (cfg : YoloConfig) (stem : Text) (lines : List Text) (answer : NetAnswer)
    → (load (record cfg { weights = stem ++ codes ".cfg" }) (some lines) answer
        ≡ load (record cfg { weights = stem ++ codes ".weights" }) (some lines) answer)
      × (load (record cfg { weights = stem ++ codes ".cfg" }) none answer
          ≡ load (record cfg { weights = stem ++ codes ".weights" }) none answer)
      × (get_elem?
            (load (record cfg { weights = stem ++ codes ".cfg" }) (some lines) answer).1.calls
            0
          ≡ some (read_from_darknet (stem ++ codes ".cfg") (stem ++ codes ".weights")))
load-pair cfg stem lines answer =
    let by_cfg = λ (o : Option (List Text)).
      load-named cfg stem (codes ".cfg") o answer
        (format_of-other stem (codes ".cfg") 3 b'g' refl refl (λ e. absurd (omega (arith, e))))
        (derive-cfg cfg stem) in
    let by_weights = λ (o : Option (List Text)).
      load-named cfg stem (codes ".weights") o answer
        (format_of-other stem (codes ".weights") 7 b's' refl refl (λ e. absurd (omega (arith, e))))
        (derive-weights cfg stem) in
    let final = darknet_size (paired cfg stem) in
    (
      by_cfg (some lines) ∙ sym (by_weights (some lines)),
      by_cfg none ∙ sym (by_weights none),
      ap (λ (r : Status × Loaded). get_elem? r.1.calls 0) (by_cfg (some lines))
          ∙ first_call final lines answer
          ∙ ap some (sized_files (paired cfg stem)),
    )
