-- ===== src/Detect/Stage/Reference.antt =====
-- What `detect` keeps of the rows of an ONNX export: an independent description, by filter and map.
use optronic.Common.{
  ℕ, zero, suc, ◌<◌, ◌≡◌, refl, sym, ap, ◌∙◌, Bool, not, ◌&&◌, Bool-cases, Option-cases, inl, inr,
  Option, none, some, List, [], ◌∷◌, ◌++◌, map, append_assoc, append-nil, length, get_elem?,
  if◌then◌else◌, arith,
}
use optronic.Common.Int.{ℤ}
use optronic.Common.Text.{Text}
use optronic.Detect.Load.{YoloConfig}
use optronic.Detect.Stage.{
  Box, Floats, Row, Found, nothing_found, push_back, chain, decode_row, decode_v5, pick, detection,
  assemble, Stage, by_rows, keep_found, assembled, detect,
}

pub record Candidate : Type 0 where
  pub id : ℤ
  pub score : ℕ
  pub box : Box

abbrev pub ids_of : List Candidate → List ℤ
ids_of cs = map (λ (c : Candidate). c.id) cs

abbrev pub scores_of : List Candidate → List ℕ
scores_of cs = map (λ (c : Candidate). c.score) cs

abbrev pub boxes_of : List Candidate → List Box
boxes_of cs = map (λ (c : Candidate). c.box) cs

-- The entries of a list at given places, if all are there.
unfoldable pub chosen : List Candidate → List ℕ → Option (List Candidate)
chosen cs [] = some []
chosen cs (k ∷ keep) =
    chain (get_elem? cs k) (λ c. chain (chosen cs keep) (λ rest. some (c ∷ rest)))

abbrev pub AllBelow : ℕ → List ℕ → Type 0
AllBelow n [] = Unit
AllBelow n (k ∷ keep) = (k < n) × AllBelow n keep

module _ (float : Floats) (cfg : YoloConfig) where
  abbrev pub confidence : Row → ℕ
  confidence p = float.times (float.best_of p.scores).0 p.objectness

  -- Neither of the two tests rejects the row.
  abbrev pub is_kept : Row → Bool
  is_kept p =
      not (float.below p.objectness cfg.confidence_threshold)
      && not (float.below (confidence p) cfg.confidence_threshold)

  -- A span in network coordinates, back in those of the image, from its middle and its size.
  abbrev pub lower_end : ℤ → ℕ → ℕ → ℤ
  lower_end size middle extent =
      let s = float.over (float.of_int size) (float.of_int cfg.input_size) in
      float.to_int
        (float.minus (float.times middle s) (float.over (float.times extent s) float.two))

  abbrev pub scaled : ℤ → ℕ → ℤ
  scaled size extent =
      float.to_int
        (float.times extent (float.over (float.of_int size) (float.of_int cfg.input_size)))

  abbrev pub candidate : ℤ → ℤ → Row → Candidate
  candidate w h p = record {
    id = (float.best_of p.scores).1;
    score = confidence p;
    box = record {
      x = lower_end w p.p0 p.p2;
      y = lower_end h p.p1 p.p3;
      w = scaled w p.p2;
      h = scaled h p.p3;
    };
  }

  unfoldable pub candidates : ℤ → ℤ → List Row → List Candidate
  candidates w h [] = []
  candidates w h (p ∷ rows) =
      let rest = candidates w h rows in if is_kept p then candidate w h p ∷ rest else rest

abbrev appended : Found → List Candidate → Found
appended f cs = record {
  ids = f.ids ++ ids_of cs;
  scores = f.scores ++ scores_of cs;
  boxes = f.boxes ++ boxes_of cs;
}

Found-ext :
    {a b : List ℕ} {i j : List ℤ} {x y : List Box}
    → i ≡ j
    → a ≡ b
    → x ≡ y
    → (let f : Found = record { ids = i; scores = a; boxes = x } in f)
      ≡ (let f : Found = record { ids = j; scores = b; boxes = y } in f)
Found-ext p q r = rw (p, q, r) refl

appended-push :
    (f : Found) (c : Candidate) (cs : List Candidate)
    → appended (push_back f c.id c.score c.box) cs ≡ appended f (c ∷ cs)
appended-push f c cs =
    Found-ext (append_assoc f.ids (c.id ∷ []) (ids_of cs))
      (append_assoc f.scores (c.score ∷ []) (scores_of cs))
      (append_assoc f.boxes (c.box ∷ []) (boxes_of cs))

module _ (float : Floats) (cfg : YoloConfig) (w h : ℤ) where
  decode_row-candidate :
      (p : Row) (f : Found)
      → decode_row float cfg w h p f ≡ (
          if is_kept float cfg p
          then (let c = candidate float cfg w h p in push_back f c.id c.score c.box)
          else f)
  decode_row-candidate p f = elim (Bool-cases (float.below p.objectness cfg.confidence_threshold)) [
    | inl t ↦ rw t refl
    | inr o ↦
        rw o (elim (Bool-cases (float.below (confidence float cfg p) cfg.confidence_threshold)) [
          | inl t ↦ rw t refl
          | inr c ↦ rw c refl
        ])
  ]

  decode_v5-candidates :
      (rows : List Row) (f : Found)
      → decode_v5 float cfg w h rows f ≡ appended f (candidates float cfg w h rows)
  unfolding decode_v5 candidates
  decode_v5-candidates [] f =
      Found-ext (sym (append-nil f.ids)) (sym (append-nil f.scores)) (sym (append-nil f.boxes))
  decode_v5-candidates (p ∷ rows) f = elim (Bool-cases (is_kept float cfg p)) [
    | inl t ↦
        let c = candidate float cfg w h p in
        decode_v5-candidates rows (decode_row float cfg w h p f)
        ∙ ap (λ (g : Found). appended g (candidates float cfg w h rows)) (decode_row-candidate p f)
        ∙ rw t (appended-push f c (candidates float cfg w h rows))
    | inr n ↦
        decode_v5-candidates rows (decode_row float cfg w h p f)
        ∙ ap (λ (g : Found). appended g (candidates float cfg w h rows)) (decode_row-candidate p f)
        ∙ rw n refl
  ]

abbrev through {ℓ} : {A : Type ℓ} → (Candidate → A) → Option Candidate → Option A
through g none = none
through g (some c) = some (g c)

get_elem?-map {ℓ} :
    {A : Type ℓ}
    → (g : Candidate → A) (cs : List Candidate) (k : ℕ)
    → get_elem? (map g cs) k ≡ through g (get_elem? cs k)
get_elem?-map g [] k = refl
get_elem?-map g (c ∷ cs) zero = refl
get_elem?-map g (c ∷ cs) (suc k) = get_elem?-map g cs k

abbrev option_appended : Found → Option (List Candidate) → Option Found
option_appended f none = none
option_appended f (some cs) = some (appended f cs)

pick-chosen :
    (cs : List Candidate) (keep : List ℕ) (f : Found)
    → pick keep (appended nothing_found cs) f ≡ option_appended f (chosen cs keep)
unfolding pick chosen
pick-chosen cs [] f =
    ap some
      (Found-ext (sym (append-nil f.ids)) (sym (append-nil f.scores)) (sym (append-nil f.boxes)))
pick-chosen cs (k ∷ keep) f =
    let e1 = get_elem?-map (λ (c : Candidate). c.id) cs k in
    let e2 = get_elem?-map (λ (c : Candidate). c.score) cs k in
    let e3 = get_elem?-map (λ (c : Candidate). c.box) cs k in
    elim (Option-cases (get_elem? cs k)) [
      | inl missing ↦ rw (e1, missing) refl
      | inr (c, there) ↦
          let rest = pick-chosen cs keep (push_back f c.id c.score c.box) in
          rw (e1, e2, e3, there, rest)
            (elim (Option-cases (chosen cs keep)) [
              | inl short ↦ rw short refl
              | inr (ks, all) ↦ rw all (ap some (appended-push f c ks))
            ])
    ]

assemble-map :
    (classes : List Text) (cs : List Candidate)
    → assemble classes (ids_of cs) (scores_of cs) (boxes_of cs)
      ≡ some (map (λ (c : Candidate). detection classes c.id c.score c.box) cs)
unfolding assemble
assemble-map classes [] = refl
assemble-map classes (c ∷ cs) = rw (assemble-map classes cs) refl

get_elem?-below :
    (cs : List Candidate) (k : ℕ) → k < length cs → (c : Candidate) × (get_elem? cs k ≡ some c)
get_elem?-below [] k l = absurd (omega arith)
get_elem?-below (c ∷ cs) zero l = (c, refl)
get_elem?-below (c ∷ cs) (suc k) l = get_elem?-below cs k (omega arith)

all_chosen :
    (cs : List Candidate) (keep : List ℕ)
    → AllBelow (length cs) keep
    → (ks : List Candidate) × (chosen cs keep ≡ some ks)
unfolding chosen
all_chosen cs [] h = ([], refl)
all_chosen cs (k ∷ keep) (l, h) =
    let (c, e) = get_elem?-below cs k l in
    let (ks, es) = all_chosen cs keep h in (c ∷ ks, rw (e, es) refl)

-- For every stage, image size, output of the network and suppression that answers with places of
-- the list it was given: `detect` on an ONNX export is defined, and what it leaves in `last_` are the
-- candidates at those places, with their labels, where the candidates are the rows that pass both
-- threshold tests, each with its class, its score and its box in image coordinates.
pub detect-candidates :
    (float : Floats) (w h : ℤ) (rows : List Row) (nms : List Box → List ℕ → List ℕ) (dt : ℤ)
    (st : Stage)
    → (let cs = candidates float st.cfg w h rows in
        AllBelow (length cs) (nms (boxes_of cs) (scores_of cs)))
    → (ks : List Candidate) × (let cs = candidates float st.cfg w h rows in
        chosen cs (nms (boxes_of cs) (scores_of cs)) ≡ some ks)
      × (detect float w h (by_rows rows nms) dt st
          ≡ some (record st {
            last = map (λ (c : Candidate). detection st.classes c.id c.score c.box) ks;
            inference_us = dt;
          }))
unfolding detect
detect-candidates float w h rows nms dt st valid =
    let cs = candidates float st.cfg w h rows in
    let keep = nms (boxes_of cs) (scores_of cs) in
    let (ks, e) = all_chosen cs keep valid in
    (
      ks,
      e,
      ap (λ (raw : Found). assembled st dt (pick (nms raw.boxes raw.scores) raw nothing_found))
            (decode_v5-candidates float st.cfg w h rows nothing_found)
          ∙ ap (assembled st dt)
              (pick-chosen cs keep nothing_found ∙ ap (option_appended nothing_found) e)
          ∙ ap (keep_found st dt) (assemble-map st.classes ks),
    )
