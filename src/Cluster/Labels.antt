-- ===== src/Cluster/Labels.antt =====
-- pkg/util/istio/istio.go: the labels that a metric is asked for.
use maistra_test_tool.Cluster.{Metric, label_matches, label_value, matches_labels}
use maistra_test_tool.Prelude.{
  ℕ, ◌≡◌, refl, ◌↔◌, Bool, true, false, some, List, [], ◌∷◌, ◌++◌, map, All, arith, Bool-cases, ◌⊎◌,
  ◌≢◌, sym, inl, inr, ap, ◌∙◌, if◌then◌else◌, Bool-cases,
}
use maistra_test_tool.Text.{Text, teq, teq_iff, teq_refl, cut}
use maistra_test_tool.Text.Parts.{Lacks}

cut-append : (sep : ℕ) (p s : Text) → Lacks sep p → cut sep (p ++ sep ∷ s) ≡ (p, s ∷ [])
unfolding cut
cut-append sep [] s h = ground arith
cut-append sep (c ∷ p) s h = rw (cut-append sep p s h.1) (ground (arith, h.0))

matches_labels-cons :
    (metric : Metric) (name value : Text) (labels : List Text)
    → Lacks b'=' name
    → matches_labels metric ((name ++ b'=' ∷ value) ∷ labels) ≡ (
        if teq (label_value [] metric.labels name) value
        then matches_labels metric labels
        else some false)
unfolding matches_labels label_matches
matches_labels-cons metric name value labels h =
    ap (λ p. label_matches metric p (matches_labels metric labels)) (cut-append b'=' name value h)

-- `name=value`
abbrev pub label_text : Text × Text → Text
label_text (name, value) = name ++ b'=' ∷ value

abbrev Unnamed : Text → List (Text × Text) → Type 0
Unnamed name = All (λ l. l.0 ≢ name)

-- The value is that of the last label with the name, or there is none with the name and the value is empty.
abbrev pub Last : List (Text × Text) → Text → Text → Type 0
Last labels name value =
    ((before : List (Text × Text)) × (after : List (Text × Text)) × (labels
        ≡ before ++ (name, value) ∷ after)
      × Unnamed name after)
    ⊎ (Unnamed name labels × (value ≡ []))

-- Each label has its value in the metric.
abbrev pub HasAll : Metric → List (Text × Text) → Type 0
HasAll metric [] = Unit
HasAll metric ((name, value) ∷ rest) = Last metric.labels name value × HasAll metric rest

other_name : {k name : Text} → k ≢ name → teq k name ≡ false
other_name {k} {name} ne = elim (Bool-cases (teq k name)) [
  | inl same ↦ absurd (ne ((teq_iff k name).0 same))
  | inr other ↦ other
]

absent_value :
    (found : Text) (labels : List (Text × Text)) (name : Text)
    → Unnamed name labels
    → label_value found labels name ≡ found
unfolding label_value
absent_value found [] name h = refl
absent_value found ((k, v) ∷ labels) name h =
    rw (other_name h.0) (absent_value found labels name h.1)

last_value :
    (before : List (Text × Text)) (found name value : Text) (after : List (Text × Text))
    → Unnamed name after
    → label_value found (before ++ (name, value) ∷ after) name ≡ value
unfolding label_value
last_value [] found name value after h =
    ap (λ b. label_value (if b then value else found) after name) (teq_refl name)
    ∙ absent_value value after name h
last_value ((k, v) ∷ before) found name value after h =
    last_value before (if teq k name then v else found) name value after h

Found : Text → List (Text × Text) → Text → Text → Type 0
Found found labels name value =
    ((before : List (Text × Text)) × (after : List (Text × Text)) × (labels
        ≡ before ++ (name, value) ∷ after)
      × Unnamed name after)
    ⊎ (Unnamed name labels × (value ≡ found))

step_Found :
    (found k v : Text) (labels : List (Text × Text)) (name value : Text)
    → Found (if teq k name then v else found) labels name value
    → Found found ((k, v) ∷ labels) name value
unfolding Found
step_Found found k v labels name value (inl (before, after, e, h)) =
    inl ((k, v) ∷ before, after, ap (λ x. (k, v) ∷ x) e, h)
step_Found found k v labels name value (inr (h, e)) = elim (Bool-cases (teq k name)) [
  | inl same ↦
      let named = (teq_iff k name).0 same in
      let valued : value ≡ v = e ∙ rw same refl in
      inl ([], labels, (λ i. (named i, sym valued i) ∷ labels), h)
  | inr other ↦ inr (
    ((λ same. let yes = (teq_iff k name).1 same in ground (arith, yes, other)), h),
    e ∙ rw other refl,
  )
]

value-Found :
    (found : Text) (labels : List (Text × Text)) (name : Text)
    → Found found labels name (label_value found labels name)
unfolding label_value Found
value-Found found [] name = inr (tt, refl)
value-Found found ((k, v) ∷ labels) name =
    step_Found found k v labels name _ (value-Found (if teq k name then v else found) labels name)

label_value-Last :
    (labels : List (Text × Text)) (name value : Text)
    → (label_value [] labels name ≡ value) ↔ Last labels name value
unfolding Found
label_value-Last labels name value = (
  (λ e. rw (← e) (value-Found [] labels name)),
  λ last. elim last [
    | inl (before, after, e, h) ↦
        ap (λ x. label_value [] x name) e ∙ last_value before [] name value after h
    | inr (h, e) ↦ absent_value [] labels name h ∙ sym e
  ],
)

-- For labels whose names have no `=`: `matchesLabels` returns, and says yes exactly if for each label the last label of
-- the metric with its name has its value, or the metric has none with the name and the value is empty.
pub matches_labels-HasAll :
    (metric : Metric) (labels : List (Text × Text))
    → All (λ l. Lacks b'=' l.0) labels
    → (b : Bool) × (matches_labels metric (map label_text labels) ≡ some b)
      × ((b ≡ true) ↔ HasAll metric labels)
unfolding matches_labels
matches_labels-HasAll metric [] h = (true, refl, ((λ e. tt), λ u. refl))
matches_labels-HasAll metric ((name, value) ∷ labels) h =
    let (b, e, iff) = matches_labels-HasAll metric labels h.1 in
    let step = matches_labels-cons metric name value (map label_text labels) h.0 in
    let same = teq_iff (label_value [] metric.labels name) value in
    let last = label_value-Last metric.labels name value in
    elim (Bool-cases (teq (label_value [] metric.labels name) value)) [
      | inl found ↦
          (b, step ∙ rw found e, ((λ r. (last.0 (same.0 found), iff.0 r)), λ r. iff.1 r.1))
      | inr other ↦ (
        false,
        step ∙ rw other refl,
        (
          (λ r. ground (arith, r)),
          λ r. let back = same.1 (last.1 r.0) in ground (arith, back, other),
        ),
      )
    ]
