-- ===== src/Benchmark/Mapping/Values.antt =====
-- The values of a label column, and their default decisions.
use pact_web.Prelude.{
  ◌≤◌, ◌≡◌, refl, ap, some, false, if◌then◌else◌, true, if-cases, Bool-cases, inl, inr, ltb, List,
  [], ◌∷◌, length, all, All, String, ◌==◌, eq_iff, arith,
}
use pact_web.Prelude.Json.{Json, Fields, get}
use pact_web.Prelude.Result.{Result, ok, err, Each, Each-imp}
use pact_web.Benchmark.Corpus.{is_in, added}
use pact_web.Benchmark.Corpus.Columns.{added-keeps, added-holds}
use pact_web.Benchmark.Mapping.{
  DistinctLabelValues, defaults_of, stringify_label_value, distinct_from,
  compute_distinct_label_values, max_distinct_label_values,
}
use pact_web.Benchmark.Mapping.Vocabulary.{
  LabelDecision, own_decision, default_decisions_of, decision_of, match_label_vocabulary,
}

-- What a value of the file finds among the defaults: the decision of the vocabulary, but for
-- `__proto__`, which leads to the prototype of the object.
abbrev pub default_of : String → LabelDecision
default_of value =
    if value == "__proto__" then LabelDecision.inherited else match_label_vocabulary value

own_decision-default_decisions_of :
    (values : List String) (value : String)
    → is_in value values ≡ true
    → (value == "__proto__") ≡ false
    → own_decision (default_decisions_of values) value ≡ some (match_label_vocabulary value)
unfolding own_decision default_decisions_of
own_decision-default_decisions_of [] value h own = cc
own_decision-default_decisions_of (v ∷ values) value h own = elim (Bool-cases (v == "__proto__")) [
  | inl proto ↦ rw proto (
      own_decision-default_decisions_of values value
        (ground (arith, eq_iff v value, eq_iff v "__proto__", eq_iff value "__proto__")) own)
  | inr plain ↦ elim (Bool-cases (v == value)) [
    | inl e ↦ rw plain (rw e (ap (λ q. some (match_label_vocabulary q)) ((eq_iff v value).0 e)))
    | inr e ↦ rw plain (rw e (own_decision-default_decisions_of values value (ground arith) own))
  ]
]

decision_of-default_decisions_of :
    (values : List String) (value : String)
    → is_in value values ≡ true
    → decision_of (default_decisions_of values) value ≡ default_of value
unfolding decision_of
decision_of-default_decisions_of values value h = elim (Bool-cases (value == "__proto__")) [
  | inl proto ↦ rw proto refl
  | inr own ↦ rw own (rw (own_decision-default_decisions_of values value h own) refl)
]

module _ (to_string : Json → String) (label : String) where
  -- The rows whose label value is among the values.
  abbrev AreSeen : List String → List Fields → Type 0
  AreSeen values rows =
      all (λ row. is_in (stringify_label_value to_string (get label row)) values) rows ≡ true

  -- The values of some rows, behind earlier ones.
  abbrev IsCollected : List String → List Fields → List String → Type 0
  IsCollected earlier rows values =
      (length values ≤ 20)
      × ((v : String) → is_in v earlier ≡ true → is_in v values ≡ true)
      × AreSeen values rows

  distinct_from-IsCollected :
      (rows : List Fields) (earlier : List String)
      → length earlier ≤ 20
      → Each (λ e. Unit {0}) (IsCollected earlier rows) (distinct_from to_string label rows earlier)
  unfolding distinct_from
  distinct_from-IsCollected [] earlier h = (h, (λ v e. e), refl)
  distinct_from-IsCollected (row ∷ rows) earlier h =
      let value = stringify_label_value to_string (get label row) in
      let more = added value earlier in
      if-cases (Each (λ e. Unit {0}) (IsCollected earlier (row ∷ rows)))
        (ltb max_distinct_label_values (length more)) _ (distinct_from to_string label rows more)
        (λ long. tt)
        λ short.
          Each-imp (λ e. Unit {0}) (IsCollected more rows) (IsCollected earlier (row ∷ rows))
            (distinct_from to_string label rows more)
            (distinct_from-IsCollected rows more (ground (arith, short)))
            λ values (few, keeps, seen). (
              few,
              (λ v e. keeps v (added-keeps value earlier v e)),
              ground (arith, keeps value (added-holds value earlier), seen),
            )

  -- At most twenty values, among which the label value of each row stands, and finds its default.
  abbrev pub AreDefaults : List Fields → DistinctLabelValues → Type 0
  AreDefaults rows labels =
      (length labels.values ≤ 20)
      × All
          (λ row.
            (is_in (stringify_label_value to_string (get label row)) labels.values ≡ true)
            × (decision_of labels.default_decisions
                  (stringify_label_value to_string (get label row))
                ≡ default_of (stringify_label_value to_string (get label row))))
          rows

  seen-All :
      (values : List String) (rows : List Fields)
      → AreSeen values rows
      → All
          (λ row.
            (is_in (stringify_label_value to_string (get label row)) values ≡ true)
            × (decision_of
                  (default_decisions_of values)
                  (stringify_label_value to_string (get label row))
                ≡ default_of (stringify_label_value to_string (get label row))))
          rows
  seen-All values [] h = tt
  seen-All values (row ∷ rows) h =
      let here : is_in (stringify_label_value to_string (get label row)) values ≡ true =
        ground arith in
      ((here, decision_of-default_decisions_of values _ here), seen-All values rows (ground arith))

  defaults_of-AreDefaults :
      (rows : List Fields) (r : Result String (List String))
      → Each (λ e. Unit {0}) (IsCollected [] rows) r
      → Each (λ e. Unit {0}) (AreDefaults rows) (defaults_of r)
  defaults_of-AreDefaults rows (err e) h = tt
  defaults_of-AreDefaults rows (ok values) (few, keeps, seen) = (few, seen-All values rows seen)

  -- Where the values of a label column are accepted, they are at most twenty, and the value of each
  -- row of the file is among them and finds the decision of the vocabulary, unless it is
  -- `__proto__`, which finds the prototype of the object instead of a decision.
  pub compute_distinct_label_values-AreDefaults :
      (rows : List Fields)
      → Each (λ e. Unit {0}) (AreDefaults rows) (compute_distinct_label_values to_string rows label)
  unfolding compute_distinct_label_values
  compute_distinct_label_values-AreDefaults rows =
      defaults_of-AreDefaults rows (distinct_from to_string label rows [])
        (distinct_from-IsCollected rows [] (omega arith))
