-- ===== src/TestLab/Parse/Contract.antt =====
-- The contract of a /v1/check body as predicates, and that each assertion decides its own.
use pact_web.Prelude.{
  ℕ, suc, ◌≡◌, ◌↔◌, ◌⊎◌, true, Option, none, some, List, [], ◌∷◌, String, includes, eq_iff, arith,
}
use pact_web.Prelude.Text.{◌<>◌, show}
use pact_web.Prelude.Json.{Json, Items, nil, cons, Fields, obj, arr, str, num, get}
use pact_web.Prelude.Result.{ok, err, ◌>>=◌, ◌>>◌}
use pact_web.TestLab.Parse.{
  Check, decisions, filter_verdicts, redactor_verdicts, external_ref_verdicts, spotlight_formats,
  spotlight_trust, assert_enum_field, optional_enum, assert_record_field, get_opt, check_item,
  check_items, optional_items, assert_number, assert_string,
}

-- The text is a member of the closed set.
abbrev Listed : String → List String → Type 0
Listed s [] = ⊥
Listed s (v ∷ vs) = (v ≡ s) ⊎ Listed s vs

abbrev pub OneOf : List String → Option Json → Type 0
OneOf values (some (str s)) = Listed s values
OneOf values _ = ⊥

-- Absent, or a member.
abbrev pub AbsentOr : List String → Option Json → Type 0
AbsentOr values none = Unit
AbsentOr values (some v) = OneOf values (some v)

-- Absent, or an object; the rest of the contract is about that object.
abbrev pub RecordWith : (Option Fields → Type 0) → Option Json → Type 0
RecordWith P none = P none
RecordWith P (some (obj fs)) = P (some fs)
RecordWith P (some _) = ⊥

abbrev Item : Option (String × List String) → Json → Type 0
Item none (obj fs) = Unit
Item (some (key, values)) (obj fs) = AbsentOr values (get key fs)
Item rule _ = ⊥

abbrev AllItems : Option (String × List String) → Items → Type 0
AllItems rule nil = Unit
AllItems rule (cons v vs) = Item rule v × AllItems rule vs

abbrev pub ArrayOf : Option (String × List String) → Option Json → Type 0
ArrayOf rule none = Unit
ArrayOf rule (some (arr vs)) = AllItems rule vs
ArrayOf rule (some _) = ⊥

abbrev pub IsNumber : Option Json → Type 0
IsNumber (some (num n)) = Unit
IsNumber _ = ⊥

abbrev pub IsString : Option Json → Type 0
IsString (some (str s)) = Unit
IsString _ = ⊥

abbrev pub IsSpotlight : Option Fields → Type 0
IsSpotlight o =
    AbsentOr spotlight_formats (get_opt "format" o)
    × ArrayOf (some ("trust", spotlight_trust)) (get_opt "chunks" o)

-- What the gateway promises of a response body.
pub record IsWellFormed (raw : Fields) : Type 0 where
  pub decision : OneOf decisions (get "decision" raw)
  pub latency_ms : IsNumber (get "latency_ms" raw)
  pub request_id : IsString (get "request_id" raw)
  pub filter : RecordWith (λ o. AbsentOr filter_verdicts (get_opt "verdict" o)) (get "filter" raw)
  pub redactor :
      RecordWith (λ o. AbsentOr redactor_verdicts (get_opt "verdict" o)) (get "redactor" raw)
  pub consensus : RecordWith (λ _. Unit) (get "consensus" raw)
  pub external_refs :
      RecordWith
        (λ o. ArrayOf (some ("verdict", external_ref_verdicts)) (get_opt "refs" o))
        (get "external_refs" raw)
  pub spotlight : RecordWith IsSpotlight (get "spotlight" raw)
  pub diagnostics :
      RecordWith (λ o. ArrayOf none (get_opt "causal_spans" o)) (get "diagnostics" raw)

includes_iff : (values : List String) (s : String) → (includes values s ≡ true) ↔ Listed s values
includes_iff [] s = ground arith
includes_iff (v ∷ vs) s = ground (arith, eq_iff v s, includes_iff vs s)

pub assert_enum_field_iff :
    (values : List String) (o : Option Json) (name : String)
    → (assert_enum_field values o name ≡ ok tt) ↔ OneOf values o
unfolding assert_enum_field
assert_enum_field_iff values (some (str s)) name = ground (arith, includes_iff values s)
assert_enum_field_iff values _ name = ground arith

pub optional_enum_iff :
    (values : List String) (o : Option Json) (name : String)
    → (optional_enum values o name ≡ ok tt) ↔ AbsentOr values o
unfolding optional_enum
optional_enum_iff values none name = ground arith
optional_enum_iff values (some v) name = assert_enum_field_iff values (some v) name

check_item_iff :
    (rule : Option (String × List String)) (v : Json) (at : String)
    → (check_item rule v at ≡ ok tt) ↔ Item rule v
unfolding check_item
check_item_iff none (obj fs) at = ground arith
check_item_iff (some (key, values)) (obj fs) at =
    optional_enum_iff values (get key fs) (at <> "." <> key)
check_item_iff _ _ at = ground arith

pub >>-eq-ok : (m k : Check) → ((m >> k) ≡ ok tt) ↔ ((m ≡ ok tt) × (k ≡ ok tt))
>>-eq-ok (ok tt) k = ground arith
>>-eq-ok (err e) k = ground arith

check_items_iff :
    (rule : Option (String × List String)) (vs : Items) (name : String) (i : ℕ)
    → (check_items rule vs name i ≡ ok tt) ↔ AllItems rule vs
unfolding check_items
check_items_iff rule nil name i = ground arith
check_items_iff rule (cons v vs) name i =
    let at = name <> "[" <> show i <> "]" in
    ground (
      arith,
      >>-eq-ok (check_item rule v at) (check_items rule vs name (suc i)),
      check_item_iff rule v at,
      check_items_iff rule vs name (suc i),
    )

pub optional_items_iff :
    (rule : Option (String × List String)) (o : Option Json) (name : String)
    → (optional_items rule o name ≡ ok tt) ↔ ArrayOf rule o
unfolding optional_items
optional_items_iff rule (some (arr vs)) name = check_items_iff rule vs name 0
optional_items_iff rule _ name = ground arith

pub assert_number_iff :
    (o : Option Json) (name : String) → (assert_number o name ≡ ok tt) ↔ IsNumber o
unfolding assert_number
assert_number_iff (some (num n)) name = ground arith
assert_number_iff _ name = ground arith

pub assert_string_iff :
    (o : Option Json) (name : String) → (assert_string o name ≡ ok tt) ↔ IsString o
unfolding assert_string
assert_string_iff (some (str s)) name = ground arith
assert_string_iff _ name = ground arith

pub RecordWith-iff :
    (P : Option Fields → Type 0) (k : Option Fields → Check) (o : Option Json) (name : String)
    → ((fs : Option Fields) → (k fs ≡ ok tt) ↔ P fs)
    → ((assert_record_field o name >>= k) ≡ ok tt) ↔ RecordWith P o
unfolding assert_record_field
RecordWith-iff P k none name h = h none
RecordWith-iff P k (some (obj fs)) name h = h (some fs)
RecordWith-iff P k (some _) name h = ground arith
