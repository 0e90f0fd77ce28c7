-- ===== src/TestLab/Parse.antt =====
-- `parseCheckResponse`: the checks that the parsed /v1/check body has to pass.
pub mod Contract
pub mod WellFormed
use pact_web.Prelude.{
  ℕ, zero, suc, Bool, true, false, Option, none, some, List, [], ◌∷◌, String, includes,
  if◌then◌else◌,
}
use pact_web.Prelude.Text.{◌<>◌, show}
use pact_web.Prelude.Json.{Json, Items, nil, cons, Fields, obj, arr, str, num, get}
use pact_web.Prelude.Result.{Result, ok, err, ◌>>=◌, ◌>>◌}

-- `CheckResponseParseError`, by the kind of its message.
pub data ParseError : Type 0 where
  response_not_object : ParseError
  unexpected_value : String → Option Json → ParseError
  missing : String → ParseError
  not_object : String → ParseError
  not_array : String → ParseError

abbrev pub Check : Type 0
Check = Result ParseError (Unit {0})

abbrev pub decisions : List String
decisions = "allow" ∷ "block" ∷ []

abbrev pub filter_verdicts : List String
filter_verdicts = "safe" ∷ "suspicious" ∷ "hostile" ∷ "unknown" ∷ []

abbrev pub redactor_verdicts : List String
redactor_verdicts = "pass_through" ∷ "redacted" ∷ "unknown" ∷ []

abbrev pub external_ref_verdicts : List String
external_ref_verdicts =
    "clean" ∷ "hostile" ∷ "unfetchable" ∷ "skipped" ∷ "blocked" ∷ "mitigated" ∷ []

abbrev pub spotlight_formats : List String
spotlight_formats = "delim" ∷ "xml" ∷ "json" ∷ []

abbrev pub spotlight_trust : List String
spotlight_trust = "trusted" ∷ "user" ∷ "untrusted" ∷ []

pub assert_enum_field : List String → Option Json → String → Check
assert_enum_field values (some (str s)) name =
    if includes values s then ok tt else err (unexpected_value name (some (str s)))
assert_enum_field values v name = err (unexpected_value name v)

-- `if (o.key !== undefined) assertEnumField(…)`
pub optional_enum : List String → Option Json → String → Check
unfolding assert_enum_field
optional_enum values none name = ok tt
optional_enum values (some v) name = assert_enum_field values (some v) name

-- `none` is `undefined`, which passes; `null` and arrays are not objects.
pub assert_record_field : Option Json → String → Result ParseError (Option Fields)
assert_record_field none name = ok none
assert_record_field (some (obj fs)) name = ok (some fs)
assert_record_field (some _) name = err (not_object name)

-- `o?.key`
abbrev pub get_opt : String → Option Fields → Option Json
get_opt key none = none
get_opt key (some fs) = get key fs

-- The callback of a `forEach` over an array: the element is an object, and its `key`, where one
-- is named, is in the closed set.
pub check_item : Option (String × List String) → Json → String → Check
unfolding optional_enum
check_item none (obj fs) at = ok tt
check_item (some (key, values)) (obj fs) at = optional_enum values (get key fs) (at <> "." <> key)
check_item rule _ at = err (not_object at)

pub check_items : Option (String × List String) → Items → String → ℕ → Check
unfolding check_item
check_items rule nil name i = ok tt
check_items rule (cons v vs) name i = do
  check_item rule v (name <> "[" <> show i <> "]")
  check_items rule vs name (suc i)

-- `if (o?.key !== undefined) assertArrayField(…).forEach(…)`
pub optional_items : Option (String × List String) → Option Json → String → Check
unfolding check_items
optional_items rule none name = ok tt
optional_items rule (some (arr vs)) name = check_items rule vs name 0
optional_items rule (some _) name = err (not_array name)

pub assert_number : Option Json → String → Check
assert_number (some (num n)) name = ok tt
assert_number _ name = err (missing name)

pub assert_string : Option Json → String → Check
assert_string (some (str s)) name = ok tt
assert_string _ name = err (missing name)

-- The sub-object checks, each with its record test first.
check_filter : Fields → Check
unfolding assert_record_field optional_enum
check_filter raw = do
  filter ← assert_record_field (get "filter" raw) "filter"
  optional_enum filter_verdicts (get_opt "verdict" filter) "filter.verdict"

check_redactor : Fields → Check
unfolding assert_record_field optional_enum
check_redactor raw = do
  redactor ← assert_record_field (get "redactor" raw) "redactor"
  optional_enum redactor_verdicts (get_opt "verdict" redactor) "redactor.verdict"

check_consensus : Fields → Check
unfolding assert_record_field
check_consensus raw = do consensus ← assert_record_field (get "consensus" raw) "consensus"; ok tt

check_external_refs : Fields → Check
unfolding assert_record_field optional_items
check_external_refs raw = do
  external_refs ← assert_record_field (get "external_refs" raw) "external_refs"
  optional_items (some ("verdict", external_ref_verdicts)) (get_opt "refs" external_refs)
      "external_refs.refs"

check_spotlight : Fields → Check
unfolding assert_record_field optional_enum optional_items
check_spotlight raw = do
  spotlight ← assert_record_field (get "spotlight" raw) "spotlight"
  optional_enum spotlight_formats (get_opt "format" spotlight) "spotlight.format"
  optional_items (some ("trust", spotlight_trust)) (get_opt "chunks" spotlight) "spotlight.chunks"

check_diagnostics : Fields → Check
unfolding assert_record_field optional_items
check_diagnostics raw = do
  diagnostics ← assert_record_field (get "diagnostics" raw) "diagnostics"
  optional_items none (get_opt "causal_spans" diagnostics) "diagnostics.causal_spans"

check_required : Fields → Check
unfolding assert_enum_field assert_number assert_string
check_required raw = do
  assert_enum_field decisions (get "decision" raw) "decision"
  assert_number (get "latency_ms" raw) "latency_ms"
  assert_string (get "request_id" raw) "request_id"

-- The body itself is the result: the cast at the end changes nothing.
unfoldable pub parse_check_response : Json → Result ParseError Fields
unfolding check_required check_filter check_redactor check_consensus check_external_refs
    check_spotlight check_diagnostics
parse_check_response (obj raw) = do
  check_required raw
  check_filter raw
  check_redactor raw
  check_consensus raw
  check_external_refs raw
  check_spotlight raw
  check_diagnostics raw
  ok raw
parse_check_response _ = err response_not_object
