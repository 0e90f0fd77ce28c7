-- ===== src/Benchmark/Mapping/Vocabulary.antt =====
-- src/app/benchmark/domain/benchmark_corpus_mapping.ts: the decisions on label values, in a plain
-- object.
use pact_web.Prelude.{if◌then◌else◌, Option, none, some, List, [], ◌∷◌, any, String, ◌==◌}
use pact_web.Prelude.Text.Case.{equals_lower}
use pact_web.Prelude.Trim.{trim}
use pact_web.Prelude.Objects.{is_inherited}
use pact_web.Benchmark.Mapping.Aliases.{block_value_aliases, allow_value_aliases}

-- `inherited` is no decision, but what the look-up of a value in an object of decisions finds in
-- `Object.prototype`.
pub data LabelDecision : Type 0 where
  block allow skip inherited : LabelDecision

unfoldable pub match_label_vocabulary : String → LabelDecision
match_label_vocabulary value =
    if any (λ alias. equals_lower alias (trim value)) block_value_aliases
    then LabelDecision.block
    else if any (λ alias. equals_lower alias (trim value)) allow_value_aliases
    then LabelDecision.allow
    else LabelDecision.skip

abbrev pub Decisions : Type 0
Decisions = List (String × LabelDecision)

-- The own keys of the object, the first entry for a key being the one that holds.
unfoldable pub own_decision : Decisions → String → Option LabelDecision
own_decision [] value = none
own_decision ((v, d) ∷ ds) value =
    let rest = own_decision ds value in if v == value then some d else rest

-- `valueDecisions[value] ?? 'skip'`. The key `__proto__` is never an own one, and leads to the
-- prototype, as the keys that the prototype has do where they are not own ones.
unfoldable pub decision_of : Decisions → String → LabelDecision
unfolding own_decision
decision_of ds value =
    if value == "__proto__" then LabelDecision.inherited else elim (own_decision ds value) [
      | some d ↦ d
      | none ↦ if is_inherited value then LabelDecision.inherited else LabelDecision.skip
    ]

-- `decisions[value] = matchLabelVocabulary(value)` for each value, into an empty object; a text
-- that is assigned to `__proto__` is dropped.
unfoldable pub default_decisions_of : List String → Decisions
default_decisions_of [] = []
default_decisions_of (value ∷ values) =
    let rest = default_decisions_of values in
    if value == "__proto__" then rest else (value, match_label_vocabulary value) ∷ rest
