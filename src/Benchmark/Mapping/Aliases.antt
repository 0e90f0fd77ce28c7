-- ===== src/Benchmark/Mapping/Aliases.antt =====
-- src/app/benchmark/domain/benchmark_corpus_mapping.ts: the names that columns and values go by.
use pact_web.Prelude.{List, [], ◌∷◌, String}

abbrev pub text_column_aliases : List String
text_column_aliases =
    "content" ∷ "text" ∷ "prompt" ∷ "user_prompt" ∷ "user_input" ∷ "user_message" ∷ "input"
    ∷ "message" ∷ "query" ∷ "question" ∷ "instruction" ∷ "goal" ∷ "adversarial_prompt"
    ∷ "jailbreak_prompt" ∷ "attack_prompt" ∷ "adversarial" ∷ "sentence" ∷ []

abbrev pub label_column_aliases : List String
label_column_aliases =
    "expected_label" ∷ "label" ∷ "labels" ∷ "type" ∷ "class" ∷ "is_injection" ∷ "injection"
    ∷ "prompt_injection" ∷ "is_jailbreak" ∷ "jailbreak" ∷ "jailbreaking" ∷ "jailbroken"
    ∷ "is_attack" ∷ "attack" ∷ "is_malicious" ∷ "malicious" ∷ "is_harmful" ∷ "harmful" ∷ "is_unsafe"
    ∷ "unsafe" ∷ "toxicity" ∷ "toxic" ∷ "verdict" ∷ []

abbrev pub block_value_aliases : List String
block_value_aliases =
    "block" ∷ "1" ∷ "true" ∷ "yes" ∷ "y" ∷ "t" ∷ "injection" ∷ "injected" ∷ "prompt_injection"
    ∷ "prompt injection" ∷ "jailbreak" ∷ "jailbroken" ∷ "jailbreaking" ∷ "malicious" ∷ "attack"
    ∷ "unsafe" ∷ "harmful" ∷ "toxic" ∷ "adversarial" ∷ []

abbrev pub allow_value_aliases : List String
allow_value_aliases =
    "allow" ∷ "0" ∷ "false" ∷ "no" ∷ "n" ∷ "f" ∷ "benign" ∷ "safe" ∷ "legit" ∷ "legitimate"
    ∷ "clean" ∷ "normal" ∷ "regular" ∷ "harmless" ∷ "not_injection" ∷ "non_malicious" ∷ []
