-- ===== src/Benchmark/Mapping/Totals.antt =====
-- The totals of a normalized corpus count its rows.
use Prim.Native.String.{[], ◌∷◌}
use pact_web.Prelude.{
  ℕ, suc, ◌+◌, ◌≡◌, refl, Bool, true, false, not, if◌then◌else◌, List, [], ◌∷◌, ◌++◌, length, all,
  keep, String, ◌==◌, arith,
}
use pact_web.Prelude.Trim.{trim}
use pact_web.Prelude.Json.{Json, Fields, get}
use pact_web.Benchmark.Corpus.{ParsedCorpus}
use pact_web.Benchmark.Mapping.{
  NormalizedCorpusRow, CorpusTotals, content_of, NormalizedCorpus, Tally, counted, normalized_row,
  row_decision, tally, normalize_corpus,
}
use pact_web.Benchmark.Mapping.Vocabulary.{LabelDecision, Decisions}

abbrev is_attack : NormalizedCorpusRow → Bool
is_attack row = elim row.expected_label [
  | LabelDecision.block ↦ true
  | LabelDecision.allow ↦ false
  | LabelDecision.skip ↦ false
  | LabelDecision.inherited ↦ false
]

-- Every row of the result that is no attack is counted as benign.
abbrev is_benign : NormalizedCorpusRow → Bool
is_benign row = elim row.expected_label [
  | LabelDecision.block ↦ false
  | LabelDecision.allow ↦ true
  | LabelDecision.skip ↦ false
  | LabelDecision.inherited ↦ true
]

abbrev has_text : NormalizedCorpusRow → Bool
has_text row = not (trim row.content == "")

-- The rows and the totals after some rows of the file.
abbrev pub Counts : ℕ → List NormalizedCorpusRow × CorpusTotals → Type 0
Counts seen (rows, t) =
    (t.attacks ≡ length (keep is_attack rows))
    × (t.benign ≡ length (keep is_benign rows))
    × (t.attacks + t.benign ≡ length rows)
    × (t.attacks + t.benign + t.skipped ≡ seen)
    × (all has_text rows ≡ true)

keep-last :
    (p : NormalizedCorpusRow → Bool) (rows : List NormalizedCorpusRow) (row : NormalizedCorpusRow)
    → length (keep p (rows ++ row ∷ [])) ≡ length (keep p rows) + (if p row then 1 else 0)
keep-last p [] row = ground arith
keep-last p (r ∷ rows) row = ground (arith, keep-last p rows row)

length-last :
    (rows : List NormalizedCorpusRow) (row : NormalizedCorpusRow)
    → length (rows ++ row ∷ []) ≡ suc (length rows)
length-last [] row = refl
length-last (r ∷ rows) row = ground (arith, length-last rows row)

all-last :
    (p : NormalizedCorpusRow → Bool) (rows : List NormalizedCorpusRow) (row : NormalizedCorpusRow)
    → all p rows ≡ true
    → p row ≡ true
    → all p (rows ++ row ∷ []) ≡ true
all-last p [] row h hr = ground arith
all-last p (r ∷ rows) row h hr = ground (arith, all-last p rows row)

abbrev pub result_of : NormalizedCorpus → Tally
result_of c = (c.rows, c.totals)

abbrev is_skip : LabelDecision → Bool
is_skip LabelDecision.skip = true
is_skip d = false

kept_text :
    (blank : Bool) (d e : LabelDecision)
    → (if blank then LabelDecision.skip else d) ≡ e
    → is_skip e ≡ false
    → blank ≡ false
kept_text true d e same kept = cc
kept_text false d e same kept = refl

module _ (to_string : Json → String) (columns : List String) (text label : String)
    (decisions : Decisions) where
  -- A row that is kept has a text.
  block-has_text :
      (index : ℕ) (row : Fields)
      → row_decision to_string columns text label decisions row ≡ LabelDecision.block
      → has_text
          (normalized_row to_string columns text label decisions index row LabelDecision.block)
        ≡ true
  unfolding row_decision normalized_row
  block-has_text index row e = ground (
    arith,
    kept_text (trim (content_of to_string (get text row)) == "") _ LabelDecision.block e refl,
  )

  allow-has_text :
      (index : ℕ) (row : Fields)
      → row_decision to_string columns text label decisions row ≡ LabelDecision.allow
      → has_text
          (normalized_row to_string columns text label decisions index row LabelDecision.allow)
        ≡ true
  unfolding row_decision normalized_row
  allow-has_text index row e = ground (
    arith,
    kept_text (trim (content_of to_string (get text row)) == "") _ LabelDecision.allow e refl,
  )

  inherited-has_text :
      (index : ℕ) (row : Fields)
      → row_decision to_string columns text label decisions row ≡ LabelDecision.inherited
      → has_text
          (normalized_row to_string columns text label decisions index row LabelDecision.inherited)
        ≡ true
  unfolding row_decision normalized_row
  inherited-has_text index row e = ground (
    arith,
    kept_text (trim (content_of to_string (get text row)) == "") _ LabelDecision.inherited e refl,
  )

  counted-Counts :
      (index seen : ℕ) (row : Fields) (d : LabelDecision) (acc : Tally)
      → row_decision to_string columns text label decisions row ≡ d
      → Counts seen acc
      → Counts (suc seen) (counted to_string columns text label decisions index row d acc)
  unfolding counted normalized_row
  counted-Counts index seen row LabelDecision.skip (rows, t) e
        (attacks, benign, kept, total, texts) =
      (attacks, benign, kept, omega arith, texts)
  counted-Counts index seen row LabelDecision.block (rows, t) e
        (attacks, benign, kept, total, texts) =
      let kept_row =
        normalized_row to_string columns text label decisions index row LabelDecision.block in
      (
        omega (arith, keep-last is_attack rows kept_row),
        omega (arith, keep-last is_benign rows kept_row),
        omega (arith, length-last rows kept_row),
        omega arith,
        all-last has_text rows kept_row texts (block-has_text index row e),
      )
  counted-Counts index seen row LabelDecision.allow (rows, t) e
        (attacks, benign, kept, total, texts) =
      let kept_row =
        normalized_row to_string columns text label decisions index row LabelDecision.allow in
      (
        omega (arith, keep-last is_attack rows kept_row),
        omega (arith, keep-last is_benign rows kept_row),
        omega (arith, length-last rows kept_row),
        omega arith,
        all-last has_text rows kept_row texts (allow-has_text index row e),
      )
  counted-Counts index seen row LabelDecision.inherited (rows, t) e
        (attacks, benign, kept, total, texts) =
      let kept_row =
        normalized_row to_string columns text label decisions index row LabelDecision.inherited in
      (
        omega (arith, keep-last is_attack rows kept_row),
        omega (arith, keep-last is_benign rows kept_row),
        omega (arith, length-last rows kept_row),
        omega arith,
        all-last has_text rows kept_row texts (inherited-has_text index row e),
      )

  tally-Counts :
      (index seen : ℕ) (rest : List Fields) (acc : Tally) (n : ℕ)
      → n ≡ seen + length rest
      → Counts seen acc
      → Counts n (tally to_string columns text label decisions index rest acc)
  unfolding tally
  tally-Counts index seen [] (rows, t) n e (attacks, benign, kept, total, texts) =
      (attacks, benign, kept, omega arith, texts)
  tally-Counts index seen (row ∷ rest) acc n e h =
      tally-Counts (suc index) (suc seen) rest
        (counted to_string columns text label decisions index row
          (row_decision to_string columns text label decisions row) acc)
        n (omega arith) (counted-Counts index seen row _ acc refl h)

-- Every row of the file is counted once, as an attack, as benign or as skipped; the attacks and the
-- benign rows are those of the result, which all have a text.
pub normalize_corpus-Counts :
    (to_string : Json → String) (stringify : NormalizedCorpusRow → String) (parsed : ParsedCorpus)
    (text label : String) (decisions : Decisions)
    → Counts
        (length parsed.rows)
        (result_of (normalize_corpus to_string stringify parsed text label decisions))
unfolding normalize_corpus
normalize_corpus-Counts to_string stringify parsed text label decisions =
    tally-Counts to_string parsed.columns text label decisions 0 0 parsed.rows _
      (length parsed.rows) (omega arith) (refl, refl, refl, refl, refl)
