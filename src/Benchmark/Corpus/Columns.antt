-- ===== src/Benchmark/Corpus/Columns.antt =====
-- The columns of a file name every key of its rows.
use Prim.Native.String.{[], ◌∷◌}
use pact_web.Prelude.{
  ℕ, suc, ◌≡◌, refl, Bool, true, false, ◌&&◌, if-cases, Bool-cases, inl, inr, Option, none, some,
  List, [], ◌∷◌, ◌++◌, map, all, String, ◌==◌, eq_refl, arith, get_elem?, get_or_else,
}
use pact_web.Prelude.Trim.{trim}
use pact_web.Prelude.Json.{Json, null, bool, num, arr, obj, str, Fields, end, field}
use pact_web.Prelude.Result.{Result, ok, err, Each, Each-bind}
use pact_web.Benchmark.Corpus.{
  ParsedCorpus, is_in, added, add_keys, add_rows, collect_columns, object_rows, entries_of,
  from_entries, from_array, set_field, csv_row, csv_corpus, parse_csv, parse_jsonl_rows,
  parse_json_array, parse_text, parse_corpus_file, has_extension, is_supported,
}

-- Every key of the row is one of the columns.
abbrev keys_in : List String → Fields → Bool
keys_in columns end = true
keys_in columns (field k v fs) = is_in k columns && keys_in columns fs

is_in-append : (k : String) (ks zs : List String) → is_in k ks ≡ true → is_in k (ks ++ zs) ≡ true
is_in-append k [] zs h = cc
is_in-append k (j ∷ ks) zs h = ground (arith, is_in-append k ks zs)

is_in-last : (k : String) (ks : List String) → is_in k (ks ++ k ∷ []) ≡ true
is_in-last k [] = rw eq_refl refl
is_in-last k (j ∷ ks) = ground (arith, is_in-last k ks)

pub added-keeps :
    (k : String) (ks : List String) (j : String) → is_in j ks ≡ true → is_in j (added k ks) ≡ true
added-keeps k ks j h =
    if-cases (λ next. is_in j next ≡ true) (is_in k ks) ks (ks ++ k ∷ []) (λ e. h)
      λ e. is_in-append j ks (k ∷ []) h

pub added-holds : (k : String) (ks : List String) → is_in k (added k ks) ≡ true
added-holds k ks =
    if-cases (λ next. is_in k next ≡ true) (is_in k ks) ks (ks ++ k ∷ []) (λ e. e)
      λ e. is_in-last k ks

add_keys-keeps :
    (fs : Fields) (columns : List String) (j : String)
    → is_in j columns ≡ true
    → is_in j (add_keys fs columns) ≡ true
unfolding add_keys
add_keys-keeps end columns j h = h
add_keys-keeps (field k v fs) columns j h =
    add_keys-keeps fs (added k columns) j (added-keeps k columns j h)

keys_in-grows :
    (fs : Fields) (columns more : List String)
    → ((j : String) → is_in j columns ≡ true → is_in j more ≡ true)
    → keys_in columns fs ≡ true
    → keys_in more fs ≡ true
keys_in-grows end columns more grow h = refl
keys_in-grows (field k v fs) columns more grow h =
    ground (arith, grow k (ground arith), keys_in-grows fs columns more grow (ground arith))

add_keys-covers : (fs : Fields) (columns : List String) → keys_in (add_keys fs columns) fs ≡ true
unfolding add_keys
add_keys-covers end columns = refl
add_keys-covers (field k v fs) columns =
    let next = added k columns in
    ground (arith, add_keys-keeps fs next k (added-holds k columns), add_keys-covers fs next)

-- Rows whose keys are all columns.
abbrev AreCovered : List String → List Fields → Type 0
AreCovered columns rows = all (keys_in columns) rows ≡ true

add_rows-keeps :
    (rows : List Fields) (columns : List String) (j : String)
    → is_in j columns ≡ true
    → is_in j (add_rows rows columns) ≡ true
add_rows-keeps [] columns j h = h
add_rows-keeps (row ∷ rows) columns j h =
    add_rows-keeps rows (add_keys row columns) j (add_keys-keeps row columns j h)

add_rows-covers :
    (rows : List Fields) (columns : List String) → AreCovered (add_rows rows columns) rows
add_rows-covers [] columns = refl
add_rows-covers (row ∷ rows) columns =
    let next = add_keys row columns in
    ground (
      arith,
      keys_in-grows row next (add_rows rows next) (add_rows-keeps rows next)
          (add_keys-covers row columns),
      add_rows-covers rows next,
    )

set_field-covers :
    (k : String) (v : Json) (fs : Fields) (columns : List String)
    → is_in k columns ≡ true
    → keys_in columns fs ≡ true
    → keys_in columns (set_field k v fs) ≡ true
unfolding set_field
set_field-covers k v end columns hk h = ground arith
set_field-covers k v (field j w fs) columns hk h = elim (Bool-cases (j == k)) [
  | inl e ↦ rw e (ground arith)
  | inr e ↦ rw e (ground (arith, set_field-covers k v fs columns hk (ground arith)))
]

all_in-cons :
    (c : String) (cs ks : List String)
    → all (λ k. is_in k ks) cs ≡ true
    → all (λ k. is_in k (c ∷ ks)) cs ≡ true
all_in-cons c [] ks h = refl
all_in-cons c (d ∷ cs) ks h = ground (arith, all_in-cons c cs ks)

all_in_self : (cs : List String) → all (λ k. is_in k cs) cs ≡ true
all_in_self [] = refl
all_in_self (c ∷ cs) = ground (arith, eq_refl c, all_in-cons c cs cs (all_in_self cs))

csv_row-covers :
    (cells : List String) (i : ℕ) (rest columns : List String) (row : Fields)
    → all (λ k. is_in k columns) rest ≡ true
    → keys_in columns row ≡ true
    → keys_in columns (csv_row cells i rest row) ≡ true
unfolding csv_row
csv_row-covers cells i [] columns row hs h = h
csv_row-covers cells i (c ∷ rest) columns row hs h =
    csv_row-covers cells (suc i) rest columns
      (set_field c (str (get_or_else (get_elem? cells i) "")) row) (ground arith)
      (set_field-covers c (str (get_or_else (get_elem? cells i) "")) row columns (ground arith) h)

csv_rows-covers :
    (lines : List (List String)) (columns : List String)
    → AreCovered columns (map (λ cells. csv_row cells 0 columns end) lines)
csv_rows-covers [] columns = refl
csv_rows-covers (cells ∷ lines) columns = ground (
  arith,
  csv_row-covers cells 0 columns columns end (all_in_self columns) refl,
  csv_rows-covers lines columns,
)

abbrev has_rows : List Fields → Bool
has_rows [] = false
has_rows (row ∷ rows) = true

-- There is a row, and the columns name every key of the rows.
abbrev IsCorpus : ParsedCorpus → Type 0
IsCorpus c = (has_rows c.rows ≡ true) × AreCovered c.columns c.rows

-- An outcome is an error or a corpus.
abbrev pub IsOutcome : Result String ParsedCorpus → Type 0
IsOutcome r = Each (λ e. Unit {0}) IsCorpus r

csv_corpus-IsOutcome : (lines : List (List String)) → IsOutcome (csv_corpus lines)
csv_corpus-IsOutcome [] = tt
csv_corpus-IsOutcome (head ∷ []) = tt
csv_corpus-IsOutcome (head ∷ cells ∷ rest) = (refl, csv_rows-covers (cells ∷ rest) (map trim head))

abbrev HasRows : List Fields → Type 0
HasRows rows = has_rows rows ≡ true

any_outcome : {A : Type 0} (r : Result String A) → Each (λ e. Unit {0}) (λ a. Unit {0}) r
any_outcome (ok a) = tt
any_outcome (err e) = tt

object_rows-HasRows :
    (i : ℕ) (e : Option Json) (es : List (Option Json))
    → Each (λ e. Unit {0}) HasRows (object_rows i (e ∷ es))
unfolding object_rows
object_rows-HasRows i none es = tt
object_rows-HasRows i (some null) es = tt
object_rows-HasRows i (some (bool b)) es = tt
object_rows-HasRows i (some (num n)) es = tt
object_rows-HasRows i (some (str s)) es = tt
object_rows-HasRows i (some (arr xs)) es = tt
object_rows-HasRows i (some (obj row)) es =
    Each-bind (λ e. Unit {0}) (λ rows. Unit {0}) HasRows (object_rows (suc i) es) _
      (any_outcome (object_rows (suc i) es)) λ rows h. refl

from_entries-IsOutcome : (es : List (Option Json)) → IsOutcome (from_entries es)
unfolding collect_columns
from_entries-IsOutcome [] = tt
from_entries-IsOutcome (e ∷ es) =
    Each-bind (λ e. Unit {0}) HasRows IsCorpus (object_rows 1 (e ∷ es)) _
      (object_rows-HasRows 1 e es) λ rows h. (h, add_rows-covers rows [])

from_array-IsOutcome : (v : Option Json) → IsOutcome (from_array v)
from_array-IsOutcome none = tt
from_array-IsOutcome (some null) = tt
from_array-IsOutcome (some (bool b)) = tt
from_array-IsOutcome (some (num n)) = tt
from_array-IsOutcome (some (str s)) = tt
from_array-IsOutcome (some (obj fs)) = tt
from_array-IsOutcome (some (arr items)) = from_entries-IsOutcome (entries_of items)

module _ (parse : String → Option Json) where
  parse_text-IsOutcome : (filename text : String) → IsOutcome (parse_text parse filename text)
  unfolding parse_jsonl_rows parse_json_array parse_csv
  parse_text-IsOutcome filename text =
      if-cases IsOutcome (has_extension "csv" filename) _ _ (λ csv. csv_corpus-IsOutcome _)
        λ other.
          if-cases IsOutcome (has_extension "json" filename) _ _
            (λ json. from_array-IsOutcome (parse text)) λ lines. from_entries-IsOutcome _

  -- A file that is accepted, of any of the formats, has a row, and its columns name every key of
  -- its rows.
  pub parse_corpus_file-IsOutcome :
      (filename text : String) → IsOutcome (parse_corpus_file parse filename text)
  unfolding parse_corpus_file
  parse_corpus_file-IsOutcome filename text =
      if-cases IsOutcome (is_supported filename) _
        (err "File must be .jsonl, .ndjson, .json, or .csv")
        (λ known.
          if-cases IsOutcome (trim text == "") (err "File is empty")
            (parse_text parse filename text) (λ empty. tt)
            λ full. parse_text-IsOutcome filename text)
        λ unknown. tt
