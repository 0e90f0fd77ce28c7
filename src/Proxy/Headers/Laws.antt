-- ===== src/Proxy/Headers/Laws.antt =====
-- Laws of header lists, and that no rotation header is copied to the browser.
use pact_web.Prelude.{
  ◌≡◌, refl, if◌then◌else◌, Option, none, some, [], ◌∷◌, String, ◌==◌, eq_iff, arith, or_else,
  Bool-cases, inl, inr,
}
use pact_web.Proxy.Headers.{Headers, get, set, remove, is_stripped, copy_headers}

pub get-set :
    (name k v : String) (hs : Headers)
    → get name (set k v hs) ≡ (if k == name then some v else get name hs)
unfolding get set
get-set name k v [] = refl
get-set name k v ((j, w) ∷ hs) =
    ground (arith, eq_iff j k, eq_iff j name, eq_iff k name, get-set name k v hs)

pub get-remove :
    (name k : String) (hs : Headers)
    → get name (remove k hs) ≡ (if k == name then none else get name hs)
unfolding get remove
get-remove name k [] = ground arith
get-remove name k ((j, w) ∷ hs) =
    ground (arith, eq_iff j k, eq_iff j name, eq_iff k name, get-remove name k hs)

-- The value that stands last under a name.
abbrev get_last : String → Headers → Option String
get_last name [] = none
get_last name ((k, v) ∷ hs) = or_else (get_last name hs) (if k == name then some v else none)

copy_headers-get :
    (name : String) (hs out : Headers)
    → get name (copy_headers hs out)
      ≡ (if is_stripped name then get name out else or_else (get_last name hs) (get name out))
unfolding copy_headers
copy_headers-get name [] out = ground arith
copy_headers-get name ((k, v) ∷ hs) out = elim (Bool-cases (is_stripped k)) [
  | inl dropped ↦ rw dropped (ground (arith, eq_iff k name, copy_headers-get name hs out))
  | inr copied ↦
      rw copied (
        ground (arith, eq_iff k name, get-set name k v out, copy_headers-get name hs (set k v out)))
]

-- What the copy holds under a name: nothing, or the last value that the upstream response gave.
pub copied_headers :
    (name : String) (hs : Headers)
    → get name (copy_headers hs []) ≡ (if is_stripped name then none else get_last name hs)
unfolding get
copied_headers name hs = ground (arith, copy_headers-get name hs [])
