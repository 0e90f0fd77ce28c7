-- ===== src/Auth/ReturnTo/Trust.antt =====
-- Whom a redirect trusts.
use Prim.Native.Char.{code}
use Prim.Native.String.{[], ◌∷◌}
use pact_web.Prelude.{◌≡◌, refl, eqb, true, false, Option, none, some, String, Bool-cases, inl, inr}
use pact_web.Auth.ReturnTo.{
  UrlApi, Inbound, Environment, rebase_return_to, safe_next_path, leaves_origin,
}

-- Outside of development, a return URL that is a URL is taken as it is: no header of the request
-- changes it.
rebase_return_to-trusts :
    {U : Type 0} (urls : UrlApi U) (env : Environment) (req : Inbound) (return_to : String)
    (url : U)
    → env.development ≡ false
    → env.rebase ≡ false
    → urls.parse return_to ≡ some url
    → rebase_return_to urls env req return_to ≡ some url
unfolding rebase_return_to
rebase_return_to-trusts urls env req return_to url built kept given = rw (built, kept, given) refl

-- A path of the own origin: it starts with a slash, and neither a slash nor a backslash follows.
abbrev IsLocal : String → Type 0
IsLocal [] = false ≡ true
IsLocal (c ∷ s) = (eqb (code c) b'/' ≡ true) × (leaves_origin s ≡ false)

-- The page that follows a verified address leads to a path of the own origin, whatever the query
-- says.
pub safe_next_path-IsLocal : (raw : Option String) → IsLocal (safe_next_path raw)
unfolding safe_next_path
safe_next_path-IsLocal none = (refl, refl)
safe_next_path-IsLocal (some []) = (refl, refl)
safe_next_path-IsLocal (some (c ∷ s)) = elim (Bool-cases (eqb (code c) b'/')) [
  | inl slash ↦ elim (Bool-cases (leaves_origin s)) [
    | inl leaves ↦ rw (slash, leaves) (refl, refl)
    | inr stays ↦ rw (slash, stays) (slash, stays)
  ]
  | inr relative ↦ rw relative (refl, refl)
]
