-- ===== src/Auth/Providers/Selection.antt =====
-- A deployment offers only providers that the OAuth routes know.
use pact_web.Prelude.{
  ◌≡◌, Bool, true, if-cases, Option, List, [], ◌∷◌, keep, any, get_or_else, String, ◌==◌, eq_iff,
  arith,
}
use pact_web.Prelude.Text.Case.{equals_lower}
use pact_web.Prelude.Trim.{trim}
use pact_web.Auth.Providers.{
  oauth_providers, is_allowed_provider, wanted, parse_enabled_oauth_providers,
  is_oauth_provider_enabled,
}

any-keep : (p q : String → Bool) (xs : List String) → any p (keep q xs) ≡ true → any p xs ≡ true
any-keep p q [] h = h
any-keep p q (x ∷ xs) h = ground (arith, any-keep p q xs)

known-IsAllowed :
    (id : String) → any (λ p. p == id) oauth_providers ≡ true → is_allowed_provider id ≡ true
unfolding is_allowed_provider
known-IsAllowed id h = ground (
  arith,
  eq_iff "github" id,
  eq_iff "meta" id,
  eq_iff "google" id,
  eq_iff id "github",
  eq_iff id "meta",
  eq_iff id "google",
)

abbrev Offers : String → List String → Type 0
Offers id ids = any (λ p. p == id) ids ≡ true → is_allowed_provider id ≡ true

-- A provider that the deployment offers, whatever the text of its setting, passes the check of the
-- callback.
enabled-IsAllowed :
    (raw : Option String) (id : String)
    → is_oauth_provider_enabled raw id ≡ true
    → is_allowed_provider id ≡ true
unfolding is_oauth_provider_enabled parse_enabled_oauth_providers
enabled-IsAllowed raw id =
    let value = trim (get_or_else raw "") in
    if-cases (Offers id) (value == "") _ _ (λ empty. known-IsAllowed id)
      λ full.
        if-cases (Offers id) (equals_lower "none" value) _ _ (λ off h. cc)
          λ on h.
            known-IsAllowed id
              (any-keep (λ p. p == id) (λ p. any (equals_lower p) (wanted value)) oauth_providers h)
