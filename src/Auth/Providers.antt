-- ===== src/Auth/Providers.antt =====
-- src/app/auth/domain/enabled_oauth_providers.ts, and the providers that the OAuth routes know.
pub mod Selection
use pact_web.Prelude.{
  if◌then◌else◌, Bool, ◌||◌, Option, none, some, List, [], ◌∷◌, map, keep, any, get_or_else, String,
  ◌==◌,
}
use pact_web.Prelude.Text.Case.{equals_lower}
use pact_web.Prelude.Trim.{trim}
use pact_web.Proxy.ClientIp.{split_comma}

-- The ids of `OAUTH_PROVIDERS`, in its order.
abbrev pub oauth_providers : List String
oauth_providers = "github" ∷ "meta" ∷ "google" ∷ []

-- `ALLOWED_PROVIDERS.has(provider)`
unfoldable pub is_allowed_provider : String → Bool
is_allowed_provider provider = provider == "github" || provider == "google" || provider == "meta"

-- The ids of the list that a value gives.
unfoldable pub wanted : String → List String
unfolding split_comma
wanted value = map trim (split_comma value)

-- `parseEnabledOAuthProviders`. The value keeps its case here, and every comparison lowers it.
unfoldable pub parse_enabled_oauth_providers : Option String → List String
parse_enabled_oauth_providers raw =
    let value = trim (get_or_else raw "") in
    if value == ""
    then oauth_providers
    else if equals_lower "none" value
    then []
    else keep (λ id. any (equals_lower id) (wanted value)) oauth_providers

-- `isOAuthProviderEnabled`, for the value of the environment.
unfoldable pub is_oauth_provider_enabled : Option String → String → Bool
is_oauth_provider_enabled raw id = any (λ p. p == id) (parse_enabled_oauth_providers raw)
