-- ===== src/Auth/Session.antt =====
-- src/framework/auth/pact_auth/session.ts and factors.ts: what a page learns of its visitor. Both
-- fail closed. Times are in milliseconds, for `Date`.
pub mod Closed
pub mod Factors
pub mod Tests
use pact_web.Prelude.{
  ℕ, ◌*◌, ltb, if◌then◌else◌, Bool, true, false, ◌&&◌, ◌||◌, not, Option, none, some, get_or_else,
  List, [], ◌∷◌, map, keep, any, String,
}
use pact_web.Prelude.Text.{truthy}
use pact_web.Prelude.Text.Case.{equals_lower}
use pact_web.Prelude.Result.{Result, ok, err}
use pact_web.Auth.Errors.{Thrown}
use pact_web.Auth.Client.{Answer}
use pact_web.Auth.Client.Requests.{SessionCall}
use pact_web.Auth.Client.Replies.{read_reply}
use pact_web.Auth.Routes.{mock_session_token, mock_user_id}

pub record RawIntrospection : Type 0 where
  pub valid : Option Bool
  pub user_id : Option String
  pub expires_at_unix : Option ℕ

pub record Session : Type 0 where
  pub user_id : String
  pub expires_at : ℕ

-- `AuthMfaFactorsResult`, `AuthPasskeysResult` and `AuthIdentitiesResult` before their defaults.
pub record RawFactor : Type 0 where
  pub factor_id : Option String
  pub kind : Option String
  pub label : Option String
  pub verified : Option Bool
  pub created_at_unix : Option ℕ

pub record RawPasskey : Type 0 where
  pub passkey_id : Option String
  pub label : Option String
  pub created_at_unix : Option ℕ
  pub last_used_at_unix : Option ℕ

pub record RawIdentity : Type 0 where
  pub provider : Option String
  pub provider_uid : Option String
  pub connected_at_unix : Option ℕ

pub record MfaFactor : Type 0 where
  pub factor_id : String
  pub kind : String
  pub label : String
  pub verified : Bool
  pub created_at : ℕ

pub record Passkey : Type 0 where
  pub passkey_id : String
  pub label : String
  pub created_at : ℕ
  pub last_used_at : Option ℕ

pub record OauthIdentity : Type 0 where
  pub provider : String
  pub provider_uid : String
  pub connected_at : ℕ

abbrev milliseconds : Option ℕ → ℕ
milliseconds unix = get_or_else unix 0 * 1000

-- The client's default values, and the view's dates.
unfoldable pub factor_view : RawFactor → MfaFactor
factor_view raw = record {
  factor_id = get_or_else raw.factor_id "";
  kind = get_or_else raw.kind "";
  label = get_or_else raw.label "";
  verified = get_or_else raw.verified false;
  created_at = milliseconds raw.created_at_unix;
}

unfoldable pub passkey_view : RawPasskey → Passkey
passkey_view raw = record {
  passkey_id = get_or_else raw.passkey_id "";
  label = get_or_else raw.label "";
  created_at = milliseconds raw.created_at_unix;
  last_used_at =
      if ltb 0 (get_or_else raw.last_used_at_unix 0)
      then some (milliseconds raw.last_used_at_unix)
      else none;
}

unfoldable pub identity_view : RawIdentity → OauthIdentity
identity_view raw = record {
  provider = get_or_else raw.provider "";
  provider_uid = get_or_else raw.provider_uid "";
  connected_at = milliseconds raw.connected_at_unix;
}

abbrev pub is_kind : String → MfaFactor → Bool
is_kind word f = equals_lower word f.kind

-- What each reader does with its reply, the list of an object that may lack it; each has a `catch`
-- of its own.
unfoldable pub totp_factors : Result Thrown (Option (List RawFactor)) → List MfaFactor
totp_factors (ok raw) = keep (is_kind "totp") (map factor_view (get_or_else raw []))
totp_factors (err thrown) = []

unfoldable pub passkey_views : Result Thrown (Option (List RawPasskey)) → List Passkey
passkey_views (ok raw) = map passkey_view (get_or_else raw [])
passkey_views (err thrown) = []

unfoldable pub identity_views : Result Thrown (Option (List RawIdentity)) → List OauthIdentity
identity_views (ok raw) = map identity_view (get_or_else raw [])
identity_views (err thrown) = []

abbrev pub is_security_key : MfaFactor → Bool
is_security_key f = f.verified && (is_kind "webauthn" f || is_kind "passkey" f)

unfoldable pub has_security_key : Result Thrown (Option (List RawFactor)) → Bool
has_security_key (ok raw) = any is_security_key (map factor_view (get_or_else raw []))
has_security_key (err thrown) = false

-- The gateway's answers to the reads of a page, for a session token.
pub record Reads : Type 0 where
  pub introspection : String → Answer RawIntrospection
  pub factors : String → Answer (Option (List RawFactor))
  pub passkeys : String → Answer (Option (List RawPasskey))
  pub identities : String → Answer (Option (List RawIdentity))

-- `passkeys.length > 0`, and the other read where there is none.
abbrev pub counted : List Passkey → Bool → Bool
counted (p ∷ ps) key = true
counted [] key = key

-- A reply that is valid and names a user.
unfoldable pub session_of : Result Thrown RawIntrospection → Option Session
session_of (err thrown) = none
session_of (ok raw) =
    let user_id = get_or_else raw.user_id "" in
    if get_or_else raw.valid false && truthy user_id
    then some (record { user_id = user_id; expires_at = milliseconds raw.expires_at_unix })
    else none

module _ (mock : Bool) (mock_expires_at : ℕ) (reads : Reads) (cookie : Option String) where
  unfoldable pub validate_session_from_cookies : Option Session
  validate_session_from_cookies =
      if mock
      then some (record { user_id = mock_user_id; expires_at = mock_expires_at })
      else elim cookie [
        | none ↦ none
        | some token ↦
            if truthy token then session_of (read_reply (reads.introspection token)) else none
      ]

module _ (mock : Bool) (reads : Reads) (cookie : Option String) where
  unfoldable pub current_session_token : Option String
  current_session_token = if mock then some mock_session_token else cookie

  unfoldable pub list_mfa_factors : List MfaFactor
  list_mfa_factors = elim current_session_token [
    | none ↦ []
    | some token ↦ if truthy token then totp_factors (read_reply (reads.factors token)) else []
  ]

  unfoldable pub list_passkeys : List Passkey
  list_passkeys = elim current_session_token [
    | none ↦ []
    | some token ↦ if truthy token then passkey_views (read_reply (reads.passkeys token)) else []
  ]

  unfoldable pub list_identities : List OauthIdentity
  list_identities = elim current_session_token [
    | none ↦ []
    | some token ↦ if truthy token then identity_views (read_reply (reads.identities token)) else []
  ]

  -- Any passkey counts, and of the other factors a verified security key.
  unfoldable pub has_webauthn_factor : Bool
  has_webauthn_factor = counted list_passkeys (elim current_session_token [
    | none ↦ false
    | some token ↦
        if truthy token then has_security_key (read_reply (reads.factors token)) else false
  ])
