-- ===== src/Auth/Client/Requests/Paths.antt =====
-- An identifier in a path stays within its segment.
use Prim.Native.Char.{Char, code}
use Prim.Native.String.{[], ◌∷◌}
use pact_web.Prelude.{ℕ, ◌+◌, eqb, if◌then◌else◌, Bool, true, ◌||◌, not, ◌≡◌, refl, String, arith}
use pact_web.Prelude.Text.{◌<>◌}
use pact_web.Prelude.Uri.{encode_uri_component}
use pact_web.Prelude.Text.Laws.{all_characters, all_characters-append}
use pact_web.Prelude.Uri.Safety.{is_inner, encode_uri_component-inner}
use pact_web.Auth.Client.Requests.{
  PublicCall, SessionCall, AuthCall, options_of, public_options, session_options,
}
use text.Mathlib.TextLemmas.{cons-append, nil-append}

-- The number of slashes.
abbrev slashes : String → ℕ
slashes [] = 0
slashes (c ∷ s) = (if eqb (code c) b'/' then 1 else 0) + slashes s

-- The character starts neither a query nor a fragment, and is no backslash, which a URL reads as
-- a slash.
unfoldable pub is_plain : Char → Bool
is_plain c = not (eqb (code c) b'?' || eqb (code c) b'#' || eqb (code c) 92)

-- The call with its identifiers in the path left out.
abbrev pub nameless : AuthCall → AuthCall
nameless (AuthCall.public (PublicCall.handle_callback provider code state signed_state)) =
    AuthCall.public (PublicCall.handle_callback "" code state signed_state)
nameless (AuthCall.session token (SessionCall.unlink_identity provider)) =
    AuthCall.session token (SessionCall.unlink_identity "")
nameless (AuthCall.session token (SessionCall.revoke_mfa_factor factor_id)) =
    AuthCall.session token (SessionCall.revoke_mfa_factor "")
nameless (AuthCall.session token (SessionCall.rename_passkey passkey_id label)) =
    AuthCall.session token (SessionCall.rename_passkey "" label)
nameless (AuthCall.session token (SessionCall.delete_passkey passkey_id)) =
    AuthCall.session token (SessionCall.delete_passkey "")
nameless call = call

-- Under the one, a path has the endpoint's slashes and no query; under the other, an endpoint.
unfoldable pub IsWithin : String → String → Type 0
IsWithin path endpoint = (slashes path ≡ slashes endpoint) × (all_characters is_plain path ≡ true)

slashes-append : (s t : String) → slashes (s <> t) ≡ slashes s + slashes t
slashes-append [] t = rw nil-append (omega arith)
slashes-append (c ∷ s) t = rw cons-append (omega (arith, slashes-append s t))

slashes-inner : (s : String) → all_characters is_inner s ≡ true → slashes s ≡ 0
unfolding is_inner
slashes-inner [] h = refl
slashes-inner (c ∷ s) h = ground (arith, slashes-inner s)

plain-inner : (s : String) → all_characters is_inner s ≡ true → all_characters is_plain s ≡ true
unfolding is_inner is_plain
plain-inner [] h = refl
plain-inner (c ∷ s) h = ground (arith, plain-inner s)

slashes-encode : (prefix id : String) → slashes (prefix <> encode_uri_component id) ≡ slashes prefix
slashes-encode prefix id =
    rw (slashes-append, slashes-inner (encode_uri_component id) (encode_uri_component-inner id))
      (omega arith)

-- An identifier behind a prefix adds neither a segment nor a query.
segment :
    (prefix id : String)
    → all_characters is_plain prefix ≡ true
    → IsWithin (prefix <> encode_uri_component id) (prefix <> encode_uri_component "")
unfolding IsWithin
segment prefix id h = (
  rw (slashes-encode prefix id, slashes-encode prefix "") refl,
  all_characters-append is_plain prefix (encode_uri_component id) h
      (plain-inner (encode_uri_component id) (encode_uri_component-inner id)),
)

path-public :
    (call : PublicCall)
    → IsWithin
        (options_of (AuthCall.public call)).path
        (options_of (nameless (AuthCall.public call))).path
unfolding options_of public_options IsWithin is_plain
path-public (PublicCall.login email password) = (refl, refl)
path-public (PublicCall.register email password display_name return_to) = (refl, refl)
path-public (PublicCall.request_password_reset email return_to) = (refl, refl)
path-public (PublicCall.confirm_password_reset token new_password) = (refl, refl)
path-public (PublicCall.verify_email token) = (refl, refl)
path-public (PublicCall.resend_verification email return_to) = (refl, refl)
path-public (PublicCall.verify_mfa mfa_token code is_recovery) = (refl, refl)
path-public (PublicCall.begin_mfa_passkey mfa_token) = (refl, refl)
path-public (PublicCall.finish_mfa_passkey mfa_token ceremony_id assertion) = (refl, refl)
path-public (PublicCall.start_login provider return_to) = (refl, refl)
path-public (PublicCall.handle_callback provider code state signed_state) =
    segment "/oauth/callback/" provider refl
path-public (PublicCall.begin_passkey_login email) = (refl, refl)
path-public (PublicCall.finish_passkey_login ceremony_id assertion) = (refl, refl)

path-session :
    (token : String) (call : SessionCall)
    → IsWithin
        (options_of (AuthCall.session token call)).path
        (options_of (nameless (AuthCall.session token call))).path
unfolding options_of session_options IsWithin is_plain
path-session token SessionCall.validate_session = (refl, refl)
path-session token SessionCall.revoke_session = (refl, refl)
path-session token SessionCall.list_identities = (refl, refl)
path-session token (SessionCall.unlink_identity provider) = segment "/identities/" provider refl
path-session token SessionCall.begin_totp_enrollment = (refl, refl)
path-session token (SessionCall.confirm_totp_enrollment factor_id code) = (refl, refl)
path-session token SessionCall.list_mfa_factors = (refl, refl)
path-session token (SessionCall.revoke_mfa_factor factor_id) =
    segment "/mfa/factors/" factor_id refl
path-session token SessionCall.regenerate_recovery_codes = (refl, refl)
path-session token (SessionCall.begin_passkey_registration label) = (refl, refl)
path-session token (SessionCall.finish_passkey_registration ceremony_id attestation) = (refl, refl)
path-session token SessionCall.list_passkeys = (refl, refl)
path-session token (SessionCall.rename_passkey passkey_id label) =
    segment "/passkeys/" passkey_id refl
path-session token (SessionCall.delete_passkey passkey_id) = segment "/passkeys/" passkey_id refl

-- The path of every call has as many slashes as its endpoint has, whatever identifier stands in
-- it, and no query, fragment or backslash.
pub path-options_of :
    (call : AuthCall) → IsWithin (options_of call).path (options_of (nameless call)).path
path-options_of (AuthCall.public call) = path-public call
path-options_of (AuthCall.session token call) = path-session token call
