-- ===== src/Auth/Session/Tests.antt =====
-- A visitor with a session cookie.
use pact_web.Prelude.{◌≡◌, ◌↔◌, refl, [], ◌∷◌, none, false, true, some, String}
use pact_web.Prelude.Text.{truthy}
use pact_web.Auth.Client.{success, parsed, unreachable, auth_request}
use pact_web.Auth.Client.Replies.{read_reply}
use pact_web.Auth.Session.{
  Session, RawFactor, has_webauthn_factor, Reads, session_of, validate_session_from_cookies,
}
use pact_web.Auth.Session.Factors.{Registered, has_webauthn_factor_iff}
use pact_web.Auth.Session.Closed.{Confirms, validate_session-Confirms}

abbrev reads : Reads
reads = record {
  introspection = λ token.
      success 200
        (parsed (record { valid = some true; user_id = some "u1"; expires_at_unix = some 99 }));
  factors = λ token. unreachable;
  passkeys = λ token. unreachable;
  identities = λ token. unreachable;
}

abbrev security_key : RawFactor
security_key = record {
  factor_id = some "f1";
  kind = some "WebAuthn";
  label = none;
  verified = some true;
  created_at_unix = some 5;
}

-- The passkeys cannot be read, and the factors have a security key.
abbrev with_key : Reads
with_key = record reads { factors = λ token. success 200 (parsed (some (security_key ∷ []))) }

abbrev visitor : Session
visitor = record { user_id = "u1"; expires_at = 99000 }

validate_session-Confirms_example :
    (token : String) × (some "s1" ≡ some token)
    × (truthy token ≡ true)
    × Confirms (read_reply (reads.introspection token)) visitor
unfolding validate_session_from_cookies session_of read_reply auth_request
validate_session-Confirms_example = validate_session-Confirms 0 reads (some "s1") visitor refl

has_webauthn_factor_iff_example :
    (has_webauthn_factor false with_key (some "s1") ≡ true) ↔ Registered with_key (some "s1")
has_webauthn_factor_iff_example = has_webauthn_factor_iff with_key (some "s1")
