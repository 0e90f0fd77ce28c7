-- ===== src/Auth/Client/Requests/Secrets.antt =====
-- What a request shows in its target: no secret.
use pact_web.Prelude.{◌≡◌, refl, String}
use pact_web.Prelude.Json.{null}
use pact_web.Auth.Client.Requests.{
  PublicCall, SessionCall, AuthCall, options_of, public_options, session_options, target,
}

-- The call with everything left out but the identifiers that its target names.
abbrev public_redacted : PublicCall → PublicCall
public_redacted (PublicCall.login email password) = PublicCall.login "" ""
public_redacted (PublicCall.register email password display_name return_to) =
    PublicCall.register "" "" "" ""
public_redacted (PublicCall.request_password_reset email return_to) =
    PublicCall.request_password_reset "" ""
public_redacted (PublicCall.confirm_password_reset token new_password) =
    PublicCall.confirm_password_reset "" ""
public_redacted (PublicCall.verify_email token) = PublicCall.verify_email ""
public_redacted (PublicCall.resend_verification email return_to) =
    PublicCall.resend_verification "" ""
public_redacted (PublicCall.verify_mfa mfa_token code is_recovery) =
    PublicCall.verify_mfa "" "" is_recovery
public_redacted (PublicCall.begin_mfa_passkey mfa_token) = PublicCall.begin_mfa_passkey ""
public_redacted (PublicCall.finish_mfa_passkey mfa_token ceremony_id assertion) =
    PublicCall.finish_mfa_passkey "" "" null
public_redacted (PublicCall.start_login provider return_to) =
    PublicCall.start_login provider return_to
public_redacted (PublicCall.handle_callback provider code state signed_state) =
    PublicCall.handle_callback provider "" "" ""
public_redacted (PublicCall.begin_passkey_login email) = PublicCall.begin_passkey_login ""
public_redacted (PublicCall.finish_passkey_login ceremony_id assertion) =
    PublicCall.finish_passkey_login "" null

abbrev session_redacted : SessionCall → SessionCall
session_redacted (SessionCall.confirm_totp_enrollment factor_id code) =
    SessionCall.confirm_totp_enrollment "" ""
session_redacted (SessionCall.begin_passkey_registration label) =
    SessionCall.begin_passkey_registration ""
session_redacted (SessionCall.finish_passkey_registration ceremony_id attestation) =
    SessionCall.finish_passkey_registration "" null
session_redacted (SessionCall.rename_passkey passkey_id label) =
    SessionCall.rename_passkey passkey_id ""
session_redacted call = call

abbrev pub redacted : AuthCall → AuthCall
redacted (AuthCall.public call) = AuthCall.public (public_redacted call)
redacted (AuthCall.session token call) = AuthCall.session "" (session_redacted call)

target-public :
    (call : PublicCall)
    → target (options_of (AuthCall.public call))
      ≡ target (options_of (redacted (AuthCall.public call)))
unfolding options_of public_options target
target-public (PublicCall.login email password) = refl
target-public (PublicCall.register email password display_name return_to) = refl
target-public (PublicCall.request_password_reset email return_to) = refl
target-public (PublicCall.confirm_password_reset token new_password) = refl
target-public (PublicCall.verify_email token) = refl
target-public (PublicCall.resend_verification email return_to) = refl
target-public (PublicCall.verify_mfa mfa_token code is_recovery) = refl
target-public (PublicCall.begin_mfa_passkey mfa_token) = refl
target-public (PublicCall.finish_mfa_passkey mfa_token ceremony_id assertion) = refl
target-public (PublicCall.start_login provider return_to) = refl
target-public (PublicCall.handle_callback provider code state signed_state) = refl
target-public (PublicCall.begin_passkey_login email) = refl
target-public (PublicCall.finish_passkey_login ceremony_id assertion) = refl

target-session :
    (token : String) (call : SessionCall)
    → target (options_of (AuthCall.session token call))
      ≡ target (options_of (redacted (AuthCall.session token call)))
unfolding options_of session_options target
target-session token SessionCall.validate_session = refl
target-session token SessionCall.revoke_session = refl
target-session token SessionCall.list_identities = refl
target-session token (SessionCall.unlink_identity provider) = refl
target-session token SessionCall.begin_totp_enrollment = refl
target-session token (SessionCall.confirm_totp_enrollment factor_id code) = refl
target-session token SessionCall.list_mfa_factors = refl
target-session token (SessionCall.revoke_mfa_factor factor_id) = refl
target-session token SessionCall.regenerate_recovery_codes = refl
target-session token (SessionCall.begin_passkey_registration label) = refl
target-session token (SessionCall.finish_passkey_registration ceremony_id attestation) = refl
target-session token SessionCall.list_passkeys = refl
target-session token (SessionCall.rename_passkey passkey_id label) = refl
target-session token (SessionCall.delete_passkey passkey_id) = refl

-- The method, the path and the query of a call are those of the call without its e-mail address,
-- passwords, codes, tokens, labels and assertions.
pub target-redacted :
    (call : AuthCall) → target (options_of call) ≡ target (options_of (redacted call))
target-redacted (AuthCall.public call) = target-public call
target-redacted (AuthCall.session token call) = target-session token call
