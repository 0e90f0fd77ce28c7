-- ===== src/Auth/Settings.antt =====
-- The settings routes of app/api/auth: what an account's owner may change of the ways to sign in.
-- Every route takes the session from the cookie, checks its body, calls the gateway once and writes
-- no cookie.
pub mod Gate
pub mod EnrollBegin
pub mod EnrollConfirm
pub mod RevokeFactor
pub mod RecoveryCodes
pub mod BeginPasskey
pub mod FinishPasskey
pub mod RenamePasskey
pub mod DeletePasskey
pub mod UnlinkIdentity
pub mod Labels
pub mod Checked
pub mod Outcome
pub mod Tests
use pact_web.Prelude.{if◌then◌else◌, Option, none, some, String}
use pact_web.Prelude.Text.{truthy}
use pact_web.Prelude.Json.{Json}
use pact_web.Prelude.Result.{Result, ok, err}
use pact_web.Auth.Client.{Answer}
use pact_web.Auth.Client.Requests.{SessionCall}
use pact_web.Auth.Client.Replies.{RawReply}
use pact_web.Auth.Routes.{ApiResponse, not_signed_in_response}
use pact_web.Auth.Settings.EnrollBegin
use pact_web.Auth.Settings.EnrollConfirm
use pact_web.Auth.Settings.RevokeFactor
use pact_web.Auth.Settings.RecoveryCodes
use pact_web.Auth.Settings.BeginPasskey
use pact_web.Auth.Settings.FinishPasskey
use pact_web.Auth.Settings.RenamePasskey
use pact_web.Auth.Settings.DeletePasskey
use pact_web.Auth.Settings.UnlinkIdentity

pub data SettingsRoute : Type 0 where
  enroll_begin enroll_confirm revoke_factor recovery_codes : SettingsRoute
  begin_passkey finish_passkey rename_passkey delete_passkey unlink_identity : SettingsRoute

-- The call that a route makes for a request, or its refusal.
abbrev pub prepared : SettingsRoute → Option Json → Result ApiResponse SessionCall
prepared SettingsRoute.enroll_begin request = ok SessionCall.begin_totp_enrollment
prepared SettingsRoute.enroll_confirm request = EnrollConfirm.prepare request
prepared SettingsRoute.revoke_factor request = RevokeFactor.prepare request
prepared SettingsRoute.recovery_codes request = ok SessionCall.regenerate_recovery_codes
prepared SettingsRoute.begin_passkey request = BeginPasskey.prepare request
prepared SettingsRoute.finish_passkey request = FinishPasskey.prepare request
prepared SettingsRoute.rename_passkey request = RenamePasskey.prepare request
prepared SettingsRoute.delete_passkey request = DeletePasskey.prepare request
prepared SettingsRoute.unlink_identity request = UnlinkIdentity.prepare request

abbrev pub answered : SettingsRoute → Answer RawReply → ApiResponse
answered SettingsRoute.enroll_begin reply = EnrollBegin.answer reply
answered SettingsRoute.enroll_confirm reply = EnrollConfirm.answer reply
answered SettingsRoute.revoke_factor reply = RevokeFactor.answer reply
answered SettingsRoute.recovery_codes reply = RecoveryCodes.answer reply
answered SettingsRoute.begin_passkey reply = BeginPasskey.answer reply
answered SettingsRoute.finish_passkey reply = FinishPasskey.answer reply
answered SettingsRoute.rename_passkey reply = RenamePasskey.answer reply
answered SettingsRoute.delete_passkey reply = DeletePasskey.answer reply
answered SettingsRoute.unlink_identity reply = UnlinkIdentity.answer reply

-- The response to a prepared call, or the refusal.
abbrev pub responded :
    SettingsRoute
    → (String → SessionCall → Answer RawReply)
    → String
    → Result ApiResponse SessionCall
    → ApiResponse
responded r gateway token (err refusal) = refusal
responded r gateway token (ok call) = answered r (gateway token call)

-- `POST` of a route: `gateway` answers a call for a session token, and `session` is the cookie.
unfoldable pub settings_route :
    SettingsRoute
    → (String → SessionCall → Answer RawReply)
    → Option String
    → Option Json
    → ApiResponse
settings_route r gateway none request = not_signed_in_response
settings_route r gateway (some token) request =
    if truthy token then responded r gateway token (prepared r request) else not_signed_in_response
