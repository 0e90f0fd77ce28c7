-- ===== src/Auth/Settings/Outcome.antt =====
-- The settings routes implement one abstract gate, whatever their messages are.
use pact_web.Prelude.{
  ◌≡◌, refl, eqb, if◌then◌else◌, Bool-cases, inl, inr, Option, none, some, [], String, arith,
}
use pact_web.Prelude.Text.{truthy}
use pact_web.Prelude.Json.{Json}
use pact_web.Prelude.Result.{Result, ok, err}
use pact_web.Auth.Errors.{Code, Thrown, connect_error}
use pact_web.Auth.Client.{Answer}
use pact_web.Auth.Client.Requests.{SessionCall}
use pact_web.Auth.Client.Replies.{
  RawReply, read_reply, void_call, parse_ceremony_options, to_ceremony_result,
}
use pact_web.Auth.Routes.{ApiResponse}
use pact_web.Auth.Settings.{SettingsRoute, prepared, answered, responded, settings_route}
use pact_web.Auth.Settings.Gate.{ceremony_response}
use pact_web.Auth.Settings.Checked.{IsPrepared, prepared-IsPrepared}
use pact_web.Auth.Settings.EnrollBegin
use pact_web.Auth.Settings.EnrollConfirm
use pact_web.Auth.Settings.RevokeFactor
use pact_web.Auth.Settings.RecoveryCodes
use pact_web.Auth.Settings.BeginPasskey
use pact_web.Auth.Settings.FinishPasskey
use pact_web.Auth.Settings.RenamePasskey
use pact_web.Auth.Settings.DeletePasskey
use pact_web.Auth.Settings.UnlinkIdentity

-- What a route says in the end.
pub data Verdict : Type 0 where
  unsigned refused accepted : Verdict

abbrev verdict_of : ApiResponse → Verdict
verdict_of response =
    if eqb response.status 200
    then Verdict.accepted
    else if eqb response.status 401
    then Verdict.unsigned
    else Verdict.refused

abbrev forget : Result Thrown RawReply → Result Thrown (Unit {0})
forget (ok raw) = ok tt
forget (err thrown) = err thrown

-- Whether a route reads the gateway's reply.
abbrev reads_reply : SettingsRoute → Answer RawReply → Result Thrown (Unit {0})
reads_reply SettingsRoute.revoke_factor reply = void_call reply
reads_reply SettingsRoute.rename_passkey reply = void_call reply
reads_reply SettingsRoute.delete_passkey reply = void_call reply
reads_reply SettingsRoute.unlink_identity reply = void_call reply
reads_reply r reply = forget (read_reply reply)

abbrev verdict_of_thrown : Thrown → Verdict
verdict_of_thrown (connect_error Code.unauthenticated message) = Verdict.unsigned
verdict_of_thrown thrown = Verdict.refused

abbrev verdict_of_outcome : Result Thrown (Unit {0}) → Verdict
verdict_of_outcome (ok v) = Verdict.accepted
verdict_of_outcome (err thrown) = verdict_of_thrown thrown

abbrev prepared_verdict :
    SettingsRoute
    → (String → SessionCall → Answer RawReply)
    → String
    → Result ApiResponse SessionCall
    → Verdict
prepared_verdict r gateway token (err refusal) = Verdict.refused
prepared_verdict r gateway token (ok call) = verdict_of_outcome (reads_reply r (gateway token call))

-- The abstract gate: a session, a request that is well formed, and then the gateway's word.
abbrev pub gate :
    SettingsRoute → (String → SessionCall → Answer RawReply) → Option String → Option Json → Verdict
gate r gateway none request = Verdict.unsigned
gate r gateway (some token) request =
    if truthy token then prepared_verdict r gateway token (prepared r request) else Verdict.unsigned

-- The response has the verdict, and writes no cookie.
unfoldable pub Settles : ApiResponse → Verdict → Type 0
Settles response verdict = (verdict_of response ≡ verdict) × (response.cookies ≡ [])

enroll_begin-Settles :
    (outcome : Result Thrown RawReply)
    → Settles (EnrollBegin.response outcome) (verdict_of_outcome (forget outcome))
unfolding EnrollBegin.response EnrollBegin.on_error Settles
enroll_begin-Settles (err thrown) = (ground arith, ground arith)
enroll_begin-Settles (ok raw) = (refl, refl)

enroll_confirm-Settles :
    (outcome : Result Thrown RawReply)
    → Settles (EnrollConfirm.response outcome) (verdict_of_outcome (forget outcome))
unfolding EnrollConfirm.response EnrollConfirm.on_error Settles
enroll_confirm-Settles (err thrown) = (ground arith, ground arith)
enroll_confirm-Settles (ok raw) = (refl, refl)

revoke_factor-Settles :
    (outcome : Result Thrown (Unit {0}))
    → Settles (RevokeFactor.response outcome) (verdict_of_outcome outcome)
unfolding RevokeFactor.response RevokeFactor.on_error Settles
revoke_factor-Settles (err thrown) = (ground arith, ground arith)
revoke_factor-Settles (ok raw) = (refl, refl)

recovery_codes-Settles :
    (outcome : Result Thrown RawReply)
    → Settles (RecoveryCodes.response outcome) (verdict_of_outcome (forget outcome))
unfolding RecoveryCodes.response RecoveryCodes.on_error Settles
recovery_codes-Settles (err thrown) = (ground arith, ground arith)
recovery_codes-Settles (ok raw) = (refl, refl)

begin_passkey-Settles :
    (outcome : Result Thrown RawReply)
    → Settles (BeginPasskey.response outcome) (verdict_of_outcome (forget outcome))
unfolding BeginPasskey.response BeginPasskey.on_error Settles ceremony_response to_ceremony_result
    parse_ceremony_options
begin_passkey-Settles (err thrown) = (ground arith, ground arith)
begin_passkey-Settles (ok raw) = (refl, refl)

finish_passkey-Settles :
    (outcome : Result Thrown RawReply)
    → Settles (FinishPasskey.response outcome) (verdict_of_outcome (forget outcome))
unfolding FinishPasskey.response FinishPasskey.on_error Settles
finish_passkey-Settles (err thrown) = (ground arith, ground arith)
finish_passkey-Settles (ok raw) = (refl, refl)

rename_passkey-Settles :
    (outcome : Result Thrown (Unit {0}))
    → Settles (RenamePasskey.response outcome) (verdict_of_outcome outcome)
unfolding RenamePasskey.response RenamePasskey.on_error Settles
rename_passkey-Settles (err thrown) = (ground arith, ground arith)
rename_passkey-Settles (ok raw) = (refl, refl)

delete_passkey-Settles :
    (outcome : Result Thrown (Unit {0}))
    → Settles (DeletePasskey.response outcome) (verdict_of_outcome outcome)
unfolding DeletePasskey.response DeletePasskey.on_error Settles
delete_passkey-Settles (err thrown) = (ground arith, ground arith)
delete_passkey-Settles (ok raw) = (refl, refl)

unlink_identity-Settles :
    (outcome : Result Thrown (Unit {0}))
    → Settles (UnlinkIdentity.response outcome) (verdict_of_outcome outcome)
unfolding UnlinkIdentity.response UnlinkIdentity.on_error Settles
unlink_identity-Settles (err thrown) = (ground arith, ground arith)
unlink_identity-Settles (ok raw) = (refl, refl)

answered-Settles :
    (r : SettingsRoute) (reply : Answer RawReply)
    → Settles (answered r reply) (verdict_of_outcome (reads_reply r reply))
unfolding EnrollBegin.answer EnrollConfirm.answer RevokeFactor.answer RecoveryCodes.answer
    BeginPasskey.answer FinishPasskey.answer RenamePasskey.answer DeletePasskey.answer
    UnlinkIdentity.answer
answered-Settles SettingsRoute.enroll_begin reply = enroll_begin-Settles (read_reply reply)
answered-Settles SettingsRoute.enroll_confirm reply = enroll_confirm-Settles (read_reply reply)
answered-Settles SettingsRoute.revoke_factor reply = revoke_factor-Settles (void_call reply)
answered-Settles SettingsRoute.recovery_codes reply = recovery_codes-Settles (read_reply reply)
answered-Settles SettingsRoute.begin_passkey reply = begin_passkey-Settles (read_reply reply)
answered-Settles SettingsRoute.finish_passkey reply = finish_passkey-Settles (read_reply reply)
answered-Settles SettingsRoute.rename_passkey reply = rename_passkey-Settles (void_call reply)
answered-Settles SettingsRoute.delete_passkey reply = delete_passkey-Settles (void_call reply)
answered-Settles SettingsRoute.unlink_identity reply = unlink_identity-Settles (void_call reply)

responded-Settles :
    (r : SettingsRoute) (gateway : String → SessionCall → Answer RawReply) (token : String)
    (p : Result ApiResponse SessionCall)
    → IsPrepared p
    → Settles (responded r gateway token p) (prepared_verdict r gateway token p)
unfolding Settles
responded-Settles r gateway token (err refusal) (status, cookies) = (rw status refl, cookies)
responded-Settles r gateway token (ok call) w = answered-Settles r (gateway token call)

-- Every settings route refines the gate: without a session it says 401, a malformed request and
-- a failure that is not about the session get another error status, and 200 is the answer exactly
-- where the gateway's call succeeds. It writes no cookie, an expired session included.
pub settings_route-Settles :
    (r : SettingsRoute) (gateway : String → SessionCall → Answer RawReply) (session : Option String)
    (request : Option Json)
    → Settles (settings_route r gateway session request) (gate r gateway session request)
unfolding settings_route Settles
settings_route-Settles r gateway none request = (refl, refl)
settings_route-Settles r gateway (some token) request = elim (Bool-cases (truthy token)) [
  | inl full ↦
      rw full
        (responded-Settles r gateway token (prepared r request) (prepared-IsPrepared r request))
  | inr empty ↦ rw empty (refl, refl)
]
