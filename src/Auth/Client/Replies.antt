-- ===== src/Auth/Client/Replies.antt =====
-- src/framework/auth/pact_auth/client.ts: what the methods make of the gateway's replies.
use pact_web.Prelude.{Option, none, some, get_or_else, List, [], String}
use pact_web.Prelude.Json.{Json, obj, null, end, get}
use pact_web.Prelude.Result.{Result, ok, err, ◌>>=◌}
use pact_web.Auth.Errors.{Thrown, other}
use pact_web.Auth.Client.{Body, parsed, Answer, auth_request}

-- The fields that the settings methods read of a reply, each method its own.
pub record RawReply : Type 0 where
  pub factor_id : Option String
  pub secret : Option String
  pub otpauth_url : Option String
  pub recovery_codes : Option (List String)
  pub ceremony_id : Option String
  pub options_json : Option Json
  pub credential_id : Option String

-- The reply of a call; reading a field of `undefined` throws a TypeError.
unfoldable pub read_reply : {T : Type 0} → Answer T → Result Thrown T
unfolding auth_request
read_reply answer = do raw ← auth_request answer; elim raw [ none ↦ err other | some r ↦ ok r ]

-- A call whose reply is not read.
unfoldable pub void_call : {T : Type 0} → Answer T → Result Thrown (Unit {0})
unfolding auth_request
void_call answer = auth_request answer >>= λ reply. ok tt

pub record TotpEnrollment : Type 0 where
  pub factor_id : String
  pub secret : String
  pub otpauth_url : String

unfoldable pub enrollment_result : RawReply → TotpEnrollment
enrollment_result raw = record {
  factor_id = get_or_else raw.factor_id "";
  secret = get_or_else raw.secret "";
  otpauth_url = get_or_else raw.otpauth_url "";
}

unfoldable pub recovery_codes_result : RawReply → List String
recovery_codes_result raw = get_or_else raw.recovery_codes []

-- The bytes of the options stand for the value of their JSON text.
pub record CeremonyResult : Type 0 where
  pub ceremony_id : String
  pub options_json : Body Json

-- `v ?? {}`
abbrev or_empty : Option Json → Json
or_empty none = obj end
or_empty (some null) = obj end
or_empty (some v) = v

unfoldable pub to_ceremony_result : RawReply → CeremonyResult
to_ceremony_result raw = record {
  ceremony_id = get_or_else raw.ceremony_id "";
  options_json = parsed (or_empty raw.options_json);
}

-- The codes stay absent where the gateway sent none.
pub record PasskeyRegistration : Type 0 where
  pub credential_id : String
  pub recovery_codes : Option (List String)

unfoldable pub registration_result : RawReply → PasskeyRegistration
registration_result raw = record {
  credential_id = get_or_else raw.credential_id "";
  recovery_codes = raw.recovery_codes;
}

-- `publicKey` of an object that has it, and the value itself otherwise.
abbrev unwrapped : Json → Json
unwrapped (obj fs) = get_or_else (get "publicKey" fs) (obj fs)
unwrapped v = v

-- `parseCeremonyOptions` of route_helpers.ts: `none` for a text that is no JSON.
unfoldable pub parse_ceremony_options : Body Json → Option Json
parse_ceremony_options (parsed v) = some (unwrapped v)
parse_ceremony_options _ = none
