-- ===== src/Auth/Client.antt =====
-- src/framework/auth/pact_auth/client.ts: `authRequest`, and the sessions that it returns.
pub mod ErrorMessages
pub mod Requests
pub mod Replies
pub mod Tests
use pact_web.Prelude.{
  ℕ, eqb, if◌then◌else◌, Bool, true, false, ◌&&◌, Option, none, some, chain, get_or_else, String,
  ◌==◌,
}
use pact_web.Prelude.Text.{truthy, ◌<>◌, show}
use pact_web.Prelude.Objects.{is_inherited}
use pact_web.Prelude.Json.{Json, obj, arr, str, Fields, get}
use pact_web.Prelude.Result.{Result, ok, err, ◌>>=◌}
use pact_web.Auth.Errors.{Code, Thrown, connect_error, other}

-- `httpStatusToCode`
unfoldable pub http_status_to_code : ℕ → Code
http_status_to_code status =
    if eqb status 400
    then Code.invalid_argument
    else if eqb status 401
    then Code.unauthenticated
    else if eqb status 403
    then Code.permission_denied
    else if eqb status 404
    then Code.not_found
    else if eqb status 409
    then Code.already_exists
    else if eqb status 429
    then Code.resource_exhausted
    else if eqb status 501
    then Code.unimplemented
    else if eqb status 503
    then Code.unavailable
    else if eqb status 504
    then Code.deadline_exceeded
    else Code.unknown

-- `GATEWAY_BODY_CODE_TO_CODE[slug]`
unfoldable pub gateway_body_code_to_code : String → Option Code
gateway_body_code_to_code slug =
    if slug == "invalid_argument"
    then some Code.invalid_argument
    else if slug == "failed_precondition"
    then some Code.failed_precondition
    else if slug == "out_of_range"
    then some Code.out_of_range
    else if slug == "not_found"
    then some Code.not_found
    else if slug == "already_exists"
    then some Code.already_exists
    else if slug == "permission_denied"
    then some Code.permission_denied
    else if slug == "unauthenticated"
    then some Code.unauthenticated
    else if slug == "resource_exhausted"
    then some Code.resource_exhausted
    else if slug == "timeout"
    then some Code.deadline_exceeded
    else if slug == "unavailable"
    then some Code.unavailable
    else if slug == "unimplemented"
    then some Code.unimplemented
    else if slug == "upstream_error"
    then some Code.internal
    else if is_inherited slug
    then some Code.inherited
    else none

-- A response text: empty, no JSON, or what `JSON.parse` gives.
pub data Body (T : Type 0) : Type 0 where
  empty : Body T
  not_json : Body T
  parsed : T → Body T

-- How the `fetch` ends. A 2xx body is cast to the type of the call, as in the source.
pub data Answer (T : Type 0) : Type 0 where
  unreachable : Answer T
  success : ℕ → Body T → Answer T
  failure : ℕ → Body Json → Answer T

-- `parseGatewayErrorBody`: the fields of an object; an array has none of them.
unfoldable pub parse_gateway_error_body : Body Json → Option Fields
parse_gateway_error_body (parsed (obj fs)) = some fs
parse_gateway_error_body _ = none

-- `typeof value === 'string' ? value : undefined`
abbrev pub string_value : Option Json → Option String
string_value (some (str s)) = some s
string_value _ = none

abbrev pub string_field : String → Option Fields → Option String
string_field key none = none
string_field key (some fs) = string_value (get key fs)

unfoldable pub unexpected_upstream_response : ℕ → Code → Thrown
unexpected_upstream_response status code =
    connect_error code ("pact-gateway returned HTTP " <> show status)

-- What a response with an error status throws.
unfoldable pub thrown_by : ℕ → Body Json → Thrown
thrown_by status body =
    let fields = parse_gateway_error_body body in
    let body_code = chain (string_field "code" fields) gateway_body_code_to_code in
    let code = get_or_else body_code (http_status_to_code status) in
    elim (string_field "error" fields) [
      | none ↦ unexpected_upstream_response status code
      | some message ↦
          if truthy message
          then connect_error code message
          else unexpected_upstream_response status code
    ]

-- `authRequest` behind its request; `none` is the `undefined` of an empty text.
unfoldable pub auth_request : {T : Type 0} → Answer T → Result Thrown (Option T)
auth_request unreachable = err (connect_error Code.unavailable "pact-gateway unreachable")
auth_request (failure status body) = err (thrown_by status body)
auth_request (success status empty) = ok none
auth_request (success status not_json) = err (unexpected_upstream_response status Code.unavailable)
auth_request (success status (parsed value)) = ok (some value)

-- `AuthSessionResponse` and `AuthSessionResult`.
pub record RawSession : Type 0 where
  pub session_token : Option String
  pub refresh_token : Option String
  pub user_id : Option String
  pub expires_at_unix : Option ℕ
  pub mfa_required : Option Bool
  pub mfa_token : Option String
  pub return_to : Option String

pub record SessionResult : Type 0 where
  pub session_token : String
  pub refresh_token : String
  pub user_id : String
  pub expires_at_unix : ℕ
  pub mfa_required : Bool
  pub mfa_token : String
  pub return_to : String

unfoldable pub to_session_result : RawSession → SessionResult
to_session_result raw = record {
  session_token = get_or_else raw.session_token "";
  refresh_token = get_or_else raw.refresh_token "";
  user_id = get_or_else raw.user_id "";
  expires_at_unix = get_or_else raw.expires_at_unix 0;
  mfa_required = get_or_else raw.mfa_required false;
  mfa_token = get_or_else raw.mfa_token "";
  return_to = get_or_else raw.return_to "";
}

-- A session call of the client. Reading a field of `undefined` throws a TypeError.
unfoldable pub session_call : Answer RawSession → Result Thrown SessionResult
unfolding auth_request
session_call answer = do
  raw ← auth_request answer
  elim raw [ none ↦ err other | some r ↦ ok (to_session_result r) ]
