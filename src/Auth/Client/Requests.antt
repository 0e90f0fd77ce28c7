-- ===== src/Auth/Client/Requests.antt =====
-- src/framework/auth/pact_auth/client.ts: the methods of the client and the requests that they
-- send.
pub mod Paths
pub mod Secrets
pub mod Forwarding
use pact_web.Prelude.{if◌then◌else◌, Bool, Option, none, some, chain, List, [], ◌∷◌, String}
use pact_web.Prelude.Text.{truthy, truthy_opt, ◌<>◌}
use pact_web.Prelude.Json.{Json, bool, str, obj, Fields, end, field}
use pact_web.Prelude.Uri.{encode_uri_component}
use pact_web.Proxy.Headers.{Headers, get as header, set}
use pact_web.Proxy.ClientIp.{inbound_client_ip, append_forwarded_for}

-- The methods without a session. The bytes of an assertion are those of the JSON text of a value.
pub data PublicCall : Type 0 where
  login : (email password : String) → PublicCall
  register : (email password display_name return_to : String) → PublicCall
  request_password_reset : (email return_to : String) → PublicCall
  confirm_password_reset : (token new_password : String) → PublicCall
  verify_email : (token : String) → PublicCall
  resend_verification : (email return_to : String) → PublicCall
  verify_mfa : (mfa_token code : String) → (is_recovery : Bool) → PublicCall
  begin_mfa_passkey : (mfa_token : String) → PublicCall
  finish_mfa_passkey : (mfa_token ceremony_id : String) → (assertion : Json) → PublicCall
  start_login : (provider return_to : String) → PublicCall
  handle_callback : (provider code state signed_state : String) → PublicCall
  begin_passkey_login : (email : String) → PublicCall
  finish_passkey_login : (ceremony_id : String) → (assertion : Json) → PublicCall

-- The methods that take a session token too.
pub data SessionCall : Type 0 where
  validate_session revoke_session list_identities : SessionCall
  unlink_identity : (provider : String) → SessionCall
  begin_totp_enrollment : SessionCall
  confirm_totp_enrollment : (factor_id code : String) → SessionCall
  list_mfa_factors : SessionCall
  revoke_mfa_factor : (factor_id : String) → SessionCall
  regenerate_recovery_codes : SessionCall
  begin_passkey_registration : (label : String) → SessionCall
  finish_passkey_registration : (ceremony_id : String) → (attestation : Json) → SessionCall
  list_passkeys : SessionCall
  rename_passkey : (passkey_id label : String) → SessionCall
  delete_passkey : (passkey_id : String) → SessionCall

pub data AuthCall : Type 0 where
  public : PublicCall → AuthCall
  session : (token : String) → SessionCall → AuthCall

pub data Method : Type 0 where
  get post patch delete : Method

pub record AuthRequestOptions : Type 0 where
  pub method : Method
  pub path : String
  pub session_token : Option String
  pub body : Option Fields
  pub query : List (String × String)

-- An object with one text for each key.
abbrev texts : List (String × String) → Fields
texts [] = end
texts ((k, v) ∷ kvs) = field k (str v) (texts kvs)

abbrev sends : Method → String → Option Fields → AuthRequestOptions
sends method path body = record {
  method = method;
  path = path;
  session_token = none;
  body = body;
  query = [];
}

abbrev posts : String → List (String × String) → AuthRequestOptions
posts path kvs = sends Method.post path (some (texts kvs))

unfoldable pub public_options : PublicCall → AuthRequestOptions
public_options (PublicCall.login email password) =
    posts "/login" (("email", email) ∷ ("password", password) ∷ [])
public_options (PublicCall.register email password display_name return_to) = posts "/register" (
    ("email", email)
    ∷ ("password", password)
    ∷ ("displayName", display_name)
    ∷ ("returnTo", return_to)
    ∷ [])
public_options (PublicCall.request_password_reset email return_to) =
    posts "/password-reset/request" (("email", email) ∷ ("returnTo", return_to) ∷ [])
public_options (PublicCall.confirm_password_reset token new_password) =
    posts "/password-reset/confirm" (("token", token) ∷ ("newPassword", new_password) ∷ [])
public_options (PublicCall.verify_email token) = posts "/verify-email" (("token", token) ∷ [])
public_options (PublicCall.resend_verification email return_to) =
    posts "/verify-email/resend" (("email", email) ∷ ("returnTo", return_to) ∷ [])
public_options (PublicCall.verify_mfa mfa_token code is_recovery) =
    sends Method.post "/mfa/verify" (
      some (
        field "mfaToken" (str mfa_token)
          (field "code" (str code) (field "isRecovery" (bool is_recovery) end))))
public_options (PublicCall.begin_mfa_passkey mfa_token) =
    posts "/mfa/passkey/begin" (("mfaToken", mfa_token) ∷ [])
public_options (PublicCall.finish_mfa_passkey mfa_token ceremony_id assertion) =
    sends Method.post "/mfa/passkey/finish" (
      some (
        field "mfaToken" (str mfa_token)
          (field "ceremonyId" (str ceremony_id) (field "assertionJson" assertion end))))
public_options (PublicCall.start_login provider return_to) = record {
  method = Method.get;
  path = "/oauth/start";
  session_token = none;
  body = none;
  query = ("provider", provider) ∷ ("returnTo", return_to) ∷ [];
}
public_options (PublicCall.handle_callback provider code state signed_state) =
    posts ("/oauth/callback/" <> encode_uri_component provider)
      (("code", code) ∷ ("state", state) ∷ ("signedState", signed_state) ∷ [])
public_options (PublicCall.begin_passkey_login email) =
    posts "/passkeys/login/begin" (("email", email) ∷ [])
public_options (PublicCall.finish_passkey_login ceremony_id assertion) =
    sends Method.post "/passkeys/login/finish"
      (some (field "ceremonyId" (str ceremony_id) (field "assertionJson" assertion end)))

-- The requests of the session methods, before the token is added.
unfoldable pub session_options : SessionCall → AuthRequestOptions
session_options SessionCall.validate_session = sends Method.get "/session" none
session_options SessionCall.revoke_session = sends Method.post "/logout" none
session_options SessionCall.list_identities = sends Method.get "/identities" none
session_options (SessionCall.unlink_identity provider) =
    sends Method.delete ("/identities/" <> encode_uri_component provider) none
session_options SessionCall.begin_totp_enrollment = sends Method.post "/totp/enroll/begin" none
session_options (SessionCall.confirm_totp_enrollment factor_id code) =
    posts "/totp/enroll/confirm" (("factorId", factor_id) ∷ ("code", code) ∷ [])
session_options SessionCall.list_mfa_factors = sends Method.get "/mfa/factors" none
session_options (SessionCall.revoke_mfa_factor factor_id) =
    sends Method.delete ("/mfa/factors/" <> encode_uri_component factor_id) none
session_options SessionCall.regenerate_recovery_codes = sends Method.post "/mfa/recovery-codes" none
session_options (SessionCall.begin_passkey_registration label) =
    posts "/passkeys/register/begin" (("label", label) ∷ [])
session_options (SessionCall.finish_passkey_registration ceremony_id attestation) =
    sends Method.post "/passkeys/register/finish"
      (some (field "ceremonyId" (str ceremony_id) (field "attestationJson" attestation end)))
session_options SessionCall.list_passkeys = sends Method.get "/passkeys" none
session_options (SessionCall.rename_passkey passkey_id label) =
    sends Method.patch ("/passkeys/" <> encode_uri_component passkey_id)
      (some (texts (("label", label) ∷ [])))
session_options (SessionCall.delete_passkey passkey_id) =
    sends Method.delete ("/passkeys/" <> encode_uri_component passkey_id) none

unfoldable pub options_of : AuthCall → AuthRequestOptions
options_of (AuthCall.public call) = public_options call
options_of (AuthCall.session token call) =
    let opts = session_options call in
    record {
      method = opts.method;
      path = opts.path;
      session_token = some token;
      body = opts.body;
      query = opts.query;
    }

-- The target of a request, below the gateway's base.
pub record Target : Type 0 where
  pub method : Method
  pub path : String
  pub query : List (String × String)

unfoldable pub target : AuthRequestOptions → Target
target opts = record { method = opts.method; path = "/v1/auth" <> opts.path; query = opts.query }

-- `headers.set('authorization', …)` for a token that is not empty.
abbrev bearer : Option String → Headers → Headers
bearer none headers = headers
bearer (some token) headers =
    if truthy token then set "authorization" ("Bearer " <> token) headers else headers

-- The headers but for the address.
abbrev pub own_headers : Option String → Option Fields → Headers
own_headers token none = bearer token []
own_headers token (some body) = bearer token (("content-type", "application/json") ∷ [])

abbrev pub set_forwarded : Option String → Headers → Headers
set_forwarded none headers = headers
set_forwarded (some forwarded_for) headers =
    if truthy forwarded_for then set "x-forwarded-for" forwarded_for headers else headers

-- The address of the request that is served, if there is one, appended.
abbrev pub with_address : Option Headers → Headers → Headers
with_address none headers = headers
with_address (some inbound) headers =
    set_forwarded
      (append_forwarded_for (header "x-forwarded-for" headers) (inbound_client_ip inbound)) headers

-- The headers of the request; `inbound` are those of the request that is served.
unfoldable pub request_headers : Option Headers → AuthRequestOptions → Headers
request_headers inbound opts = with_address inbound (own_headers opts.session_token opts.body)
