-- ===== src/Auth/Settings/BeginPasskey.antt =====
-- app/api/auth/passkey/register/begin/route.ts, behind its session gate: the call that a request asks for, and the
-- response to the outcome of the call.
use Prim.Native.Char.{code}
use Prim.Native.String.{[], ◌∷◌}
use pact_web.Prelude.{ltb, zero, suc, ℕ, if◌then◌else◌, Option, none, String}
use pact_web.Prelude.Text.{truthy}
use pact_web.Prelude.Json.{Json}
use pact_web.Prelude.Result.{Result, ok, err, ◌>>=◌}
use pact_web.Auth.Errors.{Code, Thrown, connect_error}
use pact_web.Auth.Client.{Answer}
use pact_web.Auth.Client.Requests.{SessionCall}
use pact_web.Auth.Client.Replies.{RawReply, read_reply, to_ceremony_result}
use pact_web.Auth.Routes.{error, ApiResponse, respond, session_expired_response}
use pact_web.Auth.Settings.Gate.{body_of, failed, ceremony_response, label_of, max_label}

-- `s.slice(0, n)`. The first half of a pair that the cut leaves is no text of its own: U+FFFD
-- stands for it here.
unfoldable pub first_units : ℕ → String → String
first_units zero s = []
first_units n [] = []
first_units (suc zero) (c ∷ s) = if ltb (code c) 0x10000 then c ∷ [] else "�"
first_units (suc (suc n)) (c ∷ s) =
    let rest = first_units (suc n) s in
    let after_pair = first_units n s in if ltb (code c) 0x10000 then c ∷ rest else c ∷ after_pair

-- A label that was left out has a default.
unfoldable pub enrolled_label : String → String
enrolled_label raw = if truthy raw then first_units max_label raw else "Passkey"

unfoldable pub prepare : Option Json → Result ApiResponse SessionCall
prepare request = do
  body ← body_of request
  ok (SessionCall.begin_passkey_registration (enrolled_label (label_of body)))

unfoldable pub on_error : Thrown → ApiResponse
on_error (connect_error Code.unauthenticated message) = session_expired_response
on_error (connect_error Code.invalid_argument message) = respond 400 (error message none)
on_error (connect_error Code.resource_exhausted message) =
    respond 429 (error "too many attempts, try again later" none)
on_error thrown = failed "could not start passkey enrollment"

unfoldable pub response : Result Thrown RawReply → ApiResponse
response (err thrown) = on_error thrown
response (ok raw) = ceremony_response (to_ceremony_result raw)

unfoldable pub answer : Answer RawReply → ApiResponse
answer reply = response (read_reply reply)
