-- ===== src/Auth/MfaPasskey/Retry.antt =====
-- When a passkey step-up may be tried again with the same challenge.
use pact_web.Prelude.{◌≡◌, refl, Bool, true, false, if◌then◌else◌, none, some, arith}
use pact_web.Prelude.Result.{Result, ok, err}
use pact_web.Cookies.{delete, written, put, mfa_token_cookie}
use pact_web.Auth.Errors.{Code, Thrown, connect_error, other}
use pact_web.Auth.Client.{SessionResult}
use pact_web.Auth.Routes.{mapped_response}
use pact_web.Auth.MfaVerify.{verify_response}
use pact_web.Auth.MfaVerify.Challenge.{mfa_token-verify_response}
use pact_web.Auth.MfaPasskey.{finish_response, finish_mfa_passkey_error_response}

-- The answers after which the challenge is spent.
abbrev spends_challenge : Result Thrown SessionResult → Bool
spends_challenge (ok s) = true
spends_challenge (err (connect_error Code.unauthenticated message)) = true
spends_challenge (err thrown) = false

-- After the gateway's answer to an assertion, the challenge's cookie is deleted exactly where the
-- step-up succeeded or the gateway answered Unauthenticated, with whatever message.
pub mfa_token-finish_response :
    (production : Bool) (answer : Result Thrown SessionResult)
    → written mfa_token_cookie (finish_response production answer).cookies
      ≡ (if spends_challenge answer then some delete else none)
unfolding finish_response finish_mfa_passkey_error_response mapped_response written put
    verify_response
mfa_token-finish_response production (ok s) = mfa_token-verify_response production (ok s)
mfa_token-finish_response production (err (connect_error Code.unauthenticated m)) = ground arith
mfa_token-finish_response production (err (connect_error _ m)) = refl
mfa_token-finish_response production (err other) = refl
