-- ===== src/Auth/Logout.antt =====
-- app/api/auth/logout/route.ts
pub mod Clearing
use pact_web.Prelude.{if◌then◌else◌, Bool, Option, none, some, []}
use pact_web.Prelude.{String}
use pact_web.Prelude.Text.{truthy}
use pact_web.Prelude.Result.{Result, ok, err}
use pact_web.Cookies.{clear_session_cookies}
use pact_web.Auth.Errors.{Thrown}
use pact_web.Auth.Client.{Answer, auth_request}
use pact_web.Auth.Routes.{done, ApiResponse}

-- The session that is revoked.
unfoldable pub revoked_session : Option String → Option String
revoked_session none = none
revoked_session (some token) = if truthy token then some token else none

-- The call that revokes; its failure is swallowed.
unfoldable pub revoke : (String → Answer (Unit {0})) → Option String → Result Thrown (Unit {0})
revoke gateway session = elim (revoked_session session) [
  | none ↦ ok tt
  | some token ↦ elim (auth_request (gateway token)) [ ok v ↦ ok tt | err thrown ↦ err thrown ]
]

module _ (production : Bool) where
  unfoldable pub cleared : Result Thrown (Unit {0}) → ApiResponse
  cleared outcome = record {
    status = 200;
    body = done;
    cookies = clear_session_cookies production [];
  }

  -- `POST`, where `gateway` answers the revocation of a session.
  unfoldable pub logout : (String → Answer (Unit {0})) → Option String → ApiResponse
  logout gateway session = cleared (revoke gateway session)
