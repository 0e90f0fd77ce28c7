-- ===== src/Auth/Errors/Mapping.antt =====
-- The status and the code of a mapped error say the same.
use pact_web.Prelude.{ℕ, ◌≡◌, arith}
use pact_web.Auth.Errors.{Thrown, AuthErrorCode, map_pact_auth_error}

-- The HTTP status that each code of the routes goes with.
abbrev status_of : AuthErrorCode → ℕ
status_of AuthErrorCode.validation_error = 400
status_of AuthErrorCode.rate_limited = 429
status_of AuthErrorCode.unauthorized = 401
status_of AuthErrorCode.forbidden = 403
status_of AuthErrorCode.not_found = 404
status_of AuthErrorCode.conflict = 409
status_of AuthErrorCode.unavailable = 503
status_of AuthErrorCode.unknown = 500

-- Whatever was thrown, the status of the mapped error is the one that its code goes with.
status-map_pact_auth_error :
    (thrown : Thrown)
    → (map_pact_auth_error thrown).status ≡ status_of (map_pact_auth_error thrown).code
unfolding map_pact_auth_error
status-map_pact_auth_error thrown = ground arith
