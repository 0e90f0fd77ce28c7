-- ===== src/Auth/Errors.antt =====
-- src/framework/auth/pact_auth/errors.ts: what a thrown error becomes.
pub mod Mapping
use Prim.Native.Char.{Char, code}
use Prim.Native.String.{[], ◌∷◌}
use pact_web.Prelude.{
  ℕ, eqb, leb, if◌then◌else◌, Bool, true, false, ◌&&◌, ◌||◌, Option, none, some, String, ◌==◌,
  get_or_else,
}
use pact_web.Prelude.Text.{truthy}
use pact_web.Prelude.Trim.{trim}

-- The codes of ConnectRPC; `inherited` is none of them, but what a look-up of a code in a plain
-- object finds in `Object.prototype`.
pub data Code : Type 0 where
  canceled unknown invalid_argument deadline_exceeded not_found already_exists : Code
  permission_denied resource_exhausted failed_precondition aborted out_of_range : Code
  unimplemented internal unavailable data_loss unauthenticated : Code
  inherited : Code

-- A `ConnectError` with its raw message, or anything else that was thrown.
pub data Thrown : Type 0 where
  connect_error : Code → String → Thrown
  other : Thrown

pub data AuthErrorCode : Type 0 where
  validation_error rate_limited unauthorized forbidden not_found conflict unavailable :
      AuthErrorCode
  unknown : AuthErrorCode

pub record MappedAuthError : Type 0 where
  pub status : ℕ
  pub code : AuthErrorCode
  pub error : String

-- `AUTH_ERROR_CODES` on the wire.
abbrev pub code_text : AuthErrorCode → String
code_text AuthErrorCode.validation_error = "validation_error"
code_text AuthErrorCode.rate_limited = "rate_limited"
code_text AuthErrorCode.unauthorized = "unauthorized"
code_text AuthErrorCode.forbidden = "forbidden"
code_text AuthErrorCode.not_found = "not_found"
code_text AuthErrorCode.conflict = "conflict"
code_text AuthErrorCode.unavailable = "unavailable"
code_text AuthErrorCode.unknown = "unknown"

-- The text behind a prefix.
strip_prefix : String → String → Option String
strip_prefix [] s = some s
strip_prefix (c ∷ p) [] = none
strip_prefix (c ∷ p) (d ∷ s) =
    let rest = strip_prefix p s in if eqb (code c) (code d) then rest else none

-- `\w`
abbrev is_word : ℕ → Bool
is_word c =
    leb b'0' c && leb c b'9' || leb b'A' c && leb c b'Z' || leb b'a' c && leb c b'z' || eqb c b'_'

drop_word : String → String
drop_word [] = []
drop_word (c ∷ s) = let rest = drop_word s in if is_word (code c) then rest else c ∷ s

-- The text behind one or more word characters.
abbrev drop_word1 : String → Option String
drop_word1 [] = none
drop_word1 (c ∷ s) = if is_word (code c) then some (drop_word s) else none

rpc_tail : String → Option String
unfolding strip_prefix drop_word
rpc_tail s = elim (strip_prefix "rpc error: code = " s) [
  | none ↦ none
  | some t ↦ elim (drop_word1 t) [ none ↦ none | some u ↦ strip_prefix " desc = " u ]
]

-- The pattern `/^rpc error: code = \w+ desc = /` is cut off, and the rest trimmed.
unfoldable pub trim_rpc_prefix : String → String
unfolding rpc_tail trim
trim_rpc_prefix message = trim (get_or_else (rpc_tail message) message)

abbrev raw_or : String → String → String
raw_or raw text = if truthy raw then raw else text

-- The `switch` of `mapPactAuthError`, over the trimmed message.
map_code : Code → String → MappedAuthError
map_code Code.invalid_argument raw = record {
  status = 400;
  code = AuthErrorCode.validation_error;
  error = raw_or raw "We couldn't validate that. Please double-check and try again.";
}
map_code Code.resource_exhausted raw = record {
  status = 429;
  code = AuthErrorCode.rate_limited;
  error = "You're trying that too often. Please wait a moment and try again.";
}
map_code Code.unauthenticated raw = record {
  status = 401;
  code = AuthErrorCode.unauthorized;
  error = "Your session is no longer valid. Please sign in again.";
}
map_code Code.permission_denied raw = record {
  status = 403;
  code = AuthErrorCode.forbidden;
  error = raw_or raw "You do not have permission to do that.";
}
map_code Code.not_found raw = record {
  status = 404;
  code = AuthErrorCode.not_found;
  error = raw_or raw "Not found.";
}
map_code Code.already_exists raw = record {
  status = 409;
  code = AuthErrorCode.conflict;
  error = raw_or raw "That already exists.";
}
map_code Code.unavailable raw = record {
  status = 503;
  code = AuthErrorCode.unavailable;
  error = "The sign-in service is briefly unavailable. Please try again.";
}
map_code Code.deadline_exceeded raw = record {
  status = 503;
  code = AuthErrorCode.unavailable;
  error = "The sign-in service is briefly unavailable. Please try again.";
}
map_code _ raw = record {
  status = 500;
  code = AuthErrorCode.unknown;
  error = "Something went wrong. Please try again.";
}

unfoldable pub map_pact_auth_error : Thrown → MappedAuthError
unfolding map_code
map_pact_auth_error other = record {
  status = 500;
  code = AuthErrorCode.unknown;
  error = "Something went wrong.";
}
map_pact_auth_error (connect_error code message) = map_code code (trim_rpc_prefix message)
