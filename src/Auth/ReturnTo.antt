-- ===== src/Auth/ReturnTo.antt =====
-- src/framework/auth/pact_auth/return_to.ts and src/app/auth/domain/safe_next_path.ts: where a
-- sign-in leads. The platform's `URL` is a parameter.
pub mod Trust
pub mod Tests
use Prim.Native.Char.{code}
use Prim.Native.String.{[], ◌∷◌}
use pact_web.Prelude.{
  eqb, if◌then◌else◌, Bool, false, ◌||◌, Option, none, some, or_else, List, String,
}
use pact_web.Prelude.Text.{truthy, truthy_opt, ◌<>◌}
use pact_web.Proxy.Headers.{Headers, get}

-- What the code uses of `URL`: `none` stands for the TypeError of a text that is no URL.
pub record UrlApi (U : Type 0) : Type 0 where
  -- `new URL(text)`, and `new URL(text, base)`
  pub parse : String → Option U
  pub resolve : String → String → Option U
  pub pathname : U → String
  pub search : U → String
  pub origin : U → String
  pub text : U → String
  -- `url.searchParams.set(key, value)`
  pub set_param : String → String → U → U

-- What is read of a request and of the environment.
pub record Inbound : Type 0 where
  pub headers : Headers
  -- `req.nextUrl.protocol` and `req.nextUrl.origin`
  pub protocol : String
  pub next_origin : String
  pub query : Headers

pub record Environment : Type 0 where
  pub development : Bool
  pub production : Bool
  pub mock : Bool
  -- `PACT_AUTH_REBASE_RETURN_TO === '1'`, and `PACT_AUTH_DEFAULT_RETURN_TO`
  pub rebase : Bool
  pub default_return_to : Option String

-- `s.replace(/:$/, '')`
unfoldable pub strip_colon : String → String
strip_colon [] = []
strip_colon (c ∷ []) = if eqb (code c) b':' then [] else c ∷ []
strip_colon (c ∷ d ∷ s) = c ∷ strip_colon (d ∷ s)

abbrev protocol_of : Inbound → String
protocol_of req = elim (get "x-forwarded-proto" req.headers) [
  | none ↦ strip_colon req.protocol
  | some proto ↦ proto
]

unfoldable pub request_origin : Inbound → String
request_origin req = elim (or_else (get "x-forwarded-host" req.headers) (get "host" req.headers)) [
  | none ↦ req.next_origin
  | some host ↦ if truthy host then protocol_of req <> "://" <> host else req.next_origin
]

unfoldable pub default_return_to : Environment → Inbound → String
default_return_to env req = elim env.default_return_to [
  | none ↦ request_origin req <> "/dashboard"
  | some explicit ↦ if truthy explicit then explicit else request_origin req <> "/dashboard"
]

abbrev starts_with_slash : String → Bool
starts_with_slash [] = false
starts_with_slash (c ∷ s) = eqb (code c) b'/'

module _ {U : Type 0} (urls : UrlApi U) where
  unfoldable pub path_and_query : String → String
  path_and_query return_to = elim (urls.parse return_to) [
    | none ↦ if starts_with_slash return_to then return_to else "/" <> return_to
    | some stored ↦ urls.pathname stored <> urls.search stored
  ]

  unfoldable pub rebase_return_to : Environment → Inbound → String → Option U
  rebase_return_to env req return_to =
      if env.development || env.rebase
      then urls.resolve (path_and_query return_to) (request_origin req)
      else or_else (urls.parse return_to) (urls.resolve return_to (request_origin req))

-- The second character makes of a path a host.
abbrev leaves_origin : String → Bool
leaves_origin [] = false
leaves_origin (c ∷ s) = eqb (code c) b'/' || eqb (code c) 92

-- `safeNextPath`, of the first value that the query gives.
unfoldable pub safe_next_path : Option String → String
safe_next_path (some (c ∷ s)) =
    if eqb (code c) b'/' then if leaves_origin s then "/dashboard" else c ∷ s else "/dashboard"
safe_next_path _ = "/dashboard"
