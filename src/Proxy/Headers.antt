-- ===== src/Proxy/Headers.antt =====
-- The `Headers` of a request or response, and what src/lib/proxy/proxy_to_gateway.ts reads and
-- drops of an upstream response. A `Headers` object lists its names in lower case, and `forEach`
-- may give `set-cookie` more than once.
pub mod Laws
use pact_web.Prelude.{
  ℕ, Bool, true, false, ◌||◌, if◌then◌else◌, Option, none, some, List, [], ◌∷◌, String, ◌==◌,
  get_or_else, ◌&&◌,
}
use pact_web.Prelude.Text.{truthy_opt}

abbrev pub Headers : Type 0
Headers = List (String × String)

-- `headers.get(name)`, `none` for `null`.
unfoldable pub get : String → Headers → Option String
get name [] = none
get name ((k, v) ∷ hs) = let rest = get name hs in if k == name then some v else rest

-- `headers.set(name, value)`
unfoldable pub set : String → String → Headers → Headers
set name v [] = (name, v) ∷ []
set name v ((k, w) ∷ hs) =
    let rest = set name v hs in if k == name then (name, v) ∷ hs else (k, w) ∷ rest

-- `headers.delete(name)`
unfoldable pub remove : String → Headers → Headers
remove name [] = []
remove name ((k, v) ∷ hs) = let rest = remove name hs in if k == name then rest else (k, v) ∷ rest

abbrev pub refresh_header : String
refresh_header = "x-pact-refresh-token"

abbrev new_session_header : String
new_session_header = "x-pact-new-session-token"

abbrev new_refresh_header : String
new_refresh_header = "x-pact-new-refresh-token"

abbrev new_expires_header : String
new_expires_header = "x-pact-new-expires-at-unix"

pub record RotatedPair : Type 0 where
  pub session_token : String
  pub refresh_token : String
  pub expires_at_unix : String

-- A response as `fetch` gives it.
pub record Upstream : Type 0 where
  pub status : ℕ
  pub headers : Headers
  pub body : String

unfoldable pub is_stripped : String → Bool
is_stripped k =
    k == "content-encoding"
    || k == "transfer-encoding"
    || k == "connection"
    || k == new_session_header
    || k == new_refresh_header
    || k == new_expires_header

-- The loop of `toProxyResponse`.
unfoldable pub copy_headers : Headers → Headers → Headers
copy_headers [] out = out
copy_headers ((k, v) ∷ hs) out = copy_headers hs (if is_stripped k then out else set k v out)

unfoldable pub read_rotated_pair : Upstream → Option RotatedPair
read_rotated_pair up = elim (get new_session_header up.headers) [
  | none ↦ none
  | some session ↦ elim (get new_expires_header up.headers) [
    | none ↦ none
    | some expires ↦
        if truthy_opt (some session) && truthy_opt (some expires)
        then some (record {
          session_token = session;
          refresh_token = get_or_else (get new_refresh_header up.headers) "";
          expires_at_unix = expires;
        })
        else none
  ]
]
