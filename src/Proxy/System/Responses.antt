-- ===== src/Proxy/System/Responses.antt =====
-- What the browser receives: no rotation header, and the cookies of the pair that was adopted.
use pact_web.Prelude.{
  ℕ, ◌≡◌, Bool, true, if◌then◌else◌, Option, none, some, List, [], ◌∷◌, String, ◌==◌, ◌&&◌, ◌||◌,
  arith, Option-cases, inl, inr, eqb, Bool-cases,
}
use mathlib.Core.Path.{subst}
use pact_web.Prelude.Text.{truthy}
use pact_web.Cookies.{
  write, written, put, expires_text, session_cookie, refresh_token_cookie, auth_cookie_base_options,
  refresh_token_cookie_options,
}
use pact_web.Cookies.Laws.{written-put, written-nil}
use pact_web.Proxy.Headers.{RotatedPair, Upstream, get, is_stripped, read_rotated_pair}
use pact_web.Proxy.Headers.Laws.{copied_headers}
use pact_web.Proxy.Request.{Request, Role, follower, Response, to_proxy_response, roll_cookies}
use pact_web.Proxy.System.{
  System, Phase, idle, sent, waiting, retrying, done, Event, arrive, answer, network_error, wake,
  run, step, advance, initial, on_answer, on_leader, on_retry, update,
}

-- The response of an answered call has no header that is stripped.
abbrev IsClean : Phase → Type 0
IsClean (done res) = (name : String) → is_stripped name ≡ true → get name res.headers ≡ none
IsClean _ = Unit

roll_cookies-IsClean :
    (production : Bool) (pair : Option RotatedPair) (up : Upstream)
    → IsClean (done (roll_cookies production pair (to_proxy_response up)))
unfolding roll_cookies to_proxy_response
roll_cookies-IsClean production none up name h = ground (arith, copied_headers name up.headers)
roll_cookies-IsClean production (some pair) up name h =
    ground (arith, copied_headers name up.headers)

module _ (production : Bool) where
  on_answer-IsClean :
      (r : Request) (role : Role) (up : Upstream) → IsClean (on_answer production r role up)
  unfolding on_answer
  on_answer-IsClean r (follower p) up = tt
  on_answer-IsClean r _ up = roll_cookies-IsClean production (read_rotated_pair up) up

  on_leader-IsClean :
      (r : Request) (up : Upstream) (pair : Option RotatedPair)
      → IsClean (on_leader production r up pair)
  unfolding on_leader
  on_leader-IsClean r up none = roll_cookies-IsClean production (read_rotated_pair up) up
  on_leader-IsClean r up (some pair) = elim (Bool-cases (eqb up.status 401)) [
    | inl again ↦ rw again tt
    | inr final ↦ rw final (roll_cookies-IsClean production (some pair) up)
  ]

abbrev AllClean : System → Type 0
AllClean s = (j : ℕ) → IsClean (s.calls j)

update-IsClean :
    (s : System) (i : ℕ) (ph : Phase)
    → AllClean s
    → IsClean ph
    → (j : ℕ) → IsClean (update s.calls i ph j)
update-IsClean s i ph all clean j = elim (Bool-cases (eqb i j)) [
  | inl here ↦ rw here clean
  | inr there ↦ rw there (all j)
]

advance-IsClean :
    (production : Bool) (ph : Phase) (s : System) (i : ℕ) (e : Event)
    → AllClean s
    → AllClean (advance production ph s i e)
unfolding advance
advance-IsClean production idle s i (arrive r) all = update-IsClean s i _ all tt
advance-IsClean production (sent r role) s i (answer up) all =
    update-IsClean s i _ all (on_answer-IsClean production r role up)
advance-IsClean production (sent r role) s i network_error all = update-IsClean s i _ all tt
advance-IsClean production (waiting r p up) s i wake all = elim (Option-cases (s.store.settled p)) [
  | inl pending ↦ rw (pending, advance) all
  | inr (pair, out) ↦
      rw (out, advance) (update-IsClean s i _ all (on_leader-IsClean production r up pair))
]
advance-IsClean production (retrying r pair) s i (answer up) all =
    update-IsClean s i _ all (unfold on_retry in roll_cookies-IsClean production (some pair) up)
advance-IsClean production (retrying r pair) s i network_error all = update-IsClean s i _ all tt
advance-IsClean production _ s i e all = all

run-IsClean :
    (production : Bool) (s : System) (events : List (ℕ × Event))
    → AllClean s
    → AllClean (run production s events)
unfolding run step
run-IsClean production s [] all = all
run-IsClean production s ((i, e) ∷ events) all =
    run-IsClean production (step production s (i, e)) events
      (advance-IsClean production (s.calls i) s i e all)

-- The headers in which the gateway hands a rotated pair to the proxy.
abbrev is_rotation_header : String → Bool
is_rotation_header name =
    name == "x-pact-new-session-token"
    || name == "x-pact-new-refresh-token"
    || name == "x-pact-new-expires-at-unix"

stripped_of_rotation : (name : String) → is_rotation_header name ≡ true → is_stripped name ≡ true
unfolding is_stripped
stripped_of_rotation name h = ground arith

-- After any events from the start, the response of an answered call holds none of the headers in
-- which the gateway hands over a rotated pair.
pub rotation_headers_hidden :
    (production : Bool) (events : List (ℕ × Event)) (i : ℕ) (res : Response) (name : String)
    → (run production initial events).calls i ≡ done res
    → is_rotation_header name ≡ true
    → get name res.headers ≡ none
rotation_headers_hidden production events i res name at h =
    subst IsClean at (run-IsClean production initial events (unfold initial in λ j. tt) i) name
      (stripped_of_rotation name h)

-- With an adopted pair, a response writes the session cookie with the pair's session, the refresh
-- cookie with its refresh token where there is one, and no other cookie.
adopted_cookies :
    (production : Bool) (pair : RotatedPair) (up : Upstream) (name : String)
    → written name (roll_cookies production (some pair) (to_proxy_response up)).cookies ≡ (
        if truthy pair.refresh_token && (refresh_token_cookie == name)
        then some (write pair.refresh_token (refresh_token_cookie_options production))
        else if session_cookie == name
        then some (
            write pair.session_token
              (auth_cookie_base_options production (expires_text pair.expires_at_unix)))
        else none)
unfolding roll_cookies to_proxy_response
adopted_cookies production pair up name =
    let base = auth_cookie_base_options production (expires_text pair.expires_at_unix) in
    let jar = put session_cookie (write pair.session_token base) [] in
    ground (
      arith,
      written-nil name,
      written-put name session_cookie (write pair.session_token base) [],
      written-put name refresh_token_cookie
          (write pair.refresh_token (refresh_token_cookie_options production)) jar,
    )
