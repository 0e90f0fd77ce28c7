-- ===== src/Proxy/Tests.antt =====
-- Two page loads of one session, and the claims about them.
use pact_web.Proxy.System.Progress.{rank, moves, moves-rank}
use pact_web.Prelude.{
  ◌+◌, ℕ, ◌≡◌, ◌≤◌, refl, sym, true, none, some, none-ne-some, List, [], ◌∷◌, length,
}
use pact_web.Prelude.Trim.{trim, trim_start, trim_end, is_space}
use pact_web.Proxy.Headers.{RotatedPair, Upstream, get, set, is_stripped, read_rotated_pair}
use pact_web.Proxy.ClientIp.{rightmost_hop, append_forwarded_for, inbound_client_ip}
use pact_web.Proxy.ClientIp.Append.{rightmost_hop-append_forwarded_for}
use pact_web.Proxy.Request.{
  Request, outbound_headers, set_opt, fetch_upstream, roll_cookies, to_proxy_response,
}
use pact_web.Proxy.System.{
  Event, arrive, answer, wake, run, initial, step, begin, settle, on_answer, outstanding,
}
use pact_web.Proxy.System.Effects.{reached, single_flight, IsReleased, follower-IsReleased}
use pact_web.Proxy.System.Responses.{rotation_headers_hidden}

abbrev page_load : Request
page_load = record {
  session = some "s0";
  refresh = some "r0";
  method = "GET";
  headers = [];
  body = "";
  upstream_path = "/v1/audit/events";
  search = "";
}

abbrev rotated : RotatedPair
rotated = record { session_token = "s1"; refresh_token = "r1"; expires_at_unix = "99" }

abbrev rotating : Upstream
rotating = record {
  status = 200;
  body = "";
  headers =
      ("x-pact-new-session-token", "s1")
      ∷ ("x-pact-new-refresh-token", "r1")
      ∷ ("x-pact-new-expires-at-unix", "99")
      ∷ [];
}

abbrev refused : Upstream
refused = record { status = 401; headers = []; body = "" }

abbrev both_arrived : List (ℕ × Event)
both_arrived = (0, arrive page_load) ∷ (1, arrive page_load) ∷ []

single_flight_example : ◌≡◌ {A = ℕ} 0 0
unfolding run step initial begin outstanding outbound_headers get set set_opt fetch_upstream
    append_forwarded_for inbound_client_ip
single_flight_example =
    single_flight "http://gateway" true both_arrived 0 0 "s0" (λ e. none-ne-some "r0" (sym e))
      (λ e. none-ne-some "r0" (sym e)) refl refl

-- The second call answers first, with a 401, and waits; then the leader rotates.
abbrev one_waits : List (ℕ × Event)
one_waits = (0, arrive page_load) ∷ (1, arrive page_load) ∷ (1, answer refused) ∷ []

follower-IsReleased_example :
    (more : List (ℕ × Event)) × (length more ≤ 2)
    × IsReleased ((run true (reached true one_waits) more).calls 1)
unfolding run step initial begin settle on_answer
follower-IsReleased_example = follower-IsReleased true one_waits 1 0 page_load refused refl

abbrev one_rotates : List (ℕ × Event)
one_rotates = (0, arrive page_load) ∷ (0, answer rotating) ∷ []

rotation_headers_hidden_example :
    get "x-pact-new-session-token"
      (roll_cookies true (some rotated) (to_proxy_response rotating)).headers
    ≡ none
unfolding run step initial begin settle on_answer is_stripped read_rotated_pair get
rotation_headers_hidden_example =
    rotation_headers_hidden true one_rotates 0
      (roll_cookies true (some rotated) (to_proxy_response rotating)) "x-pact-new-session-token"
      refl refl

-- A follower whose own 401 is retried with the pair of its leader, and is refused again.
abbrev retried : List (ℕ × Event)
retried =
    (0, arrive page_load)
    ∷ (1, arrive page_load)
    ∷ (1, answer refused)
    ∷ (0, answer rotating)
    ∷ (1, wake)
    ∷ (1, answer refused)
    ∷ []

moves-rank_example :
    moves true initial 1 retried + rank ((run true initial retried).calls 1)
    ≤ rank (initial.calls 1)
moves-rank_example = moves-rank true initial 1 retried

rightmost_hop-append_forwarded_for_example :
    rightmost_hop (append_forwarded_for (some "1.2.3.4") (some "10.0.0.7")) ≡ some "10.0.0.7"
unfolding trim_start trim_end trim is_space
rightmost_hop-append_forwarded_for_example =
    rightmost_hop-append_forwarded_for (some "1.2.3.4") "10.0.0.7" (record {
      full = refl;
      trimmed = refl;
      single = (refl, (refl, (refl, (refl, (refl, (refl, (refl, (refl, tt))))))));
    })
