-- ===== src/Auth/Session/Closed.antt =====
-- A visitor has a session only where the gateway says so.
use pact_web.Prelude.{
  ℕ, ◌≡◌, refl, true, false, Bool-cases, inl, inr, Option, none, some, none-ne-some, get_or_else,
  String, arith,
}
use pact_web.Prelude.Text.{truthy}
use pact_web.Prelude.Result.{Result, ok, err}
use pact_web.Auth.Errors.{Thrown}
use pact_web.Auth.Client.Replies.{read_reply}
use pact_web.Auth.Session.{
  RawIntrospection, Session, Reads, session_of, validate_session_from_cookies,
}

-- A reply that is valid and names the session's user.
abbrev pub Confirms : Result Thrown RawIntrospection → Session → Type 0
Confirms r session =
    (raw : RawIntrospection) × (r ≡ ok raw)
    × (get_or_else raw.valid false ≡ true)
    × (get_or_else raw.user_id "" ≡ session.user_id)
    × (truthy session.user_id ≡ true)

session_of-Confirms :
    (r : Result Thrown RawIntrospection) (session : Session)
    → session_of r ≡ some session
    → Confirms r session
unfolding session_of
session_of-Confirms (err thrown) session e = absurd (none-ne-some session e)
session_of-Confirms (ok raw) session e = (raw, refl, ground arith, ground arith, ground arith)

-- Outside of the mock, a visitor has a session only with a session cookie that is not empty, for
-- which the gateway's reply is valid and names the session's user.
pub validate_session-Confirms :
    (expires_at : ℕ) (reads : Reads) (cookie : Option String) (session : Session)
    → validate_session_from_cookies false expires_at reads cookie ≡ some session
    → (token : String) × (cookie ≡ some token)
      × (truthy token ≡ true)
      × Confirms (read_reply (reads.introspection token)) session
unfolding validate_session_from_cookies
validate_session-Confirms expires_at reads none session e = absurd (none-ne-some session e)
validate_session-Confirms expires_at reads (some token) session e =
    elim (Bool-cases (truthy token)) [
      | inl full ↦ (
        token,
        refl,
        full,
        session_of-Confirms (read_reply (reads.introspection token)) session (ground arith),
      )
      | inr empty ↦ absurd (none-ne-some session (ground arith))
    ]
