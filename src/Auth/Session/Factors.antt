-- ===== src/Auth/Session/Factors.antt =====
-- Which visitors count as having a security key.
use mathlib.Core.Option.{some-injective}
use pact_web.Prelude.{
  ◌≡◌, ◌≢◌, ◌↔◌, ◌⊎◌, refl, Bool, ◌&&◌, ◌||◌, true, false, Bool-cases, inl, inr, Option, none, some,
  List, [], ◌∷◌, map, any, String, arith, eq_iff, get_or_else, sym, subst, ◌∙◌,
}
use pact_web.Prelude.Text.{truthy}
use pact_web.Prelude.Text.Case.{equals_lower}
use pact_web.Prelude.Result.{Result, ok, err}
use pact_web.Auth.Errors.{Thrown}
use pact_web.Auth.Client.Replies.{read_reply}
use pact_web.Auth.Session.{
  RawFactor, RawPasskey, Reads, current_session_token, list_passkeys, passkey_views,
  has_webauthn_factor, has_security_key, counted, factor_view, is_security_key,
}

-- A factor of the reply that is verified, and a security key or a passkey by its type.
abbrev pub IsKey : RawFactor → Type 0
IsKey f =
    (f.verified ≡ some true)
    × (kind : String) × (f.kind ≡ some kind)
    × ((equals_lower "webauthn" kind ≡ true) ⊎ (equals_lower "passkey" kind ≡ true))

abbrev pub HasKey : List RawFactor → Type 0
HasKey [] = ⊥
HasKey (f ∷ fs) = IsKey f ⊎ HasKey fs

-- A reply that lists a passkey, and one that lists a key among the factors.
abbrev pub ListsPasskey : Result Thrown (Option (List RawPasskey)) → Type 0
ListsPasskey r = (p : RawPasskey) × (ps : List RawPasskey) × (r ≡ ok (some (p ∷ ps)))

abbrev pub ListsKey : Result Thrown (Option (List RawFactor)) → Type 0
ListsKey r = (fs : List RawFactor) × (r ≡ ok (some fs)) × HasKey fs

key_values_iff :
    (verified : Option Bool) (kind : Option String)
    → ((get_or_else verified false
          && (equals_lower "webauthn" (get_or_else kind "")
              || equals_lower "passkey" (get_or_else kind "")))
        ≡ true)
      ↔ ((verified ≡ some true)
          × (k : String) × (kind ≡ some k)
          × ((equals_lower "webauthn" k ≡ true) ⊎ (equals_lower "passkey" k ≡ true)))
unfolding equals_lower
key_values_iff none kind = ((λ e. cc e), λ (v, k, given, is). cc v)
key_values_iff (some false) kind = ((λ e. cc e), λ (v, k, given, is). cc v)
key_values_iff (some true) none = ((λ e. cc e), λ (v, k, given, is). cc given)
key_values_iff (some true) (some k) =
    ((λ e. (refl, k, refl, ground arith)), λ (v, l, given, is). ground arith)

IsKey-iff : (f : RawFactor) → (is_security_key (factor_view f) ≡ true) ↔ IsKey f
unfolding factor_view
IsKey-iff f = key_values_iff f.verified f.kind

HasKey-iff : (fs : List RawFactor) → (any is_security_key (map factor_view fs) ≡ true) ↔ HasKey fs
HasKey-iff [] = ((λ e. cc e), λ no. absurd no)
HasKey-iff (f ∷ fs) = (
  (λ e. ground (arith, e, (IsKey-iff f).0, (HasKey-iff fs).0)),
  λ has. ground (arith, has, (IsKey-iff f).1, (HasKey-iff fs).1),
)

ListsKey-iff :
    (r : Result Thrown (Option (List RawFactor))) → (has_security_key r ≡ true) ↔ ListsKey r
unfolding has_security_key
ListsKey-iff (err thrown) = ((λ e. cc e), λ (fs, listed, has). cc listed)
ListsKey-iff (ok none) = ((λ e. cc e), λ (fs, listed, has). cc listed)
ListsKey-iff (ok (some raw)) = (
  (λ e. (raw, refl, (HasKey-iff raw).0 e)),
  λ (fs, listed, has). (HasKey-iff raw).1 (subst HasKey (cc listed) has),
)

-- What the reader makes of its two reads.
abbrev found : Result Thrown (Option (List RawPasskey)) → Bool → Bool
found passkeys key = counted (passkey_views passkeys) key

found_iff :
    (passkeys : Result Thrown (Option (List RawPasskey))) (key : Bool)
    → (found passkeys key ≡ true) ↔ (ListsPasskey passkeys ⊎ (key ≡ true))
unfolding passkey_views
found_iff (err thrown) key = ((λ e. inr e), λ e. ground (arith, e))
found_iff (ok none) key = ((λ e. inr e), λ e. ground (arith, e))
found_iff (ok (some [])) key = ((λ e. inr e), λ e. ground (arith, e))
found_iff (ok (some (p ∷ ps))) key = ((λ e. inl (p, ps, refl)), λ either. refl)

module _ (reads : Reads) where
  abbrev pub Lists : String → Type 0
  Lists token =
      ListsPasskey (read_reply (reads.passkeys token)) ⊎ ListsKey (read_reply (reads.factors token))

  -- The session cookie is there and not empty, and the gateway lists a passkey for it, or a key
  -- among the factors.
  abbrev pub Registered : Option String → Type 0
  Registered cookie = (token : String) × (cookie ≡ some token) × (token ≢ "") × Lists token

  full_token :
      (token : String)
      → truthy token ≡ true
      → has_webauthn_factor false reads (some token)
        ≡ found
            (read_reply (reads.passkeys token))
            (has_security_key (read_reply (reads.factors token)))
  unfolding has_webauthn_factor list_passkeys current_session_token
  full_token token full = rw full refl

  empty_token :
      (token : String) → truthy token ≡ false → has_webauthn_factor false reads (some token) ≡ false
  unfolding has_webauthn_factor list_passkeys current_session_token
  empty_token token empty = rw empty refl

  -- Outside of the mock, a visitor counts as having a security key exactly where the session cookie
  -- is there and not empty and the gateway's reply for it lists a passkey at least, or lists a
  -- factor that is verified and whose type is `webauthn` or `passkey` in any case; a reply that
  -- fails lists nothing.
  pub has_webauthn_factor_iff :
      (cookie : Option String) → (has_webauthn_factor false reads cookie ≡ true) ↔ Registered cookie
  has_webauthn_factor_iff none = (
    (λ e. unfold has_webauthn_factor list_passkeys current_session_token in cc e),
    λ (token, given, full, lists). cc given,
  )
  has_webauthn_factor_iff (some token) =
      let passkeys = read_reply (reads.passkeys token) in
      let factors = read_reply (reads.factors token) in
      elim (Bool-cases (truthy token)) [
        | inl full ↦ (
          (λ e.
              let either =
                (found_iff passkeys (has_security_key factors)).0
                  (sym (full_token token full) ∙ e) in
              (
                token,
                refl,
                (λ z. ground (arith, eq_iff token "")),
                ground (arith, either, (ListsKey-iff factors).0),
              )),
          λ (t, given, some_text, lists).
              full_token token full
              ∙ (found_iff passkeys (has_security_key factors)).1 (
                  ground (
                    arith,
                    subst Lists (some-injective t token (sym given)) lists,
                    (ListsKey-iff factors).1,
                  )),
        )
        | inr empty ↦ (
          (λ e. absurd (ground (arith, empty_token token empty))),
          λ (t, given, some_text, lists). absurd (ground (arith, eq_iff token "")),
        )
      ]
