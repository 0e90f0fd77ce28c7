-- ===== src/Proxy/ClientIp/Append.antt =====
-- The hop that `appendForwardedFor` appends is the right-most one of the result.
use Prim.Native.Char.{Char, code}
use Prim.Native.String
use Prim.Native.String.{[], ◌∷◌}
use text.Mathlib.TextLemmas.{nil-append, cons-append}
use pact_web.Prelude.{
  ◌≡◌, refl, ap, ◌∙◌, inl, inr, true, eqb, Bool-cases, Option, none, some, List, [], ◌∷◌, ◌++◌,
  keep, String, arith,
}
use mathlib.Core.List.{map-append}
use pact_web.Prelude.Text.Laws.{truthy-cons}
use pact_web.Prelude.Text.{truthy, ◌<>◌}
use pact_web.Prelude.Trim.{trim}
use pact_web.Proxy.ClientIp.{
  extend, split_comma, last, hops_of, rightmost_hop, append_forwarded_for,
}
use pact_web.Proxy.ClientIp.Hops.{NoComma, IsHop}

split_comma_of_NoComma : (s : String) → NoComma s → split_comma s ≡ s ∷ []
unfolding split_comma
split_comma_of_NoComma [] h = refl
split_comma_of_NoComma (c ∷ s) (p, h) = rw p (ap (extend c) (split_comma_of_NoComma s h))

extend-append :
    (c : Char) (s : String) (ss ts : List String)
    → extend c ((s ∷ ss) ++ ts) ≡ extend c (s ∷ ss) ++ ts
extend-append c s ss ts = refl

-- The text always splits into at least one part.
split_comma_cons : (s : String) → (h : String) × (ts : List String) × (split_comma s ≡ h ∷ ts)
unfolding split_comma
split_comma_cons [] = ([], [], refl)
split_comma_cons (c ∷ s) = elim (Bool-cases (eqb (code c) b',')) [
  | inl comma ↦ ([], split_comma s, rw comma)
  | inr other ↦ let (h, ts, e) = split_comma_cons s in (String.◌∷◌ c h, ts, rw (other, e))
]

-- `", "`, then a text.
abbrev separated : String → String
separated t = String.◌∷◌ (Char.char 44 tt) (String.◌∷◌ (Char.char 32 tt) t)

split_comma-append :
    (s t : String)
    → split_comma (String.◌++◌ s (separated t))
      ≡ split_comma s ++ split_comma (String.◌∷◌ (Char.char 32 tt) t)
unfolding split_comma
split_comma-append [] t = rw nil-append refl
split_comma-append (c ∷ s) t = rw cons-append (elim (Bool-cases (eqb (code c) b',')) [
  | inl comma ↦ rw comma (rw (split_comma-append s t) refl)
  | inr other ↦
      let (h, ts, e) = split_comma_cons s in rw other (rw (split_comma-append s t) (rw e refl))
])

keep-append : (xs ys : List String) → keep truthy (xs ++ ys) ≡ keep truthy xs ++ keep truthy ys
keep-append [] ys = refl
keep-append (x ∷ xs) ys = ground (arith, keep-append xs ys)

last-append : (xs : List String) (y : String) → last (xs ++ y ∷ []) ≡ some y
last-append [] y = refl
last-append (x ∷ xs) y = rw (last-append xs y) refl

truthy-append : (s t : String) → truthy s ≡ true → truthy (s <> t) ≡ true
truthy-append [] t h = cc
truthy-append (c ∷ s) t h = rw cons-append (truthy-cons c (s <> t))

trim-space : (t : String) → trim (String.◌∷◌ (Char.char 32 tt) t) ≡ trim t
unfolding trim
trim-space t = refl

separated_lem : (t : String) → ", " <> t ≡ separated t
separated_lem t =
    cons-append _ _ _
    ∙ ap (String.◌∷◌ (Char.char 44 tt))
        (cons-append _ _ _ ∙ ap (String.◌∷◌ (Char.char 32 tt)) (nil-append t))

hops_of_hop : (ip : String) → IsHop ip → hops_of ip ≡ ip ∷ []
hops_of_hop ip h = rw (split_comma_of_NoComma ip h.single, h.trimmed, h.full)

hops_of-append : (e ip : String) → IsHop ip → hops_of (e <> ", " <> ip) ≡ hops_of e ++ ip ∷ []
hops_of-append e ip h =
    let single : NoComma (String.◌∷◌ (Char.char 32 tt) ip) = (refl, h.single) in
    rw (
      separated_lem ip,
      split_comma-append e ip,
      split_comma_of_NoComma (String.◌∷◌ (Char.char 32 tt) ip) single,
      map-append,
      keep-append,
      trim-space ip,
      h.trimmed,
      h.full,
    )

-- A clean hop that is appended to an X-Forwarded-For, present or not, is the right-most one of the
-- result.
pub rightmost_hop-append_forwarded_for :
    (existing : Option String) (ip : String)
    → IsHop ip
    → rightmost_hop (append_forwarded_for existing (some ip)) ≡ some ip
unfolding append_forwarded_for
rightmost_hop-append_forwarded_for none ip h = rw h.full (rw h.full (rw (hops_of_hop ip h) refl))
rightmost_hop-append_forwarded_for (some e) ip h = elim (Bool-cases (truthy e)) [
  | inl full ↦ rw h.full (
      rw full (
        rw (truthy-append e (", " <> ip) full)
          (rw (hops_of-append e ip h) (last-append (hops_of e) ip))))
  | inr empty ↦ rw h.full (rw empty (rw h.full (rw (hops_of_hop ip h) refl)))
]
