-- ===== src/Proxy/ClientIp/Hops.antt =====
-- What a hop looks like, and that an appended hop is the one that is read back.
use Prim.Native.Char.{Char, code}
use Prim.Native.String.{[], ◌∷◌}
use mathlib.Core.Path.{subst}
use pact_web.Prelude.{
  ◌≡◌, ◌⊎◌, inl, inr, true, false, eqb, Bool-cases, Option, none, some, List, [], ◌∷◌, map, keep,
  All, String, arith,
}
use pact_web.Prelude.Text.{truthy}
use pact_web.Prelude.Trim.{is_space, trim_start, trim_end, trim_cons, trim}
use pact_web.Prelude.Trim.Laws.{trim_idem}
use pact_web.Proxy.ClientIp.{extend, split_comma, last, hops_of, rightmost_hop}

abbrev pub NoComma : String → Type 0
NoComma [] = Unit
NoComma (c ∷ s) = (eqb (code c) b',' ≡ false) × NoComma s

-- A hop that stands alone: not empty, without a comma, without white space around it.
pub record IsHop (s : String) : Type 0 where
  pub full : truthy s ≡ true
  pub trimmed : trim s ≡ s
  pub single : NoComma s

NoComma-trim_start : (s : String) → NoComma s → NoComma (trim_start s)
unfolding trim_start
NoComma-trim_start [] h = tt
NoComma-trim_start (c ∷ s) h = ground (arith, NoComma-trim_start s)

NoComma-trim_cons :
    (c : Char) (t : String) → eqb (code c) b',' ≡ false → NoComma t → NoComma (trim_cons c t)
NoComma-trim_cons c [] p h = elim (Bool-cases (is_space (code c))) [
  | inl space ↦ rw space tt
  | inr solid ↦ rw solid (p, tt)
]
NoComma-trim_cons c (d ∷ t) p h = (p, h)

NoComma-trim_end : (s : String) → NoComma s → NoComma (trim_end s)
unfolding trim_end
NoComma-trim_end [] h = tt
NoComma-trim_end (c ∷ s) (p, h) = NoComma-trim_cons c (trim_end s) p (NoComma-trim_end s h)

NoComma-trim : (s : String) → NoComma s → NoComma (trim s)
unfolding trim
NoComma-trim s h = NoComma-trim_end (trim_start s) (NoComma-trim_start s h)

NoComma-extend :
    (c : Char) (ss : List String)
    → eqb (code c) b',' ≡ false
    → All NoComma ss
    → All NoComma (extend c ss)
NoComma-extend c [] p h = ((p, tt), tt)
NoComma-extend c (s ∷ ss) p h = ((p, h.0), h.1)

NoComma-split_comma : (s : String) → All NoComma (split_comma s)
unfolding split_comma
NoComma-split_comma [] = (tt, tt)
NoComma-split_comma (c ∷ s) = elim (Bool-cases (eqb (code c) b',')) [
  | inl comma ↦ rw comma (tt, NoComma-split_comma s)
  | inr other ↦ rw other (NoComma-extend c (split_comma s) other (NoComma-split_comma s))
]

kept-IsHop : (ss : List String) → All NoComma ss → All IsHop (keep truthy (map trim ss))
kept-IsHop [] h = tt
kept-IsHop (s ∷ ss) (p, h) = elim (Bool-cases (truthy (trim s))) [
  | inl full ↦
      rw full
        (record { full = full; trimmed = trim_idem s; single = NoComma-trim s p }, kept-IsHop ss h)
  | inr empty ↦ rw empty (kept-IsHop ss h)
]

last-All : (P : String → Type 0) (ss : List String) {s : String} → All P ss → last ss ≡ some s → P s
last-All P [] h e = cc
last-All P (t ∷ ss) {s} (p, h) e = elim (last-cases t ss e) [
  | inl later ↦ last-All P ss h later
  | inr here ↦ subst P here p
]
  where
    last-cases :
        (t : String) (ss : List String) → last (t ∷ ss) ≡ some s → (last ss ≡ some s) ⊎ (t ≡ s)
    last-cases t ss e = ground arith

-- Whatever X-Forwarded-For holds, the address that is read from it is a single clean hop.
rightmost_hop-IsHop : (xff : Option String) {ip : String} → rightmost_hop xff ≡ some ip → IsHop ip
rightmost_hop-IsHop none e = cc
rightmost_hop-IsHop (some xff) e =
    last-All IsHop (hops_of xff) (kept-IsHop (split_comma xff) (NoComma-split_comma xff))
      (ground arith)
