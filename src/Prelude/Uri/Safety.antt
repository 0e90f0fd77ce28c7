-- ===== src/Prelude/Uri/Safety.antt =====
-- An encoded component stays within its path segment.
use Prim.Native.Char.{Char, code}
use Prim.Native.Nat.{ℕ, zero, suc, ◌+◌, ◌/◌, ◌%◌}
use Prim.Native.String.{String, [], ◌∷◌}
use mathlib.Core.Bool.{Bool, true, not, ◌||◌}
use mathlib.Core.Logic.{inl, inr}
use mathlib.Core.Path.{◌≡◌, refl}
use native.Mathlib.Omega.{arith}
use pact_web.Prelude.Tests.{eqb, ltb, Bool-cases}
use pact_web.Prelude.Text.{◌<>◌}
use pact_web.Prelude.Text.Laws.{all_characters, all_characters-append}
use pact_web.Prelude.Uri.{
  char_at, hex, percent, tail_byte, encode_code, is_unreserved, encode_uri_component,
}

-- The character ends no path segment: it is no `/`, `\`, `?` or `#`.
unfoldable pub is_inner : Char → Bool
is_inner c = not (eqb (code c) b'/' || eqb (code c) 92 || eqb (code c) b'?' || eqb (code c) b'#')

all_characters-char_at :
    (p : Char → Bool) (s : String) (n : ℕ)
    → all_characters p s ≡ true
    → all_characters p (char_at s n) ≡ true
all_characters-char_at p [] n h = refl
all_characters-char_at p (c ∷ s) zero h = ground arith
all_characters-char_at p (c ∷ s) (suc n) h = all_characters-char_at p s n (ground arith)

hex-inner : (n : ℕ) → all_characters is_inner (hex n) ≡ true
unfolding hex is_inner
hex-inner n = all_characters-char_at is_inner "0123456789ABCDEF" n refl

percent-inner : (n : ℕ) → all_characters is_inner (percent n) ≡ true
unfolding percent is_inner
percent-inner n = all_characters-append is_inner "%" (hex (n / 16) <> hex (n % 16)) refl (
    all_characters-append is_inner (hex (n / 16)) (hex (n % 16)) (hex-inner (n / 16))
      (hex-inner (n % 16)))

tail-inner : (n : ℕ) → all_characters is_inner (tail_byte n) ≡ true
tail-inner n = percent-inner (0x80 + n % 64)

tails : (m n : ℕ) → all_characters is_inner (tail_byte m <> tail_byte n) ≡ true
tails m n = all_characters-append is_inner (tail_byte m) (tail_byte n) (tail-inner m) (tail-inner n)

then_tail : (m n : ℕ) → all_characters is_inner (percent m <> tail_byte n) ≡ true
then_tail m n =
    all_characters-append is_inner (percent m) (tail_byte n) (percent-inner m) (tail-inner n)

encode_code-inner : (c : ℕ) → all_characters is_inner (encode_code c) ≡ true
unfolding encode_code
encode_code-inner c = elim (Bool-cases (ltb c 0x80)) [
  | inl e ↦ rw e (percent-inner c)
  | inr e ↦ elim (Bool-cases (ltb c 0x800)) [
    | inl e1 ↦ rw (e, e1) (then_tail (0xc0 + c / 64) c)
    | inr e1 ↦ elim (Bool-cases (ltb c 0x10000)) [
      | inl e2 ↦
          rw (e, e1, e2)
            (all_characters-append is_inner (percent (0xe0 + c / 4096)) _
              (percent-inner (0xe0 + c / 4096)) (tails (c / 64) c))
      | inr e2 ↦
          rw (e, e1, e2)
            (all_characters-append is_inner (percent (0xf0 + c / 262144)) _
              (percent-inner (0xf0 + c / 262144))
              (all_characters-append is_inner (tail_byte (c / 4096)) _ (tail-inner (c / 4096))
                (tails (c / 64) c)))
    ]
  ]
]

is_unreserved-inner : (c : Char) → is_unreserved (code c) ≡ true → is_inner c ≡ true
unfolding is_unreserved is_inner
is_unreserved-inner c h = ground arith

-- What is encoded holds no character that would end its path segment.
pub encode_uri_component-inner :
    (s : String) → all_characters is_inner (encode_uri_component s) ≡ true
unfolding encode_uri_component
encode_uri_component-inner [] = refl
encode_uri_component-inner (c ∷ s) = elim (Bool-cases (is_unreserved (code c))) [
  | inl e ↦ rw e (ground (arith, is_unreserved-inner c e, encode_uri_component-inner s))
  | inr e ↦ rw e (
      all_characters-append is_inner (encode_code (code c)) (encode_uri_component s)
        (encode_code-inner (code c)) (encode_uri_component-inner s))
]
