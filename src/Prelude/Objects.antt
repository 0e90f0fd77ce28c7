-- ===== src/Prelude/Objects.antt =====
-- Plain objects as maps: a look-up also finds what every object inherits from `Object.prototype`.
use pact_web.Prelude.Lists.{includes}
use mathlib.Core.Bool.{Bool}
use mathlib.Core.List.{List, [], ◌∷◌}
use Prim.Native.String.{String}

abbrev pub inherited_keys : List String
inherited_keys =
    "constructor" ∷ "hasOwnProperty" ∷ "isPrototypeOf" ∷ "propertyIsEnumerable" ∷ "toLocaleString"
    ∷ "toString" ∷ "valueOf" ∷ "__proto__" ∷ "__defineGetter__" ∷ "__defineSetter__"
    ∷ "__lookupGetter__" ∷ "__lookupSetter__" ∷ []

unfoldable pub is_inherited : String → Bool
is_inherited key = includes inherited_keys key
