-- ===== src/Prelude/Json.antt =====
-- JSON values as `JSON.parse` gives them, and the reads that the source makes of them.
use Prim.Native.Nat.{ℕ}
use Prim.Native.String.{String}
use mathlib.Core.Bool.{Bool}
use mathlib.Core.Option.{Option, none, some}
use text.Mathlib.Text.{◌==◌}
use pact_web.Prelude.Tests.{if◌then◌else◌}

-- A number is kept as a whole number: the code here only asks whether a value is a number. The
-- keys of an object are distinct, as `JSON.parse` leaves them.
mutual
  pub data Json : Type 0 where
    null : Json
    bool : Bool → Json
    num : ℕ → Json
    str : String → Json
    arr : Items → Json
    obj : Fields → Json

  pub data Items : Type 0 where
    nil : Items
    cons : Json → Items → Items

  pub data Fields : Type 0 where
    end : Fields
    field : String → Json → Fields → Fields

-- `o.key` on an object: `none` is `undefined`.
abbrev pub get : String → Fields → Option Json
get k end = none
get k (field j v fs) = let rest = get k fs in if j == k then some v else rest
