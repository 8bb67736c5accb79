-- ===== src/Prelude/Json.antt =====
-- What goes over the wire: bytes, and the values of Python's json module.
use kafka_playgroud.Prelude.Int.{ℤ}
use Prim.Native.Nat.{ℕ}
use Prim.Native.String.{String}
use mathlib.Core.Bool.{Bool}
use mathlib.Core.Option.{Option, none, some}
use mathlib.Core.List.{List}
use text.Mathlib.Text.{◌==◌}
use kafka_playgroud.Prelude.Tests.{if◌then◌else◌}

-- A byte string, by what `.decode("utf-8")` makes of it: the text that it encodes, or `raw` for
-- bytes that encode none.
pub data Bytes : Type 0 where
  utf8 : String → Bytes
  raw : List ℕ → Bytes

-- `bytes.decode("utf-8")`; `none` is `UnicodeDecodeError`.
abbrev pub decode_utf8 : Bytes → Option String
decode_utf8 (utf8 s) = some s
decode_utf8 (raw _) = none

-- A decoded json value. `real z` is a number with a fraction, by the integer that `int` makes of
-- it.
mutual
  pub data Json : Type 0 where
    null : Json
    bool : Bool → Json
    int : ℤ → Json
    real : ℤ → Json
    str : String → Json
    arr : Items → Json
    obj : Fields → Json

  pub data Items : Type 0 where
    nil : Items
    cons : Json → Items → Items

  pub data Fields : Type 0 where
    end : Fields
    field : String → Json → Fields → Fields

-- `d[name]`; `none` is `KeyError`.
abbrev pub get_field : String → Fields → Option Json
get_field k end = none
get_field k (field j v fs) = if j == k then some v else get_field k fs

-- The json module, which the program calls: `dumps` and `loads`; `none` is `JSONDecodeError`.
pub record JsonCodec : Type 0 where
  pub dumps : Json → String
  pub loads : String → Option Json
