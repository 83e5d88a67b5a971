-- ===== src/Types/Unknown.antt =====
-- Values of type `unknown`: what `JSON.parse` returns.
use Prim.Native.String.{String}
use mathlib.Core.Bool.{Bool}
use mathlib.Core.Option.{Option, none, some}
use package.text.Mathlib.Text.{◌==◌}
use acp_webui.Common.{if◌then◌else◌}

mutual
  pub data Json : Type 0 where
    null : Json
    boolean : Bool → Json
    -- a number, by the text that `String(value)` gives: the front end computes with none of them
    number : String → Json
    text : String → Json
    array : Elements → Json
    object : Fields → Json

  pub data Elements : Type 0 where
    nil : Elements
    cons : Json → Elements → Elements

  pub data Fields : Type 0 where
    end : Fields
    field : String → Json → Fields → Fields

-- `value[key]`; `none` is undefined
unfoldable pub field_of : String → Fields → Option Json
field_of key end = none
field_of key (field k v rest) = if k == key then some v else field_of key rest
