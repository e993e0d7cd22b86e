-- ===== src/Json.antt =====
-- Values of type `unknown` as JSON.parse builds them, and how frontend/src/activity/workItems.ts
-- (and the same helper in frontend/src/activity/phases.ts) reads them. The code looks at a number
-- by `Number.isFinite` and `String` only, so a number is those two answers. What is missing
-- (`undefined`) is `none`.
use mini_agent_oscoder.Prelude.{
  Bool, true, Option, none, some, List, [], ◌∷◌, Text, lit, text_eq, trim, non_empty, if◌then◌else◌,
  ◌or_else◌,
}
use Prim.Native.String.{String}

mutual
  pub data Value : Type 0 where
    null : Value
    bool : Bool → Value
    number : (is_finite : Bool) → (printed : Text) → Value
    str : Text → Value
    arr : Items → Value
    obj : Fields → Value

  pub data Items : Type 0 where
    nil : Items
    cons : Value → Items → Items

  pub data Fields : Type 0 where
    end : Fields
    field : (name : Text) → Value → Fields → Fields

pub record TraceEvent : Type 0 where
  pub time : Text
  pub event : Text
  pub payload : Fields

-- `fields[key]`; the keys of a parsed object are distinct.
unfoldable pub property : Text → Fields → Option Value
property key end = none
property key (field name v fields) = if text_eq name key then some v else property key fields

unfoldable pub items : Items → List Value
items nil = []
items (cons v vs) = v ∷ items vs

unfoldable pub as_record : Option Value → Option Fields
as_record (some (obj fields)) = some fields
as_record _ = none

-- `record?.key`
unfoldable pub get : Option Fields → String → Option Value
unfolding property
get none key = none
get (some fields) key = property (lit key) fields

-- A text that has been trimmed, if anything is left of it.
unfoldable pub present : Text → Option Text
present s = if non_empty (trim s) then some (trim s) else none

unfoldable pub string_value : Option Value → Option Text
unfolding present
string_value (some (str s)) = present s
string_value _ = none

unfoldable pub number_value : Option Value → Option Text
number_value (some (number true printed)) = some printed
number_value _ = none

-- The texts of an array, in order.
strings : List Value → List Text
strings [] = []
strings (str s ∷ vs) = s ∷ strings vs
strings (_ ∷ vs) = strings vs

unfoldable pub array_of_strings : Option Value → List Text
unfolding strings items
array_of_strings (some (arr vs)) = strings (items vs)
array_of_strings _ = []

-- `Array.isArray(value) ? value.length : undefined`, with the elements in place of their number.
unfoldable pub array_value : Option Value → Option (List Value)
unfolding items
array_value (some (arr vs)) = some (items vs)
array_value _ = none

-- The value of the first key that has a text or a number.
unfoldable pub first_present : Option Fields → List String → Option Text
unfolding get string_value number_value
first_present none keys = none
first_present (some params) [] = none
first_present (some params) (key ∷ keys) =
    let value = get (some params) key in
    (string_value value or_else number_value value) or_else first_present (some params) keys
