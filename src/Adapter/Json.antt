-- ===== src/Adapter/Json.antt =====
-- The values that encoding/json decodes into `any`, and the look-ups of adapter/store.go and
-- adapter/helpers.go in them. A number keeps its literal; what it is as an `int64` is a `Numbers`.
use what_is_it.Prelude.{ℤ, Text, text_eq, [], Option, none, some, Bool, false, if◌then◌else◌}

mutual
  pub data Json : Type 0 where
    null : Json
    boolean : Bool → Json
    number : (literal : Text) → Json
    string : Text → Json
    array : Items → Json
    object : Fields → Json

  pub data Items : Type 0 where
    nil : Items
    item : Json → Items → Items

  pub data Fields : Type 0 where
    end : Fields
    field : (key : Text) → Json → Fields → Fields

-- `strconv.ParseFloat` with the conversion to `int64`, and how encoding/json prints an integer.
pub record Numbers : Type 0 where
  pub int_of : Text → ℤ
  pub literal : ℤ → Text

-- `m[key]`; a key stands once in what the decoder builds.
unfoldable pub member : Text → Fields → Option Json
member k end = none
member k (field j v rest) = if text_eq j k then some v else member k rest

-- The type assertions `v.(string)`, `v.(bool)`, `v.(map[string]any)`, `v.([]any)`.
abbrev pub as_string : Option Json → Option Text
as_string (some (string s)) = some s
as_string _ = none

abbrev pub as_bool : Option Json → Option Bool
as_bool (some (boolean b)) = some b
as_bool _ = none

abbrev pub as_object : Option Json → Option Fields
as_object (some (object fs)) = some fs
as_object _ = none

abbrev pub as_array : Option Json → Option Items
as_array (some (array xs)) = some xs
as_array _ = none

-- `int64(v.(float64))`
abbrev pub as_int : Numbers → Option Json → Option ℤ
as_int n (some (number literal)) = some (n.int_of literal)
as_int n _ = none

-- `getStringFromMap`, `getString`
unfoldable pub get_string : Fields → Text → Text
unfolding member
get_string m key = elim (as_string (member key m)) [ none ↦ [] | some s ↦ s ]

unfoldable pub get_bool : Fields → Text → Bool
unfolding member
get_bool m key = elim (as_bool (member key m)) [ none ↦ false | some b ↦ b ]

-- What `fields, _ := v.(map[string]any)` gives: a nil map has no entries.
abbrev pub fields_or_nil : Option Json → Fields
fields_or_nil (some (object fs)) = fs
fields_or_nil _ = end
