-- ===== src/Engine/Json.antt =====
-- What `json.loads` returns, and Python's tests on it. A dictionary has one field for each key.
use Prim.Native.String.{String}
use text.Mathlib.Text.{◌==◌ as str_eq}
use dbs.Prelude.{
  Bool, List, Option, [], false, if◌then◌else◌, none, some, true, ℕ, ◌&&◌, ◌*◌, ◌==◌, ◌∷◌,
}

mutual
  pub data Json : Type 0 where
    null special : Json  -- `special` is NaN or an infinity
    bool : Bool → Json
    count negative : ℕ → Json  -- `negative n` is -(n + 1)
    real : Bool → ℕ → ℕ → Json  -- a sign, and `as_integer_ratio`
    string : String → Json
    array : Items → Json
    object : Fields → Json

  pub data Items : Type 0 where
    nil : Items
    cons : Json → Items → Items

  pub data Fields : Type 0 where
    end : Fields
    field : String → Json → Fields → Fields

-- `value.get(name)`; a key that is not there gives None, as null does
unfoldable pub get : String → Fields → Json
get name end = null
get name (field key value fields) =
    let rest = get name fields in if str_eq key name then value else rest

unfoldable pub is_text : Json → Bool
is_text (string s) = true
is_text _ = false

unfoldable pub optional_text : Json → Bool
optional_text null = true
optional_text (string s) = true
optional_text _ = false

-- `_count`: an int that is not a bool and not negative
unfoldable pub is_count : Json → Bool
is_count (count n) = true
is_count _ = false

-- `isinstance(value, _SCALARS)`
unfoldable pub is_scalar : Json → Bool
is_scalar (array items) = false
is_scalar (object fields) = false
is_scalar _ = true

unfoldable pub is_object : Json → Bool
is_object (object fields) = true
is_object _ = false

-- `value == n`
unfoldable pub equals_count : Json → ℕ → Bool
equals_count (count k) n = k == n
equals_count (bool b) n = (if b then 1 else 0) == n
equals_count (real false numerator denominator) n = numerator == n * denominator
equals_count (real true numerator denominator) n = numerator == 0 && n == 0
equals_count _ n = false

unfoldable pub fields_of : Json → Fields
fields_of (object fields) = fields
fields_of _ = end

unfoldable pub text_of : Json → String
text_of (string s) = s
text_of _ = ""

unfoldable pub count_of : Json → ℕ
count_of (count n) = n
count_of _ = 0

unfoldable pub optional_text_of : Json → Option String
optional_text_of (string s) = some s
optional_text_of _ = none

unfoldable pub all_items : (Json → Bool) → Items → Bool
all_items test nil = true
all_items test (cons value items) = let rest = all_items test items in test value && rest

-- `isinstance(value, list) and all(test(item) for item in value)`
unfoldable pub is_list_of : (Json → Bool) → Json → Bool
unfolding all_items
is_list_of test (array items) = all_items test items
is_list_of test _ = false

-- the keys of an object are texts
unfoldable pub all_values : (Json → Bool) → Fields → Bool
all_values test end = true
all_values test (field key value fields) = let rest = all_values test fields in test value && rest

unfoldable pub is_object_of : (Json → Bool) → Json → Bool
unfolding all_values
is_object_of test (object fields) = all_values test fields
is_object_of test _ = false

unfoldable pub texts_in : Items → List String
unfolding text_of
texts_in nil = []
texts_in (cons value items) = text_of value ∷ texts_in items

unfoldable pub labels_of : Json → List String
unfolding texts_in
labels_of (array items) = texts_in items
labels_of _ = []

unfoldable pub list_of : Items → List Json
list_of nil = []
list_of (cons value items) = value ∷ list_of items

unfoldable pub items_of : Json → List Json
unfolding list_of
items_of (array items) = list_of items
items_of _ = []
