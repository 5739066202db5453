-- ===== src/Engine/Payload.antt =====
-- The payload's parts (dbs/engine/frames.py): the checks of what its frames hold.
pub mod Reader
pub mod Through
pub mod Ordered
pub mod Whole
pub mod Total
pub mod Returns
pub mod Ended
use Prim.Native.String.{String}
use text.Mathlib.Text.{◌==◌ as str_eq}
use dbs.Prelude.{
  Bool, List, Option, [], false, if◌then◌else◌, ltb, none, some, true, ℕ, ◌&&◌, ◌+◌, ◌∷◌,
}
use dbs.Engine.Json.{
  Json, array, count_of, equals_count, fields_of, get, is_count, is_list_of, is_object,
  is_object_of, is_scalar, is_text, items_of, null, object, optional_text, optional_text_of,
  text_of, string, Fields,
}
use dbs.Result.{Result, container_error, err, guard, ok, type_error, ◌>>=◌, ◌>>◌}

pub record FileEntry : Type 0 where
  pub kind : String
  pub size : ℕ
  pub sha256 : String
  pub model : Option String
  pub pk : Json
  pub field_name : Option String  -- the field `field`
  pub name : String
  pub root : Option String

-- `{label: position for position, label in enumerate(order)}`
abbrev pub Rank : Type 0
Rank = List (String × ℕ)

unfoldable pub rank_from : ℕ → List String → Rank → Rank
rank_from position [] rank = rank
rank_from position (label ∷ labels) rank =
    rank_from (position + 1) labels ((label, position) ∷ rank)

-- `rank.get(label)`: a later position of a label replaces an earlier one
unfoldable pub position_of : String → Rank → Option ℕ
position_of label [] = none
position_of label ((l, position) ∷ rank) =
    let rest = position_of label rank in if str_eq l label then some position else rest

-- `rank.get(model)`: a list and a dictionary cannot be hashed, and no other value equals a text
unfoldable pub rank_get : Json → Rank → Result (Option ℕ)
unfolding position_of
rank_get (string label) rank = ok (position_of label rank)
rank_get (array items) rank = err type_error
rank_get (object fields) rank = err type_error
rank_get _ rank = ok none

unfoldable pub migrations_fit : Json → Bool
unfolding is_object_of is_text
migrations_fit null = true
migrations_fit value = is_object_of is_text value

unfoldable pub checked_header : Json → Result Json
unfolding is_object get fields_of equals_count is_list_of is_text migrations_fit optional_text
checked_header value = do
  let fields = fields_of value
  guard (is_object value && equals_count (get "version" fields) 2) container_error
  guard (is_list_of is_text (get "order" fields)) container_error
  guard (migrations_fit (get "migrations" fields)) container_error
  guard (optional_text (get "created" fields)) container_error
  guard (optional_text (get "django_version" fields)) container_error
  ok value

-- the entry that an object with the checked fields gives
unfoldable pub entry_of : Fields → FileEntry
unfolding get text_of count_of optional_text_of
entry_of fields = record {
  kind = text_of (get "kind" fields);
  size = count_of (get "size" fields);
  sha256 = "";
  model = optional_text_of (get "model" fields);
  pk = get "pk" fields;
  field_name = optional_text_of (get "field" fields);
  name = text_of (get "name" fields);
  root = optional_text_of (get "root" fields);
}

unfoldable pub checked_entry : Json → Result FileEntry
unfolding is_object get fields_of is_text is_count optional_text is_scalar entry_of
checked_entry value = do
  let fields = fields_of value
  guard (is_object value) container_error
  guard (is_text (get "kind" fields) && is_text (get "name" fields)) container_error
  guard (is_count (get "size" fields)) container_error
  guard (optional_text (get "model" fields)) container_error
  guard (optional_text (get "field" fields)) container_error
  guard (optional_text (get "root" fields)) container_error
  guard (is_scalar (get "pk" fields)) container_error
  ok (entry_of fields)

unfoldable pub checked_entries : List Json → Result (List FileEntry)
unfolding checked_entry
checked_entries [] = ok []
checked_entries (item ∷ items) =
    checked_entry item >>= λ entry. checked_entries items >>= λ entries. ok (entry ∷ entries)

-- One turn of the loop of `checked_records`: the record's position.
unfoldable pub checked_record : Json → Rank → ℕ → Result ℕ
unfolding is_object get fields_of rank_get is_scalar
checked_record entry rank current =
    guard (is_object entry && is_object (get "fields" (fields_of entry))) container_error
    >> (rank_get (get "model" (fields_of entry)) rank >>= λ found. elim found [
      | none ↦ err container_error
      | some position ↦
          if ltb position current
          then err container_error
          else guard (is_scalar (get "pk" (fields_of entry))) container_error >> ok position
    ])

unfoldable pub checked_rounds : List Json → Rank → ℕ → Result ℕ
unfolding checked_record
checked_rounds [] rank current = ok current
checked_rounds (entry ∷ entries) rank current =
    checked_record entry rank current >>= λ position. checked_rounds entries rank position

unfoldable pub is_list : Json → Bool
is_list (array items) = true
is_list _ = false

unfoldable pub checked_records : Json → Rank → ℕ → Result (List Json × ℕ)
unfolding is_list items_of checked_rounds
checked_records value rank current =
    guard (is_list value) container_error
    >> (checked_rounds (items_of value) rank current >>= λ position. ok (items_of value, position))

unfoldable pub is_model_count : Json → Bool
unfolding is_object get fields_of is_text is_count
is_model_count item =
    is_object item
    && is_text (get "model" (fields_of item))
    && is_count (get "count" (fields_of item))

unfoldable pub checked_trailer : Json → Result Json
unfolding get fields_of is_object is_list_of is_model_count is_count is_text
checked_trailer value = do
  let stats = get "stats" (fields_of value)
  let fields = fields_of stats
  guard (is_object stats) container_error
  guard (is_list_of is_model_count (get "models" fields)) container_error
  guard (is_count (get "records" fields) && is_count (get "files" fields)) container_error
  guard (is_list_of is_text (get "skipped_files" fields)) container_error
  ok value
