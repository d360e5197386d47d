-- ===== src/Serializer.antt =====
-- include/webcrown/serializer/serializator.hpp: objects as JSON. The library nlohmann::json is
-- outside the repository: a record of its types and of the operations that the code calls. A
-- member that is a vector does not compile: `serialize_admin` calls itself for it above its overload
-- for vectors.
pub mod Laws
mod Witness
use webcrown.Base.{List, [], ◌∷◌, ◌++◌, Bytes, Bool, if◌then◌else◌, Option, none, some, ℤ}
use webcrown.Orm.Schema.{Member, MemberType, has_flag, flag_ignore_on_serializer}
use webcrown.Orm.Value.{
  Formats, Value, int_, long_, short_, enum_, bool_, float_, double_, string, c_string,
  to_string_int, bool_text,
}
use webcrown.Orm.Insert.{Object}
use webcrown.Orm.Select.{map_option}

pub record JsonLibrary (f : Formats) : Type 1 where
  pub Json : Type 0
  pub JsonObject : Type 0
  -- `json body;`, `body[name] = v`, and `body.find(name)`
  pub empty : JsonObject
  pub assign : JsonObject → Bytes → Json → JsonObject
  pub find : JsonObject → Bytes → Option Json
  -- the conversions to a value
  pub of_object : JsonObject → Json
  pub of_array : List Json → Json
  pub of_integer : ℤ → Json
  pub of_bool : Bool → Json
  pub of_real : f.Real → Json
  pub of_text : Bytes → Json

-- The overloads of `normalize_type` here put no quotes round a text; there is none for a time of
-- day: `none` is a type that does not compile.
unfoldable pub normalize_text : (f : Formats) → Value f → Option Bytes
unfolding to_string_int bool_text
normalize_text f (int_ v) = some (to_string_int v)
normalize_text f (long_ v) = some (to_string_int v)
normalize_text f (short_ v) = some (to_string_int v)
normalize_text f (enum_ v) = some (to_string_int v)
normalize_text f (bool_ v) = some (bool_text v)
normalize_text f (float_ v) = some (f.write_real v)
normalize_text f (double_ v) = some (f.write_real v)
normalize_text f (string v) = some v
normalize_text f (c_string none) = some (bool_text Bool.false)
normalize_text f (c_string (some v)) = some (bool_text Bool.true)
normalize_text f (Value.year_month_day v) = some (f.format_date v)
normalize_text f (Value.time_of_day v) = none
normalize_text f (Value.date_time v) = some (f.format_date_time v)

module _ (f : Formats) (lib : JsonLibrary f) where
  open lib use {
    Json, JsonObject, empty, assign, of_object, of_array, of_integer, of_bool, of_real, of_text,
  }

  -- An enumeration is a text; integers and floating-point numbers are themselves.
  unfoldable pub json_value : Value f → Option Json
  unfolding normalize_text
  json_value (enum_ v) = map_option of_text (normalize_text f (enum_ v))
  json_value (int_ v) = some (of_integer v)
  json_value (long_ v) = some (of_integer v)
  json_value (short_ v) = some (of_integer v)
  json_value (bool_ v) = some (of_bool v)
  json_value (float_ v) = some (of_real v)
  json_value (double_ v) = some (of_real v)
  json_value v = map_option of_text (normalize_text f v)

  -- The body with one member's value.
  abbrev put : JsonObject → Member → Value f → Option JsonObject
  put body m v = map_option (λ j. assign body m.display_name j) (json_value v)

  -- The loop of `serialize` over the members.
  unfoldable pub serialize_from : JsonObject → Object f → Option JsonObject
  unfolding has_flag
  serialize_from body [] = some body
  serialize_from body ((m, v) ∷ o) =
      let next : Option JsonObject =
        if has_flag m.column.attribute flag_ignore_on_serializer then some body else put body m v in
      elim next [ none ↦ none | some body' ↦ serialize_from body' o ]

  unfoldable pub serialize : Object f → Option JsonObject
  serialize o = serialize_from empty o

  -- The loop of `serialize_admin`, which looks at no flag.
  unfoldable pub serialize_admin_from : JsonObject → Object f → Option JsonObject
  serialize_admin_from body [] = some body
  serialize_admin_from body ((m, v) ∷ o) = elim (put body m v) [
    | none ↦ none
    | some body' ↦ serialize_admin_from body' o
  ]

  unfoldable pub serialize_admin : Object f → Option JsonObject
  serialize_admin o = serialize_admin_from empty o

  abbrev and_json : Option JsonObject → Option (List Json) → Option (List Json)
  and_json none js = none
  and_json (some b) js = map_option (λ js'. of_object b ∷ js') js

  -- The loop over a vector; that the objects are of one type is not seen here.
  unfoldable pub serialize_each :
      (Object f → Option JsonObject) → List (Object f) → Option (List Json)
  serialize_each one [] = some []
  serialize_each one (o ∷ os) = and_json (one o) (serialize_each one os)

  unfoldable pub serialize_many : List (Object f) → Option Json
  unfolding serialize_each
  serialize_many os = map_option of_array (serialize_each serialize os)

  unfoldable pub serialize_admin_many : List (Object f) → Option Json
  unfolding serialize_each
  serialize_admin_many os = map_option of_array (serialize_each serialize_admin os)
