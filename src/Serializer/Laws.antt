-- ===== src/Serializer/Laws.antt =====
-- Which members of an object are in its JSON.
use webcrown.Base.{
  ◌≡◌, refl, [], ◌∷◌, Bytes, bytes_eq, Bool, true, false, not, ◌&&◌, if◌then◌else◌, Option, none,
  some, arith, Bool-cases, inl, inr,
}
use webcrown.Orm.Schema.{Member, has_flag, flag_ignore_on_serializer}
use webcrown.Orm.Value.{Formats, Value}
use webcrown.Orm.Insert.{Object}
use webcrown.Serializer.{
  JsonLibrary, normalize_text, json_value, serialize_from, serialize, serialize_admin_from,
  serialize_admin,
}

-- What the library documents of its objects.
pub record JsonLaws (f : Formats) (lib : JsonLibrary f) : Type 1 where
  pub find-empty : (k : Bytes) → lib.find lib.empty k ≡ none
  pub find-assign :
      (body : lib.JsonObject) (k j : Bytes) (v : lib.Json)
      → lib.find (lib.assign body k v) j ≡ (if bytes_eq k j then some v else lib.find body j)

-- The value of the last member of a name, of those that a test lets through.
abbrev pub last_member : (f : Formats) → (Member → Bool) → Bytes → Object f → Option (Value f)
last_member f shown name [] = none
last_member f shown name ((m, v) ∷ o) = elim (last_member f shown name o) [
  | some w ↦ some w
  | none ↦ if shown m && bytes_eq m.display_name name then some v else none
]

abbrev pub is_shown : Member → Bool
is_shown m = not (has_flag m.column.attribute flag_ignore_on_serializer)

-- The JSON of a value that was found, or else what is given.
abbrev pub json_or :
    (f : Formats) (lib : JsonLibrary f) → Option (Value f) → Option lib.Json → Option lib.Json
json_or f lib none other = other
json_or f lib (some v) other = json_value f lib v

-- No member holds a time of day.
abbrev is_time : (f : Formats) → Value f → Bool
is_time f (Value.time_of_day v) = true
is_time f _ = false

abbrev pub has_no_time : (f : Formats) → Object f → Bool
has_no_time f [] = true
has_no_time f ((m, v) ∷ o) = not (is_time f v) && has_no_time f o

json_value-some :
    (f : Formats) (lib : JsonLibrary f) (v : Value f)
    → is_time f v ≡ false
    → (j : lib.Json) × (json_value f lib v ≡ some j)
unfolding json_value normalize_text
json_value-some f lib (Value.int_ v) h = (_, refl)
json_value-some f lib (Value.long_ v) h = (_, refl)
json_value-some f lib (Value.short_ v) h = (_, refl)
json_value-some f lib (Value.enum_ v) h = (_, refl)
json_value-some f lib (Value.bool_ v) h = (_, refl)
json_value-some f lib (Value.float_ v) h = (_, refl)
json_value-some f lib (Value.double_ v) h = (_, refl)
json_value-some f lib (Value.string v) h = (_, refl)
json_value-some f lib (Value.c_string none) h = (_, refl)
json_value-some f lib (Value.c_string (some v)) h = (_, refl)
json_value-some f lib (Value.year_month_day v) h = (_, refl)
json_value-some f lib (Value.time_of_day v) h = cc
json_value-some f lib (Value.date_time v) h = (_, refl)

-- A body that is made, and what it holds under a name.
abbrev pub Holds :
    (f : Formats) (lib : JsonLibrary f) → Option lib.JsonObject → Bytes → Option lib.Json → Type 0
Holds f lib made name j = (body : lib.JsonObject) × (made ≡ some body) × (lib.find body name ≡ j)

module _ (f : Formats) (lib : JsonLibrary f) (laws : JsonLaws f lib) where
  find-serialize_from :
      (body : lib.JsonObject) (o : Object f) (name : Bytes)
      → has_no_time f o ≡ true
      → Holds f lib
          (serialize_from f lib body o)
          name
          (json_or f lib (last_member f is_shown name o) (lib.find body name))
  unfolding serialize_from
  find-serialize_from body [] name h = (body, refl, refl)
  find-serialize_from body ((m, v) ∷ o) name h =
      let timeless : is_time f v ≡ false = ground arith in
      let rest : has_no_time f o ≡ true = ground arith in
      let (j, e) = json_value-some f lib v timeless in
      let (b, made, found) = find-serialize_from body o name rest in
      let (b', made', found') =
        find-serialize_from (lib.assign body m.display_name j) o name rest in
      let law = laws.find-assign body m.display_name name j in
      elim (Bool-cases (has_flag m.column.attribute flag_ignore_on_serializer)) [
        | inl hidden ↦ (b, ground arith, ground arith)
        | inr shown ↦ (b', ground arith, ground arith)
      ]

  find-serialize_admin_from :
      (body : lib.JsonObject) (o : Object f) (name : Bytes)
      → has_no_time f o ≡ true
      → Holds f lib
          (serialize_admin_from f lib body o)
          name
          (json_or f lib (last_member f (λ m. true) name o) (lib.find body name))
  unfolding serialize_admin_from
  find-serialize_admin_from body [] name h = (body, refl, refl)
  find-serialize_admin_from body ((m, v) ∷ o) name h =
      let timeless : is_time f v ≡ false = ground arith in
      let rest : has_no_time f o ≡ true = ground arith in
      let (j, e) = json_value-some f lib v timeless in
      let (b', made', found') =
        find-serialize_admin_from (lib.assign body m.display_name j) o name rest in
      let law = laws.find-assign body m.display_name name j in (b', ground arith, ground arith)

-- An object none of whose members holds a time of day is serialized: its JSON holds under a name the
-- value of the last member of that name without `ignore_on_serializer`, and nothing where there is
-- none; what `serialize_admin` makes of it holds the value of the last member of that name, whatever
-- its flags.
pub find-serialize :
    (f : Formats) (lib : JsonLibrary f) (o : Object f) (name : Bytes)
    → JsonLaws f lib
    → has_no_time f o ≡ true
    → Holds f lib (serialize f lib o) name (json_or f lib (last_member f is_shown name o) none)
      × Holds f lib
          (serialize_admin f lib o)
          name
          (json_or f lib (last_member f (λ m. true) name o) none)
unfolding serialize serialize_admin
find-serialize f lib o name laws h = rw (← laws.find-empty name) (
  find-serialize_from f lib laws lib.empty o name h,
  find-serialize_admin_from f lib laws lib.empty o name h,
)
