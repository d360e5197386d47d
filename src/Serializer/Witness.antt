-- ===== src/Serializer/Witness.antt =====
-- Objects as the texts of their JSON, and the theorem of the serializer at them.
use webcrown.Base.{
  ◌≡◌, refl, List, [], ◌∷◌, ◌++◌, Bytes, codes, true, none, some, lookup, intercalate, StringMap,
}
use webcrown.Orm.Value.{to_string_int, bool_text}
use webcrown.Orm.Tests.{orm_code, plain, user}
use webcrown.Serializer.{
  JsonLibrary, normalize_text, json_value, serialize_from, serialize, serialize_admin_from,
  serialize_admin,
}
use webcrown.Serializer.Laws.{JsonLaws, is_shown, last_member, json_or, Holds, find-serialize}

abbrev quoted : Bytes → Bytes
quoted s = codes "\"" ++ (s ++ codes "\"")

abbrev fields : StringMap → List Bytes
fields [] = []
fields ((k, v) ∷ o) = (quoted k ++ (codes ":" ++ v)) ∷ fields o

-- A value is its text, and an object a list of names and texts, the last assignment in front.
abbrev texts : JsonLibrary plain
texts = record {
  Json = Bytes;
  JsonObject = StringMap;
  empty = [];
  assign = λ body k v. (k, v) ∷ body;
  find = λ body k. lookup k body;
  of_object = λ o. codes "{" ++ (intercalate (codes ",") (fields o) ++ codes "}");
  of_array = λ js. codes "[" ++ (intercalate (codes ",") js ++ codes "]");
  of_integer = to_string_int;
  of_bool = bool_text;
  of_real = λ r. codes "0." ++ r;
  of_text = quoted;
}

texts-JsonLaws : JsonLaws plain texts
unfolding lookup
texts-JsonLaws = record { find-empty = λ k. refl; find-assign = λ body k j v. refl }

-- The age is not shown, but to an administrator.
user_serialized :
    serialize plain texts user
    ≡ some ((codes "name", codes "\"ann\"") ∷ (codes "id", codes "0") ∷ [])
unfolding orm_code serialize serialize_from json_value normalize_text
user_serialized = refl

user_serialized_admin :
    serialize_admin plain texts user
    ≡ some
        ((codes "age", codes "7") ∷ (codes "name", codes "\"ann\"") ∷ (codes "id", codes "0") ∷ [])
unfolding orm_code serialize_admin serialize_admin_from json_value normalize_text
user_serialized_admin = refl

find-serialize_example :
    Holds plain texts
      (serialize plain texts user)
      (codes "age")
      (json_or plain texts (last_member plain is_shown (codes "age") user) none)
    × Holds plain texts
        (serialize_admin plain texts user)
        (codes "age")
        (json_or plain texts (last_member plain (λ m. true) (codes "age") user) none)
find-serialize_example = find-serialize plain texts user (codes "age") texts-JsonLaws refl
