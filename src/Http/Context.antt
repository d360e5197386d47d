-- ===== src/Http/Context.antt =====
-- `http_context` of include/webcrown/server/http/http_request.hpp: the values that an application
-- hands to its callbacks, by name. A `std::any` is a value of any type here.
use webcrown.Base.{
  ◌≡◌, refl, List, [], ◌∷◌, Bytes, bytes_eq, bytes_eq_iff, bytes_eq_refl, Option, none, some,
  if◌then◌else◌, arith,
}

-- The map, whose keys differ.
pub record HttpContext {ℓ} (A : Type ℓ) : Type ℓ where
  pub values : List (Bytes × A)

unfoldable pub find_value {ℓ} : {A : Type ℓ} → Bytes → List (Bytes × A) → Option A
find_value k [] = none
find_value k ((j, v) ∷ m) = if bytes_eq j k then some v else find_value k m

-- `_values[k] = v`
unfoldable pub assign_value {ℓ} : {A : Type ℓ} → Bytes → A → List (Bytes × A) → List (Bytes × A)
assign_value k v [] = (k, v) ∷ []
assign_value k v ((j, w) ∷ m) =
    let rest = assign_value k v m in if bytes_eq j k then (j, v) ∷ m else (j, w) ∷ rest

abbrev first_value {ℓ} : {A : Type ℓ} → Bytes → A → List (Bytes × A) → List (Bytes × A)
first_value k v [] = (k, v) ∷ []
first_value k v (x ∷ m) = assign_value k v (x ∷ m)

unfoldable pub add_value {ℓ} : {A : Type ℓ} → Bytes → A → HttpContext A → HttpContext A
add_value k v c = record c { values = first_value k v c.values }

find_value-assign_value {ℓ} :
    {A : Type ℓ} (k j : Bytes) (v : A) (m : List (Bytes × A))
    → find_value j (assign_value k v m) ≡ (if bytes_eq k j then some v else find_value j m)
unfolding find_value assign_value
find_value-assign_value k j v [] = refl
find_value-assign_value k j v ((i, w) ∷ m) = ground (
  arith,
  bytes_eq_iff k j,
  bytes_eq_iff i k,
  bytes_eq_iff i j,
  bytes_eq_refl k,
  bytes_eq_refl i,
  find_value-assign_value k j v m,
)

find_value-first_value {ℓ} :
    {A : Type ℓ} (k j : Bytes) (v : A) (m : List (Bytes × A))
    → find_value j (first_value k v m) ≡ (if bytes_eq k j then some v else find_value j m)
unfolding find_value assign_value
find_value-first_value k j v [] = refl
find_value-first_value k j v (x ∷ m) = find_value-assign_value k j v (x ∷ m)

-- A value that is added is the one of its name, also where the name had another; the others stay.
find_value-add_value {ℓ} :
    {A : Type ℓ} (k j : Bytes) (v : A) (c : HttpContext A)
    → find_value j (add_value k v c).values
      ≡ (if bytes_eq k j then some v else find_value j c.values)
unfolding add_value
find_value-add_value k j v c = find_value-first_value k j v c.values
