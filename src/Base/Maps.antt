-- ===== src/Base/Maps.antt =====
-- `std::unordered_map<std::string, std::string>` as an association list whose keys differ.
use mathlib.Core.Path.{◌≡◌, refl}
use mathlib.Core.Option.{Option, none, some}
use mathlib.Core.List.{List, [], ◌∷◌}
use native.Mathlib.Omega.{arith}
use webcrown.Base.Tests.{if◌then◌else◌}
use webcrown.Base.Text.{Bytes, bytes_eq, bytes_eq_iff, bytes_eq_refl}

abbrev pub StringMap : Type 0
StringMap = List (Bytes × Bytes)

-- `find(k)`, `none` for `end()`.
unfoldable pub lookup : Bytes → StringMap → Option Bytes
unfolding bytes_eq
lookup k [] = none
lookup k ((j, v) ∷ m) = if bytes_eq j k then some v else lookup k m

-- `insert({k, v})` and `emplace(k, v)`: a key that is there keeps its value.
unfoldable pub insert : Bytes → Bytes → StringMap → StringMap
unfolding bytes_eq
insert k v [] = (k, v) ∷ []
insert k v ((j, w) ∷ m) = if bytes_eq j k then (j, w) ∷ m else (j, w) ∷ insert k v m

unfoldable pub or_else : Option Bytes → Bytes → Bytes
or_else none v = v
or_else (some w) v = w

pub lookup-insert :
    (k j : Bytes) (v : Bytes) (m : StringMap)
    → lookup j (insert k v m) ≡ (if bytes_eq k j then some (or_else (lookup k m) v) else lookup j m)
unfolding lookup insert or_else
lookup-insert k j v [] = refl
lookup-insert k j v ((i, w) ∷ m) = ground (
  arith,
  bytes_eq_iff k j,
  bytes_eq_iff i k,
  bytes_eq_iff i j,
  bytes_eq_refl k,
  bytes_eq_refl i,
  lookup-insert k j v m,
)
