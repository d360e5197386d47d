-- ===== src/Http/Response/Laws.antt =====
-- The length that a built response announces.
use webcrown.Base.{[], ◌∷◌, ◌⊎◌, ◌≡◌, Bytes, codes, StringMap}

abbrev length_key : Bytes
length_key = codes "Content-Length"

-- An entry is in a map.
abbrev pub IsEntry : Bytes × Bytes → StringMap → Type 0
IsEntry e [] = ⊥
IsEntry e (f ∷ m) = (e ≡ f) ⊎ IsEntry e m
