-- ===== src/StringUtils.antt =====
-- include/webcrown/common/impl/string_common.cpp
pub mod Laws
pub mod Replace
use webcrown.Base.{
  ℕ, zero, suc, ◌+◌, ◌-◌, List, [], ◌∷◌, ◌++◌, map, Bool, true, false, ◌&&◌, ◌||◌, not, Option,
  none, some, leb, ltb, ◌==◌, if◌then◌else◌, Bytes, length, is_prefix, take, drop, find_from,
}
use webcrown.CharClass.{tolower, toupper}

-- `unescape` counts the characters and returns the empty text.
unfoldable pub unescape : Bytes → Bytes
unescape s = []

unfoldable pub starts_with : Bytes → Bytes → Bool
unfolding is_prefix
starts_with source prefix = leb (length prefix) (length source) && is_prefix prefix source

-- What a round of `split` does with a token; `cur` is the text from `pos_last` on.
unfoldable pub emit : Bool → Bytes → List Bytes → List Bytes
emit skip_empty token rest =
    if not skip_empty || not (length token == 0) then token ∷ rest else rest

unfoldable pub split_from : Bytes → ℕ → Bool → Bytes → List Bytes
unfolding emit
split_from cur delimiter skip_empty [] = emit skip_empty cur []
split_from cur delimiter skip_empty (c ∷ s) =
    let closed = split_from [] delimiter skip_empty s in
    let longer = split_from (cur ++ c ∷ []) delimiter skip_empty s in
    if c == delimiter then emit skip_empty cur closed else longer

unfoldable pub split : Bytes → ℕ → Bool → List Bytes
unfolding split_from
split str delimiter skip_empty = split_from [] delimiter skip_empty str

unfoldable pub to_lower : Bytes → Bytes
unfolding tolower
to_lower str = map tolower str

unfoldable pub to_upper : Bytes → Bytes
unfolding toupper
to_upper str = map toupper str

-- `str.find(substr, pos)`
unfoldable pub find_at : Bytes → Bytes → ℕ → Option ℕ
unfolding find_from
find_at substr str pos = if ltb (length str) pos then none else find_from substr (drop pos str) pos

-- The loop of `replace_all`: the text and whether anything was replaced; `none` if the rounds run
-- out.
unfoldable pub replace_loop : Bytes → Bytes → ℕ → Bytes → ℕ → Bool → Option (Bytes × Bool)
unfolding find_at
replace_loop substr with zero str pos result = none
replace_loop substr with (suc n) str pos result = elim (find_at substr str pos) [
  | none ↦ some (str, result)
  | some i ↦
      replace_loop substr with n (take i str ++ (with ++ drop (i + length substr) str))
        (i + length with) true
]

-- A round for each character, and one to find no more.
unfoldable pub replace_all : Bytes → Bytes → Bytes → Option (Bytes × Bool)
unfolding replace_loop
replace_all str substr with = replace_loop substr with (length str + 1) str 0 false
