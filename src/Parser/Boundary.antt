-- ===== src/Parser/Boundary.antt =====
-- The boundary of a multipart body: `verify_boundary_value` and the boundary parameter's text.
pub mod Laws
use webcrown.Base.{
  ℕ, zero, suc, ◌+◌, ◌-◌, [], ◌∷◌, Bytes, codes, Bool, true, false, ◌||◌, not, ◌==◌, if◌then◌else◌,
  get_or, is_prefix, drop,
}
use webcrown.Parser.Memory.{Memory}

-- The inner loop: `match_count` after the rounds left, from index `c` on.
unfoldable pub match_loop : Memory → ℕ → Bytes → ℕ → ℕ → ℕ → ℕ
match_loop mem it bound zero c match_count = match_count
match_loop mem it bound (suc n) c match_count = match_loop mem it bound n (suc c) (
    if not (mem (it + c) == get_or bound c 0)
    then 0
    else if mem it == b'-'
    then match_count
    else suc match_count)

-- `verify_boundary_value`: where the pointer stops, and whether the boundary was found there.
unfoldable pub verify_loop : Memory → Bytes → ℕ → ℕ → ℕ → ℕ × Bool
verify_loop mem bound len zero it = (it, false)
verify_loop mem bound len (suc n) it =
    let rest = verify_loop mem bound len n (suc it) in
    if match_loop mem it bound len 0 0 == len then (it, true) else rest

unfoldable pub verify_boundary_value : Memory → ℕ → ℕ → Bytes → ℕ → ℕ × Bool
verify_boundary_value mem last it bound len = verify_loop mem bound len (last - it) it

-- The characters `=` and `-` in front of the boundary.
unfoldable pub skip_marks : Bytes → Bytes
skip_marks [] = []
skip_marks (c ∷ s) = if c == b'=' || c == b'-' then skip_marks s else c ∷ s

-- `boundary_value_` after the text `boundary` and the marks; the other text is left as it is, by
-- the `return` of the first character that differs.
unfoldable pub boundary_of : Bytes → Bytes × Bool
boundary_of s = if is_prefix (codes "boundary") s then (skip_marks (drop 8 s), true) else (s, false)
