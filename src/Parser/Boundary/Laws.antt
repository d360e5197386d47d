-- ===== src/Parser/Boundary/Laws.antt =====
-- Which place `verify_boundary_value` finds.
use webcrown.Base.{
  ℕ, zero, suc, ◌+◌, ◌-◌, ◌≤◌, ◌<◌, ◌≡◌, ◌≢◌, ◌↔◌, refl, sym, ◌∙◌, [], ◌∷◌, Bytes, Bool, true,
  false, ◌==◌, ==_iff, length, get_or, drop, arith, Bool-cases, inl, inr,
}
use webcrown.Parser.Memory.{Memory, Holds}
use webcrown.Parser.Boundary.{match_loop, verify_loop, verify_boundary_value}

-- The boundary lies at an address, and the byte there is no dash.
abbrev pub Occurs : Memory → Bytes → ℕ → Type 0
Occurs mem bound i = Holds mem i bound × (mem i ≢ b'-')

-- It lies at none of the next addresses, as many as the number says.
abbrev pub NoneIn : Memory → Bytes → ℕ → ℕ → Type 0
NoneIn mem bound zero i = Unit {0}
NoneIn mem bound (suc n) i = (Occurs mem bound i → ⊥) × NoneIn mem bound n (suc i)

-- Of the addresses that are searched, as many as the number says: where the boundary is found, it is
-- the first such place, and where not, there is none.
abbrev pub FirstPlace : Memory → Bytes → ℕ → ℕ → ℕ × Bool → Type 0
FirstPlace mem bound n it (k, true) =
    (it ≤ k) × (k < it + n) × Occurs mem bound k × NoneIn mem bound (k - it) it
FirstPlace mem bound n it (k, false) = NoneIn mem bound n it

drop_head : (s t : Bytes) (i x : ℕ) → drop i s ≡ x ∷ t → get_or s i 0 ≡ x
drop_head [] t zero x e = cc
drop_head [] t (suc i) x e = cc
drop_head (c ∷ s) t zero x e = cc e
drop_head (c ∷ s) t (suc i) x e = drop_head s t i x e

drop_tail : (s t : Bytes) (i x : ℕ) → drop i s ≡ x ∷ t → drop (suc i) s ≡ t
drop_tail [] t zero x e = cc
drop_tail [] t (suc i) x e = cc
drop_tail (c ∷ s) t zero x e = cc e
drop_tail (c ∷ s) t (suc i) x e = drop_tail s t i x e

module _ (mem : Memory) (bound : Bytes) (it : ℕ) where
  abbrev NoDash : Bytes → Type 0
  NoDash [] = Unit {0}
  NoDash (x ∷ s) = mem it ≢ b'-'

  suc_behind : (rest : Bytes) (c : ℕ) → c + suc (length rest) ≡ suc c + length rest
  suc_behind rest c = omega arith

  at_suc : (c : ℕ) → suc (it + c) ≡ it + suc c
  at_suc c = omega arith

  match_sound :
      (rest : Bytes) (c count : ℕ)
      → drop c bound ≡ rest
      → count ≤ c
      → match_loop mem it bound (length rest) c count ≡ c + length rest
      → (count ≡ c) × Holds mem (it + c) rest × NoDash rest
  unfolding match_loop
  match_sound [] c count e le h = (omega (arith, h), tt, tt)
  match_sound (x ∷ rest) c count e le h =
      let tail = drop_tail bound rest c x e in
      let head = drop_head bound rest c x e in
      elim (Bool-cases (mem (it + c) == get_or bound c 0)) [
        | inr other ↦
            let ih =
              match_sound rest (suc c) 0 tail (omega arith)
                (rw (other, match_loop) at h ∙ suc_behind rest c) in
            absurd (omega (arith, ih.0))
        | inl same ↦ elim (Bool-cases (mem it == b'-')) [
          | inl dash ↦
              let ih =
                match_sound rest (suc c) count tail (omega arith)
                  (rw (same, dash, match_loop) at h ∙ suc_behind rest c) in
              absurd (omega (arith, ih.0))
          | inr plain ↦
              let ih =
                match_sound rest (suc c) (suc count) tail (omega arith)
                  (rw (same, plain, match_loop) at h ∙ suc_behind rest c) in
              (omega (arith, ih.0), (ground arith, rw (at_suc c) ih.1), ground arith)
        ]
      ]

  match_complete :
      (rest : Bytes) (c : ℕ)
      → drop c bound ≡ rest
      → mem it ≢ b'-'
      → Holds mem (it + c) rest
      → match_loop mem it bound (length rest) c c ≡ c + length rest
  unfolding match_loop
  match_complete [] c e k h = omega arith
  match_complete (x ∷ rest) c e k h =
      let head = drop_head bound rest c x e in
      let same : (mem (it + c) == get_or bound c 0) ≡ true = ground arith in
      let plain : (mem it == b'-') ≡ false = ground arith in
      rw (match_loop, same, plain)
        (match_complete rest (suc c) (drop_tail bound rest c x e) k (rw (← at_suc c) h.1)
          ∙ sym (suc_behind rest c))

no_dash :
    (mem : Memory) (bound : Bytes) (it : ℕ) (s : Bytes)
    → 0 < length s
    → NoDash mem bound it s
    → mem it ≢ b'-'
no_dash mem bound it [] lt h = elim lt [ ]
no_dash mem bound it (x ∷ s) lt h = h

match_iff :
    (mem : Memory) (bound : Bytes) (it : ℕ)
    → 0 < length bound
    → ((match_loop mem it bound (length bound) 0 0 == length bound) ≡ true) ↔ Occurs mem bound it
match_iff mem bound it lt =
    let here : it + 0 ≡ it = omega arith in
    let len : 0 + length bound ≡ length bound = omega arith in
    (
      λ h.
          let full : match_loop mem it bound (length bound) 0 0 ≡ length bound = (==_iff _ _).0 h in
          let (_, held, plain) =
            match_sound mem bound it bound 0 0 refl (omega arith) (full ∙ sym len) in
          (rw (← here) held, no_dash mem bound it bound lt plain),
      λ o.
          let full = match_complete mem bound it bound 0 refl o.1 (rw here o.0) ∙ len in
          (==_iff _ _).1 full,
    )

later :
    (mem : Memory) (bound : Bytes) (n it : ℕ) (r : ℕ × Bool)
    → (Occurs mem bound it → ⊥)
    → FirstPlace mem bound n (suc it) r
    → FirstPlace mem bound (suc n) it r
later mem bound n it (k, false) no_here h = (no_here, h)
later mem bound n it (k, true) no_here (le, lt, o, before) =
    let rounds : k - it ≡ suc (k - suc it) = omega arith in
    (omega arith, omega arith, o, rw rounds (no_here, before))

verify_loop_first :
    (mem : Memory) (bound : Bytes) (n it : ℕ)
    → 0 < length bound
    → FirstPlace mem bound n it (verify_loop mem bound (length bound) n it)
unfolding verify_loop
verify_loop_first mem bound zero it lt = tt
verify_loop_first mem bound (suc n) it lt =
    let ends = match_iff mem bound it lt in
    elim (Bool-cases (match_loop mem it bound (length bound) 0 0 == length bound)) [
      | inl found ↦
          let rounds : it - it ≡ 0 = omega arith in
          rw (found, rounds) (omega arith, omega arith, ends.0 found, tt)
      | inr not_here ↦ rw not_here (
          later mem bound n it _ (λ o. cc (sym not_here ∙ ends.1 o))
            (verify_loop_first mem bound n (suc it) lt))
    ]

-- The search for a boundary that is not empty stops at the first place in front of the end where
-- the boundary lies and does not begin with a dash, and says so; where there is no such place it
-- says that there is none. The boundary may run past the end of the buffer.
pub verify_boundary_value_first :
    (mem : Memory) (last it : ℕ) (bound : Bytes)
    → 0 < length bound
    → FirstPlace mem bound (last - it) it (verify_boundary_value mem last it bound (length bound))
unfolding verify_boundary_value
verify_boundary_value_first mem last it bound lt = verify_loop_first mem bound (last - it) it lt
