-- ===== src/StringUtils/Laws.antt =====
-- Splitting, prefixes and case of byte strings.
use webcrown.Base.{
  ℕ, ◌≡◌, ◌≢◌, refl, sym, ap, ◌↔◌, List, [], ◌∷◌, ◌++◌, true, false, arith, ◌==◌, ==_refl, Bytes,
  length-append, is_prefix-append, is_prefix_split, append_assoc, append-nil, Bool-cases, inl, inr,
  ◌∙◌,
}
use webcrown.CharClass.{tolower}
use webcrown.CharClass.Laws.{tolower_idem}
use webcrown.StringUtils.{starts_with, emit, split_from, split, to_lower}

-- Tokens with the delimiter between them.
unfoldable pub join : ℕ → List Bytes → Bytes
join d [] = []
join d (t ∷ []) = t
join d (t ∷ u ∷ ts) = t ++ d ∷ join d (u ∷ ts)

abbrev pub Lacks : ℕ → Bytes → Type 0
Lacks d [] = Unit
Lacks d (c ∷ s) = (c ≢ d) × Lacks d s

abbrev pub AllLack : ℕ → List Bytes → Type 0
AllLack d [] = Unit
AllLack d (t ∷ ts) = Lacks d t × AllLack d ts

Lacks-snoc : (d c : ℕ) (s : Bytes) → Lacks d s → c ≢ d → Lacks d (s ++ c ∷ [])
Lacks-snoc d c [] h k = (k, tt)
Lacks-snoc d c (x ∷ s) h k = (h.0, Lacks-snoc d c s h.1 k)

split_from-ne-nil :
    (cur : Bytes) (d : ℕ) (s : Bytes)
    → (t : Bytes) × (ts : List Bytes) × (split_from cur d false s ≡ t ∷ ts)
unfolding split_from
split_from-ne-nil cur d [] = (cur, [], refl)
split_from-ne-nil cur d (c ∷ s) = elim (Bool-cases (c == d)) [
  | inl e ↦ (cur, split_from [] d false s, rw e)
  | inr e ↦ let (t, ts, h) = split_from-ne-nil (cur ++ c ∷ []) d s in (t, ts, rw e h)
]

join-cons : (d : ℕ) (t : Bytes) (ts : List Bytes) → ts ≢ [] → join d (t ∷ ts) ≡ t ++ d ∷ join d ts
unfolding join
join-cons d t [] h = absurd (h refl)
join-cons d t (u ∷ ts) h = refl

join-split_from : (cur : Bytes) (d : ℕ) (s : Bytes) → join d (split_from cur d false s) ≡ cur ++ s
unfolding split_from join
join-split_from cur d [] = sym (append-nil cur)
join-split_from cur d (c ∷ s) = elim (Bool-cases (c == d)) [
  | inl e ↦
      let (t, ts, h) = split_from-ne-nil [] d s in
      rw e (
        join-cons d cur (split_from [] d false s) (λ k. cc)
        ∙ ground (arith, join-split_from [] d s))
  | inr e ↦ rw e (join-split_from (cur ++ c ∷ []) d s ∙ append_assoc cur (c ∷ []) s)
]

AllLack-split_from :
    (cur : Bytes) (d : ℕ) (s : Bytes) → Lacks d cur → AllLack d (split_from cur d false s)
unfolding split_from
AllLack-split_from cur d [] h = (h, tt)
AllLack-split_from cur d (c ∷ s) h =
    ground (
      arith,
      AllLack-split_from [] d s,
      AllLack-split_from (cur ++ c ∷ []) d s,
      Lacks-snoc d c cur h,
    )

-- Splitting loses nothing: the tokens joined by the delimiter are the text, and no token holds the
-- delimiter.
pub join-split : (s : Bytes) (d : ℕ) → (join d (split s d false) ≡ s) × AllLack d (split s d false)
unfolding split
join-split s d = (join-split_from [] d s, AllLack-split_from [] d s tt)

split_from-token :
    (cur : Bytes) (d : ℕ) (t : Bytes) → Lacks d t → split_from cur d false t ≡ (cur ++ t) ∷ []
unfolding split_from
split_from-token cur d [] h = rw append-nil
split_from-token cur d (c ∷ t) h =
    ground (arith, split_from-token (cur ++ c ∷ []) d t h.1, append_assoc cur (c ∷ []) t)

split_from-append :
    (cur : Bytes) (d : ℕ) (t s : Bytes)
    → Lacks d t
    → split_from cur d false (t ++ d ∷ s) ≡ (cur ++ t) ∷ split_from [] d false s
unfolding split_from
split_from-append cur d [] s h = rw (==_refl d, append-nil)
split_from-append cur d (c ∷ t) s h =
    ground (arith, split_from-append (cur ++ c ∷ []) d t s h.1, append_assoc cur (c ∷ []) t)

-- Splitting undoes joining, for tokens that lack the delimiter.
pub split-join :
    (d : ℕ) (t : Bytes) (ts : List Bytes)
    → AllLack d (t ∷ ts)
    → split (join d (t ∷ ts)) d false ≡ t ∷ ts
unfolding split join
split-join d t [] h = split_from-token [] d t h.0
split-join d t (u ∷ ts) h =
    split_from-append [] d t (join d (u ∷ ts)) h.0
    ∙ ap (λ (r : List Bytes). t ∷ r) (split-join d u ts h.1)

-- The tokens that are not empty.
unfoldable pub drop_empty : List Bytes → List Bytes
drop_empty [] = []
drop_empty ([] ∷ ts) = drop_empty ts
drop_empty ((c ∷ t) ∷ ts) = (c ∷ t) ∷ drop_empty ts

emit-drop_empty :
    (t : Bytes) (ts us : List Bytes) → us ≡ drop_empty ts → emit true t us ≡ drop_empty (t ∷ ts)
unfolding emit drop_empty
emit-drop_empty [] ts us e = e
emit-drop_empty (c ∷ t) ts us e = ground arith

split_from_skip :
    (cur : Bytes) (d : ℕ) (s : Bytes)
    → split_from cur d true s ≡ drop_empty (split_from cur d false s)
unfolding split_from
split_from_skip cur d [] = emit-drop_empty cur [] [] (unfold drop_empty in refl)
split_from_skip cur d (c ∷ s) = elim (Bool-cases (c == d)) [
  | inl e ↦ rw e (emit-drop_empty cur _ _ (split_from_skip [] d s))
  | inr e ↦ rw e (split_from_skip (cur ++ c ∷ []) d s)
]

-- With `skip_empty` the tokens are the same, the empty ones left out.
pub split_skip : (s : Bytes) (d : ℕ) → split s d true ≡ drop_empty (split s d false)
unfolding split
split_skip s d = split_from_skip [] d s

-- `starts_with` holds exactly when the text is the prefix and a rest.
starts_with_iff : (s p : Bytes) → (starts_with s p ≡ true) ↔ ((r : Bytes) × (s ≡ p ++ r))
unfolding starts_with
starts_with_iff s p = (
  λ h. is_prefix_split p s (ground arith),
  λ (r, e). rw e (ground (arith, is_prefix-append p r, length-append p r)),
)

-- Lowering twice is lowering once.
pub to_lower_idem : (s : Bytes) → to_lower (to_lower s) ≡ to_lower s
unfolding to_lower
to_lower_idem [] = refl
to_lower_idem (c ∷ s) = unfold tolower in cc (tolower_idem c, to_lower_idem s)
