-- ===== src/CharClass/Laws.antt =====
-- The character tables against the grammars that their comments quote.
use webcrown.Base.{
  ◌+◌, if◌then◌else◌, ℕ, suc, zero, ◌<◌, ◌≡◌, refl, Bool, true, false, ◌&&◌, ◌||◌, [], ◌∷◌, arith,
  leb, ◌==◌, Bytes, codes, not,
}
use webcrown.CharClass.{
  is_token_char, is_pathchar, is_valid_token, isspace, isalpha, tolower, toupper,
}

-- The test passes at each of the `left` bytes from `i` on.
passes_from : (ℕ → Bool) → ℕ → ℕ → Bool
passes_from test i zero = true
passes_from test i (suc left) = if test i then passes_from test (suc i) left else false

at_distance :
    (test : ℕ → Bool) (i left d c : ℕ)
    → i + d ≡ c
    → d < left
    → passes_from test i left ≡ true
    → test c ≡ true
unfolding passes_from
at_distance test i zero d c e lt h = absurd (omega arith)
at_distance test i (suc left) zero c e lt h =
    let here : c ≡ i = omega arith in rw here (ground arith)
at_distance test i (suc left) (suc d) c e lt h =
    at_distance test (suc i) left d c (omega arith) (omega arith) (ground arith)

passes : (test : ℕ → Bool) (c : ℕ) → passes_from test 0 256 ≡ true → c < 256 → test c ≡ true
passes test c h lt = at_distance test 0 256 c c (omega arith) lt h

same : Bool → Bool → Bool
same true b = b
same false b = not b

eq_of_same : (a b : Bool) → same a b ≡ true → a ≡ b
unfolding same
eq_of_same a b h = ground arith

unfoldable pub one_of : Bytes → ℕ → Bool
one_of [] c = false
one_of (x ∷ xs) c = x == c || one_of xs c

-- tchar = "!" | "#" | "$" | "%" | "&" | "'" | "*" | "+" | "-" | "." | "^" | "_" | "`" | "|" | "~"
--       | DIGIT | ALPHA
unfoldable pub is_tchar : ℕ → Bool
unfolding one_of
is_tchar c =
    one_of (codes "!#$%&'*+-.^_`|~") c
    || (leb b'0' c && leb c b'9')
    || (leb b'A' c && leb c b'Z')
    || (leb b'a' c && leb c b'z')

token_rows : passes_from (λ c. same (is_token_char c) (is_tchar c)) 0 256 ≡ true
unfolding passes_from same is_token_char is_tchar
token_rows = refl

is_token_char-tchar : (c : ℕ) → c < 256 → is_token_char c ≡ is_tchar c
is_token_char-tchar c h = eq_of_same _ _ (passes _ c token_rows h)

-- TEXT: any octet but the controls and the space.
unfoldable pub is_text_octet : ℕ → Bool
is_text_octet c = leb 0x21 c && not (c == 0x7f)

path_rows : passes_from (λ c. same (is_pathchar c) (is_text_octet c)) 0 256 ≡ true
unfolding passes_from same is_pathchar is_text_octet
path_rows = refl

is_pathchar-text : (c : ℕ) → c < 256 → is_pathchar c ≡ is_text_octet c
is_pathchar-text c h = eq_of_same _ _ (passes _ c path_rows h)

-- For every byte the table of `is_token_char` is the tchar set of its comment, and the table of
-- `is_pathchar` is any octet but controls, DEL and the space.
pub char_tables :
    (c : ℕ) → c < 256 → (is_token_char c ≡ is_tchar c) × (is_pathchar c ≡ is_text_octet c)
char_tables c h = (is_token_char-tchar c h, is_pathchar-text c h)

-- A tchar is a byte that `is_valid_token` accepts, so a field name may hold any of them.
token_valid : passes_from (λ c. not (is_token_char c) || is_valid_token c) 0 256 ≡ true
unfolding passes_from is_token_char is_valid_token
token_valid = refl

pub is_valid_token_of_is_token_char :
    (c : ℕ) → c < 256 → is_token_char c ≡ true → is_valid_token c ≡ true
is_valid_token_of_is_token_char c h e = ground (arith, passes _ c token_valid h)

alpha_token : passes_from (λ c. not (isalpha c) || is_token_char c) 0 256 ≡ true
unfolding passes_from is_token_char isalpha
alpha_token = refl

pub isalpha-lt : (c : ℕ) → isalpha c ≡ true → c < 256
unfolding isalpha
isalpha-lt c h = ground arith

pub is_token_char_of_isalpha : (c : ℕ) → isalpha c ≡ true → is_token_char c ≡ true
is_token_char_of_isalpha c e = ground (arith, passes _ c alpha_token, isalpha-lt c)

pub isspace_of_isalpha : (c : ℕ) → isalpha c ≡ true → isspace c ≡ false
unfolding isalpha isspace
isspace_of_isalpha c e = ground arith

pub tolower_idem : (c : ℕ) → tolower (tolower c) ≡ tolower c
unfolding tolower
tolower_idem c = ground arith

pub toupper_idem : (c : ℕ) → toupper (toupper c) ≡ toupper c
unfolding toupper
toupper_idem c = ground arith
