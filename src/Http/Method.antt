-- ===== src/Http/Method.antt =====
-- include/webcrown/server/http/http_method.hpp and method.inl
use webcrown.Base.{
  ◌≡◌, ◌≢◌, refl, arith, Bytes, codes, length, ltb, bytes_eq, bytes_eq_iff, if◌then◌else◌,
}

pub data HttpMethod : Type 0 where
  unknown post get delete_ options patch : HttpMethod

-- `to_string(http_method)` returns the empty text for each method.
unfoldable pub to_string : HttpMethod → Bytes
to_string m = codes ""

unfoldable pub to_method : Bytes → HttpMethod
unfolding bytes_eq
to_method m =
    if ltb (length m) 3
    then unknown
    else if bytes_eq m (codes "GET")
    then get
    else if bytes_eq m (codes "POST")
    then post
    else if bytes_eq m (codes "DELETE")
    then delete_
    else if bytes_eq m (codes "OPTIONS")
    then options
    else if bytes_eq m (codes "PATCH")
    then patch
    else unknown

-- The word of a method in a request line.
unfoldable pub method_word : HttpMethod → Bytes
method_word unknown = codes ""
method_word post = codes "POST"
method_word get = codes "GET"
method_word delete_ = codes "DELETE"
method_word options = codes "OPTIONS"
method_word patch = codes "PATCH"

-- The words are read back as their methods.
pub to_method-method_word : (m : HttpMethod) → to_method (method_word m) ≡ m
unfolding to_method method_word
to_method-method_word unknown = refl
to_method-method_word post = refl
to_method-method_word get = refl
to_method-method_word delete_ = refl
to_method-method_word options = refl
to_method-method_word patch = refl

-- Only its own word is read as a method other than `unknown`.
pub method_word-to_method :
    (s : Bytes) → to_method s ≢ HttpMethod.unknown → method_word (to_method s) ≡ s
unfolding to_method method_word
method_word-to_method s h = ground (
  arith,
  bytes_eq_iff s (codes "GET"),
  bytes_eq_iff s (codes "POST"),
  bytes_eq_iff s (codes "DELETE"),
  bytes_eq_iff s (codes "OPTIONS"),
  bytes_eq_iff s (codes "PATCH"),
)
