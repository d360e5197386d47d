-- ===== src/Parser/Defs.antt =====
-- The parser object, and the computations over it. A member function that reads through the
-- pointer `it` takes and returns a `Cursor`; `if (ec) return` is `stop`, which keeps the cursor as
-- the failing function left it.
use webcrown.Base.{ℕ, List, [], Bytes, StringMap, Bool, if◌then◌else◌, ◌≡◌, refl, ◌⊎◌, inl, inr}
use webcrown.Http.Error.{HttpError}
use webcrown.Http.Phase.{ParsePhase, ContentType}
use webcrown.Http.Request.{HttpFormUpload}

-- The members of class `parser`. `header_content_type` has no initial value in the source, and
-- is not read before `parse_content_type` writes it.
pub record Parser : Type 0 where
  pub parse_phase : ParsePhase
  pub method : Bytes
  pub target : Bytes
  pub protocol_version : ℕ
  pub headers : StringMap
  pub uploads : List HttpFormUpload
  pub header_content_type : ContentType
  pub buffer_size_readed : ℕ
  pub multipart_buffer : Bytes
  pub boundary_value_length : ℕ
  pub boundary_value : Bytes
  pub upload_body_headers : StringMap

-- The constructor.
unfoldable pub new_parser : Parser
new_parser = record {
  parse_phase = ParsePhase.not_started;
  method = [];
  target = [];
  protocol_version = 0;
  headers = [];
  uploads = [];
  header_content_type = ContentType.not_specified;
  buffer_size_readed = 0;
  multipart_buffer = [];
  boundary_value_length = 0;
  boundary_value = [];
  upload_body_headers = [];
}

pub record Cursor : Type 0 where
  pub parser : Parser
  pub it : ℕ

abbrev pub at : Cursor → ℕ → Cursor
at c i = record c { it = i }

abbrev pub in_phase : Cursor → ParsePhase → Cursor
in_phase c p = record { parser = record (c.parser) { parse_phase = p }; it = c.it }

pub data Flow {ℓ} (A : Type ℓ) : Type ℓ where
  next : A → Cursor → Flow A
  stop : HttpError → Cursor → Flow A

abbrev pub M {ℓ} : Type ℓ → Type ℓ
M A = Cursor → Flow A

infixl 5 ◌>>=◌ ◌>>◌
abbrev pub ◌>>=◌ {ℓ κ} : {A : Type ℓ} {B : Type κ} → M A → (A → M B) → M B
◌>>=◌ m f c = elim (m c) [ stop e d ↦ stop e d | next a d ↦ f a d ]

abbrev pub ◌>>◌ {ℓ κ} : {A : Type ℓ} {B : Type κ} → M A → M B → M B
◌>>◌ m k c = elim (m c) [ stop e d ↦ stop e d | next a d ↦ k d ]

-- `ec = make_error(e); return;` if the test holds.
abbrev pub fail_if : Bool → HttpError → M (Unit {0})
fail_if b e c = if b then stop e c else next tt c

abbrev pub set_phase : ParsePhase → M (Unit {0})
set_phase p c = next tt (in_phase c p)

abbrev pub get_it : M ℕ
get_it c = next c.it c

abbrev pub set_it : ℕ → M (Unit {0})
set_it i c = next tt (at c i)

-- A step that succeeds, and what follows it.
module _ {ℓ κ} {A : Type ℓ} {B : Type κ} where
  pub bind_next :
      (m : M A) (f : A → M B) {c d : Cursor} {a : A} → m c ≡ next a d → (m >>= f) c ≡ f a d
  bind_next m f h = rw (h, ◌>>=◌)

  pub then_next : (m : M A) (k : M B) {c d : Cursor} {a : A} → m c ≡ next a d → (m >> k) c ≡ k d
  then_next m k h = rw (h, ◌>>◌)

  -- A step that fails.
  pub bind_stop :
      (m : M A) (f : A → M B) {c d : Cursor} {e : HttpError}
      → m c ≡ stop e d
      → (m >>= f) c ≡ stop e d
  bind_stop m f h = rw (h, ◌>>=◌)

-- What holds of the steps of a computation that succeeded.
pub Flow-cases {ℓ} :
    {A : Type ℓ} (r : Flow A)
    → ((a : A) × (d : Cursor) × (r ≡ next a d)) ⊎ ((e : HttpError) × (d : Cursor) × (r ≡ stop e d))
Flow-cases (next a d) = inl (a, d, refl)
Flow-cases (stop e d) = inr (e, d, refl)

module _ {ℓ κ} {A : Type ℓ} {B : Type κ} where
  pub bind_inv :
      (m : M A) (f : A → M B) (c d : Cursor) (b : B)
      → (m >>= f) c ≡ next b d
      → (a : A) × (i : Cursor) × (m c ≡ next a i) × (f a i ≡ next b d)
  bind_inv m f c d b h = elim (Flow-cases (m c)) [
    | inl (a, i, e) ↦ (a, i, e, rw (e, ◌>>=◌) at h)
    | inr (k, i, e) ↦ cc (rw (e, ◌>>=◌) at h)
  ]

  pub then_inv :
      (m : M A) (k : M B) (c d : Cursor) (b : B)
      → (m >> k) c ≡ next b d
      → (a : A) × (i : Cursor) × (m c ≡ next a i) × (k i ≡ next b d)
  then_inv m k c d b h = elim (Flow-cases (m c)) [
    | inl (a, i, e) ↦ (a, i, e, rw (e, ◌>>◌) at h)
    | inr (x, i, e) ↦ cc (rw (e, ◌>>◌) at h)
  ]

  -- A computation that stopped: its first step did, or what follows it.
  pub bind_stop_inv :
      (m : M A) (f : A → M B) (c d : Cursor) (x : HttpError)
      → (m >>= f) c ≡ stop x d
      → (m c ≡ stop x d) ⊎ ((a : A) × (i : Cursor) × (m c ≡ next a i) × (f a i ≡ stop x d))
  bind_stop_inv m f c d x h = elim (Flow-cases (m c)) [
    | inl (a, i, e) ↦ inr (a, i, e, rw (e, ◌>>=◌) at h)
    | inr (k, i, e) ↦
        let same : Path (Flow B) (stop k i) (stop x d) = rw (e, ◌>>=◌) at h in
        let (f, g) : (k ≡ x) × (i ≡ d) = (cc same, cc same) in inl (rw (e, f, g) refl)
  ]

  pub then_stop_inv :
      (m : M A) (k : M B) (c d : Cursor) (x : HttpError)
      → (m >> k) c ≡ stop x d
      → (m c ≡ stop x d) ⊎ ((a : A) × (i : Cursor) × (m c ≡ next a i) × (k i ≡ stop x d))
  then_stop_inv m k c d x h = elim (Flow-cases (m c)) [
    | inl (a, i, e) ↦ inr (a, i, e, rw (e, ◌>>◌) at h)
    | inr (y, i, e) ↦
        let same : Path (Flow B) (stop y i) (stop x d) = rw (e, ◌>>◌) at h in
        let (f, g) : (y ≡ x) × (i ≡ d) = (cc same, cc same) in inl (rw (e, f, g) refl)
  ]
