-- ===== src/Projection.antt =====
-- projection/projection.go: the identity of one version of a named projection. A name is checked byte
-- by byte, where the source decodes it: a byte outside ASCII is refused either way.
pub mod Fold
pub mod Folding
mod Examples
use estoria.Prelude.{
  ℕ, ◌-◌, ◌≤◌, ◌<◌, ◌≡◌, ◌↔◌, Bool, true, false, not, ◌&&◌, ◌||◌, Option, none, some, [], ◌∷◌,
  arith, ltb, leb, ◌==◌, length, is_empty, get_elem?, Int64, int64_neg, lt64, lt64_lem, Text,
  text_eq, text_eq_iff, fails_if, ◌or_else◌,
}

pub record ProjectionId : Type 0 where
  pub name : Text
  pub version : Int64

-- projection.ID{}
abbrev pub zero_id : ProjectionId
zero_id = record { name = []; version = 0 }

pub data IdError : Type 0 where
  name_required name_too_long bad_first_letter underscore_last version_not_positive : IdError
  bad_character : IdError

abbrev pub max_name_length : ℕ
max_name_length = 40

abbrev is_lower : ℕ → Bool
is_lower c = leb b'a' c && leb c b'z'

abbrev is_allowed : ℕ → Bool
is_allowed c = is_lower c || (leb b'0' c && leb c b'9') || c == b'_'

-- The loop over the characters.
unfoldable pub all_allowed : Text → Bool
all_allowed [] = true
all_allowed (c ∷ cs) = is_allowed c && all_allowed cs

-- A byte at an index in range that passes a test.
abbrev byte_is : (ℕ → Bool) → Option ℕ → Bool
byte_is f none = false
byte_is f (some c) = f c

-- ID.Validate
unfoldable pub validate_id : ProjectionId → Option IdError
validate_id id =
    fails_if (is_empty id.name) name_required
    or_else fails_if (ltb max_name_length (length id.name)) name_too_long
    or_else fails_if (not (byte_is is_lower (get_elem? id.name 0))) bad_first_letter
    or_else fails_if (byte_is (λ c. c == b'_') (get_elem? id.name (length id.name - 1)))
        underscore_last
    or_else fails_if (lt64 id.version 1) version_not_positive
    or_else fails_if (not (all_allowed id.name)) bad_character

-- `a == b` on IDs
unfoldable pub id_eq : ProjectionId → ProjectionId → Bool
id_eq a b = text_eq a.name b.name && a.version == b.version

pub id_eq_iff : (a b : ProjectionId) → (id_eq a b ≡ true) ↔ (a ≡ b)
unfolding id_eq
id_eq_iff a b = ground (arith, text_eq_iff a.name b.name)

-- Whether an ID is valid rests on its name, where its version is positive.
pub validate_id-version :
    (name : Text) (v w : Int64)
    → 1 ≤ w
    → w < int64_neg
    → validate_id (record { name = name; version = v }) ≡ none
    → validate_id (record { name = name; version = w }) ≡ none
unfolding validate_id
validate_id-version name v w lo hi h = ground (arith, lt64_lem w 1 hi)

pub validate_id-eq_none :
    (id : ProjectionId)
    → validate_id id ≡ none
    → (lt64 id.version 1 ≡ false) × (is_empty id.name ≡ false)
unfolding validate_id
validate_id-eq_none id h = ground arith
