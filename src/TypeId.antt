-- ===== src/TypeId.antt =====
-- typeid/typeid.go: IDs of a type name and a UUID, and their text form "type_uuid".
-- The UUID package is third-party code: its text form and its parser are the parameters
-- `uuid_string` and `from_string`.
pub mod RoundTrip
mod Examples
use estoria.Prelude.{
  ℕ, zero, suc, ◌+◌, ◌-◌, ◌*◌, ◌/◌, ◌%◌, ◌^◌, ◌≤◌, ◌<◌, min, ◌≡◌, refl, sym, ap, ◌∙◌, ◌≢◌, ◌↔◌, ◌⊎◌,
  inl, inr, Bool, true, false, not, ◌&&◌, ◌||◌, Option, none, some, List, [], ◌∷◌, ◌++◌, map,
  append-nil, append_assoc, arith, ltb, leb, ◌==◌, if◌then◌else◌, ==_iff, Bool-cases, Option-cases,
  length, is_empty, get_elem?, take, drop, length-append, length-drop, take-append-drop,
  take-append, drop-append, All, All-append, All-imp, Int64, int64_mod, int64_neg, max_int64, add64,
  sub64, lt64, le64, max64, min64, add64_lem, sub64_lem, lt64_lem, le64_lem, max64-eq, Text, codes,
  text_eq, text_lt, text_eq_iff, has_prefix, has_suffix, Result, ok, err, ◌>>=◌, map_err, Dict,
  lookup, insert, erase, lookup-insert, lookup-erase, fails_if, ◌or_else◌, wrap, or_else-none,
  or_else-eq_none,
}

-- uuid.UUID, a type of 16 bytes that is only compared: the number that its bytes write.
abbrev pub Uuid : Type 0
Uuid = ℕ

-- uuid.Nil
abbrev pub nil_uuid : Uuid
nil_uuid = 0

pub record TypedId : Type 0 where
  pub type_name : Text
  pub uuid : Uuid

-- ID{}
abbrev pub zero_id : TypedId
zero_id = record { type_name = []; uuid = nil_uuid }

pub data TypeNameError : Type 0 where
  name_required edge_underscore : TypeNameError

pub data ParseError : Type 0 where
  too_short missing_separator bad_uuid not_canonical : ParseError
  bad_type_name : TypeNameError → ParseError

-- `none` is the nil error.
unfoldable pub validate_type_name : Text → Option TypeNameError
unfolding has_prefix has_suffix
validate_type_name name =
    if is_empty name
    then some name_required
    else if has_prefix name (codes "_") || has_suffix name (codes "_")
    then some edge_underscore
    else none

abbrev pub min_id_length : ℕ
min_id_length = 1 + 1 + 36

-- `s[i] == c`, at an index in range
has_byte_at : Text → ℕ → ℕ → Bool
has_byte_at s i c = elim (get_elem? s i) [ none ↦ Bool.false | some b ↦ b == c ]

unfoldable pub new : Text → Uuid → TypedId
new type_name uuid = record { type_name = type_name; uuid = uuid }

module _ (uuid_string : Uuid → Text) where
  -- ID.String
  unfoldable pub to_string : TypedId → Text
  to_string id = id.type_name ++ b'_' ∷ uuid_string id.uuid

  module _ (from_string : Text → Option Uuid) where
    parse_uuid : Text → Text → Result ParseError TypedId
    parse_uuid type_name uuid_str = elim (from_string uuid_str) [
      | none ↦ err bad_uuid
      | some uid ↦
          if not (text_eq (uuid_string uid) uuid_str)
          then err not_canonical
          else ok (record { type_name = type_name; uuid = uid })
    ]

    unfoldable pub parse : Text → Result ParseError TypedId
    unfolding parse_uuid has_byte_at
    parse s =
        if ltb (length s) min_id_length
        then err too_short
        else if not (has_byte_at s (length s - 37) b'_')
        then err missing_separator
        else elim (validate_type_name (take (length s - 37) s)) [
          | some e ↦ err (bad_type_name e)
          | none ↦ parse_uuid (take (length s - 37) s) (drop (length s - 36) s)
        ]
