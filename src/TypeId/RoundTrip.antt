-- ===== src/TypeId/RoundTrip.antt =====
-- typeid/typeid.go: `Parse` and `ID.String` together.
use estoria.Prelude.{
  ℕ, zero, suc, ◌+◌, ◌-◌, ◌<◌, ◌≡◌, refl, ap, Option, none, some, [], ◌∷◌, ◌++◌, arith, length,
  get_elem?, take, drop, length-append, take-append, Text, text_eq_iff, ok,
}
use estoria.TypeId.{Uuid, TypedId, validate_type_name, has_byte_at, to_string, parse, parse_uuid}

get_elem?-append_cons :
    (xs ys : Text) (c n : ℕ) → n ≡ length xs → get_elem? (xs ++ c ∷ ys) n ≡ some c
get_elem?-append_cons [] ys c zero e = refl
get_elem?-append_cons [] ys c (suc n) e = absurd (omega arith)
get_elem?-append_cons (x ∷ xs) ys c zero e = absurd (omega arith)
get_elem?-append_cons (x ∷ xs) ys c (suc n) e = get_elem?-append_cons xs ys c n (omega arith)

drop-append_cons : (xs ys : Text) (c n : ℕ) → n ≡ length xs + 1 → drop n (xs ++ c ∷ ys) ≡ ys
drop-append_cons [] ys c zero e = absurd (omega arith)
drop-append_cons [] ys c (suc zero) e = refl
drop-append_cons [] ys c (suc (suc n)) e = absurd (omega arith)
drop-append_cons (x ∷ xs) ys c zero e = absurd (omega arith)
drop-append_cons (x ∷ xs) ys c (suc n) e = drop-append_cons xs ys c n (omega arith)

-- A text with the byte `c` at `n` is what stands before, `c`, and what stands after.
split_at_byte : (s : Text) (c n : ℕ) → get_elem? s n ≡ some c → take n s ++ c ∷ drop (n + 1) s ≡ s
split_at_byte [] c n e = cc
split_at_byte (x ∷ s) c zero e = ground arith
split_at_byte (x ∷ s) c (suc n) e =
    let m : ◌≡◌ {A = ℕ} (suc n + 1) (suc (n + 1)) = omega arith in
    rw m (ap (λ l. x ∷ l) (split_at_byte s c n e))

length_pos : (s : Text) → validate_type_name s ≡ none → 0 < length s
unfolding validate_type_name
length_pos [] h = cc
length_pos (x ∷ s) h = omega arith

module _ (uuid_string : Uuid → Text) (from_string : Text → Option Uuid) where
  -- An ID whose type name is valid is parsed back from its text, where the UUID's text has 36 bytes
  -- and is parsed back to the UUID.
  pub parse-to_string :
      (id : TypedId)
      → length (uuid_string id.uuid) ≡ 36
      → from_string (uuid_string id.uuid) ≡ some id.uuid
      → validate_type_name id.type_name ≡ none
      → parse uuid_string from_string (to_string uuid_string id) ≡ ok id
  unfolding parse to_string parse_uuid has_byte_at
  parse-to_string id len back valid =
      let u : Text = uuid_string id.uuid in
      let s : Text = id.type_name ++ b'_' ∷ u in
      let len_s : length s ≡ length id.type_name + 37 =
        omega (arith, length-append id.type_name (b'_' ∷ u)) in
      ground (
        arith,
        len_s,
        length_pos id.type_name valid,
        get_elem?-append_cons id.type_name u b'_' (length s - 37) (omega arith),
        take-append id.type_name (b'_' ∷ u) (length s - 37) (omega arith),
        drop-append_cons id.type_name u b'_' (length s - 36) (omega arith),
        text_eq_iff u u,
      )

  -- Whatever text is accepted is the text of the ID that comes back.
  pub to_string-parse :
      (s : Text) (id : TypedId)
      → parse uuid_string from_string s ≡ ok id
      → to_string uuid_string id ≡ s
  unfolding parse to_string parse_uuid has_byte_at
  to_string-parse s id h = ground (
    arith,
    split_at_byte s b'_' (length s - 37),
    text_eq_iff (uuid_string id.uuid) (drop (length s - 36) s),
  )
