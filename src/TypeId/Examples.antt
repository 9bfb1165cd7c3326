-- ===== src/TypeId/Examples.antt =====
-- typeid/typeid.go on one ID, with the text of one UUID.
use estoria.Prelude.{
  ◌≡◌, refl, Option, none, some, arith, if◌then◌else◌, Text, codes, text_eq, has_prefix, has_suffix,
  ok,
}
use estoria.TypeId.{Uuid, TypedId, validate_type_name, to_string, parse, parse_uuid, has_byte_at}
use estoria.TypeId.RoundTrip.{parse-to_string, to_string-parse}

abbrev uuid_text : Text
uuid_text = codes "6a1c0b66-3d2f-4a63-9a57-0c9f7d1f2e11"

abbrev uuid_string : Uuid → Text
uuid_string u = uuid_text

abbrev from_string : Text → Option Uuid
from_string s = if text_eq s uuid_text then some 7 else none

abbrev account : TypedId
account = record { type_name = codes "bank_account"; uuid = 7 }

abbrev account_text : Text
account_text = codes "bank_account_6a1c0b66-3d2f-4a63-9a57-0c9f7d1f2e11"

uuid_back : from_string (uuid_string 7) ≡ some 7
unfolding text_eq
uuid_back = refl

account_valid : validate_type_name account.type_name ≡ none
unfolding validate_type_name has_prefix has_suffix text_eq
account_valid = refl

parsed : parse uuid_string from_string account_text ≡ ok account
unfolding parse parse_uuid has_byte_at validate_type_name has_prefix has_suffix text_eq
parsed = refl

parse-to_string_example : parse uuid_string from_string (to_string uuid_string account) ≡ ok account
parse-to_string_example =
    parse-to_string uuid_string from_string account (omega arith) uuid_back account_valid

to_string-parse_example : to_string uuid_string account ≡ account_text
to_string-parse_example = to_string-parse uuid_string from_string account_text account parsed
