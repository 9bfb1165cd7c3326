-- ===== src/EventStore/Memory/Examples.antt =====
-- eventstore/memory on a store of one stream with two events. The codec is the identity, and all UUIDs
-- have one text.
use estoria.Prelude.{
  ℕ, zero, suc, ◌+◌, ◌≤◌, ◌<◌, ◌≡◌, refl, inl, inr, Bool, true, false, Option, none, some, List, [],
  ◌∷◌, ◌++◌, arith, ltb, ◌==◌, if◌then◌else◌, Bool-cases, length, Int64, int64_neg, add64, sub64,
  lt64, Text, codes, text_eq, ok, err, lookup, insert,
}
use mathlib.Core.List.{reverse}
use estoria.TypeId.{TypedId, Uuid, zero_id, new, to_string}
use estoria.EventStore.{
  Event, WritableEvent, Time, ReadStreamOptions, AppendStreamOptions, ReadAllOptions,
  DeleteStreamOptions, forward, reverse as backwards, stream_version_mismatch, collect,
}
use estoria.EventStore.Memory.{
  Stream, EventStore, new_event_store, tip, commit, event_at, write_one, write_events,
  append_stream, delete_stream, read_all, next, limit_of, payloads, entry_of,
}
use estoria.EventStore.Memory.Reads.{decode_all, limited}
use estoria.EventStore.Memory.Cursor.{above, up_to, IsSound}
use estoria.EventStore.Memory.Invariant.{IsValid, log_of, new_event_store-IsValid}
use estoria.EventStore.Memory.Writes.{
  Accepts, visible, append_stream-IsValid, append_stream_err, append_stream_ok,
}
use estoria.EventStore.Memory.Deletes.{delete_stream-IsValid}
use estoria.EventStore.Memory.Truncation.{delete_stream_truncates, delete_stream_whole}
use estoria.EventStore.Memory.Contract.{
  read_events, read_forward, read_reverse, read_forward_negative,
}
use estoria.EventStore.Memory.Global.{IsSearch, past, read_all_lem}

abbrev uuid_string : Uuid → Text
uuid_string u = codes "6a1c0b66-3d2f-4a63-9a57-0c9f7d1f2e11"

abbrev marshal : Event → Option Event
marshal event = some event

abbrev unmarshal : Event → Option Event
unmarshal event = some event

abbrev draw : ℕ → Uuid × Time
draw i = (i + 1, 0)

abbrev account : TypedId
account = record { type_name = codes "account"; uuid = 7 }

abbrev key : Text
key = codes "account_6a1c0b66-3d2f-4a63-9a57-0c9f7d1f2e11"

abbrev deposit : WritableEvent
deposit = record {
  type_name = codes "deposit";
  payload = [];
  data_content_type = codes "json";
  metadata = [];
}

abbrev no_options : AppendStreamOptions
no_options = record { expect_version = none; stream_must_not_exist = false }

abbrev at_version : Int64 → AppendStreamOptions
at_version v = record { expect_version = some v; stream_must_not_exist = false }

abbrev empty_store : EventStore Event
empty_store = new_event_store

-- The store after an append of two events.
abbrev store : EventStore Event
store =
    (append_stream uuid_string marshal unmarshal draw empty_store account (deposit ∷ deposit ∷ [])
      no_options).1

stored : Int64 → Event
stored v = record {
  id = record { type_name = codes "deposit"; uuid = v };
  stream_id = account;
  stream_version = v;
  global_position = some v;
  timestamp = 0;
  payload = [];
  data_content_type = codes "json";
  metadata = [];
}

abbrev entry : Stream Event
entry = record { first_version = 1; events = stored 1 ∷ stored 2 ∷ [] }

store-IsValid : IsValid store
store-IsValid =
    append_stream-IsValid uuid_string marshal unmarshal draw empty_store account
      (deposit ∷ deposit ∷ []) no_options new_event_store-IsValid (omega arith)

found : lookup (to_string uuid_string account) store.streams ≡ some entry
unfolding append_stream write_one write_events event_at commit tip add64 sub64 lt64 to_string new
    lookup insert text_eq stored
found = refl

store_counter : store.global_counter ≡ 2
unfolding append_stream write_one write_events event_at commit tip add64 sub64 lt64 to_string new
    lookup insert text_eq
store_counter = refl

entry-IsSound : IsSound entry
entry-IsSound = record { positive = omega arith; representable = omega arith }

append_stream-IsValid_example :
    IsValid
      (append_stream uuid_string marshal unmarshal draw store account
        (deposit ∷ [])
        (at_version 2)).1
append_stream-IsValid_example =
    append_stream-IsValid uuid_string marshal unmarshal draw store account (deposit ∷ [])
      (at_version 2) store-IsValid (omega (arith, store_counter))

refused :
    (append_stream uuid_string marshal unmarshal draw store account (deposit ∷ []) (at_version 1)).0
    ≡ err (stream_version_mismatch account 1 2)
unfolding append_stream write_one write_events event_at commit tip add64 sub64 lt64 to_string new
    lookup insert text_eq
refused = refl

append_stream_err_example :
    ((append_stream uuid_string marshal unmarshal draw store account
        (deposit ∷ [])
        (at_version 1)).1.global_log
      ≡ store.global_log)
    × ((j : Text)
        → visible (
            lookup j
              (append_stream uuid_string marshal unmarshal draw store account
                (deposit ∷ [])
                (at_version 1)).1.streams)
          ≡ visible (lookup j store.streams))
append_stream_err_example =
    append_stream_err uuid_string marshal unmarshal draw store account (deposit ∷ []) (at_version 1)
      store-IsValid (omega (arith, store_counter)) (stream_version_mismatch account 1 2) refused

accepted :
    (append_stream uuid_string marshal unmarshal draw empty_store account
      (deposit ∷ deposit ∷ [])
      no_options).0
    ≡ ok (stored 1 ∷ stored 2 ∷ [])
unfolding append_stream write_one write_events event_at commit tip add64 sub64 lt64 to_string new
    lookup insert text_eq stored
accepted = refl

append_stream_ok_example :
    (ds : List Event) × (lookup (to_string uuid_string account) store.streams
      ≡ some (record { first_version = 1; events = [] ++ ds }))
    × (decode_all unmarshal account ds ≡ (stored 1 ∷ stored 2 ∷ [], none))
    × (length ds ≡ 2)
    × ((j : Text)
        → text_eq (to_string uuid_string account) j ≡ false
        → lookup j store.streams ≡ lookup j empty_store.streams)
    × Accepts uuid_string marshal unmarshal draw empty_store account
        (deposit ∷ deposit ∷ [])
        no_options
        (tip {D = Event} (entry_of none))
unfolding lookup
append_stream_ok_example =
    append_stream_ok uuid_string marshal unmarshal draw empty_store account (deposit ∷ deposit ∷ [])
      no_options new_event_store-IsValid (omega arith) (stored 1 ∷ stored 2 ∷ []) accepted

after_first : ReadStreamOptions
after_first = record { after_version = 1; count = 0; direction = forward }

read_forward_example :
    read_events uuid_string unmarshal store account after_first 9
    ≡ ok (some (decode_all unmarshal account (limited (limit_of 0) 0 (above 1 1 entry.events))))
unfolding after_first
read_forward_example =
    read_forward uuid_string unmarshal store account after_first 9 entry found refl entry-IsSound
      (omega arith) (omega arith) refl (omega arith)

last_one : ReadStreamOptions
last_one = record { after_version = 0; count = 1; direction = backwards }

read_reverse_example :
    read_events uuid_string unmarshal store account last_one 9
    ≡ ok (
        some (
          decode_all unmarshal account (
            limited
              (limit_of 1)
              0
              (reverse (if (0 == 0) then entry.events else up_to 0 1 entry.events)))))
unfolding last_one
read_reverse_example =
    read_reverse uuid_string unmarshal store account last_one 9 entry found refl entry-IsSound
      (omega arith) (omega arith) refl (omega arith)

-- The store without its first event, whose stream starts at version 2.
abbrev truncated : EventStore Event
truncated = record {
  streams =
      insert (to_string uuid_string account) (record { first_version = 2; events = stored 2 ∷ [] })
        [];
  global_log = [];
  global_counter = 2;
}

truncated-found :
    lookup (to_string uuid_string account) truncated.streams
    ≡ some (record { first_version = 2; events = stored 2 ∷ [] })
unfolding lookup insert text_eq to_string
truncated-found = refl

from_least : ReadStreamOptions
from_least = record { after_version = int64_neg; count = 0; direction = forward }

read_forward_negative_example :
    read_events uuid_string unmarshal truncated account from_least 9
    ≡ ok (
        some (
          decode_all unmarshal account (
            limited
              (limit_of 0)
              0
              (if ltb (int64_neg + 1) (int64_neg + 2) then [] else stored 2 ∷ []))))
unfolding from_least
read_forward_negative_example =
    read_forward_negative uuid_string unmarshal truncated account from_least 9
      (record { first_version = 2; events = stored 2 ∷ [] }) truncated-found refl
      (record { positive = omega arith; representable = omega arith }) (omega arith) (omega arith)
      refl (omega arith) (omega arith)

abbrev up_to_first : DeleteStreamOptions
up_to_first = record { to_version = 1 }

delete_stream-IsValid_example : IsValid (delete_stream uuid_string store account up_to_first).1
delete_stream-IsValid_example =
    delete_stream-IsValid uuid_string store account up_to_first (omega arith) store-IsValid
      (omega (arith, store_counter))

delete_stream_truncates_example :
    ((delete_stream uuid_string store account up_to_first).0 ≡ none)
    × ((after : Stream Event) × (lookup
            (to_string uuid_string account)
            (delete_stream uuid_string store account up_to_first).1.streams
          ≡ some after)
        × (after.events ≡ above 1 1 entry.events)
        × (after.first_version + length after.events ≡ 1 + length entry.events)
        × ((j : Text)
            → text_eq (to_string uuid_string account) j ≡ false
            → lookup j (delete_stream uuid_string store account up_to_first).1.streams
              ≡ lookup j store.streams))
delete_stream_truncates_example =
    delete_stream_truncates uuid_string store account up_to_first entry found refl store-IsValid
      (omega (arith, store_counter)) (omega arith) (omega arith)

abbrev whole : DeleteStreamOptions
whole = record { to_version = 0 }

delete_stream_whole_example :
    ((delete_stream uuid_string store account whole).0 ≡ none)
    × (lookup
          (to_string uuid_string account)
          (delete_stream uuid_string store account whole).1.streams
        ≡ none)
    × (log_of
          (to_string uuid_string account)
          (delete_stream uuid_string store account whole).1.global_log
        ≡ [])
    × ((j : Text)
        → text_eq (to_string uuid_string account) j ≡ false
        → lookup j (delete_stream uuid_string store account whole).1.streams
          ≡ lookup j store.streams)
delete_stream_whole_example =
    delete_stream_whole uuid_string store account whole entry found refl store-IsValid
      (omega (arith, store_counter)) refl

-- A search that tries the indexes in order.
search : ℕ → (ℕ → Bool) → ℕ
search zero f = 0
search (suc n) f = let rest = search n (λ i. f (suc i)) in if f 0 then 0 else suc rest

search-bounded : (n : ℕ) (f : ℕ → Bool) → search n f ≤ n
unfolding search
search-bounded zero f = omega arith
search-bounded (suc n) f = ground (arith, search-bounded n (λ i. f (suc i)))

search-below : (n : ℕ) (f : ℕ → Bool) (i : ℕ) → i < search n f → f i ≡ false
unfolding search
search-below zero f i h = absurd (omega arith)
search-below (suc n) f zero h = ground arith
search-below (suc n) f (suc i) h = search-below n (λ i. f (suc i)) i (ground arith)

search-at : (n : ℕ) (f : ℕ → Bool) → search n f < n → f (search n f) ≡ true
unfolding search
search-at zero f h = absurd (omega arith)
search-at (suc n) f h = elim (Bool-cases (f 0)) [
  | inl here ↦ rw here here
  | inr later ↦ rw later (search-at n (λ i. f (suc i)) (ground (arith, later)))
]

search-IsSearch : IsSearch search
search-IsSearch = record {
  bounded = search-bounded;
  below = λ n f rises. search-below n f;
  at = λ n f rises. search-at n f;
}

after_position : ReadAllOptions
after_position = record { after_position = 1; count = 0 }

store_log : length store.global_log ≡ 2
unfolding append_stream write_one write_events event_at commit tip add64 sub64 lt64 to_string new
    lookup insert text_eq
store_log = refl

read_all_lem_example :
    collect (next unmarshal) 9 (read_all search store after_position)
    ≡ some
        (decode_all unmarshal zero_id (limited (limit_of 0) 0 (payloads (past 1 store.global_log))))
unfolding after_position
read_all_lem_example =
    read_all_lem search search-IsSearch unmarshal store after_position 9 store-IsValid
      (omega (arith, store_counter)) (omega (arith, store_log)) (omega arith) (omega arith)
      (omega (arith, store_log))
