-- ===== src/EventStore.antt =====
-- eventstore/event_store.go: what event stores exchange with their callers. Instants are numbers.
-- The directions other than the two named constants are not modelled.
pub mod Memory
use estoria.Prelude.{
  ℕ, zero, suc, ◌+◌, ◌-◌, ◌*◌, ◌/◌, ◌%◌, ◌^◌, ◌≤◌, ◌<◌, min, ◌≡◌, refl, sym, ap, ◌∙◌, ◌≢◌, ◌↔◌, ◌⊎◌,
  inl, inr, Bool, true, false, not, ◌&&◌, ◌||◌, Option, none, some, List, [], ◌∷◌, ◌++◌, map,
  append-nil, append_assoc, arith, ltb, leb, ◌==◌, if◌then◌else◌, ==_iff, Bool-cases, Option-cases,
  length, is_empty, get_elem?, take, drop, length-append, length-drop, take-append-drop,
  take-append, drop-append, All, All-append, All-imp, Int64, int64_mod, int64_neg, max_int64, add64,
  sub64, lt64, le64, max64, min64, add64_lem, sub64_lem, lt64_lem, le64_lem, max64-eq, Text, codes,
  text_eq, text_lt, text_eq_iff, has_prefix, has_suffix, Result, ok, err, ◌>>=◌, map_err, Dict,
  lookup, insert, erase, lookup-insert, lookup-erase, fails_if, ◌or_else◌, wrap, or_else-none,
  or_else-eq_none,
}
use estoria.TypeId.{TypedId}

-- time.Time; 0 is the zero time.
abbrev pub Time : Type 0
Time = ℕ

abbrev pub Metadata : Type 0
Metadata = Dict Text

pub record Event : Type 0 where
  pub id : TypedId
  pub stream_id : TypedId
  pub stream_version : Int64
  pub global_position : Option Int64
  pub timestamp : Time
  pub payload : Text
  pub data_content_type : Text
  pub metadata : Metadata

pub record WritableEvent : Type 0 where
  pub type_name : Text
  pub payload : Text
  pub data_content_type : Text
  pub metadata : Metadata

pub data ReadStreamDirection : Type 0 where
  forward reverse : ReadStreamDirection

pub record ReadStreamOptions : Type 0 where
  pub after_version : Int64
  pub count : Int64
  pub direction : ReadStreamDirection

pub record AppendStreamOptions : Type 0 where
  pub expect_version : Option Int64
  pub stream_must_not_exist : Bool

pub record ReadAllOptions : Type 0 where
  pub after_position : Int64
  pub count : Int64

pub record DeleteStreamOptions : Type 0 where
  pub to_version : Int64

-- The errors of a store. The last one is Go's panic on an index out of range.
pub data StoreError : Type 0 where
  exclusive_options negative_to_version : StoreError
  stream_not_found stream_iterator_closed end_of_event_stream : StoreError
  stream_version_mismatch : TypedId → Int64 → Int64 → StoreError
  event_marshaling event_unmarshaling : TypedId → TypedId → StoreError
  index_out_of_range : StoreError

-- `errors.Is(err, ErrEndOfEventStream)`
abbrev pub is_end : StoreError → Bool
is_end end_of_event_stream = true
is_end _ = false

-- One more event in front of what Collect read; `none` means that the fuel ran out.
abbrev pub cons_event :
    Event → Option (List Event × Option StoreError) → Option (List Event × Option StoreError)
cons_event event none = none
cons_event event (some (events, e)) = some (event ∷ events, e)

-- Collect over any iterator: the events read, and the error that ended the loop if there is one.
-- Each round takes one unit of fuel.
unfoldable pub collect :
    {I : Type 0}
    → (I → Result StoreError Event × I)
    → ℕ
    → I
    → Option (List Event × Option StoreError)
collect next zero iter = none
collect next (suc fuel) iter =
    let (r, iter') = next iter in
    let rest = collect next fuel iter' in
    elim r [
      | ok event ↦ cons_event event rest
      | err e ↦ if is_end e then some ([], none) else some ([], some e)
    ]
