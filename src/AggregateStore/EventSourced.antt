-- ===== src/AggregateStore/EventSourced.antt =====
-- aggregatestore/event_sourced_store.go: EventSourcedStore. An event store is a state `W` with the
-- operations of a Backend, which it may lack. Behind the interfaces, DomainEvent has the methods
-- `event_type` and `apply_to`, and DomainEventCodec the methods `marshal` and `unmarshal`.
-- pointerConstructor, which lets a decoder write into a Go value, has no counterpart: `unmarshal`
-- returns the value that it fills.
pub mod Save
pub mod Hydrating
pub mod Outcomes
pub mod Saving
pub mod Loading
pub mod RoundTrip
pub mod SaveLoad
mod Examples
pub mod Setup
use estoria.Prelude.{
  ℕ, zero, suc, ◌+◌, ◌-◌, ◌*◌, ◌/◌, ◌%◌, ◌^◌, ◌≤◌, ◌<◌, min, ◌≡◌, refl, sym, ap, ◌∙◌, ◌≢◌, ◌↔◌, ◌⊎◌,
  inl, inr, Bool, true, false, not, ◌&&◌, ◌||◌, Option, none, some, List, [], ◌∷◌, ◌++◌, map,
  append-nil, append_assoc, arith, ltb, leb, ◌==◌, if◌then◌else◌, ==_iff, Bool-cases, Option-cases,
  Result-cases, length, is_empty, get_elem?, take, drop, length-append, length-drop,
  take-append-drop, take-append, drop-append, All, All-append, All-imp, Int64, int64_mod, int64_neg,
  max_int64, add64, sub64, lt64, le64, max64, min64, add64_lem, sub64_lem, lt64_lem, le64_lem,
  max64-eq, Text, codes, text_eq, text_lt, text_eq_iff, has_prefix, has_suffix, Result, ok, err,
  ◌>>=◌, map_err, Dict, lookup, insert, erase, lookup-insert, lookup-erase, fails_if, ◌or_else◌,
  wrap, or_else-none, or_else-eq_none,
}
use estoria.TypeId.{TypedId, Uuid, nil_uuid, new, TypeNameError, validate_type_name}
use estoria.EventStore.{
  Event, WritableEvent, StoreError, stream_not_found, stream_version_mismatch, ReadStreamOptions,
  AppendStreamOptions, forward,
}
use estoria.Projection.Fold.{Fold, FoldError, new_fold, project}
use estoria.AggregateStore.SaveOutcome.{
  GoError, events_appended_error, no_events_appended_error, plain_error, save_outcome_error,
  wrap_error,
}
use estoria.AggregateStore.Aggregate.{
  AggregateEvent, Aggregate, ApplyError, no_unapplied_events, new_aggregate, clear_unsaved_events,
  will_apply, apply_next,
}

-- eventstore.StreamReader with its iterators, and eventstore.StreamWriter
pub record StreamReader (W I : Type 0) : Type 0 where
  pub read_stream : W → TypedId → ReadStreamOptions → Result StoreError I
  pub next : I → Result StoreError Event × I

pub record StreamWriter (W : Type 0) : Type 0 where
  pub append_stream :
      W → TypedId → List WritableEvent → AppendStreamOptions → Result StoreError (List Event) × W

-- The interfaces DomainEvent and DomainEventCodec. `unmarshal` decodes into a new value of a prototype.
pub record DomainEvents (S V : Type 0) : Type 0 where
  pub event_type : V → Text
  pub apply_to : V → S → S
  pub marshal : V → Option Text
  pub unmarshal : Text → V → Option V
  pub content_type : Text

-- A registered prototype is what its constructor returns, `none` for nil.
pub record EventSourcedStore (S V W I : Type 0) : Type 0 where
  pub event_reader : Option (StreamReader W I)
  pub event_writer : Option (StreamWriter W)
  pub aggregate_type : Text
  pub new_state : Uuid → S
  pub domain_event_prototypes : Dict (Option V)
  pub domain_events : DomainEvents S V

-- LoadOptions and HydrateOptions
pub record LoadOptions : Type 0 where
  pub to_version : Int64

pub record SaveOptions : Type 0 where
  pub skip_apply : Bool

pub data InitializeError : Type 0 where
  invalid_aggregate_type invalid_event_type : TypeNameError → InitializeError
  reserved_aggregate_type no_reader_or_writer duplicate_event_type : InitializeError

pub data HandlerError : Type 0 where
  no_prototype_registered prototype_returned_nil unmarshaling_event : Text → HandlerError
  applying_event : Text → ApplyError → HandlerError

pub data HydrateError : Type 0 where
  nil_aggregate no_stream_reader negative_to_version aggregate_not_found : HydrateError
  more_recent_version : Int64 → Int64 → HydrateError
  reading_stream : StoreError → HydrateError
  creating_projection projecting_stream : FoldError HandlerError → HydrateError

pub data LoadError : Type 0 where
  nil_aggregate_id invalid_load_options : LoadError
  hydrating_aggregate : HydrateError → LoadError

pub data SaveError : Type 0 where
  nil_aggregate no_stream_writer no_events_to_save invalid_version too_many_events : SaveError
  reserved_metadata_key : Text → SaveError
  marshaling_event_data : SaveError
  saving_to_stream : StoreError → SaveError
  confirming_appended : SaveError
  applying_aggregate_event : ApplyError → SaveError

-- `errors.Is(err, ErrStreamNotFound)` and `errors.Is(err, StreamVersionMismatchError{})`
abbrev pub is_stream_not_found : StoreError → Bool
is_stream_not_found stream_not_found = true
is_stream_not_found _ = false

abbrev pub is_version_mismatch : StoreError → Bool
is_version_mismatch (stream_version_mismatch id expected actual) = true
is_version_mismatch _ = false

-- The tree of a SaveError, with the mark of `withSaveOutcome`. The errors of an event store carry no
-- marks.
abbrev pub error_tree : SaveError → GoError
error_tree (saving_to_stream e) = wrap_error (
    if is_version_mismatch e
    then save_outcome_error no_events_appended_error plain_error
    else plain_error)
error_tree confirming_appended = wrap_error (save_outcome_error events_appended_error plain_error)
error_tree (applying_aggregate_event e) =
    wrap_error (save_outcome_error events_appended_error (wrap_error plain_error))
error_tree _ = wrap_error (save_outcome_error no_events_appended_error plain_error)

-- `ToVersion`, where nil options are the zero ones
abbrev pub to_version_of : Option LoadOptions → Int64
to_version_of none = 0
to_version_of (some opts) = opts.to_version

abbrev pub skips_apply : Option SaveOptions → Bool
skips_apply none = false
skips_apply (some opts) = opts.skip_apply

abbrev pub reserved_prefix : Text
reserved_prefix = codes "estoria."

-- The first key of the metadata that the prefix reserves. Go visits the keys in any order.
unfoldable pub reserved_key : Dict Text → Option Text
unfolding has_prefix
reserved_key [] = none
reserved_key ((k, v) ∷ metadata) =
    let rest = reserved_key metadata in if has_prefix k reserved_prefix then some k else rest

module _ {S V W I : Type 0} (s : EventSourcedStore S V W I) where
  -- New, the method
  abbrev pub new_for : Uuid → Aggregate S V
  new_for id = new_aggregate (new s.aggregate_type id) (s.new_state id) 0

  abbrev pub applied :
      Text → Option ApplyError × Aggregate S V → Option HandlerError × Aggregate S V
  applied event_type (e, a) = (wrap (applying_event event_type) e, a)

  -- The end of the handler, with the domain event decoded.
  abbrev pub handle_decoded : Event → V → Aggregate S V → Option HandlerError × Aggregate S V
  handle_decoded event v a = applied event.id.type_name (
      apply_next s.domain_events.apply_to (
        will_apply
          (record {
            id = event.id;
            version = event.stream_version;
            timestamp = event.timestamp;
            domain_event = v;
            metadata = event.metadata;
          })
          a))

  -- The domain event of a stored event: its prototype, filled from the data.
  unfoldable pub decode_event : Event → Result HandlerError V
  decode_event event =
      let event_type = event.id.type_name in
      elim (lookup event_type s.domain_event_prototypes) [
        | none ↦ err (no_prototype_registered event_type)
        | some none ↦ err (prototype_returned_nil event_type)
        | some (some prototype) ↦ elim (s.domain_events.unmarshal event.payload prototype) [
          | none ↦ err (unmarshaling_event event_type)
          | some v ↦ ok v
        ]
      ]

  -- eventHandlerForAggregate
  unfoldable pub handle_event : Event → Aggregate S V → Option HandlerError × Aggregate S V
  handle_event event a = elim (decode_event event) [
    | err e ↦ (some e, a)
    | ok v ↦ handle_decoded event v a
  ]

  -- What Hydrate makes of the projection's result.
  abbrev pub hydrated :
      {R : Type 0}
      → Option (Option (FoldError HandlerError) × R × Aggregate S V)
      → Option (Option HydrateError × Aggregate S V)
  hydrated none = none
  hydrated (some (e, r, a)) = some (wrap projecting_stream e, a)

  -- The projection that Hydrate runs over the iterator of a read.
  unfoldable pub project_onto :
      (I → Result StoreError Event × I)
      → ℕ
      → I
      → Aggregate S V
      → Option (Option HydrateError × Aggregate S V)
  project_onto next fuel iter a = elim (new_fold (some iter) []) [
    | err e ↦ some (some (creating_projection e), a)
    | ok fold ↦ hydrated (project next (some handle_event) fuel fold a)
  ]

  -- What follows ReadStream in Hydrate.
  unfoldable pub hydrate_from :
      (I → Result StoreError Event × I)
      → ℕ
      → Result StoreError I
      → Aggregate S V
      → Option (Option HydrateError × Aggregate S V)
  hydrate_from next fuel (ok iter) a = project_onto next fuel iter a
  hydrate_from next fuel (err e) a =
      if is_stream_not_found e
      then (if lt64 0 a.version then some (none, a) else some (some aggregate_not_found, a))
      else some (some (reading_stream e), a)

  abbrev pub read_options : Int64 → Aggregate S V → ReadStreamOptions
  read_options to_version a = record {
    after_version = a.version;
    count = if lt64 0 to_version then sub64 to_version a.version else 0;
    direction = forward;
  }

  -- Hydrate of an aggregate that is not nil. Each event read takes one unit of fuel, and the end of
  -- the stream one more; `none` means that it ran out.
  unfoldable pub hydrate :
      W → ℕ → Option LoadOptions → Aggregate S V → Option (Option HydrateError × Aggregate S V)
  hydrate w fuel opts a =
      let to_version = to_version_of opts in
      elim s.event_reader [
        | none ↦ some (some no_stream_reader, a)
        | some reader ↦
            if lt64 to_version 0
            then some (some negative_to_version, a)
            else if lt64 0 to_version && a.version == to_version
            then some (none, a)
            else if lt64 0 to_version && lt64 to_version a.version
            then some (some (more_recent_version a.version to_version), a)
            else hydrate_from reader.next fuel
                (reader.read_stream w a.id (read_options to_version a)) a
      ]

  abbrev pub loaded :
      Option (Option HydrateError × Aggregate S V) → Option (Result LoadError (Aggregate S V))
  loaded none = none
  loaded (some (none, a)) = some (ok a)
  loaded (some (some e, a)) = some (err (hydrating_aggregate e))

  unfoldable pub load :
      W → ℕ → Uuid → Option LoadOptions → Option (Result LoadError (Aggregate S V))
  load w fuel id opts =
      if id == nil_uuid
      then some (err nil_aggregate_id)
      else if lt64 (to_version_of opts) 0
      then some (err invalid_load_options)
      else loaded (hydrate w fuel (some (record { to_version = to_version_of opts })) (new_for id))
