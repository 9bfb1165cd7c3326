-- ===== src/AggregateStore/EventSourced/Examples.antt =====
-- aggregatestore/event_sourced_store.go: a counter that adds numbers, kept in the in-memory event store.
use estoria.Prelude.{
  ℕ, ◌+◌, ◌≡◌, refl, ◌⊎◌, true, false, Option, none, some, List, [], ◌∷◌, ◌++◌, arith, length,
  is_empty, All, add64, sub64, lt64, Text, codes, text_eq, ok, lookup,
}
use estoria.TypeId.{Uuid, new, to_string}
use estoria.EventStore.{Event, WritableEvent, Time, stream_version_mismatch}
use estoria.EventStore.Memory.{
  Stream, EventStore, StreamIterator, new_event_store, tip, append_stream,
}
use estoria.EventStore.Memory.Invariant.{new_event_store-IsValid}
use estoria.EventStore.Memory.Reads.{decode_all, limited}
use estoria.AggregateStore.SaveOutcome.{nothing_appended_outcome}
use estoria.AggregateStore.Aggregate.{AggregateEvent, Aggregate, unsaved_event}
use estoria.AggregateStore.EventSourced.{
  DomainEvents, EventSourcedStore, reserved_key, saving_to_stream, new_for, load, decode_event,
}
use estoria.AggregateStore.EventSourced.Save.{
  writable_event, writable_events, checked, save_aggregate, after_append,
}
use estoria.AggregateStore.EventSourced.Hydrating.{Replays, caught_up}
use estoria.AggregateStore.EventSourced.Outcomes.{
  Vouches, Called, save_outcome-error_tree, save_aggregate-Vouches,
}
use estoria.AggregateStore.EventSourced.Saving.{save_aggregate_ok}
use estoria.AggregateStore.EventSourced.Loading.{memory_reader, load-memory}
use estoria.AggregateStore.EventSourced.RoundTrip.{memory_writer, Recovers}
use estoria.AggregateStore.EventSourced.SaveLoad.{pending, saving, save-load}

-- Encoded events are the events themselves.
abbrev uuid_text : Uuid → Text
uuid_text u = u ∷ []

abbrev draw : ℕ → Uuid × Time
draw i = (40 + i, 100)

abbrev one_number : Text → ℕ → Option ℕ
one_number [] prototype = none
one_number (n ∷ text) prototype = some n

-- The domain events of a counter: numbers, which are added to the state.
abbrev additions : DomainEvents ℕ ℕ
additions = record {
  event_type = λ v. codes "added";
  apply_to = λ v state. v + state;
  marshal = λ v. some (v ∷ []);
  unmarshal = one_number;
  content_type = codes "number";
}

abbrev counters : EventSourcedStore ℕ ℕ (EventStore Event) (StreamIterator Event)
counters = record {
  event_reader = some (memory_reader uuid_text some);
  event_writer = some (memory_writer uuid_text some some draw);
  aggregate_type = codes "counter";
  new_state = λ id. 0;
  domain_event_prototypes = (codes "added", some 0) ∷ [];
  domain_events = additions;
}

abbrev two_additions : List (AggregateEvent ℕ)
two_additions = unsaved_event [] 5 ∷ unsaved_event [] 6 ∷ []

abbrev writables : List WritableEvent
writables =
    record {
      type_name = codes "added";
      payload = 5 ∷ [];
      data_content_type = codes "number";
      metadata = [];
    }
    ∷ record {
      type_name = codes "added";
      payload = 6 ∷ [];
      data_content_type = codes "number";
      metadata = [];
    }
    ∷ []

abbrev fresh : Aggregate ℕ ℕ
fresh = pending uuid_text some some draw counters new_event_store 7 [] two_additions none

accepted : checked counters fresh ≡ ok writables
unfolding checked lt64 sub64 writable_events writable_event reserved_key
accepted = refl

recovers : All (Recovers counters) two_additions
unfolding lookup text_eq
recovers =
    (λ payload e. (0, refl, ground (arith, e)), (λ payload e. (0, refl, ground (arith, e)), tt))

nothing_stored : decode_all {D = Event} some (new_for counters 7).id [] ≡ ([], none)
unfolding decode_all
nothing_stored = refl

nothing_replayed : Replays counters 0 [] []
unfolding Replays
nothing_replayed = tt

save-load_example :
    ((saving uuid_text some some draw counters new_event_store 7 [] two_additions none).0 ≡ none)
    × (load counters
          (saving uuid_text some some draw counters new_event_store 7 [] two_additions none).2
          3
          7
          none
        ≡ some (
            ok
              (saving uuid_text some some draw counters new_event_store 7 [] two_additions none).1))
unfolding lookup
save-load_example =
    save-load uuid_text some some draw counters new_event_store 7 [] two_additions none writables []
      ((_, refl, refl), ((_, refl, refl), tt)) refl refl new_event_store-IsValid refl nothing_stored
      nothing_replayed accepted refl recovers refl refl (omega arith) 3 (omega arith)

-- An aggregate that another one has overtaken: at version 3, where the stream is empty.
abbrev overtaken : Aggregate ℕ ℕ
overtaken = record fresh { version = 3 }

conflict :
    (save_aggregate counters new_event_store none overtaken).0
    ≡ some (saving_to_stream (stream_version_mismatch (new_for counters 7).id 3 0))
unfolding save_aggregate checked lt64 sub64 add64 writable_events writable_event reserved_key
    append_stream tip lookup to_string new after_append
conflict = refl

save_aggregate-Vouches_example :
    Vouches counters new_event_store none overtaken nothing_appended_outcome
      (save_aggregate counters new_event_store none overtaken).1
      (save_aggregate counters new_event_store none overtaken).2
save_aggregate-Vouches_example =
    save_aggregate-Vouches counters new_event_store none overtaken
      (saving_to_stream (stream_version_mismatch (new_for counters 7).id 3 0))
      nothing_appended_outcome conflict
      (save_outcome-error_tree
        (saving_to_stream (stream_version_mismatch (new_for counters 7).id 3 0)))

fresh_ok : (save_aggregate counters new_event_store none fresh).0 ≡ none
fresh_ok = save-load_example.0

save_aggregate_ok_example :
    ((is_empty two_additions ≡ true)
      × ((save_aggregate counters new_event_store none fresh).1 ≡ fresh)
      × ((save_aggregate counters new_event_store none fresh).2 ≡ new_event_store))
    ⊎ ((written : List Event) × Called counters new_event_store none fresh
          (ok written)
          (save_aggregate counters new_event_store none fresh).2
        × (length written ≡ length two_additions)
        × ((save_aggregate counters new_event_store none fresh).1.unsaved_events ≡ [])
        × (false ≡ false
            → (save_aggregate counters new_event_store none fresh).1.unapplied_events ≡ []))
save_aggregate_ok_example = save_aggregate_ok counters new_event_store none fresh fresh_ok

-- A stream of two events, of which the first is loaded.
abbrev addition : ℕ → ℕ → Event
addition v n = record {
  id = record { type_name = codes "added"; uuid = 40 + v };
  stream_id = record { type_name = codes "counter"; uuid = 7 };
  stream_version = v;
  global_position = some v;
  timestamp = 100;
  payload = n ∷ [];
  data_content_type = codes "number";
  metadata = [];
}

abbrev two_events : Stream Event
two_events = record { first_version = 1; events = addition 1 5 ∷ addition 2 6 ∷ [] }

abbrev stocked : EventStore Event
stocked = record {
  streams = (codes "counter_" ++ 7 ∷ [], two_events) ∷ [];
  global_log = [];
  global_counter = 2;
}

two_events-found :
    lookup (to_string uuid_text (new_for counters 7).id) stocked.streams ≡ some two_events
unfolding lookup text_eq to_string new
two_events-found = refl

first-Replays : Replays counters 0 (addition 1 5 ∷ []) (5 ∷ [])
unfolding Replays decode_event lookup text_eq
first-Replays = (refl, refl, tt)

first-decoded :
    decode_all {D = Event} some
      (new_for counters 7).id
      (limited 1 0 (addition 1 5 ∷ addition 2 6 ∷ []))
    ≡ (addition 1 5 ∷ [], none)
unfolding decode_all
first-decoded = refl

load-memory_example :
    load counters stocked 3 7 (some (record { to_version = 1 }))
    ≡ some (ok (caught_up counters (5 ∷ []) (new_for counters 7)))
load-memory_example =
    load-memory uuid_text some counters refl stocked 7 (some (record { to_version = 1 }))
      (omega arith) 3 two_events (addition 1 5 ∷ []) (5 ∷ []) two_events-found refl
      (record { positive = omega arith; representable = omega arith }) (omega arith) first-Replays
      (omega arith) refl first-decoded
