-- ===== src/AggregateStore/Aggregate.antt =====
-- aggregatestore/aggregate.go: an aggregate, the events that wait to be saved, and those that wait
-- to be applied. `S` is the domain object and `V` the type of the values behind the interface
-- DomainEvent, whose method ApplyTo is the parameter `apply_to`.
use estoria.Prelude.{
  Option, none, some, List, [], ◌∷◌, ◌++◌, map, ◌==◌, if◌then◌else◌, is_empty, Int64, max_int64,
  add64, insert,
}
use estoria.TypeId.{TypedId, zero_id}
use estoria.EventStore.{Time, Metadata}

-- Event. The nil map of metadata is the empty one.
pub record AggregateEvent (V : Type 0) : Type 0 where
  pub id : TypedId
  pub version : Int64
  pub timestamp : Time
  pub domain_event : V
  pub metadata : Metadata

pub record Aggregate (S V : Type 0) : Type 0 where
  pub id : TypedId
  pub version : Int64
  pub state : S
  pub unsaved_events : List (AggregateEvent V)
  pub unapplied_events : List (AggregateEvent V)

-- `none` is the nil error.
pub data ApplyError : Type 0 where
  no_unapplied_events at_maximum_version : ApplyError
  event_version_mismatch : Int64 → Int64 → ApplyError

-- maps.Copy
unfoldable pub copy_metadata : Metadata → Metadata → Metadata
copy_metadata dst [] = dst
copy_metadata dst ((k, v) ∷ src) = copy_metadata (insert k v dst) src

-- The event that Append queues for a domain event.
abbrev pub unsaved_event : {V : Type 0} → Metadata → V → AggregateEvent V
unsaved_event metadata v = record {
  id = zero_id;
  version = 0;
  timestamp = 0;
  domain_event = v;
  metadata = metadata;
}

abbrev pub merge_into : {V : Type 0} → Metadata → AggregateEvent V → AggregateEvent V
merge_into metadata event = record event { metadata = copy_metadata event.metadata metadata }

module _ {S V : Type 0} where
  abbrev pub new_aggregate : TypedId → S → Int64 → Aggregate S V
  new_aggregate id state version = record {
    id = id;
    version = version;
    state = state;
    unsaved_events = [];
    unapplied_events = [];
  }

  abbrev pub append_with_metadata : Metadata → List V → Aggregate S V → Aggregate S V
  append_with_metadata metadata events a = record a {
    unsaved_events = a.unsaved_events ++ map (unsaved_event metadata) events;
  }

  -- Append
  abbrev pub append_events : List V → Aggregate S V → Aggregate S V
  append_events = append_with_metadata []

  abbrev pub clear_unsaved_events : Aggregate S V → Aggregate S V
  clear_unsaved_events a = record a { unsaved_events = [] }

  abbrev pub discard_unsaved_events : Aggregate S V → Aggregate S V
  discard_unsaved_events = clear_unsaved_events

  unfoldable pub merge_event_metadata : Metadata → Aggregate S V → Aggregate S V
  merge_event_metadata metadata a =
      if is_empty metadata
      then a
      else record a { unsaved_events = map (merge_into metadata) a.unsaved_events }

  abbrev pub set_state_at_version : S → Int64 → Aggregate S V → Aggregate S V
  set_state_at_version state version a = record a { state = state; version = version }

  abbrev pub will_apply : AggregateEvent V → Aggregate S V → Aggregate S V
  will_apply event a = record a { unapplied_events = a.unapplied_events ++ event ∷ [] }

  module _ (apply_to : V → S → S) where
    -- applyNext, with the queue of events that wait
    unfoldable pub apply_from :
        List (AggregateEvent V) → Aggregate S V → Option ApplyError × Aggregate S V
    apply_from [] a = (some no_unapplied_events, a)
    apply_from (event ∷ queue) a =
        if a.version == max_int64
        then (some at_maximum_version, a)
        else if event.version == add64 a.version 1
        then (
          none,
          record a {
            state = apply_to event.domain_event a.state;
            version = event.version;
            unapplied_events = queue;
          },
        )
        else (some (event_version_mismatch (add64 a.version 1) event.version), a)

    unfoldable pub apply_next : Aggregate S V → Option ApplyError × Aggregate S V
    apply_next a = apply_from a.unapplied_events a
