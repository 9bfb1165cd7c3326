-- ===== src/AggregateStore/EventSourced/Setup.antt =====
-- aggregatestore/event_sourced_store.go and internal/reservedstream/reservedstream.go: New with its
-- options, and Use, which registers the prototypes of events.
use estoria.Prelude.{
  Bool, true, false, not, ◌&&◌, Option, none, some, List, [], ◌∷◌, if◌then◌else◌, Text, codes,
  text_eq, has_prefix, Result, ok, err, ◌>>=◌, lookup, insert,
}
use estoria.TypeId.{Uuid, validate_type_name}
use estoria.AggregateStore.EventSourced.{
  StreamReader, StreamWriter, DomainEvents, EventSourcedStore, InitializeError,
  invalid_aggregate_type, invalid_event_type, reserved_aggregate_type, no_reader_or_writer,
  duplicate_event_type, reserved_prefix,
}

abbrev pub projection_stream_type : Text
projection_stream_type = codes "estoria.projection"

-- reservedstream.Allowed
unfoldable pub allowed : Text → Bool
unfolding text_eq
allowed stream_type = text_eq stream_type projection_stream_type

-- What Use reads of a prototype: its EventType, and what its New returns.
pub record Prototype (V : Type 0) : Type 0 where
  pub event_type : Text
  pub new_event : Option V

-- EventSourcedStoreOption
abbrev pub Setting : Type 0 → Type 0
Setting E = E → Option InitializeError × E

abbrev pub is_missing : {A : Type 0} → Option A → Bool
is_missing none = true
is_missing (some a) = false

abbrev pub and_then :
    {E : Type 0}
    → (E → Result InitializeError E)
    → Option InitializeError × E
    → Result InitializeError E
and_then more (none, s) = more s
and_then more (some e, s) = err e

module _ {S V W I : Type 0} where
  -- Use, with the store as far as it came where it failed
  unfoldable pub register :
      List (Prototype V)
      → EventSourcedStore S V W I
      → Option InitializeError × EventSourcedStore S V W I
  register [] s = (none, s)
  register (prototype ∷ prototypes) s =
      let event_type = prototype.event_type in
      let registered = record s {
        domain_event_prototypes = insert event_type prototype.new_event s.domain_event_prototypes;
      } in
      elim (validate_type_name event_type) [
        | some e ↦ (some (invalid_event_type e), s)
        | none ↦ elim (lookup event_type s.domain_event_prototypes) [
          | some other ↦ (some duplicate_event_type, s)
          | none ↦ register prototypes registered
        ]
      ]

  abbrev pub with_event_types : List (Prototype V) → Setting (EventSourcedStore S V W I)
  with_event_types prototypes = register prototypes

  abbrev pub with_event_stream_reader :
      Option (StreamReader W I) → Setting (EventSourcedStore S V W I)
  with_event_stream_reader reader s = (none, record s { event_reader = reader })

  abbrev pub with_event_stream_writer :
      Option (StreamWriter W) → Setting (EventSourcedStore S V W I)
  with_event_stream_writer writer s = (none, record s { event_writer = writer })

  -- `for _, opt := range opts`
  unfoldable pub apply_settings :
      List (Setting (EventSourcedStore S V W I))
      → EventSourcedStore S V W I
      → Result InitializeError (EventSourcedStore S V W I)
  apply_settings [] s = ok s
  apply_settings (opt ∷ opts) s = and_then (apply_settings opts) (opt s)

  -- New, the function. `domain_events` holds the methods of the events and of the codec.
  unfoldable pub new_store :
      Option (StreamReader W I)
      → Option (StreamWriter W)
      → Text
      → (Uuid → S)
      → DomainEvents S V
      → List (Setting (EventSourcedStore S V W I))
      → Result InitializeError (EventSourcedStore S V W I)
  unfolding has_prefix
  new_store reader writer aggregate_type new_state domain_events opts =
      elim (validate_type_name aggregate_type) [
        | some e ↦ err (invalid_aggregate_type e)
        | none ↦
            if has_prefix aggregate_type reserved_prefix && not (allowed aggregate_type)
            then err reserved_aggregate_type
            else (apply_settings opts (record {
              event_reader = reader;
              event_writer = writer;
              aggregate_type = aggregate_type;
              new_state = new_state;
              domain_event_prototypes = [];
              domain_events = domain_events;
            })
                >>= λ s.
                    if is_missing s.event_reader && is_missing s.event_writer
                    then err no_reader_or_writer
                    else ok s)
      ]
