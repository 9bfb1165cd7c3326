-- ===== src/AggregateStore/EventSourced/Save.antt =====
-- aggregatestore/event_sourced_store.go: EventSourcedStore.Save.
use estoria.Prelude.{
  false, not, Option, none, some, List, [], ◌∷◌, ◌==◌, if◌then◌else◌, length, is_empty, max_int64,
  sub64, lt64, Result, ok, err, ◌>>=◌,
}
use estoria.EventStore.{Event, WritableEvent, StoreError}
use estoria.AggregateStore.Aggregate.{
  AggregateEvent, Aggregate, ApplyError, no_unapplied_events, clear_unsaved_events, will_apply,
  apply_next,
}
use estoria.AggregateStore.EventSourced.{
  DomainEvents, EventSourcedStore, SaveOptions, SaveError, nil_aggregate, no_stream_writer,
  no_events_to_save, invalid_version, too_many_events, reserved_metadata_key, marshaling_event_data,
  saving_to_stream, confirming_appended, applying_aggregate_event, skips_apply, reserved_key,
}

module _ {S V : Type 0} (events : DomainEvents S V) where
  -- One round of the loop that encodes the unsaved events.
  unfoldable pub writable_event : AggregateEvent V → Result SaveError WritableEvent
  writable_event event = elim (reserved_key event.metadata) [
    | some key ↦ err (reserved_metadata_key key)
    | none ↦ elim (events.marshal event.domain_event) [
      | none ↦ err marshaling_event_data
      | some payload ↦ ok (record {
        type_name = events.event_type event.domain_event;
        payload = payload;
        data_content_type = events.content_type;
        metadata = event.metadata;
      })
    ]
  ]

  unfoldable pub writable_events : List (AggregateEvent V) → Result SaveError (List WritableEvent)
  writable_events [] = ok []
  writable_events (event ∷ queue) =
      let rest = writable_events queue in writable_event event >>= λ w. rest >>= λ ws. ok (w ∷ ws)

  -- The loop that queues the events as they were written, where as many were written.
  unfoldable pub queue_written :
      List (AggregateEvent V) → List Event → Aggregate S V → Aggregate S V
  queue_written [] written a = a
  queue_written (event ∷ unsaved) [] a = a
  queue_written (event ∷ unsaved) (w ∷ written) a = queue_written unsaved written (
      will_apply
        (record {
          id = w.id;
          version = w.stream_version;
          timestamp = w.timestamp;
          domain_event = event.domain_event;
          metadata = event.metadata;
        })
        a)

  -- What a round of the last loop does with the result of applyNext.
  abbrev pub applied_or :
      (Aggregate S V → Option SaveError × Aggregate S V)
      → Option ApplyError × Aggregate S V
      → Option SaveError × Aggregate S V
  applied_or more (none, a) = more a
  applied_or more (some no_unapplied_events, a) = (none, a)
  applied_or more (some e, a) = (some (applying_aggregate_event e), a)

  -- The last loop: a round for each event of the queue, and the round that finds it empty.
  unfoldable pub apply_queue :
      List (AggregateEvent V) → Aggregate S V → Option SaveError × Aggregate S V
  apply_queue [] a = applied_or (λ a'. (none, a')) (apply_next events.apply_to a)
  apply_queue (event ∷ queue) a = applied_or (apply_queue queue) (apply_next events.apply_to a)

  -- What follows AppendStream, where it succeeded.
  unfoldable pub confirm_appended :
      Option SaveOptions → List Event → Aggregate S V → Option SaveError × Aggregate S V
  confirm_appended opts written a =
      let queued = clear_unsaved_events (queue_written a.unsaved_events written a) in
      if not (length written == length a.unsaved_events)
      then (some confirming_appended, a)
      else if skips_apply opts
      then (none, queued)
      else apply_queue queued.unapplied_events queued

module _ {S V W I : Type 0} (s : EventSourcedStore S V W I) where
  -- What follows the call of AppendStream.
  unfoldable pub after_append :
      Option SaveOptions
      → Aggregate S V
      → Result StoreError (List Event) × W
      → Option SaveError × Aggregate S V × W
  after_append opts a (err e, w) = (some (saving_to_stream e), a, w)
  after_append opts a (ok written, w) =
      let (e, a') = confirm_appended s.domain_events opts written a in (e, a', w)

  -- The checks of Save, and the events that it appends.
  unfoldable pub checked : Aggregate S V → Result SaveError (List WritableEvent)
  checked a =
      if lt64 a.version 0
      then err invalid_version
      else if lt64 (sub64 max_int64 a.version) (length a.unsaved_events)
      then err too_many_events
      else writable_events s.domain_events a.unsaved_events

  -- Save of an aggregate that is not nil.
  unfoldable pub save_aggregate :
      W → Option SaveOptions → Aggregate S V → Option SaveError × Aggregate S V × W
  save_aggregate w opts a = elim s.event_writer [
    | none ↦ (some no_stream_writer, a, w)
    | some writer ↦
        if is_empty a.unsaved_events
        then (if a.version == 0 then (some no_events_to_save, a, w) else (none, a, w))
        else elim (checked a) [
          | err e ↦ (some e, a, w)
          | ok events ↦ after_append opts a (
              writer.append_stream w a.id events
                (record { expect_version = some a.version; stream_must_not_exist = false }))
        ]
  ]

  abbrev pub with_aggregate :
      Option SaveError × Aggregate S V × W → Option SaveError × Option (Aggregate S V) × W
  with_aggregate (e, a, w) = (e, some a, w)

  -- Save; `none` is the nil aggregate.
  unfoldable pub save :
      W
      → Option SaveOptions
      → Option (Aggregate S V)
      → Option SaveError × Option (Aggregate S V) × W
  save w opts none = (some nil_aggregate, none, w)
  save w opts (some a) = with_aggregate (save_aggregate w opts a)
