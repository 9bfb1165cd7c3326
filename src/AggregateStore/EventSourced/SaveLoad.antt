-- ===== src/AggregateStore/EventSourced/SaveLoad.antt =====
-- aggregatestore/event_sourced_store.go over eventstore/memory: a Save of an aggregate that is up to
-- date, and a Load of what it saved.
use estoria.Prelude.{
  ℕ, suc, ◌+◌, ◌<◌, ◌≡◌, refl, ap, ◌∙◌, false, Option, none, some, List, [], ◌∷◌, ◌++◌, map, arith,
  ◌==◌, length, is_empty, length-append, All, int64_neg, Text, Result, ok, lookup,
}
use estoria.TypeId.{Uuid, nil_uuid, to_string}
use estoria.EventStore.{Event, WritableEvent, Time, AppendStreamOptions, StoreError}
use estoria.EventStore.Memory.{Stream, EventStore, StreamIterator, append_stream, entry_of, tip}
use estoria.EventStore.Memory.Invariant.{Fits, IsValid}
use estoria.EventStore.Memory.Commit.{tip_lem}
use estoria.EventStore.Memory.Writes.{append_stream_ok, entry-Fits}
use estoria.EventStore.Memory.Reads.{decode_all}
use estoria.EventStore.Memory.Lossless.{stored, Lossless, append_stream-stored}
use estoria.AggregateStore.Aggregate.{AggregateEvent, Aggregate, clear_unsaved_events}
use estoria.AggregateStore.EventSourced.{
  EventSourcedStore, SaveOptions, SaveError, new_for, load, skips_apply,
}
use estoria.AggregateStore.EventSourced.Save.{writable_events, checked, save_aggregate}
use estoria.AggregateStore.EventSourced.Hydrating.{Replays, caught_up}
use estoria.AggregateStore.EventSourced.Saving.{settled, save_aggregate-settled}
use estoria.AggregateStore.EventSourced.Loading.{memory_reader, load-memory}
use estoria.AggregateStore.EventSourced.RoundTrip.{
  memory_writer, state_after-append, decode_all-append, decode_all-length, Replays-append,
  Replays-length, Replays-Numbered, Recovers, stored-Replays, writable_events-length,
}

length-map : {A B : Type 0} (f : A → B) (xs : List A) → length (map f xs) ≡ length xs
length-map f [] = refl
length-map f (x ∷ xs) = ap suc (length-map f xs)

nonempty : {A : Type 0} (xs : List A) → 0 < length xs → is_empty xs ≡ false
nonempty [] h = absurd (omega arith)
nonempty (x ∷ xs) h = refl

nonzero : {A : Type 0} (xs : List A) → is_empty xs ≡ false → 0 < length xs
nonzero [] h = ground (arith, h)
nonzero (x ∷ xs) h = omega arith

module _ {D S V : Type 0} (uuid_string : Uuid → Text) (marshal : Event → Option D)
    (unmarshal : D → Option Event) (draw : ℕ → Uuid × Time)
    (s : EventSourcedStore S V (EventStore D) (StreamIterator D)) (w : EventStore D) (id : Uuid)
    (vs : List V) (unsaved : List (AggregateEvent V)) (opts : Option SaveOptions) where
  -- An aggregate that is up to date, with unsaved events.
  abbrev pub pending : Aggregate S V
  pending = record (caught_up s vs (new_for s id)) { unsaved_events = unsaved }

  abbrev pub saving : Option SaveError × Aggregate S V × EventStore D
  saving = save_aggregate s w opts pending

  abbrev pub stream_of : Stream D
  stream_of = entry_of (lookup (to_string uuid_string (new_for s id).id) w.streams)

  -- The events that the append writes.
  abbrev pub made : List WritableEvent → List Event
  made events = stored draw (new_for s id).id pending.version 0 w.global_counter events

  module _ (events : List WritableEvent) (old : List Event)
      (lossless : All (Lossless uuid_string marshal unmarshal draw (new_for s id).id) (made events))
      (reads : s.event_reader ≡ some (memory_reader uuid_string unmarshal))
      (writes : s.event_writer ≡ some (memory_writer uuid_string marshal unmarshal draw))
      (valid : IsValid w) (whole : stream_of.first_version ≡ 1)
      (decoded : decode_all unmarshal (new_for s id).id stream_of.events ≡ (old, none))
      (replays : Replays s 0 old vs) (accepted : checked s pending ≡ ok events)
      (some_events : is_empty unsaved ≡ false) (recovers : All (Recovers s) unsaved)
      (applies : skips_apply opts ≡ false) (real : (id == nil_uuid) ≡ false)
      (room : w.global_counter + length unsaved < int64_neg) where
    abbrev written : List Event
    written = made events

    encoded : writable_events s.domain_events unsaved ≡ ok events
    unfolding checked
    encoded = ground (arith, accepted)

    as_many : length events ≡ length unsaved
    as_many = writable_events-length s unsaved events encoded

    length-stream_of : length stream_of.events ≡ length vs
    length-stream_of =
        decode_all-length uuid_string marshal unmarshal draw (new_for s id).id stream_of.events old
          decoded
        ∙ Replays-length s 0 old vs replays

    abbrev append_options : AppendStreamOptions
    append_options = record { expect_version = some pending.version; stream_must_not_exist = false }

    fits : Fits w.global_counter stream_of
    fits =
        entry-Fits uuid_string marshal unmarshal draw w (new_for s id).id events append_options
          valid (omega (arith, as_many))

    tip-vs : tip stream_of ≡ pending.version
    tip-vs =
        omega
          (arith, tip_lem stream_of w.global_counter fits (omega arith), length-stream_of, whole)

    bounded : length vs + length unsaved < int64_neg
    bounded = omega (arith, fits.counted, length-stream_of, whole)

    written-Replays : Replays s pending.version written (map AggregateEvent.domain_event unsaved)
    written-Replays =
        let e : pending.version + 0 ≡ pending.version = omega arith in
        rw e at (
          stored-Replays s draw (new_for s id).id pending.version 0 w.global_counter unsaved events
            encoded recovers (omega (arith, bounded)))

    length-written : length written ≡ length unsaved
    length-written =
        Replays-length s pending.version written (map AggregateEvent.domain_event unsaved)
          written-Replays
        ∙ length-map AggregateEvent.domain_event unsaved

    abbrev appended : Result StoreError (List Event) × EventStore D
    appended =
        append_stream uuid_string marshal unmarshal draw w (new_for s id).id events append_options

    appended_ok : appended.0 ≡ ok written
    appended_ok = rw tip-vs at (
        append_stream-stored uuid_string marshal unmarshal draw (new_for s id).id w events
          (rw (← tip-vs) at lossless))

    saved_ok :
        saving ≡ (none, settled s.domain_events unsaved (clear_unsaved_events pending), appended.1)
    saved_ok =
        save_aggregate-settled s w opts pending written appended.1
          (
            memory_writer uuid_string marshal unmarshal draw,
            events,
            writes,
            accepted,
            ap (λ (r : Result StoreError (List Event)). (r, appended.1)) appended_ok,
          )
          some_events length-written
          (Replays-Numbered s pending.version written (map AggregateEvent.domain_event unsaved)
            written-Replays)
          (omega (arith, bounded)) refl applies

    same_aggregate :
        caught_up s (vs ++ map AggregateEvent.domain_event unsaved) (new_for s id)
        ≡ settled s.domain_events unsaved (clear_unsaved_events pending)
    same_aggregate =
        let all = map AggregateEvent.domain_event unsaved in
        let v : 0 + length (vs ++ all) ≡ 0 + length vs + length unsaved =
          omega (arith, length-append vs all, length-map AggregateEvent.domain_event unsaved) in
        rw (v, state_after-append s.domain_events.apply_to vs all (s.new_state id)) refl

    loaded_ok :
        (fuel : ℕ)
        → length vs + length unsaved < fuel
        → load s appended.1 fuel id none
          ≡ some (ok (settled s.domain_events unsaved (clear_unsaved_events pending)))
    loaded_ok fuel enough =
        let (ds, found, back, len, others, accepts) =
          append_stream_ok uuid_string marshal unmarshal draw w (new_for s id).id events
            append_options valid (omega (arith, as_many, room)) written appended_ok in
        let grown : Stream D = record stream_of { events = stream_of.events ++ ds } in
        let size : length grown.events ≡ length vs + length unsaved =
          length-append stream_of.events ds ∙ omega (arith, length-stream_of, len, as_many) in
        let all = map AggregateEvent.domain_event unsaved in
        let total : length (vs ++ all) ≡ length vs + length unsaved =
          length-append vs all ∙ omega (arith, length-map AggregateEvent.domain_event unsaved) in
        load-memory uuid_string unmarshal s reads appended.1 id none (omega arith) fuel grown
          (old ++ written) (vs ++ all) found
          (rw (nonempty grown.events (omega (arith, size, nonzero unsaved some_events))) refl)
          (record {
            positive = omega (arith, whole);
            representable = omega (arith, whole, size, bounded);
          })
          (omega (arith, size)) (Replays-append s 0 old written vs all replays written-Replays)
          (omega (arith, total, bounded)) real
          (decode_all-append uuid_string marshal unmarshal draw (new_for s id).id stream_of.events
            ds old written decoded back)
        ∙ ap (λ (a : Aggregate S V). some (ok a)) same_aggregate

    -- Save, without SkipApply, of an aggregate that is up to date and has unsaved events, to the
    -- in-memory event store, succeeds, and a Load from the store that it leaves returns the very
    -- aggregate that the Save left. The store is valid, and the stream not truncated; its events, with
    -- versions from 1 on, decode to those that the aggregate has applied; the unsaved events pass the
    -- checks of Save, have registered types and decode to what was encoded; the codec of the store gives
    -- back the events that are written; the UUID is not nil; the store reads and writes that event
    -- store; the global counter has room; and the fuel exceeds the number of events.
    pub save-load :
        (fuel : ℕ)
        → length vs + length unsaved < fuel
        → (saving.0 ≡ none) × (load s saving.2 fuel id none ≡ some (ok saving.1))
    save-load fuel enough = rw saved_ok (refl, loaded_ok fuel enough)
