-- ===== src/AggregateStore/EventSourced/Loading.antt =====
-- aggregatestore/event_sourced_store.go over eventstore/memory: Load of a stored aggregate.
use estoria.Prelude.{
  ℕ, ◌<◌, ◌≡◌, refl, ◌∙◌, inl, inr, false, Option, none, some, List, arith, ◌==◌, Bool-cases,
  Result-cases, length, Int64, int64_mod, int64_neg, sub64, lt64, Text, ok, lookup,
}
use estoria.TypeId.{TypedId, Uuid, nil_uuid, to_string}
use estoria.EventStore.{Event, StoreError, ReadStreamOptions, collect}
use estoria.EventStore.Memory.{
  Stream, EventStore, StreamIterator, read_stream, is_never_written, next, limit_of,
}
use estoria.EventStore.Memory.Reads.{decode_all, limited}
use estoria.EventStore.Memory.Cursor.{above_all, IsSound}
use estoria.EventStore.Memory.Contract.{read_events, read_forward}
use estoria.AggregateStore.EventSourced.{
  StreamReader, EventSourcedStore, LoadOptions, to_version_of, new_for, read_options, load,
}
use estoria.AggregateStore.EventSourced.Hydrating.{Replays, caught_up, hydrate-Replays}

-- The in-memory event store, as a reader and as a writer.
module _ {D : Type 0} (uuid_string : Uuid → Text) (unmarshal : D → Option Event) where
  abbrev pub memory_reader : StreamReader (EventStore D) (StreamIterator D)
  memory_reader = record { read_stream = read_stream uuid_string; next = next unmarshal }

  -- A read whose events were collected began with an iterator.
  read_events-iter :
      (s : EventStore D) (stream_id : TypedId) (opts : ReadStreamOptions) (fuel : ℕ)
      (events : List Event) (e : Option StoreError)
      → read_events uuid_string unmarshal s stream_id opts fuel ≡ ok (some (events, e))
      → (iter : StreamIterator D) × (read_stream uuid_string s stream_id opts ≡ ok iter)
        × (collect (next unmarshal) fuel iter ≡ some (events, e))
  unfolding read_events
  read_events-iter s stream_id opts fuel events e h =
      elim (Result-cases (read_stream uuid_string s stream_id opts)) [
        | inl (iter, fine) ↦ (iter, fine, ground (arith, h, fine))
        | inr (x, failed) ↦ absurd (ground (arith, h, failed))
      ]

  limit_of-read_options :
      {S V : Type 0} (s : EventSourcedStore S V (EventStore D) (StreamIterator D)) (t : Int64)
      (id : Uuid)
      → t < int64_neg
      → (limit_of (read_options s t (new_for s id)).count ≡ t)
        × ((read_options s t (new_for s id)).count < int64_mod)
  unfolding lt64 sub64
  limit_of-read_options s t id small = ground arith

  module _ {S V : Type 0} (s : EventSourcedStore S V (EventStore D) (StreamIterator D))
      (given : s.event_reader ≡ some memory_reader) (w : EventStore D) (id : Uuid)
      (opts : Option LoadOptions) (small : to_version_of opts < int64_neg) (fuel : ℕ)
      (entry : Stream D) (events : List Event) (vs : List V)
      (found : lookup (to_string uuid_string (new_for s id).id) w.streams ≡ some entry)
      (written : is_never_written (some entry) ≡ false) (sound : IsSound entry)
      (enough : length entry.events < fuel) (replays : Replays s 0 events vs)
      (room : length vs < int64_neg) (real : (id == nil_uuid) ≡ false) where
    -- Load from the in-memory event store of an aggregate whose stream holds events, of which the first
    -- ones up to the version asked for, or all where it is 0, decode to domain events with versions
    -- from 1 on: it returns the aggregate that these have been applied to, in order, with their number
    -- as its version. The fuel exceeds the number of events.
    pub load-memory :
        decode_all unmarshal (new_for s id).id (limited (to_version_of opts) 0 entry.events)
          ≡ (events, none)
        → load s w fuel id opts ≡ some (ok (caught_up s vs (new_for s id)))
    unfolding load lt64
    load-memory decoded =
        let t = to_version_of opts in
        let read : ReadStreamOptions = read_options s t (new_for s id) in
        let (limit, pattern) = limit_of-read_options s t id small in
        let (iter, fine, collected) = read_events-iter w (new_for s id).id read fuel events none (
          read_forward uuid_string unmarshal w (new_for s id).id read fuel entry found written sound
            enough pattern refl (omega arith)
          ∙ rw (above_all 0 entry.first_version entry.events sound.positive, limit, decoded)
              refl) in
        let reached =
          hydrate-Replays s w fuel (some (record { to_version = t })) memory_reader iter events vs
            (new_for s id) given small
            (elim (Bool-cases (t == 0)) [
              | inl latest ↦ inl (ground (arith, latest))
              | inr bounded ↦ inr (ground (arith, bounded))
            ])
            fine collected replays refl (omega arith) in
        ground (arith, real, small, reached)
