-- ===== src/EventStore/Memory/Lossless.antt =====
-- eventstore/memory: AppendStream where encoding the events that it writes and decoding them gives
-- them back.
use estoria.Prelude.{
  ℕ, ◌+◌, ◌≡◌, refl, false, Option, some, List, [], ◌∷◌, arith, All, Int64, add64, Text, ok, lookup,
}
use estoria.TypeId.{TypedId, Uuid, to_string}
use estoria.EventStore.{Event, WritableEvent, Time}
use estoria.EventStore.Memory.{
  GlobalLogEntry, EventStore, write_one, write_events, event_at, append_stream, tip, entry_of,
  commit,
}

module _ (draw : ℕ → Uuid × Time) (stream_id : TypedId) where
  -- The events that the loop makes.
  abbrev pub stored : Int64 → ℕ → Int64 → List WritableEvent → List Event
  stored current i counter [] = []
  stored current i counter (w ∷ events) =
      event_at draw stream_id current i (add64 counter 1) w
      ∷ stored current (i + 1) (add64 counter 1) events

module _ {D : Type 0} (uuid_string : Uuid → Text) (marshal : Event → Option D)
    (unmarshal : D → Option Event) (draw : ℕ → Uuid × Time) (stream_id : TypedId) where
  -- An event that the codec gives back as it was.
  abbrev pub Lossless : Event → Type 0
  Lossless event = (d : D) × (marshal event ≡ some d) × (unmarshal d ≡ some event)

  pub write_events-stored :
      (current : Int64) (i : ℕ) (counter : Int64) (events : List WritableEvent)
      → All Lossless (stored draw stream_id current i counter events)
      → (tx : List (GlobalLogEntry D)) × (c : Int64) × (write_events uuid_string marshal unmarshal
            draw stream_id current i counter events
          ≡ (ok (tx, stored draw stream_id current i counter events), c))
  unfolding write_events write_one
  write_events-stored current i counter [] whole = ([], counter, refl)
  write_events-stored current i counter (w ∷ events) ((d, encoded, decoded), whole) =
      let (tx, c, eq) = write_events-stored current (i + 1) (add64 counter 1) events whole in
      let event = event_at draw stream_id current i (add64 counter 1) w in
      (
        record {
          position = add64 counter 1;
          stream_key = to_string uuid_string stream_id;
          version = event.stream_version;
          payload = d;
        }
            ∷ tx,
        c,
        ground (arith, eq, encoded, decoded),
      )

  -- An append that expects the version that the stream has returns the events that it makes, where the
  -- codec gives these back.
  pub append_stream-stored :
      (s : EventStore D) (events : List WritableEvent)
      → All Lossless (
          stored draw stream_id
            (tip (entry_of (lookup (to_string uuid_string stream_id) s.streams)))
            0
            s.global_counter
            events)
      → (append_stream uuid_string marshal unmarshal draw s stream_id events (record {
        expect_version = some (tip (entry_of (lookup (to_string uuid_string stream_id) s.streams)));
        stream_must_not_exist = false;
      })).0
        ≡ ok (
            stored draw stream_id
              (tip (entry_of (lookup (to_string uuid_string stream_id) s.streams)))
              0
              s.global_counter
              events)
  unfolding append_stream commit
  append_stream-stored s events whole =
      let current = tip (entry_of (lookup (to_string uuid_string stream_id) s.streams)) in
      let (tx, c, eq) = write_events-stored current 0 s.global_counter events whole in
      ground (arith, eq)
