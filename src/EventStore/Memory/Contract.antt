-- ===== src/EventStore/Memory/Contract.antt =====
-- eventstore/memory against the contract of ReadStream in eventstore/event_store.go: which events,
-- by version, a read of a stream yields, and in which order.
use estoria.Prelude.{
  ℕ, ◌+◌, ◌-◌, ◌≤◌, ◌<◌, min, ◌≡◌, refl, ap, inl, inr, false, Option, some, List, [], arith, ltb,
  ◌==◌, if◌then◌else◌, Bool-cases, length, take, drop, int64_mod, int64_neg, sub64, Text, Result,
  ok, err, lookup,
}
use mathlib.Core.List.{reverse}
use estoria.TypeId.{TypedId, Uuid, to_string}
use estoria.EventStore.{
  Event, StoreError, ReadStreamOptions, ReadStreamDirection, forward, reverse as backwards, collect,
}
use estoria.EventStore.Memory.{
  Stream, EventStore, is_never_written, read_stream, start_cursor, limit_of, next,
}
use estoria.EventStore.Memory.Reads.{
  limited, decode_all, collect_forward, collect-backwards, at_cursor, limited_nil, collect_negative,
}
use estoria.EventStore.Memory.Reads.{drop_all}
use estoria.EventStore.Memory.Cursor.{
  above-skip, up_to_none, up_to-min, take_all, limit_of-lt, start_forward, start_negative,
  start_wrapped, start_backwards, start_at_end, start_below, above, up_to, IsSound,
}

module _ {D : Type 0} (uuid_string : Uuid → Text) (unmarshal : D → Option Event) (s : EventStore D)
    (stream_id : TypedId) (opts : ReadStreamOptions) (fuel : ℕ) where
  -- A caller that reads a stream and collects the iterator.
  unfoldable pub read_events : Result StoreError (Option (List Event × Option StoreError))
  unfolding read_stream
  read_events = elim (read_stream uuid_string s stream_id opts) [
    | ok it ↦ ok (collect (next unmarshal) fuel it)
    | err e ↦ err e
  ]

  module _ (entry : Stream D)
      (found : lookup (to_string uuid_string stream_id) s.streams ≡ some entry)
      (written : is_never_written (some entry) ≡ false) (sound : IsSound entry)
      (enough : length entry.events < fuel) (pattern : opts.count < int64_mod) where
    read_events_lem :
        read_events
        ≡ ok (
            collect (next unmarshal) fuel (
              at_cursor unmarshal stream_id opts.direction entry.events
                (start_cursor entry opts)
                (limit_of opts.count)
                0))
    unfolding read_events
    read_events_lem = ground (arith, found, written)

    read_events_at :
        (direction : ReadStreamDirection) (cursor : ℕ)
        → opts.direction ≡ direction
        → start_cursor entry opts ≡ cursor
        → read_events
          ≡ ok (
              collect (next unmarshal) fuel (
                at_cursor unmarshal stream_id direction entry.events cursor
                  (limit_of opts.count)
                  0))
    read_events_at direction cursor dir start = rw (read_events_lem, start, dir)

    forward_from :
        (cursor : ℕ)
        → cursor < int64_neg
        → length entry.events < int64_neg + cursor
        → ◌≡◌ {A = Result StoreError (Option (List Event × Option StoreError))}
            (ok (
              collect (next unmarshal) fuel (
                at_cursor unmarshal stream_id forward entry.events cursor (limit_of opts.count) 0)))
            (ok (
              some (
                decode_all unmarshal stream_id
                  (limited (limit_of opts.count) 0 (drop cursor entry.events)))))
    forward_from cursor bound room = ap ok (
        collect_forward unmarshal stream_id fuel entry.events cursor (limit_of opts.count) 0
          (omega (arith, sound.positive, sound.representable)) bound
          (limit_of-lt opts.count pattern) (omega arith) (omega arith))

    -- Collecting a forward read of a written stream yields, oldest first, the events whose version
    -- is above AfterVersion, at most Count of them where Count is positive, and up to the first
    -- that does not decode; where AfterVersion is not negative, the versions of the stream fit an
    -- int64, and the fuel exceeds the number of its events.
    pub read_forward :
        opts.direction ≡ forward
        → opts.after_version < int64_neg
        → read_events
          ≡ ok (
              some (
                decode_all unmarshal stream_id (
                  limited
                    (limit_of opts.count)
                    0
                    (above opts.after_version entry.first_version entry.events))))
    read_forward dir small =
        rw
          (
            read_events_at forward _ dir (start_forward entry opts sound dir small),
            above-skip opts.after_version entry.first_version entry.events sound.positive,
          )
          (forward_from (opts.after_version + 1 - entry.first_version)
            (omega (arith, sound.positive)) (omega (arith, sound.positive, sound.representable)))

    -- Collecting a forward read of a written stream from a negative AfterVersion yields the whole
    -- stream, up to Count and to the first event that does not decode; but where AfterVersion + 1 -
    -- firstVersion, the index that it would start at, is below the least int64 and so wraps around, it
    -- yields nothing. The versions of the stream fit an int64, and the fuel exceeds the number of its
    -- events.
    pub read_forward_negative :
        opts.direction ≡ forward
        → int64_neg ≤ opts.after_version
        → opts.after_version < int64_mod
        → read_events
          ≡ ok (
              some (
                decode_all unmarshal stream_id (
                  limited (limit_of opts.count) 0 (
                    if ltb (opts.after_version + 1) (int64_neg + entry.first_version)
                    then []
                    else entry.events))))
    read_forward_negative dir neg range =
        elim (Bool-cases (ltb (opts.after_version + 1) (int64_neg + entry.first_version))) [
          | inl wraps ↦
              rw
                (
                  read_events_at forward _ dir
                      (start_wrapped entry opts sound dir neg range (ground arith)),
                  wraps,
                  ← drop_all (opts.after_version + 1 - entry.first_version) entry.events
                      (omega (arith, sound.representable)),
                )
                (forward_from (opts.after_version + 1 - entry.first_version)
                  (ground (arith, sound.positive))
                  (ground (arith, sound.representable, sound.positive)))
          | inr fits ↦
              rw
                (
                  read_events_at forward _ dir
                      (start_negative entry opts sound dir neg range (ground arith)),
                  fits,
                )
                (forward_from 0 (omega arith) (omega (arith, sound.representable)))
        ]

    from_end :
        (n : ℕ)
        → n ≤ length entry.events
        → ◌≡◌ {A = Result StoreError (Option (List Event × Option StoreError))}
            (ok (
              collect (next unmarshal) fuel (
                at_cursor unmarshal stream_id backwards entry.events
                  (sub64 n 1)
                  (limit_of opts.count)
                  0)))
            (ok (
              some (
                decode_all unmarshal stream_id
                  (limited (limit_of opts.count) 0 (reverse (take n entry.events))))))
    from_end n within = ap ok (
        collect-backwards unmarshal stream_id fuel entry.events n (limit_of opts.count) 0
          (omega (arith, sound.positive, sound.representable)) within
          (limit_of-lt opts.count pattern) (omega (arith, sound.positive, sound.representable))
          (omega arith))

    -- Collecting a reverse read of a written stream yields, newest first, the events whose version
    -- is at most AfterVersion, or all where AfterVersion is 0, at most Count of them where Count is
    -- positive, and up to the first that does not decode; where AfterVersion is not negative, the
    -- versions of the stream fit an int64, and the fuel exceeds the number of its events.
    pub read_reverse :
        opts.direction ≡ backwards
        → opts.after_version < int64_neg
        → read_events
          ≡ ok (
              some (
                decode_all unmarshal stream_id (
                  limited (limit_of opts.count) 0 (
                    reverse (
                      if opts.after_version == 0
                      then entry.events
                      else up_to opts.after_version entry.first_version entry.events)))))
    read_reverse dir small = elim (Bool-cases (opts.after_version == 0)) [
      | inl at_end ↦
          rw (read_events_at backwards _ dir (start_at_end entry opts dir (ground arith)), at_end)
            (rw (take_all entry.events) at (from_end (length entry.events) (omega arith)))
      | inr bounded ↦ elim (Bool-cases (ltb opts.after_version entry.first_version)) [
        | inl below ↦
            rw
              (
                read_events_at backwards (start_cursor entry opts) dir refl,
                bounded,
                up_to_none opts.after_version entry.first_version entry.events (ground arith),
                limited_nil,
              )
              (ap ok (
                collect_negative unmarshal stream_id fuel entry.events _ (limit_of opts.count) 0
                  (start_below entry opts sound dir (ground arith) (ground arith)) (omega arith)))
        | inr within ↦
            rw
              (
                read_events_at backwards _ dir
                    (start_backwards entry opts sound dir (ground arith) small),
                bounded,
                up_to-min opts.after_version entry.first_version entry.events (ground arith),
              )
              (from_end (min (opts.after_version + 1 - entry.first_version) (length entry.events))
                (omega arith))
      ]
    ]
