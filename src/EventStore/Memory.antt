-- ===== src/EventStore/Memory.antt =====
-- eventstore/memory/event_store.go and stream_iterator.go: the in-memory event store.
-- The JSON codec, the UUID package, the clock and `sort.Search` are parameters: `marshal` and
-- `unmarshal`, `uuid_string`, `draw` (the UUID and the time of the i-th event of an append) and
-- `search`. `D` is the type of encoded events. The locks are not modelled: each method is one step.
pub mod Reads
pub mod Cursor
pub mod Contract
pub mod Truncation
pub mod Deletes
pub mod Global
pub mod Writes
pub mod Commit
pub mod Append
pub mod Lossless
pub mod Invariant
mod Examples
use estoria.Prelude.{
  ℕ, zero, suc, ◌+◌, ◌-◌, ◌*◌, ◌/◌, ◌%◌, ◌^◌, ◌≤◌, ◌<◌, min, ◌≡◌, refl, sym, ap, ◌∙◌, ◌≢◌, ◌↔◌, ◌⊎◌,
  inl, inr, Bool, true, false, not, ◌&&◌, ◌||◌, Option, none, some, List, [], ◌∷◌, ◌++◌, map,
  append-nil, append_assoc, arith, ltb, leb, ◌==◌, if◌then◌else◌, ==_iff, Bool-cases, Option-cases,
  length, is_empty, get_elem?, take, drop, length-append, length-drop, take-append-drop,
  take-append, drop-append, All, All-append, All-imp, Int64, int64_mod, int64_neg, max_int64, add64,
  sub64, lt64, le64, max64, min64, add64_lem, sub64_lem, lt64_lem, le64_lem, max64-eq, Text, codes,
  text_eq, text_lt, text_eq_iff, has_prefix, has_suffix, Result, ok, err, ◌>>=◌, map_err, Dict,
  lookup, insert, erase, lookup-insert, lookup-erase, fails_if, ◌or_else◌, wrap, or_else-none,
  or_else-eq_none,
}
use estoria.TypeId.{TypedId, Uuid, zero_id, new, to_string}
use estoria.EventStore.{
  Event, WritableEvent, Time, ReadStreamDirection, forward, reverse, ReadStreamOptions,
  AppendStreamOptions, ReadAllOptions, DeleteStreamOptions, StoreError, exclusive_options,
  negative_to_version, stream_not_found, stream_iterator_closed, end_of_event_stream,
  stream_version_mismatch, event_marshaling, event_unmarshaling, index_out_of_range,
}

pub record Stream (D : Type 0) : Type 0 where
  pub first_version : Int64
  pub events : List D

pub record GlobalLogEntry (D : Type 0) : Type 0 where
  pub position : Int64
  pub stream_key : Text
  pub version : Int64
  pub payload : D

pub record EventStore (D : Type 0) : Type 0 where
  pub streams : Dict (Stream D)
  pub global_log : List (GlobalLogEntry D)
  pub global_counter : Int64

-- NewEventStore, with no options (the package declares none)
abbrev pub new_event_store : {D : Type 0} → EventStore D
new_event_store = record { streams = []; global_log = []; global_counter = 0 }

-- `cursor` counts from 0; `events` is `none` once the iterator is closed.
pub record StreamIterator (D : Type 0) : Type 0 where
  pub stream_id : TypedId
  pub events : Option (List D)
  pub cursor : Int64
  pub direction : ReadStreamDirection
  pub limit : Int64
  pub retrieved : Int64

-- `limit := int64(0); if opts.Count > 0 { limit = opts.Count }`
abbrev pub limit_of : Int64 → Int64
limit_of count = if lt64 0 count then count else 0

-- `opts.ExpectVersion != nil && *opts.ExpectVersion != currentVersion`
abbrev pub mismatch : Option Int64 → Int64 → Option Int64
mismatch none current = none
mismatch (some expected) current = if expected == current then none else some expected

abbrev pub is_given : Option Int64 → Bool
is_given none = false
is_given (some v) = true

abbrev pub Written : Type 0 → Type 0
Written D = Result StoreError (List (GlobalLogEntry D) × List Event) × Int64

module _ {D : Type 0} where
  -- One more written event in front of what the rest of the loop returned.
  abbrev pub cons_written : GlobalLogEntry D → Event → Written D → Written D
  cons_written entry back (ok (tx, written), counter) = (ok (entry ∷ tx, back ∷ written), counter)
  cons_written entry back (err e, counter) = (err e, counter)

  abbrev pub payloads : List (GlobalLogEntry D) → List D
  payloads [] = []
  payloads (entry ∷ tx) = entry.payload ∷ payloads tx

  -- `s.globalLog[i].position > opts.AfterPosition`, at an index in range
  abbrev pub is_past : List (GlobalLogEntry D) → Int64 → ℕ → Bool
  is_past log after i = elim (get_elem? log i) [ none ↦ true | some e ↦ lt64 after e.position ]

  unfoldable pub tip : Stream D → Int64
  tip entry = sub64 (add64 entry.first_version (length entry.events)) 1

  -- The stream entry of an append, new if there is none.
  abbrev pub entry_of : Option (Stream D) → Stream D
  entry_of none = record { first_version = 1; events = [] }
  entry_of (some entry) = entry

  -- `!ok || (len(entry.events) == 0 && entry.firstVersion == 1)`
  abbrev pub is_never_written : Option (Stream D) → Bool
  is_never_written none = true
  is_never_written (some entry) = is_empty entry.events && entry.first_version == 1

  unfoldable pub drop_from_global_log :
      Text → Int64 → List (GlobalLogEntry D) → List (GlobalLogEntry D)
  drop_from_global_log key to_version [] = []
  drop_from_global_log key to_version (entry ∷ log) =
      let rest = drop_from_global_log key to_version log in
      if text_eq entry.stream_key key && le64 entry.version to_version then rest else entry ∷ rest

  unfoldable pub start_cursor : Stream D → ReadStreamOptions → Int64
  start_cursor entry opts = elim opts.direction [
    | forward ↦
        let cursor = add64 (sub64 opts.after_version entry.first_version) 1 in
        if lt64 0 cursor then cursor else 0
    | reverse ↦
        let last = sub64 (length entry.events) 1 in
        let cursor = sub64 opts.after_version entry.first_version in
        if le64 opts.after_version 0
        then last
        else if lt64 cursor (length entry.events)
        then cursor
        else last
  ]

  unfoldable pub cut_stream : Text → Stream D → Int64 → EventStore D → EventStore D
  cut_stream key entry to_version s =
      let cut = min64 to_version (tip entry) in
      let removed = add64 (sub64 cut entry.first_version) 1 in
      if le64 removed 0 then s else record s {
        streams =
            insert key (record { first_version = add64 cut 1; events = drop removed entry.events })
              s.streams;
        global_log = drop_from_global_log key cut s.global_log;
      }

  -- `s.streams[streamID.String()] = entry` where there was none
  abbrev pub with_entry : EventStore D → Text → Option (Stream D) → EventStore D
  with_entry s key none = record s { streams = insert key (entry_of none) s.streams }
  with_entry s key (some entry) = s

  -- The end of AppendStream, with the transaction complete or refused.
  unfoldable pub commit :
      EventStore D → Text → Stream D → Written D → Result StoreError (List Event) × EventStore D
  commit s key entry (err e, counter) = (err e, record s { global_counter = counter })
  commit s key entry (ok (tx, written), counter) = (
    ok written,
    record {
      streams = insert key (record entry { events = entry.events ++ payloads tx }) s.streams;
      global_log = s.global_log ++ tx;
      global_counter = counter;
    },
  )

module _ (draw : ℕ → Uuid × Time) where
  -- The event that the loop of AppendStream makes of the i-th one.
  unfoldable pub event_at : TypedId → Int64 → ℕ → Int64 → WritableEvent → Event
  event_at stream_id current i position w = record {
    id = new w.type_name (draw i).0;
    stream_id = stream_id;
    stream_version = add64 (add64 current i) 1;
    global_position = some position;
    timestamp = (draw i).1;
    payload = w.payload;
    data_content_type = w.data_content_type;
    metadata = w.metadata;
  }

module _ {D : Type 0} (uuid_string : Uuid → Text) where
  unfoldable pub read_stream :
      EventStore D → TypedId → ReadStreamOptions → Result StoreError (StreamIterator D)
  read_stream s stream_id opts =
      let found = lookup (to_string uuid_string stream_id) s.streams in
      if is_never_written found
      then err stream_not_found
      else ok (record {
        stream_id = stream_id;
        events = some (entry_of found).events;
        cursor = start_cursor (entry_of found) opts;
        direction = opts.direction;
        limit = limit_of opts.count;
        retrieved = 0;
      })

  unfoldable pub delete_stream :
      EventStore D → TypedId → DeleteStreamOptions → Option StoreError × EventStore D
  delete_stream s stream_id opts =
      let key = to_string uuid_string stream_id in
      let found = lookup key s.streams in
      if lt64 opts.to_version 0
      then (some negative_to_version, s)
      else if is_never_written found
      then (some stream_not_found, s)
      else if opts.to_version == 0
      then (
        none,
        record s {
          streams = erase key s.streams;
          global_log = drop_from_global_log key max_int64 s.global_log;
        },
      )
      else (none, cut_stream key (entry_of found) opts.to_version s)

module _ {D : Type 0} (uuid_string : Uuid → Text) (marshal : Event → Option D)
    (unmarshal : D → Option Event) (draw : ℕ → Uuid × Time) where
  -- The rest of one round of the loop of AppendStream, and `rest`, which is what the later rounds
  -- return.
  pub write_one : TypedId → Event → Int64 → Written D → Written D
  write_one stream_id event position rest = elim (marshal event) [
    | none ↦ (err (event_marshaling stream_id event.id), position)
    | some d ↦ elim (unmarshal d) [
      | none ↦ (err (event_unmarshaling stream_id event.id), position)
      | some back ↦
          cons_written
            (record {
              position = position;
              stream_key = to_string uuid_string stream_id;
              version = event.stream_version;
              payload = d;
            })
            back rest
    ]
  ]

  -- The loop of AppendStream from the i-th event on, with `s.globalCounter`, which moves on also
  -- where the loop returns an error.
  unfoldable pub write_events : TypedId → Int64 → ℕ → Int64 → List WritableEvent → Written D
  write_events stream_id current i counter [] = (ok ([], []), counter)
  write_events stream_id current i counter (w ∷ events) =
      let position = add64 counter 1 in
      write_one stream_id (event_at draw stream_id current i position w) position
        (write_events stream_id current (i + 1) position events)

  unfoldable pub append_stream :
      EventStore D
      → TypedId
      → List WritableEvent
      → AppendStreamOptions
      → Result StoreError (List Event) × EventStore D
  append_stream s stream_id events opts =
      let key = to_string uuid_string stream_id in
      let found = lookup key s.streams in
      let entry = entry_of found in
      let s' = with_entry s key found in
      let current = tip entry in
      if is_given opts.expect_version && opts.stream_must_not_exist
      then (err exclusive_options, s)
      else if opts.stream_must_not_exist && lt64 0 current
      then (err (stream_version_mismatch stream_id 0 current), s')
      else elim (mismatch opts.expect_version current) [
        | some expected ↦ (err (stream_version_mismatch stream_id expected current), s')
        | none ↦ commit s' key entry (write_events stream_id current 0 s.global_counter events)
      ]

module _ {D : Type 0} (search : ℕ → (ℕ → Bool) → ℕ) where
  unfoldable pub read_all : EventStore D → ReadAllOptions → StreamIterator D
  read_all s opts =
      let start = search (length s.global_log) (is_past s.global_log opts.after_position) in
      record {
        stream_id = zero_id;
        events = some (payloads (drop start s.global_log));
        cursor = 0;
        direction = forward;
        limit = limit_of opts.count;
        retrieved = 0;
      }

module _ {D : Type 0} (unmarshal : D → Option Event) where
  -- The event is read at the cursor, which moves on also where the event does not decode.
  pub read_at : StreamIterator D → Option D → Result StoreError Event × StreamIterator D
  read_at it none = (err index_out_of_range, it)
  read_at it (some d) =
      let it' = record it {
        cursor = elim it.direction [ forward ↦ add64 it.cursor 1 | reverse ↦ sub64 it.cursor 1 ];
        retrieved = add64 it.retrieved 1;
      } in
      elim (unmarshal d) [
        | none ↦ (err (event_unmarshaling it.stream_id zero_id), it')
        | some event ↦ (ok event, it')
      ]

  -- The three tests for the end of the stream.
  pub is_exhausted : StreamIterator D → List D → Bool
  is_exhausted it events =
      elim it.direction [ forward ↦ le64 (length events) it.cursor | reverse ↦ lt64 it.cursor 0 ]
      || (lt64 0 it.limit && le64 it.limit it.retrieved)

  -- StreamIterator.Next
  unfoldable pub next : StreamIterator D → Result StoreError Event × StreamIterator D
  next it = elim it.events [
    | none ↦ (err stream_iterator_closed, it)
    | some events ↦
        if is_exhausted it events
        then (err end_of_event_stream, it)
        else read_at it (get_elem? events it.cursor)
  ]

-- StreamIterator.Close
unfoldable pub close : {D : Type 0} → StreamIterator D → StreamIterator D
close it = record it { events = none }
