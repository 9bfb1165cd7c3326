-- ===== src/EventStore/Memory/Writes.antt =====
-- eventstore/memory: AppendStream as its callers see it.
use estoria.Prelude.{
  ℕ, ◌+◌, ◌<◌, ◌≡◌, refl, ◌∙◌, ◌⊎◌, inl, inr, true, false, ◌&&◌, Option, none, some, List, ◌++◌,
  arith, if◌then◌else◌, Bool-cases, Option-cases, length, Int64, int64_neg, lt64, Text, text_eq,
  text_eq_iff, Result, ok, err, lookup, lookup-insert,
}
use estoria.TypeId.{TypedId, Uuid, to_string}
use estoria.EventStore.{
  Event, WritableEvent, Time, AppendStreamOptions, StoreError, exclusive_options,
  stream_version_mismatch,
}
use estoria.EventStore.Memory.{
  Stream, EventStore, Written, write_events, append_stream, tip, entry_of, with_entry, commit,
  mismatch, is_never_written, is_given,
}
use estoria.EventStore.Memory.Reads.{decode_all}
use estoria.EventStore.Memory.Invariant.{Fits, IsValid}
use estoria.EventStore.Memory.Append.{Wrote, write_events-Wrote}
use estoria.EventStore.Memory.Commit.{
  tip_lem, with_entry-IsValid, lookup-with_entry, commit-IsValid, commit_err, commit_ok,
}

mismatch-none :
    (o : Option Int64) (current v : Int64) → mismatch o current ≡ none → o ≡ some v → v ≡ current
mismatch-none none current v h e = cc
mismatch-none (some x) current v h e = ground arith

-- What a reader of a stream can tell of its entry.
abbrev pub visible : {D : Type 0} → Option (Stream D) → Option (Stream D)
visible none = none
visible (some entry) = if is_never_written (some entry) then none else some entry

visible-with_entry :
    {D : Type 0} (s : EventStore D) (key j : Text)
    → visible (lookup j (with_entry s key (lookup key s.streams)).streams)
      ≡ visible (lookup j s.streams)
visible-with_entry s key j = elim (Option-cases (lookup key s.streams)) [
  | inr (entry, found) ↦ rw found
  | inl absent ↦ rw (absent, lookup-insert) (ground (arith, absent, text_eq_iff key j))
]

lookup-with_entry_ne :
    {D : Type 0} (s : EventStore D) (key j : Text)
    → text_eq key j ≡ false
    → lookup j (with_entry s key (lookup key s.streams)).streams ≡ lookup j s.streams
lookup-with_entry_ne s key j ne = elim (Option-cases (lookup key s.streams)) [
  | inr (entry, found) ↦ rw found
  | inl absent ↦ rw (absent, lookup-insert, ne)
]

global-with_entry :
    {D : Type 0} (s : EventStore D) (key : Text) (found : Option (Stream D))
    → ((with_entry s key found).global_log ≡ s.global_log)
      × ((with_entry s key found).global_counter ≡ s.global_counter)
global-with_entry s key none = (refl, refl)
global-with_entry s key (some entry) = (refl, refl)

module _ {D : Type 0} (uuid_string : Uuid → Text) (marshal : Event → Option D)
    (unmarshal : D → Option Event) (draw : ℕ → Uuid × Time) (s : EventStore D) (stream_id : TypedId)
    (events : List WritableEvent) (opts : AppendStreamOptions) where
  abbrev pub key : Text
  key = to_string uuid_string stream_id

  abbrev pub opened : EventStore D
  opened = with_entry s key (lookup key s.streams)

  abbrev pub entry : Stream D
  entry = entry_of (lookup key s.streams)

  abbrev pub attempt : Written D
  attempt =
      write_events uuid_string marshal unmarshal draw stream_id (tip entry) 0 s.global_counter
        events

  abbrev pub appended : Result StoreError (List Event) × EventStore D
  appended = append_stream uuid_string marshal unmarshal draw s stream_id events opts

  -- A version is acceptable to the options of an append.
  abbrev pub Accepts : Int64 → Type 0
  Accepts current =
      ((v : Int64) → opts.expect_version ≡ some v → v ≡ current)
      × (opts.stream_must_not_exist ≡ true → lt64 0 current ≡ false)

  -- A refusal before the loop, or the loop and its outcome.
  data PathThrough : Type 0 where
    refused :
        (e : StoreError) (after : EventStore D)
        → appended ≡ (err e, after)
        → (after ≡ s) ⊎ (after ≡ opened)
        → PathThrough
    attempted : appended ≡ commit opened key entry attempt → Accepts (tip entry) → PathThrough

  path_through : PathThrough
  unfolding append_stream
  path_through = elim (Bool-cases (is_given opts.expect_version && opts.stream_must_not_exist)) [
    | inl both ↦ refused exclusive_options s (rw both) (inl refl)
    | inr not_both ↦ elim (Bool-cases (opts.stream_must_not_exist && lt64 0 (tip entry))) [
      | inl exists ↦
          refused (stream_version_mismatch stream_id 0 (tip entry)) opened (rw (not_both, exists))
            (inr refl)
      | inr absent ↦ elim (Option-cases (mismatch opts.expect_version (tip entry))) [
        | inr (v, other) ↦
            refused (stream_version_mismatch stream_id v (tip entry)) opened
              (rw (not_both, absent, other)) (inr refl)
        | inl same ↦
            attempted (rw (not_both, absent, same))
              (λ v. mismatch-none opts.expect_version (tip entry) v same, λ e. ground arith)
      ]
    ]
  ]

  module _ (h : IsValid s) (room : s.global_counter + length events < int64_neg) where
    pub entry-Fits : Fits s.global_counter entry
    entry-Fits = elim (Option-cases (lookup key s.streams)) [
      | inl absent ↦ rw absent (omega arith)
      | inr (found, e) ↦ rw e (h.fits key found e)
    ]

    attempt-Wrote :
        Wrote uuid_string marshal unmarshal draw stream_id
          (entry.first_version + length entry.events)
          s.global_counter
          (length events)
          attempt
    attempt-Wrote =
        let v : tip entry + 0 + 1 ≡ entry.first_version + length entry.events =
          omega (arith, tip_lem entry s.global_counter entry-Fits (omega arith)) in
        rw v at (
          write_events-Wrote uuid_string marshal unmarshal draw stream_id (tip entry) 0
            s.global_counter events
            (omega
              (arith, tip_lem entry s.global_counter entry-Fits (omega arith), entry-Fits.counted))
            room)

    refused-IsValid : (after : EventStore D) → (after ≡ s) ⊎ (after ≡ opened) → IsValid after
    refused-IsValid after (inl same) = rw same h
    refused-IsValid after (inr same) = rw same (with_entry-IsValid s key h)

    -- AppendStream keeps the invariant on every path, errors included, where the global counter has
    -- room for the events.
    pub append_stream-IsValid : IsValid appended.1
    append_stream-IsValid = elim path_through [
      | refused e after eq which ↦ rw eq (refused-IsValid after which)
      | attempted eq accepts ↦ rw eq (
          commit-IsValid uuid_string marshal unmarshal draw opened stream_id entry attempt
            (length events) (with_entry-IsValid s key h) (lookup-with_entry s key)
            (rw (global-with_entry s key (lookup key s.streams)).1 attempt-Wrote))
    ]

    unchanged_by :
        (after : EventStore D)
        → (after ≡ s) ⊎ (after ≡ opened)
        → (after.global_log ≡ s.global_log)
          × ((j : Text) → visible (lookup j after.streams) ≡ visible (lookup j s.streams))
    unchanged_by after (inl same) = rw same (refl, λ j. refl)
    unchanged_by after (inr same) =
        rw same ((global-with_entry s key (lookup key s.streams)).0, visible-with_entry s key)

    -- A failed AppendStream on a valid store leaves the global log as it was, and every stream as a
    -- reader sees it, where the global counter has room for the events.
    pub append_stream_err :
        (e : StoreError)
        → appended.0 ≡ err e
        → (appended.1.global_log ≡ s.global_log)
          × ((j : Text) → visible (lookup j appended.1.streams) ≡ visible (lookup j s.streams))
    append_stream_err e failed = elim path_through [
      | refused x after eq which ↦ rw eq (unchanged_by after which)
      | attempted eq accepts ↦
          let (log, streams) =
            commit_err uuid_string marshal unmarshal draw opened stream_id entry attempt e
              (rw eq at failed) in
          let (log', seen) = unchanged_by opened (inr refl) in
          rw eq (log ∙ log', λ j. rw streams (seen j))
    ]

    -- An AppendStream on a valid store that succeeds appends to its stream exactly the events that
    -- it returns, as many as it was given and as they decode; it leaves the other streams alone,
    -- and the version before it was acceptable to the options. The global counter has room for the
    -- events.
    pub append_stream_ok :
        (written : List Event)
        → appended.0 ≡ ok written
        → (ds : List D) × (lookup key appended.1.streams
            ≡ some (record entry { events = entry.events ++ ds }))
          × (decode_all unmarshal stream_id ds ≡ (written, none))
          × (length ds ≡ length events)
          × ((j : Text) → text_eq key j ≡ false → lookup j appended.1.streams ≡ lookup j s.streams)
          × Accepts (tip entry)
    append_stream_ok written succeeded = elim path_through [
      | refused x after eq which ↦ cc
      | attempted eq accepts ↦
          let (ds, found, dec, len, others) =
            commit_ok uuid_string marshal unmarshal draw opened stream_id entry attempt
              (entry.first_version + length entry.events) s.global_counter (length events) written
              attempt-Wrote (rw eq at succeeded) in
          rw eq
            (ds, found, dec, len, λ j ne. others j ne ∙ lookup-with_entry_ne s key j ne, accepts)
    ]
