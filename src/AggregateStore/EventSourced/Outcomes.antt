-- ===== src/AggregateStore/EventSourced/Outcomes.antt =====
-- aggregatestore/event_sourced_store.go: what an error of Save, or its absence, tells of the append.
use estoria.Prelude.{
  ◌≡◌, refl, ◌⊎◌, inl, inr, Bool, true, false, Option, none, some, List, [], ◌∷◌, arith, ◌==◌,
  if◌then◌else◌, Bool-cases, Option-cases, Result-cases, is_empty, Result, ok, err,
}
use estoria.EventStore.{Event, WritableEvent, StoreError}
use estoria.AggregateStore.SaveOutcome.{
  AppendOutcome, unknown_outcome, appended_outcome, nothing_appended_outcome, save_outcome,
  resolved, resolve, height, votes, vote_of, next_level, unwrapped, append_errors,
}
use estoria.AggregateStore.Aggregate.{
  AggregateEvent, Aggregate, ApplyError, no_unapplied_events, at_maximum_version,
  event_version_mismatch, apply_next, clear_unsaved_events,
}
use estoria.AggregateStore.EventSourced.{
  StreamWriter, DomainEvents, EventSourcedStore, SaveOptions, SaveError, nil_aggregate,
  no_stream_writer, no_events_to_save, invalid_version, too_many_events, reserved_metadata_key,
  marshaling_event_data, saving_to_stream, confirming_appended, applying_aggregate_event,
  is_version_mismatch, error_tree,
}
use estoria.AggregateStore.EventSourced.Save.{
  writable_event, writable_events, queue_written, applied_or, apply_queue, confirm_appended,
  after_append, checked, save_aggregate,
}

-- The outcome that the mark of an error names.
abbrev pub marked_outcome : SaveError → AppendOutcome
marked_outcome (saving_to_stream e) =
    if is_version_mismatch e then nothing_appended_outcome else unknown_outcome
marked_outcome confirming_appended = appended_outcome
marked_outcome (applying_aggregate_event e) = appended_outcome
marked_outcome _ = nothing_appended_outcome

-- The errors that Save returns before it appends.
abbrev pub is_refusal : SaveError → Bool
is_refusal (saving_to_stream e) = false
is_refusal confirming_appended = false
is_refusal (applying_aggregate_event e) = false
is_refusal _ = true

pub save_outcome-error_tree :
    (e : SaveError) → save_outcome (error_tree e) ≡ some (marked_outcome e)
unfolding save_outcome resolve height votes vote_of next_level unwrapped append_errors resolved
save_outcome-error_tree nil_aggregate = refl
save_outcome-error_tree no_stream_writer = refl
save_outcome-error_tree no_events_to_save = refl
save_outcome-error_tree invalid_version = refl
save_outcome-error_tree too_many_events = refl
save_outcome-error_tree (reserved_metadata_key key) = refl
save_outcome-error_tree marshaling_event_data = refl
save_outcome-error_tree (saving_to_stream e) = elim (Bool-cases (is_version_mismatch e)) [
  | inl mismatch ↦ rw mismatch refl
  | inr other ↦ rw other refl
]
save_outcome-error_tree confirming_appended = refl
save_outcome-error_tree (applying_aggregate_event e) = refl

module _ {S V : Type 0} (events : DomainEvents S V) where
  writable_events-is_refusal :
      (queue : List (AggregateEvent V)) (e : SaveError)
      → writable_events events queue ≡ err e
      → is_refusal e ≡ true
  unfolding writable_events writable_event
  writable_events-is_refusal [] e h = ground arith
  writable_events-is_refusal (event ∷ queue) e h =
      elim (Result-cases (writable_events events queue)) [
        | inl (ws, fine) ↦ ground (arith, h, fine)
        | inr (x, failed) ↦ ground (arith, h, failed, writable_events-is_refusal queue x failed)
      ]

  applied_or-not_refusal :
      (more : Aggregate S V → Option SaveError × Aggregate S V)
      (r : Option ApplyError × Aggregate S V) (e : SaveError)
      → ((a : Aggregate S V) → (more a).0 ≡ some e → marked_outcome e ≡ appended_outcome)
      → (applied_or events more r).0 ≡ some e
      → marked_outcome e ≡ appended_outcome
  applied_or-not_refusal more (none, a) e later h = later a h
  applied_or-not_refusal more (some no_unapplied_events, a) e later h = ground arith
  applied_or-not_refusal more (some at_maximum_version, a) e later h = ground (arith, h)
  applied_or-not_refusal more (some (event_version_mismatch v u), a) e later h = ground (arith, h)

  apply_queue-appended :
      (queue : List (AggregateEvent V)) (a : Aggregate S V) (e : SaveError)
      → (apply_queue events queue a).0 ≡ some e
      → marked_outcome e ≡ appended_outcome
  unfolding apply_queue
  apply_queue-appended [] a e h =
      applied_or-not_refusal (λ a'. (none, a')) (apply_next events.apply_to a) e
        (λ a' k. ground arith) h
  apply_queue-appended (event ∷ queue) a e h =
      applied_or-not_refusal (apply_queue events queue) (apply_next events.apply_to a) e
        (λ a' k. apply_queue-appended queue a' e k) h

  confirm_appended-appended :
      (opts : Option SaveOptions) (written : List Event) (a : Aggregate S V) (e : SaveError)
      → (confirm_appended events opts written a).0 ≡ some e
      → marked_outcome e ≡ appended_outcome
  unfolding confirm_appended
  confirm_appended-appended opts written a e h =
      let queued = clear_unsaved_events (queue_written events a.unsaved_events written a) in
      ground (arith, h, apply_queue-appended queued.unapplied_events queued e)

module _ {S V W I : Type 0} (s : EventSourcedStore S V W I) (w : W) (opts : Option SaveOptions)
    (a : Aggregate S V) where
  -- Save called AppendStream, which returned a result and left the event store in a state.
  abbrev pub Called : Result StoreError (List Event) → W → Type 0
  Called r w' =
      (writer : StreamWriter W) × (events : List WritableEvent) × (s.event_writer ≡ some writer)
      × (checked s a ≡ ok events)
      × (writer.append_stream w a.id events
            (record { expect_version = some a.version; stream_must_not_exist = false })
          ≡ (r, w'))

  -- What an outcome says of a save.
  abbrev pub Vouches : AppendOutcome → Aggregate S V → W → Type 0
  Vouches appended_outcome a' w' = (written : List Event) × Called (ok written) w'
  Vouches nothing_appended_outcome a' w' =
      (a' ≡ a)
      × ((w' ≡ w) ⊎ ((x : StoreError) × (is_version_mismatch x ≡ true) × Called (err x) w'))
  Vouches unknown_outcome a' w' =
      (a' ≡ a) × ((x : StoreError) × (is_version_mismatch x ≡ false) × Called (err x) w')

  refusal-Vouches :
      (e : SaveError) (a' : Aggregate S V) (w' : W)
      → is_refusal e ≡ true
      → a' ≡ a
      → w' ≡ w
      → Vouches (marked_outcome e) a' w'
  refusal-Vouches nil_aggregate a' w' h p q = (p, inl q)
  refusal-Vouches no_stream_writer a' w' h p q = (p, inl q)
  refusal-Vouches no_events_to_save a' w' h p q = (p, inl q)
  refusal-Vouches invalid_version a' w' h p q = (p, inl q)
  refusal-Vouches too_many_events a' w' h p q = (p, inl q)
  refusal-Vouches (reserved_metadata_key key) a' w' h p q = (p, inl q)
  refusal-Vouches marshaling_event_data a' w' h p q = (p, inl q)
  refusal-Vouches (saving_to_stream x) a' w' h p q = ground (arith, h)
  refusal-Vouches confirming_appended a' w' h p q = ground (arith, h)
  refusal-Vouches (applying_aggregate_event x) a' w' h p q = ground (arith, h)

  checked-is_refusal : (e : SaveError) → checked s a ≡ err e → is_refusal e ≡ true
  unfolding checked
  checked-is_refusal e h =
      ground (arith, h, writable_events-is_refusal s.domain_events a.unsaved_events e)

  after_append-Vouches :
      (r : Result StoreError (List Event)) (w' : W) (e : SaveError)
      → Called r w'
      → (after_append s opts a (r, w')).0 ≡ some e
      → Vouches
          (marked_outcome e)
          (after_append s opts a (r, w')).1
          (after_append s opts a (r, w')).2
  unfolding after_append
  after_append-Vouches (err x) w' e called h =
      let q : e ≡ saving_to_stream x = cc in
      elim (Bool-cases (is_version_mismatch x)) [
        | inl mismatch ↦ rw (q, mismatch) (refl, inr (x, mismatch, called))
        | inr other ↦ rw (q, other) (refl, (x, other, called))
      ]
  after_append-Vouches (ok written) w' e called h =
      rw (confirm_appended-appended s.domain_events opts written a e h) (written, called)

  -- The ways through Save.
  pub data SavePath : Type 0 where
    refused :
        (x : SaveError)
        → is_refusal x ≡ true
        → save_aggregate s w opts a ≡ (some x, a, w)
        → SavePath
    nothing_to_do :
        is_empty a.unsaved_events ≡ true
        → (a.version == 0) ≡ false
        → save_aggregate s w opts a ≡ (none, a, w)
        → SavePath
    append_called :
        (r : Result StoreError (List Event)) (w' : W)
        → Called r w'
        → save_aggregate s w opts a ≡ after_append s opts a (r, w')
        → SavePath

  pub save_path : SavePath
  unfolding save_aggregate
  save_path = elim (Option-cases s.event_writer) [
    | inl no_writer ↦ refused no_stream_writer refl (ground (arith, no_writer))
    | inr (writer, given) ↦ elim (Bool-cases (is_empty a.unsaved_events)) [
      | inl nothing ↦ elim (Bool-cases (a.version == 0)) [
        | inl unversioned ↦
            refused no_events_to_save refl (ground (arith, given, nothing, unversioned))
        | inr versioned ↦
            nothing_to_do nothing versioned (ground (arith, given, nothing, versioned))
      ]
      | inr some_events ↦ elim (Result-cases (checked s a)) [
        | inr (x, bad) ↦
            refused x (checked-is_refusal x bad) (ground (arith, given, some_events, bad))
        | inl (events, accepted) ↦
            let r =
              writer.append_stream w a.id events
                (record { expect_version = some a.version; stream_must_not_exist = false }) in
            append_called r.0 r.1 (writer, events, given, accepted, refl)
              (ground (arith, given, some_events, accepted))
      ]
    ]
  ]

  -- A Save that fails tells the truth by the outcome that its error resolves to. With ErrEventsAppended,
  -- AppendStream succeeded; with ErrNoEventsAppended, the aggregate is as it was, and AppendStream
  -- either was not called, the event store being as it was, or refused the version; with neither, the
  -- aggregate is as it was, and AppendStream failed in another way.
  pub save_aggregate-Vouches :
      (e : SaveError) (outcome : AppendOutcome)
      → (save_aggregate s w opts a).0 ≡ some e
      → save_outcome (error_tree e) ≡ some outcome
      → Vouches outcome (save_aggregate s w opts a).1 (save_aggregate s w opts a).2
  save_aggregate-Vouches e outcome failed resolved =
      let q : outcome ≡ marked_outcome e = ground (arith, resolved, save_outcome-error_tree e) in
      elim save_path [
        | refused x early eq ↦
            let p : e ≡ x = ground (arith, failed, eq) in
            rw (q, eq, p) (refusal-Vouches x a w early refl refl)
        | nothing_to_do nothing versioned eq ↦ absurd (ground (arith, failed, eq))
        | append_called r w' called eq ↦
            rw (q, eq) (after_append-Vouches r w' e called (rw eq at failed))
      ]
