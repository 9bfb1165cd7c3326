-- ===== src/AggregateStore/EventSourced/Saving.antt =====
-- aggregatestore/event_sourced_store.go: what a Save that succeeds leaves.
use estoria.Prelude.{
  ℕ, suc, ◌+◌, ◌<◌, ◌≡◌, refl, ap, ◌∙◌, ◌⊎◌, inl, inr, Bool, true, false, Option, none, some, List,
  [], ◌∷◌, ◌++◌, map, append-nil, append_assoc, arith, ◌==◌, Bool-cases, length, is_empty,
  int64_neg, max_int64, add64, add64_lem, ok, err,
}
use estoria.EventStore.{Event}
use estoria.AggregateStore.Aggregate.{
  AggregateEvent, Aggregate, ApplyError, no_unapplied_events, at_maximum_version,
  event_version_mismatch, apply_next, apply_from, clear_unsaved_events,
}
use estoria.AggregateStore.EventSourced.{
  DomainEvents, EventSourcedStore, SaveOptions, SaveError, skips_apply,
}
use estoria.AggregateStore.EventSourced.Save.{
  queue_written, applied_or, apply_queue, confirm_appended, after_append, save_aggregate,
}
use estoria.AggregateStore.EventSourced.Hydrating.{state_after}
use estoria.AggregateStore.EventSourced.Outcomes.{
  Called, save_path, refused, nothing_to_do, append_called,
}

-- The events that Save queues.
abbrev pub queued : {V : Type 0} → List (AggregateEvent V) → List Event → List (AggregateEvent V)
queued [] written = []
queued (event ∷ unsaved) [] = []
queued (event ∷ unsaved) (w ∷ written) =
    record {
      id = w.id;
      version = w.stream_version;
      timestamp = w.timestamp;
      domain_event = event.domain_event;
      metadata = event.metadata;
    }
    ∷ queued unsaved written

-- Events whose versions follow a version.
abbrev pub Numbered : ℕ → List Event → Type 0
Numbered n [] = Unit
Numbered n (event ∷ events) = (event.stream_version ≡ n + 1) × Numbered (n + 1) events

module _ {S V : Type 0} (events : DomainEvents S V) where
  queue_written_lem :
      (unsaved : List (AggregateEvent V)) (written : List Event) (a : Aggregate S V)
      → queue_written events unsaved written a
        ≡ record a { unapplied_events = a.unapplied_events ++ queued unsaved written }
  unfolding queue_written
  queue_written_lem [] written a = rw (append-nil a.unapplied_events) refl
  queue_written_lem (event ∷ unsaved) [] a = rw (append-nil a.unapplied_events) refl
  queue_written_lem (event ∷ unsaved) (w ∷ written) a =
      let e =
        append_assoc a.unapplied_events (queued (event ∷ []) (w ∷ [])) (queued unsaved written) in
      queue_written_lem unsaved written _ ∙ rw e refl

  abbrev pub advanced : AggregateEvent V → List (AggregateEvent V) → Aggregate S V → Aggregate S V
  advanced event queue a = record a {
    version = event.version;
    state = events.apply_to event.domain_event a.state;
    unapplied_events = queue;
  }

  abbrev is_stuck : ApplyError → Bool
  is_stuck no_unapplied_events = false
  is_stuck _ = true

  apply_next_cases :
      (event : AggregateEvent V) (queue : List (AggregateEvent V)) (a : Aggregate S V)
      → a.unapplied_events ≡ event ∷ queue
      → (apply_next events.apply_to a ≡ (none, advanced event queue a))
        ⊎ ((x : ApplyError) × (is_stuck x ≡ true) × (apply_next events.apply_to a ≡ (some x, a)))
  unfolding apply_next apply_from
  apply_next_cases event queue a same = elim (Bool-cases (a.version == max_int64)) [
    | inl full ↦ inr (at_maximum_version, refl, ground (arith, same, full))
    | inr room ↦ elim (Bool-cases (event.version == add64 a.version 1)) [
      | inl follows ↦ inl (ground (arith, same, room, follows))
      | inr other ↦ inr (
        event_version_mismatch (add64 a.version 1) event.version,
        refl,
        ground (arith, same, room, other),
      )
    ]
  ]

  -- A loop that ends without an error has emptied the queue.
  apply_queue_ok :
      (queue : List (AggregateEvent V)) (a : Aggregate S V)
      → a.unapplied_events ≡ queue
      → (apply_queue events queue a).0 ≡ none
      → ((apply_queue events queue a).1.unapplied_events ≡ [])
        × ((apply_queue events queue a).1.unsaved_events ≡ a.unsaved_events)
  unfolding apply_queue apply_next apply_from
  apply_queue_ok [] a same fine = ground (arith, same, fine)
  apply_queue_ok (event ∷ queue) a same fine = elim (apply_next_cases event queue a same) [
    | inl eq ↦
        let next = apply_queue_ok queue (advanced event queue a) refl in
        ground (arith, eq, fine, next)
    | inr (x, stuck, eq) ↦ absurd (ground (arith, stuck, eq, fine))
  ]

  -- The aggregate with its unsaved events applied.
  abbrev pub settled : List (AggregateEvent V) → Aggregate S V → Aggregate S V
  settled unsaved a = record a {
    version = a.version + length unsaved;
    state = state_after events.apply_to (map AggregateEvent.domain_event unsaved) a.state;
    unapplied_events = [];
  }

  apply_next-advanced :
      (event : AggregateEvent V) (queue : List (AggregateEvent V)) (a : Aggregate S V)
      → a.unapplied_events ≡ event ∷ queue
      → event.version ≡ a.version + 1
      → a.version < max_int64
      → apply_next events.apply_to a ≡ (none, advanced event queue a)
  unfolding apply_next apply_from
  apply_next-advanced event queue a same follows room =
      ground (arith, same, follows, add64_lem a.version 1 (omega arith))

  settled-advanced :
      (event e : AggregateEvent V) (unsaved queue : List (AggregateEvent V)) (a : Aggregate S V)
      → e.version ≡ a.version + 1
      → e.domain_event ≡ event.domain_event
      → settled unsaved (advanced e queue a) ≡ settled (event ∷ unsaved) a
  settled-advanced event e unsaved queue a follows same =
      let v : a.version + 1 + length unsaved ≡ a.version + suc (length unsaved) = omega arith in
      rw (follows, same, v) refl

  apply_queue-settled :
      (unsaved : List (AggregateEvent V)) (written : List Event) (a : Aggregate S V)
      → length written ≡ length unsaved
      → Numbered a.version written
      → a.version + length unsaved < int64_neg
      → a.unapplied_events ≡ queued unsaved written
      → apply_queue events (queued unsaved written) a ≡ (none, settled unsaved a)
  unfolding apply_queue apply_next apply_from
  apply_queue-settled [] written a len numbered room same =
      let e : a.version + 0 ≡ a.version = omega arith in ground (arith, same, e)
  apply_queue-settled (event ∷ unsaved) [] a len numbered room same = absurd (omega arith)
  apply_queue-settled (event ∷ unsaved) (w ∷ written) a len (follows, more) room same =
      let e : AggregateEvent V = record {
        id = w.id;
        version = w.stream_version;
        timestamp = w.timestamp;
        domain_event = event.domain_event;
        metadata = event.metadata;
      } in
      let queue = queued unsaved written in
      let step = apply_next-advanced e queue a same follows (omega arith) in
      let rest =
        apply_queue-settled unsaved written (advanced e queue a) (omega arith) (rw follows more)
          (omega (arith, follows)) refl in
      ap (applied_or events (apply_queue events queue)) step
      ∙ rest
      ∙ ap (λ (b : Aggregate S V). (none, b))
          (settled-advanced event e unsaved queue a follows refl)

  confirm_appended-settled :
      (opts : Option SaveOptions) (written : List Event) (a : Aggregate S V)
      → length written ≡ length a.unsaved_events
      → Numbered a.version written
      → a.version + length a.unsaved_events < int64_neg
      → a.unapplied_events ≡ []
      → skips_apply opts ≡ false
      → confirm_appended events opts written a
        ≡ (none, settled a.unsaved_events (clear_unsaved_events a))
  unfolding confirm_appended
  confirm_appended-settled opts written a len numbered room idle applies =
      let b : Aggregate S V = record a {
        unsaved_events = [];
        unapplied_events = queued a.unsaved_events written;
      } in
      let q : clear_unsaved_events (queue_written events a.unsaved_events written a) ≡ b =
        ap clear_unsaved_events (queue_written_lem a.unsaved_events written a) ∙ rw idle refl in
      ground (
        arith,
        q,
        len,
        applies,
        apply_queue-settled a.unsaved_events written b len numbered room refl,
      )

  confirm_appended_ok :
      (opts : Option SaveOptions) (written : List Event) (a : Aggregate S V)
      → (confirm_appended events opts written a).0 ≡ none
      → (length written ≡ length a.unsaved_events)
        × ((confirm_appended events opts written a).1.unsaved_events ≡ [])
        × (skips_apply opts ≡ false
            → (confirm_appended events opts written a).1.unapplied_events ≡ [])
  unfolding confirm_appended
  confirm_appended_ok opts written a fine =
      let b = clear_unsaved_events (queue_written events a.unsaved_events written a) in
      let all = apply_queue_ok b.unapplied_events b refl in
      elim (Bool-cases (length written == length a.unsaved_events)) [
        | inr other ↦ absurd (ground (arith, other, fine))
        | inl same ↦ elim (Bool-cases (skips_apply opts)) [
          | inl skips ↦ (
            ground (arith, same),
            ground (arith, same, skips),
            λ h. absurd (ground (arith, h, skips)),
          )
          | inr applies ↦
              let (empty, kept) = all (ground (arith, same, applies, fine)) in
              (
                ground (arith, same),
                ground (arith, same, applies, kept),
                λ h. ground (arith, same, applies, empty),
              )
        ]
      ]

module _ {S V W I : Type 0} (s : EventSourcedStore S V W I) (w : W) (opts : Option SaveOptions)
    (a : Aggregate S V) where
  abbrev pub saved : Option SaveError × Aggregate S V × W
  saved = save_aggregate s w opts a

  -- A Save that succeeds either had nothing to save, and changed nothing; or AppendStream succeeded
  -- and reported as many events as there were unsaved ones, none of which are left, and unless
  -- SkipApply was set no event waits to be applied.
  pub save_aggregate_ok :
      saved.0 ≡ none
      → ((is_empty a.unsaved_events ≡ true) × (saved.1 ≡ a) × (saved.2 ≡ w))
        ⊎ ((written : List Event) × Called s w opts a (ok written) saved.2
            × (length written ≡ length a.unsaved_events)
            × (saved.1.unsaved_events ≡ [])
            × (skips_apply opts ≡ false → saved.1.unapplied_events ≡ []))
  unfolding after_append
  save_aggregate_ok fine = elim (save_path s w opts a) [
    | refused x early eq ↦ absurd (ground (arith, eq, fine))
    | nothing_to_do nothing versioned eq ↦ rw eq (inl (nothing, refl, refl))
    | append_called (err x) w' called eq ↦ absurd (ground (arith, eq, fine))
    | append_called (ok written) w' called eq ↦
        let (same, none_left, all_applied) =
          confirm_appended_ok s.domain_events opts written a (rw eq at fine) in
        rw eq (inr (written, called, same, none_left, all_applied))
  ]

  -- A Save without SkipApply of an aggregate that has unsaved events and none that wait, where the
  -- event store appended them and numbered them from the aggregate's version on, applies them in
  -- order; the versions fit an int64.
  pub save_aggregate-settled :
      (written : List Event) (w' : W)
      → Called s w opts a (ok written) w'
      → is_empty a.unsaved_events ≡ false
      → length written ≡ length a.unsaved_events
      → Numbered a.version written
      → a.version + length a.unsaved_events < int64_neg
      → a.unapplied_events ≡ []
      → skips_apply opts ≡ false
      → saved ≡ (none, settled s.domain_events a.unsaved_events (clear_unsaved_events a), w')
  unfolding save_aggregate after_append
  save_aggregate-settled written w' (writer, events, given, accepted, done) unsaved len numbered
        room idle applies =
      ground (
        arith,
        given,
        accepted,
        done,
        unsaved,
        confirm_appended-settled s.domain_events opts written a len numbered room idle applies,
      )
