-- ===== src/AggregateStore/EventSourced/RoundTrip.antt =====
-- aggregatestore/event_sourced_store.go over eventstore/memory: a Save, and a Load of what it saved.
use estoria.Prelude.{
  ℕ, suc, ◌+◌, ◌<◌, ◌≡◌, refl, ap, inl, inr, Option, none, some, List, [], ◌∷◌, ◌++◌, map, arith,
  Option-cases, Result-cases, length, All, int64_neg, add64, add64_lem, Text, ok, lookup,
}
use estoria.TypeId.{TypedId, Uuid, new}
use estoria.EventStore.{Event, WritableEvent, Time}
use estoria.EventStore.Memory.{EventStore, append_stream, event_at}
use estoria.EventStore.Memory.Reads.{decode_all}
use estoria.EventStore.Memory.Lossless.{stored}
use estoria.AggregateStore.Aggregate.{AggregateEvent}
use estoria.AggregateStore.EventSourced.{StreamWriter, EventSourcedStore, decode_event}
use estoria.AggregateStore.EventSourced.Save.{writable_event, writable_events}
use estoria.AggregateStore.EventSourced.Hydrating.{state_after, Replays}
use estoria.AggregateStore.EventSourced.Saving.{Numbered}

pub state_after-append :
    {S V : Type 0} (apply_to : V → S → S) (xs ys : List V) (state : S)
    → state_after apply_to (xs ++ ys) state
      ≡ state_after apply_to ys (state_after apply_to xs state)
state_after-append apply_to [] ys state = refl
state_after-append apply_to (x ∷ xs) ys state = state_after-append apply_to xs ys (apply_to x state)

module _ {S V W I : Type 0} (s : EventSourcedStore S V W I) where
  pub Replays-append :
      (n : ℕ) (xs ys : List Event) (us vs : List V)
      → Replays s n xs us
      → Replays s (n + length us) ys vs
      → Replays s n (xs ++ ys) (us ++ vs)
  unfolding Replays
  Replays-append n [] ys [] vs h k = let e : n + 0 ≡ n = omega arith in rw e at k
  Replays-append n [] ys (u ∷ us) vs h k = absurd h
  Replays-append n (x ∷ xs) ys [] vs h k = absurd h
  Replays-append n (x ∷ xs) ys (u ∷ us) vs (decoded, follows, rest) k =
      let e : n + suc (length us) ≡ n + 1 + length us = omega arith in
      (decoded, follows, Replays-append (n + 1) xs ys us vs rest (rw e at k))

  pub Replays-length :
      (n : ℕ) (xs : List Event) (us : List V) → Replays s n xs us → length xs ≡ length us
  unfolding Replays
  Replays-length n [] [] h = refl
  Replays-length n [] (u ∷ us) h = absurd h
  Replays-length n (x ∷ xs) [] h = absurd h
  Replays-length n (x ∷ xs) (u ∷ us) (decoded, follows, rest) =
      ap suc (Replays-length (n + 1) xs us rest)

  pub Replays-Numbered : (n : ℕ) (xs : List Event) (us : List V) → Replays s n xs us → Numbered n xs
  unfolding Replays
  Replays-Numbered n [] us h = tt
  Replays-Numbered n (x ∷ xs) [] h = absurd h
  Replays-Numbered n (x ∷ xs) (u ∷ us) (decoded, follows, rest) =
      (follows, Replays-Numbered (n + 1) xs us rest)

  -- A domain event whose type is registered, and which its encoding decodes to.
  abbrev pub Recovers : AggregateEvent V → Type 0
  Recovers event =
      (payload : Text)
      → s.domain_events.marshal event.domain_event ≡ some payload
      → (prototype : V) × (lookup (s.domain_events.event_type event.domain_event)
            s.domain_event_prototypes
          ≡ some (some prototype))
        × (s.domain_events.unmarshal payload prototype ≡ some event.domain_event)

  writable_events-cons :
      (u : AggregateEvent V) (unsaved : List (AggregateEvent V)) (events : List WritableEvent)
      → writable_events s.domain_events (u ∷ unsaved) ≡ ok events
      → (payload : Text) × (ws : List WritableEvent) × (s.domain_events.marshal u.domain_event
          ≡ some payload)
        × (writable_events s.domain_events unsaved ≡ ok ws)
        × (events
            ≡ record {
              type_name = s.domain_events.event_type u.domain_event;
              payload = payload;
              data_content_type = s.domain_events.content_type;
              metadata = u.metadata;
            }
              ∷ ws)
  unfolding writable_events writable_event
  writable_events-cons u unsaved events h =
      elim (Result-cases (writable_events s.domain_events unsaved)) [
        | inr (x, failed) ↦ absurd (ground (arith, h, failed))
        | inl (ws, fine) ↦ elim (Option-cases (s.domain_events.marshal u.domain_event)) [
          | inl lost ↦ absurd (ground (arith, h, lost))
          | inr (payload, encoded) ↦ (payload, ws, encoded, fine, ground (arith, h, fine, encoded))
        ]
      ]

  pub writable_events-length :
      (unsaved : List (AggregateEvent V)) (events : List WritableEvent)
      → writable_events s.domain_events unsaved ≡ ok events
      → length events ≡ length unsaved
  unfolding writable_events
  writable_events-length [] events h = ground (arith, h)
  writable_events-length (u ∷ unsaved) events h =
      let (payload, ws, encoded, fine, all) = writable_events-cons u unsaved events h in
      rw all (ap suc (writable_events-length unsaved ws fine))

  decode_event_ok :
      (event : Event) (prototype v : V)
      → lookup event.id.type_name s.domain_event_prototypes ≡ some (some prototype)
      → s.domain_events.unmarshal event.payload prototype ≡ some v
      → decode_event s event ≡ ok v
  unfolding decode_event
  decode_event_ok event prototype v registered back = ground (arith, registered, back)

  pub stored-Replays :
      (draw : ℕ → Uuid × Time) (stream_id : TypedId) (current i counter : ℕ)
      (unsaved : List (AggregateEvent V)) (events : List WritableEvent)
      → writable_events s.domain_events unsaved ≡ ok events
      → All Recovers unsaved
      → current + i + length unsaved < int64_neg
      → Replays s
          (current + i)
          (stored draw stream_id current i counter events)
          (map AggregateEvent.domain_event unsaved)
  unfolding Replays writable_events writable_event event_at new
  stored-Replays draw stream_id current i counter [] events h all room =
      let e : events ≡ [] = ground (arith, h) in rw e tt
  stored-Replays draw stream_id current i counter (u ∷ unsaved) events h (first, all) room =
      let (payload, ws, encoded, fine, all_events) = writable_events-cons u unsaved events h in
      let (prototype, registered, back) = first payload encoded in
      let v : add64 (add64 current i) 1 ≡ current + i + 1 =
        rw (add64_lem current i (omega arith), add64_lem (current + i) 1 (omega arith)) refl in
      let n : current + (i + 1) ≡ current + i + 1 = omega arith in
      rw all_events (
        decode_event_ok _ prototype u.domain_event registered back,
        v,
        rw n at (
            stored-Replays draw stream_id current (i + 1) (add64 counter 1) unsaved ws fine all
              (omega arith)),
      )

module _ {D : Type 0} (uuid_string : Uuid → Text) (marshal : Event → Option D)
    (unmarshal : D → Option Event) (draw : ℕ → Uuid × Time) where
  abbrev pub memory_writer : StreamWriter (EventStore D)
  memory_writer = record { append_stream = append_stream uuid_string marshal unmarshal draw }

  pub decode_all-length :
      (stream_id : TypedId) (ds : List D) (events : List Event)
      → decode_all unmarshal stream_id ds ≡ (events, none)
      → length ds ≡ length events
  unfolding decode_all
  decode_all-length stream_id [] events p = ground (arith, p)
  decode_all-length stream_id (d ∷ ds) events p = elim (Option-cases (unmarshal d)) [
    | inl lost ↦ absurd (ground (arith, p, lost))
    | inr (event, got) ↦
        let all = decode_all unmarshal stream_id ds in
        let rest = decode_all-length stream_id ds all.0 (ground (arith, p, got)) in
        ground (arith, p, got, rest)
  ]

  pub decode_all-append :
      (stream_id : TypedId) (xs ys : List D) (a b : List Event)
      → decode_all unmarshal stream_id xs ≡ (a, none)
      → decode_all unmarshal stream_id ys ≡ (b, none)
      → decode_all unmarshal stream_id (xs ++ ys) ≡ (a ++ b, none)
  unfolding decode_all
  decode_all-append stream_id [] ys a b p q = let e : a ≡ [] = ground (arith, p) in rw e q
  decode_all-append stream_id (x ∷ xs) ys a b p q = elim (Option-cases (unmarshal x)) [
    | inl lost ↦ absurd (ground (arith, p, lost))
    | inr (event, got) ↦
        let all = decode_all unmarshal stream_id xs in
        let fine : all ≡ (all.0, none) = ground (arith, p, got) in
        let rest = decode_all-append stream_id xs ys all.0 b fine q in ground (arith, p, got, rest)
  ]
