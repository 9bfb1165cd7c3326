-- ===== src/AggregateStore/EventSourced/Hydrating.antt =====
-- aggregatestore/event_sourced_store.go: Hydrate and Load as a fold over the events of a stream.
use estoria.Prelude.{
  ℕ, suc, ◌+◌, ◌<◌, ◌≡◌, refl, sym, ap, ◌∙◌, ◌⊎◌, false, Option, none, some, List, [], ◌∷◌, arith,
  length, int64_neg, max_int64, lt64, add64_lem, Result, ok,
}
use estoria.EventStore.{Event, StoreError, collect}
use estoria.Projection.Fold.{Fold, FoldResult, FoldError, one_projected, no_results}
use estoria.Projection.Folding.{handle_all, handle_all_step, project-collect}
use estoria.AggregateStore.Aggregate.{Aggregate, apply_next, apply_from}
use estoria.AggregateStore.EventSourced.{
  StreamReader, EventSourcedStore, LoadOptions, HandlerError, to_version_of, decode_event,
  handle_event, hydrated, project_onto, hydrate_from, read_options, hydrate,
}

-- The state after a list of domain events.
abbrev pub state_after : {S V : Type 0} → (V → S → S) → List V → S → S
state_after apply_to [] state = state
state_after apply_to (v ∷ vs) state = state_after apply_to vs (apply_to v state)

module _ {S V W I : Type 0} (s : EventSourcedStore S V W I) where
  -- Stored events decode to domain events, and their versions follow a version.
  unfoldable pub Replays : ℕ → List Event → List V → Type 0
  Replays n [] [] = Unit
  Replays n [] (v ∷ vs) = ⊥
  Replays n (event ∷ events) [] = ⊥
  Replays n (event ∷ events) (v ∷ vs) =
      (decode_event s event ≡ ok v) × (event.stream_version ≡ n + 1) × Replays (n + 1) events vs

  -- An aggregate that the events have been applied to.
  abbrev pub caught_up : List V → Aggregate S V → Aggregate S V
  caught_up vs a = record a {
    version = a.version + length vs;
    state = state_after s.domain_events.apply_to vs a.state;
  }

  caught_up_nil : (a : Aggregate S V) → caught_up [] a ≡ a
  caught_up_nil a = let e : a.version + 0 ≡ a.version = omega arith in rw e refl

  caught_up_cons :
      (v : V) (vs : List V) (a : Aggregate S V)
      → caught_up vs (caught_up (v ∷ []) a) ≡ caught_up (v ∷ vs) a
  caught_up_cons v vs a =
      let e : a.version + 1 + length vs ≡ a.version + suc (length vs) = omega arith in rw e refl

  pub handle_event_ok :
      (event : Event) (v : V) (a : Aggregate S V)
      → decode_event s event ≡ ok v
      → event.stream_version ≡ a.version + 1
      → a.unapplied_events ≡ []
      → a.version < max_int64
      → handle_event s event a ≡ (none, caught_up (v ∷ []) a)
  unfolding handle_event apply_next apply_from
  handle_event_ok event v a decoded follows idle room =
      ground (arith, decoded, follows, idle, add64_lem a.version 1 (omega arith))

  handle_all-Replays :
      (events : List Event) (vs : List V) (r : FoldResult) (a : Aggregate S V)
      → Replays a.version events vs
      → a.unapplied_events ≡ []
      → a.version + length vs < int64_neg
      → ((handle_all (handle_event s) false events none r a).0 ≡ none)
        × ((handle_all (handle_event s) false events none r a).2 ≡ caught_up vs a)
  unfolding Replays handle_all
  handle_all-Replays [] [] r a h idle room = (refl, sym (caught_up_nil a))
  handle_all-Replays [] (v ∷ vs) r a h idle room = absurd h
  handle_all-Replays (event ∷ events) [] r a h idle room = absurd h
  handle_all-Replays (event ∷ events) (v ∷ vs) r a (decoded, follows, rest) idle room =
      rw
        (
          handle_all_step (handle_event s) false event events none r a (caught_up (v ∷ []) a)
              (handle_event_ok event v a decoded follows idle (omega arith)),
          ← caught_up_cons v vs a,
        )
        (handle_all-Replays events vs (one_projected r) (caught_up (v ∷ []) a) rest idle
          (omega arith))

  hydrated-some :
      {R : Type 0} (p : Option (FoldError HandlerError) × R × Aggregate S V) (a : Aggregate S V)
      → p.0 ≡ none
      → p.2 ≡ a
      → hydrated s (some p) ≡ some (none, a)
  hydrated-some (e, r, b) a h k = ground (arith, h, k)

  project_onto-Replays :
      (next : I → Result StoreError Event × I) (fuel : ℕ) (iter : I) (events : List Event)
      (vs : List V) (a : Aggregate S V)
      → collect next fuel iter ≡ some (events, none)
      → Replays a.version events vs
      → a.unapplied_events ≡ []
      → a.version + length vs < int64_neg
      → project_onto s next fuel iter a ≡ some (none, caught_up vs a)
  unfolding project_onto
  project_onto-Replays next fuel iter events vs a collected replays idle room =
      let fold : Fold I = record { iter = iter; continue_on_handler_error = false } in
      let run = project-collect next (handle_event s) fuel fold a events none collected in
      let (fine, last) = handle_all-Replays events vs no_results a replays idle room in
      ap (hydrated s) run
      ∙ hydrated-some (handle_all (handle_event s) false events none no_results a) (caught_up vs a)
          fine last

  module _ (w : W) (fuel : ℕ) (opts : Option LoadOptions) (reader : StreamReader W I) (iter : I)
      (events : List Event) (vs : List V) (a : Aggregate S V) (given : s.event_reader ≡ some reader)
      (small : to_version_of opts < int64_neg)
      (behind : (to_version_of opts ≡ 0) ⊎ (a.version < to_version_of opts))
      (read : reader.read_stream w a.id (read_options s (to_version_of opts) a) ≡ ok iter)
      (collected : collect reader.next fuel iter ≡ some (events, none))
      (replays : Replays a.version events vs) (idle : a.unapplied_events ≡ [])
      (room : a.version + length vs < int64_neg) where
    -- Hydrate of an aggregate without queued events that is behind the version asked for, or to the
    -- latest version, where the events that the read yields decode and their versions follow on from
    -- its own: the aggregate gets the state of the fold over these events and the version of the last,
    -- and keeps its unsaved events. The fuel that collects the read is enough; the versions fit an
    -- int64.
    pub hydrate-Replays : hydrate s w fuel opts a ≡ some (none, caught_up vs a)
    unfolding hydrate hydrate_from lt64
    hydrate-Replays = ground (
      arith,
      given,
      read,
      project_onto-Replays reader.next fuel iter events vs a collected replays idle room,
    )
