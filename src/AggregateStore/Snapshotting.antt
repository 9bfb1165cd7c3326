-- ===== src/AggregateStore/Snapshotting.antt =====
-- aggregatestore/snapshotting_store.go: SnapshottingStore, over any store of aggregates and any store of
-- snapshots, which works on a state `N`. What reflection finds of the state type is an argument: whether
-- a state is nil, and the answer of its validator, with the state that it leaves.
pub mod Applying
mod Examples
use estoria.Prelude.{
  ℕ, zero, suc, ◌+◌, ◌-◌, ◌*◌, ◌/◌, ◌%◌, ◌^◌, ◌≤◌, ◌<◌, min, ◌≡◌, refl, sym, ap, ◌∙◌, ◌≢◌, ◌↔◌, ◌⊎◌,
  inl, inr, Bool, true, false, not, ◌&&◌, ◌||◌, Option, none, some, List, [], ◌∷◌, ◌++◌, map,
  append-nil, append_assoc, arith, ltb, leb, ◌==◌, if◌then◌else◌, ==_iff, Bool-cases, Option-cases,
  Result-cases, length, is_empty, get_elem?, take, drop, length-append, length-drop,
  take-append-drop, take-append, drop-append, All, All-append, All-imp, Int64, int64_mod, int64_neg,
  max_int64, add64, sub64, lt64, le64, max64, min64, add64_lem, sub64_lem, lt64_lem, le64_lem,
  max64-eq, Text, codes, text_eq, text_lt, text_eq_iff, has_prefix, has_suffix, Result, ok, err,
  ◌>>=◌, map_err, Dict, lookup, insert, erase, lookup-insert, lookup-erase, fails_if, ◌or_else◌,
  wrap, or_else-none, or_else-eq_none,
}
use estoria.TypeId.{TypedId, Uuid}
use estoria.EventStore.{Time}
use estoria.SnapshotStore.{AggregateSnapshot, ReadSnapshotOptions, SnapshotError}
use estoria.AggregateStore.SaveOutcome.{
  GoError, plain_error, wrap_error, save_outcome_error, events_appended_error,
  no_events_appended_error,
}
use estoria.AggregateStore.Aggregate.{
  AggregateEvent, Aggregate, ApplyError, set_state_at_version, apply_from,
}
use estoria.AggregateStore.EventSourced.{LoadOptions, SaveOptions, to_version_of}
use estoria.AggregateStore.Cached.{Store}

-- StateCodec: UnmarshalState decodes into a state, and `none` is an error.
pub record StateCodec (S : Type 0) : Type 0 where
  pub unmarshal_state : Text → S → Option S
  pub marshal_state : S → Option Text
  pub content_type : Text

pub record StateKind (S : Type 0) : Type 0 where
  pub is_nil : S → Bool
  pub validated : S → Option S

abbrev pub SnapshotReader : Type 0 → Type 0
SnapshotReader N = N → TypedId → ReadSnapshotOptions → Result SnapshotError AggregateSnapshot

abbrev pub SnapshotWriter : Type 0 → Type 0
SnapshotWriter N = N → AggregateSnapshot → Option SnapshotError × N

abbrev pub SnapshotPolicy : Type 0
SnapshotPolicy = TypedId → Int64 → Time → Bool

pub record SnapshottingStore (S V W N E : Type 0) : Type 0 where
  pub inner : Store S V W E
  pub reader : Option (SnapshotReader N)
  pub writer : SnapshotWriter N
  pub policy : SnapshotPolicy
  pub state_codec : StateCodec S

pub data HydrateError (E : Type 0) : Type 0 where
  nil_aggregate invalid_target_version no_snapshot_reader : HydrateError E
  inner_error : E → HydrateError E

pub data LoadError (E : Type 0) : Type 0 where
  hydrating_aggregate : HydrateError E → LoadError E

-- The error of an event that is appended but does not apply.
abbrev pub not_applied : GoError
not_applied = wrap_error (save_outcome_error events_appended_error (wrap_error plain_error))

module _ {S V W N E : Type 0} (kind : StateKind S) (s : SnapshottingStore S V W N E) where
  -- The checks of Hydrate on a decoded state.
  abbrev checked_state : Option S → Option S
  checked_state none = none
  checked_state (some state) = if kind.is_nil state then none else elim (kind.validated state) [
    | none ↦ none
    | some accepted ↦ if kind.is_nil accepted then none else some accepted
  ]

  -- The state and the version of a snapshot that Hydrate can use.
  unfoldable pub usable :
      Aggregate S V → Result SnapshotError AggregateSnapshot → Option (S × Int64)
  usable a (err e) = none
  usable a (ok snap) =
      if not (is_empty snap.data_content_type)
        && not (text_eq snap.data_content_type s.state_codec.content_type)
      then none
      else elim (checked_state
          (s.state_codec.unmarshal_state snap.payload (s.inner.new_for a.id.uuid).state)) [
            | none ↦ none
            | some state ↦ some (state, snap.aggregate_version)
          ]

  -- s.inner.Hydrate, on options that are not nil.
  abbrev hydrate_inner :
      W → Int64 → Aggregate S V → Option (HydrateError E) × Option (Aggregate S V)
  hydrate_inner w to_version a =
      let r = s.inner.hydrate w (some (record { to_version = to_version })) (some a) in
      (wrap inner_error r.0, r.1)

  -- Hydrate, once a snapshot is read.
  unfoldable pub hydrate_from :
      W
      → Int64
      → Aggregate S V
      → Option (S × Int64)
      → Option (HydrateError E) × Option (Aggregate S V)
  hydrate_from w to_version a none = hydrate_inner w to_version a
  hydrate_from w to_version a (some (state, version)) =
      let restored = set_state_at_version state version a in
      if lt64 0 to_version && version == to_version
      then (none, some restored)
      else hydrate_inner w to_version restored

  unfoldable pub hydrate :
      W
      → N
      → Option LoadOptions
      → Option (Aggregate S V)
      → Option (HydrateError E) × Option (Aggregate S V)
  hydrate w n opts none = (some nil_aggregate, none)
  hydrate w n opts (some a) =
      let to_version = to_version_of opts in
      if lt64 to_version 0 then (some invalid_target_version, some a) else elim s.reader [
        | none ↦ (some no_snapshot_reader, some a)
        | some read ↦
            if lt64 0 to_version && le64 to_version a.version
            then hydrate_inner w to_version a
            else hydrate_from w to_version a (
                usable a (
                  read n a.id
                    (record { max_version = if lt64 0 to_version then to_version else 0 })))
      ]

  -- Load: the aggregate behind it is never nil.
  unfoldable pub load :
      W → N → Uuid → Option LoadOptions → Result (LoadError E) (Option (Aggregate S V))
  load w n id opts =
      let r = hydrate w n opts (some (s.inner.new_for id)) in
      elim r.0 [ some e ↦ err (hydrating_aggregate e) | none ↦ ok r.1 ]

  -- The snapshot that Save takes of an aggregate; the timestamp is the writer's to set.
  abbrev pub snapshot_of : Aggregate S V → Text → AggregateSnapshot
  snapshot_of a payload = record {
    aggregate_id = a.id;
    aggregate_version = a.version;
    timestamp = 0;
    payload = payload;
    data_content_type = s.state_codec.content_type;
  }

  -- Errors of the codec and of the writer are only logged.
  unfoldable pub snapshot_if_due : Time → N → Aggregate S V → N
  snapshot_if_due now n a =
      if s.policy a.id a.version now
      then (elim (s.state_codec.marshal_state a.state) [
        | none ↦ n
        | some payload ↦ (s.writer n (snapshot_of a payload)).1
      ])
      else n

  module _ (apply_to : V → S → S) where
    -- The loop of Save, over the events that wait: the last error of applyNext is that none do.
    unfoldable pub apply_and_snapshot :
        Time
        → List (AggregateEvent V)
        → N
        → Aggregate S V
        → Option GoError × Option (Aggregate S V) × N
    apply_and_snapshot now [] n a = (none, some a, n)
    apply_and_snapshot now (event ∷ queue) n a =
        let r = apply_from apply_to (event ∷ queue) a in
        let rest = apply_and_snapshot now queue (snapshot_if_due now n r.1) r.1 in
        elim r.0 [ some e ↦ (some not_applied, some r.1, n) | none ↦ rest ]

    abbrev pub after_save :
        Time
        → N
        → Option GoError × Option (Aggregate S V) × W
        → Option GoError × Option (Aggregate S V) × N × W
    after_save now n (some e, a, w) = (some (wrap_error e), a, n, w)
    after_save now n (none, none, w) = (none, none, n, w)
    after_save now n (none, some a, w) =
        let r = apply_and_snapshot now a.unapplied_events n a in (r.0, r.1, r.2, w)

    -- Save
    unfoldable pub save :
        Time
        → W
        → N
        → Option SaveOptions
        → Option (Aggregate S V)
        → Option GoError × Option (Aggregate S V) × N × W
    save now w n opts none =
        (some (wrap_error (save_outcome_error no_events_appended_error plain_error)), none, n, w)
    save now w n opts (some a) =
        after_save now n (s.inner.save w (some (record { skip_apply = true })) (some a))
