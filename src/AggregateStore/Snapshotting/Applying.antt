-- ===== src/AggregateStore/Snapshotting/Applying.antt =====
-- aggregatestore/snapshotting_store.go `Save`: the events against the snapshots.
use estoria.Prelude.{
  ◌≡◌, refl, sym, ap, ◌∙◌, inl, inr, true, Option, none, some, List, [], ◌∷◌, ◌++◌, arith,
  if◌then◌else◌, Bool-cases, Option-cases, Text, wrap,
}
use estoria.EventStore.{Time}
use estoria.SnapshotStore.{AggregateSnapshot}
use estoria.AggregateStore.SaveOutcome.{GoError, wrap_error}
use estoria.AggregateStore.Aggregate.{AggregateEvent, Aggregate, ApplyError, apply_from}
use estoria.AggregateStore.EventSourced.{SaveOptions}
use estoria.AggregateStore.Snapshotting.{
  StateKind, SnapshottingStore, snapshot_if_due, not_applied, apply_and_snapshot, after_save, save,
}

module _ {S V W N E : Type 0} (kind : StateKind S) (s : SnapshottingStore S V W N E)
    (apply_to : V → S → S) where
  -- The events that wait, applied one after the other up to one that does not apply.
  unfoldable pub apply_all :
      List (AggregateEvent V) → Aggregate S V → Option ApplyError × Aggregate S V
  apply_all [] a = (none, a)
  apply_all (event ∷ queue) a =
      let r = apply_from apply_to (event ∷ queue) a in
      let rest = apply_all queue r.1 in elim r.0 [ some e ↦ (some e, r.1) | none ↦ rest ]

  loop_lem :
      (now : Time) (queue : List (AggregateEvent V)) (n : N) (a : Aggregate S V)
      → ((apply_and_snapshot kind s apply_to now queue n a).0
          ≡ wrap (λ e. not_applied) (apply_all queue a).0)
        × ((apply_and_snapshot kind s apply_to now queue n a).1 ≡ some (apply_all queue a).1)
  unfolding apply_and_snapshot apply_all
  loop_lem now [] n a = (refl, refl)
  loop_lem now (event ∷ queue) n a =
      let r = apply_from apply_to (event ∷ queue) a in
      let rest = loop_lem now queue (snapshot_if_due kind s now n r.1) r.1 in
      elim (Option-cases r.0) [
        | inl fine ↦ ground (arith, fine, rest.0, rest.1)
        | inr (e, bad) ↦ ground (arith, bad)
      ]

  -- The inner Save, which leaves the application of its events.
  abbrev pub inner_save : W → Aggregate S V → Option GoError × Option (Aggregate S V) × W
  inner_save w a = s.inner.save w (some (record { skip_apply = true })) (some a)

  -- What Save is to return, by what the inner store returns.
  abbrev pub applied_after :
      Option GoError × Option (Aggregate S V) × W → Option GoError × Option (Aggregate S V) × W
  applied_after (some e, a, w) = (some (wrap_error e), a, w)
  applied_after (none, none, w) = (none, none, w)
  applied_after (none, some a, w) =
      let r = apply_all a.unapplied_events a in (wrap (λ e. not_applied) r.0, some r.1, w)

  after_lem :
      (now : Time) (n : N) (r : Option GoError × Option (Aggregate S V) × W)
      → ((after_save kind s apply_to now n r).0 ≡ (applied_after r).0)
        × ((after_save kind s apply_to now n r).1 ≡ (applied_after r).1)
        × ((after_save kind s apply_to now n r).3 ≡ (applied_after r).2)
  after_lem now n (some e, a, w) = (refl, refl, refl)
  after_lem now n (none, none, w) = (refl, refl, refl)
  after_lem now n (none, some a, w) =
      let l = loop_lem now a.unapplied_events n a in (l.0, l.1, refl)

  -- The error and the aggregate of a Save are those of the inner Save without its application, and of
  -- the application of the events that wait, up to the first that does not apply, whatever the policy,
  -- the codec and the writer of snapshots do; so is what it leaves of the inner store.
  pub save-apply_all :
      (now : Time) (w : W) (n : N) (opts : Option SaveOptions) (a : Aggregate S V)
      → ((save kind s apply_to now w n opts (some a)).0 ≡ (applied_after (inner_save w a)).0)
        × ((save kind s apply_to now w n opts (some a)).1 ≡ (applied_after (inner_save w a)).1)
        × ((save kind s apply_to now w n opts (some a)).3 ≡ (applied_after (inner_save w a)).2)
  unfolding save
  save-apply_all now w n opts a = after_lem now n (inner_save w a)

  -- The aggregates that the events of a queue lead to, one for each event up to the first that does
  -- not apply.
  unfoldable pub passed : List (AggregateEvent V) → Aggregate S V → List (Aggregate S V)
  passed [] a = []
  passed (event ∷ queue) a =
      let r = apply_from apply_to (event ∷ queue) a in
      let rest = passed queue r.1 in elim r.0 [ some e ↦ [] | none ↦ r.1 ∷ rest ]

  -- The snapshots that are due: of each aggregate that the policy chooses and the codec encodes, at
  -- its version and in the content type of the codec.
  abbrev encoded_snapshot : Aggregate S V → Option Text → List AggregateSnapshot
  encoded_snapshot a none = []
  encoded_snapshot a (some payload) =
      record {
        aggregate_id = a.id;
        aggregate_version = a.version;
        timestamp = 0;
        payload = payload;
        data_content_type = s.state_codec.content_type;
      }
      ∷ []

  unfoldable pub due_snapshot : Time → Aggregate S V → List AggregateSnapshot
  due_snapshot now a =
      if s.policy a.id a.version now
      then encoded_snapshot a (s.state_codec.marshal_state a.state)
      else []

  unfoldable pub due_snapshots : Time → List (Aggregate S V) → List AggregateSnapshot
  due_snapshots now [] = []
  due_snapshots now (a ∷ path) = due_snapshot now a ++ due_snapshots now path

  -- A writer that is given snapshots, one after the other.
  unfoldable pub write_all : List AggregateSnapshot → N → N
  write_all [] n = n
  write_all (snap ∷ snaps) n = write_all snaps (s.writer n snap).1

  write_all-append :
      (xs ys : List AggregateSnapshot) (n : N)
      → write_all (xs ++ ys) n ≡ write_all ys (write_all xs n)
  unfolding write_all
  write_all-append [] ys n = refl
  write_all-append (x ∷ xs) ys n = write_all-append xs ys (s.writer n x).1

  one_due :
      (now : Time) (n : N) (a : Aggregate S V)
      → snapshot_if_due kind s now n a ≡ write_all (due_snapshot now a) n
  unfolding snapshot_if_due due_snapshot write_all
  one_due now n a = elim (Bool-cases (s.policy a.id a.version now)) [
    | inr skipped ↦ rw (snapshot_if_due, skipped) refl
    | inl chosen ↦ elim (Option-cases (s.state_codec.marshal_state a.state)) [
      | inl failed ↦ rw (snapshot_if_due, chosen, failed) refl
      | inr (payload, done) ↦ rw (snapshot_if_due, chosen, done) refl
    ]
  ]

  loop_snapshots :
      (now : Time) (queue : List (AggregateEvent V)) (n : N) (a : Aggregate S V)
      → (apply_and_snapshot kind s apply_to now queue n a).2
        ≡ write_all (due_snapshots now (passed queue a)) n
  unfolding apply_and_snapshot passed due_snapshots write_all
  loop_snapshots now [] n a = refl
  loop_snapshots now (event ∷ queue) n a =
      let r = apply_from apply_to (event ∷ queue) a in
      let m = snapshot_if_due kind s now n r.1 in
      let rest : (apply_and_snapshot kind s apply_to now queue m r.1).2
          ≡ write_all (due_snapshots now (r.1 ∷ passed queue r.1)) n =
        loop_snapshots now queue m r.1
        ∙ ap (write_all (due_snapshots now (passed queue r.1))) (one_due now n r.1)
        ∙ sym (write_all-append (due_snapshot now r.1) (due_snapshots now (passed queue r.1)) n) in
      elim (Option-cases r.0) [
        | inl fine ↦ ground (arith, fine, rest)
        | inr (e, bad) ↦ ground (arith, bad)
      ]

  -- What a Save does to the store of snapshots, by what the inner Save returns.
  abbrev pub snapshots_after : Time → N → Option GoError × Option (Aggregate S V) × W → N
  snapshots_after now n (some e, a, w) = n
  snapshots_after now n (none, none, w) = n
  snapshots_after now n (none, some a, w) =
      write_all (due_snapshots now (passed a.unapplied_events a)) n

  after_snapshots :
      (now : Time) (n : N) (r : Option GoError × Option (Aggregate S V) × W)
      → (after_save kind s apply_to now n r).2 ≡ snapshots_after now n r
  after_snapshots now n (some e, a, w) = refl
  after_snapshots now n (none, none, w) = refl
  after_snapshots now n (none, some a, w) = loop_snapshots now a.unapplied_events n a

  -- A Save whose inner Save fails writes no snapshot. One that follows it writes exactly one for each
  -- of the aggregates to which the waiting events lead, in their order and up to the first event that
  -- does not apply, that the policy chooses and the codec encodes: with the identity and the version
  -- of that aggregate, its encoded state and the content type of the codec. A failed write is passed.
  pub save-snapshots_after :
      (now : Time) (w : W) (n : N) (opts : Option SaveOptions) (a : Aggregate S V)
      → (save kind s apply_to now w n opts (some a)).2 ≡ snapshots_after now n (inner_save w a)
  unfolding save
  save-snapshots_after now w n opts a = after_snapshots now n (inner_save w a)
