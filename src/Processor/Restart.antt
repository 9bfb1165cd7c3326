-- ===== src/Processor/Restart.antt =====
-- projection/processor/processor.go over projection/checkpointstore/memory: a Run after another.
use estoria.Prelude.{
  ℕ, ◌+◌, ◌≤◌, ◌<◌, ◌≡◌, refl, sym, ap, ◌∙◌, subst, inl, inr, Option, none, some, List, [], ◌++◌,
  arith, Option-cases, length, Int64, int64_neg, ok, err,
}
use estoria.EventStore.{Time}
use estoria.Projection.{ProjectionId, id_eq_iff}
use estoria.CheckpointStore.{CheckpointStore, load, save}
use estoria.CheckpointStore.Laws.{load-save}
use estoria.Processor.Errors.{Cause}
use estoria.Processor.{
  GlobalReader, Checkpoints, Handler, Settings, BufferedEvent, load_position, new_processor,
}
use estoria.Processor.Drain.{run}
use estoria.Processor.Accounting.{IsCheckpoints, last_position}
use estoria.Processor.Reading.{Delivered}
use estoria.Processor.Running.{Handled, Accounted}
use estoria.Processor.Delivery.{run-Accounted}

-- The state of the in-memory checkpoint store, with the number of saves that have read the clock.
abbrev pub Memory : Type 0
Memory = ℕ × CheckpointStore

module _ (clock : ℕ → Time) (id : ProjectionId) where
  -- What Load tells of the position: the error of a missing checkpoint is the one that is looked for.
  unfoldable pub loaded_position : Memory → Option Int64
  loaded_position (n, store) = elim (load store id) [
    | err e ↦ none
    | ok checkpoint ↦ some checkpoint.position
  ]

  abbrev pub memory_checkpoints : Checkpoints Memory
  memory_checkpoints = record {
    load = λ c. ok (loaded_position c);
    save = λ c position. (none, (c.0 + 1, save c.1 (clock c.0) id position));
  }

  abbrev or_zero : Option Int64 → Int64
  or_zero none = 0
  or_zero (some position) = position

  unfoldable pub position_in : Memory → Int64
  position_in c = or_zero (loaded_position c)

  load_position_in : (c : Memory) → load_position memory_checkpoints c ≡ ok (position_in c)
  unfolding load_position position_in
  load_position_in c = elim (Option-cases (loaded_position c)) [
    | inl absent ↦ ground (arith, absent)
    | inr (position, there) ↦ ground (arith, there)
  ]

  position_in-save :
      (c : Memory) (position : Int64)
      → position_in (c.0 + 1, save c.1 (clock c.0) id position) ≡ position
  unfolding position_in loaded_position
  position_in-save (n, store) position =
      ground (arith, load-save store (clock n) id id position, (id_eq_iff id id).1 refl)

  pub memory-IsCheckpoints : IsCheckpoints memory_checkpoints position_in
  memory-IsCheckpoints = record {
    saves = λ c position h. position_in-save c position;
    fails = λ c position e h. inr (position_in-save c position);
  }

  module _ {W I A : Type 0} (settings : Settings) (reader : GlobalReader W I) (handle : Handler A)
      (positive : 1 ≤ settings.checkpoint_every)
      (bound : settings.checkpoint_every < int64_neg) where
    -- A Run of a new processor over the in-memory store handles some events, and any Run after it, of
    -- another new processor over the store that it leaves, goes on behind the first ones of them, and
    -- misses none: only the last ones are delivered again, at most as many as the checkpoint interval
    -- says. Both keep what is stated of a Run, each under its own cancellation; the interval is
    -- positive and fits an int64.
    pub run-restarts :
        (cancelled cancelled' : ℕ → Option Cause) (ws ws' : List W) (c : Memory) (a a' : A)
        → let o = run cancelled settings reader memory_checkpoints handle ws new_processor c a in
          (settled : List BufferedEvent) × (again : List BufferedEvent) × (length again
            ≤ settings.checkpoint_every)
          × Handled cancelled settings reader memory_checkpoints handle position_in
              memory-IsCheckpoints
              (position_in c)
              positive
              bound
              (settled ++ again)
              a
              o
          × Delivered reader settings.batch_size (position_in c) [] ws (settled ++ again)
          × Accounted cancelled' settings reader memory_checkpoints handle position_in
              memory-IsCheckpoints
              (last_position (position_in c) settled)
              positive
              bound
              ws'
              a'
              (run cancelled' settings reader memory_checkpoints handle ws' new_processor o.3 a')
    run-restarts cancelled cancelled' ws ws' c a a' =
        let start = position_in c in
        let o = run cancelled settings reader memory_checkpoints handle ws new_processor c a in
        let (handled, (h, within, fine), called, delivered) =
          run-Accounted cancelled settings reader memory_checkpoints handle position_in
            memory-IsCheckpoints start positive bound ws c a (load_position_in c) refl in
        (
          h.settled,
          h.pending,
          omega (arith, h.counted, within),
          subst
              (λ l.
                Handled cancelled settings reader memory_checkpoints handle position_in
                  memory-IsCheckpoints start positive bound l a o)
              (sym h.whole) called,
          subst (Delivered reader settings.batch_size start [] ws) (sym h.whole) delivered,
          run-Accounted cancelled' settings reader memory_checkpoints handle position_in
              memory-IsCheckpoints (last_position start h.settled) positive bound ws' o.3 a'
              (load_position_in o.3 ∙ ap ok (sym h.checkpointed)) (sym h.checkpointed),
        )
