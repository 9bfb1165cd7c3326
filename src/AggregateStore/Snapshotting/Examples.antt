-- ===== src/AggregateStore/Snapshotting/Examples.antt =====
-- aggregatestore/snapshotting_store.go: a Save of two events, with a snapshot at each version.
use estoria.Prelude.{
  ℕ, ◌+◌, ◌≡◌, refl, true, false, none, some, List, [], ◌∷◌, map, ◌==◌, length, Int64, add64, Text,
  codes, ok,
}
use estoria.TypeId.{new}
use estoria.SnapshotStore.{AggregateSnapshot}
use estoria.AggregateStore.Aggregate.{AggregateEvent, Aggregate, new_aggregate, apply_from}
use estoria.AggregateStore.Cached.{Store}
use estoria.AggregateStore.Snapshotting.{
  StateKind, SnapshottingStore, snapshot_if_due, apply_and_snapshot, save,
}
use estoria.AggregateStore.Snapshotting.Applying.{
  applied_after, inner_save, save-apply_all, snapshots_after, save-snapshots_after,
}

abbrev json : Text
json = codes "application/json"

abbrev number : StateKind ℕ
number = record { is_nil = λ n. false; validated = λ n. some n }

abbrev event : Int64 → ℕ → AggregateEvent ℕ
event version amount = record {
  id = new (codes "added") version;
  version = version;
  timestamp = 1;
  domain_event = amount;
  metadata = [];
}

abbrev fresh : Aggregate ℕ ℕ
fresh = new_aggregate (new (codes "number") 7) 0 0

abbrev appended : Aggregate ℕ ℕ
appended = record fresh { unapplied_events = event 1 5 ∷ event 2 6 ∷ [] }

abbrev appending : Store ℕ ℕ ℕ ℕ
appending = record {
  aggregate_type = codes "number";
  new_for = λ id. new_aggregate (new (codes "number") id) 0 0;
  load = λ w id opts. ok (new_aggregate (new (codes "number") id) w w);
  hydrate = λ w opts a. (none, a);
  save = λ w opts a. (none, some appended, w + 2);
}

abbrev eager : SnapshottingStore ℕ ℕ ℕ (List AggregateSnapshot) ℕ
eager = record {
  inner = appending;
  reader = none;
  writer = λ n snap. (none, snap ∷ n);
  policy = λ id version now. true;
  state_codec = record {
    unmarshal_state = λ text n. some (length text);
    marshal_state = λ n. some (n ∷ []);
    content_type = json;
  };
}

abbrev add : ℕ → ℕ → ℕ
add amount n = amount + n

saved_versions :
    map
      (λ (snap : AggregateSnapshot). snap.aggregate_version ∷ snap.payload)
      (save number eager add 1 0 [] none (some fresh)).2
    ≡ (2 ∷ 11 ∷ []) ∷ (1 ∷ 5 ∷ []) ∷ []
unfolding save apply_and_snapshot snapshot_if_due apply_from add64
saved_versions = refl

save-apply_all_example :
    ((save number eager add 1 0 [] none (some fresh)).0
      ≡ (applied_after number eager add (inner_save number eager add 0 fresh)).0)
    × ((save number eager add 1 0 [] none (some fresh)).1
        ≡ (applied_after number eager add (inner_save number eager add 0 fresh)).1)
    × ((save number eager add 1 0 [] none (some fresh)).3
        ≡ (applied_after number eager add (inner_save number eager add 0 fresh)).2)
save-apply_all_example = save-apply_all number eager add 1 0 [] none fresh

-- The snapshot of the second event alone is due.
abbrev second : SnapshottingStore ℕ ℕ ℕ (List AggregateSnapshot) ℕ
second = record eager { policy = λ id version now. version == 2 }

second_version :
    map
      (λ (snap : AggregateSnapshot). snap.aggregate_version ∷ snap.payload)
      (save number second add 1 0 [] none (some fresh)).2
    ≡ (2 ∷ 11 ∷ []) ∷ []
unfolding save apply_and_snapshot snapshot_if_due apply_from add64
second_version = refl

save-snapshots_after_example :
    (save number second add 1 0 [] none (some fresh)).2
    ≡ snapshots_after number second add 1 [] (inner_save number second add 0 fresh)
save-snapshots_after_example = save-snapshots_after number second add 1 0 [] none fresh
