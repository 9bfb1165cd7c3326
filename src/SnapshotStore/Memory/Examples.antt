-- ===== src/SnapshotStore/Memory/Examples.antt =====
-- snapshotstore/memory on one aggregate with two snapshots.
use estoria.Prelude.{
  ◌≡◌, refl, true, false, none, [], ◌∷◌, arith, drop, Int64, sub64, lt64, le64, codes, ok,
}
use estoria.TypeId.{TypedId}
use estoria.SnapshotStore.{AggregateSnapshot, ReadSnapshotOptions, max_snapshots}
use estoria.SnapshotStore.Memory.{
  SnapshotStore, typed_id_eq, most_recent, read_snapshot, retain_from, write_snapshot,
}
use estoria.SnapshotStore.Memory.Retention.{
  is_rising, all_above, write_snapshot-is_rising, retain_from-max_snapshots,
  read_snapshot-write_snapshot,
}
use estoria.SnapshotStore.Memory.Bounded.{IsGreatest, read_snapshot-IsGreatest}

abbrev account : TypedId
account = record { type_name = codes "account"; uuid = 7 }

abbrev snapshot_at : Int64 → AggregateSnapshot
snapshot_at v = record {
  aggregate_id = account;
  aggregate_version = v;
  timestamp = 0;
  payload = [];
  data_content_type = codes "json";
}

-- A store that retains two snapshots and holds one.
abbrev store : SnapshotStore
store = record { snapshots = λ id. snapshot_at 2 ∷ []; retention = max_snapshots 2 }

store-is_rising : (id : TypedId) → is_rising (store.snapshots id) ≡ true
unfolding is_rising all_above
store-is_rising id = refl

write_snapshot-is_rising_example :
    is_rising ((write_snapshot store (snapshot_at 5)).1.snapshots account) ≡ true
write_snapshot-is_rising_example =
    write_snapshot-is_rising store (snapshot_at 5) store-is_rising account

retain_from-max_snapshots_example :
    retain_from (max_snapshots 1) 2 0 (snapshot_at 2 ∷ snapshot_at 5 ∷ [])
    ≡ drop 1 (snapshot_at 2 ∷ snapshot_at 5 ∷ [])
retain_from-max_snapshots_example =
    retain_from-max_snapshots 1 (snapshot_at 2 ∷ snapshot_at 5 ∷ []) (omega arith) (omega arith)
      (omega arith)

newer : (write_snapshot store (snapshot_at 5)).0 ≡ none
unfolding write_snapshot most_recent le64 lt64
newer = refl

kept : max_snapshots 2 (snapshot_at 5) 1 2 ≡ true
unfolding max_snapshots le64 lt64 sub64
kept = refl

read_snapshot-write_snapshot_example :
    (read_snapshot (write_snapshot store (snapshot_at 5)).1 account (record { max_version = 0 })
      ≡ ok (snapshot_at 5))
    × ((id : TypedId) (opts : ReadSnapshotOptions)
        → typed_id_eq account id ≡ false
        → read_snapshot (write_snapshot store (snapshot_at 5)).1 id opts
          ≡ read_snapshot store id opts)
read_snapshot-write_snapshot_example = read_snapshot-write_snapshot store (snapshot_at 5) newer kept

lt_four : lt64 0 4 ≡ true
unfolding lt64
lt_four = refl

read_snapshot-IsGreatest_example :
    IsGreatest store account 4 (read_snapshot store account (record { max_version = 4 }))
read_snapshot-IsGreatest_example =
    read_snapshot-IsGreatest store account 4 (store-is_rising account) lt_four
