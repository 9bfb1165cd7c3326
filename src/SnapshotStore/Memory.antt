-- ===== src/SnapshotStore/Memory.antt =====
-- snapshotstore/memory/snapshot_store.go: the in-memory snapshot store. The map is a function, with the
-- empty list for a key that is not there, which the code reads alike. The retention policy is an
-- argument; NewSnapshotStore takes `max_snapshots 1`.
pub mod Retention
pub mod Bounded
mod Examples
use estoria.Prelude.{
  ℕ, zero, suc, ◌+◌, ◌-◌, ◌*◌, ◌/◌, ◌%◌, ◌^◌, ◌≤◌, ◌<◌, min, ◌≡◌, refl, sym, ap, ◌∙◌, ◌≢◌, ◌↔◌, ◌⊎◌,
  inl, inr, Bool, true, false, not, ◌&&◌, ◌||◌, Option, none, some, List, [], ◌∷◌, ◌++◌, map,
  append-nil, append_assoc, arith, ltb, leb, ◌==◌, if◌then◌else◌, ==_iff, Bool-cases, Option-cases,
  length, is_empty, get_elem?, take, drop, length-append, length-drop, take-append-drop,
  take-append, drop-append, All, All-append, All-imp, Int64, int64_mod, int64_neg, max_int64, add64,
  sub64, lt64, le64, max64, min64, add64_lem, sub64_lem, lt64_lem, le64_lem, max64-eq, Text, codes,
  text_eq, text_lt, text_eq_iff, has_prefix, has_suffix, Result, ok, err, ◌>>=◌, map_err, Dict,
  lookup, insert, erase, lookup-insert, lookup-erase, fails_if, ◌or_else◌, wrap, or_else-none,
  or_else-eq_none,
}
use mathlib.Core.List.{reverse}
use estoria.TypeId.{TypedId}
use estoria.SnapshotStore.{
  AggregateSnapshot, ReadSnapshotOptions, RetentionPolicy, max_snapshots, SnapshotError,
  snapshot_not_found, older_version,
}

pub record SnapshotStore : Type 0 where
  pub snapshots : TypedId → List AggregateSnapshot
  pub retention : RetentionPolicy

-- NewSnapshotStore
abbrev pub new_snapshot_store : SnapshotStore
new_snapshot_store = record { snapshots = λ id. []; retention = max_snapshots 1 }

-- `a == b` on the keys of the map
abbrev pub typed_id_eq : TypedId → TypedId → Bool
typed_id_eq a b = text_eq a.type_name b.type_name && a.uuid == b.uuid

-- `snapshots[len(snapshots)-1]`, where there is one
unfoldable pub most_recent : List AggregateSnapshot → Option AggregateSnapshot
most_recent [] = none
most_recent (x ∷ []) = some x
most_recent (x ∷ (y ∷ ys)) = most_recent (y ∷ ys)

-- The first snapshot with a version of at most `max_version`.
unfoldable pub find_at_most : Int64 → List AggregateSnapshot → Option AggregateSnapshot
find_at_most max_version [] = none
find_at_most max_version (x ∷ xs) =
    let rest = find_at_most max_version xs in
    if le64 x.aggregate_version max_version then some x else rest

abbrev pub found_or_error : Option AggregateSnapshot → Result SnapshotError AggregateSnapshot
found_or_error none = err snapshot_not_found
found_or_error (some snap) = ok snap

-- ReadSnapshot
unfoldable pub read_snapshot :
    SnapshotStore → TypedId → ReadSnapshotOptions → Result SnapshotError AggregateSnapshot
read_snapshot s id opts = found_or_error (
    if lt64 0 opts.max_version
    then find_at_most opts.max_version (reverse (s.snapshots id))
    else most_recent (s.snapshots id))

-- The retention loop, from the index `i` on.
unfoldable pub retain_from :
    RetentionPolicy → ℕ → ℕ → List AggregateSnapshot → List AggregateSnapshot
retain_from retention total i [] = []
retain_from retention total i (x ∷ xs) =
    let rest = retain_from retention total (i + 1) xs in
    if retention x i total then x ∷ rest else rest

-- `len(snapshots) > 0 && snap.AggregateVersion <= snapshots[len(snapshots)-1].AggregateVersion`
abbrev pub is_older : AggregateSnapshot → Option AggregateSnapshot → Bool
is_older snap none = false
is_older snap (some last) = le64 snap.aggregate_version last.aggregate_version

-- WriteSnapshot
unfoldable pub write_snapshot :
    SnapshotStore → AggregateSnapshot → Option SnapshotError × SnapshotStore
write_snapshot s snap =
    let snapshots = s.snapshots snap.aggregate_id in
    let appended = snapshots ++ snap ∷ [] in
    if is_older snap (most_recent snapshots) then (some older_version, s) else (
      none,
      record s {
        snapshots = λ id.
            if typed_id_eq snap.aggregate_id id
            then retain_from s.retention (length appended) 0 appended
            else s.snapshots id;
      },
    )
