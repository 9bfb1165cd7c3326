-- ===== src/SnapshotStore.antt =====
-- snapshotstore/snapshot_store.go: snapshots of aggregates, and the policies that come with the package.
pub mod Memory
use estoria.Prelude.{
  ℕ, zero, suc, ◌+◌, ◌-◌, ◌*◌, ◌/◌, ◌%◌, ◌^◌, ◌≤◌, ◌<◌, min, ◌≡◌, refl, sym, ap, ◌∙◌, ◌≢◌, ◌↔◌, ◌⊎◌,
  inl, inr, Bool, true, false, not, ◌&&◌, ◌||◌, Option, none, some, List, [], ◌∷◌, ◌++◌, map,
  append-nil, append_assoc, arith, ltb, leb, ◌==◌, if◌then◌else◌, ==_iff, Bool-cases, Option-cases,
  length, is_empty, get_elem?, take, drop, length-append, length-drop, take-append-drop,
  take-append, drop-append, All, All-append, All-imp, Int64, int64_mod, int64_neg, max_int64, add64,
  sub64, lt64, le64, max64, min64, add64_lem, sub64_lem, lt64_lem, le64_lem, max64-eq, Text, codes,
  text_eq, text_lt, text_eq_iff, has_prefix, has_suffix, Result, ok, err, ◌>>=◌, map_err, Dict,
  lookup, insert, erase, lookup-insert, lookup-erase, fails_if, ◌or_else◌, wrap, or_else-none,
  or_else-eq_none,
}
use estoria.TypeId.{TypedId}
use estoria.EventStore.{Time}

pub record AggregateSnapshot : Type 0 where
  pub aggregate_id : TypedId
  pub aggregate_version : Int64
  pub timestamp : Time
  pub payload : Text
  pub data_content_type : Text

pub record ReadSnapshotOptions : Type 0 where
  pub max_version : Int64

-- RetentionPolicy: a snapshot, its index, and the number of snapshots.
abbrev pub RetentionPolicy : Type 0
RetentionPolicy = AggregateSnapshot → Int64 → Int64 → Bool

-- MaxSnapshotsRetentionPolicy{N: n}
unfoldable pub max_snapshots : Int64 → RetentionPolicy
max_snapshots n snap index total = n == 0 || le64 (sub64 total n) index

-- MinAggregateVersionRetentionPolicy{MinVersion: v}
unfoldable pub min_aggregate_version : Int64 → RetentionPolicy
min_aggregate_version v snap index total = le64 v snap.aggregate_version

pub data SnapshotError : Type 0 where
  snapshot_not_found older_version : SnapshotError
