-- ===== src/CheckpointStore.antt =====
-- projection/checkpointstore/store.go and memory/checkpoint_store.go: the in-memory checkpoint store.
-- The map is a function; `now` is the clock that a save reads.
pub mod Laws
mod Examples
use estoria.Prelude.{
  ℕ, zero, suc, ◌+◌, ◌-◌, ◌*◌, ◌/◌, ◌%◌, ◌^◌, ◌≤◌, ◌<◌, min, ◌≡◌, refl, sym, ap, ◌∙◌, ◌≢◌, ◌↔◌, ◌⊎◌,
  inl, inr, Bool, true, false, not, ◌&&◌, ◌||◌, Option, none, some, List, [], ◌∷◌, ◌++◌, map,
  append-nil, append_assoc, arith, ltb, leb, ◌==◌, if◌then◌else◌, ==_iff, Bool-cases, Option-cases,
  length, is_empty, get_elem?, take, drop, length-append, length-drop, take-append-drop,
  take-append, drop-append, All, All-append, All-imp, Int64, int64_mod, int64_neg, max_int64, add64,
  sub64, lt64, le64, max64, min64, add64_lem, sub64_lem, lt64_lem, le64_lem, max64-eq, Text, codes,
  text_eq, text_lt, text_eq_iff, has_prefix, has_suffix, Result, ok, err, ◌>>=◌, map_err, Dict,
  lookup, insert, erase, lookup-insert, lookup-erase, fails_if, ◌or_else◌, wrap, or_else-none,
  or_else-eq_none,
}
use estoria.EventStore.{Time}
use estoria.Projection.{ProjectionId, id_eq}

pub record Checkpoint : Type 0 where
  pub projection_id : ProjectionId
  pub position : Int64
  pub updated_at : Time

pub data CheckpointError : Type 0 where
  checkpoint_not_found : CheckpointError

pub record CheckpointStore : Type 0 where
  pub checkpoints : ProjectionId → Option Checkpoint

-- NewCheckpointStore
abbrev pub new_checkpoint_store : CheckpointStore
new_checkpoint_store = record { checkpoints = λ id. none }

-- Load
unfoldable pub load : CheckpointStore → ProjectionId → Result CheckpointError Checkpoint
load s id = elim (s.checkpoints id) [
  | none ↦ err checkpoint_not_found
  | some checkpoint ↦ ok checkpoint
]

-- Save, which does not fail
unfoldable pub save : CheckpointStore → Time → ProjectionId → Int64 → CheckpointStore
save s now id position = record {
  checkpoints = λ other.
      if id_eq id other
      then some (record { projection_id = id; position = position; updated_at = now })
      else s.checkpoints other;
}

-- Delete
unfoldable pub delete : CheckpointStore → ProjectionId → Option CheckpointError × CheckpointStore
delete s id = elim (s.checkpoints id) [
  | none ↦ (some checkpoint_not_found, s)
  | some checkpoint ↦
      (none, record { checkpoints = λ other. if id_eq id other then none else s.checkpoints other })
]
