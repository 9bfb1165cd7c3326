-- ===== src/CheckpointStore/Laws.antt =====
-- projection/checkpointstore: loads after a save and after a delete.
use estoria.Prelude.{◌≡◌, inl, inr, arith, if◌then◌else◌, Bool-cases, Int64, ok}
use estoria.EventStore.{Time}
use estoria.Projection.{ProjectionId, id_eq, id_eq_iff}
use estoria.CheckpointStore.{CheckpointStore, load, save}

-- After a save a load of the same projection returns the position that was saved last, even where it
-- lies below an earlier one, and loads of the others return what they did.
pub load-save :
    (s : CheckpointStore) (now : Time) (id other : ProjectionId) (position : Int64)
    → load (save s now id position) other ≡ (
        if id_eq id other
        then ok (record { projection_id = other; position = position; updated_at = now })
        else load s other)
unfolding load save
load-save s now id other position = elim (Bool-cases (id_eq id other)) [
  | inl same ↦ ground (arith, same, (id_eq_iff id other).0 same)
  | inr differ ↦ ground (arith, differ)
]
