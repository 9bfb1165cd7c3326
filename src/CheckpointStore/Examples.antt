-- ===== src/CheckpointStore/Examples.antt =====
-- projection/checkpointstore on two versions of one projection.
use estoria.Prelude.{◌≡◌, refl, Int64, codes, text_eq, ok}
use estoria.Projection.{ProjectionId, id_eq}
use estoria.CheckpointStore.{CheckpointStore, new_checkpoint_store, load, save}

abbrev orders : Int64 → ProjectionId
orders version = record { name = codes "orders"; version = version }

-- A store with a checkpoint of the first version.
abbrev store : CheckpointStore
store = save new_checkpoint_store 1 (orders 1) 40

load_first :
    load (save store 2 (orders 1) 30) (orders 1)
    ≡ ok (record { projection_id = orders 1; position = 30; updated_at = 2 })
unfolding load save id_eq text_eq
load_first = refl
