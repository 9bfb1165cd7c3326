-- ===== src/Lifecycle/Retirement.antt =====
-- projection/lifecycle/retirement.go and cutover.go: the witness policy of retirements, the receipts
-- of witnesses, and their checks. Times and the texts of errors are left out of the errors.
use estoria.Prelude.{
  ◌≡◌, ◌↔◌, Bool, true, false, not, ◌&&◌, ◌||◌, Option, none, some, List, [], ◌∷◌, arith, ◌==◌,
  length, is_empty, Int64, max_int64, lt64, Text, text_eq, text_lt, text_eq_iff, fails_if,
  ◌or_else◌, wrap,
}
use estoria.Projection.{ProjectionId, id_eq}

pub record Cutover : Type 0 where
  pub live : ProjectionId
  pub revision : Int64

pub record RetirementPolicy : Type 0 where
  pub generation : Int64
  pub witnesses : List Text
  pub unwitnessed : Bool

-- RetirementPolicy{}
abbrev pub zero_policy : RetirementPolicy
zero_policy = record { generation = 0; witnesses = []; unwitnessed = false }

pub record RetirementOverride : Type 0 where
  pub actor : Text
  pub reason : Text

pub record WitnessReceipt : Type 0 where
  pub witness : Text
  pub cutover : Cutover

pub data WitnessError : Type 0 where
  empty_witness not_sorted : WitnessError

pub data PolicyError : Type 0 where
  negative_generation unreachable_generation content_without_generation : PolicyError
  witnesses_and_unwitnessed neither_mode : PolicyError
  bad_witness_set : WitnessError → PolicyError

pub data ReceiptError : Type 0 where
  receipt_count wrong_witness wrong_cutover : ReceiptError

-- RetirementPolicy.zero
abbrev pub is_zero_policy : RetirementPolicy → Bool
is_zero_policy p = p.generation == 0 && is_empty p.witnesses && not p.unwitnessed

-- RetirementOverride{}
abbrev pub is_override : RetirementOverride → Bool
is_override o = not (is_empty o.actor && is_empty o.reason)

-- `i > 0 && ids[i-1] >= id`
abbrev pub follows_wrongly : Option Text → Text → Bool
follows_wrongly none id = false
follows_wrongly (some before) id = not (text_lt before id)

-- The loop of invalidWitnessSet, behind the ID before.
unfoldable pub invalid_witnesses_after : Option Text → List Text → Option WitnessError
invalid_witnesses_after before [] = none
invalid_witnesses_after before (id ∷ ids) =
    fails_if (is_empty id) empty_witness
    or_else fails_if (follows_wrongly before id) not_sorted
    or_else invalid_witnesses_after (some id) ids

unfoldable pub invalid_witness_set : List Text → Option WitnessError
invalid_witness_set ids = invalid_witnesses_after none ids

-- RetirementPolicy.validate
unfoldable pub validate_policy : RetirementPolicy → Option PolicyError
validate_policy p =
    fails_if (lt64 p.generation 0) negative_generation
    or_else fails_if (p.generation == max_int64) unreachable_generation
    or_else fails_if (p.generation == 0 && (not (is_empty p.witnesses) || p.unwitnessed))
        content_without_generation
    or_else fails_if (lt64 0 p.generation && p.unwitnessed && not (is_empty p.witnesses))
        witnesses_and_unwitnessed
    or_else fails_if (lt64 0 p.generation && not p.unwitnessed && is_empty p.witnesses) neither_mode
    or_else wrap bad_witness_set (invalid_witness_set p.witnesses)

-- `a == b` on cutovers
abbrev pub cutover_eq : Cutover → Cutover → Bool
cutover_eq a b = id_eq a.live b.live && a.revision == b.revision

-- The loop of invalidReceipts, over lists of one length.
unfoldable pub receipts_mismatch : List WitnessReceipt → List Text → Cutover → Option ReceiptError
receipts_mismatch [] witnesses cutover = none
receipts_mismatch (r ∷ receipts) [] cutover = none
receipts_mismatch (r ∷ receipts) (w ∷ witnesses) cutover =
    fails_if (not (text_eq r.witness w)) wrong_witness
    or_else fails_if (not (cutover_eq r.cutover cutover)) wrong_cutover
    or_else receipts_mismatch receipts witnesses cutover

unfoldable pub invalid_receipts : List WitnessReceipt → List Text → Cutover → Option ReceiptError
invalid_receipts receipts witnesses cutover =
    fails_if (not (length receipts == length witnesses)) receipt_count
    or_else receipts_mismatch receipts witnesses cutover

-- slices.Equal
unfoldable pub slices_equal : List Text → List Text → Bool
slices_equal [] [] = true
slices_equal [] (y ∷ ys) = false
slices_equal (x ∷ xs) [] = false
slices_equal (x ∷ xs) (y ∷ ys) = text_eq x y && slices_equal xs ys

pub slices_equal_iff : (xs ys : List Text) → (slices_equal xs ys ≡ true) ↔ (xs ≡ ys)
unfolding slices_equal
slices_equal_iff [] [] = ground arith
slices_equal_iff [] (y ∷ ys) = ground arith
slices_equal_iff (x ∷ xs) [] = ground arith
slices_equal_iff (x ∷ xs) (y ∷ ys) = ground (arith, text_eq_iff x y, slices_equal_iff xs ys)
