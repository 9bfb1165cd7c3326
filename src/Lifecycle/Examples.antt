-- ===== src/Lifecycle/Examples.antt =====
-- projection/lifecycle: a history of two rebuilds of one projection, the second with a retirement that
-- a witness attests.
use estoria.Prelude.{
  ◌+◌, ◌<◌, ◌≡◌, refl, false, none, List, [], ◌∷◌, ◌++◌, arith, length, Int64, int64_neg, add64,
  lt64, le64, max64, codes, text_eq, text_lt,
}
use estoria.Projection.{ProjectionId, zero_id, id_eq, validate_id, all_allowed}
use estoria.Lifecycle.Retirement.{
  invalid_witness_set, invalid_witnesses_after, invalid_receipts, receipts_mismatch, slices_equal,
}
use estoria.Lifecycle.State.{new_state, vacant, validate, validate_snapshot_state}
use estoria.Lifecycle.Events.{
  DomainEvent, rebuild_initiated, runner_claimed, build_started, caught_up, promoted,
  retire_started, previous_retired, retirement_policy_set, observe, apply_rebuild_initiated,
  apply_runner_claimed, apply_build_started, apply_caught_up, apply_promoted, apply_retire_started,
  apply_previous_retired, apply_retirement_policy_set, initiated_fault, started_fault,
  promoted_fault, claim_ids_fault, claim_phase_fault, claim_takeover_fault, policy_fault,
  caught_up_fault, retire_fault, retire_witness_fault, retired_fault, apply_to, fold,
}
use estoria.Lifecycle.Counting.{numbers, count_up, version_of, revision_of, generation_of}
use estoria.Lifecycle.Sequence.{
  versions_in_sequence, revisions_in_sequence, generations_in_sequence,
}
use estoria.Lifecycle.Cutovers.{Ranged}
use estoria.Lifecycle.Histories.{validate-apply_to, validate-fold, validate_snapshot_state-fold}

abbrev orders : Int64 → ProjectionId
orders version = record { name = codes "orders"; version = version }

abbrev initiation : Int64 → ProjectionId → DomainEvent
initiation version previous = rebuild_initiated (record {
  attempt = version;
  target = orders version;
  previous = previous;
  reason = codes "schema";
  at = 1;
})

abbrev claim : Int64 → DomainEvent
claim attempt = runner_claimed (record {
  attempt = attempt;
  runner = 9;
  from_position = 0;
  takeover = record { actor = []; reason = [] };
  at = 2;
})

abbrev building : List DomainEvent
building = build_started ∷ caught_up (record { position = 5; duration = 1; at = 3 }) ∷ []

abbrev promotion : ProjectionId → ProjectionId → Int64 → Int64 → DomainEvent
promotion previous next revision generation = promoted (record {
  previous = previous;
  next = next;
  revision = revision;
  policy_generation = generation;
  at = 4;
})

abbrev retirement : ProjectionId → List DomainEvent
retirement retired =
    retire_started (record {
      retiring = retired;
      policy_generation = 1;
      witnesses = codes "audit" ∷ [];
      receipts =
          record { witness = codes "audit"; cutover = record { live = orders 2; revision = 2 } }
          ∷ [];
      override = record { actor = []; reason = [] };
      at = 6;
    })
    ∷ previous_retired (record {
      retired = retired;
      receipts =
          record { witness = codes "audit"; cutover = record { live = orders 2; revision = 2 } }
          ∷ [];
    })
    ∷ []

abbrev history : List DomainEvent
history =
    initiation 1 zero_id ∷ claim 1 ∷ building
    ++ promotion zero_id (orders 1) 1 0
      ∷ previous_retired (record { retired = zero_id; receipts = [] })
      ∷ retirement_policy_set (record {
        generation = 1;
        witnesses = codes "audit" ∷ [];
        unwitnessed = false;
        reason = codes "law";
        actor = codes "ops";
        at = 5;
      })
      ∷ initiation 2 (orders 1)
      ∷ claim 2
      ∷ building
    ++ promotion (orders 1) (orders 2) 2 1 ∷ retirement (orders 1)

history-clean : (fold history new_state).invalid_reason ≡ none
unfolding fold apply_to observe apply_rebuild_initiated apply_runner_claimed apply_build_started
    apply_caught_up apply_promoted apply_retire_started apply_previous_retired
    apply_retirement_policy_set initiated_fault started_fault promoted_fault claim_ids_fault
    claim_phase_fault claim_takeover_fault policy_fault caught_up_fault retire_fault
    retire_witness_fault retired_fault validate_id all_allowed id_eq text_eq text_lt lt64 le64 add64
    max64 invalid_witness_set invalid_witnesses_after invalid_receipts receipts_mismatch
    slices_equal
history-clean = refl

validate-fold_example : validate (fold history new_state) ≡ none
validate-fold_example = validate-fold history history-clean

validate_snapshot_state-fold_example :
    validate_snapshot_state (fold (build_started ∷ history) new_state) ≡ none
validate_snapshot_state-fold_example = validate_snapshot_state-fold build_started history

new_state-Ranged : Ranged new_state
new_state-Ranged = record {
  allocated_range = omega arith;
  revision_range = omega arith;
  generation_range = omega arith;
  live_range = omega arith;
  previous_range = omega arith;
}

new_state-valid : validate new_state ≡ none
unfolding validate vacant id_eq text_eq
new_state-valid = refl

initiation-clean : (apply_to (initiation 1 zero_id) new_state).invalid_reason ≡ none
unfolding apply_to observe apply_rebuild_initiated initiated_fault validate_id all_allowed id_eq
    text_eq lt64 add64 max64
initiation-clean = refl

validate-apply_to_example : validate (apply_to (initiation 1 zero_id) new_state) ≡ none
validate-apply_to_example =
    validate-apply_to (initiation 1 zero_id) new_state new_state-Ranged new_state-valid
      initiation-clean

versions_in_sequence_example :
    (numbers version_of history ≡ count_up 0 (length (numbers version_of history)))
    × ((fold history new_state).allocated ≡ 0 + length (numbers version_of history))
    × ((fold history new_state).allocated < int64_neg)
versions_in_sequence_example = versions_in_sequence history new_state (omega arith) history-clean

revisions_in_sequence_example :
    (numbers revision_of history ≡ count_up 0 (length (numbers revision_of history)))
    × ((fold history new_state).cutover_revision ≡ 0 + length (numbers revision_of history))
    × ((fold history new_state).cutover_revision < int64_neg)
revisions_in_sequence_example = revisions_in_sequence history new_state (omega arith) history-clean

generations_in_sequence_example :
    (numbers generation_of history ≡ count_up 0 (length (numbers generation_of history)))
    × ((fold history new_state).retirement_policy.generation
        ≡ 0 + length (numbers generation_of history))
    × ((fold history new_state).retirement_policy.generation < int64_neg)
generations_in_sequence_example =
    generations_in_sequence history new_state (omega arith) history-clean
