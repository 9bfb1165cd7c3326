-- ===== src/Lifecycle/Events.antt =====
-- projection/lifecycle/events.go: the domain events of a lifecycle and how each one applies. `ApplyTo`
-- never fails: what does not fit is observed, and the event applies all the same.
use estoria.Prelude.{
  ◌-◌, Bool, true, false, not, ◌&&◌, ◌||◌, Option, none, some, List, [], ◌∷◌, ◌==◌, if◌then◌else◌,
  is_empty, Int64, max_int64, add64, le64, max64, Text, text_eq, fails_if, ◌or_else◌, wrap,
}
use estoria.TypeId.{Uuid, nil_uuid}
use estoria.EventStore.{Time}
use estoria.Projection.{ProjectionId, zero_id, id_eq, validate_id}
use estoria.Lifecycle.Retirement.{
  RetirementOverride, WitnessReceipt, is_override, is_zero_policy, invalid_witness_set,
  invalid_receipts, slices_equal,
}
use estoria.Lifecycle.State.{
  Phase, phase_none, phase_created, phase_building, phase_caught_up, phase_promoted, phase_retiring,
  Inconsistency, AttemptState, zero_attempt, State, poison, is_before_promotion, is_after_promotion,
  initiated_without_id, initiated_bad_target, initiated_while_occupied, initiated_other_name,
  initiated_stale_previous, initiated_out_of_sequence, claim_without_attempt, claim_without_runner,
  claim_other_attempt, claim_without_rebuild, claim_unknown_phase, takeover_incomplete,
  claim_over_standing, takeover_without_standing, release_without_attempt, release_without_runner,
  release_other_attempt, release_other_runner, release_again, release_without_rebuild,
  release_unknown_phase, started_outside_created, started_without_runner, caught_up_outside_phases,
  promoted_outside_caught_up, promoted_stale_previous, promoted_other_target,
  promoted_revision_exhausted, promoted_out_of_sequence, promoted_inactive_policy,
  rolled_back_outside_promoted, rolled_back_stale_from, rolled_back_without_previous,
  rolled_back_other_previous, rolled_back_revision_exhausted, rolled_back_out_of_sequence,
  abandoned_outside_phases, abandoned_unknown_phase, retire_outside_promoted,
  retire_without_previous, retire_other_previous, retire_inactive_policy, override_incomplete,
  override_with_witnesses, retire_without_policy, unwitnessed_with_witnesses,
  retire_other_witnesses, retire_bad_receipts, retired_without_previous, retired_outside_retiring,
  retired_other_previous, retired_first_with_receipts, retired_bad_receipts, policy_before_name,
  policy_exhausted, policy_discontinuous, policy_without_actor, policy_both_modes,
  policy_neither_mode, policy_bad_witnesses,
}

-- What a switch of ApplyTo observes: the first case that holds.
unfoldable pub observe : Option Inconsistency → State → State
unfolding poison
observe none s = s
observe (some msg) s = poison s msg

pub record RebuildInitiated : Type 0 where
  pub attempt : Uuid
  pub target : ProjectionId
  pub previous : ProjectionId
  pub reason : Text
  pub at : Time

pub record RunnerTakeover : Type 0 where
  pub actor : Text
  pub reason : Text

pub record RunnerClaimed : Type 0 where
  pub attempt : Uuid
  pub runner : Uuid
  pub from_position : Int64
  pub takeover : RunnerTakeover
  pub at : Time

pub record RunnerReleased : Type 0 where
  pub attempt : Uuid
  pub runner : Uuid
  pub at : Time

pub record CaughtUp : Type 0 where
  pub position : Int64
  pub duration : Int64
  pub at : Time

pub record Promoted : Type 0 where
  pub previous : ProjectionId
  pub next : ProjectionId
  pub revision : Int64
  pub policy_generation : Int64
  pub at : Time

pub record RolledBack : Type 0 where
  pub rolled_from : ProjectionId
  pub reverted_to : ProjectionId
  pub revision : Int64
  pub at : Time

pub record RetireStarted : Type 0 where
  pub retiring : ProjectionId
  pub policy_generation : Int64
  pub witnesses : List Text
  pub receipts : List WitnessReceipt
  pub override : RetirementOverride
  pub at : Time

pub record PreviousRetired : Type 0 where
  pub retired : ProjectionId
  pub receipts : List WitnessReceipt

pub record RetirementPolicySet : Type 0 where
  pub generation : Int64
  pub witnesses : List Text
  pub unwitnessed : Bool
  pub reason : Text
  pub actor : Text
  pub at : Time

pub data DomainEvent : Type 0 where
  rebuild_initiated : RebuildInitiated → DomainEvent
  runner_claimed : RunnerClaimed → DomainEvent
  runner_released : RunnerReleased → DomainEvent
  build_started : DomainEvent
  caught_up : CaughtUp → DomainEvent
  promoted : Promoted → DomainEvent
  rolled_back : RolledBack → DomainEvent
  abandoned : Text → DomainEvent
  retire_started : RetireStarted → DomainEvent
  previous_retired : PreviousRetired → DomainEvent
  retirement_policy_set : RetirementPolicySet → DomainEvent

abbrev pub is_in_flight : Phase → Bool
is_in_flight p = is_before_promotion p || is_after_promotion p

-- The switch of RebuildInitiated.ApplyTo.
unfoldable pub initiated_fault : RebuildInitiated → State → Option Inconsistency
initiated_fault e s =
    fails_if (e.attempt == nil_uuid) initiated_without_id
    or_else wrap (λ _. initiated_bad_target) (validate_id e.target)
    or_else fails_if (not (s.attempt.phase == phase_none)) initiated_while_occupied
    or_else fails_if (not (is_empty s.name) && not (text_eq e.target.name s.name))
        initiated_other_name
    or_else fails_if (not (id_eq e.previous s.live)) initiated_stale_previous
    or_else fails_if (not (e.target.version == add64 s.allocated 1)) initiated_out_of_sequence

unfoldable pub apply_rebuild_initiated : RebuildInitiated → State → State
unfolding observe
apply_rebuild_initiated e s0 =
    let s = observe (initiated_fault e s0) s0 in
    record s {
      name = if is_empty s.name then e.target.name else s.name;
      allocated = max64 s.allocated e.target.version;
      attempt = record zero_attempt {
        id = e.attempt;
        target = e.target;
        previous = e.previous;
        phase = phase_created;
        reason = e.reason;
        initiated_at = e.at;
      };
    }

abbrev pub is_takeover : RunnerTakeover → Bool
is_takeover t = not (is_empty t.actor && is_empty t.reason)

-- A claim that no release has ended.
abbrev pub is_standing : AttemptState → Bool
is_standing a = not (a.runner == nil_uuid) && not a.released

-- The three switches of RunnerClaimed.ApplyTo.
unfoldable pub claim_ids_fault : RunnerClaimed → Option Inconsistency
claim_ids_fault e =
    fails_if (e.attempt == nil_uuid) claim_without_attempt
    or_else fails_if (e.runner == nil_uuid) claim_without_runner

unfoldable pub claim_phase_fault : RunnerClaimed → State → Option Inconsistency
claim_phase_fault e s =
    fails_if (is_in_flight s.attempt.phase && not (e.attempt == s.attempt.id)) claim_other_attempt
    or_else fails_if (s.attempt.phase == phase_none) claim_without_rebuild
    or_else fails_if (not (is_in_flight s.attempt.phase)) claim_unknown_phase

unfoldable pub claim_takeover_fault : RunnerClaimed → State → Option Inconsistency
claim_takeover_fault e s =
    fails_if (is_takeover e.takeover && (is_empty e.takeover.actor || is_empty e.takeover.reason))
      takeover_incomplete
    or_else fails_if (is_standing s.attempt && not (is_takeover e.takeover)) claim_over_standing
    or_else fails_if (not (is_standing s.attempt) && is_takeover e.takeover)
        takeover_without_standing

unfoldable pub apply_runner_claimed : RunnerClaimed → State → State
unfolding observe
apply_runner_claimed e s0 =
    let s1 = observe (claim_ids_fault e) s0 in
    let s2 = observe (claim_phase_fault e s1) s1 in
    let s = observe (claim_takeover_fault e s2) s2 in
    record s {
      attempt = record s.attempt {
        runner = e.runner;
        claimed_at = e.at;
        released = false;
        released_at = 0;
      };
    }

-- The two switches of RunnerReleased.ApplyTo.
unfoldable pub release_ids_fault : RunnerReleased → Option Inconsistency
release_ids_fault e =
    fails_if (e.attempt == nil_uuid) release_without_attempt
    or_else fails_if (e.runner == nil_uuid) release_without_runner

unfoldable pub release_phase_fault : RunnerReleased → State → Option Inconsistency
release_phase_fault e s =
    if is_in_flight s.attempt.phase
    then (fails_if (not (e.attempt == s.attempt.id)) release_other_attempt
        or_else fails_if (not (e.runner == s.attempt.runner)) release_other_runner
        or_else fails_if s.attempt.released release_again)
    else (fails_if (s.attempt.phase == phase_none) release_without_rebuild
        or_else some release_unknown_phase)

unfoldable pub apply_runner_released : RunnerReleased → State → State
unfolding observe
apply_runner_released e s0 =
    let s1 = observe (release_ids_fault e) s0 in
    let s = observe (release_phase_fault e s1) s1 in
    record s { attempt = record s.attempt { released = true; released_at = e.at } }

unfoldable pub started_fault : State → Option Inconsistency
started_fault s =
    fails_if (not (s.attempt.phase == phase_created)) started_outside_created
    or_else fails_if (s.attempt.runner == nil_uuid) started_without_runner

unfoldable pub apply_build_started : State → State
unfolding observe
apply_build_started s0 =
    let s = observe (started_fault s0) s0 in
    record s { attempt = record s.attempt { phase = phase_building } }

unfoldable pub caught_up_fault : State → Option Inconsistency
caught_up_fault s =
    fails_if (not (s.attempt.phase == phase_building) && not (s.attempt.phase == phase_caught_up))
      caught_up_outside_phases

unfoldable pub apply_caught_up : CaughtUp → State → State
unfolding observe
apply_caught_up e s0 =
    let s = observe (caught_up_fault s0) s0 in
    record s {
      attempt = record s.attempt {
        phase = phase_caught_up;
        caught_up_at = e.at;
        caught_up_pos = e.position;
      };
    }

unfoldable pub promoted_fault : Promoted → State → Option Inconsistency
promoted_fault e s =
    fails_if (not (s.attempt.phase == phase_caught_up)) promoted_outside_caught_up
    or_else fails_if (not (id_eq e.previous s.live)) promoted_stale_previous
    or_else fails_if (not (id_eq e.next s.attempt.target)) promoted_other_target
    or_else fails_if (s.cutover_revision == max_int64) promoted_revision_exhausted
    or_else fails_if (not (e.revision == add64 s.cutover_revision 1)) promoted_out_of_sequence
    or_else fails_if (not (e.policy_generation == s.retirement_policy.generation))
        promoted_inactive_policy

unfoldable pub apply_promoted : Promoted → State → State
unfolding observe
apply_promoted e s0 =
    let s = observe (promoted_fault e s0) s0 in
    record s {
      live = e.next;
      cutover_revision = max64 s.cutover_revision e.revision;
      attempt = record s.attempt { phase = phase_promoted; promoted_at = e.at };
    }

unfoldable pub rolled_back_fault : RolledBack → State → Option Inconsistency
rolled_back_fault e s =
    fails_if (not (s.attempt.phase == phase_promoted)) rolled_back_outside_promoted
    or_else fails_if (not (id_eq e.rolled_from s.live)) rolled_back_stale_from
    or_else fails_if (id_eq s.attempt.previous zero_id) rolled_back_without_previous
    or_else fails_if (not (id_eq e.reverted_to s.attempt.previous)) rolled_back_other_previous
    or_else fails_if (s.cutover_revision == max_int64) rolled_back_revision_exhausted
    or_else fails_if (not (e.revision == add64 s.cutover_revision 1)) rolled_back_out_of_sequence

unfoldable pub apply_rolled_back : RolledBack → State → State
unfolding observe
apply_rolled_back e s0 =
    let s = observe (rolled_back_fault e s0) s0 in
    record s {
      live = e.reverted_to;
      cutover_revision = max64 s.cutover_revision e.revision;
      attempt = zero_attempt;
    }

unfoldable pub abandoned_fault : State → Option Inconsistency
abandoned_fault s =
    if is_before_promotion s.attempt.phase
    then none
    else (fails_if (s.attempt.phase == phase_none || is_after_promotion s.attempt.phase)
          abandoned_outside_phases
        or_else some abandoned_unknown_phase)

unfoldable pub apply_abandoned : State → State
unfolding observe
apply_abandoned s0 = let s = observe (abandoned_fault s0) s0 in record s { attempt = zero_attempt }

-- The two switches of RetireStarted.ApplyTo.
unfoldable pub retire_fault : RetireStarted → State → Option Inconsistency
retire_fault e s =
    fails_if (not (s.attempt.phase == phase_promoted)) retire_outside_promoted
    or_else fails_if (id_eq s.attempt.previous zero_id) retire_without_previous
    or_else fails_if (not (id_eq e.retiring s.attempt.previous)) retire_other_previous
    or_else fails_if (not (e.policy_generation == s.retirement_policy.generation))
        retire_inactive_policy

unfoldable pub retire_witness_fault : RetireStarted → State → Option Inconsistency
retire_witness_fault e s =
    if is_override e.override
    then (fails_if (is_empty e.override.actor || is_empty e.override.reason) override_incomplete
        or_else fails_if (not (is_empty e.witnesses) || not (is_empty e.receipts))
            override_with_witnesses)
    else if is_zero_policy s.retirement_policy
    then some retire_without_policy
    else if s.retirement_policy.unwitnessed
    then fails_if (not (is_empty e.witnesses) || not (is_empty e.receipts))
        unwitnessed_with_witnesses
    else if not (slices_equal e.witnesses s.retirement_policy.witnesses)
    then some retire_other_witnesses
    else wrap (λ _. retire_bad_receipts)
        (invalid_receipts e.receipts e.witnesses
          (record { live = s.live; revision = s.cutover_revision }))

unfoldable pub apply_retire_started : RetireStarted → State → State
unfolding observe
apply_retire_started e s0 =
    let s1 = observe (retire_fault e s0) s0 in
    let s = observe (retire_witness_fault e s1) s1 in
    record s {
      attempt = record s.attempt {
        phase = phase_retiring;
        retiring_at = e.at;
        retiring_witnesses = e.witnesses;
      };
    }

abbrev pub is_reserved : AttemptState → Bool
is_reserved a = a.phase == phase_retiring && not (id_eq a.previous zero_id)

abbrev pub is_first_version : AttemptState → Bool
is_first_version a = a.phase == phase_promoted && id_eq a.previous zero_id

unfoldable pub retired_fault : PreviousRetired → State → Option Inconsistency
retired_fault e s =
    let reserved = is_reserved s.attempt in
    let first_version = is_first_version s.attempt in
    fails_if (s.attempt.phase == phase_retiring && id_eq s.attempt.previous zero_id)
      retired_without_previous
    or_else fails_if (not reserved && not first_version) retired_outside_retiring
    or_else fails_if (not (id_eq e.retired s.attempt.previous)) retired_other_previous
    or_else fails_if (first_version && not (is_empty e.receipts)) retired_first_with_receipts
    or_else (if reserved
        then wrap (λ _. retired_bad_receipts)
            (invalid_receipts e.receipts s.attempt.retiring_witnesses
              (record { live = s.live; revision = s.cutover_revision }))
        else none)

unfoldable pub apply_previous_retired : PreviousRetired → State → State
unfolding observe
apply_previous_retired e s0 =
    let s = observe (retired_fault e s0) s0 in record s { attempt = zero_attempt }

unfoldable pub policy_fault : RetirementPolicySet → State → Option Inconsistency
policy_fault e s =
    fails_if (is_empty s.name) policy_before_name
    or_else fails_if (le64 (max_int64 - 1) s.retirement_policy.generation) policy_exhausted
    or_else fails_if (not (e.generation == add64 s.retirement_policy.generation 1))
        policy_discontinuous
    or_else fails_if (is_empty e.actor || is_empty e.reason) policy_without_actor
    or_else fails_if (e.unwitnessed && not (is_empty e.witnesses)) policy_both_modes
    or_else fails_if (not e.unwitnessed && is_empty e.witnesses) policy_neither_mode
    or_else wrap (λ _. policy_bad_witnesses) (invalid_witness_set e.witnesses)

unfoldable pub apply_retirement_policy_set : RetirementPolicySet → State → State
unfolding observe
apply_retirement_policy_set e s0 =
    let s = observe (policy_fault e s0) s0 in
    record s {
      retirement_policy = record {
        generation = e.generation;
        witnesses = e.witnesses;
        unwitnessed = e.unwitnessed;
      };
    }

-- DomainEvent.ApplyTo
unfoldable pub apply_to : DomainEvent → State → State
apply_to (rebuild_initiated e) = apply_rebuild_initiated e
apply_to (runner_claimed e) = apply_runner_claimed e
apply_to (runner_released e) = apply_runner_released e
apply_to build_started = apply_build_started
apply_to (caught_up e) = apply_caught_up e
apply_to (promoted e) = apply_promoted e
apply_to (rolled_back e) = apply_rolled_back e
apply_to (abandoned cause) = apply_abandoned
apply_to (retire_started e) = apply_retire_started e
apply_to (previous_retired e) = apply_previous_retired e
apply_to (retirement_policy_set e) = apply_retirement_policy_set e

-- The state after a history of events.
unfoldable pub fold : List DomainEvent → State → State
fold [] s = s
fold (e ∷ events) s = fold events (apply_to e s)
