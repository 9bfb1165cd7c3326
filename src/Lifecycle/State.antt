-- ===== src/Lifecycle/State.antt =====
-- projection/lifecycle/state.go: the state of a lifecycle and what makes it valid.
use estoria.Prelude.{
  ◌/◌, ◌%◌, Bool, false, not, ◌&&◌, ◌||◌, Option, none, some, List, [], ◌==◌, if◌then◌else◌,
  is_empty, Int64, sub64, lt64, le64, Text, text_eq, fails_if, ◌or_else◌, wrap,
}
use estoria.TypeId.{Uuid, nil_uuid}
use estoria.EventStore.{Time}
use estoria.Projection.{ProjectionId, IdError, zero_id, id_eq, validate_id}
use estoria.Lifecycle.Retirement.{
  RetirementPolicy, zero_policy, is_zero_policy, validate_policy, PolicyError, WitnessError,
  invalid_witness_set, slices_equal,
}

-- Phase is an `int`; these are its named values.
abbrev pub Phase : Type 0
Phase = Int64

abbrev pub phase_none : Phase
phase_none = 0

abbrev pub phase_created : Phase
phase_created = 1

abbrev pub phase_building : Phase
phase_building = 2

abbrev pub phase_caught_up : Phase
phase_caught_up = 3

abbrev pub phase_promoted : Phase
phase_promoted = 4

abbrev pub phase_retiring : Phase
phase_retiring = 5

-- What the fold may observe: one constructor for each message given to `poison`.
pub data Inconsistency : Type 0 where
  initiated_without_id initiated_bad_target initiated_while_occupied : Inconsistency
  initiated_other_name initiated_stale_previous initiated_out_of_sequence : Inconsistency
  claim_without_attempt claim_without_runner claim_other_attempt : Inconsistency
  claim_without_rebuild claim_unknown_phase : Inconsistency
  takeover_incomplete claim_over_standing takeover_without_standing : Inconsistency
  release_without_attempt release_without_runner release_other_attempt : Inconsistency
  release_other_runner release_again release_without_rebuild release_unknown_phase : Inconsistency
  started_outside_created started_without_runner : Inconsistency
  caught_up_outside_phases : Inconsistency
  promoted_outside_caught_up promoted_stale_previous promoted_other_target : Inconsistency
  promoted_revision_exhausted promoted_out_of_sequence promoted_inactive_policy : Inconsistency
  rolled_back_outside_promoted rolled_back_stale_from rolled_back_without_previous : Inconsistency
  rolled_back_other_previous rolled_back_revision_exhausted rolled_back_out_of_sequence :
      Inconsistency
  abandoned_outside_phases abandoned_unknown_phase : Inconsistency
  retire_outside_promoted retire_without_previous retire_other_previous : Inconsistency
  retire_inactive_policy override_incomplete override_with_witnesses : Inconsistency
  retire_without_policy unwitnessed_with_witnesses retire_other_witnesses : Inconsistency
  retire_bad_receipts : Inconsistency
  retired_without_previous retired_outside_retiring retired_other_previous : Inconsistency
  retired_first_with_receipts retired_bad_receipts : Inconsistency
  policy_before_name policy_exhausted policy_discontinuous policy_without_actor : Inconsistency
  policy_both_modes policy_neither_mode policy_bad_witnesses : Inconsistency

pub record AttemptState : Type 0 where
  pub id : Uuid
  pub target : ProjectionId
  pub previous : ProjectionId
  pub phase : Phase
  pub reason : Text
  pub runner : Uuid
  pub released : Bool
  pub released_at : Time
  pub initiated_at : Time
  pub claimed_at : Time
  pub caught_up_at : Time
  pub caught_up_pos : Int64
  pub promoted_at : Time
  pub retiring_at : Time
  pub retiring_witnesses : List Text

-- AttemptState{}
abbrev pub zero_attempt : AttemptState
zero_attempt = record {
  id = nil_uuid;
  target = zero_id;
  previous = zero_id;
  phase = phase_none;
  reason = [];
  runner = nil_uuid;
  released = false;
  released_at = 0;
  initiated_at = 0;
  claimed_at = 0;
  caught_up_at = 0;
  caught_up_pos = 0;
  promoted_at = 0;
  retiring_at = 0;
  retiring_witnesses = [];
}

-- `invalid_reason` is `none` where the source has "".
pub record State : Type 0 where
  pub name : Text
  pub live : ProjectionId
  pub cutover_revision : Int64
  pub allocated : Int64
  pub attempt : AttemptState
  pub retirement_policy : RetirementPolicy
  pub invalid_reason : Option Inconsistency

-- NewState
abbrev pub new_state : State
new_state = record {
  name = [];
  live = zero_id;
  cutover_revision = 0;
  allocated = 0;
  attempt = zero_attempt;
  retirement_policy = zero_policy;
  invalid_reason = none;
}

-- AttemptState.Vacant
unfoldable pub vacant : AttemptState → Bool
vacant a =
    a.id == nil_uuid
    && id_eq a.target zero_id
    && id_eq a.previous zero_id
    && a.phase == phase_none
    && is_empty a.reason
    && a.runner == nil_uuid
    && not a.released
    && a.initiated_at == 0
    && a.claimed_at == 0
    && a.caught_up_at == 0
    && a.caught_up_pos == 0
    && a.promoted_at == 0
    && a.retiring_at == 0
    && a.released_at == 0
    && is_empty a.retiring_witnesses

-- The first observation stays.
abbrev pub first_reason : Option Inconsistency → Inconsistency → Inconsistency
first_reason none msg = msg
first_reason (some first) msg = first

unfoldable pub poison : State → Inconsistency → State
poison s msg = record s { invalid_reason = some (first_reason s.invalid_reason msg) }

pub data RestError : Type 0 where
  cutovers_without_live live_without_cutover too_many_cutovers even_at_first max_at_later :
      RestError

pub data Invalid : Type 0 where
  inconsistent_event : Inconsistency → Invalid
  unnamed_not_empty no_allocation foreign_live live_not_allocated : Invalid
  revision_without_live live_without_revision : Invalid
  bad_policy : PolicyError → Invalid
  bad_name bad_live bad_target bad_previous : IdError → Invalid
  bad_history : RestError → Invalid
  phaseless_attempt unknown_attempt_phase stray_witnesses : Invalid
  bad_captured_witnesses : WitnessError → Invalid
  captured_without_policy captured_unwitnessed captured_diverge : Invalid
  attempt_without_id foreign_target stale_target without_runner released_without_runner : Invalid
  foreign_previous previous_not_older live_not_previous live_not_target : Invalid
  retiring_without_previous uninitialized_snapshot : Invalid

-- The divisions are reached with a number that is not negative.
unfoldable pub unreachable_rest : ProjectionId → Int64 → Int64 → Option RestError
unreachable_rest live recorded completed =
    fails_if (id_eq live zero_id && not (recorded == 0)) cutovers_without_live
    or_else fails_if (not (id_eq live zero_id) && lt64 recorded 1) live_without_cutover
    or_else fails_if (lt64 0 recorded && le64 completed (recorded / 2)) too_many_cutovers
    or_else fails_if (live.version == 1 && recorded % 2 == 0) even_at_first
    or_else fails_if (lt64 1 live.version && le64 (sub64 completed 1) (sub64 recorded 1 / 2))
        max_at_later

-- The phases of an attempt that has not been promoted, and of one that has.
abbrev pub is_before_promotion : Phase → Bool
is_before_promotion p = p == phase_created || p == phase_building || p == phase_caught_up

abbrev pub is_after_promotion : Phase → Bool
is_after_promotion p = p == phase_promoted || p == phase_retiring

-- The checks of validateAttempt on captured witnesses.
unfoldable pub validate_captured : List Text → RetirementPolicy → Option Invalid
validate_captured captured policy =
    fails_if (not (is_empty captured) && policy.generation == 0) captured_without_policy
    or_else fails_if (not (is_empty captured) && policy.generation == 1 && policy.unwitnessed)
        captured_unwitnessed
    or_else fails_if
        (not (is_empty captured)
          && policy.generation == 1
          && not (slices_equal captured policy.witnesses))
        captured_diverge

-- Those on the previous version.
unfoldable pub validate_previous : State → Option Invalid
validate_previous s =
    let a = s.attempt in
    if id_eq a.previous zero_id
    then none
    else (wrap bad_previous (validate_id a.previous)
        or_else fails_if (not (text_eq a.previous.name s.name)) foreign_previous
        or_else fails_if (le64 a.target.version a.previous.version) previous_not_older)

-- Those on the live version, by phase.
unfoldable pub validate_live_by_phase : State → Option Invalid
validate_live_by_phase s =
    let a = s.attempt in
    fails_if (is_before_promotion a.phase && not (id_eq s.live a.previous)) live_not_previous
    or_else fails_if (is_after_promotion a.phase && not (id_eq s.live a.target)) live_not_target
    or_else fails_if (a.phase == phase_retiring && id_eq a.previous zero_id)
        retiring_without_previous

-- The checks of validateAttempt on an attempt in flight.
unfoldable pub validate_in_flight : State → Option Invalid
validate_in_flight s =
    let a = s.attempt in
    fails_if (not (is_before_promotion a.phase || is_after_promotion a.phase)) unknown_attempt_phase
    or_else fails_if (not (a.phase == phase_retiring) && not (is_empty a.retiring_witnesses))
        stray_witnesses
    or_else wrap bad_captured_witnesses (invalid_witness_set a.retiring_witnesses)
    or_else validate_captured a.retiring_witnesses s.retirement_policy
    or_else fails_if (a.id == nil_uuid) attempt_without_id
    or_else wrap bad_target (validate_id a.target)
    or_else fails_if (not (text_eq a.target.name s.name)) foreign_target
    or_else fails_if (not (a.target.version == s.allocated)) stale_target
    or_else fails_if (not (a.phase == phase_created) && a.runner == nil_uuid) without_runner
    or_else fails_if (a.released && a.runner == nil_uuid) released_without_runner
    or_else validate_previous s
    or_else validate_live_by_phase s

unfoldable pub validate_attempt : State → Option Invalid
validate_attempt s =
    if s.attempt.phase == phase_none
    then fails_if (not (vacant s.attempt)) phaseless_attempt
    else validate_in_flight s

-- The checks of validate on the live version.
unfoldable pub validate_live : State → Option Invalid
validate_live s =
    if id_eq s.live zero_id
    then none
    else (wrap bad_live (validate_id s.live)
        or_else fails_if (not (text_eq s.live.name s.name)) foreign_live
        or_else fails_if (lt64 s.allocated s.live.version) live_not_allocated)

-- The rest state behind the attempt in flight, or the present one.
unfoldable pub validate_rest : State → Option Invalid
validate_rest s =
    let occupied = not (vacant s.attempt) in
    let promoted = occupied && is_after_promotion s.attempt.phase in
    wrap bad_history (
      unreachable_rest (if promoted then s.attempt.previous else s.live)
        (if promoted then sub64 s.cutover_revision 1 else s.cutover_revision)
        (if occupied then sub64 s.allocated 1 else s.allocated))

-- The checks of validate on a state that records a name.
unfoldable pub validate_named : State → Option Invalid
validate_named s =
    wrap bad_policy (validate_policy s.retirement_policy)
    or_else wrap bad_name (validate_id (record { name = s.name; version = 1 }))
    or_else fails_if (lt64 s.allocated 1) no_allocation
    or_else validate_live s
    or_else fails_if (id_eq s.live zero_id && not (s.cutover_revision == 0)) revision_without_live
    or_else fails_if (not (id_eq s.live zero_id) && lt64 s.cutover_revision 1) live_without_revision
    or_else validate_rest s
    or_else validate_attempt s

-- State.validate
unfoldable pub validate : State → Option Invalid
validate s =
    wrap inconsistent_event s.invalid_reason
    or_else (if is_empty s.name
        then fails_if
            (not (s.allocated == 0)
              || not (id_eq s.live zero_id)
              || not (s.cutover_revision == 0)
              || not (vacant s.attempt)
              || not (is_zero_policy s.retirement_policy))
            unnamed_not_empty
        else validate_named s)

-- State.ValidateSnapshotState
unfoldable pub validate_snapshot_state : State → Option Invalid
validate_snapshot_state s = elim s.invalid_reason [
  | some first ↦ none
  | none ↦ validate s or_else fails_if (is_empty s.name) uninitialized_snapshot
]
