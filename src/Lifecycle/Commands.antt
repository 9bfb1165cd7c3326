-- ===== src/Lifecycle/Commands.antt =====
-- projection/lifecycle/orchestrator.go and handle.go: what each command asks of the lifecycle that it has
-- read and which events it appends. The UUIDs that are drawn, the times and what other collaborators
-- answer are arguments; reading the stream, the append and what follows it are not part of this.
pub mod Retire
use estoria.Prelude.{
  ℕ, zero, suc, ◌+◌, ◌-◌, ◌*◌, ◌/◌, ◌%◌, ◌^◌, ◌≤◌, ◌<◌, min, ◌≡◌, refl, sym, ap, ◌∙◌, subst, ◌≢◌,
  ◌↔◌, ◌⊎◌, inl, inr, Bool, true, false, not, ◌&&◌, ◌||◌, Option, none, some, List, [], ◌∷◌, ◌++◌,
  map, append-nil, append_assoc, arith, ltb, leb, ◌==◌, if◌then◌else◌, ==_iff, Bool-cases,
  Option-cases, Result-cases, length, is_empty, get_elem?, take, drop, length-append, length-drop,
  take-append-drop, take-append, drop-append, All, All-append, All-imp, Int64, int64_mod, int64_neg,
  max_int64, add64, sub64, lt64, le64, max64, min64, add64_lem, sub64_lem, lt64_lem, le64_lem,
  max64-eq, Text, codes, text_eq, text_lt, text_eq_iff, has_prefix, has_suffix, Result, ok, err,
  ◌>>=◌, map_err, Dict, lookup, insert, erase, lookup-insert, lookup-erase, fails_if, ◌or_else◌,
  wrap, or_else-none, or_else-eq_none,
}
use estoria.TypeId.{Uuid, nil_uuid, TypedId}
use estoria.EventStore.{Time}
use estoria.Projection.{ProjectionId, IdError, validate_id}
use estoria.Lifecycle.Retirement.{WitnessError, invalid_witness_set}
use estoria.Lifecycle.State.{
  Phase, State, Invalid, validate, phase_none, phase_created, phase_caught_up, phase_promoted,
  phase_retiring, is_before_promotion,
}
use estoria.Lifecycle.Events.{
  DomainEvent, rebuild_initiated, runner_claimed, runner_released, build_started, caught_up,
  CaughtUp, promoted, rolled_back, abandoned, retirement_policy_set, RunnerTakeover, is_takeover,
  is_standing, is_in_flight,
}

-- reservedstream.ProjectionStreamType
abbrev pub stream_type : Text
stream_type = codes "estoria.projection"

-- The lifecycle aggregate that a command looks at.
pub record View : Type 0 where
  pub id : TypedId
  pub version : Int64
  pub state : State

pub data Refusal : Type 0 where
  wrong_stream_type wrong_stream other_projection uninitialized_state : Refusal
  invalid_state : Invalid → Refusal
  rebuild_in_flight nothing_in_flight wrong_phase : Refusal
  bad_projection_id : IdError → Refusal
  policy_without_authority policy_with_both policy_with_neither generation_exhausted : Refusal
  bad_policy_witnesses : WitnessError → Refusal
  handle_revoked run_stopped no_certificate other_attempt other_claimant : Refusal
  other_position lifecycle_advanced other_processor processor_gone : Refusal
  cutovers_exhausted no_previous claim_standing checkpoint_unreadable : Refusal
  override_not_applicable override_on_retry no_policy no_teardown : Refusal
  witnesses_missing : List Text → Refusal
  witness_failed witness_elsewhere : Text → Refusal
  reservation_gone nil_option bad_option lifecycle_not_found : Refusal

-- The events of a command whose checks pass.
abbrev pub issue : Option Refusal → List DomainEvent → Result Refusal (List DomainEvent)
issue none events = ok events
issue (some refusal) events = err refusal

-- checkLifecycleAggregate
unfoldable pub check_lifecycle_aggregate : (Text → Uuid) → View → Text → Option Refusal
check_lifecycle_aggregate stream_uuid v name =
    fails_if (not (text_eq v.id.type_name stream_type)) wrong_stream_type
    or_else fails_if (not (v.id.uuid == stream_uuid name)) wrong_stream
    or_else fails_if (not (is_empty v.state.name) && not (text_eq v.state.name name))
        other_projection
    or_else wrap invalid_state (validate v.state)
    or_else fails_if (lt64 0 v.version && is_empty v.state.name) uninitialized_state

-- loadAggregate: Load finds no aggregate where its stream has no events.
unfoldable pub load_aggregate : (Text → Uuid) → View → Text → Option Refusal
load_aggregate stream_uuid v name =
    fails_if (not (lt64 0 v.version)) lifecycle_not_found
    or_else check_lifecycle_aggregate stream_uuid v name

-- Begin: `fresh` is the UUID of the attempt.
unfoldable pub begin_rebuild :
    (Text → Uuid) → Uuid → Time → Text → Text → View → Result Refusal (List DomainEvent)
begin_rebuild stream_uuid fresh now name reason v =
    let target : ProjectionId = record { name = name; version = add64 v.state.allocated 1 } in
    issue
      (check_lifecycle_aggregate stream_uuid v name
        or_else fails_if (not (v.state.attempt.phase == phase_none)) rebuild_in_flight
        or_else wrap bad_projection_id (validate_id target))
      (rebuild_initiated (record {
        attempt = fresh;
        target = target;
        previous = v.state.live;
        reason = reason;
        at = now;
      })
        ∷ [])

pub record RetirementPolicyChange : Type 0 where
  pub witnesses : List Text
  pub unwitnessed : Bool
  pub reason : Text
  pub actor : Text

-- slices.Sort: equal strings cannot be told apart, so that any sort gives the same.
unfoldable pub insert_text : Text → List Text → List Text
insert_text x [] = x ∷ []
insert_text x (y ∷ ys) = let rest = insert_text x ys in if text_lt y x then y ∷ rest else x ∷ y ∷ ys

unfoldable pub sort_texts : List Text → List Text
sort_texts [] = []
sort_texts (x ∷ xs) = insert_text x (sort_texts xs)

-- SetRetirementPolicy
unfoldable pub set_retirement_policy :
    (Text → Uuid) → Time → Text → RetirementPolicyChange → View → Result Refusal (List DomainEvent)
set_retirement_policy stream_uuid now name change v =
    let witnesses = sort_texts change.witnesses in
    let current = v.state.retirement_policy.generation in
    issue
      (fails_if (is_empty change.actor || is_empty change.reason) policy_without_authority
        or_else fails_if (change.unwitnessed && not (is_empty change.witnesses)) policy_with_both
        or_else fails_if (not change.unwitnessed && is_empty change.witnesses) policy_with_neither
        or_else wrap bad_policy_witnesses (invalid_witness_set witnesses)
        or_else load_aggregate stream_uuid v name
        or_else fails_if (le64 (max_int64 - 1) current) generation_exhausted)
      (retirement_policy_set (record {
        generation = add64 current 1;
        witnesses = witnesses;
        unwitnessed = change.unwitnessed;
        reason = change.reason;
        actor = change.actor;
        at = now;
      })
        ∷ [])

-- What the load of a checkpoint answers.
pub data CheckpointLoad : Type 0 where
  checkpoint_at : Int64 → CheckpointLoad
  checkpoint_missing checkpoint_failed : CheckpointLoad

abbrev pub position_of : CheckpointLoad → Int64
position_of (checkpoint_at p) = p
position_of checkpoint_missing = 0
position_of checkpoint_failed = 0

abbrev pub load_fails : CheckpointLoad → Bool
load_fails (checkpoint_at p) = false
load_fails checkpoint_missing = false
load_fails checkpoint_failed = true

abbrev pub no_takeover : RunnerTakeover
no_takeover = record { actor = []; reason = [] }

-- A RunOption: nil, or WithTakeover.
pub data RunOption : Type 0 where
  nil_run_option : RunOption
  with_takeover : Text → Text → RunOption

pub record RunConfig : Type 0 where
  pub takeover : RunnerTakeover
  pub has_error : Bool

unfoldable pub apply_run_options : List RunOption → RunConfig → Result Refusal RunConfig
apply_run_options [] config = ok config
apply_run_options (nil_run_option ∷ opts) config = err nil_option
apply_run_options (with_takeover actor reason ∷ opts) config = apply_run_options opts (
    if is_empty actor || is_empty reason
    then record config { has_error = true }
    else record config { takeover = record { actor = actor; reason = reason } })

-- The takeover that the options of Run ask for.
unfoldable pub run_takeover : List RunOption → Result Refusal RunnerTakeover
run_takeover opts = do
  config ← apply_run_options opts (record { takeover = no_takeover; has_error = false })
  if config.has_error then err bad_option else ok config.takeover

-- The claim of Run, behind its options: `fresh` is the UUID of the runner.
unfoldable pub claim_run :
    (Text → Uuid)
    → Uuid
    → Time
    → CheckpointLoad
    → Text
    → RunnerTakeover
    → View
    → Result Refusal (List DomainEvent)
claim_run stream_uuid fresh now checkpoint name takeover v =
    let a = v.state.attempt in
    let created = a.phase == phase_created in
    let claim = runner_claimed (record {
      attempt = a.id;
      runner = fresh;
      from_position = if created then 0 else position_of checkpoint;
      takeover = if is_standing a then takeover else no_takeover;
      at = now;
    }) in
    issue
      (check_lifecycle_aggregate stream_uuid v name
        or_else fails_if (is_standing a && not (is_takeover takeover)) claim_standing
        or_else fails_if (a.phase == phase_none) nothing_in_flight
        or_else fails_if (not (is_in_flight a.phase)) wrong_phase
        or_else fails_if (not created && load_fails checkpoint) checkpoint_unreadable)
      (if created then claim ∷ build_started ∷ [] else claim ∷ [])

-- Run, up to its first append.
unfoldable pub run :
    (Text → Uuid)
    → Uuid
    → Time
    → CheckpointLoad
    → Text
    → List RunOption
    → View
    → Result Refusal (List DomainEvent)
run stream_uuid fresh now checkpoint name opts v =
    run_takeover opts >>= λ takeover. claim_run stream_uuid fresh now checkpoint name takeover v

-- releaseClaim: no events where there is nothing to release.
unfoldable pub release_claim : (Text → Uuid) → Uuid → Time → Text → View → List DomainEvent
release_claim stream_uuid runner now name v =
    let a = v.state.attempt in
    if a.phase == phase_none || not (a.runner == runner) || a.released
    then []
    else elim (check_lifecycle_aggregate stream_uuid v name) [
      | some refusal ↦ []
      | none ↦ runner_released (record { attempt = a.id; runner = runner; at = now }) ∷ []
    ]

-- recordCatchUp: no events where the run was stopped or its processor has exited.
unfoldable pub record_catch_up : Bool → Bool → CaughtUp → List DomainEvent
record_catch_up stopped exited e = if stopped || exited then [] else caught_up e ∷ []

pub record Certification : Type 0 where
  pub attempt : Uuid
  pub runner : Uuid
  pub position : Int64
  pub version : Int64
  pub exited : ℕ

-- What Promote reads of the handle: a channel is a number, and `has_exited` is whether the channel
-- of the certificate is closed.
pub record License : Type 0 where
  pub certificate : Option Certification
  pub has_failed : Bool
  pub stopped : Bool
  pub processor_exited : ℕ
  pub has_exited : Bool

-- The checks of Promote on a certificate.
unfoldable pub check_certificate : License → Certification → View → Option Refusal
check_certificate l c v =
    fails_if (not (c.attempt == v.state.attempt.id)) other_attempt
    or_else fails_if (not (c.runner == v.state.attempt.runner)) other_claimant
    or_else fails_if (not (c.position == v.state.attempt.caught_up_pos)) other_position
    or_else fails_if (not (c.version == v.version)) lifecycle_advanced
    or_else fails_if (not (c.exited == l.processor_exited)) other_processor
    or_else fails_if l.has_exited processor_gone

unfoldable pub check_license : License → View → Option Refusal
check_license l v =
    fails_if l.has_failed handle_revoked
    or_else fails_if l.stopped run_stopped
    or_else (elim l.certificate [ none ↦ some no_certificate | some c ↦ check_certificate l c v ])

-- Promote
unfoldable pub promote :
    (Text → Uuid) → Time → Text → License → View → Result Refusal (List DomainEvent)
promote stream_uuid now name l v =
    let s = v.state in
    issue
      (check_lifecycle_aggregate stream_uuid v name
        or_else fails_if (s.attempt.phase == phase_none) nothing_in_flight
        or_else fails_if (not (s.attempt.phase == phase_caught_up)) wrong_phase
        or_else check_license l v
        or_else fails_if (s.cutover_revision == max_int64) cutovers_exhausted)
      (promoted (record {
        previous = s.live;
        next = s.attempt.target;
        revision = add64 s.cutover_revision 1;
        policy_generation = s.retirement_policy.generation;
        at = now;
      })
        ∷ [])

-- Rollback
unfoldable pub rollback : (Text → Uuid) → Time → Text → View → Result Refusal (List DomainEvent)
rollback stream_uuid now name v =
    let s = v.state in
    issue
      (check_lifecycle_aggregate stream_uuid v name
        or_else fails_if (s.attempt.phase == phase_none) nothing_in_flight
        or_else fails_if (not (s.attempt.phase == phase_promoted)) wrong_phase
        or_else fails_if (s.attempt.previous.version == 0) no_previous
        or_else fails_if (s.cutover_revision == max_int64) cutovers_exhausted)
      (rolled_back (record {
        rolled_from = s.live;
        reverted_to = s.attempt.previous;
        revision = add64 s.cutover_revision 1;
        at = now;
      })
        ∷ [])

-- Abandon
unfoldable pub abandon : (Text → Uuid) → Text → Text → View → Result Refusal (List DomainEvent)
abandon stream_uuid name cause v =
    issue
      (check_lifecycle_aggregate stream_uuid v name
        or_else fails_if (v.state.attempt.phase == phase_none) nothing_in_flight
        or_else fails_if (not (is_before_promotion v.state.attempt.phase)) wrong_phase)
      (abandoned cause ∷ [])
