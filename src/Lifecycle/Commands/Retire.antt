-- ===== src/Lifecycle/Commands/Retire.antt =====
-- projection/lifecycle/handle.go `Retire`: the gate of witnesses and the events of a retirement. The
-- registered witnesses, the handlers and the teardown are arguments.
use estoria.Prelude.{
  Bool, true, false, not, ◌&&◌, ◌||◌, Option, none, some, List, [], ◌∷◌, ◌==◌, if◌then◌else◌,
  is_empty, Text, Result, ok, err, ◌>>=◌, fails_if, ◌or_else◌,
}
use estoria.TypeId.{Uuid}
use estoria.EventStore.{Time}
use estoria.Projection.{ProjectionId}
use estoria.Lifecycle.Retirement.{
  Cutover, RetirementOverride, WitnessReceipt, is_override, is_zero_policy, cutover_eq,
}
use estoria.Projection.{id_eq}
use estoria.Lifecycle.State.{State, phase_none, phase_retiring, is_after_promotion}
use estoria.Lifecycle.Events.{DomainEvent, retire_started, previous_retired}
use estoria.Lifecycle.Commands.{
  View, Refusal, check_lifecycle_aggregate, nothing_in_flight, wrong_phase, override_not_applicable,
  override_on_retry, no_policy, no_teardown, witnesses_missing, witness_failed, witness_elsewhere,
  reservation_gone, nil_option, bad_option,
}

-- The side AppliedCutover of a witness; `none` where it fails.
abbrev pub Witness : Type 0
Witness = Text → Option Cutover

-- The registered witnesses and, for each ID, whether its handler can be made and tear down.
pub record Collaborators : Type 0 where
  pub registered : Text → Option Witness
  pub can_tear_down : ProjectionId → Bool

-- The loop of resolveWitnesses: the IDs that are missing.
unfoldable pub missing_witnesses : (Text → Option Witness) → List Text → List Text
missing_witnesses registered [] = []
missing_witnesses registered (id ∷ ids) =
    let rest = missing_witnesses registered ids in
    elim (registered id) [ none ↦ id ∷ rest | some witness ↦ rest ]

-- resolveWitnesses
unfoldable pub resolve_witnesses : (Text → Option Witness) → List Text → Option Refusal
resolve_witnesses registered ids =
    let missing = missing_witnesses registered ids in
    fails_if (not (is_empty missing)) (witnesses_missing missing)

-- One turn of the loop of attest.
abbrev pub attest_one : Option Witness → Text → Text → Cutover → Result Refusal WitnessReceipt
attest_one none id name cutover = err (witnesses_missing (id ∷ []))
attest_one (some witness) id name cutover = elim (witness name) [
  | none ↦ err (witness_failed id)
  | some applied ↦
      if cutover_eq applied cutover
      then ok (record { witness = id; cutover = applied })
      else err (witness_elsewhere id)
]

-- attest, over IDs that resolveWitnesses has found.
unfoldable pub attest :
    (Text → Option Witness) → List Text → Text → Cutover → Result Refusal (List WitnessReceipt)
attest registered [] name cutover = ok []
attest registered (id ∷ ids) name cutover = do
  receipt ← attest_one (registered id) id name cutover
  rest ← attest registered ids name cutover
  ok (receipt ∷ rest)

-- The two gates: every required witness is registered and attests to the live cutover.
unfoldable pub vouch :
    (Text → Option Witness) → List Text → State → Result Refusal (List WitnessReceipt)
vouch registered required s = elim (resolve_witnesses registered required) [
  | some refusal ↦ err refusal
  | none ↦
      attest registered required s.name (record { live = s.live; revision = s.cutover_revision })
]

-- A RetireOption: nil, or WithRetirementOverride.
pub data RetireOption : Type 0 where
  nil_retire_option : RetireOption
  with_retirement_override : Text → Text → RetireOption

pub record RetireConfig : Type 0 where
  pub override : RetirementOverride
  pub has_error : Bool

unfoldable pub apply_retire_options : List RetireOption → RetireConfig → Result Refusal RetireConfig
apply_retire_options [] config = ok config
apply_retire_options (nil_retire_option ∷ opts) config = err nil_option
apply_retire_options (with_retirement_override actor reason ∷ opts) config =
    apply_retire_options opts (
      if is_empty actor || is_empty reason
      then record config { has_error = true }
      else record config { override = record { actor = actor; reason = reason } })

-- The override that the options of Retire ask for.
unfoldable pub retire_override : List RetireOption → Result Refusal RetirementOverride
retire_override opts = do
  config ←
      apply_retire_options opts
        (record { override = record { actor = []; reason = [] }; has_error = false })
  if config.has_error then err bad_option else ok config.override

-- What Retire does next: it completes, it reserves, or it goes on with a reservation.
pub data RetireStep : Type 0 where
  complete reserve : List DomainEvent → RetireStep

-- The members that a fresh retirement asks for.
unfoldable pub required_witnesses : RetirementOverride → State → Result Refusal (List Text)
required_witnesses override s =
    if is_override override
    then ok []
    else if is_zero_policy s.retirement_policy
    then err no_policy
    else if s.retirement_policy.unwitnessed
    then ok []
    else ok s.retirement_policy.witnesses

-- The reservation, from a state that is promoted.
unfoldable pub reserve_retirement :
    (Text → Option Witness) → Time → RetirementOverride → State → Result Refusal RetireStep
reserve_retirement registered now override s = do
  required ← required_witnesses override s
  receipts ← vouch registered required s
  ok (
      reserve (
        retire_started (record {
          retiring = s.attempt.previous;
          policy_generation = s.retirement_policy.generation;
          witnesses = required;
          receipts = receipts;
          override = override;
          at = now;
        })
        ∷ []))

-- The completion, once the captured members have vouched.
unfoldable pub complete_retirement : (Text → Option Witness) → State → Result Refusal RetireStep
complete_retirement registered s = do
  receipts ← vouch registered s.attempt.retiring_witnesses s
  ok (
      complete
        (previous_retired (record { retired = s.attempt.previous; receipts = receipts }) ∷ []))

-- Retire behind its options, up to its first append or its teardown.
unfoldable pub retire_checked :
    (Text → Uuid)
    → Collaborators
    → Time
    → Text
    → RetirementOverride
    → View
    → Result Refusal RetireStep
retire_checked stream_uuid with now name override v =
    let s = v.state in
    let retiring = s.attempt.phase == phase_retiring in
    elim (check_lifecycle_aggregate stream_uuid v name
      or_else fails_if (s.attempt.phase == phase_none) nothing_in_flight
      or_else fails_if (not (is_after_promotion s.attempt.phase)) wrong_phase) [
        | some refusal ↦ err refusal
        | none ↦
            if s.attempt.previous.version == 0
            then (if is_override override
                then err override_not_applicable
                else ok (
                    complete (
                      previous_retired (record { retired = s.attempt.previous; receipts = [] })
                      ∷ [])))
            else if not (with.can_tear_down s.attempt.previous)
            then err no_teardown
            else if retiring && is_override override
            then err override_on_retry
            else if retiring
            then complete_retirement with.registered s
            else reserve_retirement with.registered now override s
      ]

unfoldable pub retire :
    (Text → Uuid)
    → Collaborators
    → Time
    → Text
    → List RetireOption
    → View
    → Result Refusal RetireStep
retire stream_uuid with now name opts v =
    retire_override opts >>= λ override. retire_checked stream_uuid with now name override v

-- reattestReservation and the completion after it, on the view that the refold gives.
unfoldable pub retire_reserved :
    (Text → Uuid) → Collaborators → Text → ProjectionId → View → Result Refusal RetireStep
retire_reserved stream_uuid with name previous v =
    let s = v.state in
    elim (check_lifecycle_aggregate stream_uuid v name
      or_else fails_if
          (not (s.attempt.phase == phase_retiring) || not (id_eq s.attempt.previous previous))
          reservation_gone) [
            | some refusal ↦ err refusal
            | none ↦ complete_retirement with.registered s
          ]
