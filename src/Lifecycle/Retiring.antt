-- ===== src/Lifecycle/Retiring.antt =====
-- projection/lifecycle/handle.go `Retire`: what it appends, over all its ways.
use estoria.Prelude.{
  ◌≡◌, refl, ◌⊎◌, inl, inr, true, false, not, ◌||◌, Option, none, List, [], ◌∷◌, arith, ◌==◌,
  Option-cases, Result-cases, Text, ok, fails_if, ◌or_else◌,
}
use estoria.TypeId.{Uuid}
use estoria.EventStore.{Time}
use estoria.Projection.{ProjectionId, id_eq}
use estoria.Lifecycle.Retirement.{RetirementOverride, WitnessReceipt}
use estoria.Lifecycle.State.{State, phase_none, phase_promoted, phase_retiring, is_after_promotion}
use estoria.Lifecycle.Events.{retire_started, previous_retired}
use estoria.Lifecycle.Commands.{
  View, check_lifecycle_aggregate, nothing_in_flight, wrong_phase, reservation_gone,
}
use estoria.Lifecycle.Commands.Retire.{
  Witness, Collaborators, vouch, RetireOption, apply_retire_options, retire_override, RetireStep,
  required_witnesses, reserve_retirement, complete_retirement, retire_checked, retire,
  retire_reserved,
}
use estoria.Lifecycle.Issued.{aims_at, Fits, one-Fits, checked-clean, InFlight-phase}
use estoria.Lifecycle.Retirements.{
  IsAudited, options-IsAudited, events_of, reserve-fault, complete-fault, first-fault,
}

complete-ok :
    (registered : Text → Option Witness) (s : State) (step : RetireStep)
    → complete_retirement registered s ≡ ok step
    → (receipts : List WitnessReceipt) × (vouch registered s.attempt.retiring_witnesses s
        ≡ ok receipts)
      × (previous_retired (record { retired = s.attempt.previous; receipts = receipts }) ∷ []
          ≡ events_of step)
unfolding complete_retirement events_of
complete-ok registered s step h =
    elim (Result-cases (vouch registered s.attempt.retiring_witnesses s)) [
      | inl (receipts, vouched) ↦ (receipts, vouched, ground (arith, vouched, h))
      | inr (e, failed) ↦ absurd (ground (arith, failed, h))
    ]

completed-Fits :
    (u : Text → Uuid) (registered : Text → Option Witness) (name : Text) (v : View)
    (step : RetireStep)
    → check_lifecycle_aggregate u v name ≡ none
    → (v.state.attempt.phase == phase_retiring) ≡ true
    → complete_retirement registered v.state ≡ ok step
    → Fits name (events_of step) v.state
unfolding aims_at
completed-Fits u registered name v step checked retiring h =
    let c = complete-ok registered v.state step h in
    let flight =
      InFlight-phase v.state (checked-clean u v name checked).0 (ground (arith, retiring)) in
    one-Fits u v name _ (events_of step) checked
      (complete-fault registered v.state c.0 retiring flight.1 c.1) refl c.2

reserve-ok :
    (registered : Text → Option Witness) (now : Time) (o : RetirementOverride) (s : State)
    (step : RetireStep)
    → reserve_retirement registered now o s ≡ ok step
    → (required : List Text) × (receipts : List WitnessReceipt) × (required_witnesses o s
        ≡ ok required)
      × (vouch registered required s ≡ ok receipts)
      × (retire_started (record {
        retiring = s.attempt.previous;
        policy_generation = s.retirement_policy.generation;
        witnesses = required;
        receipts = receipts;
        override = o;
        at = now;
      })
            ∷ []
          ≡ events_of step)
unfolding reserve_retirement events_of
reserve-ok registered now o s step h = elim (Result-cases (required_witnesses o s)) [
  | inr (e, failed) ↦ absurd (ground (arith, failed, h))
  | inl (required, asked) ↦ elim (Result-cases (vouch registered required s)) [
    | inr (e, failed) ↦ absurd (ground (arith, asked, failed, h))
    | inl (receipts, vouched) ↦
        (required, receipts, asked, vouched, ground (arith, asked, vouched, h))
  ]
]

reserved-Fits :
    (u : Text → Uuid) (registered : Text → Option Witness) (now : Time) (o : RetirementOverride)
    (name : Text) (v : View) (step : RetireStep)
    → check_lifecycle_aggregate u v name ≡ none
    → IsAudited o
    → (v.state.attempt.phase == phase_promoted) ≡ true
    → (v.state.attempt.previous.version == 0) ≡ false
    → reserve_retirement registered now o v.state ≡ ok step
    → Fits name (events_of step) v.state
unfolding aims_at
reserved-Fits u registered now o name v step checked audited there old h =
    let c = reserve-ok registered now o v.state step h in
    one-Fits u v name _ (events_of step) checked
      (reserve-fault registered now o v.state c.0 c.1 audited there old c.2 c.3) refl c.4

first-Fits :
    (u : Text → Uuid) (name : Text) (v : View) (step : RetireStep)
    → check_lifecycle_aggregate u v name ≡ none
    → is_after_promotion v.state.attempt.phase ≡ true
    → (v.state.attempt.previous.version == 0) ≡ true
    → previous_retired (record { retired = v.state.attempt.previous; receipts = [] }) ∷ []
      ≡ events_of step
    → Fits name (events_of step) v.state
unfolding aims_at
first-Fits u name v step checked after first h =
    let flight =
      InFlight-phase v.state (checked-clean u v name checked).0 (ground (arith, after)) in
    one-Fits u v name _ (events_of step) checked (first-fault v.state after first flight.1) refl h

-- The ways in which Retire goes on.
retire-cases :
    (u : Text → Uuid) (with : Collaborators) (now : Time) (name : Text) (o : RetirementOverride)
    (v : View) (step : RetireStep)
    → retire_checked u with now name o v ≡ ok step
    → (check_lifecycle_aggregate u v name ≡ none)
      × (is_after_promotion v.state.attempt.phase ≡ true)
      × (((v.state.attempt.previous.version == 0) ≡ true)
            × (previous_retired (record { retired = v.state.attempt.previous; receipts = [] }) ∷ []
                ≡ events_of step)
          ⊎ ((v.state.attempt.phase == phase_retiring) ≡ true)
            × (complete_retirement with.registered v.state ≡ ok step)
          ⊎ ((v.state.attempt.phase == phase_promoted) ≡ true)
            × ((v.state.attempt.previous.version == 0) ≡ false)
            × (reserve_retirement with.registered now o v.state ≡ ok step))
unfolding retire_checked events_of
retire-cases u with now name o v step h =
    elim (Option-cases (
      check_lifecycle_aggregate u v name
      or_else fails_if (v.state.attempt.phase == phase_none) nothing_in_flight
      or_else fails_if (not (is_after_promotion v.state.attempt.phase)) wrong_phase)) [
        | inr (e, refused) ↦ absurd (ground (arith, refused, h))
        | inl passed ↦ (ground (arith, passed), ground (arith, passed), ground (arith, passed, h))
      ]

pub retire-Fits :
    (u : Text → Uuid) (with : Collaborators) (now : Time) (name : Text) (opts : List RetireOption)
    (v : View) (step : RetireStep)
    → retire u with now name opts v ≡ ok step
    → Fits name (events_of step) v.state
unfolding retire retire_override IsAudited
retire-Fits u with now name opts v step h =
    elim (Result-cases (
      apply_retire_options opts
        (record { override = record { actor = []; reason = [] }; has_error = false }))) [
          | inr (e, failed) ↦ absurd (ground (arith, failed, h))
          | inl (d, done) ↦
              let audited = options-IsAudited opts _ d refl done in
              let c = retire-cases u with now name d.override v step (ground (arith, done, h)) in
              elim c.2 [
                | inl (first, events) ↦ first-Fits u name v step c.0 c.1 first events
                | inr (inl (retiring, goes_on)) ↦
                    completed-Fits u with.registered name v step c.0 retiring goes_on
                | inr (inr (there, old, reserves)) ↦
                    reserved-Fits u with.registered now d.override name v step c.0 audited there old
                      reserves
              ]
        ]

pub retire_reserved-Fits :
    (u : Text → Uuid) (with : Collaborators) (name : Text) (previous : ProjectionId) (v : View)
    (step : RetireStep)
    → retire_reserved u with name previous v ≡ ok step
    → Fits name (events_of step) v.state
unfolding retire_reserved
retire_reserved-Fits u with name previous v step h =
    elim (Option-cases (
      check_lifecycle_aggregate u v name
      or_else fails_if
          (not (v.state.attempt.phase == phase_retiring)
            || not (id_eq v.state.attempt.previous previous))
          reservation_gone)) [
            | inr (e, refused) ↦ absurd (ground (arith, refused, h))
            | inl passed ↦
                completed-Fits u with.registered name v step (ground (arith, passed))
                  (ground (arith, passed)) (ground (arith, passed, h))
          ]
