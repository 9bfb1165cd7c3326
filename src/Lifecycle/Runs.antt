-- ===== src/Lifecycle/Runs.antt =====
-- projection/lifecycle/handle.go `Run` and `releaseClaim`: the claims of runners against the checks of the
-- fold.
use estoria.Prelude.{
  ◌≡◌, refl, sym, ap, ◌∙◌, inl, inr, true, false, not, ◌&&◌, ◌||◌, none, List, [], ◌∷◌, arith, ◌==◌,
  if◌then◌else◌, Bool-cases, Option-cases, Result-cases, is_empty, Int64, Text, ok,
}
use estoria.TypeId.{Uuid, nil_uuid}
use estoria.EventStore.{Time}
use estoria.Lifecycle.State.{State, phase_none, phase_created}
use estoria.Lifecycle.Events.{
  DomainEvent, runner_claimed, runner_released, build_started, RunnerTakeover, RunnerClaimed,
  is_takeover, is_standing, is_in_flight, started_fault, claim_ids_fault, claim_phase_fault,
  claim_takeover_fault, release_ids_fault, release_phase_fault, fold, apply_to,
}
use estoria.Lifecycle.Poison.{effect, fault, apply_to-clean}
use estoria.Lifecycle.Sound.{InFlight}
use estoria.Lifecycle.Commands.{
  View, check_lifecycle_aggregate, CheckpointLoad, claim_run, release_claim, no_takeover,
  position_of, RunConfig, RunOption, nil_run_option, with_takeover, apply_run_options, run_takeover,
  run,
}
use estoria.Lifecycle.Issued.{
  aims_at, all_aim, Fits, checked-clean, issue-ok, reason-one, one-Fits, InFlight-phase,
}

release-events :
    (u : Text → Uuid) (runner : Uuid) (now : Time) (name : Text) (v : View)
    (events : List DomainEvent)
    → is_empty events ≡ false
    → release_claim u runner now name v ≡ events
    → (check_lifecycle_aggregate u v name ≡ none)
      × ((v.state.attempt.phase == phase_none) ≡ false)
      × ((v.state.attempt.runner == runner) ≡ true)
      × (v.state.attempt.released ≡ false)
      × (runner_released (record { attempt = v.state.attempt.id; runner = runner; at = now }) ∷ []
          ≡ events)
unfolding release_claim
release-events u runner now name v events some_event h =
    elim (Option-cases (check_lifecycle_aggregate u v name)) [
      | inl none_seen ↦ ground (arith, none_seen, some_event, h)
      | inr (r, seen) ↦ absurd (ground (arith, seen, some_event, h))
    ]

pub release-Fits :
    (u : Text → Uuid) (runner : Uuid) (now : Time) (name : Text) (v : View)
    (events : List DomainEvent)
    → (runner == nil_uuid) ≡ false
    → is_empty events ≡ false
    → release_claim u runner now name v ≡ events
    → Fits name events v.state
unfolding fault release_ids_fault release_phase_fault aims_at
release-Fits u runner now name v events drawn some_event h =
    let p = release-events u runner now name v events some_event h in
    let flight = InFlight-phase v.state (checked-clean u v name p.0).0 p.1 in
    one-Fits u v name _ events p.0
      (ground (arith, p.1, p.2, p.3, drawn, flight.0, flight.1.identified)) refl p.4

-- A takeover that is not half written.
IsWhole : RunnerTakeover → Type 0
IsWhole t = (is_takeover t && (is_empty t.actor || is_empty t.reason)) ≡ false

options-IsWhole :
    (opts : List RunOption) (c d : RunConfig)
    → IsWhole c.takeover
    → apply_run_options opts c ≡ ok d
    → IsWhole d.takeover
unfolding IsWhole apply_run_options
options-IsWhole [] c d whole h = ground (arith, whole, h)
options-IsWhole (nil_run_option ∷ opts) c d whole h = absurd (ground arith)
options-IsWhole (with_takeover actor reason ∷ opts) c d whole h =
    options-IsWhole opts _ d (ground (arith, whole)) h

claim-fault :
    (fresh : Uuid) (now : Time) (t : RunnerTakeover) (v : View) (position : Int64)
    → (fresh == nil_uuid) ≡ false
    → IsWhole t
    → (is_standing v.state.attempt && not (is_takeover t)) ≡ false
    → is_in_flight v.state.attempt.phase ≡ true
    → InFlight v.state
    → fault
        (runner_claimed (record {
          attempt = v.state.attempt.id;
          runner = fresh;
          from_position = position;
          takeover = if is_standing v.state.attempt then t else no_takeover;
          at = now;
        }))
        v.state
      ≡ none
unfolding IsWhole fault claim_ids_fault claim_phase_fault claim_takeover_fault
claim-fault fresh now t v position drawn whole standing busy f =
    ground (arith, drawn, whole, standing, busy, f.identified)

started-after :
    (claim : RunnerClaimed) (s : State)
    → (s.attempt.phase == phase_created) ≡ true
    → (claim.runner == nil_uuid) ≡ false
    → s.invalid_reason ≡ none
    → fault (runner_claimed claim) s ≡ none
    → (fold (runner_claimed claim ∷ build_started ∷ []) s).invalid_reason ≡ none
unfolding fold fault started_fault effect
started-after claim s created drawn clean fit =
    let after =
      apply_to-clean (runner_claimed claim) s (reason-one (runner_claimed claim) s clean fit) in
    reason-one build_started (apply_to (runner_claimed claim) s)
      (reason-one (runner_claimed claim) s clean fit)
      (ap (fault build_started) after.2 ∙ ground (arith, created, drawn))

claim-Fits :
    (u : Text → Uuid) (fresh : Uuid) (now : Time) (c : CheckpointLoad) (name : Text)
    (t : RunnerTakeover) (v : View) (events : List DomainEvent)
    → (fresh == nil_uuid) ≡ false
    → IsWhole t
    → claim_run u fresh now c name t v ≡ ok events
    → Fits name events v.state
unfolding claim_run fold aims_at all_aim
claim-Fits u fresh now c name t v events drawn whole h =
    let p = issue-ok _ _ events h in
    let checked = checked-clean u v name (ground (arith, p.0)) in
    let flight = InFlight-phase v.state checked.0 (ground (arith, p.0)) in
    let gate : (is_standing v.state.attempt && not (is_takeover t)) ≡ false = ground (arith, p.0) in
    elim (Bool-cases (v.state.attempt.phase == phase_created)) [
      | inl created ↦
          rw (sym p.1, created)
            (record {
              valid = checked.0;
              own_name = checked.2;
              unobserved =
                  started-after _ v.state created drawn checked.1
                    (claim-fault fresh now t v 0 drawn whole gate flight.0 flight.1);
              own_aim = refl;
            })
      | inr later ↦
          rw (sym p.1, later)
            (record {
              valid = checked.0;
              own_name = checked.2;
              unobserved =
                  reason-one _ v.state checked.1
                    (claim-fault fresh now t v (position_of c) drawn whole gate flight.0 flight.1);
              own_aim = refl;
            })
    ]

pub run-Fits :
    (u : Text → Uuid) (fresh : Uuid) (now : Time) (c : CheckpointLoad) (name : Text)
    (opts : List RunOption) (v : View) (events : List DomainEvent)
    → (fresh == nil_uuid) ≡ false
    → run u fresh now c name opts v ≡ ok events
    → Fits name events v.state
unfolding run run_takeover IsWhole
run-Fits u fresh now c name opts v events drawn h =
    elim (Result-cases
      (apply_run_options opts (record { takeover = no_takeover; has_error = false }))) [
        | inl (d, done) ↦
            claim-Fits u fresh now c name d.takeover v events drawn
              (options-IsWhole opts _ d refl done) (ground (arith, done, h))
        | inr (e, failed) ↦ absurd (ground (arith, failed, h))
      ]
