-- ===== src/Lifecycle/Draining.antt =====
-- projection/lifecycle/handle.go `Run` and `recordCatchUp`: the views that a run holds while it drains,
-- and the catch-up that it records.
use estoria.Prelude.{
  ◌≡◌, refl, sym, ap, inl, inr, Bool, true, false, not, ◌&&◌, ◌||◌, none, List, [], ◌∷◌, arith,
  ◌==◌, Bool-cases, Result-cases, is_empty, add64, Text, text_eq, ok,
}
use estoria.TypeId.{Uuid}
use estoria.EventStore.{Time}
use estoria.Lifecycle.State.{
  State, validate, phase_created, phase_building, phase_caught_up, is_before_promotion,
}
use estoria.Lifecycle.Events.{
  DomainEvent, caught_up, runner_claimed, build_started, retirement_policy_set, RunnerClaimed,
  RunnerTakeover, CaughtUp, RetirementPolicySet, caught_up_fault, apply_to, fold,
}
use estoria.Lifecycle.Poison.{effect, fault, apply_to-eq}
use estoria.Lifecycle.Cutovers.{Ranged}
use estoria.Lifecycle.Commands.{
  View, set_retirement_policy, RetirementPolicyChange, CheckpointLoad, RunOption, run, run_takeover,
  claim_run, record_catch_up,
}
use estoria.Lifecycle.Issued.{aims_at, all_aim, Fits, issue-ok, reason-one}

-- The view once the append has been applied: the version counts its events.
unfoldable pub advance : View → List DomainEvent → View
advance v [] = v
advance v (e ∷ events) =
    advance (record v { version = add64 v.version 1; state = apply_to e v.state }) events

pub advance_lem :
    (v : View) (events : List DomainEvent)
    → ((advance v events).id ≡ v.id) × ((advance v events).state ≡ fold events v.state)
unfolding advance fold
advance_lem v [] = (refl, refl)
advance_lem v (e ∷ events) =
    advance_lem (record v { version = add64 v.version 1; state = apply_to e v.state }) events

-- What a command keeps: the checks of checkLifecycleAggregate but for the address, and the ranges.
pub record Kept (name : Text) (s : State) : Type 0 where
  pub ranged : Ranged s
  pub valid : validate s ≡ none
  pub own_name : (not (is_empty s.name) && not (text_eq s.name name)) ≡ false

-- The views that the handle of a run holds while it drains: the one that its claim has left, where the
-- rebuild was not promoted when it was claimed, and those that reconcile loads since. Where these show
-- another attempt or another runner, reconcile stops the run, and no handle but that of the run has
-- the certificate that promotes its claim: what is left are transitions of the policy.
pub data Draining (u : Text → Uuid) (name : Text) : View → Type 0 where
  after_claim :
      (v : View) {events : List DomainEvent} (fresh : Uuid) (now : Time) (c : CheckpointLoad)
      (opts : List RunOption)
      → is_before_promotion v.state.attempt.phase ≡ true
      → run u fresh now c name opts v ≡ ok events
      → Draining u name (advance v events)
  after_policy :
      {v : View} {events : List DomainEvent} (now : Time) (change : RetirementPolicyChange)
      → Draining u name v
      → set_retirement_policy u now name change v ≡ ok events
      → Draining u name (advance v events)

is_draining : State → Bool
is_draining s = s.attempt.phase == phase_building || s.attempt.phase == phase_caught_up

phase-apply :
    (e : DomainEvent) (s : State) → (apply_to e s).attempt.phase ≡ (effect e s).attempt.phase
phase-apply e s = ap (λ (t : State). t.attempt.phase) (apply_to-eq e s)

started-draining :
    (claim : RunnerClaimed) (s : State)
    → is_draining (fold (runner_claimed claim ∷ build_started ∷ []) s) ≡ true
unfolding fold effect is_draining
started-draining claim s =
    ground (arith, phase-apply build_started (apply_to (runner_claimed claim) s))

claimed-draining :
    (claim : RunnerClaimed) (s : State)
    → is_draining s ≡ true
    → is_draining (fold (runner_claimed claim ∷ []) s) ≡ true
unfolding fold effect is_draining
claimed-draining claim s h = ground (arith, h, phase-apply (runner_claimed claim) s)

policy-draining :
    (change : RetirementPolicySet) (s : State)
    → is_draining s ≡ true
    → is_draining (fold (retirement_policy_set change ∷ []) s) ≡ true
unfolding fold effect is_draining
policy-draining change s h = ground (arith, h, phase-apply (retirement_policy_set change) s)

claim-draining :
    (u : Text → Uuid) (fresh : Uuid) (now : Time) (c : CheckpointLoad) (name : Text)
    (t : RunnerTakeover) (v : View) (events : List DomainEvent)
    → is_before_promotion v.state.attempt.phase ≡ true
    → claim_run u fresh now c name t v ≡ ok events
    → is_draining (fold events v.state) ≡ true
unfolding claim_run is_draining
claim-draining u fresh now c name t v events before h =
    let p = issue-ok _ _ events h in
    elim (Bool-cases (v.state.attempt.phase == phase_created)) [
      | inl created ↦ rw (sym p.1, created) (started-draining _ v.state)
      | inr later ↦ rw (sym p.1, later) (claimed-draining _ v.state (ground (arith, later, before)))
    ]

Draining-phase :
    (u : Text → Uuid) (name : Text) (v : View) → Draining u name v → is_draining v.state ≡ true
unfolding run run_takeover set_retirement_policy is_draining
Draining-phase u name _ (after_claim v {events} fresh now c opts before h) =
    elim (Result-cases (run_takeover opts)) [
      | inr (e, failed) ↦ absurd (ground (arith, failed, h))
      | inl (takeover, given) ↦
          rw ((advance_lem v events).1)
            (claim-draining u fresh now c name takeover v events before (ground (arith, given, h)))
    ]
Draining-phase u name _ (after_policy {v} {events} now change draining h) =
    let p = issue-ok _ _ events h in
    rw ((advance_lem v events).1, ← p.1)
      (policy-draining _ v.state (Draining-phase u name v draining))

pub catch_up-Fits :
    (u : Text → Uuid) (stopped exited : Bool) (e : CaughtUp) (name : Text) (v : View)
    (events : List DomainEvent)
    → Kept name v.state
    → Draining u name v
    → record_catch_up stopped exited e ≡ events
    → Fits name events v.state
unfolding record_catch_up fault caught_up_fault aims_at fold all_aim validate is_draining
catch_up-Fits u stopped exited e name v events k draining h =
    let clean : v.state.invalid_reason ≡ none = ground (arith, k.valid) in
    let fit : fault (caught_up e) v.state ≡ none =
      ground (arith, Draining-phase u name v draining) in
    elim (Bool-cases (stopped || exited)) [
      | inl over ↦
          let shape : [] ≡ events = ground (arith, over, h) in
          rw (sym shape)
            (record { valid = k.valid; own_name = k.own_name; unobserved = clean; own_aim = refl })
      | inr on ↦
          let shape : caught_up e ∷ [] ≡ events = ground (arith, on, h) in
          rw (sym shape) (record {
            valid = k.valid;
            own_name = k.own_name;
            unobserved = reason-one (caught_up e) v.state clean fit;
            own_aim = refl;
          })
    ]
