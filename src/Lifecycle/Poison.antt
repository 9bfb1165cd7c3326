-- ===== src/Lifecycle/Poison.antt =====
-- projection/lifecycle/state.go `poison` and events.go: what an event does to a state, apart from what
-- it observes.
use estoria.Prelude.{
  ◌≡◌, refl, sym, ap, ◌∙◌, true, false, Option, none, some, List, [], ◌∷◌, if◌then◌else◌, is_empty,
  max64, ◌or_else◌,
}
use estoria.Lifecycle.State.{
  Inconsistency, State, poison, zero_attempt, phase_created, phase_building, phase_caught_up,
  phase_promoted, phase_retiring, first_reason,
}
use estoria.Lifecycle.Events.{
  DomainEvent, rebuild_initiated, runner_claimed, runner_released, build_started, caught_up,
  promoted, rolled_back, abandoned, retire_started, previous_retired, retirement_policy_set,
  RunnerClaimed, RunnerReleased, RetireStarted, observe, initiated_fault, claim_ids_fault,
  claim_phase_fault, claim_takeover_fault, release_ids_fault, release_phase_fault, started_fault,
  caught_up_fault, promoted_fault, rolled_back_fault, abandoned_fault, retire_fault,
  retire_witness_fault, retired_fault, policy_fault, apply_rebuild_initiated, apply_runner_claimed,
  apply_runner_released, apply_build_started, apply_caught_up, apply_promoted, apply_rolled_back,
  apply_abandoned, apply_retire_started, apply_previous_retired, apply_retirement_policy_set,
  apply_to, fold,
}

-- The state with another observation.
abbrev pub with_reason : State → Option Inconsistency → State
with_reason s r = record s { invalid_reason = r }

unfoldable pub observed : Option Inconsistency → Option Inconsistency → Option Inconsistency
observed r none = r
observed r (some msg) = some (first_reason r msg)

observe-eq :
    (f : Option Inconsistency) (s : State)
    → observe f s ≡ with_reason s (observed s.invalid_reason f)
unfolding observe poison observed
observe-eq none s = refl
observe-eq (some msg) s = refl

-- What an event does to a state, apart from the observation.
unfoldable pub effect : DomainEvent → State → State
effect (rebuild_initiated e) s = record s {
  name = if is_empty s.name then e.target.name else s.name;
  allocated = max64 s.allocated e.target.version;
  attempt = record zero_attempt {
    id = e.attempt;
    target = e.target;
    previous = e.previous;
    phase = phase_created;
    reason = e.reason;
    initiated_at = e.at;
  };
}
effect (runner_claimed e) s = record s {
  attempt = record s.attempt {
    runner = e.runner;
    claimed_at = e.at;
    released = false;
    released_at = 0;
  };
}
effect (runner_released e) s = record s {
  attempt = record s.attempt { released = true; released_at = e.at };
}
effect build_started s = record s { attempt = record s.attempt { phase = phase_building } }
effect (caught_up e) s = record s {
  attempt = record s.attempt {
    phase = phase_caught_up;
    caught_up_at = e.at;
    caught_up_pos = e.position;
  };
}
effect (promoted e) s = record s {
  live = e.next;
  cutover_revision = max64 s.cutover_revision e.revision;
  attempt = record s.attempt { phase = phase_promoted; promoted_at = e.at };
}
effect (rolled_back e) s = record s {
  live = e.reverted_to;
  cutover_revision = max64 s.cutover_revision e.revision;
  attempt = zero_attempt;
}
effect (abandoned cause) s = record s { attempt = zero_attempt }
effect (retire_started e) s = record s {
  attempt = record s.attempt {
    phase = phase_retiring;
    retiring_at = e.at;
    retiring_witnesses = e.witnesses;
  };
}
effect (previous_retired e) s = record s { attempt = zero_attempt }
effect (retirement_policy_set e) s = record s {
  retirement_policy = record {
    generation = e.generation;
    witnesses = e.witnesses;
    unwitnessed = e.unwitnessed;
  };
}

-- All the checks of an event together.
unfoldable pub fault : DomainEvent → State → Option Inconsistency
fault (rebuild_initiated e) s = initiated_fault e s
fault (runner_claimed e) s =
    claim_ids_fault e or_else claim_phase_fault e s or_else claim_takeover_fault e s
fault (runner_released e) s = release_ids_fault e or_else release_phase_fault e s
fault build_started s = started_fault s
fault (caught_up e) s = caught_up_fault s
fault (promoted e) s = promoted_fault e s
fault (rolled_back e) s = rolled_back_fault e s
fault (abandoned cause) s = abandoned_fault s
fault (retire_started e) s = retire_fault e s or_else retire_witness_fault e s
fault (previous_retired e) s = retired_fault e s
fault (retirement_policy_set e) s = policy_fault e s

observed-again :
    (r a b : Option Inconsistency) → observed (observed r a) b ≡ observed r (a or_else b)
unfolding observed
observed-again r none b = refl
observed-again r (some a) none = refl
observed-again none (some a) (some b) = refl
observed-again (some r) (some a) (some b) = refl

-- Two switches, one after the other, where the second does not look at the observation.
observe-twice :
    (f : Option Inconsistency) (g : State → Option Inconsistency) (s : State)
    → ((r : Option Inconsistency) → g (with_reason s r) ≡ g s)
    → observe (g (observe f s)) (observe f s)
      ≡ with_reason s (observed s.invalid_reason (f or_else g s))
observe-twice f g s h =
    rw
      (
        observe-eq f s,
        h (observed s.invalid_reason f),
        observe-eq (g s) (with_reason s (observed s.invalid_reason f)),
        observed-again s.invalid_reason f (g s),
      )
      refl

apply_claimed-eq :
    (e : RunnerClaimed) (s : State)
    → apply_runner_claimed e s
      ≡ with_reason
          (effect (runner_claimed e) s)
          (observed s.invalid_reason (fault (runner_claimed e) s))
unfolding effect fault apply_runner_claimed claim_phase_fault claim_takeover_fault
apply_claimed-eq e s =
    let r1 = observed s.invalid_reason (claim_ids_fault e) in
    let r2 = observed r1 (claim_phase_fault e s) in
    rw
      (
        observe-eq (claim_ids_fault e) s,
        observe-eq (claim_phase_fault e s) (with_reason s r1),
        observe-eq (claim_takeover_fault e s) (with_reason s r2),
        observed-again r1 (claim_phase_fault e s) (claim_takeover_fault e s),
        observed-again s.invalid_reason (claim_ids_fault e)
            (claim_phase_fault e s or_else claim_takeover_fault e s),
      )
      refl

apply_released-eq :
    (e : RunnerReleased) (s : State)
    → apply_runner_released e s
      ≡ with_reason
          (effect (runner_released e) s)
          (observed s.invalid_reason (fault (runner_released e) s))
unfolding effect fault apply_runner_released release_phase_fault
apply_released-eq e s =
    rw (observe-twice (release_ids_fault e) (release_phase_fault e) s (λ r. refl)) refl

apply_retire-eq :
    (e : RetireStarted) (s : State)
    → apply_retire_started e s
      ≡ with_reason
          (effect (retire_started e) s)
          (observed s.invalid_reason (fault (retire_started e) s))
unfolding effect fault apply_retire_started retire_witness_fault
apply_retire-eq e s =
    rw (observe-twice (retire_fault e s) (retire_witness_fault e) s (λ r. refl)) refl

-- An event does what `effect` says and observes what `fault` says.
pub apply_to-eq :
    (e : DomainEvent) (s : State)
    → apply_to e s ≡ with_reason (effect e s) (observed s.invalid_reason (fault e s))
unfolding apply_to effect fault apply_rebuild_initiated apply_build_started apply_caught_up
    apply_promoted apply_rolled_back apply_abandoned apply_previous_retired
    apply_retirement_policy_set
apply_to-eq (rebuild_initiated e) s = rw (observe-eq (initiated_fault e s) s) refl
apply_to-eq (runner_claimed e) s = apply_claimed-eq e s
apply_to-eq (runner_released e) s = apply_released-eq e s
apply_to-eq build_started s = rw (observe-eq (started_fault s) s) refl
apply_to-eq (caught_up e) s = rw (observe-eq (caught_up_fault s) s) refl
apply_to-eq (promoted e) s = rw (observe-eq (promoted_fault e s) s) refl
apply_to-eq (rolled_back e) s = rw (observe-eq (rolled_back_fault e s) s) refl
apply_to-eq (abandoned cause) s = rw (observe-eq (abandoned_fault s) s) refl
apply_to-eq (retire_started e) s = apply_retire-eq e s
apply_to-eq (previous_retired e) s = rw (observe-eq (retired_fault e s) s) refl
apply_to-eq (retirement_policy_set e) s = rw (observe-eq (policy_fault e s) s) refl

observed-none : (r f : Option Inconsistency) → observed r f ≡ none → (r ≡ none) × (f ≡ none)
unfolding observed
observed-none r none h = (h, refl)
observed-none r (some msg) h = cc

-- What an event leaves observed.
pub reason-apply_to :
    (e : DomainEvent) (s : State)
    → (apply_to e s).invalid_reason ≡ observed s.invalid_reason (fault e s)
reason-apply_to e s = ap (λ (t : State). t.invalid_reason) (apply_to-eq e s)

pub effect-keeps : (e : DomainEvent) (s : State) → (effect e s).invalid_reason ≡ s.invalid_reason
unfolding effect
effect-keeps (rebuild_initiated e) s = refl
effect-keeps (runner_claimed e) s = refl
effect-keeps (runner_released e) s = refl
effect-keeps build_started s = refl
effect-keeps (caught_up e) s = refl
effect-keeps (promoted e) s = refl
effect-keeps (rolled_back e) s = refl
effect-keeps (abandoned cause) s = refl
effect-keeps (retire_started e) s = refl
effect-keeps (previous_retired e) s = refl
effect-keeps (retirement_policy_set e) s = refl

-- An event that leaves nothing observed has met a state without observation, has passed all its
-- checks, and has changed the state as `effect` says.
pub apply_to-clean :
    (e : DomainEvent) (s : State)
    → (apply_to e s).invalid_reason ≡ none
    → (s.invalid_reason ≡ none) × (fault e s ≡ none) × (apply_to e s ≡ effect e s)
apply_to-clean e s h =
    let p = observed-none s.invalid_reason (fault e s) (sym (reason-apply_to e s) ∙ h) in
    (
      p.0,
      p.1,
      apply_to-eq e s
          ∙ ap (with_reason (effect e s))
              ((sym (reason-apply_to e s) ∙ h) ∙ sym (effect-keeps e s ∙ p.0)),
    )

observed-first :
    (first : Inconsistency) (f : Option Inconsistency) → observed (some first) f ≡ some first
unfolding observed
observed-first first none = refl
observed-first first (some msg) = refl

-- The first observation of a history stays, whatever comes after.
pub fold-poisoned :
    (events : List DomainEvent) (s : State) (first : Inconsistency)
    → s.invalid_reason ≡ some first
    → (fold events s).invalid_reason ≡ some first
unfolding fold observed
fold-poisoned [] s first h = h
fold-poisoned (e ∷ events) s first h =
    fold-poisoned events (apply_to e s) first
      (reason-apply_to e s ∙ ap (λ r. observed r (fault e s)) h ∙ observed-first first (fault e s))
