-- ===== src/Lifecycle/Commanded.antt =====
-- projection/lifecycle/orchestrator.go and handle.go: the lifecycles that commands lead to, one append
-- after the other, as the expected version of each append has it.
use estoria.Prelude.{
  ◌≡◌, sym, ap, ◌∙◌, Bool, true, false, not, ◌&&◌, none, List, [], ◌∷◌, arith, ◌==◌, is_empty, Text,
  text_eq, ok,
}
use estoria.TypeId.{Uuid, nil_uuid}
use estoria.EventStore.{Time}
use estoria.Projection.{ProjectionId}
use estoria.Lifecycle.State.{State}
use estoria.Lifecycle.Events.{
  DomainEvent, rebuild_initiated, runner_claimed, runner_released, build_started, caught_up,
  promoted, rolled_back, abandoned, retire_started, previous_retired, retirement_policy_set,
  CaughtUp, apply_to, fold,
}
use estoria.Lifecycle.Poison.{effect, apply_to-eq}
use estoria.Lifecycle.Counting.{fold-clean}
use estoria.Lifecycle.Histories.{step_lem}
use estoria.Lifecycle.Commands.{
  View, begin_rebuild, set_retirement_policy, RetirementPolicyChange, CheckpointLoad, RunOption,
  run, record_catch_up, release_claim, License, promote, rollback, abandon,
}
use estoria.Lifecycle.Commands.Retire.{
  Collaborators, RetireOption, RetireStep, retire, retire_reserved,
}
use estoria.Lifecycle.Issued.{
  aims_at, all_aim, Fits, begin-Fits, policy-Fits, promote-Fits, rollback-Fits, abandon-Fits,
}
use estoria.Lifecycle.Draining.{Kept, Draining, catch_up-Fits}
use estoria.Lifecycle.Runs.{run-Fits, release-Fits}
use estoria.Lifecycle.Retirements.{events_of}
use estoria.Lifecycle.Retiring.{retire-Fits, retire_reserved-Fits}

-- What the commands append to the lifecycle that they look at. The UUIDs drawn are not nil.
pub data Issued (u : Text → Uuid) (name : Text) (v : View) : List DomainEvent → Type 0 where
  begins :
      {events : List DomainEvent} (fresh : Uuid) (now : Time) (reason : Text)
      → (fresh == nil_uuid) ≡ false
      → begin_rebuild u fresh now name reason v ≡ ok events
      → Issued u name v events
  sets_policy :
      {events : List DomainEvent} (now : Time) (change : RetirementPolicyChange)
      → set_retirement_policy u now name change v ≡ ok events
      → Issued u name v events
  runs :
      {events : List DomainEvent} (fresh : Uuid) (now : Time) (c : CheckpointLoad)
      (opts : List RunOption)
      → (fresh == nil_uuid) ≡ false
      → run u fresh now c name opts v ≡ ok events
      → Issued u name v events
  releases :
      {events : List DomainEvent} (runner : Uuid) (now : Time)
      → (runner == nil_uuid) ≡ false
      → is_empty events ≡ false
      → release_claim u runner now name v ≡ events
      → Issued u name v events
  catches_up :
      {events : List DomainEvent} (stopped exited : Bool) (e : CaughtUp)
      → Draining u name v
      → record_catch_up stopped exited e ≡ events
      → Issued u name v events
  promotes :
      {events : List DomainEvent} (now : Time) (l : License)
      → promote u now name l v ≡ ok events
      → Issued u name v events
  rolls_back :
      {events : List DomainEvent} (now : Time)
      → rollback u now name v ≡ ok events
      → Issued u name v events
  abandons :
      {events : List DomainEvent} (cause : Text)
      → abandon u name cause v ≡ ok events
      → Issued u name v events
  retires :
      {events : List DomainEvent} (with : Collaborators) (now : Time) (opts : List RetireOption)
      (step : RetireStep)
      → retire u with now name opts v ≡ ok step
      → events_of step ≡ events
      → Issued u name v events
  completes :
      {events : List DomainEvent} (with : Collaborators) (previous : ProjectionId)
      (step : RetireStep)
      → retire_reserved u with name previous v ≡ ok step
      → events_of step ≡ events
      → Issued u name v events

pub Issued-Fits :
    (u : Text → Uuid) (name : Text) (v : View) (events : List DomainEvent)
    → Kept name v.state
    → Issued u name v events
    → Fits name events v.state
Issued-Fits u name v events k (begins fresh now reason drawn h) =
    begin-Fits u fresh now name reason v events drawn h
Issued-Fits u name v events k (sets_policy now change h) = policy-Fits u now name change v events h
Issued-Fits u name v events k (runs fresh now c opts drawn h) =
    run-Fits u fresh now c name opts v events drawn h
Issued-Fits u name v events k (releases runner now drawn some_event h) =
    release-Fits u runner now name v events drawn some_event h
Issued-Fits u name v events k (catches_up stopped exited e draining h) =
    catch_up-Fits u stopped exited e name v events k draining h
Issued-Fits u name v events k (promotes now l h) = promote-Fits u now name l v events h
Issued-Fits u name v events k (rolls_back now h) = rollback-Fits u now name v events h
Issued-Fits u name v events k (abandons cause h) = abandon-Fits u name cause v events h
Issued-Fits u name v events k (retires with now opts step h same) =
    rw (sym same) (retire-Fits u with now name opts v step h)
Issued-Fits u name v events k (completes with previous step h same) =
    rw (sym same) (retire_reserved-Fits u with name previous v step h)

effect-name :
    (name : Text) (e : DomainEvent) (s : State)
    → aims_at name e ≡ true
    → (not (is_empty s.name) && not (text_eq s.name name)) ≡ false
    → (not (is_empty (effect e s).name) && not (text_eq (effect e s).name name)) ≡ false
unfolding effect aims_at
effect-name name (rebuild_initiated e) s aim own = ground (arith, aim, own)
effect-name name (runner_claimed e) s aim own = own
effect-name name (runner_released e) s aim own = own
effect-name name build_started s aim own = own
effect-name name (caught_up e) s aim own = own
effect-name name (promoted e) s aim own = own
effect-name name (rolled_back e) s aim own = own
effect-name name (abandoned cause) s aim own = own
effect-name name (retire_started e) s aim own = own
effect-name name (previous_retired e) s aim own = own
effect-name name (retirement_policy_set e) s aim own = own

event-Kept :
    (name : Text) (e : DomainEvent) (s : State)
    → Kept name s
    → aims_at name e ≡ true
    → (apply_to e s).invalid_reason ≡ none
    → Kept name (apply_to e s) × (is_empty (apply_to e s).name ≡ false)
event-Kept name e s k aim h =
    let next = step_lem e s k.ranged k.valid h in
    (
      record {
        ranged = next.0;
        valid = next.1;
        own_name =
            ap (λ (t : State). not (is_empty t.name) && not (text_eq t.name name)) (apply_to-eq e s)
            ∙ effect-name name e s aim k.own_name;
      },
      next.2,
    )

pub fold-Kept :
    (name : Text) (events : List DomainEvent) (s : State)
    → Kept name s
    → all_aim name events ≡ true
    → (fold events s).invalid_reason ≡ none
    → Kept name (fold events s)
      × (is_empty events ≡ false → is_empty (fold events s).name ≡ false)
      × (is_empty s.name ≡ false → is_empty (fold events s).name ≡ false)
unfolding fold all_aim
fold-Kept name [] s k aim h = (k, λ p. absurd (ground (arith, p)), λ named. named)
fold-Kept name (e ∷ events) s k aim h =
    let one = event-Kept name e s k (ground (arith, aim)) (fold-clean e events s h) in
    let rest = fold-Kept name events (apply_to e s) one.0 (ground (arith, aim)) h in
    (rest.0, λ p. rest.2 one.1, λ named. rest.2 one.1)
