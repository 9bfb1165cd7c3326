-- ===== src/Lifecycle/Issued.antt =====
-- projection/lifecycle/orchestrator.go and handle.go: the events that a command appends against the
-- checks of the fold.
use estoria.Prelude.{
  ◌≡◌, refl, sym, ap, ◌∙◌, Bool, true, false, not, ◌&&◌, Option, none, some, List, [], ◌∷◌, arith,
  ◌==◌, is_empty, Text, text_eq, text_eq_iff, ok,
}
use estoria.TypeId.{Uuid, nil_uuid}
use estoria.EventStore.{Time}
use estoria.Projection.{id_eq_iff}
use estoria.Lifecycle.State.{State, validate, phase_none}
use estoria.Lifecycle.Events.{
  DomainEvent, rebuild_initiated, runner_claimed, runner_released, build_started, caught_up,
  retire_started, previous_retired, promoted, rolled_back, abandoned, retirement_policy_set,
  is_in_flight, initiated_fault, promoted_fault, rolled_back_fault, abandoned_fault, policy_fault,
  fold, apply_to,
}
use estoria.Lifecycle.Poison.{fault, reason-apply_to, observed}
use estoria.Lifecycle.Sound.{named-Sound, empty_slot, before_promotion, after_promotion, InFlight}
use estoria.Lifecycle.Cutovers.{zero-phase, zero_version}
use estoria.Lifecycle.Consistent.{validate-named}
use estoria.Lifecycle.Histories.{busy-named}
use estoria.Lifecycle.Commands.{
  View, Refusal, issue, check_lifecycle_aggregate, begin_rebuild, set_retirement_policy,
  load_aggregate, RetirementPolicyChange, sort_texts, insert_text, License, promote, rollback,
  abandon,
}

-- An admission aims at the projection of the lifecycle.
unfoldable pub aims_at : Text → DomainEvent → Bool
aims_at name (rebuild_initiated e) = text_eq e.target.name name
aims_at name (runner_claimed e) = true
aims_at name (runner_released e) = true
aims_at name build_started = true
aims_at name (caught_up e) = true
aims_at name (promoted e) = true
aims_at name (rolled_back e) = true
aims_at name (abandoned cause) = true
aims_at name (retire_started e) = true
aims_at name (previous_retired e) = true
aims_at name (retirement_policy_set e) = true

unfoldable pub all_aim : Text → List DomainEvent → Bool
all_aim name [] = true
all_aim name (e ∷ events) = aims_at name e && all_aim name events

-- A state that passes its checks, to which the fold does not object for these events.
pub record Fits (name : Text) (events : List DomainEvent) (s : State) : Type 0 where
  pub valid : validate s ≡ none
  pub own_name : (not (is_empty s.name) && not (text_eq s.name name)) ≡ false
  pub unobserved : (fold events s).invalid_reason ≡ none
  pub own_aim : all_aim name events ≡ true

pub checked-clean :
    (u : Text → Uuid) (v : View) (name : Text)
    → check_lifecycle_aggregate u v name ≡ none
    → (validate v.state ≡ none)
      × (v.state.invalid_reason ≡ none)
      × ((not (is_empty v.state.name) && not (text_eq v.state.name name)) ≡ false)
unfolding check_lifecycle_aggregate validate
checked-clean u v name h = (ground (arith, h), ground (arith, h), ground (arith, h))

pub issue-ok :
    (c : Option Refusal) (es events : List DomainEvent)
    → issue c es ≡ ok events
    → (c ≡ none) × (es ≡ events)
issue-ok none es events h = (refl, cc)
issue-ok (some r) es events h = absurd (ground arith)

pub reason-one :
    (e : DomainEvent) (s : State)
    → s.invalid_reason ≡ none
    → fault e s ≡ none
    → (apply_to e s).invalid_reason ≡ none
unfolding observed
reason-one e s clean fit = reason-apply_to e s ∙ ap (λ f. observed s.invalid_reason f) fit ∙ clean

pub one-Fits :
    (u : Text → Uuid) (v : View) (name : Text) (e : DomainEvent) (events : List DomainEvent)
    → check_lifecycle_aggregate u v name ≡ none
    → fault e v.state ≡ none
    → aims_at name e ≡ true
    → e ∷ [] ≡ events
    → Fits name events v.state
unfolding all_aim fold
one-Fits u v name e events checked fit aim h =
    let c = checked-clean u v name checked in
    rw (sym h) (record {
      valid = c.0;
      own_name = c.2;
      unobserved = reason-one e v.state c.1 fit;
      own_aim = ground (arith, aim);
    })

pub begin-Fits :
    (u : Text → Uuid) (fresh : Uuid) (now : Time) (name reason : Text) (v : View)
    (events : List DomainEvent)
    → (fresh == nil_uuid) ≡ false
    → begin_rebuild u fresh now name reason v ≡ ok events
    → Fits name events v.state
unfolding begin_rebuild fault initiated_fault aims_at
begin-Fits u fresh now name reason v events drawn h =
    let p = issue-ok _ _ events h in
    let checked : check_lifecycle_aggregate u v name ≡ none = ground (arith, p.0) in
    let c = checked-clean u v name checked in
    one-Fits u v name _ events checked
      (ground (
        arith,
        p.0,
        drawn,
        c.2,
        text_eq_iff name v.state.name,
        text_eq_iff v.state.name name,
        (id_eq_iff v.state.live v.state.live).1 refl,
      ))
      ((text_eq_iff name name).1 refl) p.1

pub promote-Fits :
    (u : Text → Uuid) (now : Time) (name : Text) (l : License) (v : View)
    (events : List DomainEvent)
    → promote u now name l v ≡ ok events
    → Fits name events v.state
unfolding promote fault promoted_fault aims_at
promote-Fits u now name l v events h =
    let p = issue-ok _ _ events h in
    one-Fits u v name _ events (ground (arith, p.0))
      (ground (
        arith,
        p.0,
        (id_eq_iff v.state.live v.state.live).1 refl,
        (id_eq_iff v.state.attempt.target v.state.attempt.target).1 refl,
      ))
      refl p.1

pub rollback-Fits :
    (u : Text → Uuid) (now : Time) (name : Text) (v : View) (events : List DomainEvent)
    → rollback u now name v ≡ ok events
    → Fits name events v.state
unfolding rollback fault rolled_back_fault aims_at
rollback-Fits u now name v events h =
    let p = issue-ok _ _ events h in
    one-Fits u v name _ events (ground (arith, p.0))
      (ground (
        arith,
        p.0,
        (id_eq_iff v.state.live v.state.live).1 refl,
        (id_eq_iff v.state.attempt.previous v.state.attempt.previous).1 refl,
        zero_version v.state.attempt.previous,
      ))
      refl p.1

pub abandon-Fits :
    (u : Text → Uuid) (name cause : Text) (v : View) (events : List DomainEvent)
    → abandon u name cause v ≡ ok events
    → Fits name events v.state
unfolding abandon fault abandoned_fault aims_at
abandon-Fits u name cause v events h =
    let p = issue-ok _ _ events h in
    one-Fits u v name _ events (ground (arith, p.0)) (ground (arith, p.0)) refl p.1

empty-insert : (x : Text) (xs : List Text) → is_empty (insert_text x xs) ≡ false
unfolding insert_text
empty-insert x [] = refl
empty-insert x (y ∷ ys) = ground arith

empty-sort : (xs : List Text) → is_empty (sort_texts xs) ≡ is_empty xs
unfolding sort_texts
empty-sort [] = refl
empty-sort (x ∷ xs) = empty-insert x (sort_texts xs)

-- A lifecycle with events has a name.
pub policy-Fits :
    (u : Text → Uuid) (now : Time) (name : Text) (change : RetirementPolicyChange) (v : View)
    (events : List DomainEvent)
    → set_retirement_policy u now name change v ≡ ok events
    → Fits name events v.state
unfolding set_retirement_policy fault policy_fault load_aggregate check_lifecycle_aggregate aims_at
policy-Fits u now name change v events h =
    let p = issue-ok _ _ events h in
    one-Fits u v name _ events (ground (arith, p.0))
      (ground (arith, p.0, empty-sort change.witnesses)) refl p.1

pub InFlight-phase :
    (s : State)
    → validate s ≡ none
    → (s.attempt.phase == phase_none) ≡ false
    → (is_in_flight s.attempt.phase ≡ true) × InFlight s
InFlight-phase s valid busy =
    let sound = named-Sound s (validate-named s (busy-named s busy valid) valid) in
    elim sound.slot [
      | empty_slot empty rest ↦ absurd (ground (arith, busy, zero-phase s empty))
      | before_promotion p rest f ↦ (ground (arith, p), f)
      | after_promotion p rest f ↦ (ground (arith, p), f)
    ]
