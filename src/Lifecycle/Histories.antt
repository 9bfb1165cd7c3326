-- ===== src/Lifecycle/Histories.antt =====
-- projection/lifecycle: the checks of each event against those of the whole state, along a history.
use estoria.Prelude.{
  ◌<◌, ◌≡◌, refl, ◌∙◌, inl, inr, Bool, true, false, none, List, [], ◌∷◌, arith, ◌==◌, Option-cases,
  is_empty, int64_mod, text_eq,
}
use estoria.Projection.{ProjectionId, id_eq, validate_id-eq_none}
use estoria.Lifecycle.State.{
  State, new_state, vacant, phase_none, validate, validate_snapshot_state,
}
use estoria.Lifecycle.Events.{
  DomainEvent, rebuild_initiated, runner_claimed, runner_released, build_started, caught_up,
  promoted, rolled_back, abandoned, retire_started, previous_retired, retirement_policy_set,
  initiated_fault, started_fault, promoted_fault, rolled_back_fault, claim_phase_fault,
  release_phase_fault, policy_fault, caught_up_fault, abandoned_fault, retire_fault, retired_fault,
  apply_to, fold,
}
use estoria.Lifecycle.Poison.{effect, fault, apply_to-clean, effect-keeps}
use estoria.Lifecycle.Counting.{CountsTo-bound, fold-clean, version_of, revision_of, generation_of}
use estoria.Lifecycle.Sequence.{initiated-counts, cutovers-counts, generations-counts}
use estoria.Lifecycle.Sound.{
  Sound, empty_slot, before_promotion, after_promotion, named-Sound, Sound-named,
}
use estoria.Lifecycle.Claims.{claimed-Sound, released-Sound, started-Sound, caught_up-Sound}
use estoria.Lifecycle.Policies.{retire-Sound, policy-Sound}
use estoria.Lifecycle.Cutovers.{Ranged, abandoned-Sound, retired-Sound, zero-phase}
use estoria.Lifecycle.Preserved.{promoted-Sound, rolled_back-Sound}
use estoria.Lifecycle.Consistent.{initiated-Sound, validate-named}

unfoldable pub is_opening : DomainEvent → Bool
is_opening (rebuild_initiated e) = true
is_opening (runner_claimed e) = false
is_opening (runner_released e) = false
is_opening build_started = false
is_opening (caught_up e) = false
is_opening (promoted e) = false
is_opening (rolled_back e) = false
is_opening (abandoned cause) = false
is_opening (retire_started e) = false
is_opening (previous_retired e) = false
is_opening (retirement_policy_set e) = false

pub busy-named :
    (s : State)
    → (s.attempt.phase == phase_none) ≡ false
    → validate s ≡ none
    → is_empty s.name ≡ false
unfolding validate vacant
busy-named s busy valid = ground (arith, busy, valid)

-- Every event but the opening one asks for a state with a name.
fault-named :
    (e : DomainEvent) (s : State)
    → is_opening e ≡ false
    → fault e s ≡ none
    → validate s ≡ none
    → is_empty s.name ≡ false
unfolding is_opening fault started_fault promoted_fault rolled_back_fault claim_phase_fault
    release_phase_fault policy_fault caught_up_fault abandoned_fault retire_fault retired_fault
fault-named (rebuild_initiated e) s o fit valid = absurd (ground (arith, o))
fault-named (runner_claimed e) s o fit valid = busy-named s (ground (arith, fit)) valid
fault-named (runner_released e) s o fit valid = busy-named s (ground (arith, fit)) valid
fault-named build_started s o fit valid = busy-named s (ground (arith, fit)) valid
fault-named (caught_up e) s o fit valid = busy-named s (ground (arith, fit)) valid
fault-named (promoted e) s o fit valid = busy-named s (ground (arith, fit)) valid
fault-named (rolled_back e) s o fit valid = busy-named s (ground (arith, fit)) valid
fault-named (abandoned cause) s o fit valid = busy-named s (ground (arith, fit)) valid
fault-named (retire_started e) s o fit valid = busy-named s (ground (arith, fit)) valid
fault-named (previous_retired e) s o fit valid = busy-named s (ground (arith, fit)) valid
fault-named (retirement_policy_set e) s o fit valid = ground (arith, fit)

sound_lem :
    (e : DomainEvent) (s : State)
    → is_opening e ≡ false
    → fault e s ≡ none
    → validate s ≡ none
    → Sound s
sound_lem e s o fit valid = named-Sound s (validate-named s (fault-named e s o fit valid) valid)

-- An event that passes its checks leaves what `validate` accepts.
effect-Sound :
    (e : DomainEvent) (s : State)
    → Ranged s
    → fault e s ≡ none
    → validate s ≡ none
    → Sound (effect e s)
unfolding is_opening
effect-Sound (rebuild_initiated e) s r fit valid = initiated-Sound e s r fit valid
effect-Sound (runner_claimed e) s r fit valid =
    claimed-Sound e s fit (sound_lem (runner_claimed e) s refl fit valid)
effect-Sound (runner_released e) s r fit valid =
    released-Sound e s fit (sound_lem (runner_released e) s refl fit valid)
effect-Sound build_started s r fit valid =
    started-Sound s fit (sound_lem build_started s refl fit valid)
effect-Sound (caught_up e) s r fit valid =
    caught_up-Sound e s fit (sound_lem (caught_up e) s refl fit valid)
effect-Sound (promoted e) s r fit valid =
    promoted-Sound e s r fit (sound_lem (promoted e) s refl fit valid)
effect-Sound (rolled_back e) s r fit valid =
    rolled_back-Sound e s r fit (sound_lem (rolled_back e) s refl fit valid)
effect-Sound (abandoned cause) s r fit valid =
    abandoned-Sound cause s r fit (sound_lem (abandoned cause) s refl fit valid)
effect-Sound (retire_started e) s r fit valid =
    retire-Sound e s fit (sound_lem (retire_started e) s refl fit valid)
effect-Sound (previous_retired e) s r fit valid =
    retired-Sound e s r fit (sound_lem (previous_retired e) s refl fit valid)
effect-Sound (retirement_policy_set e) s r fit valid =
    policy-Sound e s fit r.generation_range (sound_lem (retirement_policy_set e) s refl fit valid)

target_range :
    (s : State)
    → Ranged s
    → Sound s
    → (s.attempt.phase == phase_none) ≡ false
    → s.attempt.target.version < int64_mod
target_range s r sound busy = elim sound.slot [
  | empty_slot empty rest ↦ absurd (ground (arith, busy, zero-phase s empty))
  | before_promotion p rest f ↦ ground (arith, f.last_target, r.allocated_range)
  | after_promotion p rest f ↦ ground (arith, f.last_target, r.allocated_range)
]

version_at : (a b : ProjectionId) → id_eq a b ≡ true → a.version ≡ b.version
unfolding id_eq
version_at a b h = ground arith

Words : State → Type 0
Words s = (s.live.version < int64_mod) × (s.attempt.previous.version < int64_mod)

effect-Words :
    (e : DomainEvent) (s : State)
    → Ranged s
    → fault e s ≡ none
    → validate s ≡ none
    → Words (effect e s)
unfolding Words effect is_opening fault initiated_fault promoted_fault rolled_back_fault
effect-Words (rebuild_initiated e) s r fit valid =
    (r.live_range, omega (arith, version_at e.previous s.live (ground (arith, fit)), r.live_range))
effect-Words (runner_claimed e) s r fit valid = (r.live_range, r.previous_range)
effect-Words (runner_released e) s r fit valid = (r.live_range, r.previous_range)
effect-Words build_started s r fit valid = (r.live_range, r.previous_range)
effect-Words (caught_up e) s r fit valid = (r.live_range, r.previous_range)
effect-Words (promoted e) s r fit valid =
    let sound = sound_lem (promoted e) s refl fit valid in
    (
      omega (
        arith,
        version_at e.next s.attempt.target (ground (arith, fit)),
        target_range s r sound (ground (arith, fit)),
      ),
      r.previous_range,
    )
effect-Words (rolled_back e) s r fit valid = (
  omega
      (arith, version_at e.reverted_to s.attempt.previous (ground (arith, fit)), r.previous_range),
  omega arith,
)
effect-Words (abandoned cause) s r fit valid = (r.live_range, omega arith)
effect-Words (retire_started e) s r fit valid = (r.live_range, r.previous_range)
effect-Words (previous_retired e) s r fit valid = (r.live_range, omega arith)
effect-Words (retirement_policy_set e) s r fit valid = (r.live_range, r.previous_range)

effect-Ranged :
    (e : DomainEvent) (s : State)
    → Ranged s
    → fault e s ≡ none
    → validate s ≡ none
    → Ranged (effect e s)
unfolding Words
effect-Ranged e s r fit valid =
    let words = effect-Words e s r fit valid in
    record {
      allocated_range =
          CountsTo-bound (version_of e) s.allocated _ r.allocated_range
            (initiated-counts e s fit r.allocated_range);
      revision_range =
          CountsTo-bound (revision_of e) s.cutover_revision _ r.revision_range
            (cutovers-counts e s fit r.revision_range);
      generation_range =
          CountsTo-bound (generation_of e) s.retirement_policy.generation _ r.generation_range
            (generations-counts e s fit r.generation_range);
      live_range = words.0;
      previous_range = words.1;
    }

Sound-valid :
    (s : State)
    → s.invalid_reason ≡ none
    → Sound s
    → (validate s ≡ none) × (is_empty s.name ≡ false)
unfolding validate
Sound-valid s clean sound =
    let named = (validate_id-eq_none _ sound.grounded.good_name).1 in
    (ground (arith, clean, named, Sound-named s sound), named)

-- What an event leaves where the fold observes nothing.
pub step_lem :
    (e : DomainEvent) (s : State)
    → Ranged s
    → validate s ≡ none
    → (apply_to e s).invalid_reason ≡ none
    → Ranged (apply_to e s)
      × (validate (apply_to e s) ≡ none)
      × (is_empty (apply_to e s).name ≡ false)
step_lem e s r valid h =
    let clean = apply_to-clean e s h in
    let next =
      Sound-valid (effect e s) (effect-keeps e s ∙ clean.0) (effect-Sound e s r clean.1 valid) in
    rw clean.2 (effect-Ranged e s r clean.1 valid, next.0, next.1)

-- An event that the fold does not object to, on a state that `validate` accepts, leaves a state that
-- it accepts too, where the numbers of the state are machine words and its counters not negative.
pub validate-apply_to :
    (e : DomainEvent) (s : State)
    → Ranged s
    → validate s ≡ none
    → (apply_to e s).invalid_reason ≡ none
    → validate (apply_to e s) ≡ none
validate-apply_to e s r valid h = (step_lem e s r valid h).1

fold_lem :
    (events : List DomainEvent) (s : State)
    → Ranged s
    → validate s ≡ none
    → (fold events s).invalid_reason ≡ none
    → (validate (fold events s) ≡ none)
      × (is_empty s.name ≡ false → is_empty (fold events s).name ≡ false)
unfolding fold
fold_lem [] s r valid h = (valid, λ named. named)
fold_lem (e ∷ events) s r valid h =
    let step = step_lem e s r valid (fold-clean e events s h) in
    let rest = fold_lem events (apply_to e s) step.0 step.1 h in (rest.0, λ named. rest.1 step.2)

pub new_state-Ranged : Ranged new_state
new_state-Ranged = record {
  allocated_range = omega arith;
  revision_range = omega arith;
  generation_range = omega arith;
  live_range = omega arith;
  previous_range = omega arith;
}

pub new_state-valid : validate new_state ≡ none
unfolding validate vacant id_eq text_eq
new_state-valid = refl

-- A history that the fold does not object to leaves a state that `validate` accepts.
pub validate-fold :
    (events : List DomainEvent)
    → (fold events new_state).invalid_reason ≡ none
    → validate (fold events new_state) ≡ none
validate-fold events h = (fold_lem events new_state new_state-Ranged new_state-valid h).0

accepted :
    (s : State)
    → (s.invalid_reason ≡ none → (validate s ≡ none) × (is_empty s.name ≡ false))
    → validate_snapshot_state s ≡ none
unfolding validate_snapshot_state
accepted s h = elim (Option-cases s.invalid_reason) [
  | inl clean ↦ ground (arith, clean, h clean)
  | inr (msg, seen) ↦ ground (arith, seen)
]

-- A snapshot of any history but the empty one is accepted when it is read back, whether or not the
-- fold has objected to an event.
pub validate_snapshot_state-fold :
    (e : DomainEvent) (events : List DomainEvent)
    → validate_snapshot_state (fold (e ∷ events) new_state) ≡ none
unfolding fold
validate_snapshot_state-fold e events = accepted (fold (e ∷ events) new_state) (λ h.
    let step =
      step_lem e new_state new_state-Ranged new_state-valid (fold-clean e events new_state h) in
    let rest = fold_lem events (apply_to e new_state) step.0 step.1 h in (rest.0, rest.1 step.2))
