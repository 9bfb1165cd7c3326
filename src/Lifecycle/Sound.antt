-- ===== src/Lifecycle/Sound.antt =====
-- projection/lifecycle/state.go `validate`: the checks of a named state, regrouped by what the slot
-- for an attempt holds.
use estoria.Prelude.{
  ◌≡◌, refl, ◌↔◌, ◌⊎◌, inl, inr, true, false, not, ◌&&◌, ◌||◌, none, arith, ◌==◌, is_empty, sub64,
  lt64, text_eq,
}
use estoria.TypeId.{nil_uuid}
use estoria.Projection.{zero_id, id_eq, id_eq_iff, validate_id}
use estoria.Lifecycle.Retirement.{validate_policy, invalid_witness_set}
use estoria.Lifecycle.State.{
  State, AttemptState, zero_attempt, vacant, is_before_promotion, is_after_promotion, phase_created,
  phase_retiring, unreachable_rest, validate_captured, validate_previous, validate_live_by_phase,
  validate_in_flight, validate_attempt, validate_live, validate_rest, validate_named,
}

-- What validate asks of the state around the slot.
pub record Grounded (s : State) : Type 0 where
  pub good_policy : validate_policy s.retirement_policy ≡ none
  pub good_name : validate_id (record { name = s.name; version = 1 }) ≡ none
  pub good_live : validate_live s ≡ none
  pub uncut : (id_eq s.live zero_id && not (s.cutover_revision == 0)) ≡ false
  pub cut : (not (id_eq s.live zero_id) && lt64 s.cutover_revision 1) ≡ false

-- What it asks of an attempt in flight.
pub record InFlight (s : State) : Type 0 where
  pub no_stray :
      (not (s.attempt.phase == phase_retiring) && not (is_empty s.attempt.retiring_witnesses))
      ≡ false
  pub canonical : invalid_witness_set s.attempt.retiring_witnesses ≡ none
  pub captured : validate_captured s.attempt.retiring_witnesses s.retirement_policy ≡ none
  pub identified : (s.attempt.id == nil_uuid) ≡ false
  pub good_target : validate_id s.attempt.target ≡ none
  pub own_target : text_eq s.attempt.target.name s.name ≡ true
  pub last_target : (s.attempt.target.version == s.allocated) ≡ true
  pub claimed : (not (s.attempt.phase == phase_created) && s.attempt.runner == nil_uuid) ≡ false
  pub released_claim : (s.attempt.released && s.attempt.runner == nil_uuid) ≡ false
  pub good_previous : validate_previous s ≡ none
  pub live_by_phase : validate_live_by_phase s ≡ none

-- What the slot holds, and the rest state behind it.
pub data Slot (s : State) : Type 0 where
  empty_slot :
      s.attempt ≡ zero_attempt
      → unreachable_rest s.live s.cutover_revision s.allocated ≡ none
      → Slot s
  before_promotion :
      is_before_promotion s.attempt.phase ≡ true
      → unreachable_rest s.live s.cutover_revision (sub64 s.allocated 1) ≡ none
      → InFlight s
      → Slot s
  after_promotion :
      is_after_promotion s.attempt.phase ≡ true
      → unreachable_rest s.attempt.previous (sub64 s.cutover_revision 1) (sub64 s.allocated 1)
        ≡ none
      → InFlight s
      → Slot s

pub record Sound (s : State) : Type 0 where
  pub grounded : Grounded s
  pub allocation : lt64 s.allocated 1 ≡ false
  pub slot : Slot s

pub vacant-eq : (a : AttemptState) → vacant a ≡ true → a ≡ zero_attempt
unfolding vacant
vacant-eq a h = ground (arith, h, id_eq_iff a.target zero_id, id_eq_iff a.previous zero_id)

InFlight-of_checks : (s : State) → validate_in_flight s ≡ none → InFlight s
unfolding validate_in_flight
InFlight-of_checks s h = record {
  no_stray = ground (arith, h);
  canonical = ground (arith, h);
  captured = ground (arith, h);
  identified = ground (arith, h);
  good_target = ground (arith, h);
  own_target = ground (arith, h);
  last_target = ground (arith, h);
  claimed = ground (arith, h);
  released_claim = ground (arith, h);
  good_previous = ground (arith, h);
  live_by_phase = ground (arith, h);
}

validate_in_flight-none :
    (s : State)
    → (is_before_promotion s.attempt.phase || is_after_promotion s.attempt.phase) ≡ true
    → InFlight s
    → validate_in_flight s ≡ none
unfolding validate_in_flight
validate_in_flight-none s h f = ground (
  arith, h, f.no_stray, f.canonical, f.captured, f.identified, f.good_target, f.own_target,
  f.last_target, f.claimed, f.released_claim, f.good_previous, f.live_by_phase,
)

in_flight-not_vacant :
    (a : AttemptState)
    → (is_before_promotion a.phase || is_after_promotion a.phase) ≡ true
    → vacant a ≡ false
unfolding vacant
in_flight-not_vacant a h = ground (arith, h)

before-not_after :
    (a : AttemptState) → is_before_promotion a.phase ≡ true → is_after_promotion a.phase ≡ false
before-not_after a h = ground (arith, h)

rest-before :
    (s : State)
    → is_before_promotion s.attempt.phase ≡ true
    → (validate_rest s ≡ none)
      ↔ (unreachable_rest s.live s.cutover_revision (sub64 s.allocated 1) ≡ none)
unfolding validate_rest
rest-before s h =
    ground (arith, in_flight-not_vacant s.attempt (ground (arith, h)), before-not_after s.attempt h)

rest-after :
    (s : State)
    → is_after_promotion s.attempt.phase ≡ true
    → (validate_rest s ≡ none) ↔ (
        unreachable_rest s.attempt.previous (sub64 s.cutover_revision 1) (sub64 s.allocated 1)
        ≡ none)
unfolding validate_rest
rest-after s h = ground (arith, in_flight-not_vacant s.attempt (ground (arith, h)), h)

rest-vacant :
    (s : State)
    → vacant s.attempt ≡ true
    → (validate_rest s ≡ none) ↔ (unreachable_rest s.live s.cutover_revision s.allocated ≡ none)
unfolding validate_rest
rest-vacant s h = ground (arith, h)

-- The phases that an attempt can have where its checks pass.
attempt-cases :
    (s : State)
    → validate_attempt s ≡ none
    → (vacant s.attempt ≡ true)
      ⊎ ((is_before_promotion s.attempt.phase ≡ true) × (validate_in_flight s ≡ none))
      ⊎ ((is_after_promotion s.attempt.phase ≡ true) × (validate_in_flight s ≡ none))
unfolding validate_attempt validate_in_flight
attempt-cases s h = ground (arith, h)

attempt-flight :
    (s : State)
    → (is_before_promotion s.attempt.phase || is_after_promotion s.attempt.phase) ≡ true
    → validate_in_flight s ≡ none
    → validate_attempt s ≡ none
unfolding validate_attempt
attempt-flight s p h = ground (arith, p, h)

attempt-vacant :
    (s : State) → s.attempt ≡ zero_attempt → (vacant s.attempt ≡ true) × (validate_attempt s ≡ none)
unfolding validate_attempt vacant id_eq text_eq
attempt-vacant s h = rw h (refl, refl)

named-Grounded : (s : State) → validate_named s ≡ none → Grounded s
unfolding validate_named
named-Grounded s h = record {
  good_policy = ground (arith, h);
  good_name = ground (arith, h);
  good_live = ground (arith, h);
  uncut = ground (arith, h);
  cut = ground (arith, h);
}

named-rest :
    (s : State)
    → validate_named s ≡ none
    → (lt64 s.allocated 1 ≡ false) × (validate_rest s ≡ none) × (validate_attempt s ≡ none)
unfolding validate_named
named-rest s h = (ground (arith, h), ground (arith, h), ground (arith, h))

named-Slot : (s : State) → validate_named s ≡ none → Slot s
named-Slot s h =
    let rest = named-rest s h in
    elim (attempt-cases s rest.2) [
      | inl empty ↦ empty_slot (vacant-eq s.attempt empty) ((rest-vacant s empty).0 rest.1)
      | inr (inl (p, f)) ↦ before_promotion p ((rest-before s p).0 rest.1) (InFlight-of_checks s f)
      | inr (inr (p, f)) ↦ after_promotion p ((rest-after s p).0 rest.1) (InFlight-of_checks s f)
    ]

pub named-Sound : (s : State) → validate_named s ≡ none → Sound s
named-Sound s h = record {
  grounded = named-Grounded s h;
  allocation = (named-rest s h).0;
  slot = named-Slot s h;
}

Slot-named : (s : State) → Slot s → (validate_rest s ≡ none) × (validate_attempt s ≡ none)
Slot-named s (empty_slot empty rest) =
    let vac = attempt-vacant s empty in ((rest-vacant s vac.0).1 rest, vac.1)
Slot-named s (before_promotion p rest f) =
    let q : (is_before_promotion s.attempt.phase || is_after_promotion s.attempt.phase) ≡ true =
      ground (arith, p) in
    ((rest-before s p).1 rest, attempt-flight s q (validate_in_flight-none s q f))
Slot-named s (after_promotion p rest f) =
    let q : (is_before_promotion s.attempt.phase || is_after_promotion s.attempt.phase) ≡ true =
      ground (arith, p) in
    ((rest-after s p).1 rest, attempt-flight s q (validate_in_flight-none s q f))

pub Sound-named : (s : State) → Sound s → validate_named s ≡ none
unfolding validate_named
Sound-named s sound =
    let g = sound.grounded in
    let slot = Slot-named s sound.slot in
    ground (
      arith, g.good_policy, g.good_name, sound.allocation, g.good_live, g.uncut, g.cut, slot.0,
      slot.1,
    )
