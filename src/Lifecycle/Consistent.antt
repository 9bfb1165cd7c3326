-- ===== src/Lifecycle/Consistent.antt =====
-- projection/lifecycle: RebuildInitiated against `validate`.
use estoria.Prelude.{
  ℕ, ◌+◌, ◌-◌, ◌≤◌, ◌<◌, ◌≡◌, refl, sym, ◌∙◌, inl, inr, true, false, not, ◌&&◌, none, arith, ◌==◌,
  Bool-cases, is_empty, Int64, int64_neg, lt64, le64, max64, sub64_lem, le64_lem, Text, text_eq,
  text_eq_iff,
}
use estoria.Projection.{ProjectionId, zero_id, id_eq, id_eq_iff, validate_id, validate_id-version}
use estoria.Lifecycle.Retirement.{
  RetirementPolicy, is_zero_policy, invalid_witness_set, invalid_witnesses_after, validate_policy,
}
use estoria.Lifecycle.State.{
  State, AttemptState, zero_attempt, phase_none, phase_created, validate_captured,
  validate_previous, validate_live_by_phase, validate_live, unreachable_rest, validate,
  validate_named,
}
use estoria.Lifecycle.Events.{rebuild_initiated, RebuildInitiated, initiated_fault}
use estoria.Lifecycle.Poison.{effect, fault}
use estoria.Lifecycle.Counting.{CountsTo, version_of}
use estoria.Lifecycle.Sequence.{initiated-counts}
use estoria.Lifecycle.Sound.{
  Grounded, InFlight, Slot, empty_slot, before_promotion, after_promotion, Sound, named-Sound,
}
use estoria.Lifecycle.Policies.{empty_set}
use estoria.Lifecycle.Cutovers.{Ranged, live-allocated}
use estoria.Lifecycle.Preserved.{le_lem}

-- A state at rest, with the name that a rebuild gives it, opens a rebuild.
module _ (e : RebuildInitiated) (s : State) (name : Text) (r : Ranged s)
    (fit : fault (rebuild_initiated e) s ≡ none) (g : Grounded (record s { name = name }))
    (own : text_eq e.target.name name ≡ true)
    (rest : unreachable_rest s.live s.cutover_revision s.allocated ≡ none) where
  next_allocated :
      (e.target.version ≡ s.allocated + 1)
      × (max64 s.allocated e.target.version ≡ s.allocated + 1)
      × (s.allocated + 1 < int64_neg)
  unfolding CountsTo version_of effect
  next_allocated =
      let step = initiated-counts (rebuild_initiated e) s fit r.allocated_range in
      (step.0, step.1 ∙ step.0, omega (arith, step.0, step.1, step.2))

  live_below : s.live.version ≤ s.allocated
  live_below =
      live-allocated (record s { name = name })
        (record {
          allocated_range = r.allocated_range;
          revision_range = r.revision_range;
          generation_range = r.generation_range;
          live_range = r.live_range;
          previous_range = r.previous_range;
        })
        g.good_live

  opened_attempt : AttemptState
  opened_attempt = record zero_attempt {
    id = e.attempt;
    target = e.target;
    previous = e.previous;
    phase = phase_created;
    reason = e.reason;
    initiated_at = e.at;
  }

  opened : State
  opened = record s { name = name; allocated = s.allocated + 1; attempt = opened_attempt }

  opened-InFlight : InFlight opened
  unfolding opened opened_attempt fault initiated_fault validate_captured validate_previous
      validate_live_by_phase invalid_witness_set invalid_witnesses_after validate_live
  opened-InFlight =
      let same : e.previous ≡ s.live = ground (arith, fit, id_eq_iff e.previous s.live) in
      let older : le64 e.target.version s.live.version ≡ false = ground (
        arith,
        next_allocated.0,
        le64_lem e.target.version s.live.version (omega (arith, next_allocated.0, next_allocated.2))
            (omega (arith, live_below, r.allocated_range)),
        live_below,
      ) in
      record {
        no_stray = refl;
        canonical = refl;
        captured = refl;
        identified = ground (arith, fit);
        good_target = ground (arith, fit);
        own_target = own;
        last_target = ground (arith, next_allocated.0);
        claimed = refl;
        released_claim = refl;
        good_previous = rw same (ground (arith, g.good_live, older));
        live_by_phase = ground (arith, (id_eq_iff s.live e.previous).1 (sym same));
      }

  opened-Grounded : Grounded opened
  unfolding opened validate_live
  opened-Grounded = record {
    good_policy = g.good_policy;
    good_name = g.good_name;
    good_live = ground (
      arith,
      g.good_live,
      le_lem (s.allocated + 1) s.live.version next_allocated.2 (omega (arith, live_below)),
    );
    uncut = g.uncut;
    cut = g.cut;
  }

  opened-Sound : Sound opened
  unfolding opened opened_attempt
  opened-Sound =
      let back : ◌≡◌ {A = ℕ} (s.allocated + 1 - 1) s.allocated = omega arith in
      record {
        grounded = opened-Grounded;
        allocation = le_lem (s.allocated + 1) 1 next_allocated.2 (omega arith);
        slot =
            before_promotion refl
              (rw
                (
                  sub64_lem (s.allocated + 1) 1 (omega (arith, next_allocated.2)) (omega arith),
                  back,
                )
                rest)
              opened-InFlight;
      }

zero_policy-valid : (p : RetirementPolicy) → is_zero_policy p ≡ true → validate_policy p ≡ none
unfolding validate_policy lt64
zero_policy-valid p h = ground (arith, h, empty_set p.witnesses)

pub validate-named :
    (s : State) → is_empty s.name ≡ false → validate s ≡ none → validate_named s ≡ none
unfolding validate
validate-named s named h = ground (arith, named, h)

-- A state that records no name is at rest, whatever name it is given.
unnamed-Grounded :
    (s : State) (name : Text)
    → is_empty s.name ≡ true
    → validate s ≡ none
    → validate_id (record { name = name; version = 1 }) ≡ none
    → Grounded (record s { name = name })
      × (s.cutover_revision ≡ 0)
      × (id_eq s.live zero_id ≡ true)
      × (s.allocated ≡ 0)
unfolding validate validate_live
unnamed-Grounded s name unnamed h good =
    let zero_rev : (s.cutover_revision == 0) ≡ true = ground (arith, unnamed, h) in
    let unset : id_eq s.live zero_id ≡ true = ground (arith, unnamed, h) in
    let policy : is_zero_policy s.retirement_policy ≡ true = ground (arith, unnamed, h) in
    (
      record {
        good_policy = zero_policy-valid s.retirement_policy policy;
        good_name = good;
        good_live = ground (arith, unset);
        uncut = ground (arith, zero_rev);
        cut = ground (arith, unset);
      },
      ground (arith, zero_rev),
      unset,
      ground (arith, unnamed, h),
    )

unset_rest :
    (live : ProjectionId) (r c : Int64)
    → id_eq live zero_id ≡ true
    → r ≡ 0
    → c ≡ 0
    → unreachable_rest live r c ≡ none
unfolding unreachable_rest id_eq lt64
unset_rest live r c h k m = ground (arith, h, k, m)

-- What the checks of RebuildInitiated ask of the names.
initiated-name :
    (e : RebuildInitiated) (s : State)
    → fault (rebuild_initiated e) s ≡ none
    → (validate_id e.target ≡ none)
      × ((s.attempt.phase == phase_none) ≡ true)
      × ((not (is_empty s.name) && not (text_eq e.target.name s.name)) ≡ false)
unfolding fault initiated_fault
initiated-name e s fit = (ground (arith, fit), ground (arith, fit), ground (arith, fit))

rest_of :
    (s : State)
    → (s.attempt.phase == phase_none) ≡ true
    → Slot s
    → unreachable_rest s.live s.cutover_revision s.allocated ≡ none
rest_of s idle (empty_slot empty rest) = rest
rest_of s idle (before_promotion p rest f) = absurd (ground (arith, idle, p))
rest_of s idle (after_promotion p rest f) = absurd (ground (arith, idle, p))

pub initiated-Sound :
    (e : RebuildInitiated) (s : State)
    → Ranged s
    → fault (rebuild_initiated e) s ≡ none
    → validate s ≡ none
    → Sound (effect (rebuild_initiated e) s)
unfolding effect opened opened_attempt
initiated-Sound e s r fit valid =
    let names = initiated-name e s fit in
    elim (Bool-cases (is_empty s.name)) [
      | inl unnamed ↦
          let good = unnamed-Grounded s e.target.name unnamed valid (
            validate_id-version e.target.name e.target.version 1 (omega arith) (omega arith)
              names.0) in
          let rest = unset_rest s.live s.cutover_revision s.allocated good.2 good.1 good.3 in
          let own : text_eq e.target.name e.target.name ≡ true =
            (text_eq_iff e.target.name e.target.name).1 refl in
          rw (unnamed, (next_allocated e s e.target.name r fit good.0 own rest).1)
            (opened-Sound e s e.target.name r fit good.0 own rest)
      | inr named ↦
          let sound = named-Sound s (validate-named s named valid) in
          let own : text_eq e.target.name s.name ≡ true = ground (arith, named, names.2) in
          let rest = rest_of s names.1 sound.slot in
          rw (named, (next_allocated e s s.name r fit sound.grounded own rest).1)
            (opened-Sound e s s.name r fit sound.grounded own rest)
    ]
