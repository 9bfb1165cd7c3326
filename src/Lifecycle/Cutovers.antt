-- ===== src/Lifecycle/Cutovers.antt =====
-- projection/lifecycle/events.go: the events that close an attempt against `validate`.
use estoria.Prelude.{
  ℕ, ◌+◌, ◌≤◌, ◌<◌, ◌≡◌, refl, sym, ap, ◌∙◌, ◌≢◌, inl, inr, true, false, none, arith, ◌==◌,
  Bool-cases, Int64, int64_mod, int64_neg, sub64, lt64, sub64_lem, lt64_lem, le64_lem, Text,
}
use estoria.Projection.{ProjectionId, zero_id, id_eq, id_eq_iff, validate_id, validate_id-eq_none}
use estoria.Lifecycle.State.{
  State, zero_attempt, is_before_promotion, is_after_promotion, phase_none, validate_previous,
  validate_live_by_phase, validate_live, unreachable_rest,
}
use estoria.Lifecycle.Events.{
  abandoned, previous_retired, PreviousRetired, abandoned_fault, retired_fault,
}
use estoria.Lifecycle.Poison.{effect, fault}
use estoria.Lifecycle.Sound.{
  Grounded, InFlight, empty_slot, before_promotion, after_promotion, Sound,
}
use estoria.Lifecycle.Claims.{Grounded-attempt}
use estoria.Lifecycle.Rest.{
  is_reachable-of, unreachable_rest-none, reachable-abandoned, reachable-rolled_back,
  reachable-retired,
}

-- The numbers of a state are machine words, and its counters are not negative.
pub record Ranged (s : State) : Type 0 where
  pub allocated_range : s.allocated < int64_neg
  pub revision_range : s.cutover_revision < int64_neg
  pub generation_range : s.retirement_policy.generation < int64_neg
  pub live_range : s.live.version < int64_mod
  pub previous_range : s.attempt.previous.version < int64_mod

pub zero_version : (id : ProjectionId) → id_eq id zero_id ≡ true → id.version ≡ 0
unfolding id_eq
zero_version id h = ground arith

-- A positive word is not above the greatest number.
pub word_lem : (v : Int64) → v < int64_mod → lt64 v 1 ≡ false → (1 ≤ v) × (v < int64_neg)
unfolding lt64
word_lem v h k = ground arith

pub live-allocated : (s : State) → Ranged s → validate_live s ≡ none → s.live.version ≤ s.allocated
unfolding validate_live
live-allocated s r h = elim (Bool-cases (id_eq s.live zero_id)) [
  | inl unset ↦ omega (arith, zero_version s.live unset)
  | inr set ↦
      let good : validate_id s.live ≡ none = ground (arith, set, h) in
      let w = word_lem s.live.version r.live_range (validate_id-eq_none s.live good).0 in
      ground (arith, set, h, lt64_lem s.allocated s.live.version r.allocated_range w.1)
]

pub previous-allocated :
    (s : State)
    → Ranged s
    → lt64 s.allocated 1 ≡ false
    → (s.attempt.target.version == s.allocated) ≡ true
    → validate_previous s ≡ none
    → s.attempt.previous.version + 1 ≤ s.allocated
unfolding validate_previous
previous-allocated s r a t h =
    let w = word_lem s.allocated (omega (arith, r.allocated_range)) a in
    elim (Bool-cases (id_eq s.attempt.previous zero_id)) [
      | inl unset ↦ omega (arith, w.0, zero_version s.attempt.previous unset)
      | inr set ↦
          let good : validate_id s.attempt.previous ≡ none = ground (arith, set, h) in
          let v =
            word_lem s.attempt.previous.version r.previous_range
              (validate_id-eq_none s.attempt.previous good).0 in
          let last : s.attempt.target.version ≡ s.allocated = ground (arith, t) in
          ground (
            arith,
            set,
            h,
            last,
            le64_lem s.attempt.target.version s.attempt.previous.version (omega (arith, last, w.1))
                v.1,
          )
    ]

-- A completed rebuild that was abandoned.
rest-abandoned :
    (live : ProjectionId) (r c : ℕ)
    → live.version ≤ c
    → c + 1 < int64_neg
    → r < int64_neg
    → unreachable_rest live r c ≡ none
    → unreachable_rest live r (c + 1) ≡ none
rest-abandoned live r c hv hc hr h =
    unreachable_rest-none live r (c + 1) (omega arith) hc hr
      (reachable-abandoned _ live.version r c (is_reachable-of live r c hv (omega arith) hr h))

rest-rolled_back :
    (live : ProjectionId) (r c : ℕ)
    → live.version ≤ c
    → c + 1 < int64_neg
    → r + 2 < int64_neg
    → id_eq live zero_id ≡ false
    → unreachable_rest live r c ≡ none
    → unreachable_rest live (r + 2) (c + 1) ≡ none
rest-rolled_back live r c hv hc hr set h =
    let before = is_reachable-of live r c hv (omega arith) (omega arith) h in
    unreachable_rest-none live (r + 2) (c + 1) (omega arith) hc hr
      (rw set (reachable-rolled_back live.version r c (rw set at before)))

rest-retired :
    (previous live : ProjectionId) (r c : ℕ)
    → previous.version ≤ c
    → c + 1 < int64_neg
    → r + 1 < int64_neg
    → id_eq live zero_id ≡ false
    → live.version ≡ c + 1
    → unreachable_rest previous r c ≡ none
    → unreachable_rest live (r + 1) (c + 1) ≡ none
rest-retired previous live r c hv hc hr set top h =
    let before = is_reachable-of previous r c hv (omega arith) (omega arith) h in
    unreachable_rest-none live (r + 1) (c + 1) (omega (arith, top)) hc hr
      (rw (set, top) (reachable-retired _ previous.version r c before))

-- A state whose slot has been emptied.
pub emptied :
    (s : State)
    → Grounded s
    → lt64 s.allocated 1 ≡ false
    → unreachable_rest s.live s.cutover_revision s.allocated ≡ none
    → Sound (record s { attempt = zero_attempt })
emptied s g a rest = record {
  grounded = Grounded-attempt s zero_attempt g;
  allocation = a;
  slot = empty_slot refl rest;
}

one_lem : (v : Int64) → lt64 v 1 ≡ false → v ≢ 0
unfolding lt64
one_lem v h = ground arith

-- A valid ID is not the zero one.
pub set_lem : (id : ProjectionId) → validate_id id ≡ none → id_eq id zero_id ≡ false
unfolding id_eq
set_lem id h = ground (arith, (validate_id-eq_none id h).0, zero_version id, one_lem id.version)

module _ (s : State) (r : Ranged s) (g : Grounded s) (a : lt64 s.allocated 1 ≡ false)
    (f : InFlight s) where
  -- The allocation of the attempt in flight is not counted as completed.
  last_lem : sub64 s.allocated 1 + 1 ≡ s.allocated
  last_lem =
      let w = word_lem s.allocated (omega (arith, r.allocated_range)) a in
      omega (arith, w.0, sub64_lem s.allocated 1 (omega (arith, w.1)) w.0)

  previous_below : s.attempt.previous.version ≤ sub64 s.allocated 1
  previous_below = omega (arith, last_lem, previous-allocated s r a f.last_target f.good_previous)

  pub live_previous : is_before_promotion s.attempt.phase ≡ true → s.live ≡ s.attempt.previous
  unfolding validate_live_by_phase
  live_previous p = ground (arith, p, f.live_by_phase, id_eq_iff s.live s.attempt.previous)

  live_target : is_after_promotion s.attempt.phase ≡ true → s.live ≡ s.attempt.target
  unfolding validate_live_by_phase
  live_target p = ground (arith, p, f.live_by_phase, id_eq_iff s.live s.attempt.target)

  pub live_set : is_after_promotion s.attempt.phase ≡ true → id_eq s.live zero_id ≡ false
  live_set p = rw (live_target p) (set_lem s.attempt.target f.good_target)

  live_last : is_after_promotion s.attempt.phase ≡ true → s.live.version ≡ sub64 s.allocated 1 + 1
  live_last p =
      let t : s.attempt.target.version ≡ s.allocated = ground (arith, f.last_target) in
      ap (λ (id : ProjectionId). id.version) (live_target p) ∙ t ∙ sym last_lem

  cut_lem :
      is_after_promotion s.attempt.phase ≡ true
      → sub64 s.cutover_revision 1 + 1 ≡ s.cutover_revision
  cut_lem p =
      let c : lt64 s.cutover_revision 1 ≡ false = ground (arith, live_set p, g.cut) in
      let w = word_lem s.cutover_revision (omega (arith, r.revision_range)) c in
      omega (arith, w.0, sub64_lem s.cutover_revision 1 (omega (arith, w.1)) w.0)

  abandoned_rest :
      is_before_promotion s.attempt.phase ≡ true
      → unreachable_rest s.live s.cutover_revision (sub64 s.allocated 1) ≡ none
      → unreachable_rest s.live s.cutover_revision s.allocated ≡ none
  abandoned_rest p rest =
      let below : s.live.version ≤ sub64 s.allocated 1 = rw (live_previous p) previous_below in
      rw last_lem at (
        rest-abandoned s.live s.cutover_revision (sub64 s.allocated 1) below
          (omega (arith, last_lem, r.allocated_range)) r.revision_range rest)

  retired_rest :
      is_after_promotion s.attempt.phase ≡ true
      → unreachable_rest s.attempt.previous (sub64 s.cutover_revision 1) (sub64 s.allocated 1)
        ≡ none
      → unreachable_rest s.live s.cutover_revision s.allocated ≡ none
  retired_rest p rest =
      rw (last_lem, cut_lem p) at
        (rest-retired s.attempt.previous s.live (sub64 s.cutover_revision 1) (sub64 s.allocated 1)
          previous_below (omega (arith, last_lem, r.allocated_range))
          (omega (arith, cut_lem p, r.revision_range)) (live_set p) (live_last p) rest)

  pub rolled_back_rest :
      is_after_promotion s.attempt.phase ≡ true
      → id_eq s.attempt.previous zero_id ≡ false
      → s.cutover_revision + 1 < int64_neg
      → unreachable_rest s.attempt.previous (sub64 s.cutover_revision 1) (sub64 s.allocated 1)
        ≡ none
      → unreachable_rest s.attempt.previous (s.cutover_revision + 1) s.allocated ≡ none
  rolled_back_rest p set room rest =
      let up : sub64 s.cutover_revision 1 + 2 ≡ s.cutover_revision + 1 = omega (arith, cut_lem p) in
      rw (last_lem, up) at
        (rest-rolled_back s.attempt.previous (sub64 s.cutover_revision 1) (sub64 s.allocated 1)
          previous_below (omega (arith, last_lem, r.allocated_range)) (omega (arith, up, room)) set
          rest)

pub zero-phase : (s : State) → s.attempt ≡ zero_attempt → (s.attempt.phase == phase_none) ≡ true
zero-phase s h = rw h refl

pub abandoned-Sound :
    (cause : Text) (s : State)
    → Ranged s
    → fault (abandoned cause) s ≡ none
    → Sound s
    → Sound (effect (abandoned cause) s)
unfolding fault effect abandoned_fault
abandoned-Sound cause s r fit sound = emptied s sound.grounded sound.allocation (elim sound.slot [
  | empty_slot empty rest ↦ rest
  | before_promotion p rest f ↦ abandoned_rest s r sound.grounded sound.allocation f p rest
  | after_promotion p rest f ↦ absurd (ground (arith, p, fit))
])

pub retired-Sound :
    (e : PreviousRetired) (s : State)
    → Ranged s
    → fault (previous_retired e) s ≡ none
    → Sound s
    → Sound (effect (previous_retired e) s)
unfolding fault effect retired_fault
retired-Sound e s r fit sound = emptied s sound.grounded sound.allocation (elim sound.slot [
  | empty_slot empty rest ↦ rest
  | before_promotion p rest f ↦ absurd (ground (arith, p, fit))
  | after_promotion p rest f ↦ retired_rest s r sound.grounded sound.allocation f p rest
])
