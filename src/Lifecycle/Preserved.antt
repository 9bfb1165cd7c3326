-- ===== src/Lifecycle/Preserved.antt =====
-- projection/lifecycle/events.go: promotions and rollbacks against `validate`.
use estoria.Prelude.{
  ℕ, ◌+◌, ◌≤◌, ◌<◌, ◌≡◌, refl, true, false, none, arith, ◌==◌, Int64, int64_neg, max_int64, add64,
  sub64, lt64, max64, add64_lem, sub64_lem, lt64_lem, max64-eq,
}
use estoria.Projection.{zero_id, id_eq, id_eq_iff}
use estoria.Lifecycle.State.{
  State, AttemptState, phase_caught_up, phase_promoted, validate_previous, validate_live_by_phase,
  validate_live,
}
use estoria.Lifecycle.Events.{
  promoted, rolled_back, Promoted, RolledBack, promoted_fault, rolled_back_fault,
}
use estoria.Lifecycle.Poison.{effect, fault}
use estoria.Lifecycle.Sound.{
  Grounded, InFlight, empty_slot, before_promotion, after_promotion, Sound,
}
use estoria.Lifecycle.Cutovers.{
  Ranged, emptied, set_lem, live_previous, zero-phase, previous-allocated, rolled_back_rest,
}

-- What a cutover counts up to.
next_revision :
    (r n : Int64)
    → r < int64_neg
    → (r == max_int64) ≡ false
    → n ≡ add64 r 1
    → (max64 r n ≡ r + 1) × (r + 1 < int64_neg)
next_revision r n bound last next =
    let room : r + 1 < int64_neg = ground (arith, last) in
    let step : n ≡ r + 1 = omega (arith, next, add64_lem r 1 (omega arith)) in
    (ground (arith, max64-eq r n bound (omega (arith, step, room)), step), room)

pub le_lem : (a b : Int64) → a < int64_neg → b ≤ a → lt64 a b ≡ false
le_lem a b h k = ground (arith, lt64_lem a b h (omega arith))

module _ (s : State) (r : Ranged s) (sound : Sound s) (f : InFlight s)
    (room : s.cutover_revision + 1 < int64_neg) where
  promoted-Grounded :
      (a : AttemptState)
      → Grounded (record s {
        live = s.attempt.target;
        cutover_revision = s.cutover_revision + 1;
        attempt = a;
      })
  unfolding validate_live
  promoted-Grounded a =
      let set = set_lem s.attempt.target f.good_target in
      let last : s.attempt.target.version ≡ s.allocated = ground (arith, f.last_target) in
      let cut : lt64 (s.cutover_revision + 1) 1 ≡ false =
        le_lem (s.cutover_revision + 1) 1 room (omega arith) in
      record {
        good_policy = sound.grounded.good_policy;
        good_name = sound.grounded.good_name;
        good_live = ground (
          arith,
          set,
          f.good_target,
          f.own_target,
          le_lem s.allocated s.attempt.target.version r.allocated_range (omega (arith, last)),
        );
        uncut = ground (arith, set);
        cut = ground (arith, cut);
      }

  promoted-InFlight :
      (at : ℕ)
      → (s.attempt.phase == phase_caught_up) ≡ true
      → InFlight (record s {
        live = s.attempt.target;
        cutover_revision = s.cutover_revision + 1;
        attempt = record s.attempt { phase = phase_promoted; promoted_at = at };
      })
  unfolding validate_previous validate_live_by_phase
  promoted-InFlight at p = record {
    no_stray = ground (arith, f.no_stray, p);
    canonical = f.canonical;
    captured = f.captured;
    identified = f.identified;
    good_target = f.good_target;
    own_target = f.own_target;
    last_target = f.last_target;
    claimed = ground (arith, f.claimed, p);
    released_claim = f.released_claim;
    good_previous = f.good_previous;
    live_by_phase = ground (arith, (id_eq_iff s.attempt.target s.attempt.target).1 refl);
  }

  rolled_back-Grounded :
      id_eq s.attempt.previous zero_id ≡ false
      → Grounded (record s { live = s.attempt.previous; cutover_revision = s.cutover_revision + 1 })
  unfolding validate_live validate_previous
  rolled_back-Grounded set =
      let below = previous-allocated s r sound.allocation f.last_target f.good_previous in
      let cut : lt64 (s.cutover_revision + 1) 1 ≡ false =
        le_lem (s.cutover_revision + 1) 1 room (omega arith) in
      record {
        good_policy = sound.grounded.good_policy;
        good_name = sound.grounded.good_name;
        good_live = ground (
          arith,
          set,
          f.good_previous,
          le_lem s.allocated s.attempt.previous.version r.allocated_range (omega (arith, below)),
        );
        uncut = ground (arith, set);
        cut = ground (arith, cut);
      }

pub promoted-Sound :
    (e : Promoted) (s : State)
    → Ranged s
    → fault (promoted e) s ≡ none
    → Sound s
    → Sound (effect (promoted e) s)
unfolding fault effect promoted_fault
promoted-Sound e s r fit sound = elim sound.slot [
  | empty_slot empty rest ↦ absurd (ground (arith, fit, zero-phase s empty))
  | after_promotion p rest f ↦ absurd (ground (arith, p, fit))
  | before_promotion p rest f ↦
      let rev =
        next_revision s.cutover_revision e.revision r.revision_range (ground (arith, fit))
          (ground (arith, fit)) in
      let next : e.next ≡ s.attempt.target =
        ground (arith, fit, id_eq_iff e.next s.attempt.target) in
      let back : sub64 (s.cutover_revision + 1) 1 ≡ s.cutover_revision =
        omega (
          arith,
          rev.1,
          sub64_lem (s.cutover_revision + 1) 1 (omega (arith, rev.1)) (omega arith),
        ) in
      rw (next, rev.0)
        (record {
          grounded = promoted-Grounded s r sound f rev.1 _;
          allocation = sound.allocation;
          slot =
              after_promotion refl
                (rw (back, ← live_previous s r sound.grounded sound.allocation f p) rest)
                (promoted-InFlight s r sound f rev.1 e.at (ground (arith, fit)));
        })
]

pub rolled_back-Sound :
    (e : RolledBack) (s : State)
    → Ranged s
    → fault (rolled_back e) s ≡ none
    → Sound s
    → Sound (effect (rolled_back e) s)
unfolding fault effect rolled_back_fault
rolled_back-Sound e s r fit sound = elim sound.slot [
  | empty_slot empty rest ↦ absurd (ground (arith, fit, zero-phase s empty))
  | before_promotion p rest f ↦ absurd (ground (arith, p, fit))
  | after_promotion p rest f ↦
      let rev =
        next_revision s.cutover_revision e.revision r.revision_range (ground (arith, fit))
          (ground (arith, fit)) in
      let to : e.reverted_to ≡ s.attempt.previous =
        ground (arith, fit, id_eq_iff e.reverted_to s.attempt.previous) in
      let set : id_eq s.attempt.previous zero_id ≡ false = ground (arith, fit) in
      rw (to, rev.0)
        (emptied (record s { live = s.attempt.previous; cutover_revision = s.cutover_revision + 1 })
          (rolled_back-Grounded s r sound f rev.1 set) sound.allocation
          (rolled_back_rest s r sound.grounded sound.allocation f p set rev.1 rest))
]
