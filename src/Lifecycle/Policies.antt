-- ===== src/Lifecycle/Policies.antt =====
-- projection/lifecycle: RetireStarted and RetirementPolicySet against `validate`.
use estoria.Prelude.{
  ℕ, ◌+◌, ◌-◌, ◌<◌, ◌≡◌, refl, true, false, none, List, [], ◌∷◌, arith, leb, is_empty, int64_neg,
  max_int64, add64_lem, lt64_lem, le64_lem, Text,
}
use estoria.Lifecycle.Retirement.{
  RetirementPolicy, invalid_witness_set, invalid_witnesses_after, validate_policy, slices_equal_iff,
}
use estoria.Lifecycle.State.{
  State, validate_captured, validate_previous, validate_live_by_phase, validate_live,
}
use estoria.Lifecycle.Events.{
  retire_started, retirement_policy_set, RetireStarted, RetirementPolicySet, retire_fault,
  retire_witness_fault, policy_fault,
}
use estoria.Lifecycle.Poison.{effect, fault}
use estoria.Lifecycle.Sound.{InFlight, Slot, empty_slot, before_promotion, after_promotion, Sound}
use estoria.Lifecycle.Claims.{Sound-attempt}

pub empty_set : (ws : List Text) → is_empty ws ≡ true → invalid_witness_set ws ≡ none
unfolding invalid_witness_set invalid_witnesses_after
empty_set [] h = refl
empty_set (w ∷ ws) h = absurd (ground arith)

-- What the checks of RetireStarted leave the captured witnesses to be.
captured_lem :
    (e : RetireStarted) (s : State)
    → retire_witness_fault e s ≡ none
    → validate_policy s.retirement_policy ≡ none
    → (invalid_witness_set e.witnesses ≡ none)
      × (validate_captured e.witnesses s.retirement_policy ≡ none)
unfolding retire_witness_fault validate_policy validate_captured
captured_lem e s fit good = ground (
  arith,
  fit,
  good,
  slices_equal_iff e.witnesses s.retirement_policy.witnesses,
  empty_set e.witnesses,
)

pub retire-Sound :
    (e : RetireStarted) (s : State)
    → fault (retire_started e) s ≡ none
    → Sound s
    → Sound (effect (retire_started e) s)
unfolding fault effect retire_fault validate_previous validate_live_by_phase
retire-Sound e s fit sound =
    let captured = captured_lem e s (ground (arith, fit)) sound.grounded.good_policy in
    Sound-attempt s _ (ground (arith, fit)) refl (λ p f. absurd (ground (arith, p, fit)))
      (λ p f. (
        refl,
        record {
          no_stray = refl;
          canonical = captured.0;
          captured = captured.1;
          identified = f.identified;
          good_target = f.good_target;
          own_target = f.own_target;
          last_target = f.last_target;
          claimed = ground (arith, fit, f.claimed);
          released_claim = f.released_claim;
          good_previous = f.good_previous;
          live_by_phase = ground (arith, fit, f.live_by_phase);
        },
      ))
      sound

-- The checks of RetirementPolicySet leave a policy that `validate` accepts.
pub policy_lem :
    (e : RetirementPolicySet) (s : State)
    → fault (retirement_policy_set e) s ≡ none
    → s.retirement_policy.generation < int64_neg
    → (validate_policy (record {
      generation = e.generation;
      witnesses = e.witnesses;
      unwitnessed = e.unwitnessed;
    })
        ≡ none)
      × (e.generation ≡ s.retirement_policy.generation + 1)
unfolding fault policy_fault validate_policy
policy_lem e s fit bound =
    let g : ℕ = s.retirement_policy.generation in
    let low : leb (max_int64 - 1) g ≡ false =
      ground (arith, fit, le64_lem (max_int64 - 1) g (omega arith) bound) in
    let next : e.generation ≡ g + 1 = ground (arith, fit, add64_lem g 1 (omega arith)) in
    let fits : e.generation < max_int64 = ground (arith, low, next) in
    (
      ground (
        arith,
        fit,
        next,
        fits,
        lt64_lem e.generation 0 (omega arith) (omega arith),
        lt64_lem 0 e.generation (omega arith) (omega arith),
      ),
      next,
    )

-- A new policy leaves an attempt as it is: the witnesses that it has captured belong to an earlier
-- generation, so the new one is at least the second.
InFlight-policy :
    (s : State) (policy : RetirementPolicy)
    → policy.generation ≡ s.retirement_policy.generation + 1
    → InFlight s
    → InFlight (record s { retirement_policy = policy })
unfolding validate_captured validate_previous validate_live_by_phase
InFlight-policy s policy next f = record {
  no_stray = f.no_stray;
  canonical = f.canonical;
  captured = ground (arith, next, f.captured);
  identified = f.identified;
  good_target = f.good_target;
  own_target = f.own_target;
  last_target = f.last_target;
  claimed = f.claimed;
  released_claim = f.released_claim;
  good_previous = f.good_previous;
  live_by_phase = f.live_by_phase;
}

Slot-policy :
    (s : State) (policy : RetirementPolicy)
    → policy.generation ≡ s.retirement_policy.generation + 1
    → Slot s
    → Slot (record s { retirement_policy = policy })
Slot-policy s policy next (empty_slot empty rest) = empty_slot empty rest
Slot-policy s policy next (before_promotion p rest f) =
    before_promotion p rest (InFlight-policy s policy next f)
Slot-policy s policy next (after_promotion p rest f) =
    after_promotion p rest (InFlight-policy s policy next f)

pub policy-Sound :
    (e : RetirementPolicySet) (s : State)
    → fault (retirement_policy_set e) s ≡ none
    → s.retirement_policy.generation < int64_neg
    → Sound s
    → Sound (effect (retirement_policy_set e) s)
unfolding effect validate_live
policy-Sound e s fit bound sound =
    let policy = policy_lem e s fit bound in
    let g = sound.grounded in
    record {
      grounded = record {
        good_policy = policy.0;
        good_name = g.good_name;
        good_live = g.good_live;
        uncut = g.uncut;
        cut = g.cut;
      };
      allocation = sound.allocation;
      slot = Slot-policy s _ policy.1 sound.slot;
    }
