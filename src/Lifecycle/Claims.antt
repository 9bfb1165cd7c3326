-- ===== src/Lifecycle/Claims.antt =====
-- projection/lifecycle/events.go: the events that leave the rest state behind an attempt as it is,
-- against `validate`.
use estoria.Prelude.{ℕ, ◌≡◌, refl, Bool, true, false, none, arith, ◌==◌}
use estoria.TypeId.{nil_uuid}
use estoria.Lifecycle.State.{
  State, AttemptState, zero_attempt, is_before_promotion, is_after_promotion, phase_none,
  phase_building, phase_caught_up, validate_previous, validate_live_by_phase, validate_live,
}
use estoria.Lifecycle.Events.{
  runner_claimed, runner_released, build_started, caught_up, RunnerClaimed, RunnerReleased,
  CaughtUp, claim_ids_fault, claim_phase_fault, release_ids_fault, release_phase_fault,
  started_fault, caught_up_fault,
}
use estoria.Lifecycle.Poison.{effect, fault}
use estoria.Lifecycle.Sound.{
  Grounded, InFlight, Slot, empty_slot, before_promotion, after_promotion, Sound,
}

-- An attempt that is not vacant has a phase.
vacant-phase : (s : State) → s.attempt ≡ zero_attempt → (s.attempt.phase == phase_none) ≡ true
vacant-phase s h = rw h refl

-- A state with another attempt has the same ground.
pub Grounded-attempt :
    (s : State) (a : AttemptState) → Grounded s → Grounded (record s { attempt = a })
unfolding validate_live
Grounded-attempt s a g = record {
  good_policy = g.good_policy;
  good_name = g.good_name;
  good_live = g.good_live;
  uncut = g.uncut;
  cut = g.cut;
}

-- An attempt in flight that changes within the phases on one side of the promotion.
Slot-attempt :
    (s : State) (a : AttemptState)
    → (s.attempt.phase == phase_none) ≡ false
    → a.previous ≡ s.attempt.previous
    → (is_before_promotion s.attempt.phase ≡ true
        → InFlight s
        → (is_before_promotion a.phase ≡ true) × InFlight (record s { attempt = a }))
    → (is_after_promotion s.attempt.phase ≡ true
        → InFlight s
        → (is_after_promotion a.phase ≡ true) × InFlight (record s { attempt = a }))
    → Slot s
    → Slot (record s { attempt = a })
Slot-attempt s a busy same before after (empty_slot empty rest) =
    absurd (ground (arith, busy, vacant-phase s empty))
Slot-attempt s a busy same before after (before_promotion p rest f) =
    let f' = before p f in before_promotion f'.0 rest f'.1
Slot-attempt s a busy same before after (after_promotion p rest f) =
    let f' = after p f in after_promotion f'.0 (rw same rest) f'.1

pub Sound-attempt :
    (s : State) (a : AttemptState)
    → (s.attempt.phase == phase_none) ≡ false
    → a.previous ≡ s.attempt.previous
    → (is_before_promotion s.attempt.phase ≡ true
        → InFlight s
        → (is_before_promotion a.phase ≡ true) × InFlight (record s { attempt = a }))
    → (is_after_promotion s.attempt.phase ≡ true
        → InFlight s
        → (is_after_promotion a.phase ≡ true) × InFlight (record s { attempt = a }))
    → Sound s
    → Sound (record s { attempt = a })
Sound-attempt s a busy same before after sound = record {
  grounded = Grounded-attempt s a sound.grounded;
  allocation = sound.allocation;
  slot = Slot-attempt s a busy same before after sound.slot;
}

-- A runner that holds the claim, or has released it, leaves the rest of the attempt as it is.
runner_change : AttemptState → ℕ → Bool → ℕ → ℕ → AttemptState
runner_change a runner released released_at claimed_at = record a {
  runner = runner;
  released = released;
  released_at = released_at;
  claimed_at = claimed_at;
}

InFlight-runner :
    (s : State) (runner : ℕ) (released : Bool) (released_at claimed_at : ℕ)
    → (runner == nil_uuid) ≡ false
    → InFlight s
    → InFlight
        (record s { attempt = runner_change s.attempt runner released released_at claimed_at })
unfolding runner_change validate_previous validate_live_by_phase
InFlight-runner s runner released released_at claimed_at named f = record {
  no_stray = f.no_stray;
  canonical = f.canonical;
  captured = f.captured;
  identified = f.identified;
  good_target = f.good_target;
  own_target = f.own_target;
  last_target = f.last_target;
  claimed = ground (arith, named);
  released_claim = ground (arith, named);
  good_previous = f.good_previous;
  live_by_phase = f.live_by_phase;
}

Sound-runner :
    (s : State) (runner : ℕ) (released : Bool) (released_at claimed_at : ℕ)
    → (runner == nil_uuid) ≡ false
    → (s.attempt.phase == phase_none) ≡ false
    → Sound s
    → Sound (record s { attempt = runner_change s.attempt runner released released_at claimed_at })
unfolding runner_change
Sound-runner s runner released released_at claimed_at named busy =
    Sound-attempt s _ busy refl
      (λ p f. (p, InFlight-runner s runner released released_at claimed_at named f))
      (λ p f. (p, InFlight-runner s runner released released_at claimed_at named f))

pub claimed-Sound :
    (e : RunnerClaimed) (s : State)
    → fault (runner_claimed e) s ≡ none
    → Sound s
    → Sound (effect (runner_claimed e) s)
unfolding fault effect claim_ids_fault claim_phase_fault runner_change
claimed-Sound e s fit =
    Sound-runner s e.runner false 0 e.at (ground (arith, fit)) (ground (arith, fit))

pub released-Sound :
    (e : RunnerReleased) (s : State)
    → fault (runner_released e) s ≡ none
    → Sound s
    → Sound (effect (runner_released e) s)
unfolding fault effect release_ids_fault release_phase_fault runner_change
released-Sound e s fit =
    Sound-runner s s.attempt.runner true e.at s.attempt.claimed_at (ground (arith, fit))
      (ground (arith, fit))

-- A build that goes on, before its promotion.
InFlight-building :
    (s : State) (phase : ℕ) (at pos : ℕ)
    → is_before_promotion s.attempt.phase ≡ true
    → is_before_promotion phase ≡ true
    → (s.attempt.runner == nil_uuid) ≡ false
    → InFlight s
    → InFlight (record s {
      attempt = record s.attempt { phase = phase; caught_up_at = at; caught_up_pos = pos };
    })
unfolding validate_previous validate_live_by_phase
InFlight-building s phase at pos before after named f = record {
  no_stray = ground (arith, f.no_stray, before, after);
  canonical = f.canonical;
  captured = f.captured;
  identified = f.identified;
  good_target = f.good_target;
  own_target = f.own_target;
  last_target = f.last_target;
  claimed = ground (arith, named);
  released_claim = f.released_claim;
  good_previous = f.good_previous;
  live_by_phase = ground (arith, f.live_by_phase, before, after);
}

Sound-building :
    (s : State) (phase : ℕ) (at pos : ℕ)
    → is_before_promotion s.attempt.phase ≡ true
    → is_before_promotion phase ≡ true
    → (InFlight s → (s.attempt.runner == nil_uuid) ≡ false)
    → Sound s
    → Sound (record s {
      attempt = record s.attempt { phase = phase; caught_up_at = at; caught_up_pos = pos };
    })
Sound-building s phase at pos before after named =
    Sound-attempt s _ (ground (arith, before)) refl
      (λ p f. (after, InFlight-building s phase at pos before after (named f) f))
      (λ p f. absurd (ground (arith, p, before)))

pub started-Sound :
    (s : State) → fault build_started s ≡ none → Sound s → Sound (effect build_started s)
unfolding fault effect started_fault
started-Sound s fit =
    Sound-building s phase_building s.attempt.caught_up_at s.attempt.caught_up_pos
      (ground (arith, fit)) refl (λ f. ground (arith, fit))

pub caught_up-Sound :
    (e : CaughtUp) (s : State)
    → fault (caught_up e) s ≡ none
    → Sound s
    → Sound (effect (caught_up e) s)
unfolding fault effect caught_up_fault
caught_up-Sound e s fit =
    Sound-building s phase_caught_up e.at e.position (ground (arith, fit)) refl
      (λ f. ground (arith, fit, f.claimed))
