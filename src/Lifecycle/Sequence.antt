-- ===== src/Lifecycle/Sequence.antt =====
-- projection/lifecycle/events.go: the numbers that a history hands out, of versions, cutovers and
-- policies.
use estoria.Prelude.{
  ◌+◌, ◌-◌, ◌<◌, ◌≡◌, refl, false, none, List, arith, ◌==◌, length, Int64, int64_neg, max_int64,
  add64, lt64, le64, max64, add64_lem, le64_lem, max64-eq,
}
use estoria.Lifecycle.State.{State}
use estoria.Lifecycle.Events.{
  DomainEvent, rebuild_initiated, runner_claimed, runner_released, build_started, caught_up,
  promoted, rolled_back, abandoned, retire_started, previous_retired, retirement_policy_set,
  RebuildInitiated, Promoted, RolledBack, RetirementPolicySet, initiated_fault, promoted_fault,
  rolled_back_fault, policy_fault, fold,
}
use estoria.Projection.{validate_id-eq_none}
use estoria.Lifecycle.Poison.{effect, fault}
use estoria.Lifecycle.Counting.{
  numbers, count_up, version_of, revision_of, generation_of, CountsTo, Counted, numbers_in_sequence,
}

-- A number that follows a counter, where the addition does not wrap around.
counts-next :
    (c n : Int64)
    → c < int64_neg
    → n ≡ add64 c 1
    → n < int64_neg
    → (n ≡ c + 1) × (max64 c n ≡ n) × (max64 c n < int64_neg)
counts-next c n bound next fits =
    let step : n ≡ c + 1 = omega (arith, add64_lem c 1 (omega arith), next) in
    let top : max64 c n ≡ n = ground (arith, max64-eq c n bound fits, step) in
    (step, top, omega (arith, top, fits))

positive : (c n : Int64) → c < int64_neg → n ≡ add64 c 1 → lt64 n 1 ≡ false → n < int64_neg
unfolding lt64
positive c n bound next h = ground (arith, add64_lem c 1 (omega arith), next, h)

not_last : (c n : Int64) → c < int64_neg → (c == max_int64) ≡ false → n ≡ add64 c 1 → n < int64_neg
not_last c n bound h next = ground (arith, add64_lem c 1 (omega arith), next, h)

initiated_fault-eq_none :
    (e : RebuildInitiated) (s : State)
    → initiated_fault e s ≡ none
    → (lt64 e.target.version 1 ≡ false) × (e.target.version ≡ add64 s.allocated 1)
unfolding initiated_fault
initiated_fault-eq_none e s h = ground (arith, h, validate_id-eq_none e.target)

promoted_fault-eq_none :
    (e : Promoted) (s : State)
    → promoted_fault e s ≡ none
    → ((s.cutover_revision == max_int64) ≡ false) × (e.revision ≡ add64 s.cutover_revision 1)
unfolding promoted_fault
promoted_fault-eq_none e s h = ground (arith, h)

rolled_back_fault-eq_none :
    (e : RolledBack) (s : State)
    → rolled_back_fault e s ≡ none
    → ((s.cutover_revision == max_int64) ≡ false) × (e.revision ≡ add64 s.cutover_revision 1)
unfolding rolled_back_fault
rolled_back_fault-eq_none e s h = ground (arith, h)

policy_fault-eq_none :
    (e : RetirementPolicySet) (s : State)
    → policy_fault e s ≡ none
    → (le64 (max_int64 - 1) s.retirement_policy.generation ≡ false)
      × (e.generation ≡ add64 s.retirement_policy.generation 1)
unfolding policy_fault
policy_fault-eq_none e s h = ground (arith, h)

-- The generation before the last is the greatest that is given.
counts-policy :
    (c n : Int64)
    → c < int64_neg
    → le64 (max_int64 - 1) c ≡ false
    → n ≡ add64 c 1
    → (n ≡ c + 1) × (n ≡ n) × (n < int64_neg)
counts-policy c n bound h next =
    let step : n ≡ c + 1 = omega (arith, add64_lem c 1 (omega arith), next) in
    (step, refl, ground (arith, le64_lem (max_int64 - 1) c (omega arith) bound, h, step))

pub initiated-counts :
    (e : DomainEvent) (s : State)
    → fault e s ≡ none
    → s.allocated < int64_neg
    → CountsTo (version_of e) s.allocated (effect e s).allocated
unfolding CountsTo version_of effect fault
initiated-counts (rebuild_initiated e) s fit bound =
    let checks = initiated_fault-eq_none e s fit in
    counts-next s.allocated e.target.version bound checks.1
      (positive s.allocated e.target.version bound checks.1 checks.0)
initiated-counts (runner_claimed e) s fit bound = refl
initiated-counts (runner_released e) s fit bound = refl
initiated-counts build_started s fit bound = refl
initiated-counts (caught_up e) s fit bound = refl
initiated-counts (promoted e) s fit bound = refl
initiated-counts (rolled_back e) s fit bound = refl
initiated-counts (abandoned cause) s fit bound = refl
initiated-counts (retire_started e) s fit bound = refl
initiated-counts (previous_retired e) s fit bound = refl
initiated-counts (retirement_policy_set e) s fit bound = refl

pub cutovers-counts :
    (e : DomainEvent) (s : State)
    → fault e s ≡ none
    → s.cutover_revision < int64_neg
    → CountsTo (revision_of e) s.cutover_revision (effect e s).cutover_revision
unfolding CountsTo revision_of effect fault
cutovers-counts (rebuild_initiated e) s fit bound = refl
cutovers-counts (runner_claimed e) s fit bound = refl
cutovers-counts (runner_released e) s fit bound = refl
cutovers-counts build_started s fit bound = refl
cutovers-counts (caught_up e) s fit bound = refl
cutovers-counts (promoted e) s fit bound =
    let checks = promoted_fault-eq_none e s fit in
    counts-next s.cutover_revision e.revision bound checks.1
      (not_last s.cutover_revision e.revision bound checks.0 checks.1)
cutovers-counts (rolled_back e) s fit bound =
    let checks = rolled_back_fault-eq_none e s fit in
    counts-next s.cutover_revision e.revision bound checks.1
      (not_last s.cutover_revision e.revision bound checks.0 checks.1)
cutovers-counts (abandoned cause) s fit bound = refl
cutovers-counts (retire_started e) s fit bound = refl
cutovers-counts (previous_retired e) s fit bound = refl
cutovers-counts (retirement_policy_set e) s fit bound = refl

pub generations-counts :
    (e : DomainEvent) (s : State)
    → fault e s ≡ none
    → s.retirement_policy.generation < int64_neg
    → CountsTo
        (generation_of e)
        s.retirement_policy.generation
        (effect e s).retirement_policy.generation
unfolding CountsTo generation_of effect fault
generations-counts (rebuild_initiated e) s fit bound = refl
generations-counts (runner_claimed e) s fit bound = refl
generations-counts (runner_released e) s fit bound = refl
generations-counts build_started s fit bound = refl
generations-counts (caught_up e) s fit bound = refl
generations-counts (promoted e) s fit bound = refl
generations-counts (rolled_back e) s fit bound = refl
generations-counts (abandoned cause) s fit bound = refl
generations-counts (retire_started e) s fit bound = refl
generations-counts (previous_retired e) s fit bound = refl
generations-counts (retirement_policy_set e) s fit bound =
    let checks = policy_fault-eq_none e s fit in
    counts-policy s.retirement_policy.generation e.generation bound checks.0 checks.1

-- Along a history without observation, from a state whose allocation is not negative, the versions
-- of its rebuilds are one after another from the one above the last allocated, so none is used
-- twice, and the last is what stays allocated.
pub versions_in_sequence :
    (events : List DomainEvent) (s : State)
    → s.allocated < int64_neg
    → (fold events s).invalid_reason ≡ none
    → (numbers version_of events ≡ count_up s.allocated (length (numbers version_of events)))
      × ((fold events s).allocated ≡ s.allocated + length (numbers version_of events))
      × ((fold events s).allocated < int64_neg)
unfolding Counted
versions_in_sequence = numbers_in_sequence version_of (λ s. s.allocated) initiated-counts

-- Along a history without observation, from a state whose revision is not negative, promotions and
-- rollbacks carry the cutover revisions one after another, and the state keeps the last.
pub revisions_in_sequence :
    (events : List DomainEvent) (s : State)
    → s.cutover_revision < int64_neg
    → (fold events s).invalid_reason ≡ none
    → (numbers revision_of events
        ≡ count_up s.cutover_revision (length (numbers revision_of events)))
      × ((fold events s).cutover_revision
          ≡ s.cutover_revision + length (numbers revision_of events))
      × ((fold events s).cutover_revision < int64_neg)
unfolding Counted
revisions_in_sequence = numbers_in_sequence revision_of (λ s. s.cutover_revision) cutovers-counts

-- Along a history without observation, from a state whose generation is not negative, the
-- retirement policies carry their generations one after another, and the state keeps the last.
pub generations_in_sequence :
    (events : List DomainEvent) (s : State)
    → s.retirement_policy.generation < int64_neg
    → (fold events s).invalid_reason ≡ none
    → (numbers generation_of events
        ≡ count_up s.retirement_policy.generation (length (numbers generation_of events)))
      × ((fold events s).retirement_policy.generation
          ≡ s.retirement_policy.generation + length (numbers generation_of events))
      × ((fold events s).retirement_policy.generation < int64_neg)
unfolding Counted
generations_in_sequence =
    numbers_in_sequence generation_of (λ s. s.retirement_policy.generation) generations-counts
