-- ===== src/Lifecycle/Counting.antt =====
-- projection/lifecycle/events.go: the numbers that the events of a history carry, and counters that
-- follow them.
use estoria.Prelude.{
  ℕ, zero, suc, ◌+◌, ◌<◌, ◌≡◌, refl, ap, ◌∙◌, inl, inr, Option, none, some, List, [], ◌∷◌, arith,
  Option-cases, length, Int64, int64_neg,
}
use estoria.Lifecycle.State.{State}
use estoria.Lifecycle.Events.{
  DomainEvent, rebuild_initiated, runner_claimed, runner_released, build_started, caught_up,
  promoted, rolled_back, abandoned, retire_started, previous_retired, retirement_policy_set,
  apply_to, fold,
}
use estoria.Lifecycle.Poison.{effect, fault, apply_to-clean, fold-poisoned}

-- The numbers that the events of a history carry.
unfoldable pub numbers : (DomainEvent → Option Int64) → List DomainEvent → List Int64
numbers number_of [] = []
numbers number_of (e ∷ events) = elim (number_of e) [
  | none ↦ numbers number_of events
  | some n ↦ n ∷ numbers number_of events
]

-- `n + 1`, `n + 2`, …, as many as asked for.
unfoldable pub count_up : ℕ → ℕ → List ℕ
count_up n zero = []
count_up n (suc k) = (n + 1) ∷ count_up (n + 1) k

unfoldable pub version_of : DomainEvent → Option Int64
version_of (rebuild_initiated e) = some e.target.version
version_of (runner_claimed e) = none
version_of (runner_released e) = none
version_of build_started = none
version_of (caught_up e) = none
version_of (promoted e) = none
version_of (rolled_back e) = none
version_of (abandoned cause) = none
version_of (retire_started e) = none
version_of (previous_retired e) = none
version_of (retirement_policy_set e) = none

unfoldable pub revision_of : DomainEvent → Option Int64
revision_of (rebuild_initiated e) = none
revision_of (runner_claimed e) = none
revision_of (runner_released e) = none
revision_of build_started = none
revision_of (caught_up e) = none
revision_of (promoted e) = some e.revision
revision_of (rolled_back e) = some e.revision
revision_of (abandoned cause) = none
revision_of (retire_started e) = none
revision_of (previous_retired e) = none
revision_of (retirement_policy_set e) = none

unfoldable pub generation_of : DomainEvent → Option Int64
generation_of (rebuild_initiated e) = none
generation_of (runner_claimed e) = none
generation_of (runner_released e) = none
generation_of build_started = none
generation_of (caught_up e) = none
generation_of (promoted e) = none
generation_of (rolled_back e) = none
generation_of (abandoned cause) = none
generation_of (retire_started e) = none
generation_of (previous_retired e) = none
generation_of (retirement_policy_set e) = some e.generation

-- A counter stays where an event carries no number, and else goes up by one to that number.
unfoldable pub CountsTo : Option Int64 → ℕ → ℕ → Type 0
CountsTo none a b = b ≡ a
CountsTo (some n) a b = (n ≡ a + 1) × (b ≡ n) × (b < int64_neg)

-- The state at the end of a history without observation had none on the way.
pub fold-clean :
    (e : DomainEvent) (events : List DomainEvent) (s : State)
    → (fold (e ∷ events) s).invalid_reason ≡ none
    → (apply_to e s).invalid_reason ≡ none
unfolding fold
fold-clean e events s h = elim (Option-cases (apply_to e s).invalid_reason) [
  | inl clean ↦ clean
  | inr (msg, seen) ↦ absurd (ground (arith, h, fold-poisoned events (apply_to e s) msg seen))
]

pub CountsTo-bound : (o : Option Int64) (a b : ℕ) → a < int64_neg → CountsTo o a b → b < int64_neg
unfolding CountsTo
CountsTo-bound none a b h step = omega (arith, step)
CountsTo-bound (some n) a b h step = step.2

module _ (number_of : DomainEvent → Option Int64) (counter : State → ℕ)
    (counts : (e : DomainEvent) (s : State)
      → fault e s ≡ none
      → counter s < int64_neg
      → CountsTo (number_of e) (counter s) (counter (effect e s))) where
  unfoldable pub Counted : List DomainEvent → ℕ → ℕ → Type 0
  Counted events a b =
      (numbers number_of events ≡ count_up a (length (numbers number_of events)))
      × (b ≡ a + length (numbers number_of events))
      × (b < int64_neg)

  numbers-none :
      (e : DomainEvent) (events : List DomainEvent)
      → number_of e ≡ none
      → numbers number_of (e ∷ events) ≡ numbers number_of events
  unfolding numbers
  numbers-none e events eq = ground (arith, eq)

  numbers-some :
      (e : DomainEvent) (events : List DomainEvent) (n : Int64)
      → number_of e ≡ some n
      → numbers number_of (e ∷ events) ≡ n ∷ numbers number_of events
  unfolding numbers
  numbers-some e events n eq = ground (arith, eq)

  Counted-none :
      (e : DomainEvent) (events : List DomainEvent) (a b c : ℕ)
      → number_of e ≡ none
      → b ≡ a
      → Counted events b c
      → Counted (e ∷ events) a c
  unfolding Counted
  Counted-none e events a b c eq same rest = rw (numbers-none e events eq, ← same) rest

  Counted-some :
      (e : DomainEvent) (events : List DomainEvent) (n a b c : ℕ)
      → number_of e ≡ some n
      → n ≡ a + 1
      → b ≡ n
      → Counted events b c
      → Counted (e ∷ events) a c
  unfolding Counted count_up
  Counted-some e events n a b c eq next same rest =
      rw (numbers-some e events n eq, next)
        (
          ap (λ ns. (a + 1) ∷ ns)
              (rest.0 ∙ ap (λ m. count_up m (length (numbers number_of events))) (same ∙ next)),
          omega (arith, rest.1, next, same),
          rest.2,
        )

  Counted-cons :
      (e : DomainEvent) (events : List DomainEvent) (o : Option Int64) (a b c : ℕ)
      → number_of e ≡ o
      → CountsTo o a b
      → Counted events b c
      → Counted (e ∷ events) a c
  unfolding CountsTo
  Counted-cons e events none a b c eq step rest = Counted-none e events a b c eq step rest
  Counted-cons e events (some n) a b c eq step rest =
      Counted-some e events n a b c eq step.0 step.1 rest

  pub numbers_in_sequence :
      (events : List DomainEvent) (s : State)
      → counter s < int64_neg
      → (fold events s).invalid_reason ≡ none
      → Counted events (counter s) (counter (fold events s))
  unfolding fold Counted numbers count_up
  numbers_in_sequence [] s bound h = (refl, omega arith, bound)
  numbers_in_sequence (e ∷ events) s bound h =
      let clean = apply_to-clean e s (fold-clean e events s h) in
      let step = counts e s clean.1 bound in
      Counted-cons e events (number_of e) (counter s) (counter (apply_to e s)) _ refl
        (rw clean.2 step)
        (numbers_in_sequence events (apply_to e s)
          (CountsTo-bound (number_of e) (counter s) _ bound (rw clean.2 step)) h)
