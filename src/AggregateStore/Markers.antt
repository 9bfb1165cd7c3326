-- ===== src/AggregateStore/Markers.antt =====
-- aggregatestore/aggregate_store.go: the markers of an error by depth, and what the rounds of
-- SaveOutcome make of them.
use estoria.Prelude.{
  ℕ, zero, suc, ◌<◌, ◌≡◌, refl, sym, ap, ◌∙◌, inl, inr, Bool, true, false, not, ◌&&◌, Option, none,
  some, List, [], ◌∷◌, ◌++◌, append_assoc, arith, if◌then◌else◌, Bool-cases,
}
use estoria.AggregateStore.SaveOutcome.{
  AppendOutcome, unknown_outcome, outcome_eq, GoError, GoErrors, no_errors, also, append_errors,
  vote_of, unwrapped, empty_ballot, vote_if, votes, next_level, settled, resolve,
}

-- One marker more, where there is one.
abbrev mark_cons : Option AppendOutcome → List AppendOutcome → List AppendOutcome
mark_cons none marks = marks
mark_cons (some m) marks = m ∷ marks

-- The markers at a depth of a forest of errors, from left to right.
unfoldable pub markers : ℕ → GoErrors → List AppendOutcome
markers d no_errors = []
markers zero (also e es) = mark_cons (vote_of e) (markers zero es)
markers (suc d) (also e es) = markers d (unwrapped e) ++ markers (suc d) es

unfoldable pub all_same : AppendOutcome → List AppendOutcome → Bool
all_same x [] = true
all_same x (y ∷ ys) = outcome_eq x y && all_same x ys

-- The verdict of markers: their common outcome, if they have one.
abbrev pub verdict : AppendOutcome → List AppendOutcome → AppendOutcome
verdict x ys = if all_same x ys then x else unknown_outcome

mark_cons-append :
    (o : Option AppendOutcome) (xs ys : List AppendOutcome)
    → mark_cons o xs ++ ys ≡ mark_cons o (xs ++ ys)
mark_cons-append none xs ys = refl
mark_cons-append (some m) xs ys = refl

markers-append :
    (d : ℕ) (xs ys : GoErrors) → markers d (append_errors xs ys) ≡ markers d xs ++ markers d ys
unfolding markers append_errors
markers-append d no_errors ys = refl
markers-append zero (also e xs) ys =
    rw (markers-append zero xs ys)
      (sym (mark_cons-append (vote_of e) (markers zero xs) (markers zero ys)))
markers-append (suc d) (also e xs) ys =
    rw (markers-append (suc d) xs ys)
      (sym (append_assoc (markers d (unwrapped e)) (markers (suc d) xs) (markers (suc d) ys)))

-- What is one level down in a forest is at the top of the next level.
pub markers-next_level :
    (d : ℕ) (level : GoErrors) → markers d (next_level level) ≡ markers (suc d) level
unfolding markers next_level
markers-next_level d no_errors = refl
markers-next_level d (also e level) =
    markers-append d (unwrapped e) (next_level level)
    ∙ ap (λ ms. markers d (unwrapped e) ++ ms) (markers-next_level d level)

outcome_eq-true : (a b : AppendOutcome) → (outcome_eq a b ≡ true) → a ≡ b
outcome_eq-true a b h = ground arith

vote_again :
    (o : Option AppendOutcome) (level : GoErrors) (marks : List AppendOutcome)
    → ((x : AppendOutcome) (c : Bool)
        → settled (votes level (record { outcome = x; voted = true; contradicted = c }))
          ≡ some (if not c && all_same x marks then x else unknown_outcome))
    → (x : AppendOutcome) (c : Bool)
    → settled (votes level (vote_if o (record { outcome = x; voted = true; contradicted = c })))
      ≡ some (if not c && all_same x (mark_cons o marks) then x else unknown_outcome)
unfolding all_same
vote_again none level marks rest x c = rest x c
vote_again (some y) level marks rest x c = elim (Bool-cases (outcome_eq x y)) [
  | inl same ↦ rw same (rw (← outcome_eq-true x y same) (rest x c))
  | inr differ ↦ rw differ (ground (arith, rest x true))
]

-- What the inner loop makes of a level where a vote has been cast.
votes-voted :
    (level : GoErrors) (x : AppendOutcome) (c : Bool)
    → settled (votes level (record { outcome = x; voted = true; contradicted = c }))
      ≡ some (if not c && all_same x (markers zero level) then x else unknown_outcome)
unfolding votes markers all_same
votes-voted no_errors x c = ground arith
votes-voted (also e level) x c =
    vote_again (vote_of e) level (markers zero level) (votes-voted level) x c

abbrev pub first_verdict : List AppendOutcome → Option AppendOutcome
first_verdict [] = none
first_verdict (x ∷ xs) = some (verdict x xs)

vote_first :
    (o : Option AppendOutcome) (level : GoErrors)
    → settled (votes level empty_ballot) ≡ first_verdict (markers zero level)
    → settled (votes level (vote_if o empty_ballot))
      ≡ first_verdict (mark_cons o (markers zero level))
vote_first none level rest = rest
vote_first (some x) level rest = votes-voted level x false

votes-empty :
    (level : GoErrors) → settled (votes level empty_ballot) ≡ first_verdict (markers zero level)
unfolding votes markers
votes-empty no_errors = refl
votes-empty (also e level) = vote_first (vote_of e) level (votes-empty level)

pub resolve-cons :
    (fuel : ℕ) (e : GoError) (level : GoErrors) (marks : List AppendOutcome)
    → markers zero (also e level) ≡ marks
    → resolve (suc fuel) (also e level) ≡ (elim (first_verdict marks) [
      | none ↦ resolve fuel (next_level (also e level))
      | some outcome ↦ some outcome
    ])
unfolding resolve
resolve-cons fuel e level marks eq = rw (← eq, ← votes-empty (also e level)) refl

-- The loop from a level on, where the first markers stand `d` levels below it.
pub resolve-first :
    (d fuel : ℕ) (level : GoErrors) (x : AppendOutcome) (xs : List AppendOutcome)
    → ((i : ℕ) → i < d → markers i level ≡ [])
    → markers d level ≡ x ∷ xs
    → d < fuel
    → resolve fuel level ≡ some (verdict x xs)
unfolding markers
resolve-first d zero level x xs above here enough = absurd (omega arith)
resolve-first d (suc fuel) no_errors x xs above here enough = absurd (cc)
resolve-first zero (suc fuel) (also e level) x xs above here enough =
    resolve-cons fuel e level (x ∷ xs) here
resolve-first (suc d) (suc fuel) (also e level) x xs above here enough =
    resolve-cons fuel e level [] (above 0 (omega arith))
    ∙ resolve-first d fuel (next_level (also e level)) x xs
        (λ i lt. markers-next_level i (also e level) ∙ above (suc i) (omega arith))
        (markers-next_level d (also e level) ∙ here) (omega arith)
