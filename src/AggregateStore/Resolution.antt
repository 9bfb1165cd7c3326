-- ===== src/AggregateStore/Resolution.antt =====
-- aggregatestore/aggregate_store.go: SaveOutcome against its documentation.
use estoria.Prelude.{
  ℕ, zero, suc, ◌+◌, ◌≤◌, ◌<◌, ◌≡◌, refl, ◌∙◌, inl, inr, some, List, [], ◌∷◌, arith, leb,
  Bool-cases, Option-cases,
}
use estoria.AggregateStore.SaveOutcome.{
  AppendOutcome, unknown_outcome, GoError, GoErrors, nil_error, events_appended_error,
  no_events_appended_error, plain_error, save_outcome_error, wrap_error, join_errors, no_errors,
  also, resolved, append_errors, child_errors, vote_of, unwrapped, empty_ballot, votes, next_level,
  settled, resolve, height, heights, save_outcome,
}
use estoria.AggregateStore.Markers.{markers, all_same, verdict, resolve-cons, resolve-first}

-- Heights.
height_pos : (e : GoError) → 1 ≤ height e
unfolding height
height_pos nil_error = omega arith
height_pos events_appended_error = omega arith
height_pos no_events_appended_error = omega arith
height_pos plain_error = omega arith
height_pos (save_outcome_error outcome e) = omega arith
height_pos (wrap_error e) = omega arith
height_pos (join_errors es) = omega arith

heights-child_errors : (e : GoError) → heights (child_errors e) ≤ height e
unfolding height
heights-child_errors nil_error = omega arith
heights-child_errors events_appended_error = ground arith
heights-child_errors no_events_appended_error = ground arith
heights-child_errors plain_error = ground arith
heights-child_errors (save_outcome_error outcome e) = ground arith
heights-child_errors (wrap_error e) = ground arith
heights-child_errors (join_errors es) = ground arith

heights-unwrapped : (e : GoError) → heights (unwrapped e) + 1 ≤ height e
unfolding height unwrapped
heights-unwrapped nil_error = omega arith
heights-unwrapped events_appended_error = omega arith
heights-unwrapped no_events_appended_error = omega arith
heights-unwrapped plain_error = omega arith
heights-unwrapped (save_outcome_error outcome e) = omega arith
heights-unwrapped (wrap_error e) = omega (arith, heights-child_errors e)
heights-unwrapped (join_errors es) = omega arith

heights-append :
    (n : ℕ) (xs ys : GoErrors) → heights xs ≤ n → heights ys ≤ n → heights (append_errors xs ys) ≤ n
unfolding height append_errors
heights-append n no_errors ys h k = k
heights-append n (also e xs) ys h k =
    ground (arith, h, heights-append n xs ys (ground (arith, h)) k)

heights-next_level :
    (n : ℕ) (level : GoErrors) → heights level ≤ n + 1 → heights (next_level level) ≤ n
unfolding height next_level
heights-next_level n no_errors h = omega arith
heights-next_level n (also e level) h =
    heights-append n (unwrapped e) (next_level level) (ground (arith, h, heights-unwrapped e))
      (heights-next_level n level (ground (arith, h)))

heights-also_pos : (e : GoError) (es : GoErrors) → 1 ≤ heights (also e es)
unfolding height
heights-also_pos e es = ground (arith, height_pos e)

-- Below the last level there are no markers.
markers-deep : (d : ℕ) (level : GoErrors) → heights level ≤ d → markers d level ≡ []
unfolding markers height
markers-deep d no_errors h = refl
markers-deep zero (also e level) h = absurd (omega (arith, h, heights-also_pos e level))
markers-deep (suc d) (also e level) h =
    rw
      (
        markers-deep d (unwrapped e) (ground (arith, h, heights-unwrapped e)),
        markers-deep (suc d) level (ground (arith, h)),
      )
      refl

heights-one : (e : GoError) → heights (also e no_errors) ≡ height e
unfolding height
heights-one e = ground arith

-- SaveOutcome reports the verdict of the shallowest markers of an error: the outcome that they share,
-- or unknown where they disagree. Markers that stand deeper do not count.
pub save_outcome-first :
    (e : GoError) (d : ℕ) (x : AppendOutcome) (xs : List AppendOutcome)
    → ((i : ℕ) → i < d → markers i (also e no_errors) ≡ [])
    → markers d (also e no_errors) ≡ x ∷ xs
    → save_outcome e ≡ some (verdict x xs)
unfolding save_outcome
save_outcome-first e d x xs above here = elim (Bool-cases (leb (heights (also e no_errors)) d)) [
  | inl deep ↦
      absurd (ground (arith, here, markers-deep d (also e no_errors) (ground (arith, deep))))
  | inr within ↦
      resolve-first d (height e) (also e no_errors) x xs above here
        (ground (arith, within, heights-one e))
]

resolve-total :
    (fuel : ℕ) (level : GoErrors)
    → heights level ≤ fuel
    → (outcome : AppendOutcome) × (resolve fuel level ≡ some outcome)
unfolding resolve
resolve-total fuel no_errors enough = (unknown_outcome, refl)
resolve-total zero (also e level) enough = absurd (omega (arith, enough, heights-also_pos e level))
resolve-total (suc fuel) (also e level) enough =
    let rest =
      resolve-total fuel (next_level (also e level))
        (heights-next_level fuel (also e level) (omega (arith, enough))) in
    elim (Option-cases (settled (votes (also e level) empty_ballot))) [
      | inl silent ↦ (rest.0, ground (arith, silent, rest.1))
      | inr (outcome, spoken) ↦ (outcome, ground (arith, spoken))
    ]

-- SaveOutcome returns an outcome for every error: as many rounds as the error has levels are enough.
pub save_outcome-total : (e : GoError) → (outcome : AppendOutcome) × (save_outcome e ≡ some outcome)
unfolding save_outcome
save_outcome-total e = resolve-total (height e) (also e no_errors) (omega (arith, heights-one e))

save_outcome-child :
    (e : GoError) → resolve (height e) (append_errors (child_errors e) no_errors) ≡ save_outcome e
unfolding save_outcome append_errors resolve height votes vote_of next_level unwrapped
save_outcome-child nil_error = refl
save_outcome-child events_appended_error = refl
save_outcome-child no_events_appended_error = refl
save_outcome-child plain_error = refl
save_outcome-child (save_outcome_error outcome e) = refl
save_outcome-child (wrap_error e) = refl
save_outcome-child (join_errors es) = refl

resolve-wrap_error :
    (n m : ℕ) (e : GoError)
    → m ≡ suc n
    → resolve m (also (wrap_error e) no_errors)
      ≡ resolve n (append_errors (child_errors e) no_errors)
unfolding markers vote_of next_level unwrapped
resolve-wrap_error n m e eq = rw eq (resolve-cons n (wrap_error e) no_errors [] refl)

-- Wrapping an error keeps its outcome, and a mark has the outcome of its sentinel, whatever the error
-- that it marks says.
pub save_outcome-decorated :
    (outcome e : GoError)
    → (save_outcome (wrap_error e) ≡ save_outcome e)
      × (save_outcome (save_outcome_error outcome e) ≡ some (resolved outcome))
unfolding save_outcome height all_same markers vote_of
save_outcome-decorated outcome e = (
  resolve-wrap_error (height e) (height e + 1) e (omega arith) ∙ save_outcome-child e,
  save_outcome-first (save_outcome_error outcome e) 0 (resolved outcome) []
      (λ i lt. absurd (omega arith)) refl,
)
