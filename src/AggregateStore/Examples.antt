-- ===== src/AggregateStore/Examples.antt =====
-- aggregatestore/aggregate_store.go: SaveOutcome on an error that joins a mark, whose cause carries the
-- opposite sentinel, and an unmarked error.
use estoria.Prelude.{ℕ, zero, suc, ◌<◌, ◌≡◌, refl, some, [], ◌∷◌, arith}
use estoria.AggregateStore.SaveOutcome.{
  AppendOutcome, appended_outcome, nothing_appended_outcome, GoError, events_appended_error,
  no_events_appended_error, plain_error, save_outcome_error, wrap_error, join_errors, no_errors,
  also, resolved, vote_of, unwrapped, save_outcome,
}
use estoria.AggregateStore.Markers.{markers, verdict}
use estoria.AggregateStore.Resolution.{
  save_outcome-first, save_outcome-total, save_outcome-decorated,
}

-- A mark of a save that appended, over a cause that says that nothing was appended.
abbrev shadowing : GoError
shadowing = save_outcome_error events_appended_error (wrap_error no_events_appended_error)

abbrev joined : GoError
joined =
    wrap_error
      (join_errors (also plain_error (also shadowing (also no_events_appended_error no_errors))))

joined-above : (i : ℕ) → i < 2 → markers i (also joined no_errors) ≡ []
unfolding markers vote_of unwrapped
joined-above zero h = refl
joined-above (suc zero) h = refl
joined-above (suc (suc i)) h = absurd (omega arith)

joined-here : markers 2 (also joined no_errors) ≡ appended_outcome ∷ nothing_appended_outcome ∷ []
unfolding markers vote_of unwrapped resolved
joined-here = refl

save_outcome-first_example :
    save_outcome joined ≡ some (verdict appended_outcome (nothing_appended_outcome ∷ []))
save_outcome-first_example =
    save_outcome-first joined 2 appended_outcome (nothing_appended_outcome ∷ []) joined-above
      joined-here

save_outcome-total_example : (outcome : AppendOutcome) × (save_outcome joined ≡ some outcome)
save_outcome-total_example = save_outcome-total joined

save_outcome-decorated_example :
    (save_outcome (wrap_error shadowing) ≡ save_outcome shadowing)
    × (save_outcome (save_outcome_error no_events_appended_error shadowing)
        ≡ some (resolved no_events_appended_error))
save_outcome-decorated_example = save_outcome-decorated no_events_appended_error shadowing
