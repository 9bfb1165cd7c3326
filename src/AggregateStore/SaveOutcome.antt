-- ===== src/AggregateStore/SaveOutcome.antt =====
-- aggregatestore/aggregate_store.go: SaveOutcome, which reads from the tree of a save's error whether
-- its events were appended. An error is what the resolver can tell of it: a sentinel, a mark of
-- `withSaveOutcome`, an error that wraps one or several others, or none of these.
use estoria.Prelude.{
  ℕ, zero, suc, ◌+◌, Bool, true, false, not, ◌&&◌, Option, none, some, ltb, ◌==◌, if◌then◌else◌,
}

pub data AppendOutcome : Type 0 where
  unknown_outcome appended_outcome nothing_appended_outcome : AppendOutcome

-- The numbers of the constants.
abbrev pub outcome_number : AppendOutcome → ℕ
outcome_number unknown_outcome = 0
outcome_number appended_outcome = 1
outcome_number nothing_appended_outcome = 2

-- `a == b` on outcomes
abbrev pub outcome_eq : AppendOutcome → AppendOutcome → Bool
outcome_eq a b = outcome_number a == outcome_number b

mutual
  pub data GoError : Type 0 where
    nil_error events_appended_error no_events_appended_error plain_error : GoError
    save_outcome_error : GoError → GoError → GoError
    wrap_error : GoError → GoError
    join_errors : GoErrors → GoError

  pub data GoErrors : Type 0 where
    no_errors : GoErrors
    also : GoError → GoErrors → GoErrors

-- saveOutcomeError.resolved, by the sentinel that the mark holds
unfoldable pub resolved : GoError → AppendOutcome
resolved nil_error = nothing_appended_outcome
resolved events_appended_error = appended_outcome
resolved no_events_appended_error = nothing_appended_outcome
resolved plain_error = nothing_appended_outcome
resolved (save_outcome_error outcome e) = nothing_appended_outcome
resolved (wrap_error e) = nothing_appended_outcome
resolved (join_errors es) = nothing_appended_outcome

-- `append(next, …)`
unfoldable pub append_errors : GoErrors → GoErrors → GoErrors
append_errors no_errors ys = ys
append_errors (also e es) ys = also e (append_errors es ys)

-- `if child != nil`
abbrev pub child_errors : GoError → GoErrors
child_errors nil_error = no_errors
child_errors e = also e no_errors

-- What a node votes for, and what it adds to the next level.
unfoldable pub vote_of : GoError → Option AppendOutcome
vote_of nil_error = none
vote_of events_appended_error = some appended_outcome
vote_of no_events_appended_error = some nothing_appended_outcome
vote_of plain_error = none
vote_of (save_outcome_error outcome e) = some (resolved outcome)
vote_of (wrap_error e) = none
vote_of (join_errors es) = none

unfoldable pub unwrapped : GoError → GoErrors
unwrapped nil_error = no_errors
unwrapped events_appended_error = no_errors
unwrapped no_events_appended_error = no_errors
unwrapped plain_error = no_errors
unwrapped (save_outcome_error outcome e) = no_errors
unwrapped (wrap_error e) = child_errors e
unwrapped (join_errors es) = es

-- `outcome, voted, contradicted`
pub record Ballot : Type 0 where
  pub outcome : AppendOutcome
  pub voted : Bool
  pub contradicted : Bool

abbrev pub empty_ballot : Ballot
empty_ballot = record { outcome = unknown_outcome; voted = false; contradicted = false }

abbrev pub vote : AppendOutcome → Ballot → Ballot
vote resolved b =
    if b.voted && not (outcome_eq b.outcome resolved)
    then record b { contradicted = true }
    else record b { outcome = resolved; voted = true }

abbrev pub vote_if : Option AppendOutcome → Ballot → Ballot
vote_if none b = b
vote_if (some resolved) b = vote resolved b

-- The inner loop: the votes of a level, and the level below.
unfoldable pub votes : GoErrors → Ballot → Ballot
votes no_errors b = b
votes (also e level) b = votes level (vote_if (vote_of e) b)

unfoldable pub next_level : GoErrors → GoErrors
next_level no_errors = no_errors
next_level (also e level) = append_errors (unwrapped e) (next_level level)

-- The final switch of a round: an outcome, or `none` to go on.
abbrev pub settled : Ballot → Option AppendOutcome
settled b =
    if b.contradicted then some unknown_outcome else if b.voted then some b.outcome else none

-- The outer loop. Each round takes one unit of fuel; `none` means that it ran out.
unfoldable pub resolve : ℕ → GoErrors → Option AppendOutcome
resolve fuel no_errors = some unknown_outcome
resolve zero (also e level) = none
resolve (suc fuel) (also e level) =
    let rest = resolve fuel (next_level (also e level)) in
    elim (settled (votes (also e level) empty_ballot)) [ some outcome ↦ some outcome | none ↦ rest ]

-- The number of levels of an error.
unfoldable mutual
  pub height : GoError → ℕ
  height nil_error = 1
  height events_appended_error = 1
  height no_events_appended_error = 1
  height plain_error = 1
  height (save_outcome_error outcome e) = 1
  height (wrap_error e) = height e + 1
  height (join_errors es) = heights es + 1

  pub heights : GoErrors → ℕ
  heights no_errors = 0
  heights (also e es) = let a = height e in let b = heights es in if ltb a b then b else a

-- SaveOutcome
unfoldable pub save_outcome : GoError → Option AppendOutcome
save_outcome e = resolve (height e) (also e no_errors)
