-- ===== src/Processor/Errors.antt =====
-- projection/processor/processor.go: joinCancellation and errorLeavesMatch, over trees of errors.
use estoria.Prelude.{
  ℕ, Bool, true, false, ◌&&◌, ◌||◌, Option, none, some, List, [], ◌∷◌, ◌==◌, if◌then◌else◌,
}

-- The leaves that the code tells apart; `other_cause` is any other error.
pub data Cause : Type 0 where
  context_canceled deadline_exceeded end_of_stream other_cause : Cause

abbrev pub cause_number : Cause → ℕ
cause_number context_canceled = 0
cause_number deadline_exceeded = 1
cause_number end_of_stream = 2
cause_number other_cause = 3

-- `err == target`
abbrev pub cause_eq : Cause → Cause → Bool
cause_eq a b = cause_number a == cause_number b

mutual
  -- An error: a leaf, or one that wraps an error, or that joins several.
  pub data Failure : Type 0 where
    leaf : Cause → Failure
    wrapped : Failure → Failure
    joined : Failures → Failure

  pub data Failures : Type 0 where
    no_failures : Failures
    one_more : Failure → Failures → Failures

-- matchesAny of a leaf
abbrev pub matches_any : Cause → List Cause → Bool
matches_any c [] = false
matches_any c (target ∷ targets) = cause_eq c target || matches_any c targets

-- errorLeavesMatch of an error that is not nil
unfoldable mutual
  pub leaves_match : Failure → List Cause → Bool
  leaves_match (leaf c) targets = matches_any c targets
  leaves_match (wrapped e) targets = leaves_match e targets
  leaves_match (joined es) targets = joined_match es targets

  -- One that joins no causes matches nothing.
  pub joined_match : Failures → List Cause → Bool
  joined_match no_failures targets = false
  joined_match (one_more e es) targets = leaves_match e targets && others_match es targets

  pub others_match : Failures → List Cause → Bool
  others_match no_failures targets = true
  others_match (one_more e es) targets = leaves_match e targets && others_match es targets

-- errors.Is
unfoldable mutual
  pub is : Failure → Cause → Bool
  is (leaf c) target = cause_eq c target
  is (wrapped e) target = is e target
  is (joined es) target = any_is es target

  pub any_is : Failures → Cause → Bool
  any_is no_failures target = false
  any_is (one_more e es) target = is e target || any_is es target

-- joinCancellation; `none` is the nil error.
unfoldable pub join_cancellation : Cause → Option Failure → Failure
join_cancellation ctx_err none = leaf ctx_err
join_cancellation ctx_err (some e) =
    if leaves_match e (ctx_err ∷ end_of_stream ∷ [])
    then leaf ctx_err
    else if is e ctx_err
    then e
    else joined (one_more (leaf ctx_err) (one_more e no_failures))
