-- ===== src/Processor/Cancellation.antt =====
-- projection/processor/processor.go: what joinCancellation keeps of an error.
use estoria.Prelude.{
  ℕ, zero, suc, ◌≡◌, refl, sym, ap, ◌∙◌, inl, inr, true, false, some, List, [], ◌∷◌, arith, ==_iff,
  Bool-cases,
}
use estoria.Processor.Errors.{
  Cause, context_canceled, deadline_exceeded, end_of_stream, other_cause, Failure, Failures, leaf,
  wrapped, joined, no_failures, one_more, cause_number, cause_eq, matches_any, leaves_match,
  others_match, is, any_is, join_cancellation,
}

abbrev cause_of : ℕ → Cause
cause_of zero = context_canceled
cause_of (suc zero) = deadline_exceeded
cause_of (suc (suc zero)) = end_of_stream
cause_of (suc (suc (suc n))) = other_cause

cause_of-cause_number : (c : Cause) → cause_of (cause_number c) ≡ c
cause_of-cause_number context_canceled = refl
cause_of-cause_number deadline_exceeded = refl
cause_of-cause_number end_of_stream = refl
cause_of-cause_number other_cause = refl

same_cause : (c d : Cause) → cause_eq c d ≡ true → c ≡ d
same_cause c d h =
    sym (cause_of-cause_number c)
    ∙ ap cause_of ((==_iff (cause_number c) (cause_number d)).0 h)
    ∙ cause_of-cause_number d

mutual
  unfolding leaves_match is

  -- Where every leaf of an error matches a target, whatever it is, is a target.
  is-matches_any :
      (e : Failure) (targets : List Cause) (c : Cause)
      → leaves_match e targets ≡ true
      → is e c ≡ true
      → matches_any c targets ≡ true
  is-matches_any (leaf d) targets c h k = rw (same_cause d c k) at h
  is-matches_any (wrapped e) targets c h k = is-matches_any e targets c h k
  is-matches_any (joined no_failures) targets c h k = ground (arith, h)
  is-matches_any (joined (one_more e es)) targets c h k =
      any_is-matches_any (one_more e es) targets c h k

  any_is-matches_any :
      (es : Failures) (targets : List Cause) (c : Cause)
      → others_match es targets ≡ true
      → any_is es c ≡ true
      → matches_any c targets ≡ true
  any_is-matches_any no_failures targets c h k = ground (arith, k)
  any_is-matches_any (one_more e es) targets c h k = elim (Bool-cases (is e c)) [
    | inl here ↦ is-matches_any e targets c (ground (arith, h)) here
    | inr later ↦ any_is-matches_any es targets c (ground (arith, h)) (ground (arith, k, later))
  ]

-- joinCancellation always returns an error that is the context's, and that is whatever the error that
-- it joins is, the end of the stream excepted: no other failure is lost.
pub join_cancellation-is :
    (ctx_err : Cause) (e : Failure)
    → (is (join_cancellation ctx_err (some e)) ctx_err ≡ true)
      × ((c : Cause)
          → is e c ≡ true
          → cause_eq c end_of_stream ≡ false
          → is (join_cancellation ctx_err (some e)) c ≡ true)
unfolding join_cancellation is
join_cancellation-is ctx_err e = elim (Bool-cases (leaves_match e (ctx_err ∷ end_of_stream ∷ []))) [
  | inl only ↦ (
    ground (arith, only),
    λ c k other.
        ground (arith, only, is-matches_any e (ctx_err ∷ end_of_stream ∷ []) c only k, other),
  )
  | inr independent ↦ elim (Bool-cases (is e ctx_err)) [
    | inl already ↦
        (ground (arith, independent, already), λ c k other. ground (arith, independent, already, k))
    | inr apart ↦
        (ground (arith, independent, apart), λ c k other. ground (arith, independent, apart, k))
  ]
]
