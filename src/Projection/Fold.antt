-- ===== src/Projection/Fold.antt =====
-- projection/fold.go: Fold, over any iterator and any handler. An iterator is a state `I` with its
-- method `next`; a handler works on a state `A`, and its errors are an `H`.
use estoria.Prelude.{
  ℕ, zero, suc, Bool, true, false, Option, none, some, List, [], ◌∷◌, if◌then◌else◌, Int64, add64,
  Result, ok, err,
}
use estoria.EventStore.{Event, StoreError, is_end}

pub record Fold (I : Type 0) : Type 0 where
  pub iter : I
  pub continue_on_handler_error : Bool

-- Result
pub record FoldResult : Type 0 where
  pub num_projected_events : Int64
  pub num_failed_events : Int64

pub data FoldError (H : Type 0) : Type 0 where
  iterator_required handler_required : FoldError H
  reading_event : StoreError → FoldError H
  processing_event : H → FoldError H

abbrev pub with_continue_on_handler_error : {I : Type 0} → Bool → Fold I → Fold I
with_continue_on_handler_error should_continue fold = record fold {
  continue_on_handler_error = should_continue;
}

-- `for _, opt := range opts { opt(fold) }`
abbrev pub apply_options : {F : Type 0} → List (F → F) → F → F
apply_options [] fold = fold
apply_options (opt ∷ opts) fold = apply_options opts (opt fold)

-- NewFold; `none` is the nil iterator.
abbrev pub new_fold :
    {I H : Type 0} → Option I → List (Fold I → Fold I) → Result (FoldError H) (Fold I)
new_fold none opts = err iterator_required
new_fold (some iter) opts =
    ok (apply_options opts (record { iter = iter; continue_on_handler_error = false }))

abbrev pub no_results : FoldResult
no_results = record { num_projected_events = 0; num_failed_events = 0 }

abbrev pub one_projected : FoldResult → FoldResult
one_projected r = record r { num_projected_events = add64 r.num_projected_events 1 }

abbrev pub one_failed : FoldResult → FoldResult
one_failed r = record r { num_failed_events = add64 r.num_failed_events 1 }

-- What Project returns, and the state that the handler left.
abbrev pub Projected : Type 0 → Type 0 → Type 0
Projected H A = Option (FoldError H) × FoldResult × A

module _ {I H A : Type 0} (next : I → Result StoreError Event × I)
    (handle : Event → A → Option H × A) where
  -- The loop of Project. Each round takes one unit of fuel; `none` means that it ran out.
  unfoldable pub project_loop : Bool → ℕ → I → FoldResult → A → Option (Projected H A)
  project_loop continue zero iter r a = none
  project_loop continue (suc fuel) iter r a =
      let (read, iter') = next iter in
      elim read [
        | err e ↦ if is_end e then some (none, r, a) else some (some (reading_event e), r, a)
        | ok event ↦
            let (failure, a') = handle event a in
            elim failure [
              | none ↦ project_loop continue fuel iter' (one_projected r) a'
              | some e ↦ elim continue [
                | true ↦ project_loop continue fuel iter' (one_failed r) a'
                | false ↦ some (some (processing_event e), one_failed r, a')
              ]
            ]
      ]

-- Project; `none` is the nil handler.
unfoldable pub project :
    {I H A : Type 0}
    → (I → Result StoreError Event × I)
    → Option (Event → A → Option H × A)
    → ℕ
    → Fold I
    → A
    → Option (Projected H A)
project next none fuel fold a = some (some handler_required, no_results, a)
project next (some handle) fuel fold a =
    project_loop next handle fold.continue_on_handler_error fuel fold.iter no_results a
