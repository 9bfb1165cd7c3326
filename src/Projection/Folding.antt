-- ===== src/Projection/Folding.antt =====
-- projection/fold.go: Project against the events that its iterator yields.
use estoria.Prelude.{
  ℕ, zero, suc, ◌≡◌, inl, inr, Bool, true, false, Option, none, some, List, [], ◌∷◌, arith,
  Bool-cases, Option-cases, Result-cases, Result, wrap,
}
use estoria.EventStore.{Event, StoreError, is_end, collect, cons_event}
use estoria.Projection.Fold.{
  Fold, FoldResult, reading_event, processing_event, one_projected, one_failed, no_results,
  Projected, project_loop, project,
}

module _ {H A : Type 0} (handle : Event → A → Option H × A) where
  -- The handler over a list of events, and the error that ended the reading of it.
  unfoldable pub handle_all : Bool → List Event → Option StoreError → FoldResult → A → Projected H A
  handle_all continue [] e r a = (wrap reading_event e, r, a)
  handle_all continue (event ∷ events) e r a =
      let (failure, a') = handle event a in
      elim failure [
        | none ↦ handle_all continue events e (one_projected r) a'
        | some x ↦ elim continue [
          | true ↦ handle_all continue events e (one_failed r) a'
          | false ↦ (some (processing_event x), one_failed r, a')
        ]
      ]

  pub handle_all_step :
      (continue : Bool) (event : Event) (events : List Event) (e : Option StoreError)
      (r : FoldResult) (a a' : A)
      → handle event a ≡ (none, a')
      → handle_all continue (event ∷ events) e r a
        ≡ handle_all continue events e (one_projected r) a'
  unfolding handle_all
  handle_all_step continue event events e r a a' h = ground (arith, h)

cons_event-some :
    (event : Event) (rest : Option (List Event × Option StoreError)) (events : List Event)
    (e : Option StoreError)
    → cons_event event rest ≡ some (events, e)
    → (tail : List Event) × (rest ≡ some (tail, e)) × (events ≡ event ∷ tail)
cons_event-some event none events e h = ground arith
cons_event-some event (some (tail, x)) events e h = (tail, ground arith, ground arith)

module _ {I H A : Type 0} (next : I → Result StoreError Event × I)
    (handle : Event → A → Option H × A) where
  project_loop-collect :
      (continue : Bool) (fuel : ℕ) (iter : I) (r : FoldResult) (a : A) (events : List Event)
      (e : Option StoreError)
      → collect next fuel iter ≡ some (events, e)
      → project_loop next handle continue fuel iter r a
        ≡ some (handle_all handle continue events e r a)
  unfolding collect project_loop handle_all
  project_loop-collect continue zero iter r a events e h = ground arith
  project_loop-collect continue (suc fuel) iter r a events e h = elim (Result-cases (next iter).0) [
    | inr (x, stop) ↦ elim (Bool-cases (is_end x)) [
      | inl ended ↦ ground (arith, h, stop, ended)
      | inr broken ↦ ground (arith, h, stop, broken)
    ]
    | inl (event, got) ↦
        let (tail, rest, all) =
          cons_event-some event (collect next fuel (next iter).1) events e
            (ground (arith, h, got)) in
        let more = λ (r' : FoldResult) (a' : A).
          project_loop-collect continue fuel (next iter).1 r' a' tail e rest in
        elim (Option-cases (handle event a).0) [
          | inl fine ↦ ground (arith, got, fine, all, more (one_projected r) (handle event a).1)
          | inr (x, failed) ↦ elim (Bool-cases continue) [
            | inl go_on ↦
                ground (arith, got, failed, go_on, all, more (one_failed r) (handle event a).1)
            | inr stop ↦ ground (arith, got, failed, stop, all)
          ]
        ]
  ]

  -- Project returns what its handler makes of the events that collecting the iterator yields, in order,
  -- with the error of the reading at the end: it stops at the first event that the handler refuses, or
  -- counts it and goes on where the fold is set to. The fuel that collects the iterator is enough.
  pub project-collect :
      (fuel : ℕ) (fold : Fold I) (a : A) (events : List Event) (e : Option StoreError)
      → collect next fuel fold.iter ≡ some (events, e)
      → project next (some handle) fuel fold a
        ≡ some (handle_all handle fold.continue_on_handler_error events e no_results a)
  unfolding project
  project-collect fuel fold a events e h =
      project_loop-collect fold.continue_on_handler_error fuel fold.iter no_results a events e h
