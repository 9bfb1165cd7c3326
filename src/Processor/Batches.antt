-- ===== src/Processor/Batches.antt =====
-- projection/processor/processor.go `drain`: a batch against its events, the handler and the checkpoint.
use estoria.Prelude.{
  ℕ, ◌+◌, ◌≤◌, ◌<◌, ◌≡◌, refl, sym, ap, subst, ◌⊎◌, inl, inr, Bool, true, false, Option, none, some,
  List, [], ◌∷◌, ◌++◌, append-nil, append_assoc, arith, Bool-cases, Option-cases, Result-cases,
  length, Int64, int64_neg, add64, add64_lem, ok, err,
}
use estoria.Processor.Errors.{Cause, Failure, wrapped}
use estoria.Processor.{GlobalReader, Checkpoints, Handler, Settings, Processor, BufferedEvent, fill}
use estoria.Processor.Drain.{
  Outcome, checkpoint_if_due, finish_batch, handle_batch, close_batch, drain, read_options,
}
use estoria.Processor.Accounting.{
  IsCheckpoints, Accounts, handle_each, AllPassed, Fatal, advance-Accounts,
  checkpoint_if_due-Accounts,
}

module _ {W I C A : Type 0} (cancelled : ℕ → Option Cause) (settings : Settings)
    (reader : GlobalReader W I) (checkpoints : Checkpoints C) (handle : Handler A)
    (saved : C → Int64) (laws : IsCheckpoints checkpoints saved) (start : Int64)
    (positive : 1 ≤ settings.checkpoint_every) (bound : settings.checkpoint_every < int64_neg) where
  -- What handling a batch from a state of the handler leaves: the events that were handled are the
  -- first ones of the batch, they are accounted for, and where it succeeds they are all of it. The
  -- handler was called on each of them once, in order, and on no other but one on which it failed, the
  -- next of the batch.
  abbrev pub Leaves : List BufferedEvent → List BufferedEvent → A → Outcome Bool C A → Type 0
  Leaves handled batch a0 (r, i, p, c, a) =
      (taken : List BufferedEvent) × (rest : List BufferedEvent) × (taken ++ rest ≡ batch)
      × Accounts start (saved c) p (handled ++ taken)
      × (p.since_checkpoint ≤ settings.checkpoint_every)
      × ((x : Bool) → r ≡ ok x → (p.since_checkpoint < settings.checkpoint_every) × (rest ≡ []))
      × AllPassed settings handle taken a0
      × ((a ≡ handle_each handle taken a0)
          ⊎ ((b : BufferedEvent) × (others : List BufferedEvent) × (rest ≡ b ∷ others)
              × Fatal settings handle (handle_each handle taken a0) b
              × (a ≡ (handle b.event (handle_each handle taken a0)).1)))

  -- None of the batch was handled.
  stopped :
      (handled batch : List BufferedEvent) (e : Failure) (i : ℕ) (p : Processor) (c : C) (a : A)
      → Accounts start (saved c) p handled
      → p.since_checkpoint ≤ settings.checkpoint_every
      → Leaves handled batch a (err e, i, p, c, a)
  stopped handled batch e i p c a h within = (
    [],
    batch,
    refl,
    rw (append-nil handled) h,
    within,
    λ x failed. absurd (ground (arith, failed)),
    tt,
    inl refl,
  )

  -- The handler failed on the first event of the batch.
  stopped_at :
      (handled batch : List BufferedEvent) (b : BufferedEvent) (e f : Failure) (i : ℕ)
      (p : Processor) (c : C) (a : A)
      → Accounts start (saved c) p handled
      → p.since_checkpoint ≤ settings.checkpoint_every
      → (handle b.event a).0 ≡ some f
      → settings.continue_on_handler_error ≡ false
      → Leaves handled (b ∷ batch) a (err e, i, p, c, (handle b.event a).1)
  stopped_at handled batch b e f i p c a h within failed ends = (
    [],
    b ∷ batch,
    refl,
    rw (append-nil handled) h,
    within,
    λ x bad. absurd (ground (arith, bad)),
    tt,
    inr (b, batch, refl, record { failure = f; fails = failed; ends = ends }, refl),
  )

  -- One event of the batch was handled, and what followed.
  Leaves-cons :
      (handled batch : List BufferedEvent) (b : BufferedEvent) (a0 : A) (o : Outcome Bool C A)
      → ((handle b.event a0).0 ≡ none) ⊎ (settings.continue_on_handler_error ≡ true)
      → Leaves (handled ++ b ∷ []) batch (handle b.event a0).1 o
      → Leaves handled (b ∷ batch) a0 o
  Leaves-cons handled batch b a0 (r, i, p, c, a) pass
        (taken, rest, split, h, within, fine, passed, ending) =
      (
        b ∷ taken,
        rest,
        ap (λ l. b ∷ l) split,
        rw (append_assoc handled (b ∷ []) taken) at h,
        within,
        fine,
        (pass, passed),
        ending,
      )

  finish_batch-Leaves :
      (handled : List BufferedEvent) (size : Int64) (read_err : Option Failure) (i : ℕ)
      (p : Processor) (c : C) (a : A)
      → Accounts start (saved c) p handled
      → p.since_checkpoint < settings.checkpoint_every
      → Leaves handled [] a
          (finish_batch cancelled settings reader checkpoints handle size read_err i p c a)
  unfolding finish_batch
  finish_batch-Leaves handled size read_err i p c a h room = elim (Option-cases (cancelled i)) [
    | inr (ctx_err, stop) ↦
        rw (finish_batch, stop) (stopped handled [] _ (i + 1) p c a h (omega arith))
    | inl go ↦ elim (Option-cases read_err) [
      | inr (e, broken) ↦
          rw (finish_batch, go, broken) (stopped handled [] e (i + 1) p c a h (omega arith))
      | inl fine ↦
          rw (finish_batch, go, fine)
            (
              [],
              [],
              refl,
              rw (append-nil handled) h,
              omega arith,
              λ x e. (room, refl),
              tt,
              inl refl,
            )
    ]
  ]

  handle_batch-Leaves :
      (size : Int64) (read_err : Option Failure) (batch handled : List BufferedEvent) (i : ℕ)
      (p : Processor) (c : C) (a : A)
      → Accounts start (saved c) p handled
      → p.since_checkpoint < settings.checkpoint_every
      → Leaves handled batch a
          (handle_batch cancelled settings reader checkpoints handle size read_err batch i p c a)
  unfolding handle_batch
  handle_batch-Leaves size read_err [] handled i p c a h room =
      finish_batch-Leaves handled size read_err i p c a h room
  handle_batch-Leaves size read_err (b ∷ batch) handled i p c a h room =
      elim (Option-cases (cancelled i)) [
        | inr (ctx_err, stop) ↦
            rw (handle_batch, stop) (stopped handled (b ∷ batch) _ (i + 1) p c a h (omega arith))
        | inl go ↦
            let q : Processor = record p {
              position = b.position;
              since_checkpoint = add64 p.since_checkpoint 1;
            } in
            let since = add64_lem p.since_checkpoint 1 (omega (arith, room, bound)) in
            let due = checkpoint_if_due cancelled settings reader checkpoints handle q c in
            let (h', within, fine) =
              checkpoint_if_due-Accounts cancelled settings reader checkpoints handle saved laws
                start positive bound q c (handled ++ b ∷ [])
                (advance-Accounts cancelled settings reader checkpoints handle saved laws start
                  positive bound b (saved c) p handled h room)
                (omega (arith, since)) in
            let a' = (handle b.event a).1 in
            let whole =
              handle_batch cancelled settings reader checkpoints handle size read_err (b ∷ batch) i
                p c a in
            let again =
              handle_batch cancelled settings reader checkpoints handle size read_err batch (i + 1)
                due.1 due.2 a' in
            let leaves_as =
              λ (o : Outcome Bool C A) (same : whole ≡ o) (l : Leaves handled (b ∷ batch) a o).
                subst (Leaves handled (b ∷ batch) a) (sym same) l in
            let stop_after = λ (x : Failure).
              stopped (handled ++ b ∷ []) batch x (i + 1) due.1 due.2 a' h' within in
            let go_on = λ (eq : due.0 ≡ none).
              handle_batch-Leaves size read_err batch (handled ++ b ∷ []) (i + 1) due.1 due.2 a' h'
                (fine eq) in
            let continue_with =
              λ (pass : ((handle b.event a).0 ≡ none) ⊎ (settings.continue_on_handler_error ≡ true))
                  (goes : due.0 ≡ none → whole ≡ again)
                  (stops : (x : Failure)
                    → due.0 ≡ some x
                    → whole ≡ (err x, i + 1, due.1, due.2, a')).
                elim (Option-cases due.0) as (λ z. Leaves handled (b ∷ batch) a whole) [
                  | inl eq ↦
                      leaves_as again (goes eq)
                        (Leaves-cons handled batch b a again pass (go_on eq))
                  | inr (x, eq) ↦
                      leaves_as (err x, i + 1, due.1, due.2, a') (stops x eq)
                        (Leaves-cons handled batch b a (err x, i + 1, due.1, due.2, a') pass
                          (stop_after x))
                ] in
            elim (Option-cases (handle b.event a).0) [
              | inl accepted ↦
                  continue_with (inl accepted) (λ eq. ground (arith, go, accepted, eq))
                    (λ x eq. ground (arith, go, accepted, eq))
              | inr (y, failed) ↦ elim (Bool-cases settings.continue_on_handler_error) [
                | inr stop ↦
                    leaves_as (err (wrapped y), i + 1, p, c, a') (ground (arith, go, failed, stop))
                      (stopped_at handled batch b (wrapped y) y (i + 1) p c a h (omega arith) failed
                        stop)
                | inl past ↦
                    continue_with (inr past) (λ eq. ground (arith, go, failed, past, eq))
                      (λ x eq. ground (arith, go, failed, past, eq))
              ]
            ]
      ]

  close_batch-Leaves :
      (batch handled : List BufferedEvent) (read_err : Option Failure) (iter : I) (i : ℕ)
      (p : Processor) (c : C) (a : A)
      → Accounts start (saved c) p handled
      → p.since_checkpoint < settings.checkpoint_every
      → Leaves handled batch a
          (close_batch cancelled settings reader checkpoints handle batch read_err iter i p c a)
  unfolding close_batch
  close_batch-Leaves batch handled read_err iter i p c a h room =
      let stop = λ (e : Failure). stopped handled batch e (i + 1) p c a h (omega (arith, room)) in
      elim (Option-cases (cancelled i)) [
        | inr (ctx_err, cut) ↦ elim (Option-cases (reader.close iter)) [
          | inr (e, failed) ↦ rw (close_batch, cut, failed) (stop _)
          | inl closed ↦ rw (close_batch, cut, closed) (stop _)
        ]
        | inl go ↦ elim (Option-cases (reader.close iter)) [
          | inr (e, failed) ↦ rw (close_batch, go, failed) (stop _)
          | inl closed ↦
              rw (close_batch, go, closed)
                (handle_batch-Leaves (length batch) read_err batch handled (i + 1) p c a h room)
        ]
      ]

  -- The events that drain buffers.
  unfoldable pub batch_of : W → ℕ → Processor → List BufferedEvent
  batch_of w i p =
      elim (reader.read_all w (read_options cancelled settings reader checkpoints handle p)) [
        | err e ↦ []
        | ok none ↦ []
        | ok (some iter) ↦ (fill cancelled reader.next settings.batch_size i iter).0
      ]

  -- A drain handles the first events of its batch, and all of them where it succeeds. Whatever the
  -- reader, the handler, the checkpoint store and the context do, afterwards the position is that of
  -- the last event handled, the checkpoint is at the end of some of the events handled so far, and at
  -- most as many follow it as the checkpoint interval says, fewer where the drain succeeds. They were
  -- accounted for before, the interval is positive and fits an int64, and saves of checkpoints keep
  -- their contract.
  pub drain-Leaves :
      (w : W) (handled : List BufferedEvent) (i : ℕ) (p : Processor) (c : C) (a : A)
      → Accounts start (saved c) p handled
      → p.since_checkpoint < settings.checkpoint_every
      → Leaves handled
          (batch_of w i p)
          a
          (drain cancelled settings reader checkpoints handle w i p c a)
  unfolding drain batch_of
  drain-Leaves w handled i p c a h room =
      elim (Result-cases
        (reader.read_all w (read_options cancelled settings reader checkpoints handle p))) [
          | inr (e, failed) ↦ elim (Option-cases (cancelled i)) [
            | inr (ctx_err, cut) ↦
                rw (drain, batch_of, failed, cut)
                  (stopped handled [] _ (i + 1) p c a h (omega arith))
            | inl go ↦
                rw (drain, batch_of, failed, go)
                  (stopped handled [] _ (i + 1) p c a h (omega arith))
          ]
          | inl (none, absent) ↦
              rw (drain, batch_of, absent) (stopped handled [] _ i p c a h (omega arith))
          | inl (some iter, found) ↦
              let (batch, read_err, i', iter') =
                fill cancelled reader.next settings.batch_size i iter in
              rw (drain, batch_of, found)
                (close_batch-Leaves batch handled read_err iter' i' p c a h room)
        ]
