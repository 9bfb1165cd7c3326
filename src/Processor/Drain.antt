-- ===== src/Processor/Drain.antt =====
-- projection/processor/processor.go: drain, and the loop of Run.
use estoria.Prelude.{
  ℕ, ◌+◌, Bool, true, false, Option, none, some, List, [], ◌∷◌, if◌then◌else◌, length, Int64, add64,
  lt64, le64, Result, ok, err,
}
use estoria.EventStore.{ReadAllOptions}
use estoria.Processor.Errors.{
  Cause, other_cause, Failure, leaf, wrapped, joined, one_more, no_failures, join_cancellation,
}
use estoria.Processor.{
  GlobalReader, Checkpoints, Handler, Settings, Processor, BufferedEvent, fill, save_checkpoint,
  load_position,
}

-- errors.Join of what reading the batch returned and of a failure to close its iterator
abbrev pub join_close : Option Failure → Failure → Failure
join_close none e = joined (one_more (wrapped e) no_failures)
join_close (some read_err) e = joined (one_more read_err (one_more (wrapped e) no_failures))

-- What is left: an error or a result, the number of times that the context has been asked, and the
-- states of the processor, the checkpoint store and the handler.
abbrev pub Outcome : Type 0 → Type 0 → Type 0 → Type 0
Outcome R C A = Result Failure R × ℕ × Processor × C × A

module _ {W I C A : Type 0} (cancelled : ℕ → Option Cause) (settings : Settings)
    (reader : GlobalReader W I) (checkpoints : Checkpoints C) (handle : Handler A) where
  -- The position and the cadence after an event has been handled.
  abbrev pub advance : BufferedEvent → Processor → Processor
  advance b p = record p { position = b.position; since_checkpoint = add64 p.since_checkpoint 1 }

  -- The checkpoint after an event, where one is due.
  unfoldable pub checkpoint_if_due : Processor → C → Option Failure × Processor × C
  checkpoint_if_due p c =
      if le64 settings.checkpoint_every p.since_checkpoint
      then save_checkpoint checkpoints p c
      else (none, p, c)

  -- The end of drain, once the batch has been handled.
  unfoldable pub finish_batch : Int64 → Option Failure → ℕ → Processor → C → A → Outcome Bool C A
  finish_batch size read_err i p c a = elim (cancelled i) [
    | some ctx_err ↦ (err (join_cancellation ctx_err read_err), i + 1, p, c, a)
    | none ↦ elim read_err [
      | some e ↦ (err e, i + 1, p, c, a)
      | none ↦ (ok (lt64 size settings.batch_size), i + 1, p, c, a)
    ]
  ]

  -- The loop of drain that handles the buffer, and what follows it; `size` is that of the batch.
  unfoldable pub handle_batch :
      Int64 → Option Failure → List BufferedEvent → ℕ → Processor → C → A → Outcome Bool C A
  handle_batch size read_err [] i p c a = finish_batch size read_err i p c a
  handle_batch size read_err (b ∷ batch) i p c a = elim (cancelled i) [
    | some ctx_err ↦ (err (join_cancellation ctx_err read_err), i + 1, p, c, a)
    | none ↦
        let (failure, a') = handle b.event a in
        let (e, p', c') = checkpoint_if_due (advance b p) c in
        elim failure [
          | none ↦ elim e [
            | some x ↦ (err x, i + 1, p', c', a')
            | none ↦ handle_batch size read_err batch (i + 1) p' c' a'
          ]
          | some x ↦ elim settings.continue_on_handler_error [
            | false ↦ (err (wrapped x), i + 1, p, c, a')
            | true ↦ elim e [
              | some y ↦ (err y, i + 1, p', c', a')
              | none ↦ handle_batch size read_err batch (i + 1) p' c' a'
            ]
          ]
        ]
  ]

  -- drain from the closing of the iterator on
  unfoldable pub close_batch :
      List BufferedEvent → Option Failure → I → ℕ → Processor → C → A → Outcome Bool C A
  close_batch batch read_err iter i p c a = elim (cancelled i) [
    | some ctx_err ↦ elim (reader.close iter) [
      | some e ↦ (err (join_close (some (join_cancellation ctx_err read_err)) e), i + 1, p, c, a)
      | none ↦ (err (join_cancellation ctx_err read_err), i + 1, p, c, a)
    ]
    | none ↦ elim (reader.close iter) [
      | some e ↦ (err (join_close read_err e), i + 1, p, c, a)
      | none ↦ handle_batch (length batch) read_err batch (i + 1) p c a
    ]
  ]

  abbrev pub read_options : Processor → ReadAllOptions
  read_options p = record { after_position = p.position; count = settings.batch_size }

  unfoldable pub drain : W → ℕ → Processor → C → A → Outcome Bool C A
  drain w i p c a = elim (reader.read_all w (read_options p)) [
    | err e ↦ elim (cancelled i) [
      | some ctx_err ↦ (err (join_cancellation ctx_err (some (wrapped e))), i + 1, p, c, a)
      | none ↦ (err (wrapped e), i + 1, p, c, a)
    ]
    | ok none ↦ (err (leaf other_cause), i, p, c, a)
    | ok (some iter) ↦
        let (batch, read_err, i', iter') = fill cancelled reader.next settings.batch_size i iter in
        close_batch batch read_err iter' i' p c a
  ]

  -- `caughtUpOnce.Do`
  abbrev pub signal_caught_up : Processor → Processor
  signal_caught_up p =
      if p.caught_up then p else record p { caught_up_position = p.position; caught_up = true }

  -- The idle touch of Run at the head, up to the timer.
  unfoldable pub touch : ℕ → Processor → C → A → Outcome Bool C A
  touch i p c a = elim (cancelled i) [
    | some ctx_err ↦ (err (leaf ctx_err), i + 1, p, c, a)
    | none ↦
        let (e, p', c') = save_checkpoint checkpoints p c in
        elim e [
          | some x ↦ (err x, i + 1, p', c', a)
          | none ↦ elim (cancelled (i + 1)) [
            | some ctx_err ↦ (err (leaf ctx_err), i + 2, p', c', a)
            | none ↦ (ok true, i + 2, signal_caught_up p', c', a)
          ]
        ]
  ]

  -- What Run does after a drain.
  unfoldable pub after_drain : Outcome Bool C A → Outcome Bool C A
  after_drain (err e, i, p, c, a) = (err e, i, p, c, a)
  after_drain (ok false, i, p, c, a) = (ok false, i, p, c, a)
  after_drain (ok true, i, p, c, a) = touch i p c a

  -- A round of the loop of Run, on the event store as the round finds it, and whether it then waits
  -- for the timer. The wait itself is left out.
  unfoldable pub round : W → ℕ → Processor → C → A → Outcome Bool C A
  round w i p c a = elim (cancelled i) [
    | some ctx_err ↦ (err (leaf ctx_err), i + 1, p, c, a)
    | none ↦ after_drain (drain w (i + 1) p c a)
  ]

  -- The rounds of Run, over the states in which they find the event store. `ok` is what the last of
  -- them left, if none has ended Run.
  unfoldable pub rounds : List W → Bool → ℕ → Processor → C → A → Outcome Bool C A
  rounds [] waits i p c a = (ok waits, i, p, c, a)
  rounds (w ∷ ws) waits i p c a =
      let (r, i', p', c', a') = round w i p c a in
      elim r [ err e ↦ (err e, i', p', c', a') | ok waits' ↦ rounds ws waits' i' p' c' a' ]

  -- Run, up to a number of rounds
  unfoldable pub run : List W → Processor → C → A → Outcome Bool C A
  run ws p c a =
      if p.running
      then (err (leaf other_cause), 0, p, c, a)
      else elim (load_position checkpoints c) [
        | err e ↦ (err e, 0, record p { running = true }, c, a)
        | ok position ↦ rounds ws false 0 (record p { running = true; position = position }) c a
      ]
