-- ===== src/Processor/Running.antt =====
-- projection/processor/processor.go: Run against the checkpoint.
use estoria.Prelude.{
  ℕ, ◌+◌, ◌≤◌, ◌<◌, ◌≡◌, refl, sym, ap, ◌∙◌, subst, ◌⊎◌, inl, inr, Bool, true, false, Option, List,
  [], ◌∷◌, ◌++◌, append-nil, arith, Option-cases, Result-cases, Int64, int64_neg, ok, err,
}
use estoria.Processor.Errors.{Cause, Failure}
use estoria.Processor.{
  GlobalReader, Checkpoints, Handler, Settings, Processor, BufferedEvent, save_checkpoint,
}
use estoria.Processor.Drain.{
  Outcome, drain, touch, signal_caught_up, after_drain, round, read_options,
}
use estoria.Processor.Accounting.{
  IsCheckpoints, Accounts, save_checkpoint-Accounts, save_checkpoint-since, handle_each, AllPassed,
  Fatal,
}
use estoria.Processor.Batches.{drain-Leaves, batch_of}
use estoria.Processor.Reading.{Begins, fill-Begins, Read, Read-prefix, Delivered, Delivered-nothing}

module _ {W I C A : Type 0} (cancelled : ℕ → Option Cause) (settings : Settings)
    (reader : GlobalReader W I) (checkpoints : Checkpoints C) (handle : Handler A)
    (saved : C → Int64) (laws : IsCheckpoints checkpoints saved) (start : Int64)
    (positive : 1 ≤ settings.checkpoint_every) (bound : settings.checkpoint_every < int64_neg) where
  -- The events handled so far are accounted for.
  abbrev pub Settled : List BufferedEvent → Outcome Bool C A → Type 0
  Settled handled o =
      Accounts start (saved o.3) o.2 handled
      × (o.2.since_checkpoint ≤ settings.checkpoint_every)
      × ((x : Bool) → o.0 ≡ ok x → o.2.since_checkpoint < settings.checkpoint_every)

  -- From a state of the handler on, it accepted each of some events, or the processor went on past its
  -- error, and it was called on no other, but for one on which it failed and that ended the processor.
  abbrev pub Handled : List BufferedEvent → A → Outcome Bool C A → Type 0
  Handled events a o =
      AllPassed settings handle events a
      × ((o.4 ≡ handle_each handle events a)
          ⊎ ((b : BufferedEvent) × Fatal settings handle (handle_each handle events a) b
              × (o.4 ≡ (handle b.event (handle_each handle events a)).1)))
      × ((x : Bool) → o.0 ≡ ok x → o.4 ≡ handle_each handle events a)

  -- More events are handled in some rounds, after others.
  abbrev pub Continues : List BufferedEvent → A → List W → Outcome Bool C A → Type 0
  Continues handled a ws o =
      (events : List BufferedEvent) × Settled (handled ++ events) o
      × Handled events a o
      × Delivered reader settings.batch_size start handled ws events

  -- What Run leaves, from the states in which its rounds find the event store and the one in which it
  -- finds the handler.
  abbrev pub Accounted : List W → A → Outcome Bool C A → Type 0
  Accounted ws a o =
      (handled : List BufferedEvent) × Settled handled o
      × Handled handled a o
      × Delivered reader settings.batch_size start [] ws handled

  pub ended :
      (handled : List BufferedEvent) (e : Failure) (i : ℕ) (p : Processor) (c : C) (a : A)
      → Accounts start (saved c) p handled
      → p.since_checkpoint ≤ settings.checkpoint_every
      → Settled handled (err e, i, p, c, a)
  ended handled e i p c a h within = (h, within, λ x bad. absurd (ground (arith, bad)))

  same_place :
      (stored : Int64) (p q : Processor) (handled : List BufferedEvent)
      → q.position ≡ p.position
      → q.since_checkpoint ≡ p.since_checkpoint
      → Accounts start stored p handled
      → Accounts start stored q handled
  same_place stored p q handled e f h = record {
    settled = h.settled;
    pending = h.pending;
    whole = h.whole;
    at_end = h.at_end ∙ sym e;
    checkpointed = h.checkpointed;
    counted = omega (arith, h.counted, f);
  }

  abbrev signalled : Processor → Processor
  signalled = signal_caught_up cancelled settings reader checkpoints handle

  signalled-same :
      (p : Processor)
      → ((signalled p).position ≡ p.position)
        × ((signalled p).since_checkpoint ≡ p.since_checkpoint)
  signalled-same p = ground arith

  touch-Settled :
      (handled : List BufferedEvent) (i : ℕ) (p : Processor) (c : C) (a : A)
      → Accounts start (saved c) p handled
      → p.since_checkpoint < settings.checkpoint_every
      → Settled handled (touch cancelled settings reader checkpoints handle i p c a)
  unfolding touch
  touch-Settled handled i p c a h room =
      let (reset, zeroed) =
        save_checkpoint-since cancelled settings reader checkpoints handle saved laws start positive
          bound p c in
      let h' =
        save_checkpoint-Accounts cancelled settings reader checkpoints handle saved laws start
          positive bound p c handled h in
      let (x, q, c') = save_checkpoint checkpoints p c in
      elim (Option-cases (cancelled i)) [
        | inr (ctx_err, cut) ↦
            rw (touch, cut) (ended handled _ (i + 1) p c a h (omega (arith, room)))
        | inl go ↦ elim (Option-cases x) [
          | inr (e, failed) ↦
              rw (touch, go, failed)
                (ended handled _ (i + 1) q c' a h' (omega (arith, reset, room)))
          | inl fine ↦ elim (Option-cases (cancelled (i + 1))) [
            | inr (ctx_err, cut) ↦
                rw (touch, go, fine, cut)
                  (ended handled _ (i + 2) q c' a h' (omega (arith, reset, room)))
            | inl still ↦
                let (e, f) = signalled-same q in
                rw (touch, go, fine, still)
                  (
                    same_place (saved c') q (signalled q) handled e f h',
                    omega (arith, f, reset, room),
                    λ y eq. omega (arith, f, reset, room),
                  )
          ]
        ]
      ]

  -- The touch leaves the handler alone.
  touch-handler :
      (i : ℕ) (p : Processor) (c : C) (a : A)
      → (touch cancelled settings reader checkpoints handle i p c a).4 ≡ a
  unfolding touch
  touch-handler i p c a =
      let (x, q, c') = save_checkpoint checkpoints p c in
      elim (Option-cases (cancelled i)) [
        | inr (ctx_err, cut) ↦ ground (arith, cut)
        | inl go ↦ elim (Option-cases x) [
          | inr (e, failed) ↦ ground (arith, go, failed)
          | inl fine ↦ elim (Option-cases (cancelled (i + 1))) [
            | inr (ctx_err, cut) ↦ ground (arith, go, fine, cut)
            | inl still ↦ ground (arith, go, fine, still)
          ]
        ]
      ]

  after_drain-Settled :
      (handled : List BufferedEvent) (o : Outcome Bool C A)
      → Settled handled o
      → Settled handled (after_drain cancelled settings reader checkpoints handle o)
  unfolding after_drain
  after_drain-Settled handled (err e, i, p, c, a) h = h
  after_drain-Settled handled (ok false, i, p, c, a) h = h
  after_drain-Settled handled (ok true, i, p, c, a) (h, within, room) =
      touch-Settled handled i p c a h (room true refl)

  after_drain-Handled :
      (events : List BufferedEvent) (a0 : A) (o : Outcome Bool C A)
      → Handled events a0 o
      → Handled events a0 (after_drain cancelled settings reader checkpoints handle o)
  unfolding after_drain
  after_drain-Handled events a0 (err e, i, p, c, a) h = h
  after_drain-Handled events a0 (ok false, i, p, c, a) h = h
  after_drain-Handled events a0 (ok true, i, p, c, a) (passed, ending, all) =
      let same = touch-handler i p c a ∙ all true refl in (passed, inl same, λ x eq. same)

  batch-Read :
      (w : W) (i : ℕ) (p : Processor)
      → Read reader settings.batch_size w p.position (
          batch_of cancelled settings reader checkpoints handle saved laws start positive bound w i
            p)
  unfolding batch_of
  batch-Read w i p =
      elim (Result-cases
        (reader.read_all w (read_options cancelled settings reader checkpoints handle p))) [
          | inr (e, failed) ↦ inl (ground (arith, failed))
          | inl (x, read) ↦ elim (Option-cases x) [
            | inl no_iter ↦ inl (ground (arith, read, no_iter))
            | inr (iter, some_iter) ↦ inr (
              iter,
              read ∙ ap ok some_iter,
              subst (Begins reader.next iter) (ground (arith, read, some_iter))
                  (fill-Begins cancelled reader.next settings.batch_size i iter),
            )
          ]
        ]

  -- What a drain does, as the first of some rounds.
  drain-Continues :
      (w : W) (handled : List BufferedEvent) (i : ℕ) (p : Processor) (c : C) (a : A)
      → Accounts start (saved c) p handled
      → p.since_checkpoint < settings.checkpoint_every
      → Continues handled a (w ∷ []) (drain cancelled settings reader checkpoints handle w i p c a)
  drain-Continues w handled i p c a h room =
      let (taken, rest, split, h', within, fine, passed, ending) =
        drain-Leaves cancelled settings reader checkpoints handle saved laws start positive bound w
          handled i p c a h room in
      let o = drain cancelled settings reader checkpoints handle w i p c a in
      let first : Read reader settings.batch_size w p.position taken =
        Read-prefix reader settings.batch_size w p.position taken rest
          (subst (Read reader settings.batch_size w p.position) (sym split) (batch-Read w i p)) in
      (
        taken,
        (h', within, λ x e. (fine x e).0),
        (
          passed,
          elim ending [
            | inl all ↦ inl all
            | inr (b, others, next_one, fatal, same) ↦ inr (b, fatal, same)
          ],
          λ x e. elim ending [
            | inl all ↦ all
            | inr (b, others, next_one, fatal, same) ↦
                absurd (ground (arith, (fine x e).1, next_one))
          ],
        ),
        (
          taken,
          [],
          append-nil taken,
          subst (λ position. Read reader settings.batch_size w position taken) (sym h.at_end) first,
          refl,
        ),
      )

  pub round-Continues :
      (w : W) (handled : List BufferedEvent) (i : ℕ) (p : Processor) (c : C) (a : A)
      → Accounts start (saved c) p handled
      → p.since_checkpoint < settings.checkpoint_every
      → Continues handled a (w ∷ []) (round cancelled settings reader checkpoints handle w i p c a)
  unfolding round
  round-Continues w handled i p c a h room = elim (Option-cases (cancelled i)) [
    | inr (ctx_err, cut) ↦
        rw (round, cut)
          (
            [],
            rw (append-nil handled) (ended handled _ (i + 1) p c a h (omega (arith, room))),
            (tt, inl refl, λ x eq. refl),
            Delivered-nothing reader settings.batch_size start handled (w ∷ []),
          )
    | inl go ↦
        let o = drain cancelled settings reader checkpoints handle w (i + 1) p c a in
        let (events, settled, called, delivered) = drain-Continues w handled (i + 1) p c a h room in
        rw (round, go)
          (
            events,
            after_drain-Settled (handled ++ events) o settled,
            after_drain-Handled events a o called,
            delivered,
          )
  ]
