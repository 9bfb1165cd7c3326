-- ===== src/Processor/Delivery.antt =====
-- projection/processor/processor.go: Run against its reader, its handler and its checkpoint store.
use estoria.Prelude.{
  ℕ, ◌≤◌, ◌<◌, ◌≡◌, refl, sym, ap, ◌∙◌, subst, inl, inr, Bool, true, false, Option, List, [], ◌∷◌,
  ◌++◌, append-nil, append_assoc, arith, Result-cases, Int64, int64_neg, ok,
}
use estoria.Processor.Errors.{Cause}
use estoria.Processor.{
  GlobalReader, Checkpoints, Handler, Settings, Processor, BufferedEvent, load_position,
  new_processor,
}
use estoria.Processor.Drain.{Outcome, round, rounds, run}
use estoria.Processor.Accounting.{
  IsCheckpoints, Accounts, last_position, handle_each, handle_each-append, AllPassed, Fatal,
}
use estoria.Processor.Reading.{Read, Delivered-nothing}
use estoria.Processor.Running.{Handled, Continues, Accounted, round-Continues}

module _ {W I C A : Type 0} (cancelled : ℕ → Option Cause) (settings : Settings)
    (reader : GlobalReader W I) (checkpoints : Checkpoints C) (handle : Handler A)
    (saved : C → Int64) (laws : IsCheckpoints checkpoints saved) (start : Int64)
    (positive : 1 ≤ settings.checkpoint_every) (bound : settings.checkpoint_every < int64_neg) where
  AllPassed-append :
      (xs ys : List BufferedEvent) (a : A)
      → AllPassed settings handle xs a
      → AllPassed settings handle ys (handle_each handle xs a)
      → AllPassed settings handle (xs ++ ys) a
  AllPassed-append [] ys a h k = k
  AllPassed-append (x ∷ xs) ys a (pass, h) k =
      (pass, AllPassed-append xs ys (handle x.event a).1 h k)

  abbrev Calls : List BufferedEvent → A → Outcome Bool C A → Type 0
  Calls events a o =
      Handled cancelled settings reader checkpoints handle saved laws start positive bound events a
        o

  Handled-append :
      (xs ys : List BufferedEvent) (a a' : A) (o : Outcome Bool C A)
      → AllPassed settings handle xs a
      → a' ≡ handle_each handle xs a
      → Calls ys a' o
      → Calls (xs ++ ys) a o
  Handled-append xs ys a a' o passed same called =
      let (more, ending, all) = subst (λ z. Calls ys z o) same called in
      let joined = handle_each-append handle xs ys a in
      (
        AllPassed-append xs ys a passed more,
        elim ending [
          | inl whole ↦ inl (whole ∙ sym joined)
          | inr (b, fatal, left) ↦ inr (
            b,
            subst (λ z. Fatal settings handle z b) (sym joined) fatal,
            left ∙ ap (λ z. (handle b.event z).1) (sym joined),
          )
        ],
        λ x eq. all x eq ∙ sym joined,
      )

  abbrev GoesOn : List BufferedEvent → A → List W → Outcome Bool C A → Type 0
  GoesOn handled a ws o =
      Continues cancelled settings reader checkpoints handle saved laws start positive bound handled
        a ws o

  rounds-Continues :
      (ws : List W) (waits : Bool) (handled : List BufferedEvent) (i : ℕ) (p : Processor) (c : C)
      (a : A)
      → Accounts start (saved c) p handled
      → p.since_checkpoint < settings.checkpoint_every
      → GoesOn handled a ws (rounds cancelled settings reader checkpoints handle ws waits i p c a)
  unfolding rounds
  rounds-Continues [] waits handled i p c a h room = (
    [],
    rw (append-nil handled) (h, omega (arith, room), λ x e. room),
    (tt, inl refl, λ x e. refl),
    refl,
  )
  rounds-Continues (w ∷ ws) waits handled i p c a h room =
      let (r, i', p', c', a') = round cancelled settings reader checkpoints handle w i p c a in
      let (events, (h', within, fine), called, (taken, rest, split, read, nothing)) =
        round-Continues cancelled settings reader checkpoints handle saved laws start positive bound
          w handled i p c a h room in
      let whole : taken ≡ events =
        sym (append-nil taken) ∙ ap (λ l. taken ++ l) (sym nothing) ∙ split in
      let first =
        subst (λ l. Read reader settings.batch_size w (last_position start handled) l) whole read in
      elim (Result-cases r) [
        | inr (e, failed) ↦
            rw (rounds, failed)
              (
                events,
                (h', within, λ x bad. absurd (ground (arith, bad))),
                (called.0, called.1, λ x bad. absurd (ground (arith, bad))),
                (
                  events,
                  [],
                  append-nil events,
                  first,
                  Delivered-nothing reader settings.batch_size start (handled ++ events) ws,
                ),
              )
        | inl (x, done) ↦
            let (more, settled, calls, delivered) =
              rounds-Continues ws x (handled ++ events) i' p' c' a' h' (fine x done) in
            rw (rounds, done)
              (
                events ++ more,
                rw (append_assoc handled events more) at settled,
                Handled-append events more a a'
                    (rounds cancelled settings reader checkpoints handle ws x i' p' c' a') called.0
                    (called.2 x done) calls,
                (events, more, refl, first, delivered),
              )
      ]

  -- Run of a new processor, through any number of rounds and however they end. The events that it
  -- handled are, round by round, the first ones that the reader yields past the last event handled
  -- before, from the loaded checkpoint on. The handler was called on each of them once, in order, and
  -- accepted it, or the settings continue past its error; it was called on no other event, but for one
  -- on which it failed and which ended the Run. The position is that of the last event handled; the
  -- checkpoint is at the end of some of the events handled; and at most as many follow it, to be
  -- delivered again after a crash, as the checkpoint interval says. The interval is positive and fits
  -- an int64, and the saves of checkpoints keep their contract.
  pub run-Accounted :
      (ws : List W) (c : C) (a : A)
      → load_position checkpoints c ≡ ok start
      → saved c ≡ start
      → Accounted cancelled settings reader checkpoints handle saved laws start positive bound ws a
          (run cancelled settings reader checkpoints handle ws new_processor c a)
  unfolding run
  run-Accounted ws c a loaded kept =
      rw (run, loaded)
        (rounds-Continues ws false [] 0 (record new_processor { running = true; position = start })
          c a
          (record {
            settled = [];
            pending = [];
            whole = refl;
            at_end = refl;
            checkpointed = sym kept;
            counted = omega arith;
          })
          positive)
