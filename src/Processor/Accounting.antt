-- ===== src/Processor/Accounting.antt =====
-- projection/processor/processor.go: the checkpoint against the events that have been handled.
use estoria.Prelude.{
  ℕ, ◌≤◌, ◌<◌, ◌≡◌, refl, sym, ap, ◌∙◌, ◌⊎◌, inl, inr, true, false, Option, none, some, List, [],
  ◌∷◌, ◌++◌, append-nil, append_assoc, arith, Bool-cases, Option-cases, length, length-append,
  Int64, int64_neg, add64, le64, add64_lem, le64_lem,
}
use estoria.Processor.Errors.{Cause, Failure}
use estoria.Processor.{
  GlobalReader, Checkpoints, Handler, Settings, Processor, BufferedEvent, save_checkpoint,
}
use estoria.Processor.Drain.{checkpoint_if_due}

-- The position after handling events from a position on.
abbrev pub last_position : Int64 → List BufferedEvent → Int64
last_position start [] = start
last_position start (b ∷ events) = last_position b.position events

pub last_position-append :
    (start : Int64) (xs ys : List BufferedEvent)
    → last_position start (xs ++ ys) ≡ last_position (last_position start xs) ys
last_position-append start [] ys = refl
last_position-append start (x ∷ xs) ys = last_position-append x.position xs ys

-- The state of a handler that is called on each of some events, in order.
abbrev pub handle_each : {A : Type 0} → Handler A → List BufferedEvent → A → A
handle_each handle [] a = a
handle_each handle (b ∷ events) a = handle_each handle events (handle b.event a).1

pub handle_each-append :
    {A : Type 0} (handle : Handler A) (xs ys : List BufferedEvent) (a : A)
    → handle_each handle (xs ++ ys) a ≡ handle_each handle ys (handle_each handle xs a)
handle_each-append handle [] ys a = refl
handle_each-append handle (x ∷ xs) ys a = handle_each-append handle xs ys (handle x.event a).1

-- The handler accepts each of some events, or the settings let a processor go on past its error.
abbrev pub AllPassed : {A : Type 0} → Settings → Handler A → List BufferedEvent → A → Type 0
AllPassed settings handle [] a = Unit
AllPassed settings handle (b ∷ events) a =
    (((handle b.event a).0 ≡ none) ⊎ (settings.continue_on_handler_error ≡ true))
    × AllPassed settings handle events (handle b.event a).1

-- An event on which the handler fails, and which ends the processor.
pub record Fatal {A : Type 0} (settings : Settings) (handle : Handler A) (a : A) (b : BufferedEvent)
    : Type 0 where
  pub failure : Failure
  pub fails : (handle b.event a).0 ≡ some failure
  pub ends : settings.continue_on_handler_error ≡ false

-- A save that succeeds stores the position; one that fails may have stored it all the same.
pub record IsCheckpoints {C : Type 0} (checkpoints : Checkpoints C) (saved : C → Int64)
    : Type 0 where
  pub saves :
      (c : C) (position : Int64)
      → (checkpoints.save c position).0 ≡ none
      → saved (checkpoints.save c position).1 ≡ position
  pub fails :
      (c : C) (position : Int64) (e : Failure)
      → (checkpoints.save c position).0 ≡ some e
      → (saved (checkpoints.save c position).1 ≡ saved c)
        ⊎ (saved (checkpoints.save c position).1 ≡ position)

-- The processor is at the end of the events handled since a start, the checkpoint at the end of some
-- of them, and no more than `since_checkpoint` follow it.
pub record Accounts (start stored : Int64) (p : Processor) (handled : List BufferedEvent)
    : Type 0 where
  pub settled : List BufferedEvent
  pub pending : List BufferedEvent
  pub whole : settled ++ pending ≡ handled
  pub at_end : last_position start handled ≡ p.position
  pub checkpointed : last_position start settled ≡ stored
  pub counted : length pending ≤ p.since_checkpoint

module _ {W I C A : Type 0} (cancelled : ℕ → Option Cause) (settings : Settings)
    (reader : GlobalReader W I) (checkpoints : Checkpoints C) (handle : Handler A)
    (saved : C → Int64) (laws : IsCheckpoints checkpoints saved) (start : Int64)
    (positive : 1 ≤ settings.checkpoint_every) (bound : settings.checkpoint_every < int64_neg) where
  pub advance-Accounts :
      (b : BufferedEvent) (stored : Int64) (p : Processor) (handled : List BufferedEvent)
      → Accounts start stored p handled
      → p.since_checkpoint < settings.checkpoint_every
      → Accounts start stored
          (record p { position = b.position; since_checkpoint = add64 p.since_checkpoint 1 })
          (handled ++ b ∷ [])
  advance-Accounts b stored p handled h room = record {
    settled = h.settled;
    pending = h.pending ++ b ∷ [];
    whole = sym (append_assoc h.settled h.pending (b ∷ [])) ∙ ap (λ l. l ++ b ∷ []) h.whole;
    at_end = last_position-append start handled (b ∷ []);
    checkpointed = h.checkpointed;
    counted = omega (
      arith,
      h.counted,
      length-append h.pending (b ∷ []),
      add64_lem p.since_checkpoint 1 (omega arith),
    );
  }

  -- All of the events are at the checkpoint.
  all_settled :
      (stored : Int64) (p : Processor) (handled : List BufferedEvent)
      → last_position start handled ≡ p.position
      → stored ≡ p.position
      → Accounts start stored p handled
  all_settled stored p handled at_end here = record {
    settled = handled;
    pending = [];
    whole = append-nil handled;
    at_end = at_end;
    checkpointed = at_end ∙ sym here;
    counted = omega arith;
  }

  pub save_checkpoint-Accounts :
      (p : Processor) (c : C) (handled : List BufferedEvent)
      → Accounts start (saved c) p handled
      → Accounts start
          (saved (save_checkpoint checkpoints p c).2)
          (save_checkpoint checkpoints p c).1
          handled
  unfolding save_checkpoint
  save_checkpoint-Accounts p c handled h = elim (Option-cases (checkpoints.save c p.position).0) [
    | inl fine ↦
        rw (save_checkpoint, fine)
          (all_settled (saved (checkpoints.save c p.position).1) (record p { since_checkpoint = 0 })
            handled h.at_end (laws.saves c p.position fine))
    | inr (e, failed) ↦
        rw (save_checkpoint, failed)
          (elim (laws.fails c p.position e failed) [
            | inl same ↦ rw same h
            | inr here ↦ all_settled _ p handled h.at_end here
          ])
  ]

  pub save_checkpoint-since :
      (p : Processor) (c : C)
      → ((save_checkpoint checkpoints p c).1.since_checkpoint ≤ p.since_checkpoint)
        × ((save_checkpoint checkpoints p c).0 ≡ none
            → (save_checkpoint checkpoints p c).1.since_checkpoint ≡ 0)
  unfolding save_checkpoint
  save_checkpoint-since p c = elim (Option-cases (checkpoints.save c p.position).0) [
    | inl fine ↦ rw (save_checkpoint, fine) (omega arith, λ h. refl)
    | inr (e, failed) ↦ rw (save_checkpoint, failed) (omega arith, λ h. absurd (ground (arith, h)))
  ]

  pub checkpoint_if_due-Accounts :
      (p : Processor) (c : C) (handled : List BufferedEvent)
      → Accounts start (saved c) p handled
      → p.since_checkpoint ≤ settings.checkpoint_every
      → Accounts start
          (saved (checkpoint_if_due cancelled settings reader checkpoints handle p c).2)
          (checkpoint_if_due cancelled settings reader checkpoints handle p c).1
          handled
        × ((checkpoint_if_due cancelled settings reader checkpoints handle p c).1.since_checkpoint
            ≤ settings.checkpoint_every)
        × ((checkpoint_if_due cancelled settings reader checkpoints handle p c).0 ≡ none
            → (checkpoint_if_due cancelled settings reader checkpoints handle p
                c).1.since_checkpoint
              < settings.checkpoint_every)
  unfolding checkpoint_if_due
  checkpoint_if_due-Accounts p c handled h within =
      elim (Bool-cases (le64 settings.checkpoint_every p.since_checkpoint)) [
        | inl due ↦
            let (less, reset) = save_checkpoint-since p c in
            rw (checkpoint_if_due, due)
              (
                save_checkpoint-Accounts p c handled h,
                omega (arith, less),
                λ fine. omega (arith, reset fine),
              )
        | inr not_due ↦
            rw (checkpoint_if_due, not_due)
              (
                h,
                within,
                λ fine. ground (
                  arith,
                  not_due,
                  le64_lem settings.checkpoint_every p.since_checkpoint bound (omega arith),
                ),
              )
      ]
