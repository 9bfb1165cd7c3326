-- ===== src/Processor/Progress.antt =====
-- projection/processor/processor.go: a processor that nothing disturbs catches up.
use estoria.Prelude.{
  ℕ, zero, suc, ◌+◌, ◌≤◌, ◌<◌, ◌≡◌, refl, sym, ap, ◌∙◌, inl, inr, Bool, true, false, ◌||◌, Option,
  none, some, List, [], ◌∷◌, ◌++◌, append-nil, append_assoc, arith, ltb, Bool-cases, length, take,
  drop, length-drop, take-append-drop, All, Int64, int64_neg, add64, lt64, le64, lt64_lem, Result,
  ok, err,
}
use estoria.EventStore.{Event}
use estoria.Processor.Errors.{Cause, end_of_stream, Failure, leaves_match}
use estoria.Processor.{
  GlobalReader, Checkpoints, Handler, Settings, Processor, BufferedEvent, fill, save_checkpoint,
}
use estoria.Processor.Drain.{
  Outcome, checkpoint_if_due, finish_batch, handle_batch, close_batch, drain, touch, after_drain,
  round, rounds,
}
use estoria.Processor.Accounting.{
  handle_each, handle_each-append, last_position, last_position-append,
}

-- An iterator yields events, with their positions, and then ends.
abbrev pub Yields :
    {I : Type 0} → (I → Result Failure (Option Event) × I) → I → List BufferedEvent → Type 0
Yields next iter [] =
    (e : Failure) × ((next iter).0 ≡ err e) × (leaves_match e (end_of_stream ∷ []) ≡ true)
Yields next iter (b ∷ events) =
    ((next iter).0 ≡ ok (some b.event))
    × (b.event.global_position ≡ some b.position)
    × Yields next (next iter).1 events

-- The event store holds a log: a read past the position of an event, or past 0, yields the events that
-- follow it in the log, at most as many as asked for.
abbrev pub Holds : {W I : Type 0} → GlobalReader W I → List BufferedEvent → W → Type 0
Holds reader log w =
    (done left : List BufferedEvent) (count : Int64)
    → done ++ left ≡ log
    → 1 ≤ count
    → (iter : _) × (reader.read_all w
          (record { after_position = last_position 0 done; count = count })
        ≡ ok (some iter))
      × Yields reader.next iter (take count left)

module _ {W I C A : Type 0} (cancelled : ℕ → Option Cause) (settings : Settings)
    (reader : GlobalReader W I) (checkpoints : Checkpoints C) (handle : Handler A)
    (calm : (i : ℕ) → cancelled i ≡ none) (closes : (iter : I) → reader.close iter ≡ none)
    (saves : (c : C) (position : Int64) → (checkpoints.save c position).0 ≡ none)
    (handles : (event : Event) (a : A) → (handle event a).0 ≡ none) where
  fill-Yields :
      (n i : ℕ) (iter : I) (events : List BufferedEvent)
      → Yields reader.next iter events
      → length events ≤ n
      → ((fill cancelled reader.next n i iter).0 ≡ events)
        × ((fill cancelled reader.next n i iter).1 ≡ none)
  unfolding fill
  fill-Yields zero i iter [] h fits = (refl, refl)
  fill-Yields zero i iter (b ∷ events) h fits = absurd (omega arith)
  fill-Yields (suc n) i iter [] (e, ends, is_end) fits =
      ground (arith, calm i, calm (i + 1), ends, is_end)
  fill-Yields (suc n) i iter (b ∷ events) (got, placed, more) fits =
      let (same, fine) = fill-Yields n (i + 2) (reader.next iter).1 events more (omega arith) in
      ground (arith, calm i, calm (i + 1), got, placed, same, fine)

  -- What an undisturbed step leaves: its result, the position, and the state of the handler.
  abbrev pub Reached : Outcome Bool C A → Bool → Int64 → Bool → A → Type 0
  Reached o result position caught_up a' =
      (o.0 ≡ ok result) × (o.2.position ≡ position) × (o.2.caught_up ≡ caught_up) × (o.4 ≡ a')

  save_checkpoint-calm :
      (p : Processor) (c : C)
      → ((save_checkpoint checkpoints p c).0 ≡ none)
        × ((save_checkpoint checkpoints p c).1.position ≡ p.position)
        × ((save_checkpoint checkpoints p c).1.caught_up ≡ p.caught_up)
  unfolding save_checkpoint
  save_checkpoint-calm p c = ground (arith, saves c p.position)

  checkpoint_if_due-calm :
      (p : Processor) (c : C)
      → ((checkpoint_if_due cancelled settings reader checkpoints handle p c).0 ≡ none)
        × ((checkpoint_if_due cancelled settings reader checkpoints handle p c).1.position
            ≡ p.position)
        × ((checkpoint_if_due cancelled settings reader checkpoints handle p c).1.caught_up
            ≡ p.caught_up)
  unfolding checkpoint_if_due
  checkpoint_if_due-calm p c =
      elim (Bool-cases (le64 settings.checkpoint_every p.since_checkpoint)) [
        | inl due ↦ rw (checkpoint_if_due, due) (save_checkpoint-calm p c)
        | inr not_due ↦ rw (checkpoint_if_due, not_due) (refl, refl, refl)
      ]

  handle_batch-Reached :
      (size : Int64) (batch : List BufferedEvent) (i : ℕ) (p : Processor) (c : C) (a : A)
      → Reached
          (handle_batch cancelled settings reader checkpoints handle size none batch i p c a)
          (lt64 size settings.batch_size)
          (last_position p.position batch)
          p.caught_up
          (handle_each handle batch a)
  unfolding handle_batch finish_batch
  handle_batch-Reached size [] i p c a = ground (arith, calm i)
  handle_batch-Reached size (b ∷ batch) i p c a =
      let q : Processor = record p {
        position = b.position;
        since_checkpoint = add64 p.since_checkpoint 1;
      } in
      let due = checkpoint_if_due cancelled settings reader checkpoints handle q c in
      let (fine, place, seen) = checkpoint_if_due-calm q c in
      let rest = handle_batch-Reached size batch (i + 1) due.1 due.2 (handle b.event a).1 in
      rw (handle_batch, calm i, handles b.event a, fine) (rw (place, seen) at rest)

  length-take : {B : Type 0} (n : ℕ) (xs : List B) → length (take n xs) ≤ n
  length-take zero xs = omega arith
  length-take (suc n) [] = omega arith
  length-take (suc n) (x ∷ xs) = omega (arith, length-take n xs)

  take_none : {B : Type 0} (n : ℕ) → take {A = B} n [] ≡ []
  take_none zero = refl
  take_none (suc n) = refl

  length-take_all : {B : Type 0} (n : ℕ) (xs : List B) → length (take n xs) ≤ length xs
  length-take_all zero xs = omega arith
  length-take_all (suc n) [] = omega arith
  length-take_all (suc n) (x ∷ xs) = omega (arith, length-take_all n xs)

  take_short : {B : Type 0} (n : ℕ) (xs : List B) → length (take n xs) < n → take n xs ≡ xs
  take_short zero xs h = absurd (omega arith)
  take_short (suc n) [] h = refl
  take_short (suc n) (x ∷ xs) h = ap (λ l. x ∷ l) (take_short n xs (omega arith))

  touch-Reached :
      (i : ℕ) (p : Processor) (c : C) (a : A)
      → Reached (touch cancelled settings reader checkpoints handle i p c a) true p.position true a
  unfolding touch
  touch-Reached i p c a =
      let (fine, place, seen) = save_checkpoint-calm p c in
      ground (arith, calm i, calm (i + 1), fine, place)

  module _ (some_room : 1 ≤ settings.batch_size) (fits : settings.batch_size < int64_neg)
      (log : List BufferedEvent) where
    drain-Reached :
        (w : W) (done left : List BufferedEvent) (i : ℕ) (p : Processor) (c : C) (a : A)
        → Holds reader log w
        → done ++ left ≡ log
        → p.position ≡ last_position 0 done
        → Reached
            (drain cancelled settings reader checkpoints handle w i p c a)
            (lt64 (length (take settings.batch_size left)) settings.batch_size)
            (last_position 0 (done ++ take settings.batch_size left))
            p.caught_up
            (handle_each handle (take settings.batch_size left) a)
    unfolding drain close_batch
    drain-Reached w done left i p c a holds split place =
        let (iter, read, yields) = holds done left settings.batch_size split some_room in
        let batch = take settings.batch_size left in
        let filled = fill cancelled reader.next settings.batch_size i iter in
        let (all, fine) =
          fill-Yields settings.batch_size i iter batch yields
            (length-take settings.batch_size left) in
        let result = handle_batch-Reached (length batch) batch (filled.2 + 1) p c a in
        let read' : reader.read_all w
              (record { after_position = p.position; count = settings.batch_size })
            ≡ ok (some iter) =
          rw place read in
        let e : drain cancelled settings reader checkpoints handle w i p c a
            ≡ handle_batch cancelled settings reader checkpoints handle (length batch) none batch
                (filled.2 + 1) p c a =
          ground (arith, read', all, fine, calm filled.2, closes filled.3) in
        rw (e, last_position-append 0 done batch, ← place) result

    short_lem :
        (left : List BufferedEvent)
        → lt64 (length (take settings.batch_size left)) settings.batch_size
          ≡ ltb (length (take settings.batch_size left)) settings.batch_size
    short_lem left =
        lt64_lem (length (take settings.batch_size left)) settings.batch_size
          (omega (arith, length-take settings.batch_size left, fits)) fits

    round-Reached :
        (w : W) (done left : List BufferedEvent) (i : ℕ) (p : Processor) (c : C) (a : A)
        → Holds reader log w
        → done ++ left ≡ log
        → p.position ≡ last_position 0 done
        → Reached
            (round cancelled settings reader checkpoints handle w i p c a)
            (ltb (length (take settings.batch_size left)) settings.batch_size)
            (last_position 0 (done ++ take settings.batch_size left))
            (p.caught_up || ltb (length (take settings.batch_size left)) settings.batch_size)
            (handle_each handle (take settings.batch_size left) a)
    unfolding round after_drain
    round-Reached w done left i p c a holds split place =
        let (r, i', p', c', a') =
          drain cancelled settings reader checkpoints handle w (i + 1) p c a in
        let (result, place', seen, handled) =
          drain-Reached w done left (i + 1) p c a holds split place in
        let short = ltb (length (take settings.batch_size left)) settings.batch_size in
        let result' : r ≡ ok short = result ∙ ap ok (short_lem left) in
        elim (Bool-cases short) [
          | inl short_now ↦
              let (t, t_place, t_seen, t_same) = touch-Reached i' p' c' a' in
              ground
                (arith, calm i, result', short_now, t, t_place, t_seen, t_same, place', handled)
          | inr full ↦ ground (arith, calm i, result', full, place', seen, handled)
        ]

    -- At the head, more rounds change nothing that Reached tells of.
    rounds_at_head :
        (ws : List W) (i : ℕ) (p : Processor) (c : C) (a : A)
        → All (Holds reader log) ws
        → p.position ≡ last_position 0 log
        → p.caught_up ≡ true
        → Reached
            (rounds cancelled settings reader checkpoints handle ws true i p c a)
            true
            (last_position 0 log)
            true
            a
    unfolding rounds
    rounds_at_head [] i p c a all place seen = (refl, place, seen, refl)
    rounds_at_head (w ∷ ws) i p c a (holds, all) place seen =
        let (r, i', p', c', a') = round cancelled settings reader checkpoints handle w i p c a in
        let reached = round-Reached w log [] i p c a holds (append-nil log) place in
        let (result, place', seen', same) = rw (take_none settings.batch_size) at reached in
        let more =
          rounds_at_head ws i' p' c' a' all (place' ∙ ap (last_position 0) (append-nil log))
            (ground (arith, seen, seen')) in
        ground (arith, result, more, same, some_room)

    -- A processor that nothing disturbs catches up: where the context is not cancelled, nothing fails,
    -- and every round finds the event store with the same log, as many rounds as there are events of it
    -- left, and one more, bring it to the head. Then it has signalled that it caught up, its position is
    -- that of the last event of the log, and it has handled each of the events left once, in order. The
    -- batch size is positive and fits an int64.
    pub rounds-Reached :
        (ws : List W) (waits : Bool) (done left : List BufferedEvent) (i : ℕ) (p : Processor)
        (c : C) (a : A)
        → All (Holds reader log) ws
        → length left < length ws
        → done ++ left ≡ log
        → p.position ≡ last_position 0 done
        → Reached
            (rounds cancelled settings reader checkpoints handle ws waits i p c a)
            true
            (last_position 0 log)
            true
            (handle_each handle left a)
    unfolding rounds
    rounds-Reached [] waits done left i p c a all enough split place = absurd (omega arith)
    rounds-Reached (w ∷ ws) waits done left i p c a (holds, all) enough split place =
        let (r, i', p', c', a') = round cancelled settings reader checkpoints handle w i p c a in
        let (result, place', seen', handled) =
          round-Reached w done left i p c a holds split place in
        let n = settings.batch_size in
        elim (Bool-cases (ltb (length (take n left)) n)) [
          | inl short ↦
              let whole : take n left ≡ left = take_short n left (ground (arith, short)) in
              let more =
                rounds_at_head ws i' p' c' a' all
                  (place' ∙ ap (last_position 0) (ap (λ l. done ++ l) whole ∙ split))
                  (ground (arith, seen', short)) in
              ground (arith, result, short, more, handled, whole)
          | inr full ↦
              let again =
                rounds-Reached ws false (done ++ take n left) (drop n left) i' p' c' a' all
                  (ground
                    (arith, full, length-take_all n left, length-drop n left, enough, some_room))
                  (append_assoc done (take n left) (drop n left)
                    ∙ ap (λ l. done ++ l) (take-append-drop n left)
                    ∙ split)
                  place' in
              let same : handle_each handle (drop n left) a' ≡ handle_each handle left a =
                ap (handle_each handle (drop n left)) handled
                ∙ sym (handle_each-append handle (take n left) (drop n left) a)
                ∙ ap (λ l. handle_each handle l a) (take-append-drop n left) in
              ground (arith, result, full, again, same)
        ]
