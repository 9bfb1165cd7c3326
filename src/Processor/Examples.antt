-- ===== src/Processor/Examples.antt =====
-- projection/processor/processor.go: a processor over a log of two events, which it reads one at a time,
-- and saves a checkpoint after every second event.
use estoria.Prelude.{
  ℕ, zero, suc, ◌≤◌, ◌≡◌, refl, ap, inr, true, false, Option, none, some, List, [], ◌∷◌, ◌++◌,
  arith, ltb, if◌then◌else◌, length, take, drop, All, Int64, codes, Result, ok, err,
}
use estoria.EventStore.{Event}
use estoria.Processor.Errors.{
  Cause, context_canceled, end_of_stream, other_cause, Failure, leaf, wrapped, joined, no_failures,
  one_more, cause_eq, is, join_cancellation, leaves_match,
}
use estoria.Processor.{
  GlobalReader, Checkpoints, Handler, Settings, BufferedEvent, new_processor, load_position,
}
use estoria.Processor.Drain.{rounds, run}
use estoria.Processor.Cancellation.{join_cancellation-is}
use estoria.Processor.Accounting.{handle_each, last_position, IsCheckpoints}
use estoria.Processor.Running.{Accounted}
use estoria.Processor.Delivery.{run-Accounted}
use estoria.Processor.Progress.{Yields, Holds, Reached, rounds-Reached}
use estoria.TypeId.{zero_id}
use estoria.Projection.{ProjectionId}
use estoria.CheckpointStore.{new_checkpoint_store}
use estoria.Processor.Reading.{Delivered}
use estoria.Processor.Running.{Handled}
use estoria.Processor.Restart.{
  Memory, memory_checkpoints, position_in, memory-IsCheckpoints, run-restarts,
}

abbrev event_at : ℕ → BufferedEvent
event_at n = record {
  event = record {
    id = zero_id;
    stream_id = zero_id;
    stream_version = n;
    global_position = some n;
    timestamp = 0;
    payload = n ∷ [];
    data_content_type = [];
    metadata = [];
  };
  position = n;
}

abbrev two_events : List BufferedEvent
two_events = event_at 1 ∷ event_at 2 ∷ []

abbrev next_event : List BufferedEvent → Result Failure (Option Event) × List BufferedEvent
next_event [] = (err (leaf end_of_stream), [])
next_event (b ∷ events) = (ok (some b.event), events)

-- A log whose positions count its events.
abbrev reader : GlobalReader (List BufferedEvent) (List BufferedEvent)
reader = record {
  read_all = λ log opts. ok (some (take opts.count (drop opts.after_position log)));
  next = next_event;
  close = λ iter. none;
}

-- A checkpoint store that holds a position and does not fail.
abbrev checkpoints : Checkpoints Int64
checkpoints = record { load = λ c. ok (some c); save = λ c position. (none, position) }

-- A handler that collects the versions of the events.
abbrev collecting : Handler (List ℕ)
collecting event seen = (none, seen ++ event.stream_version ∷ [])

abbrev settings : Settings
settings = record {
  poll_interval = 1;
  batch_size = 1;
  checkpoint_every = 2;
  continue_on_handler_error = false;
}

abbrev is_saved : Int64 → Int64
is_saved c = c

checkpoints-IsCheckpoints : IsCheckpoints checkpoints is_saved
checkpoints-IsCheckpoints = record {
  saves = λ c position h. refl;
  fails = λ c position e h. inr refl;
}

-- A context that is cancelled the tenth time that it is asked.
abbrev soon_cancelled : ℕ → Option Cause
soon_cancelled i = if ltb i 9 then none else some context_canceled

abbrev calm : ℕ → Option Cause
calm i = none

run-Accounted_example :
    Accounted soon_cancelled settings reader checkpoints collecting is_saved
      checkpoints-IsCheckpoints 0
      (omega arith)
      (omega arith)
      (two_events ∷ two_events ∷ [])
      []
      (run soon_cancelled settings reader checkpoints collecting
        (two_events ∷ two_events ∷ [])
        new_processor
        0
        [])
unfolding load_position
run-Accounted_example =
    run-Accounted soon_cancelled settings reader checkpoints collecting is_saved
      checkpoints-IsCheckpoints 0 (omega arith) (omega arith) (two_events ∷ two_events ∷ []) 0 []
      refl refl

abbrev orders : ProjectionId
orders = record { name = codes "orders"; version = 1 }

abbrev ticks : ℕ → ℕ
ticks n = n

abbrev empty_memory : Memory
empty_memory = (0, new_checkpoint_store)

-- Two Runs, each of two rounds over the two events.
run-restarts_example :
    let o =
      run soon_cancelled settings reader
        (memory_checkpoints ticks orders)
        collecting
        (two_events ∷ two_events ∷ [])
        new_processor
        empty_memory
        [] in
    (settled : List BufferedEvent) × (again : List BufferedEvent) × (length again ≤ 2)
    × Handled soon_cancelled settings reader
        (memory_checkpoints ticks orders)
        collecting
        (position_in ticks orders)
        (memory-IsCheckpoints ticks orders)
        (position_in ticks orders empty_memory)
        (omega arith)
        (omega arith)
        (settled ++ again)
        []
        o
    × Delivered reader 1
        (position_in ticks orders empty_memory)
        []
        (two_events ∷ two_events ∷ [])
        (settled ++ again)
    × Accounted calm settings reader
        (memory_checkpoints ticks orders)
        collecting
        (position_in ticks orders)
        (memory-IsCheckpoints ticks orders)
        (last_position (position_in ticks orders empty_memory) settled)
        (omega arith)
        (omega arith)
        (two_events ∷ two_events ∷ [])
        []
        (run calm settings reader
          (memory_checkpoints ticks orders)
          collecting
          (two_events ∷ two_events ∷ [])
          new_processor
          o.3
          [])
run-restarts_example =
    run-restarts ticks orders settings reader collecting (omega arith) (omega arith) soon_cancelled
      calm (two_events ∷ two_events ∷ []) (two_events ∷ two_events ∷ []) empty_memory [] []

take-Yields :
    (n : ℕ) (log : List BufferedEvent)
    → All (λ b. b.event.global_position ≡ some b.position) log
    → Yields next_event (take n log) (take n log)
unfolding leaves_match
take-Yields zero log h = (leaf end_of_stream, refl, refl)
take-Yields (suc n) [] h = (leaf end_of_stream, refl, refl)
take-Yields (suc n) (b ∷ log) (placed, h) = (refl, placed, take-Yields n log h)

split-drop :
    (done left : List BufferedEvent)
    → done ++ left ≡ two_events
    → (drop (last_position 0 done) two_events ≡ left)
      × All (λ b. b.event.global_position ≡ some b.position) left
split-drop [] left h = rw h (refl, (refl, (refl, tt)))
split-drop (x ∷ []) left h =
    let place : x.position ≡ 1 = ap (λ l. last_position 0 (take 1 l)) h in
    let rest : left ≡ event_at 2 ∷ [] = ap (drop 1) h in rw (place, rest) (refl, (refl, tt))
split-drop (x ∷ y ∷ []) left h =
    let place : y.position ≡ 2 = ap (λ l. last_position 0 (take 2 l)) h in
    let rest : left ≡ [] = ap (drop 2) h in rw (place, rest) (refl, tt)
split-drop (x ∷ y ∷ z ∷ done) left h = absurd (ground (arith, h))

two_events-Holds : Holds reader two_events two_events
two_events-Holds done left count split some_room =
    let (rest, placed) = split-drop done left split in
    (take count left, rw rest refl, take-Yields count left placed)

rounds-Reached_example :
    Reached calm settings reader checkpoints collecting
      (λ i. refl)
      (λ iter. refl)
      (λ c position. refl)
      (λ event seen. refl)
      (rounds calm settings reader checkpoints collecting
        (two_events ∷ two_events ∷ two_events ∷ [])
        false
        0
        new_processor
        0
        [])
      true
      2
      true
      (handle_each collecting two_events [])
rounds-Reached_example =
    rounds-Reached calm settings reader checkpoints collecting (λ i. refl) (λ iter. refl)
      (λ c position. refl) (λ event seen. refl) (omega arith) (omega arith) two_events
      (two_events ∷ two_events ∷ two_events ∷ []) false [] two_events 0 new_processor 0 []
      (two_events-Holds, (two_events-Holds, (two_events-Holds, tt))) (omega arith) refl refl

-- A reading error that joins the cancellation, the end of the stream and another failure.
abbrev mixed : Failure
mixed = joined (
    one_more (wrapped (leaf context_canceled))
      (one_more (leaf end_of_stream) (one_more (leaf other_cause) no_failures)))

join_cancellation-is_example :
    (is (join_cancellation context_canceled (some mixed)) context_canceled ≡ true)
    × ((c : Cause)
        → is mixed c ≡ true
        → cause_eq c end_of_stream ≡ false
        → is (join_cancellation context_canceled (some mixed)) c ≡ true)
join_cancellation-is_example = join_cancellation-is context_canceled mixed
