-- ===== src/Projection/Examples.antt =====
-- projection/fold.go: a fold over two events, of which the handler refuses the first.
use estoria.Prelude.{
  ℕ, ◌+◌, ◌≡◌, refl, true, Option, none, some, List, [], ◌∷◌, ◌==◌, if◌then◌else◌, Text, codes,
  Result, ok, err,
}
use estoria.TypeId.{zero_id}
use estoria.EventStore.{Event, StoreError, end_of_event_stream, collect}
use estoria.Projection.Fold.{Fold, no_results, project}
use estoria.Projection.Folding.{handle_all, project-collect}

abbrev event_at : ℕ → Event
event_at n = record {
  id = zero_id;
  stream_id = zero_id;
  stream_version = n;
  global_position = none;
  timestamp = 0;
  payload = [];
  data_content_type = [];
  metadata = [];
}

abbrev next_event : List Event → Result StoreError Event × List Event
next_event [] = (err end_of_event_stream, [])
next_event (event ∷ events) = (ok event, events)

-- The sum of the versions above 1; version 1 is refused.
abbrev adding : Event → ℕ → Option Text × ℕ
adding event sum =
    if event.stream_version == 1
    then (some (codes "refused"), sum)
    else (none, sum + event.stream_version)

abbrev two_events : List Event
two_events = event_at 1 ∷ event_at 2 ∷ []

abbrev tolerant : Fold (List Event)
tolerant = record { iter = two_events; continue_on_handler_error = true }

two_events-collected : collect next_event 3 two_events ≡ some (two_events, none)
unfolding collect
two_events-collected = refl

project-collect_example :
    project next_event (some adding) 3 tolerant 0
    ≡ some (handle_all adding true two_events none no_results 0)
project-collect_example =
    project-collect next_event adding 3 tolerant 0 two_events none two_events-collected
