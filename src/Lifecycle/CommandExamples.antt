-- ===== src/Lifecycle/CommandExamples.antt =====
-- projection/lifecycle: the commands on the lifecycle of one projection, run on concrete inputs.
use estoria.Prelude.{
  true, false, none, some, List, [], ◌∷◌, if◌then◌else◌, length, Int64, Text, codes, text_eq,
}
use estoria.TypeId.{Uuid}
use estoria.Projection.{ProjectionId, zero_id}
use estoria.Lifecycle.Retirement.{Cutover}
use estoria.Lifecycle.State.{
  validate_captured, validate_previous, State, zero_attempt, new_state, phase_promoted,
  validate_captured, validate_previous,
}
use estoria.Lifecycle.Events.{
  CaughtUp, DomainEvent, rebuild_initiated, runner_claimed, build_started, retire_started,
}
use estoria.Lifecycle.Commands.{record_catch_up, View, stream_type, record_catch_up, no_takeover}
use estoria.Lifecycle.Commands.Retire.{Collaborators}
use estoria.Lifecycle.Draining.{advance}

abbrev address : Text → Uuid
address name = length name

abbrev orders : Int64 → ProjectionId
orders version = record { name = codes "orders"; version = version }

abbrev audit : Text
audit = codes "audit"

abbrev serving : Cutover
serving = record { live = orders 2; revision = 2 }

abbrev witnessed : Collaborators
witnessed = record {
  registered = λ id. if text_eq id audit then some (λ name. some serving) else none;
  can_tear_down = λ id. true;
}

-- The second version is live, and the first one is yet to be retired.
abbrev promoted_state : State
promoted_state = record {
  name = codes "orders";
  live = orders 2;
  cutover_revision = 2;
  allocated = 2;
  attempt = record zero_attempt {
    id = 7;
    target = orders 2;
    previous = orders 1;
    phase = phase_promoted;
    runner = 9;
  };
  retirement_policy = record { generation = 1; witnesses = audit ∷ []; unwitnessed = false };
  invalid_reason = none;
}

abbrev promoted_view : View
promoted_view = record {
  id = record { type_name = stream_type; uuid = address (codes "orders") };
  version = 12;
  state = promoted_state;
}

abbrev reservation : List DomainEvent
reservation =
    retire_started (record {
      retiring = orders 1;
      policy_generation = 1;
      witnesses = audit ∷ [];
      receipts = record { witness = audit; cutover = serving } ∷ [];
      override = record { actor = []; reason = [] };
      at = 5;
    })
    ∷ []

abbrev new_view : View
new_view = record {
  id = record { type_name = stream_type; uuid = address (codes "orders") };
  version = 0;
  state = new_state;
}

abbrev admission : List DomainEvent
admission =
    rebuild_initiated (record {
      attempt = 7;
      target = orders 1;
      previous = zero_id;
      reason = codes "schema";
      at = 1;
    })
    ∷ []

abbrev claim : List DomainEvent
claim =
    runner_claimed
      (record { attempt = 7; runner = 9; from_position = 0; takeover = no_takeover; at = 2 })
    ∷ build_started
    ∷ []

abbrev admitted_view : View
admitted_view = advance new_view admission

abbrev claimed_view : View
claimed_view = advance admitted_view claim

abbrev catch_up : CaughtUp
catch_up = record { position = 30; duration = 2; at = 3 }
