-- ===== src/Lifecycle/Reaching.antt =====
-- projection/lifecycle: the lifecycles that sequences of commands lead to.
use estoria.Prelude.{◌≡◌, false, ◌&&◌, List, is_empty, lt64, Text}
use estoria.TypeId.{Uuid}
use estoria.Lifecycle.State.{new_state}
use estoria.Lifecycle.Events.{DomainEvent}
use estoria.Lifecycle.Commands.{View, stream_type}
use estoria.Lifecycle.Draining.{Kept, advance}
use estoria.Lifecycle.Commanded.{Issued}

-- What the commands on one projection lead to, from a lifecycle that does not exist yet.
pub data Reached (u : Text → Uuid) (name : Text) : View → Type 0 where
  unwritten : Reached u name (record {
    id = record { type_name = stream_type; uuid = u name };
    version = 0;
    state = new_state;
  })
  commanded :
      {v : View} {events : List DomainEvent}
      → Reached u name v
      → Issued u name v events
      → Reached u name (advance v events)

-- A lifecycle with a version has a name.
IsNamed : View → Type 0
IsNamed v = (lt64 0 v.version && is_empty v.state.name) ≡ false

record Steady (u : Text → Uuid) (name : Text) (v : View) : Type 0 where
  own_id : v.id ≡ record { type_name = stream_type; uuid = u name }
  named : IsNamed v
  kept : Kept name v.state
