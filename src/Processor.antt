-- ===== src/Processor.antt =====
-- projection/processor/processor.go: the processor that drives one projection version over the global
-- event sequence. The reader of the sequence, the handler and the checkpoint store are parameters, on
-- states `W`, `A` and `C`. The context is asked for its error many times: `cancelled i` is what it
-- answers the i-th time. Timers and atomic fields are not modelled.
pub mod Errors
pub mod Drain
pub mod Cancellation
pub mod Accounting
pub mod Batches
pub mod Reading
pub mod Running
pub mod Delivery
pub mod Restart
pub mod Progress
mod Examples
use estoria.Prelude.{
  ℕ, zero, suc, ◌+◌, ◌-◌, ◌*◌, ◌/◌, ◌%◌, ◌^◌, ◌≤◌, ◌<◌, min, ◌≡◌, refl, sym, ap, ◌∙◌, ◌≢◌, ◌↔◌, ◌⊎◌,
  inl, inr, Bool, true, false, not, ◌&&◌, ◌||◌, Option, none, some, List, [], ◌∷◌, ◌++◌, map,
  append-nil, append_assoc, arith, ltb, leb, ◌==◌, if◌then◌else◌, ==_iff, Bool-cases, Option-cases,
  Result-cases, length, is_empty, get_elem?, take, drop, length-append, length-drop,
  take-append-drop, take-append, drop-append, All, All-append, All-imp, Int64, int64_mod, int64_neg,
  max_int64, add64, sub64, lt64, le64, max64, min64, add64_lem, sub64_lem, lt64_lem, le64_lem,
  max64-eq, Text, codes, text_eq, text_lt, text_eq_iff, has_prefix, has_suffix, Result, ok, err,
  ◌>>=◌, map_err, Dict, lookup, insert, erase, lookup-insert, lookup-erase, fails_if, ◌or_else◌,
  wrap, or_else-none, or_else-eq_none,
}
use estoria.EventStore.{Event, ReadAllOptions}
use estoria.Projection.{ProjectionId, IdError, validate_id}
use estoria.Processor.Errors.{
  Cause, end_of_stream, other_cause, Failure, leaf, wrapped, join_cancellation, leaves_match,
  joined, one_more, no_failures,
}

-- eventstore.GlobalReader with its iterators; `none` is a nil iterator or a nil event.
pub record GlobalReader (W I : Type 0) : Type 0 where
  pub read_all : W → ReadAllOptions → Result Failure (Option I)
  pub next : I → Result Failure (Option Event) × I
  pub close : I → Option Failure

-- checkpointstore.Store at the projection of the processor; a load of `none` finds no checkpoint.
pub record Checkpoints (C : Type 0) : Type 0 where
  pub load : C → Result Failure (Option Int64)
  pub save : C → Int64 → Option Failure × C

-- EventHandler
abbrev pub Handler : Type 0 → Type 0
Handler A = Event → A → Option Failure × A

-- What New is given and the options set. The poll interval is in nanoseconds.
pub record Settings : Type 0 where
  pub poll_interval : Int64
  pub batch_size : Int64
  pub checkpoint_every : Int64
  pub continue_on_handler_error : Bool

abbrev pub default_settings : Settings
default_settings = record {
  poll_interval = 1000000000;
  batch_size = 500;
  checkpoint_every = 1;
  continue_on_handler_error = false;
}

-- The fields of Processor that change.
pub record Processor : Type 0 where
  pub position : Int64
  pub caught_up_position : Int64
  pub caught_up : Bool
  pub running : Bool
  pub since_checkpoint : Int64

abbrev pub new_processor : Processor
new_processor = record {
  position = 0;
  caught_up_position = 0;
  caught_up = false;
  running = false;
  since_checkpoint = 0;
}

pub data NewError : Type 0 where
  events_required checkpoints_required handler_required option_nil : NewError
  invalid_projection_id : IdError → NewError
  poll_interval_not_positive batch_size_not_positive checkpoint_interval_not_positive : NewError

-- An option that is not nil
abbrev pub Setting : Type 0
Setting = Settings → Settings

abbrev pub with_batch_size : Int64 → Setting
with_batch_size size p = record p { batch_size = size }

abbrev pub with_checkpoint_every : Int64 → Setting
with_checkpoint_every n p = record p { checkpoint_every = n }

abbrev pub with_continue_on_handler_error : Bool → Setting
with_continue_on_handler_error should_continue p = record p {
  continue_on_handler_error = should_continue;
}

abbrev pub with_poll_interval : Int64 → Setting
with_poll_interval interval p = record p { poll_interval = interval }

-- `for _, opt := range opts`; `none` is a nil option.
abbrev pub apply_options : List (Option Setting) → Settings → Result NewError Settings
apply_options [] p = ok p
apply_options (none ∷ opts) p = err option_nil
apply_options (some opt ∷ opts) p = apply_options opts (opt p)

abbrev pub checked_settings : Settings → Result NewError Settings
checked_settings p =
    if le64 p.poll_interval 0
    then err poll_interval_not_positive
    else if lt64 p.batch_size 1
    then err batch_size_not_positive
    else if lt64 p.checkpoint_every 1
    then err checkpoint_interval_not_positive
    else ok p

-- New; `none` is a nil interface.
unfoldable pub new :
    {W I C A : Type 0}
    → Option (GlobalReader W I)
    → Option (Checkpoints C)
    → ProjectionId
    → Option (Handler A)
    → List (Option Setting)
    → Result NewError Settings
unfolding validate_id
new none checkpoints id handler opts = err events_required
new (some events) none id handler opts = err checkpoints_required
new (some events) (some checkpoints) id none opts = err handler_required
new (some events) (some checkpoints) id (some handler) opts = elim (validate_id id) [
  | some e ↦ err (invalid_projection_id e)
  | none ↦ apply_options opts default_settings >>= checked_settings
]

-- bufferedEvent
pub record BufferedEvent : Type 0 where
  pub event : Event
  pub position : Int64

-- What the loop that fills the buffer leaves: the events, the error, the number of times that the
-- context has been asked, and the iterator.
abbrev pub Filled : Type 0 → Type 0
Filled I = List BufferedEvent × Option Failure × ℕ × I

abbrev pub cons_buffered : {I : Type 0} → BufferedEvent → Filled I → Filled I
cons_buffered b (events, e, i, iter) = (b ∷ events, e, i, iter)

abbrev pub error_of : {X : Type 0} → Result Failure X → Option Failure
error_of (ok x) = none
error_of (err e) = some (wrapped e)

module _ (cancelled : ℕ → Option Cause) where
  -- The loop of drain that fills the buffer, with room for n more events.
  unfoldable pub fill :
      {I : Type 0} → (I → Result Failure (Option Event) × I) → ℕ → ℕ → I → Filled I
  fill next zero i iter = ([], none, i, iter)
  fill next (suc n) i iter = elim (cancelled i) [
    | some c ↦ ([], some (join_cancellation c none), i + 1, iter)
    | none ↦
        let (read, iter') = next iter in
        elim (cancelled (i + 1)) [
          | some c ↦ ([], some (join_cancellation c (error_of read)), i + 2, iter')
          | none ↦ elim read [
            | err e ↦
                if leaves_match e (end_of_stream ∷ [])
                then ([], none, i + 2, iter')
                else ([], some (wrapped e), i + 2, iter')
            | ok none ↦ ([], some (leaf other_cause), i + 2, iter')
            | ok (some event) ↦ elim event.global_position [
              | none ↦ ([], some (leaf other_cause), i + 2, iter')
              | some position ↦
                  cons_buffered (record { event = event; position = position })
                    (fill next n (i + 2) iter')
            ]
          ]
        ]
  ]

-- saveCheckpoint
unfoldable pub save_checkpoint :
    {C : Type 0} → Checkpoints C → Processor → C → Option Failure × Processor × C
save_checkpoint checkpoints p c =
    let (e, c') = checkpoints.save c p.position in
    elim e [
      | some x ↦ (some (wrapped x), p, c')
      | none ↦ (none, record p { since_checkpoint = 0 }, c')
    ]

-- loadPosition
unfoldable pub load_position : {C : Type 0} → Checkpoints C → C → Result Failure Int64
load_position checkpoints c = elim (checkpoints.load c) [
  | err e ↦ err (wrapped e)
  | ok none ↦ ok 0
  | ok (some position) ↦ ok position
]
