-- ===== src/Lib.antt =====
-- Estoria: an event sourcing toolkit in Go.
--
-- The program. Events are written to streams of an event store (eventstore) under typed IDs (typeid);
-- aggregates (aggregatestore) are loaded by folding a stream and saved by appending to it, with
-- snapshots (snapshotstore) to shorten the fold; projections (projection) read the global order of
-- events; the lifecycle of a named projection (projection/lifecycle) is itself an aggregate, whose
-- events open, promote, roll back and retire versions of the projection.
--
-- The files and the code.
--   TypeId: typeid/typeid.go. `parse`, `to_string`, `validate_type_name`.
--   EventStore: eventstore/event_store.go. Events, options, errors and `collect` (Collect).
--   EventStore/Memory: eventstore/memory/event_store.go and stream_iterator.go. A record for the
--     store, one function for each method, which returns the next store; `next` steps an iterator.
--     Its children: Invariant (what ties the log to the streams), Append, Commit and Writes
--     (AppendStream), Deletes and Truncation (DeleteStream), Cursor, Reads and Contract (ReadStream
--     against the contract of eventstore/event_store.go), Global (ReadAll).
--   AggregateStore: aggregatestore. SaveOutcome is the resolver of that name in aggregate_store.go
--     over trees of errors, Markers and Resolution set it against its documentation. Aggregate is
--     aggregate.go. EventSourced is event_sourced_store.go: the store's record, Load and Hydrate; its
--     children are Save, Setup (New, its options and Use), Hydrating (Hydrate as a fold), Outcomes and
--     Saving (Save on its errors and without), Loading, RoundTrip and SaveLoad (over the in-memory
--     event store). Cached is cached_store.go, Cached/Coherence sets the cache against the inner store.
--     Snapshotting is snapshotting_store.go, Snapshotting/Applying sets its Save against the inner one.
--   SnapshotStore: snapshotstore/snapshot_store.go; SnapshotStore/Memory: snapshotstore/memory. The
--     retention policy is a function that the store holds.
--   CheckpointStore: projection/checkpointstore and its memory store.
--   Projection: projection/projection.go. The identity of a version and its validation.
--     Projection/Fold is fold.go, Projection/Folding its Project over a list of events.
--   Processor: projection/processor/processor.go. New, the buffer and the checkpoint; Drain has drain
--     and the rounds of Run, Errors the trees of errors and joinCancellation; Cancellation, Progress,
--     Accounting, Batches, Reading, Running and Delivery (the handled events against reader, handler and
--     checkpoint) and Restart (a Run after another) are about them.
--   Lifecycle: projection/lifecycle. Retirement is retirement.go and cutover.go, State is state.go
--     (State, poison, validate, ValidateSnapshotState), Events is events.go (one `apply_` function for
--     each ApplyTo, its switches as `_fault` functions). Poison separates what an event does from what
--     it observes; Counting and Sequence are about the numbers that a history hands out; Rest, Sound,
--     Claims, Policies, Cutovers, Preserved, Consistent and Histories lead from the checks of the events
--     to `validate`. Commands is what the commands of orchestrator.go and handle.go ask and append,
--     Commands/Retire the gates of Retire; Issued, Runs, Retirements and Retiring set each of them
--     against the checks of the events, Commanded and Reaching all of them and their sequences. Draining
--     has the lifecycles that a Run sees while it drains, to which it records a catch-up.
--   How they meet: Hydrate reads an event store through a Fold, whose handler applies to the aggregate;
--     Save appends to the event store and reports by marks that SaveOutcome resolves; the cached store
--     calls any inner store; the processor reads a global reader and saves to a checkpoint store.
--   Prelude: numbers, texts, results and dictionaries that the parts share.
--   Examples modules apply the theorems to concrete data.
--
-- Numbers. int64 and int are two's complement bit patterns below 2 ^ 64 (Prelude/Ints), with the
-- wrap-around and the signed order written out. Instants are numbers, strings are lists of bytes.
--
-- Fuel. `collect` runs the loop of Collect on fuel; the theorems on reads ask for more fuel than there
-- are events, which is enough, and so state that the loop ends. `save_outcome` takes as many rounds
-- as the error has levels. `project`, `hydrate` and `load` take the fuel that collects what they
-- read. The rounds of a processor are a list of the states in which they find the event store.
--
-- Parameters. The codecs of events, the UUID package, the clock and sort.Search are arguments;
-- what is asked of sort.Search is its documentation (`IsSearch`), and of the UUID's text that it
-- has 36 bytes and is parsed back. A command takes the UUID of a name's stream, the UUIDs that it draws
-- and the answers of witnesses, handlers and checkpoints.
--
-- Not modelled. Locks: each method of a store is one step. Contexts, but for the processor, which asks
-- a sequence of answers; its timer. The texts of errors, logging, and the string forms of phases and
-- IDs of projections. The reflection by which the event-sourced store makes Go values addressable. The
-- constructor of the snapshotting store and its options, the snapshot store over an event stream, and the router and
-- worker of lifecycles. Of the commands of lifecycles: the reading of the stream, the outcome of the
-- append, the single use of a handle, and the goroutines of Run. The conformance suites are tests.
pub mod AggregateStore
pub mod CheckpointStore
pub mod EventStore
pub mod Lifecycle
pub mod Prelude
pub mod Processor
pub mod Projection
pub mod SnapshotStore
pub mod TypeId
