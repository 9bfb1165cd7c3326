-- ===== src/Processor/Reading.antt =====
-- projection/processor/processor.go `drain`: the events that it buffers against those that the reader
-- yields.
use estoria.Prelude.{
  ℕ, zero, suc, ◌+◌, ◌≡◌, refl, sym, ap, ◌∙◌, subst, ◌⊎◌, inl, inr, Option, some, List, [], ◌∷◌,
  ◌++◌, arith, Bool-cases, Option-cases, Result-cases, Int64, Result, ok,
}
use estoria.EventStore.{Event}
use estoria.Processor.Errors.{Cause, end_of_stream, Failure, leaves_match}
use estoria.Processor.{GlobalReader, BufferedEvent, fill}
use estoria.Processor.Accounting.{last_position}

-- The first events that an iterator yields, each with its global position.
abbrev pub Begins :
    {I : Type 0} → (I → Result Failure (Option Event) × I) → I → List BufferedEvent → Type 0
Begins next iter [] = Unit
Begins next iter (b ∷ events) =
    ((next iter).0 ≡ ok (some b.event))
    × (b.event.global_position ≡ some b.position)
    × Begins next (next iter).1 events

pub Begins-prefix :
    {I : Type 0} (next : I → Result Failure (Option Event) × I) (iter : I)
    (xs ys : List BufferedEvent)
    → Begins next iter (xs ++ ys)
    → Begins next iter xs
Begins-prefix next iter [] ys h = tt
Begins-prefix next iter (x ∷ xs) ys (got, placed, more) =
    (got, placed, Begins-prefix next (next iter).1 xs ys more)

module _ {I : Type 0} (cancelled : ℕ → Option Cause)
    (next : I → Result Failure (Option Event) × I) where
  -- What one turn of the loop buffers.
  fill-turn :
      (n i : ℕ) (iter : I)
      → ((fill cancelled next (suc n) i iter).0 ≡ [])
        ⊎ ((b : BufferedEvent) × ((next iter).0 ≡ ok (some b.event))
            × (b.event.global_position ≡ some b.position)
            × ((fill cancelled next (suc n) i iter).0
                ≡ b ∷ (fill cancelled next n (i + 2) (next iter).1).0))
  unfolding fill
  fill-turn n i iter = elim (Option-cases (cancelled i)) [
    | inr (c, cut) ↦ inl (ground (arith, cut))
    | inl go ↦ elim (Option-cases (cancelled (i + 1))) [
      | inr (c, cut) ↦ inl (ground (arith, go, cut))
      | inl still ↦ elim (Result-cases (next iter).0) [
        | inr (e, failed) ↦ elim (Bool-cases (leaves_match e (end_of_stream ∷ []))) [
          | inl ends ↦ inl (ground (arith, go, still, failed, ends))
          | inr broken ↦ inl (ground (arith, go, still, failed, broken))
        ]
        | inl (read, got) ↦ elim (Option-cases read) [
          | inl no_event ↦ inl (ground (arith, go, still, got, no_event))
          | inr (event, some_event) ↦ elim (Option-cases event.global_position) [
            | inl unplaced ↦ inl (ground (arith, go, still, got, some_event, unplaced))
            | inr (position, placed) ↦ inr (
              record { event = event; position = position },
              got ∙ ap ok some_event,
              placed,
              ground (arith, go, still, got, some_event, placed),
            )
          ]
        ]
      ]
    ]
  ]

  pub fill-Begins : (n i : ℕ) (iter : I) → Begins next iter (fill cancelled next n i iter).0
  unfolding fill
  fill-Begins zero i iter = tt
  fill-Begins (suc n) i iter = elim (fill-turn n i iter) [
    | inl nothing ↦ subst (Begins next iter) (sym nothing) tt
    | inr (b, got, placed, same) ↦
        subst (Begins next iter) (sym same) (got, placed, fill-Begins n (i + 2) (next iter).1)
  ]

-- Some events are the first ones that the reader yields past a position.
abbrev pub Read :
    {W I : Type 0} → GlobalReader W I → Int64 → W → Int64 → List BufferedEvent → Type 0
Read reader size w position events =
    (events ≡ [])
    ⊎ ((iter : _) × (reader.read_all w (record { after_position = position; count = size })
          ≡ ok (some iter))
        × Begins reader.next iter events)

pub Read-prefix :
    {W I : Type 0} (reader : GlobalReader W I) (size : Int64) (w : W) (position : Int64)
    (xs ys : List BufferedEvent)
    → Read reader size w position (xs ++ ys)
    → Read reader size w position xs
Read-prefix reader size w position [] ys h = inl refl
Read-prefix reader size w position (x ∷ xs) ys (inl none_read) = absurd (ground (arith, none_read))
Read-prefix reader size w position (x ∷ xs) ys (inr (iter, read, begins)) =
    inr (iter, read, Begins-prefix reader.next iter (x ∷ xs) ys begins)

-- The events handled over some rounds: in each, the first ones that the reader yields, on the event
-- store as the round finds it, past the last event handled before.
abbrev pub Delivered :
    {W I : Type 0}
    → GlobalReader W I
    → Int64
    → Int64
    → List BufferedEvent
    → List W
    → List BufferedEvent
    → Type 0
Delivered reader size start handled [] events = events ≡ []
Delivered reader size start handled (w ∷ ws) events =
    (taken : List BufferedEvent) × (rest : List BufferedEvent) × (taken ++ rest ≡ events)
    × Read reader size w (last_position start handled) taken
    × Delivered reader size start (handled ++ taken) ws rest

pub Delivered-nothing :
    {W I : Type 0} (reader : GlobalReader W I) (size start : Int64) (handled : List BufferedEvent)
    (ws : List W)
    → Delivered reader size start handled ws []
Delivered-nothing reader size start handled [] = refl
Delivered-nothing reader size start handled (w ∷ ws) =
    ([], [], refl, inl refl, Delivered-nothing reader size start (handled ++ []) ws)
