-- ===== src/EventStore/Memory/Cursor.antt =====
-- eventstore/memory: where a read of a stream starts, and the events by version that the contract of
-- ReadStream in eventstore/event_store.go asks for.
use estoria.Prelude.{
  ℕ, zero, suc, ◌+◌, ◌-◌, ◌≤◌, ◌<◌, min, ◌≡◌, refl, ap, ◌∙◌, inl, inr, true, List, [], ◌∷◌, arith,
  ltb, leb, if◌then◌else◌, Bool-cases, length, take, drop, int64_mod, int64_neg, add64, sub64, lt64,
  le64,
}
use estoria.EventStore.{ReadStreamOptions, forward, reverse as backwards}
use estoria.EventStore.Memory.{Stream, start_cursor, limit_of}

-- The events of a stream whose version is above `after`, where the first one has version `v`.
unfoldable pub above : {D : Type 0} → ℕ → ℕ → List D → List D
above after v [] = []
above after v (d ∷ ds) = let rest = above after (v + 1) ds in if ltb after v then d ∷ rest else rest

-- Those whose version is at most `upto`.
unfoldable pub up_to : {D : Type 0} → ℕ → ℕ → List D → List D
up_to upto v [] = []
up_to upto v (d ∷ ds) = let rest = up_to upto (v + 1) ds in if leb v upto then d ∷ rest else rest

-- A stream whose versions are positive and representable.
pub record IsSound {D : Type 0} (entry : Stream D) : Type 0 where
  pub positive : 1 ≤ entry.first_version
  pub representable : entry.first_version + length entry.events ≤ int64_neg

pub above_all : {D : Type 0} (after v : ℕ) (ds : List D) → after < v → above after v ds ≡ ds
unfolding above
above_all after v [] h = refl
above_all after v (d ∷ ds) h = ground (arith, above_all after (v + 1) ds)

above-drop :
    {D : Type 0} (n v after : ℕ) (ds : List D) → v + n ≡ after + 1 → above after v ds ≡ drop n ds
unfolding above
above-drop zero v after [] e = refl
above-drop (suc n) v after [] e = refl
above-drop zero v after (d ∷ ds) e = above_all after v (d ∷ ds) (omega arith)
above-drop (suc n) v after (d ∷ ds) e = ground (arith, above-drop n (v + 1) after ds)

pub above-skip :
    {D : Type 0} (after v : ℕ) (ds : List D) → 1 ≤ v → above after v ds ≡ drop (after + 1 - v) ds
above-skip after v ds h = elim (Bool-cases (ltb after v)) [
  | inl before ↦
      let n : after + 1 - v ≡ 0 = ground arith in rw n (above_all after v ds (ground arith))
  | inr beyond ↦ above-drop (after + 1 - v) v after ds (ground arith)
]

pub up_to_none : {D : Type 0} (upto v : ℕ) (ds : List D) → upto < v → up_to upto v ds ≡ []
unfolding up_to
up_to_none upto v [] h = refl
up_to_none upto v (d ∷ ds) h = ground (arith, up_to_none upto (v + 1) ds)

up_to-take :
    {D : Type 0} (n v upto : ℕ) (ds : List D) → v + n ≡ upto + 1 → up_to upto v ds ≡ take n ds
unfolding up_to
up_to-take zero v upto [] e = refl
up_to-take (suc n) v upto [] e = refl
up_to-take zero v upto (d ∷ ds) e = up_to_none upto v (d ∷ ds) (omega arith)
up_to-take (suc n) v upto (d ∷ ds) e = ground (arith, up_to-take n (v + 1) upto ds)

pub take_all : {D : Type 0} (ds : List D) → take (length ds) ds ≡ ds
take_all [] = refl
take_all (d ∷ ds) = ap (λ l. d ∷ l) (take_all ds)

take-min : {D : Type 0} (n : ℕ) (ds : List D) → take n ds ≡ take (min n (length ds)) ds
take-min zero ds = ground arith
take-min (suc n) [] = ground arith
take-min (suc n) (d ∷ ds) = ground (arith, take-min n ds)

pub up_to-min :
    {D : Type 0} (upto v : ℕ) (ds : List D)
    → v ≤ upto
    → up_to upto v ds ≡ take (min (upto + 1 - v) (length ds)) ds
up_to-min upto v ds h =
    up_to-take (upto + 1 - v) v upto ds (omega arith) ∙ take-min (upto + 1 - v) ds

pub limit_of-lt : (count : ℕ) → count < int64_mod → limit_of count < int64_neg
unfolding lt64
limit_of-lt count h = ground arith

pub start_forward :
    {D : Type 0} (entry : Stream D) (opts : ReadStreamOptions)
    → IsSound entry
    → opts.direction ≡ forward
    → opts.after_version < int64_neg
    → start_cursor entry opts ≡ opts.after_version + 1 - entry.first_version
unfolding start_cursor add64 sub64 lt64
start_forward entry opts h dir small = ground arith

pub start_negative :
    {D : Type 0} (entry : Stream D) (opts : ReadStreamOptions)
    → IsSound entry
    → opts.direction ≡ forward
    → int64_neg ≤ opts.after_version
    → opts.after_version < int64_mod
    → int64_neg + entry.first_version ≤ opts.after_version + 1
    → start_cursor entry opts ≡ 0
unfolding start_cursor add64 sub64 lt64
start_negative entry opts h dir neg range fits = ground arith

pub start_wrapped :
    {D : Type 0} (entry : Stream D) (opts : ReadStreamOptions)
    → IsSound entry
    → opts.direction ≡ forward
    → int64_neg ≤ opts.after_version
    → opts.after_version < int64_mod
    → opts.after_version + 1 < int64_neg + entry.first_version
    → start_cursor entry opts ≡ opts.after_version + 1 - entry.first_version
unfolding start_cursor add64 sub64 lt64
start_wrapped entry opts h dir neg range wraps = ground arith

pub start_backwards :
    {D : Type 0} (entry : Stream D) (opts : ReadStreamOptions)
    → IsSound entry
    → opts.direction ≡ backwards
    → entry.first_version ≤ opts.after_version
    → opts.after_version < int64_neg
    → start_cursor entry opts
      ≡ sub64 (min (opts.after_version + 1 - entry.first_version) (length entry.events)) 1
unfolding start_cursor sub64 lt64 le64
start_backwards entry opts h dir within small = ground arith

-- From the end of the stream.
pub start_at_end :
    {D : Type 0} (entry : Stream D) (opts : ReadStreamOptions)
    → opts.direction ≡ backwards
    → opts.after_version ≡ 0
    → start_cursor entry opts ≡ sub64 (length entry.events) 1
unfolding start_cursor le64
start_at_end entry opts dir zero_version = ground arith

-- A boundary below the first retained event is a negative cursor.
pub start_below :
    {D : Type 0} (entry : Stream D) (opts : ReadStreamOptions)
    → IsSound entry
    → opts.direction ≡ backwards
    → 0 < opts.after_version
    → opts.after_version < entry.first_version
    → lt64 (start_cursor entry opts) 0 ≡ true
unfolding start_cursor sub64 lt64 le64
start_below entry opts h dir pos below = ground arith
