-- ===== src/EventStore/Memory/Reads.antt =====
-- eventstore/memory: what an iterator yields when it is collected.
use estoria.Prelude.{
  ℕ, zero, suc, ◌+◌, ◌-◌, ◌≤◌, ◌<◌, ◌≡◌, refl, ap, ◌∙◌, inl, inr, true, ◌&&◌, Option, none, some,
  List, [], ◌∷◌, ◌++◌, arith, ltb, leb, ◌==◌, if◌then◌else◌, Bool-cases, length, get_elem?, take,
  drop, int64_neg, sub64, lt64, add64_lem, sub64_lem, lt64_lem, le64_lem, Result, ok, err,
}
use mathlib.Core.List.{reverse, reverse-append}
use estoria.TypeId.{TypedId, zero_id}
use estoria.EventStore.{
  Event, StoreError, ReadStreamDirection, forward, reverse as backwards, event_unmarshaling,
  end_of_event_stream, is_end, collect, cons_event,
}
use estoria.EventStore.Memory.{StreamIterator, next, read_at, is_exhausted}

-- The encoded events that are left of `ds` once `retrieved` of at most `limit` have been read.
abbrev pub limited : {D : Type 0} → ℕ → ℕ → List D → List D
limited limit retrieved ds = if limit == 0 then ds else take (limit - retrieved) ds

drop_cases :
    {D : Type 0} (n : ℕ) (ds : List D)
    → n < length ds
    → (d : D) × (get_elem? ds n ≡ some d) × (drop n ds ≡ d ∷ drop (n + 1) ds)
drop_cases n [] h = absurd (omega arith)
drop_cases zero (d ∷ ds) h = (d, refl, ground arith)
drop_cases (suc n) (d ∷ ds) h =
    let (x, e, f) = drop_cases n ds (omega arith) in (x, e, ground arith)

take_snoc :
    {D : Type 0} (n : ℕ) (ds : List D) (d : D)
    → get_elem? ds n ≡ some d
    → take (suc n) ds ≡ take n ds ++ d ∷ []
take_snoc n [] d e = cc
take_snoc zero (x ∷ ds) d e = ground arith
take_snoc (suc n) (x ∷ ds) d e = ap (λ l. x ∷ l) (take_snoc n ds d e)

pub drop_all : {D : Type 0} (n : ℕ) (ds : List D) → length ds ≤ n → drop n ds ≡ []
drop_all zero [] h = refl
drop_all (suc n) [] h = refl
drop_all zero (d ∷ ds) h = absurd (omega arith)
drop_all (suc n) (d ∷ ds) h = drop_all n ds (omega arith)

-- What Collect makes of one call of Next.
abbrev after_next :
    {I : Type 0}
    → Result StoreError Event × I
    → (I → Option (List Event × Option StoreError))
    → Option (List Event × Option StoreError)
after_next (ok event, iter) rest = cons_event event (rest iter)
after_next (err e, iter) rest = if is_end e then some ([], none) else some ([], some e)

collect_step :
    {I : Type 0} (next_of : I → Result StoreError Event × I) (fuel : ℕ) (iter : I)
    → collect next_of (suc fuel) iter ≡ after_next (next_of iter) (collect next_of fuel)
unfolding collect
collect_step next_of fuel iter = ground arith

take_nil : {D : Type 0} (n : ℕ) → take {A = D} n [] ≡ []
take_nil zero = refl
take_nil (suc n) = refl

take_cases :
    {D : Type 0} (n : ℕ) (d : D) (ds : List D)
    → take n (d ∷ ds) ≡ (if n == 0 then [] else d ∷ take (n - 1) ds)
take_cases zero d ds = refl
take_cases (suc n) d ds = ground arith

pub limited_nil : {D : Type 0} (limit retrieved : ℕ) → limited {D = D} limit retrieved [] ≡ []
limited_nil {D} limit retrieved = ground (arith, take_nil {D = D} (limit - retrieved))

limited_step :
    {D : Type 0} (d : D) (ds : List D) (limit retrieved : ℕ)
    → limited limit retrieved (d ∷ ds)
      ≡ (if ltb 0 limit && leb limit retrieved then [] else d ∷ limited limit (retrieved + 1) ds)
limited_step d ds limit retrieved = ground (arith, take_cases (limit - retrieved) d ds)

module _ {D : Type 0} (unmarshal : D → Option Event) (stream_id : TypedId) where
  -- What decoding encoded events in turn yields: the events before the first that fails, and its error.
  unfoldable pub decode_all : List D → List Event × Option StoreError
  decode_all [] = ([], none)
  decode_all (d ∷ ds) = elim (unmarshal d) [
    | none ↦ ([], some (event_unmarshaling stream_id zero_id))
    | some event ↦ let (events, e) = decode_all ds in (event ∷ events, e)
  ]

  abbrev pub at_cursor : ReadStreamDirection → List D → ℕ → ℕ → ℕ → StreamIterator D
  at_cursor direction ds cursor limit retrieved = record {
    stream_id = stream_id;
    events = some ds;
    cursor = cursor;
    direction = direction;
    limit = limit;
    retrieved = retrieved;
  }

  -- One call of Next at a cursor that is in range.
  next_forward :
      (ds : List D) (d : D) (cursor limit retrieved : ℕ)
      → length ds < int64_neg
      → cursor < length ds
      → limit < int64_neg
      → retrieved < int64_neg
      → get_elem? ds cursor ≡ some d
      → next unmarshal (at_cursor forward ds cursor limit retrieved) ≡ (
          if ltb 0 limit && leb limit retrieved
          then (err end_of_event_stream, at_cursor forward ds cursor limit retrieved)
          else elim (unmarshal d) [
            | none ↦ (
              err (event_unmarshaling stream_id zero_id),
              at_cursor forward ds (cursor + 1) limit (retrieved + 1),
            )
            | some event ↦ (ok event, at_cursor forward ds (cursor + 1) limit (retrieved + 1))
          ])
  unfolding next read_at is_exhausted
  next_forward ds d cursor limit retrieved hd hc hl hr e = ground (
    arith,
    e,
    le64_lem (length ds) cursor (omega arith) (omega arith),
    lt64_lem 0 limit (omega arith) (omega arith),
    le64_lem limit retrieved (omega arith) (omega arith),
    add64_lem cursor 1 (omega arith),
    add64_lem retrieved 1 (omega arith),
  )

  next_forward_end :
      (ds : List D) (cursor limit retrieved : ℕ)
      → length ds < int64_neg
      → cursor < int64_neg
      → length ds ≤ cursor
      → next unmarshal (at_cursor forward ds cursor limit retrieved)
        ≡ (err end_of_event_stream, at_cursor forward ds cursor limit retrieved)
  unfolding next is_exhausted
  next_forward_end ds cursor limit retrieved hd hc h =
      ground (arith, le64_lem (length ds) cursor hd hc)

  pub collect_forward :
      (fuel : ℕ) (ds : List D) (cursor limit retrieved : ℕ)
      → length ds < int64_neg
      → cursor < int64_neg
      → limit < int64_neg
      → retrieved + length ds < int64_neg + cursor
      → length ds - cursor < fuel
      → collect (next unmarshal) fuel (at_cursor forward ds cursor limit retrieved)
        ≡ some (decode_all (limited limit retrieved (drop cursor ds)))
  unfolding decode_all
  collect_forward zero ds cursor limit retrieved hd hc hl hr hf = absurd (omega arith)
  collect_forward (suc fuel) ds cursor limit retrieved hd hc hl hr hf =
      elim (Bool-cases (ltb cursor (length ds))) [
        | inl more ↦
            let (d, e, f) = drop_cases cursor ds (ground arith) in
            rw
              (
                collect_step,
                next_forward ds d cursor limit retrieved hd (ground arith) hl (ground arith) e,
                f,
                limited_step,
              )
              (ground (
                arith,
                collect_forward fuel ds (cursor + 1) limit (retrieved + 1) hd (ground arith) hl
                    (ground arith) (ground arith),
              ))
        | inr done ↦ rw (
          collect_step,
          next_forward_end ds cursor limit retrieved hd hc (ground arith),
          drop_all cursor ds (ground arith),
          limited_nil,
        )
      ]

  -- One call of Next backwards, with `n` + 1 events left; after the first event of the stream the
  -- cursor is the pattern of -1.
  next_backwards :
      (ds : List D) (d : D) (n limit retrieved : ℕ)
      → length ds < int64_neg
      → n < length ds
      → limit < int64_neg
      → retrieved < int64_neg
      → get_elem? ds n ≡ some d
      → next unmarshal (at_cursor backwards ds (sub64 (suc n) 1) limit retrieved) ≡ (
          if ltb 0 limit && leb limit retrieved
          then (err end_of_event_stream, at_cursor backwards ds (sub64 (suc n) 1) limit retrieved)
          else elim (unmarshal d) [
            | none ↦ (
              err (event_unmarshaling stream_id zero_id),
              at_cursor backwards ds (sub64 n 1) limit (retrieved + 1),
            )
            | some event ↦ (ok event, at_cursor backwards ds (sub64 n 1) limit (retrieved + 1))
          ])
  unfolding next read_at is_exhausted
  next_backwards ds d n limit retrieved hd hn hl hr e =
      rw (sub64_lem (suc n) 1 (omega arith) (omega arith)) (
        ground (
          arith,
          e,
          lt64_lem n 0 (omega arith) (omega arith),
          lt64_lem 0 limit (omega arith) (omega arith),
          le64_lem limit retrieved (omega arith) (omega arith),
          add64_lem retrieved 1 (omega arith),
        ))

  next_backwards_end :
      (ds : List D) (limit retrieved : ℕ)
      → next unmarshal (at_cursor backwards ds (sub64 0 1) limit retrieved)
        ≡ (err end_of_event_stream, at_cursor backwards ds (sub64 0 1) limit retrieved)
  unfolding next is_exhausted lt64 sub64
  next_backwards_end ds limit retrieved = refl

  pub collect-backwards :
      (fuel : ℕ) (ds : List D) (n limit retrieved : ℕ)
      → length ds < int64_neg
      → n ≤ length ds
      → limit < int64_neg
      → retrieved + n < int64_neg
      → n < fuel
      → collect (next unmarshal) fuel (at_cursor backwards ds (sub64 n 1) limit retrieved)
        ≡ some (decode_all (limited limit retrieved (reverse (take n ds))))
  unfolding decode_all
  collect-backwards zero ds n limit retrieved hd hn hl hr hf = absurd (omega arith)
  collect-backwards (suc fuel) ds zero limit retrieved hd hn hl hr hf =
      rw (collect_step, next_backwards_end ds limit retrieved, limited_nil)
  collect-backwards (suc fuel) ds (suc n) limit retrieved hd hn hl hr hf =
      let (d, e, f) = drop_cases n ds (omega arith) in
      let back : reverse (take (suc n) ds) ≡ d ∷ reverse (take n ds) =
        ap reverse (take_snoc n ds d e) ∙ reverse-append (take n ds) (d ∷ []) in
      rw
        (
          collect_step,
          next_backwards ds d n limit retrieved hd hn hl (omega arith) e,
          back,
          limited_step,
        )
        (ground (
          arith,
          collect-backwards fuel ds n limit (retrieved + 1) hd (omega arith) hl (omega arith)
              (omega arith),
        ))

  -- Backwards from a negative cursor there is nothing to read.
  pub collect_negative :
      (fuel : ℕ) (ds : List D) (cursor limit retrieved : ℕ)
      → lt64 cursor 0 ≡ true
      → 0 < fuel
      → collect (next unmarshal) fuel (at_cursor backwards ds cursor limit retrieved)
        ≡ some (decode_all [])
  unfolding collect next is_exhausted decode_all
  collect_negative zero ds cursor limit retrieved h pos = absurd (omega arith)
  collect_negative (suc fuel) ds cursor limit retrieved h pos = ground (arith, h)
