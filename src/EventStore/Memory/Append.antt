-- ===== src/EventStore/Memory/Append.antt =====
-- eventstore/memory: what the loop of AppendStream writes.
use estoria.Prelude.{
  ℕ, suc, ◌+◌, ◌≤◌, ◌<◌, ◌≡◌, refl, ap, inl, inr, false, Option, none, some, List, [], ◌∷◌, arith,
  Option-cases, length, int64_neg, add64_lem, Text, text_eq, text_eq_iff, ok, err,
}
use estoria.TypeId.{TypedId, Uuid, to_string}
use estoria.EventStore.{Event, WritableEvent, Time}
use estoria.EventStore.Memory.{
  GlobalLogEntry, Written, cons_written, payloads, write_one, write_events, event_at,
}
use estoria.EventStore.Memory.Reads.{decode_all}
use estoria.EventStore.Memory.Invariant.{Ascending, log_of, number}

module _ {D : Type 0} where
  pub length-payloads : (tx : List (GlobalLogEntry D)) → length (payloads tx) ≡ length tx
  length-payloads [] = refl
  length-payloads (e ∷ tx) = ap suc (length-payloads tx)

module _ {D : Type 0} (uuid_string : Uuid → Text) (marshal : Event → Option D)
    (unmarshal : D → Option Event) (draw : ℕ → Uuid × Time) where
  -- What the loop leaves, from version `v` and the counter on, for `n` events.
  abbrev pub Wrote : TypedId → ℕ → ℕ → ℕ → Written D → Type 0
  Wrote stream_id v counter n (ok (tx, written), c) =
      (c ≡ counter + n)
      × Ascending counter tx c
      × (log_of (to_string uuid_string stream_id) tx ≡ number v (payloads tx))
      × ((j : Text) → text_eq (to_string uuid_string stream_id) j ≡ false → log_of j tx ≡ [])
      × (length tx ≡ n)
      × (decode_all unmarshal stream_id (payloads tx) ≡ (written, none))
  Wrote stream_id v counter n (err e, c) = (counter ≤ c) × (c ≤ counter + n)

  Wrote-cons :
      (stream_id : TypedId) (v counter n : ℕ) (d : D) (back : Event) (rest : Written D)
      → unmarshal d ≡ some back
      → Wrote stream_id (v + 1) (counter + 1) n rest
      → Wrote stream_id v counter (suc n) (
          cons_written
            (record {
              position = counter + 1;
              stream_key = to_string uuid_string stream_id;
              version = v;
              payload = d;
            })
            back
            rest)
  unfolding log_of decode_all
  Wrote-cons stream_id v counter n d back (ok (tx, written), c) e
        (c_eq, asc, log, others, len, dec) =
      (
        omega arith,
        (omega arith, asc),
        ground (
          arith,
          log,
          text_eq_iff (to_string uuid_string stream_id) (to_string uuid_string stream_id),
        ),
        λ j h. ground (arith, others j h),
        omega arith,
        ground (arith, dec),
      )
  Wrote-cons stream_id v counter n d back (err x, c) e (lo, hi) = (omega arith, omega arith)

  write_one-Wrote :
      (stream_id : TypedId) (event : Event) (v counter n : ℕ) (rest : Written D)
      → event.stream_version ≡ v
      → Wrote stream_id (v + 1) (counter + 1) n rest
      → Wrote stream_id v counter
          (suc n)
          (write_one uuid_string marshal unmarshal draw stream_id event (counter + 1) rest)
  unfolding write_one
  write_one-Wrote stream_id event v counter n rest e h = elim (Option-cases (marshal event)) [
    | inl refused ↦ rw (refused, write_one) (omega arith, omega arith)
    | inr (d, encoded) ↦ elim (Option-cases (unmarshal d)) [
      | inl lost ↦ rw (encoded, write_one, lost) (omega arith, omega arith)
      | inr (back, decoded) ↦
          rw (encoded, write_one, decoded, e)
            (Wrote-cons stream_id v counter n d back rest decoded h)
    ]
  ]

  pub write_events-Wrote :
      (stream_id : TypedId) (current i counter : ℕ) (events : List WritableEvent)
      → current + i + length events < int64_neg
      → counter + length events < int64_neg
      → Wrote stream_id
          (current + i + 1)
          counter
          (length events)
          (write_events uuid_string marshal unmarshal draw stream_id current i counter events)
  unfolding write_events event_at log_of decode_all
  write_events-Wrote stream_id current i counter [] hv hc =
      (omega arith, omega arith, refl, λ j h. refl, refl, refl)
  write_events-Wrote stream_id current i counter (w ∷ events) hv hc =
      let e : current + (i + 1) + 1 ≡ current + i + 1 + 1 = omega arith in
      rw (write_events, add64_lem counter 1 (omega arith))
        (write_one-Wrote stream_id _ (current + i + 1) counter (length events) _
          (rw (add64_lem current i (omega arith), add64_lem (current + i) 1 (omega arith)))
          (rw e at (
            write_events-Wrote stream_id current (i + 1) (counter + 1) events (omega arith)
              (omega arith))))
