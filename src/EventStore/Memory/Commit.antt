-- ===== src/EventStore/Memory/Commit.antt =====
-- eventstore/memory: the end of AppendStream, against the invariant and as a reader sees it.
use estoria.Prelude.{
  ℕ, ◌+◌, ◌<◌, ◌≡◌, refl, inl, inr, false, Option, none, some, List, [], ◌++◌, append-nil, arith,
  Bool-cases, Option-cases, length, length-append, int64_neg, add64, sub64, Text, text_eq,
  text_eq_iff, ok, err, lookup, lookup-insert,
}
use estoria.TypeId.{TypedId, Uuid, to_string}
use estoria.EventStore.{StoreError, Event, Time}
use estoria.EventStore.Memory.Reads.{decode_all}
use estoria.EventStore.Memory.{
  Stream, EventStore, Written, payloads, tip, entry_of, with_entry, commit,
}
use estoria.EventStore.Memory.Invariant.{
  Ascending-append, Ascending-weaken, log_of-append, number-append, Fits, IsValid,
}
use estoria.EventStore.Memory.Append.{length-payloads, Wrote}

module _ {D : Type 0} where
  pub tip_lem :
      (entry : Stream D) (counter : ℕ)
      → Fits counter entry
      → counter < int64_neg
      → tip entry + 1 ≡ entry.first_version + length entry.events
  unfolding tip add64 sub64
  tip_lem entry counter h room = omega (arith, h.positive, h.counted)

  -- The entry that an append works on is in the map, and the map is valid.
  pub with_entry-IsValid :
      (s : EventStore D) (key : Text)
      → IsValid s
      → IsValid (with_entry s key (lookup key s.streams))
  with_entry-IsValid s key h = elim (Option-cases (lookup key s.streams)) [
    | inr (entry, found) ↦ rw found h
    | inl absent ↦ rw absent (record {
      ascending = h.ascending;
      fits = λ j entry e. ground (
        arith,
        lookup-insert key j (record { first_version = 1; events = [] }) s.streams,
        h.fits j entry,
      );
      agree = λ j. ground (
        arith,
        lookup-insert key j (record { first_version = 1; events = [] }) s.streams,
        h.agree j,
        text_eq_iff key j,
      );
    })
  ]

  pub lookup-with_entry :
      (s : EventStore D) (key : Text)
      → lookup key (with_entry s key (lookup key s.streams)).streams
        ≡ some (entry_of (lookup key s.streams))
  lookup-with_entry s key = elim (Option-cases (lookup key s.streams)) [
    | inr (entry, found) ↦ rw (found, found)
    | inl absent ↦ rw (absent, lookup-insert) (ground (arith, text_eq_iff key key))
  ]

module _ {D : Type 0} (uuid_string : Uuid → Text) (marshal : Event → Option D)
    (unmarshal : D → Option Event) (draw : ℕ → Uuid × Time) (s : EventStore D) (stream_id : TypedId)
    (entry : Stream D) where
  abbrev pub key : Text
  key = to_string uuid_string stream_id

  pub commit-IsValid :
      (w : Written D) (n : ℕ)
      → IsValid s
      → lookup key s.streams ≡ some entry
      → Wrote uuid_string marshal unmarshal draw stream_id
          (entry.first_version + length entry.events)
          s.global_counter
          n
          w
      → IsValid (commit s key entry w).1
  unfolding commit
  commit-IsValid (err e, c) n h found (lo, hi) = record {
    ascending = Ascending-weaken 0 s.global_counter c s.global_log h.ascending lo;
    fits = λ j other e. ground (arith, h.fits j other e);
    agree = h.agree;
  }
  commit-IsValid (ok (tx, written), c) n h found (c_eq, asc, log, others, len, dec) = record {
    ascending = Ascending-append 0 s.global_counter c s.global_log tx h.ascending asc;
    fits = λ j other e. ground (
      arith,
      lookup-insert key j (record entry { events = entry.events ++ payloads tx }) s.streams,
      h.fits j other,
      h.fits key entry found,
      length-append entry.events (payloads tx),
      length-payloads tx,
    );
    agree = λ j.
        rw (log_of-append, h.agree j, lookup-insert)
          (elim (Bool-cases (text_eq key j)) [
            | inl same ↦
                let e : key ≡ j = (text_eq_iff key j).0 same in
                rw (same, ← e, found, log, number-append)
            | inr other ↦ rw (other, others j other, append-nil)
          ]);
  }

  pub commit_err :
      (w : Written D) (e : StoreError)
      → (commit s key entry w).0 ≡ err e
      → ((commit s key entry w).1.global_log ≡ s.global_log)
        × ((commit s key entry w).1.streams ≡ s.streams)
  unfolding commit
  commit_err (err x, c) e failed = (refl, refl)
  commit_err (ok (tx, written), c) e failed = cc

  pub commit_ok :
      (w : Written D) (v counter n : ℕ) (written : List Event)
      → Wrote uuid_string marshal unmarshal draw stream_id v counter n w
      → (commit s key entry w).0 ≡ ok written
      → (ds : List D) × (lookup key (commit s key entry w).1.streams
          ≡ some (record entry { events = entry.events ++ ds }))
        × (decode_all unmarshal stream_id ds ≡ (written, none))
        × (length ds ≡ n)
        × ((j : Text)
            → text_eq key j ≡ false
            → lookup j (commit s key entry w).1.streams ≡ lookup j s.streams)
  unfolding commit
  commit_ok (err x, c) v counter n written w_ok succeeded = cc
  commit_ok (ok (tx, out), c) v counter n written (c_eq, asc, log, others, len, dec) succeeded = (
    payloads tx,
    rw lookup-insert (ground (arith, text_eq_iff key key)),
    ground (arith, dec),
    omega (arith, length-payloads tx),
    λ j ne. rw (lookup-insert, ne),
  )
