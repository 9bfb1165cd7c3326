-- ===== src/EventStore/Memory/Deletes.antt =====
-- eventstore/memory: DeleteStream against the invariant.
use estoria.Prelude.{
  ℕ, zero, suc, ◌+◌, ◌-◌, ◌≤◌, ◌<◌, min, ◌≡◌, refl, inl, inr, false, ◌&&◌, Option, some, List, [],
  ◌∷◌, arith, ltb, ◌==◌, if◌then◌else◌, Bool-cases, Option-cases, length, drop, length-drop,
  int64_mod, int64_neg, max_int64, add64, sub64, lt64, le64, min64, le64_lem, Text, text_eq,
  text_eq_iff, lookup, insert, erase, lookup-insert, lookup-erase,
}
use estoria.TypeId.{TypedId, Uuid, to_string}
use estoria.EventStore.{DeleteStreamOptions, StoreError}
use estoria.EventStore.Memory.{
  Stream, GlobalLogEntry, EventStore, tip, is_never_written, drop_from_global_log, cut_stream,
  delete_stream,
}
use estoria.EventStore.Memory.Invariant.{Ascending, log_of, number, Fits, IsValid}
use estoria.EventStore.Memory.Commit.{tip_lem}

module _ {D : Type 0} where
  -- The numbered events that survive a cut.
  keep_above : ℕ → List (ℕ × D) → List (ℕ × D)
  keep_above cut [] = []
  keep_above cut ((v, d) ∷ l) =
      let rest = keep_above cut l in if le64 v cut then rest else (v, d) ∷ rest

  Ascending-lower :
      (lo lo' hi : ℕ) (log : List (GlobalLogEntry D))
      → lo ≤ lo'
      → Ascending lo' log hi
      → Ascending lo log hi
  Ascending-lower lo lo' hi [] le h = omega arith
  Ascending-lower lo lo' hi (e ∷ log) le h = (omega (arith, h.0), h.1)

  Ascending-drop_from :
      (key : Text) (cut lo hi : ℕ) (log : List (GlobalLogEntry D))
      → Ascending lo log hi
      → Ascending lo (drop_from_global_log key cut log) hi
  unfolding drop_from_global_log
  Ascending-drop_from key cut lo hi [] h = h
  Ascending-drop_from key cut lo hi (e ∷ log) h =
      elim (Bool-cases (text_eq e.stream_key key && le64 e.version cut)) [
        | inl dropped ↦ rw dropped (
            Ascending-lower lo e.position hi _ (omega (arith, h.0))
              (Ascending-drop_from key cut e.position hi log h.1))
        | inr kept ↦ rw kept (h.0, Ascending-drop_from key cut e.position hi log h.1)
      ]

  log_of-drop_from :
      (key : Text) (cut : ℕ) (log : List (GlobalLogEntry D))
      → log_of key (drop_from_global_log key cut log) ≡ keep_above cut (log_of key log)
  unfolding drop_from_global_log log_of keep_above
  log_of-drop_from key cut [] = refl
  log_of-drop_from key cut (e ∷ log) = ground (arith, log_of-drop_from key cut log)

  log_of-drop_from_ne :
      (key j : Text) (cut : ℕ) (log : List (GlobalLogEntry D))
      → text_eq key j ≡ false
      → log_of j (drop_from_global_log key cut log) ≡ log_of j log
  unfolding drop_from_global_log log_of
  log_of-drop_from_ne key j cut [] ne = refl
  log_of-drop_from_ne key j cut (e ∷ log) ne = ground (
    arith,
    log_of-drop_from_ne key j cut log ne,
    text_eq_iff e.stream_key key,
    text_eq_iff e.stream_key j,
    text_eq_iff key j,
  )

  keep_above_all :
      (cut v : ℕ) (ds : List D)
      → cut < v
      → v + length ds ≤ int64_neg
      → keep_above cut (number v ds) ≡ number v ds
  unfolding keep_above
  keep_above_all cut v [] h hv = refl
  keep_above_all cut v (d ∷ ds) h hv =
      ground (arith, keep_above_all cut (v + 1) ds, le64_lem v cut (omega arith) (omega arith))

  keep_above-number :
      (n cut v : ℕ) (ds : List D)
      → v + n ≡ cut + 1
      → cut < int64_neg
      → v + length ds ≤ int64_neg
      → keep_above cut (number v ds) ≡ number (cut + 1) (drop n ds)
  unfolding keep_above
  keep_above-number zero cut v ds e hc hv =
      let same : v ≡ cut + 1 = omega arith in rw (← same) (keep_above_all cut v ds (omega arith) hv)
  keep_above-number (suc n) cut v [] e hc hv = refl
  keep_above-number (suc n) cut v (d ∷ ds) e hc hv = ground (
    arith,
    keep_above-number n cut (v + 1) ds (omega arith) hc (omega arith),
    le64_lem v cut (omega arith) (omega arith),
  )

  keep_above_none :
      (v : ℕ) (ds : List D) → v + length ds ≤ int64_neg → keep_above max_int64 (number v ds) ≡ []
  unfolding keep_above
  keep_above_none v [] h = refl
  keep_above_none v (d ∷ ds) h = ground (
    arith,
    keep_above_none (v + 1) ds (omega arith),
    le64_lem v max_int64 (omega arith) (omega arith),
  )

module _ {D : Type 0} (s : EventStore D) (h : IsValid s) (room : s.global_counter < int64_neg)
    (key : Text) (entry : Stream D) (found : lookup key s.streams ≡ some entry) where
  entry-Fits : Fits s.global_counter entry
  entry-Fits = h.fits key entry found

  -- A cut above the first version that is at most the tip.
  abbrev pub cut_at : ℕ → EventStore D
  cut_at cut = record s {
    streams =
        insert key
          (record {
            first_version = cut + 1;
            events = drop (cut + 1 - entry.first_version) entry.events;
          })
          s.streams;
    global_log = drop_from_global_log key cut s.global_log;
  }

  cut_at-IsValid :
      (cut : ℕ)
      → entry.first_version ≤ cut
      → cut + 1 ≤ entry.first_version + length entry.events
      → IsValid (cut_at cut)
  cut_at-IsValid cut lo hi = record {
    ascending = Ascending-drop_from key cut 0 s.global_counter s.global_log h.ascending;
    fits = λ j other e. ground (
      arith,
      lookup-insert key j
          (record {
            first_version = cut + 1;
            events = drop (cut + 1 - entry.first_version) entry.events;
          })
          s.streams,
      h.fits j other,
      entry-Fits,
      length-drop (cut + 1 - entry.first_version) entry.events,
    );
    agree = λ j. rw lookup-insert (elim (Bool-cases (text_eq key j)) [
      | inl same ↦
          let e : key ≡ j = (text_eq_iff key j).0 same in
          rw (same, ← e, log_of-drop_from, h.agree key, found)
            (keep_above-number (cut + 1 - entry.first_version) cut entry.first_version entry.events
              (omega arith) (omega (arith, entry-Fits.counted)) (omega (arith, entry-Fits.counted)))
      | inr other ↦ rw (other, log_of-drop_from_ne key j cut s.global_log other) (h.agree j)
    ]);
  }

  -- DeleteStream with a version bound: nothing where the bound lies below the stream, or a cut at
  -- the bound or at the tip.
  pub cut_stream_cases :
      (to_version : ℕ)
      → 0 < to_version
      → to_version < int64_neg
      → cut_stream key entry to_version s ≡ (
          if ltb (min to_version (tip entry)) entry.first_version
          then s
          else cut_at (min to_version (tip entry)))
  unfolding cut_stream min64 add64 sub64 lt64 le64
  cut_stream_cases to_version pos small =
      ground (arith, tip_lem entry s.global_counter entry-Fits room, entry-Fits)

  erase_at-IsValid : IsValid (record s {
    streams = erase key s.streams;
    global_log = drop_from_global_log key max_int64 s.global_log;
  })
  erase_at-IsValid = record {
    ascending = Ascending-drop_from key max_int64 0 s.global_counter s.global_log h.ascending;
    fits = λ j other e. ground (arith, lookup-erase key j s.streams, h.fits j other);
    agree = λ j. rw lookup-erase (elim (Bool-cases (text_eq key j)) [
      | inl same ↦
          let e : key ≡ j = (text_eq_iff key j).0 same in
          rw (same, ← e, log_of-drop_from, h.agree key, found)
            (keep_above_none entry.first_version entry.events (omega (arith, entry-Fits.counted)))
      | inr other ↦ rw (other, log_of-drop_from_ne key j max_int64 s.global_log other) (h.agree j)
    ]);
  }

not_negative : (v : ℕ) → v < int64_mod → lt64 v 0 ≡ false → v < int64_neg
unfolding lt64
not_negative v pattern h = ground arith

-- A DeleteStream of a written stream, whole or up to a bound.
module _ {D : Type 0} (uuid_string : Uuid → Text) (s : EventStore D) (stream_id : TypedId)
    (opts : DeleteStreamOptions) (pattern : opts.to_version < int64_mod) where
  abbrev key_of : Text
  key_of = to_string uuid_string stream_id

  abbrev deleted : Option StoreError × EventStore D
  deleted = delete_stream uuid_string s stream_id opts

  module _ (h : IsValid s) (room : s.global_counter < int64_neg) where
    cut_case :
        (entry : Stream D)
        → lookup key_of s.streams ≡ some entry
        → 0 < opts.to_version
        → opts.to_version < int64_neg
        → IsValid (cut_stream key_of entry opts.to_version s)
    cut_case entry found pos small =
        let cut : ℕ = min opts.to_version (tip entry) in
        rw (cut_stream_cases s h room key_of entry found opts.to_version pos small)
          (elim (Bool-cases (ltb cut entry.first_version)) [
            | inl below ↦ rw below h
            | inr within ↦ rw within (
                cut_at-IsValid s h room key_of entry found cut (ground arith)
                  (omega (arith, tip_lem entry s.global_counter (h.fits key_of entry found) room)))
          ])

    written_case : (entry : Stream D) → lookup key_of s.streams ≡ some entry → IsValid deleted.1
    unfolding delete_stream
    written_case entry found = elim (Bool-cases (lt64 opts.to_version 0)) [
      | inl negative ↦ rw negative h
      | inr positive ↦ elim (Bool-cases (is_never_written (some entry))) [
        | inl unwritten ↦ rw (positive, found, unwritten) h
        | inr written ↦ elim (Bool-cases (opts.to_version == 0)) [
          | inl whole ↦
              rw (positive, found, written, whole) (erase_at-IsValid s h room key_of entry found)
          | inr bounded ↦
              rw (positive, found, written, bounded)
                (cut_case entry found (ground arith)
                  (not_negative opts.to_version pattern positive))
        ]
      ]
    ]

    -- DeleteStream keeps the invariant on every path, where the global counter fits an int64.
    pub delete_stream-IsValid : IsValid deleted.1
    unfolding delete_stream
    delete_stream-IsValid = elim (Option-cases (lookup key_of s.streams)) [
      | inl absent ↦ elim (Bool-cases (lt64 opts.to_version 0)) [
        | inl negative ↦ rw negative h
        | inr positive ↦ rw (positive, absent) h
      ]
      | inr (entry, found) ↦ written_case entry found
    ]
