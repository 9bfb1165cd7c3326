-- ===== src/EventStore/Memory/Truncation.antt =====
-- eventstore/memory against the contract of DeleteStream in eventstore/event_store.go.
use estoria.Prelude.{
  ℕ, zero, suc, ◌+◌, ◌-◌, ◌<◌, min, ◌≡◌, refl, ap, ◌∙◌, inl, inr, true, false, Option, none, some,
  List, [], ◌∷◌, arith, ltb, ◌==◌, Bool-cases, length, drop, length-drop, int64_neg, lt64, lt64_lem,
  Text, text_eq, text_eq_iff, lookup, lookup-insert, lookup-erase,
}
use estoria.TypeId.{TypedId, Uuid, to_string}
use estoria.EventStore.{DeleteStreamOptions, StoreError}
use estoria.EventStore.Memory.{Stream, EventStore, tip, is_never_written, cut_stream, delete_stream}
use estoria.EventStore.Memory.Invariant.{log_of, numbered, Fits, IsValid}
use estoria.EventStore.Memory.Cursor.{above, above-skip}
use estoria.EventStore.Memory.Commit.{tip_lem}
use estoria.EventStore.Memory.Deletes.{cut_stream_cases, delete_stream-IsValid}

drop-min : {D : Type 0} (n : ℕ) (ds : List D) → drop n ds ≡ drop (min n (length ds)) ds
drop-min zero ds = ground arith
drop-min (suc n) [] = ground arith
drop-min (suc n) (d ∷ ds) = ground (arith, drop-min n ds)

module _ {D : Type 0} (uuid_string : Uuid → Text) (s : EventStore D) (stream_id : TypedId)
    (opts : DeleteStreamOptions) (entry : Stream D)
    (found : lookup (to_string uuid_string stream_id) s.streams ≡ some entry)
    (written : is_never_written (some entry) ≡ false) (h : IsValid s)
    (room : s.global_counter < int64_neg) where
  abbrev pub key : Text
  key = to_string uuid_string stream_id

  abbrev pub deleted : Option StoreError × EventStore D
  deleted = delete_stream uuid_string s stream_id opts

  cut_stream_keeps :
      (to_version : ℕ)
      → 0 < to_version
      → to_version < int64_neg
      → (after : Stream D) × (lookup key (cut_stream key entry to_version s).streams ≡ some after)
        × (after.events ≡ above to_version entry.first_version entry.events)
        × (after.first_version + length after.events ≡ entry.first_version + length entry.events)
        × ((j : Text)
            → text_eq key j ≡ false
            → lookup j (cut_stream key entry to_version s).streams ≡ lookup j s.streams)
  cut_stream_keeps to_version pos small =
      let fits : Fits s.global_counter entry = h.fits key entry found in
      let last : tip entry + 1 ≡ entry.first_version + length entry.events =
        tip_lem entry s.global_counter fits room in
      let cut : ℕ = min to_version (tip entry) in
      let kept : above to_version entry.first_version entry.events
          ≡ drop (min (to_version + 1 - entry.first_version) (length entry.events)) entry.events =
        above-skip to_version entry.first_version entry.events fits.positive
        ∙ drop-min (to_version + 1 - entry.first_version) entry.events in
      rw (cut_stream_cases s h room key entry found to_version pos small)
        (elim (Bool-cases (ltb cut entry.first_version)) [
          | inl below ↦
              let n : min (to_version + 1 - entry.first_version) (length entry.events) ≡ 0 =
                ground (arith, last, fits.positive) in
              rw below (entry, found, rw (kept, n), refl, λ j ne. refl)
          | inr within ↦
              let n : min (to_version + 1 - entry.first_version) (length entry.events)
                  ≡ cut + 1 - entry.first_version =
                ground (arith, last, fits.positive) in
              rw within (
                record {
                  first_version = cut + 1;
                  events = drop (cut + 1 - entry.first_version) entry.events;
                },
                rw lookup-insert (ground (arith, text_eq_iff key key)),
                rw (kept, n),
                ground (arith, last, length-drop (cut + 1 - entry.first_version) entry.events),
                λ j ne. rw (lookup-insert, ne),
              )
        ])

  -- Truncating a written stream of a valid store, with a positive ToVersion, succeeds and leaves
  -- exactly its events above ToVersion, with their versions and the version of the next append
  -- unchanged, and leaves the other streams alone, where the global counter fits an int64.
  pub delete_stream_truncates :
      0 < opts.to_version
      → opts.to_version < int64_neg
      → (deleted.0 ≡ none)
        × ((after : Stream D) × (lookup key deleted.1.streams ≡ some after)
            × (after.events ≡ above opts.to_version entry.first_version entry.events)
            × (after.first_version + length after.events
                ≡ entry.first_version + length entry.events)
            × ((j : Text)
                → text_eq key j ≡ false
                → lookup j deleted.1.streams ≡ lookup j s.streams))
  unfolding delete_stream
  delete_stream_truncates pos small =
      let positive : lt64 opts.to_version 0 ≡ false =
        ground (arith, lt64_lem opts.to_version 0 small) in
      let bounded : (opts.to_version == 0) ≡ false = ground arith in
      rw (positive, found, written, bounded) (refl, cut_stream_keeps opts.to_version pos small)

  -- Deleting a written stream of a valid store whole succeeds, removes it and all that the global
  -- log holds of it, and leaves the other streams alone, where the global counter fits an int64.
  pub delete_stream_whole :
      opts.to_version ≡ 0
      → (deleted.0 ≡ none)
        × (lookup key deleted.1.streams ≡ none)
        × (log_of key deleted.1.global_log ≡ [])
        × ((j : Text) → text_eq key j ≡ false → lookup j deleted.1.streams ≡ lookup j s.streams)
  unfolding delete_stream
  delete_stream_whole whole =
      let zero_version : (opts.to_version == 0) ≡ true = ground arith in
      let gone : lookup key deleted.1.streams ≡ none = ground (
        arith,
        found,
        written,
        whole,
        zero_version,
        lookup-erase key key s.streams,
        text_eq_iff key key,
        lt64_lem 0 0,
      ) in
      (
        ground (arith, found, written, whole, zero_version, lt64_lem 0 0),
        gone,
        (delete_stream-IsValid uuid_string s stream_id opts (omega arith) h room).agree key
            ∙ ap numbered gone,
        λ j ne. ground (
          arith,
          found,
          written,
          whole,
          zero_version,
          lookup-erase key j s.streams,
          lt64_lem 0 0,
        ),
      )
