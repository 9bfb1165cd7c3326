-- ===== src/SnapshotStore/Memory/Retention.antt =====
-- snapshotstore/memory: writes and the retention loop, and reads without a bound.
use estoria.Prelude.{
  ℕ, zero, suc, ◌+◌, ◌-◌, ◌<◌, ◌≡◌, refl, ap, inl, inr, Bool, true, false, ◌&&◌, ◌||◌, none, some,
  List, [], ◌∷◌, ◌++◌, arith, leb, ◌==◌, Bool-cases, length, drop, Int64, int64_neg, sub64, lt64,
  le64, text_eq_iff, ok,
}
use estoria.TypeId.{TypedId}
use estoria.SnapshotStore.{AggregateSnapshot, ReadSnapshotOptions, RetentionPolicy, max_snapshots}
use estoria.SnapshotStore.Memory.{
  SnapshotStore, typed_id_eq, most_recent, read_snapshot, retain_from, found_or_error, is_older,
  write_snapshot,
}

-- Whether all of some snapshots have versions above that of `x`.
unfoldable pub all_above : AggregateSnapshot → List AggregateSnapshot → Bool
all_above x [] = true
all_above x (y ∷ ys) = lt64 x.aggregate_version y.aggregate_version && all_above x ys

-- Whether the versions of snapshots rise.
unfoldable pub is_rising : List AggregateSnapshot → Bool
is_rising [] = true
is_rising (x ∷ xs) = all_above x xs && is_rising xs

lt64_trans : (a b c : Int64) → lt64 a b ≡ true → lt64 b c ≡ true → lt64 a c ≡ true
unfolding lt64
lt64_trans a b c h k = ground arith

all_above-retain_from :
    (retention : RetentionPolicy) (total i : ℕ) (x : AggregateSnapshot)
    (xs : List AggregateSnapshot)
    → all_above x xs ≡ true
    → all_above x (retain_from retention total i xs) ≡ true
unfolding all_above retain_from
all_above-retain_from retention total i x [] h = refl
all_above-retain_from retention total i x (y ∷ ys) h =
    ground (arith, h, all_above-retain_from retention total (i + 1) x ys)

is_rising-retain_from :
    (retention : RetentionPolicy) (total i : ℕ) (xs : List AggregateSnapshot)
    → is_rising xs ≡ true
    → is_rising (retain_from retention total i xs) ≡ true
unfolding is_rising retain_from
is_rising-retain_from retention total i [] h = refl
is_rising-retain_from retention total i (y ∷ ys) h = ground (
  arith,
  h,
  is_rising-retain_from retention total (i + 1) ys,
  all_above-retain_from retention total (i + 1) y ys,
)

pub all_above-append :
    (x snap : AggregateSnapshot) (xs : List AggregateSnapshot)
    → all_above x xs ≡ true
    → lt64 x.aggregate_version snap.aggregate_version ≡ true
    → all_above x (xs ++ snap ∷ []) ≡ true
unfolding all_above
all_above-append x snap [] h k = ground (arith, k)
all_above-append x snap (y ∷ ys) h k = ground (arith, h, all_above-append x snap ys)

-- The first of snapshots that rise is below one that is not older than the last.
below_newer :
    (x snap : AggregateSnapshot) (xs : List AggregateSnapshot)
    → is_rising (x ∷ xs) ≡ true
    → is_older snap (most_recent (x ∷ xs)) ≡ false
    → lt64 x.aggregate_version snap.aggregate_version ≡ true
unfolding is_rising all_above most_recent le64
below_newer x snap [] h k = ground (arith, k)
below_newer x snap (y ∷ ys) h k =
    lt64_trans x.aggregate_version y.aggregate_version snap.aggregate_version (ground (arith, h))
      (below_newer y snap ys (ground (arith, h)) k)

is_rising-append :
    (snap : AggregateSnapshot) (xs : List AggregateSnapshot)
    → is_rising xs ≡ true
    → is_older snap (most_recent xs) ≡ false
    → is_rising (xs ++ snap ∷ []) ≡ true
unfolding is_rising all_above most_recent
is_rising-append snap [] h k = refl
is_rising-append snap (x ∷ []) h k = ground (arith, below_newer x snap [] h k)
is_rising-append snap (x ∷ (y ∷ ys)) h k = ground (
  arith,
  h,
  is_rising-append snap (y ∷ ys),
  all_above-append x snap (y ∷ ys),
  below_newer x snap (y ∷ ys) h k,
  k,
)

-- WriteSnapshot keeps the versions of every aggregate's snapshots rising, whatever the retention
-- policy and whether or not it succeeds.
pub write_snapshot-is_rising :
    (s : SnapshotStore) (snap : AggregateSnapshot)
    → ((id : TypedId) → is_rising (s.snapshots id) ≡ true)
    → (id : TypedId) → is_rising ((write_snapshot s snap).1.snapshots id) ≡ true
unfolding write_snapshot
write_snapshot-is_rising s snap h id =
    elim (Bool-cases (is_older snap (most_recent (s.snapshots snap.aggregate_id)))) [
      | inl older ↦ rw older (h id)
      | inr newer ↦ elim (Bool-cases (typed_id_eq snap.aggregate_id id)) [
        | inl same ↦
            rw (newer, same)
              (is_rising-retain_from s.retention _ 0 (s.snapshots snap.aggregate_id ++ snap ∷ [])
                (is_rising-append snap (s.snapshots snap.aggregate_id) (h snap.aggregate_id) newer))
        | inr other ↦ rw (newer, other) (h id)
      ]
    ]

-- What the policy of the package asks of an index.
max_snapshots_lem :
    (n i total : ℕ) (snap : AggregateSnapshot)
    → n < int64_neg
    → i < int64_neg
    → total < int64_neg
    → max_snapshots n snap i total ≡ (n == 0 || leb (total - n) i)
unfolding max_snapshots sub64 le64
max_snapshots_lem n i total snap hn hi ht = ground arith

-- The retention loop from an index on, where `m` of the snapshots to come are to be left out.
retain_from-drop :
    (n total i m : ℕ) (xs : List AggregateSnapshot)
    → 0 < n
    → n < int64_neg
    → total < int64_neg
    → i + length xs ≡ total
    → m ≡ total - n - i
    → retain_from (max_snapshots n) total i xs ≡ drop m xs
unfolding retain_from
retain_from-drop n total i zero [] pos hn ht e left = refl
retain_from-drop n total i (suc m) [] pos hn ht e left = refl
retain_from-drop n total i zero (x ∷ xs) pos hn ht e left =
    let kept : max_snapshots n x i total ≡ true =
      ground (arith, max_snapshots_lem n i total x hn (omega arith) ht) in
    rw kept (
      ap (λ l. x ∷ l) (retain_from-drop n total (i + 1) 0 xs pos hn ht (omega arith) (omega arith)))
retain_from-drop n total i (suc m) (x ∷ xs) pos hn ht e left =
    let gone : max_snapshots n x i total ≡ false =
      ground (arith, max_snapshots_lem n i total x hn (omega arith) ht) in
    rw gone (retain_from-drop n total (i + 1) m xs pos hn ht (omega arith) (omega arith))

-- The policy that retains the last N snapshots retains the last N, where N is positive and N and
-- the number of snapshots fit an int64.
pub retain_from-max_snapshots :
    (n : ℕ) (xs : List AggregateSnapshot)
    → 0 < n
    → n < int64_neg
    → length xs < int64_neg
    → retain_from (max_snapshots n) (length xs) 0 xs ≡ drop (length xs - n) xs
retain_from-max_snapshots n xs pos hn size =
    retain_from-drop n (length xs) 0 (length xs - n) xs pos hn size (omega arith) (omega arith)

most_recent-cons :
    (x snap : AggregateSnapshot) (xs : List AggregateSnapshot)
    → most_recent xs ≡ some snap
    → most_recent (x ∷ xs) ≡ some snap
unfolding most_recent
most_recent-cons x snap [] h = cc
most_recent-cons x snap (y ∷ ys) h = h

most_recent-retain_from :
    (retention : RetentionPolicy) (total i : ℕ) (snap : AggregateSnapshot)
    (xs : List AggregateSnapshot)
    → retention snap (i + length xs) total ≡ true
    → most_recent (retain_from retention total i (xs ++ snap ∷ [])) ≡ some snap
unfolding retain_from most_recent
most_recent-retain_from retention total i snap [] kept =
    let e : ◌≡◌ {A = ℕ} (i + 0) i = omega arith in rw (rw e at kept) refl
most_recent-retain_from retention total i snap (x ∷ xs) kept =
    let e : ◌≡◌ {A = ℕ} (i + suc (length xs)) (i + 1 + length xs) = omega arith in
    let rest = most_recent-retain_from retention total (i + 1) snap xs (rw e at kept) in
    elim (Bool-cases (retention x i total)) [
      | inl stays ↦
          rw stays
            (most_recent-cons x snap (retain_from retention total (i + 1) (xs ++ snap ∷ [])) rest)
      | inr goes ↦ rw goes rest
    ]

-- A snapshot that is written, under a policy that retains it, is what a read without a bound returns;
-- and reads of other aggregates return what they did.
pub read_snapshot-write_snapshot :
    (s : SnapshotStore) (snap : AggregateSnapshot)
    → (write_snapshot s snap).0 ≡ none
    → s.retention snap
        (length (s.snapshots snap.aggregate_id))
        (length (s.snapshots snap.aggregate_id ++ snap ∷ []))
      ≡ true
    → (read_snapshot (write_snapshot s snap).1 snap.aggregate_id (record { max_version = 0 })
        ≡ ok snap)
      × ((id : TypedId) (opts : ReadSnapshotOptions)
          → typed_id_eq snap.aggregate_id id ≡ false
          → read_snapshot (write_snapshot s snap).1 id opts ≡ read_snapshot s id opts)
unfolding write_snapshot read_snapshot lt64
read_snapshot-write_snapshot s snap written kept =
    let xs : List AggregateSnapshot = s.snapshots snap.aggregate_id in
    let newer : is_older snap (most_recent xs) ≡ false = ground (arith, written) in
    let same : typed_id_eq snap.aggregate_id snap.aggregate_id ≡ true =
      ground (arith, text_eq_iff snap.aggregate_id.type_name snap.aggregate_id.type_name) in
    let start : ◌≡◌ {A = ℕ} (0 + length xs) (length xs) = omega arith in
    (
      rw (newer, same)
          (ap found_or_error (most_recent-retain_from s.retention _ 0 snap xs (rw start kept))),
      λ id opts other. rw (newer, other) refl,
    )
