-- ===== src/SnapshotStore/Memory/Bounded.antt =====
-- snapshotstore/memory: reads with a bound.
use estoria.Prelude.{
  ◌≡◌, refl, sym, ap, ◌∙◌, subst, inl, inr, Bool, true, not, ◌&&◌, ◌||◌, none, some, List, [], ◌∷◌,
  ◌++◌, arith, Bool-cases, Option-cases, Int64, lt64, le64, Result, ok, err,
}
use mathlib.Core.List.{
  reverse, reverse-append, reverse-reverse, Mem, mem-cons_self, mem-cons_of_mem, mem-reverse,
}
use estoria.TypeId.{TypedId}
use estoria.SnapshotStore.{AggregateSnapshot, SnapshotError, snapshot_not_found}
use estoria.SnapshotStore.Memory.{SnapshotStore, find_at_most, read_snapshot}
use estoria.SnapshotStore.Memory.Retention.{all_above, is_rising, all_above-append}

-- Whether no snapshot with a version of at most `max_version` is above `snap`.
unfoldable pub is_top : Int64 → AggregateSnapshot → List AggregateSnapshot → Bool
is_top max_version snap [] = true
is_top max_version snap (x ∷ xs) =
    (not (le64 x.aggregate_version max_version) || le64 x.aggregate_version snap.aggregate_version)
    && is_top max_version snap xs

-- Whether all of some snapshots have versions below that of `x`.
all_below : AggregateSnapshot → List AggregateSnapshot → Bool
all_below x [] = true
all_below x (y ∷ ys) = lt64 y.aggregate_version x.aggregate_version && all_below x ys

is_falling : List AggregateSnapshot → Bool
is_falling [] = true
is_falling (x ∷ xs) = all_below x xs && is_falling xs

le64_refl : (v : Int64) → le64 v v ≡ true
unfolding le64 lt64
le64_refl v = ground arith

is_top-below :
    (max_version : Int64) (x : AggregateSnapshot) (xs : List AggregateSnapshot)
    → all_below x xs ≡ true
    → is_top max_version x xs ≡ true
unfolding is_top all_below le64 lt64
is_top-below max_version x [] h = refl
is_top-below max_version x (y ∷ ys) h = ground (arith, h, is_top-below max_version x ys)

find_at_most-is_top :
    (max_version : Int64) (xs : List AggregateSnapshot) (snap : AggregateSnapshot)
    → is_falling xs ≡ true
    → find_at_most max_version xs ≡ some snap
    → (le64 snap.aggregate_version max_version ≡ true) × (is_top max_version snap xs ≡ true)
unfolding find_at_most is_falling is_top
find_at_most-is_top max_version [] snap h found = cc
find_at_most-is_top max_version (x ∷ xs) snap h found =
    elim (Bool-cases (le64 x.aggregate_version max_version)) [
      | inl here ↦
          let e : x ≡ snap = ground (arith, here, found) in
          let own : is_top max_version x (x ∷ xs) ≡ true = ground (
            arith,
            le64_refl x.aggregate_version,
            is_top-below max_version x xs (ground (arith, h)),
          ) in
          (
            ap (λ (z : AggregateSnapshot). le64 z.aggregate_version max_version) (sym e) ∙ here,
            ap (λ (z : AggregateSnapshot). is_top max_version z (x ∷ xs)) (sym e) ∙ own,
          )
      | inr above ↦ ground (
        arith,
        above,
        find_at_most-is_top max_version xs snap (ground (arith, h)) (ground (arith, above, found)),
      )
    ]

all_below-append :
    (y x : AggregateSnapshot) (ys : List AggregateSnapshot)
    → all_below y ys ≡ true
    → lt64 x.aggregate_version y.aggregate_version ≡ true
    → all_below y (ys ++ x ∷ []) ≡ true
unfolding all_below
all_below-append y x [] h k = ground (arith, k)
all_below-append y x (z ∷ ys) h k = ground (arith, h, all_below-append y x ys, k)

is_falling-append :
    (x : AggregateSnapshot) (xs : List AggregateSnapshot)
    → is_falling xs ≡ true
    → all_above x xs ≡ true
    → is_falling (xs ++ x ∷ []) ≡ true
unfolding is_falling all_below all_above
is_falling-append x [] h k = refl
is_falling-append x (y ∷ ys) h k = ground (
  arith,
  h,
  k,
  is_falling-append x ys,
  all_below-append y x ys (ground (arith, h)) (ground (arith, k)),
)

reverse-cons :
    (x : AggregateSnapshot) (xs : List AggregateSnapshot) → reverse (x ∷ xs) ≡ reverse xs ++ x ∷ []
reverse-cons x xs = reverse-append (x ∷ []) xs

all_above-reverse :
    (x : AggregateSnapshot) (xs : List AggregateSnapshot)
    → all_above x xs ≡ true
    → all_above x (reverse xs) ≡ true
unfolding all_above
all_above-reverse x [] h = refl
all_above-reverse x (y ∷ ys) h = rw (reverse-cons y ys) (
    all_above-append x y (reverse ys) (all_above-reverse x ys (ground (arith, h)))
      (ground (arith, h)))

is_falling-reverse :
    (xs : List AggregateSnapshot) → is_rising xs ≡ true → is_falling (reverse xs) ≡ true
unfolding is_rising is_falling
is_falling-reverse [] h = refl
is_falling-reverse (x ∷ xs) h = rw (reverse-cons x xs) (
    is_falling-append x (reverse xs) (is_falling-reverse xs (ground (arith, h)))
      (all_above-reverse x xs (ground (arith, h))))

is_top-append :
    (max_version : Int64) (snap x : AggregateSnapshot) (xs : List AggregateSnapshot)
    → is_top max_version snap (xs ++ x ∷ []) ≡ true
    → is_top max_version snap (x ∷ xs) ≡ true
unfolding is_top
is_top-append max_version snap x [] h = h
is_top-append max_version snap x (y ∷ ys) h = ground (arith, h, is_top-append max_version snap x ys)

is_top-reverse :
    (max_version : Int64) (snap : AggregateSnapshot) (xs : List AggregateSnapshot)
    → is_top max_version snap (reverse xs) ≡ true
    → is_top max_version snap xs ≡ true
unfolding is_top
is_top-reverse max_version snap [] h = refl
is_top-reverse max_version snap (x ∷ xs) h =
    let top = is_top-append max_version snap x (reverse xs) (rw (reverse-cons x xs) at h) in
    ground (arith, top, is_top-reverse max_version snap xs)

-- Whether all of some snapshots have versions above a bound.
unfoldable pub none_within : Int64 → List AggregateSnapshot → Bool
none_within max_version [] = true
none_within max_version (x ∷ xs) =
    not (le64 x.aggregate_version max_version) && none_within max_version xs

none_within-append :
    (max_version : Int64) (x : AggregateSnapshot) (xs : List AggregateSnapshot)
    → none_within max_version (xs ++ x ∷ []) ≡ true
    → none_within max_version (x ∷ xs) ≡ true
unfolding none_within
none_within-append max_version x [] h = h
none_within-append max_version x (y ∷ ys) h = ground (arith, h, none_within-append max_version x ys)

none_within-reverse :
    (max_version : Int64) (xs : List AggregateSnapshot)
    → none_within max_version (reverse xs) ≡ true
    → none_within max_version xs ≡ true
unfolding none_within
none_within-reverse max_version [] h = refl
none_within-reverse max_version (x ∷ xs) h =
    let all = none_within-append max_version x (reverse xs) (rw (reverse-cons x xs) at h) in
    ground (arith, all, none_within-reverse max_version xs)

find_at_most-none :
    (max_version : Int64) (xs : List AggregateSnapshot)
    → find_at_most max_version xs ≡ none
    → none_within max_version xs ≡ true
unfolding find_at_most none_within
find_at_most-none max_version [] h = refl
find_at_most-none max_version (x ∷ xs) h = ground (arith, h, find_at_most-none max_version xs)

find_at_most-Mem :
    (max_version : Int64) (xs : List AggregateSnapshot) (snap : AggregateSnapshot)
    → find_at_most max_version xs ≡ some snap
    → Mem snap xs
unfolding find_at_most
find_at_most-Mem max_version [] snap h = absurd (ground (arith, h))
find_at_most-Mem max_version (x ∷ xs) snap h =
    elim (Bool-cases (le64 x.aggregate_version max_version)) [
      | inl here ↦
          let e : x ≡ snap = ground (arith, here, h) in subst (λ z. Mem z (x ∷ xs)) e mem-cons_self
      | inr above ↦
          mem-cons_of_mem x (find_at_most-Mem max_version xs snap (ground (arith, above, h)))
    ]

-- What a read with a bound is to return: the snapshot, or that there is none.
abbrev pub IsGreatest :
    SnapshotStore → TypedId → Int64 → Result SnapshotError AggregateSnapshot → Type 0
IsGreatest s id max_version (ok snap) =
    Mem snap (s.snapshots id)
    × (le64 snap.aggregate_version max_version ≡ true)
    × (is_top max_version snap (s.snapshots id) ≡ true)
IsGreatest s id max_version (err e) =
    (e ≡ snapshot_not_found) × (none_within max_version (s.snapshots id) ≡ true)

-- A read with a positive bound returns a snapshot that is stored for the aggregate and has a version
-- within the bound, and no snapshot of the aggregate within the bound has a greater version; or it
-- finds none, and then no snapshot of the aggregate is within the bound. The versions rise.
pub read_snapshot-IsGreatest :
    (s : SnapshotStore) (id : TypedId) (max_version : Int64)
    → is_rising (s.snapshots id) ≡ true
    → lt64 0 max_version ≡ true
    → IsGreatest s id max_version (read_snapshot s id (record { max_version = max_version }))
unfolding read_snapshot
read_snapshot-IsGreatest s id max_version rising bounded =
    let falling = is_falling-reverse (s.snapshots id) rising in
    elim (Option-cases (find_at_most max_version (reverse (s.snapshots id)))) [
      | inl absent ↦
          rw (read_snapshot, bounded, absent)
            (
              refl,
              none_within-reverse max_version (s.snapshots id)
                  (find_at_most-none max_version (reverse (s.snapshots id)) absent),
            )
      | inr (x, at) ↦
          let top = find_at_most-is_top max_version (reverse (s.snapshots id)) x falling at in
          rw (read_snapshot, bounded, at)
            (
              subst (Mem x) (reverse-reverse (s.snapshots id))
                  (mem-reverse.1 (find_at_most-Mem max_version (reverse (s.snapshots id)) x at)),
              top.0,
              is_top-reverse max_version x (s.snapshots id) top.1,
            )
    ]
