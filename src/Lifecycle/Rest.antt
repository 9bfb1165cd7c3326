-- ===== src/Lifecycle/Rest.antt =====
-- projection/lifecycle/state.go `unreachableRest`: which cutover revisions a lifecycle at rest can have
-- recorded, and how a completed rebuild moves from one such state to the next.
use estoria.Prelude.{
  ℕ, ◌+◌, ◌-◌, ◌*◌, ◌/◌, ◌%◌, ◌≤◌, ◌<◌, ◌≡◌, Bool, true, false, not, ◌&&◌, ◌||◌, none, arith, ltb,
  leb, ◌==◌, if◌then◌else◌, int64_neg, sub64_lem, lt64_lem, le64_lem,
}
use estoria.Projection.{ProjectionId, zero_id, id_eq}
use estoria.Lifecycle.State.{unreachable_rest}

-- The same checks over numbers: no live version with no cutover, fewer than two cutovers for each
-- completed rebuild, an odd number at the first version, and two fewer at the later ones.
unfoldable pub is_reachable : Bool → ℕ → ℕ → ℕ → Bool
is_reachable unset v r c =
    (if unset then r == 0 else leb 1 r)
    && (r == 0 || ltb r (2 * c))
    && (not (v == 1) || r % 2 == 1)
    && (not (ltb 1 v) || leb (r + 2) (2 * c))

zero_version : (live : ProjectionId) → id_eq live zero_id ≡ true → live.version ≡ 0
unfolding id_eq
zero_version live h = ground arith

module _ (live : ProjectionId) (r c : ℕ) (hv : live.version ≤ c) (hc : c < int64_neg)
    (hr : r < int64_neg) where
  pub is_reachable-of :
      unreachable_rest live r c ≡ none → is_reachable (id_eq live zero_id) live.version r c ≡ true
  unfolding unreachable_rest is_reachable
  is_reachable-of h = ground (
    arith,
    lt64_lem r 1 hr (omega arith),
    lt64_lem 0 r (omega arith) hr,
    le64_lem c (r / 2) hc (omega arith),
    lt64_lem 1 live.version (omega arith) (omega arith),
    sub64_lem c 1 (omega arith),
    sub64_lem r 1 (omega arith),
    le64_lem (c - 1) ((r - 1) / 2) (omega arith) (omega arith),
  )

  pub unreachable_rest-none :
      is_reachable (id_eq live zero_id) live.version r c ≡ true → unreachable_rest live r c ≡ none
  unfolding unreachable_rest is_reachable
  unreachable_rest-none h = ground (
    arith,
    zero_version live,
    lt64_lem r 1 hr (omega arith),
    lt64_lem 0 r (omega arith) hr,
    le64_lem c (r / 2) hc (omega arith),
    lt64_lem 1 live.version (omega arith) (omega arith),
    sub64_lem c 1 (omega arith),
    sub64_lem r 1 (omega arith),
    le64_lem (c - 1) ((r - 1) / 2) (omega arith) (omega arith),
  )

-- A rebuild that is abandoned: one more is completed.
pub reachable-abandoned :
    (unset : Bool) (v r c : ℕ)
    → is_reachable unset v r c ≡ true
    → is_reachable unset v r (c + 1) ≡ true
unfolding is_reachable
reachable-abandoned unset v r c h = ground arith

-- A rebuild that is promoted and rolled back, to a version that is there.
pub reachable-rolled_back :
    (v r c : ℕ) → is_reachable false v r c ≡ true → is_reachable false v (r + 2) (c + 1) ≡ true
unfolding is_reachable
reachable-rolled_back v r c h = ground arith

-- A rebuild that is promoted for good: its version is the one allocated last.
pub reachable-retired :
    (unset : Bool) (v r c : ℕ)
    → is_reachable unset v r c ≡ true
    → is_reachable false (c + 1) (r + 1) (c + 1) ≡ true
unfolding is_reachable
reachable-retired unset v r c h = ground arith
