-- ===== src/EventStore/Memory/Global.antt =====
-- eventstore/memory: ReadAll, against the positions of the global log.
use estoria.Prelude.{
  ℕ, zero, suc, ◌+◌, ◌≤◌, ◌<◌, ◌≡◌, refl, Bool, true, false, Option, some, List, [], ◌∷◌, arith,
  ltb, if◌then◌else◌, length, drop, int64_mod, int64_neg, lt64_lem,
}
use estoria.TypeId.{zero_id}
use estoria.EventStore.{Event, ReadAllOptions, collect}
use estoria.EventStore.Memory.{
  GlobalLogEntry, EventStore, payloads, is_past, read_all, limit_of, next,
}
use estoria.EventStore.Memory.Reads.{decode_all, limited, collect_forward}
use estoria.EventStore.Memory.Invariant.{Ascending, IsValid}
use estoria.EventStore.Memory.Cursor.{limit_of-lt}
use estoria.EventStore.Memory.Append.{length-payloads}

-- What `sort.Search` documents: for a test that stays true once it is true, the smallest index below
-- `n` at which it holds, or `n`.
pub record IsSearch (search : ℕ → (ℕ → Bool) → ℕ) : Type 0 where
  pub bounded : (n : ℕ) (f : ℕ → Bool) → search n f ≤ n
  pub below :
      (n : ℕ) (f : ℕ → Bool)
      → ((i : ℕ) → f i ≡ true → i + 1 < n → f (suc i) ≡ true)
      → (i : ℕ) → i < search n f
      → f i ≡ false
  pub at :
      (n : ℕ) (f : ℕ → Bool)
      → ((i : ℕ) → f i ≡ true → i + 1 < n → f (suc i) ≡ true)
      → search n f < n
      → f (search n f) ≡ true

module _ {D : Type 0} where
  -- The entries of a log whose position is past `after`.
  unfoldable pub past : ℕ → List (GlobalLogEntry D) → List (GlobalLogEntry D)
  past after [] = []
  past after (e ∷ log) =
      let rest = past after log in if ltb after e.position then e ∷ rest else rest

  length-past : (after : ℕ) (log : List (GlobalLogEntry D)) → length (past after log) ≤ length log
  unfolding past
  length-past after [] = omega arith
  length-past after (e ∷ log) = ground (arith, length-past after log)

  Ascending-last : (lo hi : ℕ) (log : List (GlobalLogEntry D)) → Ascending lo log hi → lo ≤ hi
  Ascending-last lo hi [] h = h
  Ascending-last lo hi (e ∷ log) h = omega (arith, h.0, Ascending-last e.position hi log h.1)

  past_all :
      (after lo hi : ℕ) (log : List (GlobalLogEntry D))
      → after ≤ lo
      → Ascending lo log hi
      → past after log ≡ log
  unfolding past
  past_all after lo hi [] le h = refl
  past_all after lo hi (e ∷ log) le h =
      ground (arith, h.0, past_all after e.position hi log (omega (arith, h.0)) h.1)

  -- Once past, always past.
  is_past-step :
      (after lo hi i : ℕ) (log : List (GlobalLogEntry D))
      → after < int64_neg
      → hi < int64_neg
      → Ascending lo log hi
      → is_past log after i ≡ true
      → i + 1 < length log
      → is_past log after (suc i) ≡ true
  is_past-step after lo hi i [] ha hh asc h within = absurd (omega arith)
  is_past-step after lo hi zero (e ∷ []) ha hh asc h within = absurd (omega arith)
  is_past-step after lo hi zero (e ∷ (e' ∷ log)) ha hh (_, (lt, rest)) h within = ground (
    arith,
    lt64_lem after e.position ha,
    lt64_lem after e'.position ha,
    Ascending-last e'.position hi log rest,
  )
  is_past-step after lo hi (suc i) (e ∷ log) ha hh asc h within =
      is_past-step after e.position hi i log ha hh asc.1 h (omega arith)

  drop-past :
      (after lo hi n : ℕ) (log : List (GlobalLogEntry D))
      → after < int64_neg
      → hi < int64_neg
      → Ascending lo log hi
      → n ≤ length log
      → ((i : ℕ) → i < n → is_past log after i ≡ false)
      → (n < length log → is_past log after n ≡ true)
      → drop n log ≡ past after log
  unfolding past
  drop-past after lo hi zero [] ha hh asc within before here = refl
  drop-past after lo hi (suc n) [] ha hh asc within before here = absurd (omega arith)
  drop-past after lo hi zero (e ∷ log) ha hh asc within before here = ground (
    arith,
    here (omega arith),
    lt64_lem after e.position ha,
    Ascending-last e.position hi log asc.1,
    past_all after e.position hi log,
  )
  drop-past after lo hi (suc n) (e ∷ log) ha hh asc within before here =
      let skipped : ltb after e.position ≡ false = ground (
        arith,
        before 0 (omega arith),
        lt64_lem after e.position ha,
        Ascending-last e.position hi log asc.1,
      ) in
      rw skipped (
        drop-past after e.position hi n log ha hh asc.1 (omega arith)
          (λ i lt. before (suc i) (omega arith)) (λ lt. here (omega arith)))

module _ {D : Type 0} (search : ℕ → (ℕ → Bool) → ℕ) (is_search : IsSearch search)
    (unmarshal : D → Option Event) (s : EventStore D) (opts : ReadAllOptions) (fuel : ℕ) where
  -- Collecting ReadAll on a valid store yields the events of the global log past AfterPosition, in
  -- ascending order of position, at most Count of them where Count is positive, and up to the first
  -- that does not decode; where AfterPosition is not negative, the counter and the length of the
  -- log fit an int64, and the fuel exceeds that length.
  pub read_all_lem :
      IsValid s
      → s.global_counter < int64_neg
      → length s.global_log < int64_neg
      → opts.after_position < int64_neg
      → opts.count < int64_mod
      → length s.global_log < fuel
      → collect (next unmarshal) fuel (read_all search s opts)
        ≡ some (
            decode_all unmarshal zero_id
              (limited (limit_of opts.count) 0 (payloads (past opts.after_position s.global_log))))
  unfolding read_all
  read_all_lem h room size after pattern enough =
      let n : ℕ = length s.global_log in
      let f : ℕ → Bool = is_past s.global_log opts.after_position in
      let rises : (i : ℕ) → f i ≡ true → i + 1 < n → f (suc i) ≡ true = λ i.
        is_past-step opts.after_position 0 s.global_counter i s.global_log after room h.ascending in
      let e : drop (search n f) s.global_log ≡ past opts.after_position s.global_log =
        drop-past opts.after_position 0 s.global_counter (search n f) s.global_log after room
          h.ascending (is_search.bounded n f) (is_search.below n f rises)
          (is_search.at n f rises) in
      let size' : length (payloads (past opts.after_position s.global_log)) ≤ n = omega (
        arith,
        length-payloads (past opts.after_position s.global_log),
        length-past opts.after_position s.global_log,
      ) in
      rw e (
        collect_forward unmarshal zero_id fuel (payloads (past opts.after_position s.global_log)) 0
          (limit_of opts.count) 0 (omega arith) (omega arith) (limit_of-lt opts.count pattern)
          (omega arith) (omega arith))
