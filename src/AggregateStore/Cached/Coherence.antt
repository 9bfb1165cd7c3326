-- ===== src/AggregateStore/Cached/Coherence.antt =====
-- aggregatestore/cached_store.go: the cache against the inner store.
use estoria.Prelude.{
  ◌≡◌, refl, sym, ap, ◌∙◌, ◌⊎◌, inl, inr, true, Option, none, some, arith, if◌then◌else◌,
  Bool-cases, Option-cases, Result-cases, is_empty, lt64, Text, ok, err, map_err,
}
use estoria.TypeId.{TypedId, Uuid, new}
use estoria.AggregateStore.SaveOutcome.{GoError}
use estoria.AggregateStore.Aggregate.{Aggregate, new_aggregate}
use estoria.AggregateStore.EventSourced.{LoadOptions, SaveOptions, to_version_of}
use estoria.AggregateStore.Cached.{
  Store, CachedAggregate, AggregateCache, CachedStore, loading_from_inner, entry_of, load_and_put,
  load, saved, save,
}

-- A cache returns only what was put: after a put, it returns that entry for its ID and for no other
-- one, or the entry that it had, or nothing.
pub record IsCache {S C : Type 0} (cache : AggregateCache S C) : Type 0 where
  pub put :
      (c : C) (id j : TypedId) (e x : CachedAggregate S)
      → cache.get_aggregate (cache.put_aggregate c id e) j ≡ ok (some x)
      → ((id ≡ j) × (x ≡ e)) ⊎ (cache.get_aggregate c j ≡ ok (some x))

-- A full load yields an aggregate under its ID, with no events queued.
pub record IsStore {S V W E : Type 0} (inner : Store S V W E) : Type 0 where
  pub clean :
      (w : W) (id : Uuid) (opts : Option LoadOptions) (a : Aggregate S V)
      → inner.load w id opts ≡ ok a
      → a ≡ new_aggregate (new inner.aggregate_type id) a.state a.version

uuid-new : (t : Text) (i j : Uuid) → new t i ≡ new t j → i ≡ j
unfolding new
uuid-new t i j h = ap (λ (id : TypedId). id.uuid) h

module _ {S V W C E : Type 0} (s : CachedStore S V W C E) (is_cache : IsCache s.cache)
    (is_store : IsStore s.inner) where
  -- Every entry of the cache is what a full load from the inner store yields.
  abbrev pub Coherent : W → C → Type 0
  Coherent w c =
      (id : Uuid) (x : CachedAggregate S)
      → s.cache.get_aggregate c (new s.inner.aggregate_type id) ≡ ok (some x)
      → s.inner.load w id none
        ≡ ok (new_aggregate (new s.inner.aggregate_type id) x.state x.version)

  put-Coherent :
      (w : W) (c : C) (id : Uuid) (a : Aggregate S V)
      → Coherent w c
      → s.inner.load w id none ≡ ok a
      → Coherent w (s.cache.put_aggregate c a.id (entry_of a))
  put-Coherent w c id a h loaded j x got =
      let clean = is_store.clean w id none a loaded in
      elim (is_cache.put c a.id (new s.inner.aggregate_type j) (entry_of a) x got) [
        | inr before ↦ h j x before
        | inl (same, fresh) ↦
            let q : id ≡ j =
              uuid-new s.inner.aggregate_type id j
                (ap (λ (b : Aggregate S V). b.id) (sym clean) ∙ same) in
            rw (← q, fresh) (loaded ∙ ap ok clean)
      ]

  load_and_put-Coherent :
      (w : W) (c : C) (id : Uuid)
      → Coherent w c
      → ((load_and_put s c (s.inner.load w id none)).0
          ≡ map_err loading_from_inner (s.inner.load w id none))
        × Coherent w (load_and_put s c (s.inner.load w id none)).1
  load_and_put-Coherent w c id h = elim (Result-cases (s.inner.load w id none)) [
    | inl (a, fine) ↦
        let kept = put-Coherent w c id a h fine in
        let e : load_and_put s c (s.inner.load w id none)
            ≡ (ok a, s.cache.put_aggregate c a.id (entry_of a)) =
          ap (load_and_put s c) fine in
        rw e (ap (map_err loading_from_inner) (sym fine), kept)
    | inr (x, failed) ↦
        let e : load_and_put s c (s.inner.load w id none) ≡ (err (loading_from_inner x), c) =
          ap (load_and_put s c) failed in
        rw e (ap (map_err loading_from_inner) (sym failed), h)
  ]

  load_full :
      (w : W) (c : C) (id : Uuid)
      → Coherent w c
      → ((load s w c id none).0 ≡ map_err loading_from_inner (s.inner.load w id none))
        × Coherent w (load s w c id none).1
  unfolding load lt64
  load_full w c id h =
      elim (Result-cases (s.cache.get_aggregate c (new s.inner.aggregate_type id))) [
        | inr (x, failed) ↦ rw (load, failed) (load_and_put-Coherent w c id h)
        | inl (none, missing) ↦ rw (load, missing) (load_and_put-Coherent w c id h)
        | inl (some x, hit) ↦ rw (load, hit) (ap (map_err loading_from_inner) (sym (h id x hit)), h)
      ]

  -- Through a coherent cache, Load returns what the inner store's Load returns, versioned or full, but
  -- for the wrapping of an error; and it leaves the cache coherent. A full load is one whose options
  -- are nil.
  pub load-Coherent :
      (w : W) (c : C) (id : Uuid) (opts : Option LoadOptions)
      → Coherent w c
      → (opts ≡ none) ⊎ (lt64 0 (to_version_of opts) ≡ true)
      → ((load s w c id opts).0 ≡ map_err loading_from_inner (s.inner.load w id opts))
        × Coherent w (load s w c id opts).1
  unfolding load
  load-Coherent w c id none h which = load_full w c id h
  load-Coherent w c id (some o) h (inl full) = absurd (ground (arith, full))
  load-Coherent w c id (some o) h (inr versioned) = rw (load, versioned) (refl, h)

-- The cache returns the entry that was put last under an ID.
abbrev pub Retains : {S C : Type 0} → AggregateCache S C → C → TypedId → CachedAggregate S → Type 0
Retains cache c id e = cache.get_aggregate (cache.put_aggregate c id e) id ≡ ok (some e)

module _ {S V W C E : Type 0} (s : CachedStore S V W C E) (w : W) (c : C)
    (opts : Option SaveOptions) (a a' : Aggregate S V) (w' : W) (e : Option GoError)
    (inner_saved : s.inner.save w opts (some a) ≡ (e, some a', w')) where
  hit :
      (c' : C) (later : W) (id : Uuid) (key : TypedId) (x : CachedAggregate S)
      → key ≡ new s.inner.aggregate_type id
      → s.cache.get_aggregate c' key ≡ ok (some x)
      → (load s later c' id none).0 ≡ ok (new_aggregate key x.state x.version)
  unfolding load lt64
  hit c' later id key x named got =
      let got' : s.cache.get_aggregate c' (new s.inner.aggregate_type id) ≡ ok (some x) =
        ap (s.cache.get_aggregate c') (sym named) ∙ got in
      rw got' (ap (λ (k : TypedId). ok (new_aggregate k x.state x.version)) (sym named))

  -- What a full Load after a Save returns, whatever the inner store then holds. Where the inner save
  -- failed, also after it appended, or left events waiting, the cache is as it was, and the Load returns
  -- the entry that the cache had, if it had one. Where it succeeded and none wait, the Load returns the
  -- aggregate as it was saved, also where the Save had nothing to append, if the cache retains it.
  pub save-load_hit :
      (id : Uuid) (later : W) (x : CachedAggregate S)
      → a'.id ≡ new s.inner.aggregate_type id
      → s.cache.get_aggregate c a'.id ≡ ok (some x)
      → Retains s.cache c a'.id (entry_of a')
      → (load s later (save s w c opts (some a)).3 id none).0
        ≡ ok (elim e [
          | some failed ↦ new_aggregate a'.id x.state x.version
          | none ↦
              if is_empty a'.unapplied_events
              then new_aggregate a'.id a'.state a'.version
              else new_aggregate a'.id x.state x.version
        ])
  unfolding save
  save-load_hit id later x named had retained =
      let e_saved : save s w c opts (some a) ≡ saved s c (e, some a', w') =
        ap (saved s c) inner_saved in
      rw e_saved (elim (Option-cases e) [
        | inr (failed, bad) ↦ rw bad (hit c later id a'.id x named had)
        | inl fine ↦ elim (Bool-cases (is_empty a'.unapplied_events)) [
          | inl applied ↦
              rw (fine, applied)
                (hit (s.cache.put_aggregate c a'.id (entry_of a')) later id a'.id (entry_of a')
                  named retained)
          | inr waiting ↦ rw (fine, waiting) (hit c later id a'.id x named had)
        ]
      ])
