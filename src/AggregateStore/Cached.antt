-- ===== src/AggregateStore/Cached.antt =====
-- aggregatestore/cached_store.go: CachedStore, over any store of aggregates and any cache. The inner
-- store works on a state `W` and the cache on a state `C`; `E` is the type of the inner store's errors.
pub mod Coherence
mod Examples
use estoria.Prelude.{
  ℕ, zero, suc, ◌+◌, ◌-◌, ◌*◌, ◌/◌, ◌%◌, ◌^◌, ◌≤◌, ◌<◌, min, ◌≡◌, refl, sym, ap, ◌∙◌, ◌≢◌, ◌↔◌, ◌⊎◌,
  inl, inr, Bool, true, false, not, ◌&&◌, ◌||◌, Option, none, some, List, [], ◌∷◌, ◌++◌, map,
  append-nil, append_assoc, arith, ltb, leb, ◌==◌, if◌then◌else◌, ==_iff, Bool-cases, Option-cases,
  Result-cases, length, is_empty, get_elem?, take, drop, length-append, length-drop,
  take-append-drop, take-append, drop-append, All, All-append, All-imp, Int64, int64_mod, int64_neg,
  max_int64, add64, sub64, lt64, le64, max64, min64, add64_lem, sub64_lem, lt64_lem, le64_lem,
  max64-eq, Text, codes, text_eq, text_lt, text_eq_iff, has_prefix, has_suffix, Result, ok, err,
  ◌>>=◌, map_err, Dict, lookup, insert, erase, lookup-insert, lookup-erase, fails_if, ◌or_else◌,
  wrap, or_else-none, or_else-eq_none,
}
use estoria.TypeId.{TypedId, Uuid, new}
use estoria.AggregateStore.SaveOutcome.{GoError, plain_error, wrap_error}
use estoria.AggregateStore.Aggregate.{Aggregate, new_aggregate}
use estoria.AggregateStore.EventSourced.{LoadOptions, SaveOptions, to_version_of}

-- Store; `none` is the nil aggregate.
pub record Store (S V W E : Type 0) : Type 0 where
  pub aggregate_type : Text
  pub new_for : Uuid → Aggregate S V
  pub load : W → Uuid → Option LoadOptions → Result E (Aggregate S V)
  pub hydrate : W → Option LoadOptions → Option (Aggregate S V) → Option E × Option (Aggregate S V)
  pub save :
      W → Option SaveOptions → Option (Aggregate S V) → Option GoError × Option (Aggregate S V) × W

pub record CachedAggregate (S : Type 0) : Type 0 where
  pub state : S
  pub version : Int64

pub data CacheError : Type 0 where
  reading_cache : CacheError

-- AggregateCache. What its errors say is only logged.
pub record AggregateCache (S C : Type 0) : Type 0 where
  pub get_aggregate : C → TypedId → Result CacheError (Option (CachedAggregate S))
  pub put_aggregate : C → TypedId → CachedAggregate S → C

pub record CachedStore (S V W C E : Type 0) : Type 0 where
  pub inner : Store S V W E
  pub cache : AggregateCache S C

pub data NewError : Type 0 where
  inner_required cache_required : NewError

-- NewCachedStore
abbrev pub new_cached_store :
    {S V W C E : Type 0}
    → Option (Store S V W E)
    → Option (AggregateCache S C)
    → Result NewError (CachedStore S V W C E)
new_cached_store none cacher = err inner_required
new_cached_store (some inner) none = err cache_required
new_cached_store (some inner) (some cacher) = ok (record { inner = inner; cache = cacher })

-- LoadError{Operation: "loading from inner aggregate store"}
pub data LoadError (E : Type 0) : Type 0 where
  loading_from_inner : E → LoadError E

abbrev pub entry_of : {S V : Type 0} → Aggregate S V → CachedAggregate S
entry_of a = record { state = a.state; version = a.version }

module _ {S V W C E : Type 0} (s : CachedStore S V W C E) where
  abbrev pub new_for : Uuid → Aggregate S V
  new_for id = s.inner.new_for id

  -- What Load does with what the inner store loaded: it writes it to the cache.
  abbrev pub load_and_put : C → Result E (Aggregate S V) → Result (LoadError E) (Aggregate S V) × C
  load_and_put c (err e) = (err (loading_from_inner e), c)
  load_and_put c (ok a) = (ok a, s.cache.put_aggregate c a.id (entry_of a))

  unfoldable pub load : W → C → Uuid → Option LoadOptions → Result (LoadError E) (Aggregate S V) × C
  load w c id opts =
      let aggregate_id = new s.inner.aggregate_type id in
      let loaded = s.inner.load w id opts in
      if lt64 0 (to_version_of opts)
      then (map_err loading_from_inner loaded, c)
      else elim (s.cache.get_aggregate c aggregate_id) [
        | err e ↦ load_and_put c loaded
        | ok none ↦ load_and_put c loaded
        | ok (some entry) ↦ (ok (new_aggregate aggregate_id entry.state entry.version), c)
      ]

  abbrev pub hydrate :
      W → Option LoadOptions → Option (Aggregate S V) → Option E × Option (Aggregate S V)
  hydrate w opts a = s.inner.hydrate w opts a

  -- What Save does with the aggregate that the inner store saved.
  abbrev pub put_saved : C → Option (Aggregate S V) → C
  put_saved c none = c
  put_saved c (some a) =
      if is_empty a.unapplied_events then s.cache.put_aggregate c a.id (entry_of a) else c

  abbrev pub saved :
      C
      → Option GoError × Option (Aggregate S V) × W
      → Option GoError × Option (Aggregate S V) × W × C
  saved c (some e, a, w) = (some (wrap_error e), a, w, c)
  saved c (none, a, w) = (none, a, w, put_saved c a)

  -- Save, with the tree of its error; that of a nil aggregate carries no mark.
  unfoldable pub save :
      W
      → C
      → Option SaveOptions
      → Option (Aggregate S V)
      → Option GoError × Option (Aggregate S V) × W × C
  save w c opts none = (some (wrap_error plain_error), none, w, c)
  save w c opts (some a) = saved c (s.inner.save w opts (some a))
