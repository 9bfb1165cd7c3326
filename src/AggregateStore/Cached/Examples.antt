-- ===== src/AggregateStore/Cached/Examples.antt =====
-- aggregatestore/cached_store.go: a cache that keeps every entry, over an inner store that holds one
-- number, the version and the state of every aggregate.
use estoria.Prelude.{
  ℕ, ◌≡◌, refl, ap, inl, inr, Option, none, some, [], ◌∷◌, arith, Bool-cases, Text, codes, text_eq,
  text_eq_iff, Result, ok, map_err, Dict, lookup, insert, lookup-insert,
}
use estoria.TypeId.{TypedId, new, nil_uuid}
use estoria.AggregateStore.Aggregate.{Aggregate, new_aggregate}
use estoria.AggregateStore.Cached.{
  Store, CachedAggregate, CacheError, AggregateCache, CachedStore, loading_from_inner, entry_of,
  load, save,
}
use estoria.AggregateStore.Cached.Coherence.{
  IsCache, IsStore, Coherent, load-Coherent, save-load_hit,
}

abbrev one_number : Store ℕ ℕ ℕ ℕ
one_number = record {
  aggregate_type = codes "number";
  new_for = λ id. new_aggregate (new (codes "number") id) 0 0;
  load = λ w id opts. ok (new_aggregate (new (codes "number") id) w w);
  hydrate = λ w opts a. (none, a);
  save = λ w opts a. (none, a, w);
}

abbrev key_of : TypedId → Text
key_of id = id.uuid ∷ id.type_name

abbrev id_of : Text → TypedId
id_of [] = record { type_name = []; uuid = nil_uuid }
id_of (u ∷ t) = record { type_name = t; uuid = u }

abbrev keeping : AggregateCache ℕ (Dict (CachedAggregate ℕ))
keeping = record {
  get_aggregate = λ c id. ok (lookup (key_of id) c);
  put_aggregate = λ c id e. insert (key_of id) e c;
}

keeping-IsCache : IsCache keeping
keeping-IsCache = record {
  put = λ c id j e x h. elim (Bool-cases (text_eq (key_of id) (key_of j))) [
    | inl same ↦ inl (
      ap id_of ((text_eq_iff (key_of id) (key_of j)).0 same),
      ground (arith, h, same, lookup-insert (key_of id) (key_of j) e c),
    )
    | inr other ↦ inr (ground (arith, h, other, lookup-insert (key_of id) (key_of j) e c))
  ];
}

one_number-IsStore : IsStore one_number
one_number-IsStore = record {
  clean = λ w id opts a h.
      let e : a ≡ new_aggregate (new (codes "number") id) w w = ground (arith, h) in rw e refl;
}

abbrev cached : CachedStore ℕ ℕ ℕ (Dict (CachedAggregate ℕ)) ℕ
cached = record { inner = one_number; cache = keeping }

abbrev at_three : Dict (CachedAggregate ℕ)
at_three = (7 ∷ codes "number", record { state = 3; version = 3 }) ∷ []

at_three-Coherent : Coherent cached keeping-IsCache one_number-IsStore 3 at_three
unfolding lookup new
at_three-Coherent id x h =
    elim (Bool-cases (text_eq (7 ∷ codes "number") (key_of (new (codes "number") id)))) [
      | inl same ↦
          let e : x ≡ record { state = 3; version = 3 } = ground (arith, h, same) in rw e refl
      | inr other ↦ absurd (ground (arith, h, other))
    ]

load-Coherent_example :
    ((load cached 3 at_three 7 none).0 ≡ map_err loading_from_inner (one_number.load 3 7 none))
    × Coherent cached keeping-IsCache one_number-IsStore 3 (load cached 3 at_three 7 none).1
load-Coherent_example =
    load-Coherent cached keeping-IsCache one_number-IsStore 3 at_three 7 none at_three-Coherent
      (inl refl)

-- An aggregate at version 2, without unsaved events, is saved over the entry at version 3.
abbrev at_two : Aggregate ℕ ℕ
at_two = new_aggregate (new (codes "number") 7) 2 2

at_three-found :
    ◌≡◌ {A = Result CacheError (Option (CachedAggregate ℕ))}
      (keeping.get_aggregate at_three (new (codes "number") 7))
      (ok (some (record { state = 3; version = 3 })))
unfolding lookup new text_eq
at_three-found = refl

at_two-retained :
    keeping.get_aggregate (keeping.put_aggregate at_three at_two.id (entry_of at_two)) at_two.id
    ≡ ok (some (entry_of at_two))
unfolding lookup new insert text_eq
at_two-retained = refl

save-load_hit_example :
    (load cached 5 (save cached 3 at_three none (some at_two)).3 7 none).0
    ≡ ok (new_aggregate (new (codes "number") 7) 2 2)
save-load_hit_example =
    save-load_hit cached 3 at_three none at_two at_two 3 none refl 7 5
      (record { state = 3; version = 3 }) refl at_three-found at_two-retained
