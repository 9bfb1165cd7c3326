-- ===== src/EventStore/Memory/Invariant.antt =====
-- eventstore/memory: the invariant of the store, which ties the global log to the streams.
use estoria.Prelude.{
  ℕ, suc, ◌+◌, ◌≤◌, ◌<◌, ◌≡◌, refl, ap, Option, none, some, List, [], ◌∷◌, ◌++◌, arith,
  if◌then◌else◌, length, Text, text_eq, lookup,
}
use estoria.EventStore.Memory.{Stream, GlobalLogEntry, EventStore, new_event_store}

module _ {D : Type 0} where
  -- The positions of a log rise, from above `lo` to at most `hi`.
  abbrev pub Ascending : ℕ → List (GlobalLogEntry D) → ℕ → Type 0
  Ascending lo [] hi = lo ≤ hi
  Ascending lo (e ∷ log) hi = (lo < e.position) × Ascending e.position log hi

  -- The versions and events that a log holds for a stream, in log order.
  unfoldable pub log_of : Text → List (GlobalLogEntry D) → List (ℕ × D)
  log_of key [] = []
  log_of key (e ∷ log) =
      let rest = log_of key log in
      if text_eq e.stream_key key then (e.version, e.payload) ∷ rest else rest

  -- Events numbered from a first version.
  abbrev pub number : ℕ → List D → List (ℕ × D)
  number v [] = []
  number v (d ∷ ds) = (v, d) ∷ number (v + 1) ds

  abbrev pub numbered : Option (Stream D) → List (ℕ × D)
  numbered none = []
  numbered (some entry) = number entry.first_version entry.events

  -- Versions start at 1 or above and do not pass the number of positions allocated.
  pub record Fits (counter : ℕ) (entry : Stream D) : Type 0 where
    pub positive : 1 ≤ entry.first_version
    pub counted : entry.first_version + length entry.events ≤ counter + 1

  -- The positions of the global log rise strictly and are at most the counter; every stream has
  -- versions within the counter; and for every stream key the log holds exactly the events of that
  -- stream with their versions, in order.
  pub record IsValid (s : EventStore D) : Type 0 where
    pub ascending : Ascending 0 s.global_log s.global_counter
    pub fits :
        (key : Text) (entry : Stream D)
        → lookup key s.streams ≡ some entry
        → Fits s.global_counter entry
    pub agree : (key : Text) → log_of key s.global_log ≡ numbered (lookup key s.streams)

  pub Ascending-append :
      (lo mid hi : ℕ) (xs ys : List (GlobalLogEntry D))
      → Ascending lo xs mid
      → Ascending mid ys hi
      → Ascending lo (xs ++ ys) hi
  Ascending-append lo mid hi [] [] h k = omega arith
  Ascending-append lo mid hi [] (y ∷ ys) h k = (omega arith, k.1)
  Ascending-append lo mid hi (x ∷ xs) ys h k = (h.0, Ascending-append x.position mid hi xs ys h.1 k)

  pub Ascending-weaken :
      (lo hi hi' : ℕ) (xs : List (GlobalLogEntry D))
      → Ascending lo xs hi
      → hi ≤ hi'
      → Ascending lo xs hi'
  Ascending-weaken lo hi hi' [] h k = omega arith
  Ascending-weaken lo hi hi' (x ∷ xs) h k = (h.0, Ascending-weaken x.position hi hi' xs h.1 k)

  pub log_of-append :
      (key : Text) (xs ys : List (GlobalLogEntry D))
      → log_of key (xs ++ ys) ≡ log_of key xs ++ log_of key ys
  unfolding log_of
  log_of-append key [] ys = refl
  log_of-append key (x ∷ xs) ys = ground (arith, log_of-append key xs ys)

  pub number-append :
      (v : ℕ) (xs ys : List D) → number v (xs ++ ys) ≡ number v xs ++ number (v + length xs) ys
  number-append v [] ys = let e : v + 0 ≡ v = omega arith in rw e
  number-append v (x ∷ xs) ys =
      let e : v + suc (length xs) ≡ v + 1 + length xs = omega arith in
      rw e (ap (λ l. (v, x) ∷ l) (number-append (v + 1) xs ys))

  pub new_event_store-IsValid : IsValid (new_event_store {D = D})
  unfolding lookup log_of
  new_event_store-IsValid = record {
    ascending = omega arith;
    fits = λ key entry e. cc;
    agree = λ key. refl;
  }
