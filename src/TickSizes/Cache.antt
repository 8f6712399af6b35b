-- ===== src/TickSizes/Cache.antt =====
-- What the cache of tick sizes answers (tick_size_service.py).
use poly_strategy.Prelude.{
  ℕ, ◌-◌, ◌≤◌, ◌≡◌, refl, Option, none, some, lookup, erase, lookup-insert, lookup-erase, le→leb,
  ==_refl, arith,
}
use poly_strategy.TickSizes.{TickCache, fetch, store, refresh, young, get_or, get, invalidate}
use poly_strategy.TickSizes.Consensus.{store-answer}

store-lookup :
    (k now : ℕ) (o : Option ℕ) (cache : TickCache) (n : ℕ)
    → o ≡ some n
    → lookup k (store k now o cache).0 ≡ some (record { tick_size = n; at = now })
unfolding store
store-lookup k now none cache n e = cc
store-lookup k now (some m) cache n e =
    ground (arith, ==_refl k, lookup-insert k k (record { tick_size = m; at = now }) cache)

-- A tick size that a refresh has fetched is what `get` answers at every later time within the maximal
-- age, without another request, and it leaves the cache as it is.
pub get-refresh :
    (k at now locked answered max_age n : ℕ) (fetched unused : ℕ → Option ℕ) (cache : TickCache)
    → fetch fetched ≡ some n
    → now - at ≤ max_age
    → let cache' = (refresh k at fetched cache).0 in
      get max_age k now locked answered unused cache' ≡ (cache', some n)
unfolding refresh get young get_or
get-refresh k at now locked answered max_age n fetched unused cache e h =
    rw (store-lookup k at (fetch fetched) cache n e, le→leb (now - at) max_age h) refl

gone : (k : ℕ) (cache : TickCache) → lookup k (erase k cache) ≡ none
gone k cache = ground (arith, ==_refl k, lookup-erase k k cache)

-- After an invalidation, `get` answers nothing but what a new request gives: the first valid one of
-- three answers, or a failure.
pub get-invalidate :
    (max_age k now locked answered : ℕ) (answers : ℕ → Option ℕ) (cache : TickCache)
    → (get max_age k now locked answered answers (invalidate k cache)).1 ≡ fetch answers
unfolding get young get_or invalidate refresh
get-invalidate max_age k now locked answered answers cache =
    rw (gone k cache) (store-answer k answered (fetch answers) (erase k cache))
