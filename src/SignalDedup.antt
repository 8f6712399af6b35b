-- ===== src/SignalDedup.antt =====
-- backend/src/framework/strategy_runtime/signal_dedup.py: `TTLDeduplicator`.
--
-- Keys are numbers, since they are only compared; times are numbers of one unit, read from the clock
-- by the caller of `is_duplicate` here. The ordered dictionary lists its oldest entry first. An age
-- `now - t` below zero, after the clock went back, is no more than any time to live, and is 0 here.
pub mod Window
mod Tests
use poly_strategy.Prelude.{
  ℕ, ◌-◌, Bool, true, false, List, [], ◌∷◌, Dict, insert, contains, ltb, if◌then◌else◌, length,
}

pub record Deduplicator : Type 0 where
  pub seen : Dict ℕ
  pub ttl : ℕ
  pub max_size : ℕ

-- `TTLDeduplicator(ttl_sec, max_size)`
unfoldable pub new_deduplicator : ℕ → ℕ → Deduplicator
new_deduplicator ttl max_size = record { seen = []; ttl = ttl; max_size = max_size }

-- `_evict`: the loop stops at the first entry that is young enough.
unfoldable pub evict : (ttl now : ℕ) → Dict ℕ → Dict ℕ
evict ttl now [] = []
evict ttl now ((k, t) ∷ rest) =
    let later = evict ttl now rest in if ltb ttl (now - t) then later else (k, t) ∷ rest

-- `popitem(last=False)`
unfoldable pub drop_oldest : Dict ℕ → Dict ℕ
drop_oldest [] = []
drop_oldest (e ∷ rest) = rest

-- `is_duplicate` at the time `now`.
unfoldable pub is_duplicate : (now key : ℕ) → Deduplicator → Deduplicator × Bool
unfolding evict drop_oldest
is_duplicate now key d =
    let kept = evict d.ttl now d.seen in
    if contains key kept
    then (record d { seen = kept }, true)
    else let added = insert key now kept in
      (
        record d { seen = if ltb d.max_size (length added) then drop_oldest added else added },
        false,
      )
