-- ===== src/SignalDedup/Tests.antt =====
-- The deduplicator of signal_dedup.py at a few calls.
use poly_strategy.Prelude.{◌≡◌, refl, [], ◌∷◌, arith, lookup}
use poly_strategy.SignalDedup.{Deduplicator, is_duplicate}
use poly_strategy.SignalDedup.Window.{IsValid, is_recent, is_duplicate_exact}

abbrev two_keys : Deduplicator
two_keys = record { seen = (5, 100) ∷ (6, 250) ∷ []; ttl = 300; max_size = 2 }

two_keys-IsValid : IsValid 300 two_keys
unfolding lookup
two_keys-IsValid = record {
  once = (refl, (refl, tt));
  ordered = omega arith;
  bounded = omega arith;
}

is_duplicate_exact_example :
    (is_duplicate 300 6 two_keys).1 ≡ is_recent 300 300 (lookup 6 two_keys.seen)
is_duplicate_exact_example = is_duplicate_exact 300 6 two_keys two_keys-IsValid
