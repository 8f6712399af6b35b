-- ===== src/StopLoss/Tests.antt =====
-- The monitor of stop_loss.py at a few books.
use poly_strategy.Prelude.{
  ◌≡◌, refl, true, not, none, some, List, [], ◌∷◌, Option, ℕ, if◌then◌else◌,
}
use poly_strategy.StopLoss.{new_monitor, start, check_all, falls_through, triggers_once}

-- Entry at 990 with ratio 60 of 100: the threshold is 594.
abbrev bids : List (Option ℕ)
bids = some 700 ∷ none ∷ some 594 ∷ some 100 ∷ []

triggers_once_example :
    let (m', times) = check_all 100 bids (start 990 (new_monitor 60 true)) in
    let hit = falls_through 100 990 60 bids in
    (times ≡ (if hit then 1 else 0)) × (m'.triggered ≡ hit) × (m'.active ≡ not hit)
unfolding new_monitor
triggers_once_example = triggers_once 100 990 bids (new_monitor 60 true) refl
