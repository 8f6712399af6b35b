-- ===== src/StopLoss.antt =====
-- backend/src/framework/strategy_runtime/stop_loss.py: `StopLossMonitor`.
--
-- Prices are numbers of one unit; the ratio counts units of 1/`ratio_unit`. A callback that is
-- registered is a flag, and `check` says whether it was started.
use poly_strategy.Prelude.{
  ℕ, ◌+◌, ◌*◌, ◌≡◌, refl, Bool, true, false, not, ◌&&◌, ◌||◌, Option, none, some, List, [], ◌∷◌,
  arith, leb, if◌then◌else◌, Bool-cases, inl, inr,
}
mod Tests

pub record StopLossMonitor : Type 0 where
  pub ratio : ℕ
  pub on_trigger : Bool
  pub entry_price : Option ℕ
  pub active : Bool
  pub triggered : Bool

-- `StopLossMonitor(ratio, on_trigger)`
unfoldable pub new_monitor : ℕ → Bool → StopLossMonitor
new_monitor ratio on_trigger = record {
  ratio = ratio;
  on_trigger = on_trigger;
  entry_price = none;
  active = false;
  triggered = false;
}

unfoldable pub start : ℕ → StopLossMonitor → StopLossMonitor
start entry_price m = record m { entry_price = some entry_price; active = true; triggered = false }

unfoldable pub stop : StopLossMonitor → StopLossMonitor
stop m = record m { active = false }

-- `check` from the threshold on.
unfoldable pub check_against :
    (ratio_unit entry_price best_bid : ℕ) → StopLossMonitor → StopLossMonitor × Bool
check_against ratio_unit entry_price best_bid m =
    if leb (best_bid * ratio_unit) (entry_price * m.ratio)
    then (record m { triggered = true; active = false }, m.on_trigger)
    else (m, false)

unfoldable pub check_prices : ℕ → Option ℕ → Option ℕ → StopLossMonitor → StopLossMonitor × Bool
unfolding check_against
check_prices ratio_unit (some entry_price) (some best_bid) m =
    check_against ratio_unit entry_price best_bid m
check_prices ratio_unit entry_price best_bid m = (m, false)

-- `check`, for a book whose `best_bid` may be missing.
unfoldable pub check : ℕ → Option ℕ → StopLossMonitor → StopLossMonitor × Bool
unfolding check_prices
check ratio_unit best_bid m =
    if not m.active || m.triggered
    then (m, false)
    else check_prices ratio_unit m.entry_price best_bid m

-- One book after another: the monitor and how often the callback was started.
unfoldable pub check_all : ℕ → List (Option ℕ) → StopLossMonitor → StopLossMonitor × ℕ
unfolding check
check_all ratio_unit [] m = (m, 0)
check_all ratio_unit (b ∷ bs) m =
    let (m', fired) = check ratio_unit b m in
    let (m'', times) = check_all ratio_unit bs m' in (m'', if fired then times + 1 else times)

-- Some book's best bid is at or below the threshold.
abbrev pub falls_through : ℕ → ℕ → ℕ → List (Option ℕ) → Bool
falls_through ratio_unit entry_price ratio [] = false
falls_through ratio_unit entry_price ratio (none ∷ bs) =
    falls_through ratio_unit entry_price ratio bs
falls_through ratio_unit entry_price ratio (some b ∷ bs) =
    leb (b * ratio_unit) (entry_price * ratio) || falls_through ratio_unit entry_price ratio bs

-- A monitor that is not active, or has triggered, stays as it is.
check_all_done :
    (u : ℕ) (bs : List (Option ℕ)) (m : StopLossMonitor)
    → (not m.active || m.triggered) ≡ true
    → check_all u bs m ≡ (m, 0)
unfolding check_all
check_all_done u [] m h = refl
check_all_done u (b ∷ bs) m h = ground (arith, check_all_done u bs m h)

-- Once started at an entry price, a monitor with a callback starts it exactly once if any of the
-- books that follow has a best bid at or below entry price times ratio, and never otherwise; it has
-- triggered in the first case and is still active in the second.
pub triggers_once :
    (u e : ℕ) (bs : List (Option ℕ)) (m : StopLossMonitor)
    → m.on_trigger ≡ true
    → let (m', times) = check_all u bs (start e m) in
      let hit = falls_through u e m.ratio bs in
      (times ≡ (if hit then 1 else 0)) × (m'.triggered ≡ hit) × (m'.active ≡ not hit)
unfolding check_all start check_against
triggers_once u e [] m on = (refl, refl, refl)
triggers_once u e (none ∷ bs) m on = triggers_once u e bs m on
triggers_once u e (some b ∷ bs) m on = ground (
  arith,
  check_all_done u bs (record m { entry_price = some e; active = false; triggered = true }),
  triggers_once u e bs m on,
)
