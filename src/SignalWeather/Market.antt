-- ===== src/SignalWeather/Market.antt =====
-- What a monitor of weather_engine.py reads of its two books: certainty, prices and sweeps.
use poly_strategy.Prelude.{
  ℕ, ◌≡◌, ◌⊎◌, refl, inl, inr, ◌+◌, Bool, true, false, ◌&&◌, ◌||◌, not, ltb, leb, ◌==◌,
  if◌then◌else◌, Option, none, some, List, [], ◌∷◌, Dict, lookup, length,
}
use poly_strategy.OrderBook.Book.{LocalOrderBook, best_bid_of, best_ask_of}

-- `WeatherAsset.outcome`
pub data Outcome : Type 0 where
  yes_asset no_asset : Outcome

abbrev pub same_outcome : Outcome → Outcome → Bool
same_outcome Outcome.yes_asset Outcome.yes_asset = true
same_outcome Outcome.no_asset Outcome.no_asset = true
same_outcome _ _ = false

abbrev pub other_outcome : Outcome → Outcome
other_outcome Outcome.yes_asset = Outcome.no_asset
other_outcome Outcome.no_asset = Outcome.yes_asset

pub outcome_either : (o p : Outcome) → (p ≡ o) ⊎ (p ≡ other_outcome o)
outcome_either Outcome.yes_asset Outcome.yes_asset = inl refl
outcome_either Outcome.yes_asset Outcome.no_asset = inr refl
outcome_either Outcome.no_asset Outcome.yes_asset = inr refl
outcome_either Outcome.no_asset Outcome.no_asset = inl refl

pub other_other : (o : Outcome) → other_outcome (other_outcome o) ≡ o
other_other Outcome.yes_asset = refl
other_other Outcome.no_asset = refl

pub same_outcome_refl : (o : Outcome) → same_outcome o o ≡ true
same_outcome_refl Outcome.yes_asset = refl
same_outcome_refl Outcome.no_asset = refl

-- `MAX_HIGH_CERTAINTY_TICK`, `MIN_HIGH_CERTAINTY_ASK`, `MIN_HIGH_CERTAINTY_BID_WITH_ASK`
abbrev pub max_high_certainty_tick : ℕ
max_high_certainty_tick = 10

abbrev pub min_high_certainty_ask : ℕ
min_high_certainty_ask = 9990

abbrev pub min_high_certainty_bid_with_ask : ℕ
min_high_certainty_bid_with_ask = 9950

-- `SWEEP_ASK_THRESHOLDS` and `SWEEP_TICK_SIZE`
abbrev pub sweep_ask_thresholds : List ℕ
sweep_ask_thresholds = 9900 ∷ 9800 ∷ []

abbrev pub sweep_tick_size : ℕ
sweep_tick_size = 100

-- A level of a book with its size.
abbrev pub level_at : Option ℕ → Dict ℕ → Option (ℕ × ℕ)
level_at none levels = none
level_at (some price) levels = elim (lookup price levels) [
  | none ↦ none
  | some size ↦ some (price, size)
]

-- `top_of_book` with the time of the observation.
pub record Snapshot : Type 0 where
  pub best_bid : Option (ℕ × ℕ)
  pub best_ask : Option (ℕ × ℕ)
  pub bid_levels : ℕ
  pub ask_levels : ℕ
  pub observed_at : ℕ

unfoldable pub top_of_book : (now : ℕ) → LocalOrderBook → Snapshot
top_of_book now book = record {
  best_bid = level_at (best_bid_of book.bids) book.bids;
  best_ask = level_at (best_ask_of book.asks) book.asks;
  bid_levels = length book.bids;
  ask_levels = length book.asks;
  observed_at = now;
}

-- The bid and ask part of the test for high certainty.
abbrev pub is_certain_price : (best_ask best_bid : Option ℕ) → Bool
is_certain_price none best_bid = true
is_certain_price (some ask) none = false
is_certain_price (some ask) (some bid) =
    leb min_high_certainty_ask ask && leb min_high_certainty_bid_with_ask bid

-- `_high` of the monitor: the tick size is the finest.
unfoldable pub is_high : (tick : Option ℕ) → LocalOrderBook → Bool
unfolding best_bid_of best_ask_of
is_high none book = false
is_high (some tick) book =
    tick == max_high_certainty_tick
    && is_certain_price (best_ask_of book.asks) (best_bid_of book.bids)

-- `_reference_price`, doubled.
unfoldable pub double_reference : (best_ask best_bid : Option ℕ) → Option ℕ
double_reference (some ask) (some bid) = some (ask + bid)
double_reference (some ask) none = some (ask + ask)
double_reference none (some bid) = some (bid + bid)
double_reference none none = none

unfoldable pub reference_of : LocalOrderBook → Option ℕ
unfolding double_reference best_bid_of best_ask_of
reference_of book = double_reference (best_ask_of book.asks) (best_bid_of book.bids)

-- `_higher_probability_asset` of the reference prices.
unfoldable pub higher_probability : (yes_price no_price : Option ℕ) → Option Outcome
higher_probability (some y) (some n) =
    if y == n then none else if ltb n y then some Outcome.yes_asset else some Outcome.no_asset
higher_probability _ _ = none

-- `favored_outcome`: the first asset where both prices are equal.
unfoldable pub favored_outcome : (yes_price no_price : Option ℕ) → Option Outcome
favored_outcome (some y) (some n) =
    if ltb y n then some Outcome.no_asset else some Outcome.yes_asset
favored_outcome _ _ = none

-- `any(price <= threshold and size > 0 for ...)`
unfoldable pub has_ask_through : (threshold : ℕ) → Dict ℕ → Bool
has_ask_through threshold [] = false
has_ask_through threshold ((price, size) ∷ rest) =
    (leb price threshold && ltb 0 size) || has_ask_through threshold rest

-- The first threshold through which all asks went away.
unfoldable pub swept_threshold : List ℕ → (previous_asks asks : Dict ℕ) → Option ℕ
unfolding has_ask_through
swept_threshold [] previous_asks asks = none
swept_threshold (t ∷ ts) previous_asks asks =
    let later = swept_threshold ts previous_asks asks in
    if has_ask_through t previous_asks && not (has_ask_through t asks) then some t else later

-- The test of `_check_bbo_drift` on one side; the comparison of the floats with its tolerance is exact
-- here.
abbrev pub differs : (local server : Option ℕ) → Bool
differs (some l) (some s) = not (l == s)
differs _ _ = false
