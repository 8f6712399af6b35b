-- ===== src/SignalWeather/Discovery.antt =====
-- `WeatherDiscovery` of weather_engine.py: which candidate of a direction is watched first.
--
-- `fetch` is the answer of the exchange for the book of an asset, none where the request fails.
use poly_strategy.Prelude.{
  ℕ, suc, zero, Bool, false, ◌&&◌, leb, ltb, if◌then◌else◌, Option, none, some, List, [], ◌∷◌, min,
  max,
}
use poly_strategy.OrderBook.Book.{Level, join}
use poly_strategy.SignalWeather.Market.{max_high_certainty_tick, is_certain_price}

-- `MarketCandidate`, with the identifiers of its two assets.
pub record Candidate : Type 0 where
  pub event_slug : ℕ
  pub market_slug : ℕ
  pub yes_id : ℕ
  pub no_id : ℕ

-- A book as the exchange answers it; its tick size is none where it is no number.
pub record HttpBook : Type 0 where
  pub tick : Option ℕ
  pub bids : List Level
  pub asks : List Level

abbrev pub Fetch : Type 0
Fetch = ℕ → Option HttpBook

-- The least and the greatest price of the levels with a size.
unfoldable pub least_price : List Level → Option ℕ
least_price [] = none
least_price (r ∷ rows) =
    let rest = least_price rows in if ltb 0 r.size then join min r.price rest else rest

unfoldable pub greatest_price : List Level → Option ℕ
greatest_price [] = none
greatest_price (r ∷ rows) =
    let rest = greatest_price rows in if ltb 0 r.size then join max r.price rest else rest

-- `_is_high_certainty`
unfoldable pub is_high_certainty : HttpBook → Bool
unfolding least_price greatest_price
is_high_certainty b = elim b.tick [
  | none ↦ false
  | some tick ↦
      leb tick max_high_certainty_tick
      && is_certain_price (least_price b.asks) (greatest_price b.bids)
]

pub data Selection : Type 0 where
  request_failed all_certain : Selection
  selected : (index : ℕ) → Candidate → Selection

unfoldable pub select_by :
    Option HttpBook → (index : ℕ) → Candidate → (rest : Selection) → Selection
unfolding is_high_certainty
select_by none index c rest = Selection.request_failed
select_by (some b) index c rest = if is_high_certainty b then rest else Selection.selected index c

-- The loop of `select_candidate` from the index on.
unfoldable pub select_from : Fetch → (index : ℕ) → List Candidate → Selection
unfolding select_by
select_from fetch index [] = Selection.all_certain
select_from fetch index (c ∷ cs) =
    let rest = select_from fetch (suc index) cs in select_by (fetch c.no_id) index c rest

unfoldable pub drop_candidates : ℕ → List Candidate → List Candidate
drop_candidates zero cs = cs
drop_candidates (suc n) [] = []
drop_candidates (suc n) (c ∷ cs) = drop_candidates n cs

-- `select_candidate`
unfoldable pub select_candidate : Fetch → List Candidate → (start_index : ℕ) → Selection
unfolding select_from drop_candidates
select_candidate fetch cs start_index =
    select_from fetch start_index (drop_candidates start_index cs)

pub data Status : Type 0 where
  discovering monitoring exhausted resolved : Status

-- The status, the index and the candidate that `_expected_direction` answers.
pub record Expected : Type 0 where
  pub status : Status
  pub index : Option ℕ
  pub candidate : Option Candidate

unfoldable pub status_by : Option HttpBook → (index : ℕ) → Candidate → Option Expected
unfolding is_high_certainty
status_by none index c = none
status_by (some b) index c = some (record {
  status = if is_high_certainty b then Status.resolved else Status.monitoring;
  index = some index;
  candidate = some c;
})

unfoldable pub expected_of : Fetch → Selection → Option Expected
unfolding status_by
expected_of fetch Selection.request_failed = none
expected_of fetch Selection.all_certain =
    some (record { status = Status.exhausted; index = none; candidate = none })
expected_of fetch (Selection.selected index c) = status_by (fetch c.yes_id) index c

-- `_expected_direction`; none where a request fails.
unfoldable pub expected_direction : Fetch → List Candidate → (start : ℕ) → Option Expected
unfolding expected_of select_candidate
expected_direction fetch cs start = expected_of fetch (select_candidate fetch cs start)
