-- ===== src/SignalWeather/DirectionTests.antt =====
-- A direction of weather_engine.py with two candidates, through the end of the first market.
use poly_strategy.Prelude.{◌≡◌, refl, none, some, List, [], ◌∷◌}
use poly_strategy.SignalWeather.Timers.{EventType}
use poly_strategy.SignalWeather.Discovery.{expected_direction, Candidate, Fetch, Status}
use poly_strategy.SignalWeather.Directions.{set_direction, Direction, idle}
use poly_strategy.SignalWeather.Events.{Input, direct_all}
use poly_strategy.SignalWeather.Coordination.{IsCoordinated}
use poly_strategy.SignalWeather.Handlers.{direct_all-IsCoordinated}
use poly_strategy.SignalWeather.Registration.{registered_after}
use poly_strategy.SignalWeather.Leaks.{registered_are_held}

abbrev first_candidate : Candidate
first_candidate = record { event_slug = 7; market_slug = 70; yes_id = 1; no_id = 2 }

abbrev second_candidate : Candidate
second_candidate = record { event_slug = 7; market_slug = 71; yes_id = 3; no_id = 4 }

-- Every book is open: an ask of 0.5.
abbrev open_books : Fetch
open_books asset_id =
    some (record { tick = some 100; bids = []; asks = record { price = 5000; size = 1 } ∷ [] })

abbrev undiscovered : Direction
undiscovered = record { state = idle [] Status.discovering none; next_id = 0 }

abbrev inputs : List Input
inputs =
    Input.new_plan open_books (first_candidate ∷ second_candidate ∷ [])
    ∷ Input.event EventType.no_longer_possible 70
    ∷ []

direct_all-IsCoordinated_example : IsCoordinated (direct_all inputs undiscovered).0.state
direct_all-IsCoordinated_example =
    direct_all-IsCoordinated inputs undiscovered (record { no_main = refl; no_next = refl })

registered_are_held_example : registered_after (direct_all inputs undiscovered).1 [] ≡ 1 ∷ []
unfolding direct_all expected_direction set_direction
registered_are_held_example =
    registered_are_held inputs undiscovered
      (record { main_below = tt; next_below = tt; apart = tt })
