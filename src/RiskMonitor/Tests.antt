-- ===== src/RiskMonitor/Tests.antt =====
-- A risk monitor at concrete inputs (risk_monitor.py), with prices in cents and a ratio in percent.
use poly_strategy.Prelude.{◌≡◌, refl, true, not, none, some, List, [], ◌∷◌, arith}
use poly_strategy.RiskMonitor.{Monitor, new_monitor, start_monitor, double_mid_of}
use poly_strategy.RiskMonitor.Trigger.{Event, replay, any_low, count_of, risk_triggers_once}

abbrev monitor : Monitor
monitor = new_monitor 60 true true

abbrev events : List Event
events = Event.bbo (some 90) (some 92) ∷ Event.tick 1 ∷ Event.bbo none (some 50) ∷ []

events_are_low : any_low 100 100 60 187 events ≡ true
events_are_low = refl

risk_triggers_once_example :
    let (m', n) = replay 100 100 1 events (start_monitor 5 (some 93) (some 94) monitor) in
    let low = any_low 100 100 monitor.ratio 187 events in
    (n ≡ count_of low) × (m'.triggered ≡ low) × (m'.active ≡ not low)
unfolding new_monitor double_mid_of
risk_triggers_once_example =
    risk_triggers_once 100 100 1 5 187 (some 93) (some 94) events monitor refl refl (omega arith)
