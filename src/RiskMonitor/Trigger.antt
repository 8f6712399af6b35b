-- ===== src/RiskMonitor/Trigger.antt =====
-- When the risk monitor triggers (risk_monitor.py).
use poly_strategy.Prelude.{
  ℕ, ◌+◌, ◌≡◌, ◌<◌, refl, Bool, true, false, not, ◌||◌, Option, none, some, List, [], ◌∷◌, arith,
  ◌==◌,
}
use poly_strategy.RiskMonitor.{
  Monitor, Task, price_or, is_below, check_mid, on_bbo, on_tick, check_tick, start_monitor,
  start_at, double_mid_of,
}

-- What an active monitor is told: best prices, tick sizes of the channel and answers of the tick-size
-- service.
pub data Event : Type 0 where
  bbo : (best_bid best_ask : Option ℕ) → Event
  tick : (tick_size : ℕ) → Event
  tick_answer : Option ℕ → Event

unfoldable pub on_event : (scale one fine : ℕ) → Event → Monitor → Monitor × List Task
unfolding on_bbo on_tick check_tick
on_event scale one fine (Event.bbo b a) m = on_bbo scale one b a m
on_event scale one fine (Event.tick n) m = on_tick n m
on_event scale one fine (Event.tick_answer n) m = check_tick fine n m

-- How often a list of tasks starts the trigger's callback.
abbrev pub triggers_in : List Task → ℕ
triggers_in [] = 0
triggers_in (Task.trigger_started ∷ ts) = 1 + triggers_in ts
triggers_in (Task.tick_change_started n ∷ ts) = triggers_in ts

-- The state after the events and how often the callback was started.
unfoldable pub replay : (scale one fine : ℕ) → List Event → Monitor → Monitor × ℕ
unfolding on_event
replay scale one fine [] m = (m, 0)
replay scale one fine (e ∷ es) m =
    let (m', tasks) = on_event scale one fine e m in
    let (m'', n) = replay scale one fine es m' in (m'', triggers_in tasks + n)

-- An event whose mid price is at or below the threshold; a missing bid counts as 0 and a missing ask as
-- 1.
abbrev pub is_low : (scale one ratio reference : ℕ) → Event → Bool
is_low scale one ratio reference (Event.bbo b a) =
    is_below scale ratio reference (price_or 0 b) (price_or one a)
is_low scale one ratio reference (Event.tick n) = false
is_low scale one ratio reference (Event.tick_answer n) = false

abbrev pub any_low : (scale one ratio reference : ℕ) → List Event → Bool
any_low scale one ratio reference [] = false
any_low scale one ratio reference (e ∷ es) =
    is_low scale one ratio reference e || any_low scale one ratio reference es

abbrev pub count_of : Bool → ℕ
count_of true = 1
count_of false = 0

-- A monitor that is not active stays as it is and starts no trigger.
on_event-inactive :
    (scale one fine : ℕ) (e : Event) (m : Monitor)
    → m.active ≡ false
    → ((on_event scale one fine e m).0 ≡ m) × (triggers_in (on_event scale one fine e m).1 ≡ 0)
unfolding on_event
on_event-inactive scale one fine (Event.bbo b a) m h = rw h (refl, refl)
on_event-inactive scale one fine (Event.tick n) m h = ground arith
on_event-inactive scale one fine (Event.tick_answer none) m h = (refl, refl)
on_event-inactive scale one fine (Event.tick_answer (some n)) m h = ground arith

replay-inactive :
    (scale one fine : ℕ) (es : List Event) (m : Monitor)
    → m.active ≡ false
    → replay scale one fine es m ≡ (m, 0)
unfolding replay
replay-inactive scale one fine [] m h = refl
replay-inactive scale one fine (e ∷ es) m h =
    let quiet = on_event-inactive scale one fine e m h in
    rw (quiet.0, quiet.1) (rw (replay-inactive scale one fine es m h) refl)

-- A monitor that has just been started at a doubled mid price.
abbrev watching : (token_id mid : ℕ) → Monitor → Monitor
watching token_id mid m = record m {
  token_id = some token_id;
  double_reference_mid = some mid;
  active = true;
  triggered = false;
  subscribed = true;
}

watching_triggers :
    (scale one fine k mid : ℕ) (es : List Event) (m : Monitor)
    → m.has_on_trigger ≡ true
    → let (m', n) = replay scale one fine es (watching k mid m) in
      let low = any_low scale one m.ratio mid es in
      (n ≡ count_of low) × (m'.triggered ≡ low) × (m'.active ≡ not low)
unfolding replay on_event on_bbo on_tick check_tick check_mid
watching_triggers scale one fine k mid [] m on = (refl, refl, refl)
watching_triggers scale one fine k mid (Event.bbo b a ∷ es) m on =
    let bid = price_or 0 b in
    let ask = price_or one a in
    let done = record (watching k mid m) {
      triggered = true;
      active = false;
      trigger_bbo = some (bid, ask);
    } in
    ground (
      arith,
      replay-inactive scale one fine es done refl,
      watching_triggers scale one fine k mid es m on,
    )
watching_triggers scale one fine k mid (Event.tick n ∷ es) m on =
    ground (arith, watching_triggers scale one fine k mid es m on)
watching_triggers scale one fine k mid (Event.tick_answer none ∷ es) m on =
    ground (arith, watching_triggers scale one fine k mid es m on)
watching_triggers scale one fine k mid (Event.tick_answer (some n) ∷ es) m on =
    ground (arith, watching_triggers scale one fine k mid es m on)

not_zero : (n : ℕ) → 0 < n → (n == 0) ≡ false
not_zero n h = ground arith

-- Started on a snapshot with a mid price above zero, a monitor with a callback starts it exactly once
-- if any of the best prices that follow has a mid price at or below the stop-loss ratio of the
-- snapshot's, and never otherwise, whatever tick sizes come between; it has triggered in the first case
-- and is still active in the second.
pub risk_triggers_once :
    (scale one fine k mid : ℕ) (b a : Option ℕ) (es : List Event) (m : Monitor)
    → m.has_on_trigger ≡ true
    → double_mid_of b a ≡ some mid
    → 0 < mid
    → let (m', n) = replay scale one fine es (start_monitor k b a m) in
      let low = any_low scale one m.ratio mid es in
      (n ≡ count_of low) × (m'.triggered ≡ low) × (m'.active ≡ not low)
unfolding start_monitor start_at
risk_triggers_once scale one fine k mid b a es m on snapshot pos =
    rw (snapshot, not_zero mid pos) (watching_triggers scale one fine k mid es m on)
