-- ===== src/SignalWeather/Coordination.antt =====
-- Which monitors a direction holds (weather_engine.py).
use poly_strategy.Prelude.{ℕ, suc, ◌≡◌, refl, ap, Bool, true, Option, none, some, get_elem?}
use poly_strategy.SignalWeather.Market.{Outcome, Snapshot}
use poly_strategy.SignalWeather.Timers.{
  Mode, Monitor, AssetState, Task, TaskStatus, with_state, start_confirmation, cancel_confirmation,
}
use poly_strategy.SignalWeather.Tasks.{turn_of, turn_in, wake, end_task}
use poly_strategy.SignalWeather.Monitor.{Message}
use poly_strategy.SignalWeather.Stable.{deliver_keeps, check_high_certainty_keeps}
use poly_strategy.SignalWeather.Runs.{promote}
use poly_strategy.SignalWeather.Discovery.{Candidate, Status}
use poly_strategy.SignalWeather.Directions.{Watch, DirectionState}
use poly_strategy.SignalWeather.Events.{map_watch, messaged}

-- A running monitor of the candidate.
pub record IsWatching (mode : Mode) (c : Candidate) (w : Watch) : Type 0 where
  pub candidate : w.candidate ≡ c
  pub moded : w.monitor.mode ≡ mode
  pub running : w.monitor.running ≡ true

abbrev pub IsMain : Option Watch → Candidate → Type 0
IsMain none c = ⊥
IsMain (some w) c = IsWatching Mode.full c w

abbrev pub IsNext : Option Watch → Option Candidate → Type 0
IsNext none none = Unit
IsNext (some w) (some c) = IsWatching Mode.sweep_only c w
IsNext _ _ = ⊥

-- The main monitor is of the candidate of the index, and the next one of the candidate after it.
pub record IsMonitoring (s : DirectionState) : Type 0 where
  pub index : ℕ
  pub candidate : Candidate
  pub at : s.index ≡ some index
  pub listed : get_elem? s.candidates index ≡ some candidate
  pub main : IsMain s.main_monitor candidate
  pub next : IsNext s.next_monitor (get_elem? s.candidates (suc index))

pub record IsIdle (s : DirectionState) : Type 0 where
  pub no_main : s.main_monitor ≡ none
  pub no_next : s.next_monitor ≡ none

abbrev pub FitsStatus : Status → DirectionState → Type 0
FitsStatus Status.monitoring s = IsMonitoring s
FitsStatus _ s = IsIdle s

abbrev pub IsCoordinated : DirectionState → Type 0
IsCoordinated s = FitsStatus s.status s

-- What the messages and turns keep of a monitor.
pub record KeepsMode (mode : Mode) (m : Monitor) : Type 0 where
  pub moded : m.mode ≡ mode
  pub running : m.running ≡ true

with_state-KeepsMode :
    (mode : Mode) (o : Outcome) (s : AssetState) (m : Monitor)
    → KeepsMode mode m
    → KeepsMode mode (with_state o s m)
with_state-KeepsMode mode Outcome.yes_asset s m h = record { moded = h.moded; running = h.running }
with_state-KeepsMode mode Outcome.no_asset s m h = record { moded = h.moded; running = h.running }

start_confirmation-KeepsMode :
    (mode : Mode) (o : Outcome) (before : Option Snapshot) (m : Monitor)
    → KeepsMode mode m
    → KeepsMode mode (start_confirmation o before m)
unfolding start_confirmation
start_confirmation-KeepsMode mode o before m h =
    with_state-KeepsMode mode o _ _ (record { moded = h.moded; running = h.running })

cancel_confirmation-KeepsMode :
    (mode : Mode) (o : Outcome) (id : ℕ) (m : Monitor)
    → KeepsMode mode m
    → KeepsMode mode (cancel_confirmation o id m)
unfolding cancel_confirmation
cancel_confirmation-KeepsMode mode o id m h =
    with_state-KeepsMode mode o _ _ (record { moded = h.moded; running = h.running })

end_task-KeepsMode :
    (mode : Mode) (o : Outcome) (id : ℕ) (m : Monitor)
    → KeepsMode mode m
    → KeepsMode mode (end_task o id m)
unfolding end_task
end_task-KeepsMode mode o id m h =
    with_state-KeepsMode mode o _ _ (record { moded = h.moded; running = h.running })

turn_in-KeepsMode :
    (mode : Mode) (s : TaskStatus) (t : Task) (m : Monitor)
    → KeepsMode mode m
    → KeepsMode mode (turn_in s t m).0
unfolding turn_in wake
turn_in-KeepsMode mode TaskStatus.created t m h = record { moded = h.moded; running = h.running }
turn_in-KeepsMode mode TaskStatus.sleeping t m h = end_task-KeepsMode mode t.outcome t.id m h
turn_in-KeepsMode mode TaskStatus.cancelling t m h = end_task-KeepsMode mode t.outcome t.id m h
turn_in-KeepsMode mode TaskStatus.aborted t m h = record { moded = h.moded; running = h.running }

pub turn_of-KeepsMode :
    (mode : Mode) (found : Option Task) (m : Monitor)
    → KeepsMode mode m
    → KeepsMode mode (turn_of found m).0
unfolding turn_of
turn_of-KeepsMode mode none m h = h
turn_of-KeepsMode mode (some t) m h = turn_in-KeepsMode mode t.status t m h

pub messaged-KeepsMode :
    (mode : Mode) (now : ℕ) (no_first : Bool) (x : Message) (m : Monitor)
    → KeepsMode mode m
    → KeepsMode mode (messaged now no_first x m)
messaged-KeepsMode mode =
    deliver_keeps (KeepsMode mode) (with_state-KeepsMode mode) (start_confirmation-KeepsMode mode)
      (cancel_confirmation-KeepsMode mode)

pub promote-KeepsMode :
    (mode : Mode) (m : Monitor) → KeepsMode mode m → KeepsMode Mode.full (promote m)
unfolding promote
promote-KeepsMode mode m h =
    check_high_certainty_keeps (KeepsMode Mode.full) (with_state-KeepsMode Mode.full)
      (start_confirmation-KeepsMode Mode.full) (cancel_confirmation-KeepsMode Mode.full)
      (record m { mode = Mode.full }) (record { moded = refl; running = h.running })

-- A monitor that moves, moves as a monitor of its candidate.
module _ (f : Monitor → Monitor)
    (kept : (mode : Mode) (m : Monitor) → KeepsMode mode m → KeepsMode mode (f m)) where
  moved-IsWatching :
      (mode : Mode) (c : Candidate) (w : Watch)
      → IsWatching mode c w
      → IsWatching mode c (record w { monitor = f w.monitor })
  moved-IsWatching mode c w h =
      let k = kept mode w.monitor (record { moded = h.moded; running = h.running }) in
      record { candidate = h.candidate; moded = k.moded; running = k.running }

  moved-IsMain : (main : Option Watch) (c : Candidate) → IsMain main c → IsMain (map_watch f main) c
  moved-IsMain none c h = h
  moved-IsMain (some w) c h = moved-IsWatching Mode.full c w h

  moved-IsNext :
      (next : Option Watch) (c : Option Candidate) → IsNext next c → IsNext (map_watch f next) c
  moved-IsNext none none h = h
  moved-IsNext none (some c) h = h
  moved-IsNext (some w) none h = h
  moved-IsNext (some w) (some c) h = moved-IsWatching Mode.sweep_only c w h

  moved-none : (w : Option Watch) → w ≡ none → map_watch f w ≡ none
  moved-none w e = ap (map_watch f) e

  pub on_main-FitsStatus :
      (status : Status) (s : DirectionState)
      → FitsStatus status s
      → FitsStatus status (record s { main_monitor = map_watch f s.main_monitor })
  on_main-FitsStatus Status.monitoring s h = record {
    index = h.index;
    candidate = h.candidate;
    at = h.at;
    listed = h.listed;
    main = moved-IsMain s.main_monitor h.candidate h.main;
    next = h.next;
  }
  on_main-FitsStatus Status.discovering s h = record {
    no_main = moved-none s.main_monitor h.no_main;
    no_next = h.no_next;
  }
  on_main-FitsStatus Status.exhausted s h = record {
    no_main = moved-none s.main_monitor h.no_main;
    no_next = h.no_next;
  }
  on_main-FitsStatus Status.resolved s h = record {
    no_main = moved-none s.main_monitor h.no_main;
    no_next = h.no_next;
  }

  pub on_next-FitsStatus :
      (status : Status) (s : DirectionState)
      → FitsStatus status s
      → FitsStatus status (record s { next_monitor = map_watch f s.next_monitor })
  on_next-FitsStatus Status.monitoring s h = record {
    index = h.index;
    candidate = h.candidate;
    at = h.at;
    listed = h.listed;
    main = h.main;
    next = moved-IsNext s.next_monitor (get_elem? s.candidates (suc h.index)) h.next;
  }
  on_next-FitsStatus Status.discovering s h = record {
    no_main = h.no_main;
    no_next = moved-none s.next_monitor h.no_next;
  }
  on_next-FitsStatus Status.exhausted s h = record {
    no_main = h.no_main;
    no_next = moved-none s.next_monitor h.no_next;
  }
  on_next-FitsStatus Status.resolved s h = record {
    no_main = h.no_main;
    no_next = moved-none s.next_monitor h.no_next;
  }
