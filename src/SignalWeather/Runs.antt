-- ===== src/SignalWeather/Runs.antt =====
-- Runs of a monitor and their timers (weather_engine.py).
use poly_strategy.Prelude.{
  ℕ, ◌≡◌, ◌<◌, refl, ◌∙◌, subst, Bool, true, false, not, ◌&&◌, ◌||◌, ◌==◌, ltb, lt→ltb, Option,
  none, some, List, [], ◌∷◌, arith, is_some, either_way,
}
use poly_strategy.SignalWeather.Market.{Outcome, same_outcome, same_outcome_refl, is_high}
use poly_strategy.SignalWeather.Timers.{
  Mode, Monitor, Task, TaskStatus, state_of, start_confirmation,
}
use poly_strategy.SignalWeather.Tasks.{
  find_task, turn_in, turn_of, check_asset, check_high_certainty, start_monitor, stop_monitor,
}
use poly_strategy.SignalWeather.Monitor.{Message, deliver}
use poly_strategy.SignalWeather.Confirmation.{has_cancelling, find_task-FoundTimed}
use poly_strategy.SignalWeather.Timely.{
  IsTimely, turn_of-IsTimely, check_asset-IsTimely, stop_monitor-IsTimely,
}
use poly_strategy.SignalWeather.Evaluation.{start_confirmation-settled}
use poly_strategy.SignalWeather.Messages.{IsSettled, IsSingle, deliver-IsTimely}
use poly_strategy.SignalWeather.Finished.{
  is_dead, is_old, all_dead, and_split, IsFinished, turn_of-IsFinished, stop_monitor-IsFinished,
  deliver-IsFinished, check_high_certainty-IsFinished,
}
use poly_strategy.SignalWeather.Watched.{touches, deliver-IsWatched}
use poly_strategy.SignalWeather.Lapse.{no_entry-IsFinished}

-- `_promote_next` puts the monitor into the mode "full" and looks at the certainty of both assets.
unfoldable pub promote : Monitor → Monitor
unfolding check_high_certainty
promote m = check_high_certainty (record m { mode = Mode.full })

-- The steps of a monitor.
pub data Runs (m : Monitor) : Monitor → Type 0 where
  here : Runs m m
  message :
      (now : ℕ) (no_first : Bool) (x : Message) (m1 : Monitor)
      → Runs m m1
      → Runs m (deliver now no_first x m1).0
  turn : (id : ℕ) (m1 : Monitor) → Runs m m1 → Runs m (turn_of (find_task id m1.tasks) m1).0
  promoted : (m1 : Monitor) → Runs m m1 → Runs m (promote m1)
  started : (m1 : Monitor) → Runs m m1 → Runs m (start_monitor m1)
  stopped : (m1 : Monitor) → Runs m m1 → Runs m (stop_monitor m1)

-- A run whose messages and promotions come where no cancelled task is left, and whose lists of snapshots
-- name no asset twice.
abbrev pub IsOrderly : (m m' : Monitor) → Runs m m' → Type 0
IsOrderly m m' here = Unit
IsOrderly m m' (message now no_first x m1 run) = IsSettled m1 × IsSingle x m1 × IsOrderly m m1 run
IsOrderly m m' (turn id m1 run) = IsOrderly m m1 run
IsOrderly m m' (promoted m1 run) = IsSettled m1 × IsOrderly m m1 run
IsOrderly m m' (started m1 run) = IsOrderly m m1 run
IsOrderly m m' (stopped m1 run) = IsOrderly m m1 run

check_asset-settled :
    (o p : Outcome) (m : Monitor)
    → has_cancelling p m.tasks ≡ false
    → has_cancelling p (check_asset o m).tasks ≡ false
unfolding check_asset
check_asset-settled o p m h =
    either_way (λ x. has_cancelling p x.tasks ≡ false)
      (is_high (state_of o m).tick (state_of o m).book && not (is_some (state_of o m).confirmation))
      (start_confirmation o (state_of o m).last m) m
      (start_confirmation-settled o p (state_of o m).last m h) h

promote-IsTimely : (m : Monitor) → IsSettled m → IsTimely m → IsTimely (promote m)
unfolding promote check_high_certainty
promote-IsTimely m settled timers =
    let full = record m { mode = Mode.full } in
    check_asset-IsTimely Outcome.no_asset (check_asset Outcome.yes_asset full)
      (check_asset-settled Outcome.yes_asset Outcome.no_asset full (settled Outcome.no_asset))
      (check_asset-IsTimely Outcome.yes_asset full (settled Outcome.yes_asset) timers)

-- The timers stay in order along a run whose messages and promotions come where no cancelled task is
-- left, and whose lists of snapshots name no asset twice: a task that may confirm is the entry of its
-- asset, the entries of the two assets differ, and an asset whose cancelled task has not ended has none.
pub Runs-IsTimely :
    (m m' : Monitor) (run : Runs m m') → IsOrderly m m' run → IsTimely m → IsTimely m'
unfolding start_monitor
Runs-IsTimely m m' here orderly timers = timers
Runs-IsTimely m m' (message now no_first x m1 run) orderly timers =
    deliver-IsTimely now no_first x m1 orderly.0 orderly.1 (Runs-IsTimely m m1 run orderly.2 timers)
Runs-IsTimely m m' (turn id m1 run) orderly timers =
    let before = Runs-IsTimely m m1 run orderly timers in
    turn_of-IsTimely (find_task id m1.tasks) m1 (find_task-FoundTimed id _ _ m1.tasks before.tasks)
      before
Runs-IsTimely m m' (promoted m1 run) orderly timers =
    promote-IsTimely m1 orderly.0 (Runs-IsTimely m m1 run orderly.1 timers)
Runs-IsTimely m m' (started m1 run) orderly timers = Runs-IsTimely m m1 run orderly timers
Runs-IsTimely m m' (stopped m1 run) orderly timers =
    stop_monitor-IsTimely m1 (Runs-IsTimely m m1 run orderly timers)

promote-IsFinished :
    (o : Outcome) (limit : ℕ) (m : Monitor) → IsFinished o limit m → IsFinished o limit (promote m)
unfolding promote
promote-IsFinished o limit m h =
    check_high_certainty-IsFinished o limit (record m { mode = Mode.full })
      (record { below = h.below; dead = h.dead })

Runs-IsFinished :
    (o : Outcome) (limit : ℕ) (m m' : Monitor)
    → IsFinished o limit m
    → Runs m m'
    → IsFinished o limit m'
unfolding start_monitor
Runs-IsFinished o limit m m' h here = h
Runs-IsFinished o limit m m' h (message now no_first x m1 run) =
    deliver-IsFinished o limit now no_first x m1 (Runs-IsFinished o limit m m1 h run)
Runs-IsFinished o limit m m' h (turn id m1 run) =
    turn_of-IsFinished o limit (find_task id m1.tasks) m1 (Runs-IsFinished o limit m m1 h run)
Runs-IsFinished o limit m m' h (promoted m1 run) =
    promote-IsFinished o limit m1 (Runs-IsFinished o limit m m1 h run)
Runs-IsFinished o limit m m' h (started m1 run) =
    let before = Runs-IsFinished o limit m m1 h run in
    record { below = before.below; dead = before.dead }
Runs-IsFinished o limit m m' h (stopped m1 run) =
    stop_monitor-IsFinished o limit m1 (Runs-IsFinished o limit m m1 h run)

-- What is found of dead tasks.
abbrev pub FoundDead : Outcome → (limit : ℕ) → Option Task → Type 0
FoundDead o limit none = Unit
FoundDead o limit (some t) = (not (is_old o limit t) || is_dead t.status) ≡ true

find_task-FoundDead :
    (o : Outcome) (limit id : ℕ) (ts : List Task)
    → all_dead o limit ts ≡ true
    → FoundDead o limit (find_task id ts)
unfolding find_task all_dead
find_task-FoundDead o limit id [] h = tt
find_task-FoundDead o limit id (t ∷ ts) h =
    let hs = and_split (not (is_old o limit t) || is_dead t.status) (all_dead o limit ts) h in
    either_way (FoundDead o limit) (t.id == id) (some t) (find_task id ts) hs.0
      (find_task-FoundDead o limit id ts hs.1)

old_dead : (a b c : Bool) → a ≡ true → b ≡ true → (not (a && b) || c) ≡ true → c ≡ true
old_dead a b c h k l = ground arith

not_some : (entry : Option ℕ) → is_some entry ≡ false → entry ≡ none
not_some none h = refl
not_some (some id) h = ground arith

dead_turn : (s : TaskStatus) (t : Task) (m : Monitor) → is_dead s ≡ true → (turn_in s t m).1 ≡ []
unfolding turn_in
dead_turn TaskStatus.created t m h = ground (arith)
dead_turn TaskStatus.sleeping t m h = ground (arith)
dead_turn TaskStatus.cancelling t m h = refl
dead_turn TaskStatus.aborted t m h = refl

old_turn :
    (t : Task) (m : Monitor) (limit : ℕ)
    → t.id < limit
    → FoundDead t.outcome limit (some t)
    → (turn_of (some t) m).1 ≡ []
unfolding turn_of
old_turn t m limit lt h = dead_turn t.status t m (
    old_dead (same_outcome t.outcome t.outcome) (ltb t.id limit) (is_dead t.status)
      (same_outcome_refl t.outcome) (lt→ltb t.id limit lt) h)

-- A monitor runs in the mode "full", its timers are in order (`IsTimely`), no cancelled task is left, and a
-- message of a book or of changes comes, with no asset twice in a list of snapshots. If it leaves an asset
-- of which it speaks uncertain, then a timer of that asset that was started until then, and is found in
-- any later state, publishes nothing in its turn, whether or not the asset is certain again.
pub lapsed_timers_publish_nothing :
    (now : ℕ) (no_first : Bool) (x : Message) (m m' : Monitor) (t : Task)
    → m.running ≡ true
    → m.mode ≡ Mode.full
    → IsTimely m
    → IsSettled m
    → IsSingle x m
    → touches t.outcome x m ≡ true
    → is_high
        (state_of t.outcome (deliver now no_first x m).0).tick
        (state_of t.outcome (deliver now no_first x m).0).book
      ≡ false
    → Runs (deliver now no_first x m).0 m'
    → find_task t.id m'.tasks ≡ some t
    → t.id < (deliver now no_first x m).0.next_task
    → (turn_of (find_task t.id m'.tasks) m').1 ≡ []
lapsed_timers_publish_nothing now no_first x m m' t running full timers settled single touched
      lapsed run found lt =
    let after = (deliver now no_first x m).0 in
    let no_entry =
      not_some (state_of t.outcome after).confirmation
        (deliver-IsWatched now no_first x t.outcome m running full touched ∙ lapsed) in
    let finished =
      no_entry-IsFinished t.outcome after no_entry
        (deliver-IsTimely now no_first x m settled single timers) in
    let later = Runs-IsFinished t.outcome after.next_task after m' finished run in
    rw found (
      old_turn t m' after.next_task lt (
        subst (FoundDead t.outcome after.next_task) found
          (find_task-FoundDead t.outcome after.next_task t.id m'.tasks later.dead)))
