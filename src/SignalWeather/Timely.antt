-- ===== src/SignalWeather/Timely.antt =====
-- The invariant of a monitor's timers: one timer per asset may confirm, and it is the asset's entry.
use poly_strategy.Prelude.{
  ℕ, suc, ◌<◌, ◌≡◌, ◌≢◌, ◌⊎◌, refl, sym, ◌∙◌, subst, Bool, false, ◌&&◌, not, if◌then◌else◌, Option,
  none, some, List, [], ◌∷◌, ◌++◌, arith, Option-cases, inl, inr, either_way, is_some,
}
use poly_strategy.SignalWeather.Market.{Outcome, other_outcome, Snapshot, is_high}
use poly_strategy.SignalWeather.Timers.{
  Mode, TaskStatus, Task, Monitor, state_of, start_confirmation, cancel_confirmation, cancel_task,
  new_monitor, new_asset,
}
use poly_strategy.SignalWeather.Tasks.{
  begin_task, drop_task, end_task, wake, turn_in, turn_of, check_asset, stop_monitor,
  drop_confirmed,
}
use poly_strategy.SignalWeather.Confirmation.{
  IsTimed, entry_for, AreTimed, has_cancelling, with_yes, with_no, start-AreTimed, cancel-AreTimed,
  drop-AreTimed, begin-AreTimed, end-AreTimed, FoundTimed, append-AreTimed,
}

-- Entries are of tasks that have been started, and of different tasks.
pub record HasTimers (y n : Option ℕ) (next : ℕ) (ts : List Task) : Type 0 where
  pub tasks : AreTimed y n ts
  pub yes_below : (i : ℕ) → y ≡ some i → i < next
  pub no_below : (i : ℕ) → n ≡ some i → i < next
  pub apart : (i : ℕ) → y ≡ some i → n ≢ some i

abbrev pub IsTimely : Monitor → Type 0
IsTimely m = HasTimers m.yes_state.confirmation m.no_state.confirmation m.next_task m.tasks

new_task-IsTimed :
    (o : Outcome) (k : ℕ) (y n : Option ℕ)
    → entry_for o (with_yes o (some k) y) (with_no o (some k) n) ≡ some k
new_task-IsTimed Outcome.yes_asset k y n = refl
new_task-IsTimed Outcome.no_asset k y n = refl

some_inj : (i j : ℕ) → (Option.some i) ≡ some j → i ≡ j
some_inj i j e = ground (arith, e)

start-HasTimers :
    (o : Outcome) (y n : Option ℕ) (k : ℕ) (ts : List Task) (before : Option Snapshot)
    → entry_for o y n ≡ none
    → has_cancelling o ts ≡ false
    → HasTimers y n k ts
    → HasTimers
        (with_yes o (some k) y)
        (with_no o (some k) n)
        (suc k)
        (ts ++ record { id = k; outcome = o; before = before; status = TaskStatus.created } ∷ [])
start-HasTimers Outcome.yes_asset y n k ts before e h timers = record {
  tasks =
      append-AreTimed (some k) n ts _ (start-AreTimed Outcome.yes_asset k y n ts e h timers.tasks)
        (refl, tt);
  yes_below = λ i q. ground (arith, q);
  no_below = λ i q. ground (arith, timers.no_below i q);
  apart = λ i p q. ground (arith, p, timers.no_below i q);
}
start-HasTimers Outcome.no_asset y n k ts before e h timers = record {
  tasks =
      append-AreTimed y (some k) ts _ (start-AreTimed Outcome.no_asset k y n ts e h timers.tasks)
        (refl, tt);
  yes_below = λ i q. ground (arith, timers.yes_below i q);
  no_below = λ i q. ground (arith, q);
  apart = λ i p q. ground (arith, q, timers.yes_below i p);
}

-- An entry goes, whatever becomes of the tasks.
abbrev pub OtherDiffers : (o : Outcome) (y n : Option ℕ) (id : ℕ) → Type 0
OtherDiffers o y n id = entry_for (other_outcome o) y n ≢ some id

pub entries_apart :
    (o : Outcome) (y n : Option ℕ) (k id : ℕ) (ts : List Task)
    → HasTimers y n k ts
    → entry_for o y n ≡ some id
    → OtherDiffers o y n id
entries_apart Outcome.yes_asset y n k id ts timers e = timers.apart id e
entries_apart Outcome.no_asset y n k id ts timers e = λ q. timers.apart id q e

clear-HasTimers :
    (o : Outcome) (y n : Option ℕ) (k : ℕ) (ts us : List Task)
    → HasTimers y n k ts
    → AreTimed (with_yes o none y) (with_no o none n) us
    → HasTimers (with_yes o none y) (with_no o none n) k us
clear-HasTimers Outcome.yes_asset y n k ts us timers timed = record {
  tasks = timed;
  yes_below = λ i q. ground (arith, q);
  no_below = timers.no_below;
  apart = λ i p q. ground (arith, p);
}
clear-HasTimers Outcome.no_asset y n k ts us timers timed = record {
  tasks = timed;
  yes_below = timers.yes_below;
  no_below = λ i q. ground (arith, q);
  apart = λ i p q. ground (arith, q);
}

pub start_confirmation-IsTimely :
    (o : Outcome) (before : Option Snapshot) (m : Monitor)
    → (state_of o m).confirmation ≡ none
    → has_cancelling o m.tasks ≡ false
    → IsTimely m
    → IsTimely (start_confirmation o before m)
unfolding start_confirmation
start_confirmation-IsTimely Outcome.yes_asset before m e h timers =
    start-HasTimers Outcome.yes_asset _ _ m.next_task m.tasks before e h timers
start_confirmation-IsTimely Outcome.no_asset before m e h timers =
    start-HasTimers Outcome.no_asset _ _ m.next_task m.tasks before e h timers

cancel-HasTimers :
    (o : Outcome) (y n : Option ℕ) (k id : ℕ) (ts : List Task)
    → entry_for o y n ≡ some id
    → HasTimers y n k ts
    → HasTimers (with_yes o none y) (with_no o none n) k (cancel_task id ts)
cancel-HasTimers o y n k id ts e timers =
    clear-HasTimers o y n k ts (cancel_task id ts) timers
      (cancel-AreTimed o id y n ts e (entries_apart o y n k id ts timers e) timers.tasks)

pub cancel_confirmation-IsTimely :
    (o : Outcome) (id : ℕ) (m : Monitor)
    → (state_of o m).confirmation ≡ some id
    → IsTimely m
    → IsTimely (cancel_confirmation o id m)
unfolding cancel_confirmation
cancel_confirmation-IsTimely Outcome.yes_asset id m e timers =
    cancel-HasTimers Outcome.yes_asset _ _ m.next_task id m.tasks e timers
cancel_confirmation-IsTimely Outcome.no_asset id m e timers =
    cancel-HasTimers Outcome.no_asset _ _ m.next_task id m.tasks e timers

end_task-IsTimely :
    (o : Outcome) (id : ℕ) (m : Monitor)
    → ((state_of o m).confirmation ≡ some id) ⊎ ((state_of o m).confirmation ≡ none)
    → IsTimely m
    → IsTimely (end_task o id m)
unfolding end_task
end_task-IsTimely Outcome.yes_asset id m e timers =
    clear-HasTimers Outcome.yes_asset _ _ m.next_task m.tasks (drop_task id m.tasks) timers
      (end-AreTimed Outcome.yes_asset id _ _ m.tasks e timers.tasks)
end_task-IsTimely Outcome.no_asset id m e timers =
    clear-HasTimers Outcome.no_asset _ _ m.next_task m.tasks (drop_task id m.tasks) timers
      (end-AreTimed Outcome.no_asset id _ _ m.tasks e timers.tasks)

pub entry_of_monitor :
    (o : Outcome) (m : Monitor)
    → entry_for o m.yes_state.confirmation m.no_state.confirmation ≡ (state_of o m).confirmation
entry_of_monitor Outcome.yes_asset m = refl
entry_of_monitor Outcome.no_asset m = refl

with_tasks :
    (m : Monitor) (ts : List Task)
    → IsTimely m
    → AreTimed m.yes_state.confirmation m.no_state.confirmation ts
    → IsTimely (record m { tasks = ts })
with_tasks m ts timers timed = record {
  tasks = timed;
  yes_below = timers.yes_below;
  no_below = timers.no_below;
  apart = timers.apart;
}

turn_in-IsTimely :
    (s : TaskStatus) (t : Task) (m : Monitor)
    → IsTimed (entry_for t.outcome m.yes_state.confirmation m.no_state.confirmation) s t.id
    → IsTimely m
    → IsTimely (turn_in s t m).0
unfolding turn_in wake
turn_in-IsTimely TaskStatus.created t m timed timers =
    with_tasks m (begin_task t.id m.tasks) timers (begin-AreTimed t.id _ _ m.tasks timers.tasks)
turn_in-IsTimely TaskStatus.sleeping t m timed timers =
    end_task-IsTimely t.outcome t.id m (inl (sym (entry_of_monitor t.outcome m) ∙ timed)) timers
turn_in-IsTimely TaskStatus.cancelling t m timed timers =
    end_task-IsTimely t.outcome t.id m (inr (sym (entry_of_monitor t.outcome m) ∙ timed)) timers
turn_in-IsTimely TaskStatus.aborted t m timed timers =
    with_tasks m (drop_task t.id m.tasks) timers (drop-AreTimed t.id _ _ m.tasks timers.tasks)

pub turn_of-IsTimely :
    (found : Option Task) (m : Monitor)
    → FoundTimed m.yes_state.confirmation m.no_state.confirmation found
    → IsTimely m
    → IsTimely (turn_of found m).0
unfolding turn_of
turn_of-IsTimely none m timed timers = timers
turn_of-IsTimely (some t) m timed timers = turn_in-IsTimely t.status t m timed timers

not_started :
    (high : Bool) (entry : Option ℕ) (id : ℕ)
    → entry ≡ some id
    → (high && not (is_some entry)) ≡ false
not_started high entry id e = rw e (ground arith)

pub check_asset-IsTimely :
    (o : Outcome) (m : Monitor)
    → has_cancelling o m.tasks ≡ false
    → IsTimely m
    → IsTimely (check_asset o m)
unfolding check_asset
check_asset-IsTimely o m h timers = elim (Option-cases (state_of o m).confirmation) [
  | inl e ↦
      either_way IsTimely
        (is_high (state_of o m).tick (state_of o m).book
          && not (is_some (state_of o m).confirmation))
        (start_confirmation o (state_of o m).last m) m
        (start_confirmation-IsTimely o (state_of o m).last m e h timers) timers
  | inr e ↦
      subst (λ b. IsTimely (if b then start_confirmation o (state_of o m).last m else m))
        (sym (
          not_started (is_high (state_of o m).tick (state_of o m).book) (state_of o m).confirmation
            e.0 e.1))
        timers
]

unset-AreTimed :
    (o : Outcome) (y n : Option ℕ) (ts : List Task)
    → entry_for o y n ≡ none
    → AreTimed y n ts
    → AreTimed (with_yes o none y) (with_no o none n) ts
unset-AreTimed Outcome.yes_asset y n ts e timed = subst (λ x. AreTimed x n ts) e timed
unset-AreTimed Outcome.no_asset y n ts e timed = subst (λ x. AreTimed y x ts) e timed

drop_own :
    (o : Outcome) (y n entry : Option ℕ) (ts : List Task)
    → entry_for o y n ≡ entry
    → AreTimed y n ts
    → AreTimed (with_yes o none y) (with_no o none n) (drop_confirmed entry ts)
drop_own o y n none ts e timed = unset-AreTimed o y n ts e timed
drop_own o y n (some id) ts e timed = end-AreTimed o id y n ts (inl e) timed

pub stop_monitor-IsTimely : (m : Monitor) → IsTimely m → IsTimely (stop_monitor m)
unfolding stop_monitor
stop_monitor-IsTimely m timers = record {
  tasks = drop_own Outcome.no_asset none m.no_state.confirmation m.no_state.confirmation _ refl (
      drop_own Outcome.yes_asset m.yes_state.confirmation m.no_state.confirmation
        m.yes_state.confirmation m.tasks refl timers.tasks);
  yes_below = λ i q. ground (arith, q);
  no_below = λ i q. ground (arith, q);
  apart = λ i p q. ground (arith, p);
}

pub new_monitor-IsTimely :
    (yes_id no_id : ℕ) (publishes_books : Bool) (mode : Mode)
    → IsTimely (new_monitor yes_id no_id publishes_books mode)
unfolding new_monitor new_asset
new_monitor-IsTimely yes_id no_id publishes_books mode = record {
  tasks = tt;
  yes_below = λ i q. ground (arith, q);
  no_below = λ i q. ground (arith, q);
  apart = λ i p q. ground (arith, p);
}
