-- ===== src/SignalWeather/Finished.antt =====
-- Timer tasks that will not confirm (weather_engine.py).
use poly_strategy.Prelude.{
  ℕ, ◌≤◌, ◌≡◌, refl, ◌∙◌, Bool, true, false, ◌&&◌, ◌||◌, not, ltb, ◌==◌, if◌then◌else◌, Option,
  none, some, List, [], ◌∷◌, ◌++◌, arith, either_way,
}
use poly_strategy.SignalWeather.Market.{Outcome, same_outcome, Snapshot}
use poly_strategy.SignalWeather.Timers.{
  TaskStatus, Task, Monitor, AssetState, with_state, cancelled, cancel_task, start_confirmation,
  cancel_confirmation,
}
use poly_strategy.SignalWeather.Tasks.{
  begun, begin_task, drop_task, end_task, wake, turn_in, turn_of, drop_confirmed, stop_monitor,
  check_high_certainty,
}
use poly_strategy.SignalWeather.Monitor.{Message, deliver}
use poly_strategy.SignalWeather.Stable.{deliver_keeps, check_high_certainty_keeps}

abbrev pub is_dead : TaskStatus → Bool
is_dead TaskStatus.cancelling = true
is_dead TaskStatus.aborted = true
is_dead _ = false

-- A task of the asset with a number below the limit.
abbrev pub is_old : Outcome → (limit : ℕ) → Task → Bool
is_old a limit t = same_outcome t.outcome a && ltb t.id limit

-- No such task may confirm.
unfoldable pub all_dead : (a : Outcome) (limit : ℕ) → List Task → Bool
all_dead a limit [] = true
all_dead a limit (t ∷ ts) = (not (is_old a limit t) || is_dead t.status) && all_dead a limit ts

pub record IsFinished (a : Outcome) (limit : ℕ) (m : Monitor) : Type 0 where
  pub below : limit ≤ m.next_task
  pub dead : all_dead a limit m.tasks ≡ true

cancelled-dead : (s : TaskStatus) → is_dead (cancelled s) ≡ true
cancelled-dead TaskStatus.created = refl
cancelled-dead TaskStatus.sleeping = refl
cancelled-dead TaskStatus.cancelling = refl
cancelled-dead TaskStatus.aborted = refl

begun-dead : (s : TaskStatus) → is_dead (begun s) ≡ is_dead s
begun-dead TaskStatus.created = refl
begun-dead TaskStatus.sleeping = refl
begun-dead TaskStatus.cancelling = refl
begun-dead TaskStatus.aborted = refl

-- A change of status that leaves dead tasks dead.
still_dead :
    (b same : Bool) (s s' : TaskStatus)
    → (is_dead s ≡ true → is_dead s' ≡ true)
    → (not same || is_dead s) ≡ true
    → (not same || is_dead (if b then s' else s)) ≡ true
still_dead true true s s' k h = k h
still_dead true false s s' k h = refl
still_dead false same s s' k h = h

pub and_split : (a b : Bool) → (a && b) ≡ true → (a ≡ true) × (b ≡ true)
and_split a b h = ground arith

cancel_task-all_dead :
    (a : Outcome) (limit k : ℕ) (ts : List Task)
    → all_dead a limit ts ≡ true
    → all_dead a limit (cancel_task k ts) ≡ true
unfolding all_dead cancel_task
cancel_task-all_dead a limit k [] h = refl
cancel_task-all_dead a limit k (t ∷ ts) h =
    let hs = and_split (not (is_old a limit t) || is_dead t.status) (all_dead a limit ts) h in
    rw
      (
        still_dead (t.id == k) (is_old a limit t) t.status (cancelled t.status)
            (λ q. cancelled-dead t.status) hs.0,
        cancel_task-all_dead a limit k ts hs.1,
      )
      refl

begin_task-all_dead :
    (a : Outcome) (limit k : ℕ) (ts : List Task)
    → all_dead a limit ts ≡ true
    → all_dead a limit (begin_task k ts) ≡ true
unfolding all_dead begin_task
begin_task-all_dead a limit k [] h = refl
begin_task-all_dead a limit k (t ∷ ts) h =
    let hs = and_split (not (is_old a limit t) || is_dead t.status) (all_dead a limit ts) h in
    rw
      (
        still_dead (t.id == k) (is_old a limit t) t.status (begun t.status)
            (λ q. begun-dead t.status ∙ q) hs.0,
        begin_task-all_dead a limit k ts hs.1,
      )
      refl

drop_task-all_dead :
    (a : Outcome) (limit k : ℕ) (ts : List Task)
    → all_dead a limit ts ≡ true
    → all_dead a limit (drop_task k ts) ≡ true
unfolding all_dead drop_task
drop_task-all_dead a limit k [] h = refl
drop_task-all_dead a limit k (t ∷ ts) h =
    let hs = and_split (not (is_old a limit t) || is_dead t.status) (all_dead a limit ts) h in
    either_way (λ us. all_dead a limit us ≡ true) (t.id == k) (drop_task k ts) (t ∷ drop_task k ts)
      (drop_task-all_dead a limit k ts hs.1) (rw (hs.0, drop_task-all_dead a limit k ts hs.1) refl)

append-all_dead :
    (a : Outcome) (limit k : ℕ) (o : Outcome) (before : Option Snapshot) (ts : List Task)
    → limit ≤ k
    → all_dead a limit ts ≡ true
    → all_dead a limit
        (ts ++ record { id = k; outcome = o; before = before; status = TaskStatus.created } ∷ [])
      ≡ true
unfolding all_dead
append-all_dead a limit k o before [] lt h = ground arith
append-all_dead a limit k o before (t ∷ ts) lt h =
    let hs = and_split (not (is_old a limit t) || is_dead t.status) (all_dead a limit ts) h in
    rw (hs.0, append-all_dead a limit k o before ts lt hs.1) refl

with_state-IsFinished :
    (a : Outcome) (limit : ℕ) (o : Outcome) (s : AssetState) (m : Monitor)
    → IsFinished a limit m
    → IsFinished a limit (with_state o s m)
with_state-IsFinished a limit Outcome.yes_asset s m h = record { below = h.below; dead = h.dead }
with_state-IsFinished a limit Outcome.no_asset s m h = record { below = h.below; dead = h.dead }

start_confirmation-IsFinished :
    (a : Outcome) (limit : ℕ) (o : Outcome) (before : Option Snapshot) (m : Monitor)
    → IsFinished a limit m
    → IsFinished a limit (start_confirmation o before m)
unfolding start_confirmation
start_confirmation-IsFinished a limit o before m h = with_state-IsFinished a limit o _ _ (record {
  below = ground (arith, h.below);
  dead = append-all_dead a limit m.next_task o before m.tasks h.below h.dead;
})

cancel_confirmation-IsFinished :
    (a : Outcome) (limit : ℕ) (o : Outcome) (k : ℕ) (m : Monitor)
    → IsFinished a limit m
    → IsFinished a limit (cancel_confirmation o k m)
unfolding cancel_confirmation
cancel_confirmation-IsFinished a limit o k m h =
    with_state-IsFinished a limit o _ _
      (record { below = h.below; dead = cancel_task-all_dead a limit k m.tasks h.dead })

end_task-IsFinished :
    (a : Outcome) (limit : ℕ) (o : Outcome) (k : ℕ) (m : Monitor)
    → IsFinished a limit m
    → IsFinished a limit (end_task o k m)
unfolding end_task
end_task-IsFinished a limit o k m h =
    with_state-IsFinished a limit o _ _
      (record { below = h.below; dead = drop_task-all_dead a limit k m.tasks h.dead })

turn_in-IsFinished :
    (a : Outcome) (limit : ℕ) (s : TaskStatus) (t : Task) (m : Monitor)
    → IsFinished a limit m
    → IsFinished a limit (turn_in s t m).0
unfolding turn_in wake
turn_in-IsFinished a limit TaskStatus.created t m h = record {
  below = h.below;
  dead = begin_task-all_dead a limit t.id m.tasks h.dead;
}
turn_in-IsFinished a limit TaskStatus.sleeping t m h =
    end_task-IsFinished a limit t.outcome t.id m h
turn_in-IsFinished a limit TaskStatus.cancelling t m h =
    end_task-IsFinished a limit t.outcome t.id m h
turn_in-IsFinished a limit TaskStatus.aborted t m h = record {
  below = h.below;
  dead = drop_task-all_dead a limit t.id m.tasks h.dead;
}

pub turn_of-IsFinished :
    (a : Outcome) (limit : ℕ) (found : Option Task) (m : Monitor)
    → IsFinished a limit m
    → IsFinished a limit (turn_of found m).0
unfolding turn_of
turn_of-IsFinished a limit none m h = h
turn_of-IsFinished a limit (some t) m h = turn_in-IsFinished a limit t.status t m h

drop_confirmed-all_dead :
    (a : Outcome) (limit : ℕ) (entry : Option ℕ) (ts : List Task)
    → all_dead a limit ts ≡ true
    → all_dead a limit (drop_confirmed entry ts) ≡ true
drop_confirmed-all_dead a limit none ts h = h
drop_confirmed-all_dead a limit (some k) ts h = drop_task-all_dead a limit k ts h

pub stop_monitor-IsFinished :
    (a : Outcome) (limit : ℕ) (m : Monitor)
    → IsFinished a limit m
    → IsFinished a limit (stop_monitor m)
unfolding stop_monitor
stop_monitor-IsFinished a limit m h = record {
  below = h.below;
  dead =
      drop_confirmed-all_dead a limit m.no_state.confirmation _
        (drop_confirmed-all_dead a limit m.yes_state.confirmation m.tasks h.dead);
}

pub deliver-IsFinished :
    (a : Outcome) (limit now : ℕ) (no_first : Bool) (message : Message) (m : Monitor)
    → IsFinished a limit m
    → IsFinished a limit (deliver now no_first message m).0
deliver-IsFinished a limit =
    deliver_keeps (IsFinished a limit) (with_state-IsFinished a limit)
      (start_confirmation-IsFinished a limit) (cancel_confirmation-IsFinished a limit)

pub check_high_certainty-IsFinished :
    (a : Outcome) (limit : ℕ) (m : Monitor)
    → IsFinished a limit m
    → IsFinished a limit (check_high_certainty m)
check_high_certainty-IsFinished a limit =
    check_high_certainty_keeps (IsFinished a limit) (with_state-IsFinished a limit)
      (start_confirmation-IsFinished a limit) (cancel_confirmation-IsFinished a limit)
