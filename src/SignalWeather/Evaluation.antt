-- ===== src/SignalWeather/Evaluation.antt =====
-- The evaluation of an asset and the timers of a monitor (weather_engine.py).
use poly_strategy.Prelude.{
  ℕ, ◌≡◌, ◌≢◌, refl, ◌∙◌, ap, Bool, true, false, ◌&&◌, ◌==◌, if◌then◌else◌, Option, none, some,
  List, [], ◌∷◌, ◌++◌, arith, Bool-cases, ==_iff, inl, inr,
}
use poly_strategy.SignalWeather.Market.{
  Outcome, same_outcome, top_of_book, other_outcome, Snapshot, is_high,
}
use poly_strategy.SignalWeather.Timers.{
  TaskStatus, Task, Monitor, AssetState, Mode, state_of, with_state, start_confirmation,
  cancel_confirmation, confirm_or_cancel, check_certainty, cancelled, cancel_task, outcome_of,
}
use poly_strategy.SignalWeather.Monitor.{Earlier, check_in, evaluate_asset}
use poly_strategy.SignalWeather.Confirmation.{
  IsTimed, entry_for, AreTimed, has_cancelling, is_cancelling, or_false,
}
use poly_strategy.SignalWeather.Timely.{
  start_confirmation-IsTimely, cancel_confirmation-IsTimely, IsTimely,
}

-- What a change of an asset's books and marks leaves as it was.
pub record Keeps (m m' : Monitor) : Type 0 where
  pub ids : (asset_id : ℕ) → outcome_of asset_id m' ≡ outcome_of asset_id m
  pub tasks : m'.tasks ≡ m.tasks
  pub timely : IsTimely m → IsTimely m'

pub with_state-Keeps :
    (o : Outcome) (s : AssetState) (m : Monitor)
    → s.confirmation ≡ (state_of o m).confirmation
    → Keeps m (with_state o s m)
unfolding outcome_of
with_state-Keeps Outcome.yes_asset s m e = record {
  ids = λ asset_id. refl;
  tasks = refl;
  timely = λ timers. rw e timers;
}
with_state-Keeps Outcome.no_asset s m e = record {
  ids = λ asset_id. refl;
  tasks = refl;
  timely = λ timers. rw e timers;
}

pub Keeps-refl : (m : Monitor) → Keeps m m
Keeps-refl m = record { ids = λ asset_id. refl; tasks = refl; timely = λ timers. timers }

pub Keeps-trans : (m m' m'' : Monitor) → Keeps m m' → Keeps m' m'' → Keeps m m''
Keeps-trans m m' m'' h k = record {
  ids = λ asset_id. k.ids asset_id ∙ h.ids asset_id;
  tasks = k.tasks ∙ h.tasks;
  timely = λ timers. k.timely (h.timely timers);
}

-- A cancel for one asset leaves the other without a cancelled task.
cancelled-settled :
    (s : TaskStatus) (k id : ℕ) (entry : Option ℕ)
    → entry ≢ some id
    → IsTimed entry s k
    → is_cancelling s ≡ false
    → is_cancelling (if k == id then cancelled s else s) ≡ false
cancelled-settled TaskStatus.created k id entry apart timed h = ground arith
cancelled-settled TaskStatus.sleeping k id entry apart timed h = elim (Bool-cases (k == id)) [
  | inl same ↦ absurd (apart (timed ∙ ap some ((==_iff k id).0 same)))
  | inr differ ↦ rw differ refl
]
cancelled-settled TaskStatus.cancelling k id entry apart timed h = ground arith
cancelled-settled TaskStatus.aborted k id entry apart timed h = ground arith

cancelled-settled_entry :
    (q p : Outcome) (s : TaskStatus) (k id : ℕ) (y n : Option ℕ)
    → entry_for q y n ≢ some id
    → IsTimed (entry_for p y n) s k
    → (same_outcome p q && is_cancelling s) ≡ false
    → (same_outcome p q && is_cancelling (if k == id then cancelled s else s)) ≡ false
cancelled-settled_entry Outcome.yes_asset Outcome.yes_asset s k id y n apart timed h =
    cancelled-settled s k id y apart timed h
cancelled-settled_entry Outcome.no_asset Outcome.no_asset s k id y n apart timed h =
    cancelled-settled s k id n apart timed h
cancelled-settled_entry Outcome.yes_asset Outcome.no_asset s k id y n apart timed h = refl
cancelled-settled_entry Outcome.no_asset Outcome.yes_asset s k id y n apart timed h = refl

cancel_task-settled :
    (q : Outcome) (id : ℕ) (y n : Option ℕ) (ts : List Task)
    → entry_for q y n ≢ some id
    → AreTimed y n ts
    → has_cancelling q ts ≡ false
    → has_cancelling q (cancel_task id ts) ≡ false
unfolding has_cancelling cancel_task
cancel_task-settled q id y n [] apart timed h = refl
cancel_task-settled q id y n (t ∷ ts) apart timed h =
    let hs =
      or_false (same_outcome t.outcome q && is_cancelling t.status) (has_cancelling q ts) h in
    rw
      (
        cancelled-settled_entry q t.outcome t.status t.id id y n apart timed.0 hs.0,
        cancel_task-settled q id y n ts apart timed.1 hs.1,
      )
      refl

append-settled :
    (p o : Outcome) (k : ℕ) (before : Option Snapshot) (ts : List Task)
    → has_cancelling p ts ≡ false
    → has_cancelling p
        (ts ++ record { id = k; outcome = o; before = before; status = TaskStatus.created } ∷ [])
      ≡ false
unfolding has_cancelling
append-settled p o k before [] h = ground arith
append-settled p o k before (t ∷ ts) h =
    let hs =
      or_false (same_outcome t.outcome p && is_cancelling t.status) (has_cancelling p ts) h in
    rw (hs.0, append-settled p o k before ts hs.1) refl

pub start_confirmation-settled :
    (o p : Outcome) (before : Option Snapshot) (m : Monitor)
    → has_cancelling p m.tasks ≡ false
    → has_cancelling p (start_confirmation o before m).tasks ≡ false
unfolding start_confirmation
start_confirmation-settled Outcome.yes_asset p before m h =
    append-settled p Outcome.yes_asset m.next_task before m.tasks h
start_confirmation-settled Outcome.no_asset p before m h =
    append-settled p Outcome.no_asset m.next_task before m.tasks h

cancel_confirmation-settled :
    (o : Outcome) (id : ℕ) (m : Monitor)
    → (state_of o m).confirmation ≡ some id
    → IsTimely m
    → has_cancelling (other_outcome o) m.tasks ≡ false
    → has_cancelling (other_outcome o) (cancel_confirmation o id m).tasks ≡ false
unfolding cancel_confirmation
cancel_confirmation-settled Outcome.yes_asset id m e timers h =
    cancel_task-settled Outcome.no_asset id _ _ m.tasks (timers.apart id e) timers.tasks h
cancel_confirmation-settled Outcome.no_asset id m e timers h =
    cancel_task-settled Outcome.yes_asset id _ _ m.tasks (λ q. timers.apart id q e) timers.tasks h

-- What the evaluation of an asset does with the timers, where no cancelled task of the asset is left.
pub record Evaluates (o : Outcome) (m m' : Monitor) : Type 0 where
  pub ids : (asset_id : ℕ) → outcome_of asset_id m' ≡ outcome_of asset_id m
  pub timely : IsTimely m'
  pub settled :
      has_cancelling (other_outcome o) m.tasks ≡ false
      → has_cancelling (other_outcome o) m'.tasks ≡ false

start_confirmation-ids :
    (o : Outcome) (before : Option Snapshot) (m : Monitor) (asset_id : ℕ)
    → outcome_of asset_id (start_confirmation o before m) ≡ outcome_of asset_id m
unfolding start_confirmation outcome_of
start_confirmation-ids Outcome.yes_asset before m asset_id = refl
start_confirmation-ids Outcome.no_asset before m asset_id = refl

cancel_confirmation-ids :
    (o : Outcome) (id : ℕ) (m : Monitor) (asset_id : ℕ)
    → outcome_of asset_id (cancel_confirmation o id m) ≡ outcome_of asset_id m
unfolding cancel_confirmation outcome_of
cancel_confirmation-ids Outcome.yes_asset id m asset_id = refl
cancel_confirmation-ids Outcome.no_asset id m asset_id = refl

confirm_or_cancel-Evaluates :
    (high : Bool) (entry : Option ℕ) (o : Outcome) (before : Option Snapshot) (m : Monitor)
    → (state_of o m).confirmation ≡ entry
    → has_cancelling o m.tasks ≡ false
    → IsTimely m
    → Evaluates o m (confirm_or_cancel high entry o before m)
unfolding confirm_or_cancel
confirm_or_cancel-Evaluates true none o before m e h timers = record {
  ids = start_confirmation-ids o before m;
  timely = start_confirmation-IsTimely o before m e h timers;
  settled = start_confirmation-settled o (other_outcome o) before m;
}
confirm_or_cancel-Evaluates true (some id) o before m e h timers = record {
  ids = λ i. refl;
  timely = timers;
  settled = λ q. q;
}
confirm_or_cancel-Evaluates false none o before m e h timers = record {
  ids = λ i. refl;
  timely = timers;
  settled = λ q. q;
}
confirm_or_cancel-Evaluates false (some id) o before m e h timers = record {
  ids = cancel_confirmation-ids o id m;
  timely = cancel_confirmation-IsTimely o id m e timers;
  settled = cancel_confirmation-settled o id m e timers;
}

check_in-Evaluates :
    (mode : Mode) (o : Outcome) (before : Option Snapshot) (m : Monitor)
    → has_cancelling o m.tasks ≡ false
    → IsTimely m
    → Evaluates o m (check_in mode o before m)
unfolding check_certainty
check_in-Evaluates Mode.full o before m h timers =
    confirm_or_cancel-Evaluates (is_high (state_of o m).tick (state_of o m).book)
      (state_of o m).confirmation o before m refl h timers
check_in-Evaluates Mode.sweep_only o before m h timers = record {
  ids = λ i. refl;
  timely = timers;
  settled = λ q. q;
}

pub after_change :
    (o : Outcome) (m m' m'' : Monitor) → Keeps m m' → Evaluates o m' m'' → Evaluates o m m''
after_change o m m' m'' kept evaluates = record {
  ids = λ i. evaluates.ids i ∙ kept.ids i;
  timely = evaluates.timely;
  settled = λ q. evaluates.settled (ap (has_cancelling (other_outcome o)) kept.tasks ∙ q);
}

pub evaluate_asset-Evaluates :
    (now : ℕ) (o : Outcome) (earlier : Option Earlier) (m : Monitor)
    → has_cancelling o m.tasks ≡ false
    → IsTimely m
    → Evaluates o m (evaluate_asset now o earlier m).0
unfolding evaluate_asset
evaluate_asset-Evaluates now o earlier m h timers =
    let s = state_of o m in
    let seen = with_state o (record s { last = some (top_of_book now s.book) }) m in
    let kept = with_state-Keeps o (record s { last = some (top_of_book now s.book) }) m refl in
    after_change o m seen (check_in m.mode o s.last seen) kept (
      check_in-Evaluates m.mode o s.last seen (ap (has_cancelling o) kept.tasks ∙ h)
        (kept.timely timers))
