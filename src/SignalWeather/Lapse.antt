-- ===== src/SignalWeather/Lapse.antt =====
-- The end of high certainty and the timers of the asset (weather_engine.py).
use poly_strategy.Prelude.{
  ℕ, ◌≡◌, refl, ◌∙◌, subst, Bool, true, ◌&&◌, ◌||◌, not, ltb, Option, none, List, [], ◌∷◌, arith,
}
use poly_strategy.SignalWeather.Market.{Outcome, same_outcome}
use poly_strategy.SignalWeather.Timers.{TaskStatus, Task, Monitor, state_of}
use poly_strategy.SignalWeather.Confirmation.{IsTimed, entry_for, AreTimed}
use poly_strategy.SignalWeather.Timely.{IsTimely, entry_of_monitor}
use poly_strategy.SignalWeather.Finished.{is_dead, all_dead, IsFinished}

-- Tasks of an asset that has no entry are dead.
no_entry-dead : (s : TaskStatus) (id : ℕ) → IsTimed none s id → is_dead s ≡ true
no_entry-dead TaskStatus.created id h = ground arith
no_entry-dead TaskStatus.sleeping id h = ground arith
no_entry-dead TaskStatus.cancelling id h = refl
no_entry-dead TaskStatus.aborted id h = refl

no_entry-old :
    (o p : Outcome) (s : TaskStatus) (id : ℕ) (y n : Option ℕ) (below : Bool)
    → entry_for o y n ≡ none
    → IsTimed (entry_for p y n) s id
    → (not (same_outcome p o && below) || is_dead s) ≡ true
no_entry-old Outcome.yes_asset Outcome.yes_asset s id y n below e h =
    rw (no_entry-dead s id (subst (λ x. IsTimed x s id) e h)) (ground arith)
no_entry-old Outcome.no_asset Outcome.no_asset s id y n below e h =
    rw (no_entry-dead s id (subst (λ x. IsTimed x s id) e h)) (ground arith)
no_entry-old Outcome.yes_asset Outcome.no_asset s id y n below e h = refl
no_entry-old Outcome.no_asset Outcome.yes_asset s id y n below e h = refl

no_entry-all_dead :
    (o : Outcome) (limit : ℕ) (y n : Option ℕ) (ts : List Task)
    → entry_for o y n ≡ none
    → AreTimed y n ts
    → all_dead o limit ts ≡ true
unfolding all_dead
no_entry-all_dead o limit y n [] e h = refl
no_entry-all_dead o limit y n (t ∷ ts) e h =
    rw
      (
        no_entry-old o t.outcome t.status t.id y n (ltb t.id limit) e h.0,
        no_entry-all_dead o limit y n ts e h.1,
      )
      refl

-- From here on the timers of an asset without an entry are dead.
pub no_entry-IsFinished :
    (o : Outcome) (m : Monitor)
    → (state_of o m).confirmation ≡ none
    → IsTimely m
    → IsFinished o m.next_task m
no_entry-IsFinished o m e timers = record {
  below = omega arith;
  dead = no_entry-all_dead o m.next_task _ _ m.tasks (entry_of_monitor o m ∙ e) timers.tasks;
}
