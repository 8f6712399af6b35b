-- ===== src/SignalWeather/Watched.antt =====
-- The timers and the certainty of an asset after a message about it (weather_engine.py).
use poly_strategy.Prelude.{
  ℕ, ◌≡◌, refl, sym, ◌∙◌, subst, Bool, true, false, ◌||◌, if◌then◌else◌, Option, none, some, List,
  [], arith, is_some, inl, inr, either_way,
}
use poly_strategy.SignalWeather.Market.{
  Outcome, outcome_either, other_other, other_outcome, is_high, Snapshot,
}
use poly_strategy.SignalWeather.Timers.{
  Mode, Monitor, Stepped, AssetState, state_of, with_state, outcome_of, start_confirmation,
  cancel_confirmation, confirm_or_cancel, check_certainty,
}
use poly_strategy.SignalWeather.Monitor.{
  Earlier, check_in, evaluate_asset, Change, Message, load_snapshot, deliver_book, apply_changes,
  is_affected, evaluate_affected, deliver_changes, deliver_running, deliver, publish_book_update,
  on_asset, is_favored, earlier_of,
}
use poly_strategy.SignalWeather.Stable.{apply_changes_keep, evaluate_affected_keeps}

-- The asset has an entry in `_confirmations` exactly when it is certain.
abbrev pub IsWatched : Outcome → Monitor → Type 0
IsWatched o m =
    is_some (state_of o m).confirmation ≡ is_high (state_of o m).tick (state_of o m).book

confirm_or_cancel-IsWatched :
    (high : Bool) (entry : Option ℕ) (o : Outcome) (before : Option Snapshot) (m : Monitor)
    → is_high (state_of o m).tick (state_of o m).book ≡ high
    → (state_of o m).confirmation ≡ entry
    → IsWatched o (confirm_or_cancel high entry o before m)
unfolding confirm_or_cancel start_confirmation cancel_confirmation
confirm_or_cancel-IsWatched true none Outcome.yes_asset before m e f = sym e
confirm_or_cancel-IsWatched true none Outcome.no_asset before m e f = sym e
confirm_or_cancel-IsWatched true (some id) o before m e f = rw (f, e) refl
confirm_or_cancel-IsWatched false none o before m e f = rw (f, e) refl
confirm_or_cancel-IsWatched false (some id) Outcome.yes_asset before m e f = sym e
confirm_or_cancel-IsWatched false (some id) Outcome.no_asset before m e f = sym e

evaluate_asset-IsWatched :
    (now : ℕ) (o : Outcome) (earlier : Option Earlier) (m : Monitor)
    → m.mode ≡ Mode.full
    → IsWatched o (evaluate_asset now o earlier m).0
unfolding evaluate_asset check_certainty
evaluate_asset-IsWatched now o earlier m e = rw e (confirm_or_cancel-IsWatched _ _ o _ _ refl refl)

-- The evaluation of an asset leaves the state of the other.
confirm_or_cancel-other :
    (high : Bool) (entry : Option ℕ) (o : Outcome) (before : Option Snapshot) (m : Monitor)
    → state_of (other_outcome o) (confirm_or_cancel high entry o before m)
      ≡ state_of (other_outcome o) m
unfolding confirm_or_cancel start_confirmation cancel_confirmation
confirm_or_cancel-other true none Outcome.yes_asset before m = refl
confirm_or_cancel-other true none Outcome.no_asset before m = refl
confirm_or_cancel-other true (some id) o before m = refl
confirm_or_cancel-other false none o before m = refl
confirm_or_cancel-other false (some id) Outcome.yes_asset before m = refl
confirm_or_cancel-other false (some id) Outcome.no_asset before m = refl

with_state-other :
    (o : Outcome) (s : AssetState) (m : Monitor)
    → state_of (other_outcome o) (with_state o s m) ≡ state_of (other_outcome o) m
with_state-other Outcome.yes_asset s m = refl
with_state-other Outcome.no_asset s m = refl

check_in-other :
    (mode : Mode) (o : Outcome) (before : Option Snapshot) (m : Monitor)
    → state_of (other_outcome o) (check_in mode o before m) ≡ state_of (other_outcome o) m
unfolding check_certainty
check_in-other Mode.full o before m = confirm_or_cancel-other _ _ o before m
check_in-other Mode.sweep_only o before m = refl

evaluate_asset-other :
    (now : ℕ) (o : Outcome) (earlier : Option Earlier) (m : Monitor)
    → state_of (other_outcome o) (evaluate_asset now o earlier m).0 ≡ state_of (other_outcome o) m
unfolding evaluate_asset
evaluate_asset-other now o earlier m = check_in-other m.mode o _ _ ∙ with_state-other o _ m

evaluate_affected-other :
    (now : ℕ) (cs : List Change) (before : Monitor) (o : Outcome) (m : Monitor)
    → state_of (other_outcome o) (evaluate_affected now cs before o m).0
      ≡ state_of (other_outcome o) m
unfolding evaluate_affected
evaluate_affected-other now cs before o m =
    either_way (λ (r : Stepped). state_of (other_outcome o) r.0 ≡ state_of (other_outcome o) m)
      (is_affected o cs before) _ _ (evaluate_asset-other now o (some (earlier_of o before)) m) refl

-- A message of a book, or of changes, that is about the asset.
unfoldable pub touches : Outcome → Message → Monitor → Bool
unfolding is_affected outcome_of
touches o (Message.book d) m = is_favored (outcome_of d.asset_id m) o
touches o (Message.price_change cs) m = is_affected o cs m
touches o _ m = false

evaluate_affected-IsWatched :
    (now : ℕ) (cs : List Change) (before : Monitor) (o : Outcome) (m : Monitor)
    → m.mode ≡ Mode.full
    → is_affected o cs before ≡ true
    → IsWatched o (evaluate_affected now cs before o m).0
unfolding evaluate_affected
evaluate_affected-IsWatched now cs before o m full affected =
    rw affected (evaluate_asset-IsWatched now o (some (earlier_of o before)) m full)

on_asset-IsWatched :
    (found : Option Outcome) (o : Outcome) (m : Monitor) (next : Outcome → Stepped)
    → is_favored found o ≡ true
    → ((p : Outcome) → IsWatched p (next p).0)
    → IsWatched o (on_asset found m next).0
on_asset-IsWatched none o m next e h = ground (arith)
on_asset-IsWatched (some Outcome.yes_asset) Outcome.yes_asset m next e h = h Outcome.yes_asset
on_asset-IsWatched (some Outcome.no_asset) Outcome.no_asset m next e h = h Outcome.no_asset
on_asset-IsWatched (some Outcome.yes_asset) Outcome.no_asset m next e h = ground (arith)
on_asset-IsWatched (some Outcome.no_asset) Outcome.yes_asset m next e h = ground (arith)

with_state-mode :
    (o : Outcome) (s : AssetState) (m : Monitor)
    → m.mode ≡ Mode.full
    → (with_state o s m).mode ≡ Mode.full
with_state-mode Outcome.yes_asset s m full = full
with_state-mode Outcome.no_asset s m full = full

start_confirmation-mode :
    (o : Outcome) (before : Option Snapshot) (m : Monitor)
    → m.mode ≡ Mode.full
    → (start_confirmation o before m).mode ≡ Mode.full
unfolding start_confirmation
start_confirmation-mode o before m full = with_state-mode o _ _ full

cancel_confirmation-mode :
    (o : Outcome) (id : ℕ) (m : Monitor)
    → m.mode ≡ Mode.full
    → (cancel_confirmation o id m).mode ≡ Mode.full
unfolding cancel_confirmation
cancel_confirmation-mode o id m full = with_state-mode o _ _ full

-- The assets are evaluated one after the other.
both-IsWatched :
    (now : ℕ) (cs : List Change) (before : Monitor) (o p : Outcome) (m : Monitor)
    → m.mode ≡ Mode.full
    → is_affected p cs before ≡ true
    → IsWatched p
        (evaluate_affected now cs before
          (other_outcome o)
          (evaluate_affected now cs before o m).0).0
both-IsWatched now cs before o p m full affected =
    let first = (evaluate_affected now cs before o m).0 in
    let full' =
      evaluate_affected_keeps (λ x. x.mode ≡ Mode.full) with_state-mode start_confirmation-mode
        cancel_confirmation-mode now cs before o m full in
    let second = (evaluate_affected now cs before (other_outcome o) first).0 in
    let kept : state_of o second ≡ state_of o first =
      subst (λ q. state_of q second ≡ state_of q first) (other_other o)
        (evaluate_affected-other now cs before (other_outcome o) first) in
    elim (outcome_either o p) [
      | inl same ↦
          subst (λ q. IsWatched q second) (sym same)
            (subst (λ s. is_some s.confirmation ≡ is_high s.tick s.book) (sym kept)
              (evaluate_affected-IsWatched now cs before o m full
                (subst (λ q. is_affected q cs before ≡ true) same affected)))
      | inr differ ↦
          subst (λ q. IsWatched q (evaluate_affected now cs before (other_outcome o) first).0)
            (sym differ)
            (evaluate_affected-IsWatched now cs before (other_outcome o) first full'
              (subst (λ q. is_affected q cs before ≡ true) differ affected))
    ]

apply_changes-mode :
    (now : ℕ) (cs : List Change) (m : Monitor)
    → m.mode ≡ Mode.full
    → (apply_changes now cs m).0.mode ≡ Mode.full
apply_changes-mode =
    apply_changes_keep (λ x. x.mode ≡ Mode.full) with_state-mode start_confirmation-mode
      cancel_confirmation-mode

deliver_changes-IsWatched :
    (now : ℕ) (no_first : Bool) (cs : List Change) (o : Outcome) (m : Monitor)
    → m.mode ≡ Mode.full
    → is_affected o cs m ≡ true
    → IsWatched o (deliver_changes now no_first cs m).0
unfolding deliver_changes publish_book_update
deliver_changes-IsWatched now true cs o m full affected =
    let changed = apply_changes-mode now cs m full in
    either_way (λ (r : Stepped). IsWatched o r.0)
      (is_affected Outcome.yes_asset cs m || is_affected Outcome.no_asset cs m) _ _
      (both-IsWatched now cs m Outcome.no_asset o (apply_changes now cs m).0 changed affected)
      (both-IsWatched now cs m Outcome.no_asset o (apply_changes now cs m).0 changed affected)
deliver_changes-IsWatched now false cs o m full affected =
    let changed = apply_changes-mode now cs m full in
    either_way (λ (r : Stepped). IsWatched o r.0)
      (is_affected Outcome.yes_asset cs m || is_affected Outcome.no_asset cs m) _ _
      (both-IsWatched now cs m Outcome.yes_asset o (apply_changes now cs m).0 changed affected)
      (both-IsWatched now cs m Outcome.yes_asset o (apply_changes now cs m).0 changed affected)

deliver_running-IsWatched :
    (now : ℕ) (no_first : Bool) (message : Message) (o : Outcome) (m : Monitor)
    → m.mode ≡ Mode.full
    → touches o message m ≡ true
    → IsWatched o (deliver_running now no_first message m).0
unfolding deliver_running deliver_book publish_book_update touches
deliver_running-IsWatched now no_first (Message.book d) o m full touched =
    on_asset-IsWatched (outcome_of d.asset_id m) o m _ touched λ p.
      evaluate_asset-IsWatched now p (some (earlier_of p m))
        (with_state p (load_snapshot d (state_of p m)) m)
        (with_state-mode p (load_snapshot d (state_of p m)) m full)
deliver_running-IsWatched now no_first (Message.price_change cs) o m full touched =
    deliver_changes-IsWatched now no_first cs o m full touched
deliver_running-IsWatched now no_first (Message.snapshots ds) o m full touched = ground (arith)
deliver_running-IsWatched now no_first (Message.tick_size_change asset_id tick) o m full touched =
    ground (arith)
deliver_running-IsWatched now no_first Message.other o m full touched = ground (arith)

-- After a message of a book or of changes about an asset, a running monitor in the mode "full" has an
-- entry of the asset in `_confirmations` exactly when the asset is certain. Tasks without an entry, which
-- may still sleep, are not spoken of.
pub deliver-IsWatched :
    (now : ℕ) (no_first : Bool) (message : Message) (o : Outcome) (m : Monitor)
    → m.running ≡ true
    → m.mode ≡ Mode.full
    → touches o message m ≡ true
    → IsWatched o (deliver now no_first message m).0
unfolding deliver
deliver-IsWatched now no_first message o m running full touched =
    subst (λ b. IsWatched o (if b then deliver_running now no_first message m else (m, [])).0)
      (sym running) (deliver_running-IsWatched now no_first message o m full touched)
