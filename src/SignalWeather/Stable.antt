-- ===== src/SignalWeather/Stable.antt =====
-- What the changes of an asset's state, the starts and the cancels of timers keep, a message keeps
-- (weather_engine.py).
use poly_strategy.Prelude.{
  ℕ, Bool, true, false, ◌&&◌, ◌||◌, not, ltb, ◌-◌, Option, none, some, List, [], ◌∷◌, either_way,
  is_some,
}
use poly_strategy.OrderBook.Book.{best_bid_of, best_ask_of}
use poly_strategy.SignalWeather.Market.{Outcome, differs, is_high, top_of_book, Snapshot}
use poly_strategy.SignalWeather.Timers.{
  Mode, Monitor, Stepped, AssetState, state_of, with_state, outcome_of, set_tick,
  start_confirmation, cancel_confirmation, confirm_or_cancel, check_certainty,
}
use poly_strategy.SignalWeather.Tasks.{check_asset, check_high_certainty}
use poly_strategy.SignalWeather.Monitor.{
  Earlier, check_in, evaluate_asset, SnapshotMessage, Change, Message, load_snapshot,
  deliver_snapshots, deliver_book, check_bbo_drift, apply_one, apply_changes, is_affected,
  evaluate_affected, deliver_changes, deliver_running, deliver, publish_book_update, on_asset,
  earlier_of,
}

module _ (P : Monitor → Type 0)
    (changed : (o : Outcome) (s : AssetState) (m : Monitor) → P m → P (with_state o s m))
    (started : (o : Outcome) (before : Option Snapshot) (m : Monitor)
      → P m
      → P (start_confirmation o before m))
    (stopped : (o : Outcome) (id : ℕ) (m : Monitor) → P m → P (cancel_confirmation o id m)) where
  on_asset_keeps :
      (found : Option Outcome) (m : Monitor) (next : Outcome → Stepped)
      → P m
      → ((o : Outcome) → P (next o).0)
      → P (on_asset found m next).0
  on_asset_keeps none m next p h = p
  on_asset_keeps (some o) m next p h = h o

  confirm_or_cancel_keeps :
      (high : Bool) (entry : Option ℕ) (o : Outcome) (before : Option Snapshot) (m : Monitor)
      → P m
      → P (confirm_or_cancel high entry o before m)
  unfolding confirm_or_cancel
  confirm_or_cancel_keeps true none o before m p = started o before m p
  confirm_or_cancel_keeps true (some id) o before m p = p
  confirm_or_cancel_keeps false none o before m p = p
  confirm_or_cancel_keeps false (some id) o before m p = stopped o id m p

  check_in_keeps :
      (mode : Mode) (o : Outcome) (before : Option Snapshot) (m : Monitor)
      → P m
      → P (check_in mode o before m)
  unfolding check_certainty
  check_in_keeps Mode.full o before m p =
      confirm_or_cancel_keeps (is_high (state_of o m).tick (state_of o m).book)
        (state_of o m).confirmation o before m p
  check_in_keeps Mode.sweep_only o before m p = p

  pub evaluate_asset_keeps :
      (now : ℕ) (o : Outcome) (earlier : Option Earlier) (m : Monitor)
      → P m
      → P (evaluate_asset now o earlier m).0
  unfolding evaluate_asset
  evaluate_asset_keeps now o earlier m p =
      let s = state_of o m in
      check_in_keeps m.mode o s.last _
        (changed o (record s { last = some (top_of_book now s.book) }) m p)

  check_bbo_drift_keeps :
      (now : ℕ) (o : Outcome) (c : Change) (m : Monitor) → P m → P (check_bbo_drift now o c m).0
  unfolding check_bbo_drift
  check_bbo_drift_keeps now o c m p =
      let s = state_of o m in
      either_way (λ (r : Stepped). P r.0) (not m.reports_drift || ltb (now - s.drift_cooldown) 60) _
        _ p
        (either_way (λ (r : Stepped). P r.0)
          (differs (best_bid_of s.book.bids) c.best_bid
            || differs (best_ask_of s.book.asks) c.best_ask)
          _ _ (changed o (record s { drift_cooldown = now }) m p) p)

  pub apply_changes_keep :
      (now : ℕ) (cs : List Change) (m : Monitor) → P m → P (apply_changes now cs m).0
  unfolding apply_changes apply_one
  apply_changes_keep now [] m p = p
  apply_changes_keep now (c ∷ cs) m p = apply_changes_keep now cs (apply_one now c m).0 (
      on_asset_keeps (outcome_of c.asset_id m) m _ p
        λ o. check_bbo_drift_keeps now o c _ (changed o _ m p))

  pub evaluate_affected_keeps :
      (now : ℕ) (cs : List Change) (before : Monitor) (o : Outcome) (m : Monitor)
      → P m
      → P (evaluate_affected now cs before o m).0
  unfolding evaluate_affected
  evaluate_affected_keeps now cs before o m p =
      either_way (λ (r : Stepped). P r.0) (is_affected o cs before) _ _
        (evaluate_asset_keeps now o (some (earlier_of o before)) m p) p

  deliver_snapshots_keep :
      (now : ℕ) (ds : List SnapshotMessage) (m : Monitor) → P m → P (deliver_snapshots now ds m).0
  unfolding deliver_snapshots
  deliver_snapshots_keep now [] m p = p
  deliver_snapshots_keep now (d ∷ ds) m p = deliver_snapshots_keep now ds _ (
      on_asset_keeps (outcome_of d.asset_id m) m _ p
        λ o. evaluate_asset_keeps now o none _ (changed o (load_snapshot d (state_of o m)) m p))

  deliver_changes_keep :
      (now : ℕ) (no_first : Bool) (cs : List Change) (m : Monitor)
      → P m
      → P (deliver_changes now no_first cs m).0
  unfolding deliver_changes publish_book_update
  deliver_changes_keep now no_first cs m p =
      let kept =
        evaluate_affected_keeps now cs m _ _
          (evaluate_affected_keeps now cs m _ _ (apply_changes_keep now cs m p)) in
      either_way (λ (r : Stepped). P r.0)
        (is_affected Outcome.yes_asset cs m || is_affected Outcome.no_asset cs m) _ _ kept kept

  deliver_running_keeps :
      (now : ℕ) (no_first : Bool) (message : Message) (m : Monitor)
      → P m
      → P (deliver_running now no_first message m).0
  unfolding deliver_running deliver_book publish_book_update
  deliver_running_keeps now no_first (Message.snapshots ds) m p = deliver_snapshots_keep now ds m p
  deliver_running_keeps now no_first (Message.book d) m p =
      on_asset_keeps (outcome_of d.asset_id m) m _ p λ o.
        evaluate_asset_keeps now o (some (earlier_of o m)) _
          (changed o (load_snapshot d (state_of o m)) m p)
  deliver_running_keeps now no_first (Message.tick_size_change asset_id tick) m p =
      on_asset_keeps (outcome_of asset_id m) m _ p λ o. changed o (set_tick tick (state_of o m)) m p
  deliver_running_keeps now no_first (Message.price_change cs) m p =
      deliver_changes_keep now no_first cs m p
  deliver_running_keeps now no_first Message.other m p = p

  pub deliver_keeps :
      (now : ℕ) (no_first : Bool) (message : Message) (m : Monitor)
      → P m
      → P (deliver now no_first message m).0
  unfolding deliver
  deliver_keeps now no_first message m p =
      either_way (λ (r : Stepped). P r.0) m.running _ _
        (deliver_running_keeps now no_first message m p) p

  check_asset_keeps : (o : Outcome) (m : Monitor) → P m → P (check_asset o m)
  unfolding check_asset
  check_asset_keeps o m p =
      let s = state_of o m in
      either_way P (is_high s.tick s.book && not (is_some s.confirmation)) _ _
        (started o s.last m p) p

  pub check_high_certainty_keeps : (m : Monitor) → P m → P (check_high_certainty m)
  unfolding check_high_certainty
  check_high_certainty_keeps m p =
      check_asset_keeps Outcome.no_asset _ (check_asset_keeps Outcome.yes_asset m p)
