-- ===== src/SweepTrade/Keeps.antt =====
-- What a run of a trade keeps: a predicate on the books, the phase and the log of a trade that the
-- fills, notes, closes and the phase boundary keep (service.py).
pub mod NormalExit
pub mod Entry
pub mod Exits
pub mod Runs
use poly_strategy.Prelude.{
  either_way, ℕ, Bool, true, false, ◌≡◌, refl, subst, Option, none, some, List, ℤ, if◌then◌else◌,
  not, ◌&&◌, ◌||◌,
}
use poly_strategy.SweepTrade.State.{Trade, Phase, Reason, Note, LogStep, OrderResult, is_closed}
use poly_strategy.SweepTrade.Ledger.{
  log_note, record_buy_fill, record_sell_fill, mark_exit_started, signal_done, close,
  close_exit_failed, close_dust,
}

-- What the predicate reads of a trade.
pub record Core : Type 0 where
  pub phase : Phase
  pub exit_started : Bool
  pub position_shares : ℤ
  pub entry_cost : ℕ
  pub exit_revenue : ℕ
  pub exit_filled_shares : ℕ
  pub buy_fill_count : ℕ
  pub log : List LogStep

abbrev pub core : Trade → Core
core t = record {
  phase = t.phase;
  exit_started = t.exit_started;
  position_shares = t.position_shares;
  entry_cost = t.entry_cost;
  exit_revenue = t.exit_revenue;
  exit_filled_shares = t.exit_filled_shares;
  buy_fill_count = t.buy_fill_count;
  log = t.log;
}

pub record Invariant : Type 1 where
  pub Holds : Core → Type 0
  pub noted : (n : Note) (t : Trade) → Holds (core t) → Holds (core (log_note n t))
  pub bought : (i n p : ℕ) (t : Trade) → Holds (core t) → Holds (core (record_buy_fill i n p t))
  pub sold : (i n p : ℕ) (t : Trade) → Holds (core t) → Holds (core (record_sell_fill i n p t))
  pub started : (t : Trade) → Holds (core t) → Holds (core (mark_exit_started t))
  pub ended : (r : Reason) (t : Trade) → Holds (core t) → Holds (core (close r t))

module _ (inv : Invariant) where
  -- A trade of which the invariant holds.
  unfoldable pub Kept : Trade → Type 0
  Kept t = inv.Holds (core t)

  pub log_note-Kept : (n : Note) (t : Trade) → Kept t → Kept (log_note n t)
  unfolding Kept
  log_note-Kept n t h = inv.noted n t h

  pub record_buy_fill-Kept : (i n p : ℕ) (t : Trade) → Kept t → Kept (record_buy_fill i n p t)
  unfolding Kept
  record_buy_fill-Kept i n p t h = inv.bought i n p t h

  pub record_sell_fill-Kept : (i n p : ℕ) (t : Trade) → Kept t → Kept (record_sell_fill i n p t)
  unfolding Kept
  record_sell_fill-Kept i n p t h = inv.sold i n p t h

  pub mark_exit_started-Kept : (t : Trade) → Kept t → Kept (mark_exit_started t)
  unfolding Kept
  mark_exit_started-Kept t h = inv.started t h

  pub close-Kept : (r : Reason) (t : Trade) → Kept t → Kept (close r t)
  unfolding Kept
  close-Kept r t h = inv.ended r t h

  pub if-Kept : (b : Bool) (x y : Trade) → Kept x → Kept y → Kept (if b then x else y)
  if-Kept b x y h k = either_way Kept b x y h k

  -- What only moves the points of the methods and their settings keeps it.
  pub moved-Kept : (t t' : Trade) → Kept t → core t ≡ core t' → Kept t'
  unfolding Kept
  moved-Kept t t' h e = subst inv.Holds e h

  pub signal_done-Kept : (t : Trade) → Kept t → Kept (signal_done t)
  unfolding Kept signal_done
  signal_done-Kept t h = h

  pub close_exit_failed-Kept :
      (r : Reason) (s p : Bool) (t : Trade) → Kept t → Kept (close_exit_failed r s p t)
  unfolding Kept close_exit_failed
  close_exit_failed-Kept r s p t h =
      let reports = s && not t.exit_failure_reported in
      let t1 = record t { exit_failure_reported = t.exit_failure_reported || reports } in
      close-Kept r _ (
        if-Kept (reports && p) (log_note Note.strategy_paused t1) t1
          (log_note-Kept Note.strategy_paused t1 h) h)

  pub close_dust-Kept : (t : Trade) → Kept t → Kept (close_dust t)
  unfolding Kept close_dust
  close_dust-Kept t h = close-Kept _ _ (log_note-Kept _ t h)

pub ruleset keeps = (
  if-Kept, log_note-Kept, record_buy_fill-Kept, record_sell_fill-Kept, mark_exit_started-Kept,
  signal_done-Kept, close-Kept, close_exit_failed-Kept, close_dust-Kept,
)
