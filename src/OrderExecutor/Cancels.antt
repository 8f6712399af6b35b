-- ===== src/OrderExecutor/Cancels.antt =====
-- The cancel with a fill check (order_executor.py), and the trade that it is made for
-- (strategy_weather_sweep/service.py).
use poly_strategy.Prelude.{
  ℕ, ◌<◌, ◌≡◌, ◌⊎◌, inl, inr, refl, Bool, true, false, ◌&&◌, Option, none, some, ℤ, pos, pos_part,
  ◌+ℤ◌, ◌-ℤ◌, ◌≤ℤ◌, ltb_ℤ, arith, int_laws, or_else, if◌then◌else◌, Bool-cases,
}
use poly_strategy.SweepTrade.State.{Trade, Note, CancelResult}
use poly_strategy.SweepTrade.Ledger.{record_buy_fill, log_note}
use poly_strategy.SweepTrade.Entry.{reconcile_buy}
use poly_strategy.OrderExecutor.{
  Answer, final_or, query, get_order_after_cancel, check_fill, cancel_order_with_fill_check,
}

-- The matched size of a final answer.
abbrev pub matched_of : Answer → Option ℕ
matched_of (Answer.final n) = some n
matched_of _ = none

-- The first final answer of the three.
abbrev pub first_final : (a b c : Answer) → Option ℕ
first_final a b c = or_else (matched_of a) (or_else (matched_of b) (matched_of c))

final_or-matched_of :
    (a : Answer) (later : Option ℕ) → final_or a later ≡ or_else (matched_of a) later
final_or-matched_of (Answer.final n) later = refl
final_or-matched_of Answer.failed later = refl
final_or-matched_of Answer.missing later = refl
final_or-matched_of Answer.live later = refl

or_else-none : (o : Option ℕ) → or_else o none ≡ o
or_else-none none = refl
or_else-none (some n) = refl

get_order_after_cancel-first_final :
    (answers : ℕ → Answer)
    → get_order_after_cancel answers ≡ first_final (answers 0) (answers 1) (answers 2)
unfolding get_order_after_cancel query
get_order_after_cancel-first_final answers =
    rw
      (
        final_or-matched_of (answers 0) (final_or (answers 1) (final_or (answers 2) none)),
        final_or-matched_of (answers 1) (final_or (answers 2) none),
        final_or-matched_of (answers 2) none,
        or_else-none (matched_of (answers 2)),
      )
      refl

caught : (n : ℕ) (z : ℤ) → ltb_ℤ z (pos n) ≡ true → z +ℤ pos (pos_part (pos n -ℤ z)) ≡ pos n
caught n z less = grind (int_laws, less)

positive : (n : ℕ) → 0 < n → ltb_ℤ (pos 0) (pos n) ≡ true
positive n h = ground arith

-- The position after the reconciliation of `m` matched shares.
abbrev reconciled : ℤ → ℤ → ℤ
reconciled m z = if ltb_ℤ (pos 0) m && ltb_ℤ z m then z +ℤ pos (pos_part (m -ℤ z)) else z

caught_up :
    (n : ℕ) (z : ℤ)
    → 0 < n
    → (pos n ≤ℤ reconciled (pos n) z)
      × ((reconciled (pos n) z ≡ z) ⊎ (reconciled (pos n) z ≡ pos n))
caught_up n z h = elim (Bool-cases (ltb_ℤ z (pos n))) [
  | inl e ↦ rw (positive n h, e, caught n z e) (omega arith, inr refl)
  | inr e ↦ rw (positive n h, e) (ground arith, inl refl)
]

if-position :
    (b : Bool) (x y : Trade)
    → (if b then x else y).position_shares ≡ (if b then x.position_shares else y.position_shares)
if-position true x y = refl
if-position false x y = refl

reconcile_buy-position :
    (i : ℕ) (c : CancelResult) (t : Trade)
    → (reconcile_buy i c t).position_shares ≡ reconciled c.final_matched t.position_shares
unfolding reconcile_buy record_buy_fill log_note
reconcile_buy-position i c t =
    let missed = pos_part (c.final_matched -ℤ t.position_shares) in
    if-position (ltb_ℤ (pos 0) c.final_matched && ltb_ℤ t.position_shares c.final_matched)
      (log_note Note.fill_reconciled (record_buy_fill i missed t.buy_price t)) t

cancel-final_matched :
    (n : ℕ) (answers : ℕ → Answer)
    → first_final (answers 0) (answers 1) (answers 2) ≡ some n
    → (cancel_order_with_fill_check true answers).final_matched ≡ pos n
unfolding cancel_order_with_fill_check check_fill
cancel-final_matched n answers found = rw (get_order_after_cancel-first_final answers, found) refl

-- When one of the first three answers after a cancel is final and says that some of the BUY order
-- matched, the reconciliation of a trade leaves it with at least that many shares: with as many as it
-- had, or with exactly the matched ones.
pub fill_check_reconciles :
    (i n : ℕ) (answers : ℕ → Answer) (t : Trade)
    → 0 < n
    → first_final (answers 0) (answers 1) (answers 2) ≡ some n
    → let t' = reconcile_buy i (cancel_order_with_fill_check true answers) t in
      (pos n ≤ℤ t'.position_shares)
      × ((t'.position_shares ≡ t.position_shares) ⊎ (t'.position_shares ≡ pos n))
fill_check_reconciles i n answers t h found =
    let matched = cancel-final_matched n answers found in
    rw (reconcile_buy-position i (cancel_order_with_fill_check true answers) t, matched)
      (caught_up n t.position_shares h)
