-- ===== src/SweepTrade/Retries.antt =====
-- The retry of a SELL order that the exchange refuses because the bought shares are not all settled
-- (service.py).
use native.Mathlib.Nat.{div-mul-le_self, lt-div-mul-add}
use poly_strategy.Prelude.{
  ℕ, ◌+◌, ◌*◌, ◌/◌, ◌≤◌, ◌<◌, ◌≡◌, refl, sym, subst, min, Bool, true, false, ◌&&◌, Option, some,
  pos_part, arith, leb, ltb, if◌then◌else◌, ◌==◌,
}
use poly_strategy.SellFailure.Classify.{Signature, same, classify_sell_error}
use poly_strategy.SweepTrade.State.{Trade, Note, OrderResult, Loop, NormalPoint, is_closed, is_flat}
use poly_strategy.SweepTrade.Ledger.{log_note, is_dust}
use poly_strategy.SweepTrade.NormalExit.{
  on_sell_result, on_balance_lag, lag_retry, loop_head, is_refused, submit, sell_size_of,
}

-- What may follow a refused order of `sell_size` shares of which `observed` are settled: a smaller
-- order that they and the position cover, or a wait, which is for a sellable quantity that is below
-- the minimum or no smaller order. The exit may also end, or wait for the grace period of its start.
unfoldable pub IsRetry : (sell_size observed min_order_size position : ℕ) → NormalPoint → Type 0
IsRetry n o k p (NormalPoint.awaiting_order l m) = (m < n) × (m ≤ o) × (m ≤ p)
IsRetry n o k p (NormalPoint.backing_off l) = (leb k o && ltb (min p o) n) ≡ false
IsRetry n o k p NormalPoint.finished = Unit
IsRetry n o k p (NormalPoint.awaiting_grace l) = Unit
IsRetry n o k p q = ⊥

when_split :
    {A : Type 0} (Q : A → Type 0) (b : Bool) (x y : A)
    → ((b ≡ true) → Q x)
    → ((b ≡ false) → Q y)
    → Q (if b then x else y)
when_split Q true x y f g = f refl
when_split Q false x y f g = g refl

rounded : (c q : ℕ) → 0 < c → c ≤ q → (0 < q / c * c) × (q / c * c ≤ q)
rounded c q h k = (let above = lt-div-mul-add {a = q} h in omega arith, div-mul-le_self q c)

between :
    (x n o k P : ℕ)
    → (leb k o && ltb (min P o) n) ≡ true
    → 0 < x
    → x ≤ min P o
    → (0 < x) × (x < n) × (x ≤ o) × (x ≤ P)
between x n o k P h low high = ground arith

floor_of_settled :
    (c n o k P : ℕ) → (leb k o && ltb (min P o) n) ≡ true → c ≤ k → k ≤ P → c ≤ min P o
floor_of_settled c n o k P h above large = ground arith

covered :
    (c n o k P : ℕ)
    → (leb k o && ltb (min P o) n) ≡ true
    → 0 < c
    → c ≤ k
    → k ≤ P
    → let x = min P o / c * c in (0 < x) × (x < n) × (x ≤ o) × (x ≤ P)
covered c n o k P h step above large =
    let (low, high) = rounded c (min P o) step (floor_of_settled c n o k P h above large) in
    between (min P o / c * c) n o k P h low high

-- A position that is neither empty nor dust is of the minimum size.
not_dust :
    (k : ℕ) (t : Trade)
    → is_flat t ≡ false
    → is_dust (some k) t ≡ false
    → k ≤ pos_part t.position_shares
unfolding is_dust
not_dust k t h e = ground arith

submit-IsRetry :
    (n o k x : ℕ) (l : Loop) (t : Trade)
    → l.balance_retry_size ≡ some x
    → (0 < x) × (x < n) × (x ≤ o) × (x ≤ pos_part t.position_shares)
    → IsRetry n o k (pos_part t.position_shares) (submit l t).normal
unfolding IsRetry submit sell_size_of
submit-IsRetry n o k x l t f h = rw f (ground arith)

loop_head-IsRetry :
    (n o k x : ℕ) (l : Loop) (t : Trade)
    → l.min_order_size ≡ some k
    → l.balance_retry_size ≡ some x
    → ((k ≤ pos_part t.position_shares)
        → (0 < x) × (x < n) × (x ≤ o) × (x ≤ pos_part t.position_shares))
    → IsRetry n o k (pos_part t.position_shares) (loop_head l t).normal
unfolding IsRetry loop_head
loop_head-IsRetry n o k x l t e f h =
    let P = pos_part t.position_shares in
    let Q : Trade → Type 0 = λ t'. IsRetry n o k P t'.normal in
    when_split Q (is_flat t) _ _ (λ _. tt)
      (λ held.
        when_split Q (is_closed t) _ _ (λ _. tt)
          (λ _.
            when_split Q (is_dust l.min_order_size t) _ _ (λ _. tt)
              (λ large.
                when_split Q (l.attempt == 0) _ _ (λ _. tt)
                  (λ _.
                    submit-IsRetry n o k x (record l { attempt = l.attempt + 1 }) t f
                      (h (not_dust k t held (subst (λ m. is_dust m t ≡ false) e large)))))))

on_balance_lag-IsRetry :
    (c n o k : ℕ) (l : Loop) (t : Trade)
    → 0 < c
    → c ≤ k
    → l.min_order_size ≡ some k
    → IsRetry n o k
        (pos_part t.position_shares)
        (on_balance_lag (lag_retry c n (some o) (some k) t) l t).normal
unfolding IsRetry on_balance_lag lag_retry log_note
on_balance_lag-IsRetry c n o k l t h above e =
    let P = pos_part t.position_shares in
    let q = min P o in
    let Q : Option ℕ → Type 0 = λ r. IsRetry n o k P (on_balance_lag r l t).normal in
    when_split Q (leb k o && ltb q n) _ _
      (λ some_left.
        loop_head-IsRetry n o k (q / c * c) (record l { balance_retry_size = some (q / c * c) })
          (log_note Note.balance_settlement_retry t) e refl
          (λ large. covered c n o k P some_left h above large))
      (λ nothing. nothing)

-- A SELL order that is refused for a sellable quantity of `observed` shares, of which the error tells,
-- on a market whose minimum size is at least one step of the order size, is followed by an order of
-- fewer shares that the sellable quantity and the position cover, by a wait, where the quantity is
-- below the minimum or allows no smaller order, by the end of the exit, or by the grace period of a
-- first attempt.
pub settlement_lag_shrinks :
    (c now : ℕ) (m p : Bool) (o k : ℕ) (l : Loop) (n : ℕ) (r : OrderResult) (t : Trade)
    → 0 < c
    → c ≤ k
    → l.min_order_size ≡ some k
    → is_refused r.status ≡ true
    → same (classify_sell_error r.status r.error) Signature.insufficient_balance ≡ true
    → IsRetry n o k (pos_part t.position_shares) (on_sell_result c now m p (some o) l n r t).normal
unfolding on_sell_result log_note lag_retry
settlement_lag_shrinks c now m p o k l n r t h above e refused lacks =
    let t1 = log_note Note.sell_order_failed t in
    rw (refused, lacks)
      (subst
        (λ size.
          IsRetry n o k (pos_part t.position_shares)
            (on_balance_lag (lag_retry c n (some o) size t) l t1).normal)
        (sym e) (on_balance_lag-IsRetry c n o k l t1 h above e))
