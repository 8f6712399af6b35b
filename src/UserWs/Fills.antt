-- ===== src/UserWs/Fills.antt =====
-- What the handlers of one watch report: the fills of user_ws.py add up to the matched quantity, and
-- each part is priced by its own trade.
use native.Mathlib.Nat.{add_assoc}
use poly_strategy.Prelude.{
  ℕ, ◌+◌, ◌-◌, ◌*◌, ◌≤◌, min, ◌≡◌, subst, true, false, suc, ◌<◌, List, [], ◌∷◌, ◌++◌, arith, leb,
  Bool-cases, inl, inr,
}
use poly_strategy.UserWs.Watch.{
  FillEvent, PendingTrade, OrderWatch, consume_trades, emit_rest, match_order, match_trade,
  match_reconnect,
}

abbrev pub total_size : List FillEvent → ℕ
total_size [] = 0
total_size (e ∷ es) = e.fill_size + total_size es

-- Quantity times price, over events and over pending trades.
abbrev pub notional : List FillEvent → ℕ
notional [] = 0
notional (e ∷ es) = e.fill_size * e.fill_price + notional es

abbrev pub pending_notional : List PendingTrade → ℕ
pending_notional [] = 0
pending_notional (t ∷ ts) = t.size * t.price + pending_notional ts

-- Every event's `total_matched` is the matched quantity after it.
abbrev pub IsRunning : ℕ → List FillEvent → Type 0
IsRunning start [] = Unit
IsRunning start (e ∷ es) =
    (e.total_matched ≡ start + e.fill_size) × IsRunning (start + e.fill_size) es

pub total_size-append :
    (es fs : List FillEvent) → total_size (es ++ fs) ≡ total_size es + total_size fs
total_size-append [] fs = omega arith
total_size-append (e ∷ es) fs = omega (arith, total_size-append es fs)

pub notional-append : (es fs : List FillEvent) → notional (es ++ fs) ≡ notional es + notional fs
notional-append [] fs = omega arith
notional-append (e ∷ es) fs = omega (arith, notional-append es fs)

pub IsRunning-append :
    (start : ℕ) (es fs : List FillEvent)
    → IsRunning start es
    → IsRunning (start + total_size es) fs
    → IsRunning start (es ++ fs)
IsRunning-append start [] fs h k = ground (arith, h, k)
IsRunning-append start (e ∷ es) fs h k =
    (h.0, IsRunning-append (start + e.fill_size) es fs h.1 (rw add_assoc k))

-- A product falls apart with its first factor.
split_product : (a b p : ℕ) → a ≤ b → a * p + (b - a) * p ≡ b * p
split_product a b p h = grind arith

module _ (w : OrderWatch) (watched : w.on_fill ≡ true) (s : ℕ) where
  -- The loop takes from `remaining` exactly what it reports.
  pub consume_trades-total :
      (r : ℕ) (ts : List PendingTrade)
      → total_size (consume_trades w s r ts).events + (consume_trades w s r ts).remaining ≡ r
  unfolding consume_trades
  consume_trades-total r [] = omega arith
  consume_trades-total r (t ∷ ts) = ground (arith, consume_trades-total (r - min r t.size) ts)

  pub consume_trades-notional :
      (r : ℕ) (ts : List PendingTrade)
      → notional (consume_trades w s r ts).events
          + pending_notional (consume_trades w s r ts).trades
        ≡ pending_notional ts
  unfolding consume_trades
  consume_trades-notional r [] = omega arith
  consume_trades-notional r (t ∷ ts) = ground (
    arith,
    split_product (min r t.size) t.size t.price,
    consume_trades-notional (r - min r t.size) ts,
  )

  pub consume_trades-IsRunning :
      (r : ℕ) (ts : List PendingTrade) → r ≤ s → IsRunning (s - r) (consume_trades w s r ts).events
  unfolding consume_trades
  consume_trades-IsRunning r [] h = tt
  consume_trades-IsRunning r (t ∷ ts) h =
      ground (arith, consume_trades-IsRunning (r - min r t.size) ts)

-- The quantity of the fills that a handler reports, beside the watch that it leaves: what
-- `last_matched` rises by.
abbrev pub Accounts : OrderWatch → OrderWatch × List FillEvent → Type 0
Accounts w (w', events) =
    (w.last_matched + total_size events ≡ w'.last_matched) × IsRunning w.last_matched events

module _ (w : OrderWatch) (watched : w.on_fill ≡ true) (s : ℕ) where
  emit_rest-total : (r : ℕ) → total_size (emit_rest w s r) ≡ r
  unfolding emit_rest
  emit_rest-total r = ground arith

  emit_rest-IsRunning : (start r : ℕ) → start + r ≡ s → IsRunning start (emit_rest w s r)
  unfolding emit_rest
  emit_rest-IsRunning start r h = ground arith

  -- The loop and the rest together, for an update that raises the matched quantity.
  update-IsRunning :
      (ts : List PendingTrade)
      → w.last_matched ≤ s
      → let c = consume_trades w s (s - w.last_matched) ts in
        (w.last_matched + total_size (c.events ++ emit_rest w s c.remaining) ≡ s)
        × IsRunning w.last_matched (c.events ++ emit_rest w s c.remaining)
  update-IsRunning ts h =
      let c = consume_trades w s (s - w.last_matched) ts in
      let total = consume_trades-total w watched s (s - w.last_matched) ts in
      let rest = emit_rest-total c.remaining in
      let from_start : s - (s - w.last_matched) ≡ w.last_matched = omega arith in
      (
        omega (arith, total_size-append c.events (emit_rest w s c.remaining)),
        IsRunning-append w.last_matched c.events (emit_rest w s c.remaining)
            (subst (λ a. IsRunning a c.events) from_start
              (consume_trades-IsRunning w watched s (s - w.last_matched) ts (omega arith)))
            (emit_rest-IsRunning (w.last_matched + total_size c.events) c.remaining (omega arith)),
      )

pub match_order-Accounts :
    (w : OrderWatch) (s : ℕ) → w.on_fill ≡ true → Accounts w (match_order w s)
unfolding match_order
match_order-Accounts w s watched = elim (Bool-cases (leb s w.last_matched)) [
  | inl old ↦ rw old (omega arith, tt)
  | inr new ↦ rw new (update-IsRunning w watched s w.pending_trades (ground arith))
]

pub match_reconnect-Accounts :
    (w : OrderWatch) (s : ℕ) → w.on_fill ≡ true → Accounts w (match_reconnect w s)
unfolding match_reconnect
match_reconnect-Accounts w s watched = ground arith

abbrev pub pending_size : List PendingTrade → ℕ
pending_size [] = 0
pending_size (t ∷ ts) = t.size + pending_size ts

-- What the loop leaves is what the pending trades do not cover.
consume_trades-remaining :
    (w : OrderWatch) (s r : ℕ) (ts : List PendingTrade)
    → (consume_trades w s r ts).remaining ≡ r - pending_size ts
unfolding consume_trades
consume_trades-remaining w s r [] = omega arith
consume_trades-remaining w s r (t ∷ ts) =
    ground (arith, consume_trades-remaining w s (r - min r t.size) ts)

emit_rest-notional :
    (w : OrderWatch) (s r : ℕ) → w.on_fill ≡ true → notional (emit_rest w s r) ≡ r * w.price
unfolding emit_rest
emit_rest-notional w s r on = ground arith

-- For a watch with a fill callback and an update above its `last_matched`: what is reported, at the
-- reported prices, together with what stays pending, is what was pending at the trades' prices plus,
-- at the limit price, the part of the update that no pending trade covers.
pub match_order-notional :
    (w : OrderWatch) (s : ℕ)
    → w.on_fill ≡ true
    → w.last_matched < s
    → notional (match_order w s).1 + pending_notional (match_order w s).0.pending_trades
      ≡ pending_notional w.pending_trades
        + (s - w.last_matched - pending_size w.pending_trades) * w.price
unfolding match_order
match_order-notional w s on more =
    let r = s - w.last_matched in
    let c = consume_trades w s r w.pending_trades in
    let new : leb s w.last_matched ≡ false = ground arith in
    rw
      (
        new,
        notional-append,
        emit_rest-notional w s c.remaining on,
        consume_trades-remaining w s r w.pending_trades,
      )
      (omega (arith, consume_trades-notional w on s r w.pending_trades))

-- A trade that was seen before, under whatever size and price, changes nothing.
pub match_trade_idempotent :
    (w : OrderWatch) (i s p t q : ℕ)
    → match_trade (match_trade w i (suc s) (suc p)) i t q ≡ match_trade w i (suc s) (suc p)
unfolding match_trade
match_trade_idempotent w i s p t q = ground arith
