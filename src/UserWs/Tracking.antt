-- ===== src/UserWs/Tracking.antt =====
-- The fills that a session reports for one order, over any course of frames, reconciliations and
-- reconnects (user_ws.py).
use poly_strategy.Prelude.{
  ℕ, ◌+◌, ◌-◌, min, ◌≡◌, ◌≢◌, refl, ◌∙◌, true, Option, none, some, List, [], ◌∷◌, ◌++◌, ℤ, pos,
  negsuc, arith, All, All-append, ◌==◌, if◌then◌else◌, Bool-cases, inl, inr, leb,
}
use poly_strategy.UserWs.Watch.{
  FillEvent, PendingTrade, OrderWatch, Source, emit_fill, emit_rest, consume_trades, match_order,
  match_trade, match_reconnect,
}
use poly_strategy.UserWs.Fills.{
  IsRunning-append, total_size-append, Accounts, match_order-Accounts, match_reconnect-Accounts,
}
use poly_strategy.UserWs.Session.{match_order_signed, match_reconnect_signed, match_trade_signed}

-- The events of one order.
abbrev pub fills_of : ℕ → List FillEvent → List FillEvent
fills_of k [] = []
fills_of k (e ∷ es) = if e.order_id == k then e ∷ fills_of k es else fills_of k es

pub fills_of-append :
    (k : ℕ) (es fs : List FillEvent) → fills_of k (es ++ fs) ≡ fills_of k es ++ fills_of k fs
fills_of-append k [] fs = refl
fills_of-append k (e ∷ es) fs = ground (arith, fills_of-append k es fs)

abbrev pub HasOrder : ℕ → FillEvent → Type 0
HasOrder k e = e.order_id ≡ k

pub fills_of_own : (k : ℕ) (es : List FillEvent) → All (HasOrder k) es → fills_of k es ≡ es
fills_of_own k [] h = refl
fills_of_own k (e ∷ es) h = ground (arith, fills_of_own k es h.1)

pub fills_of_other :
    (k j : ℕ) (es : List FillEvent) → j ≢ k → All (HasOrder j) es → fills_of k es ≡ []
fills_of_other k j [] n h = refl
fills_of_other k j (e ∷ es) n h = ground (arith, fills_of_other k j es n h.1)

-- What one handler may do to a watch: it keeps its order and its callback, reports for that order
-- only, and, if the callback is there, reports what `last_matched` rises by.
abbrev pub Behaves : OrderWatch → OrderWatch × List FillEvent → Type 0
Behaves w (w', es) =
    (w'.order_id ≡ w.order_id)
    × (w'.on_fill ≡ w.on_fill)
    × All (HasOrder w.order_id) es
    × (w.on_fill ≡ true → Accounts w (w', es))

emit_fill-HasOrder :
    (w : OrderWatch) (d p t : ℕ) (i : Option ℕ) (s : Source)
    → All (HasOrder w.order_id) (emit_fill w d p t i s)
unfolding emit_fill
emit_fill-HasOrder w d p t i s = ground arith

emit_rest-HasOrder : (w : OrderWatch) (s r : ℕ) → All (HasOrder w.order_id) (emit_rest w s r)
unfolding emit_rest
emit_rest-HasOrder w s r = ground arith

consume_trades-HasOrder :
    (w : OrderWatch) (s r : ℕ) (ts : List PendingTrade)
    → All (HasOrder w.order_id) (consume_trades w s r ts).events
unfolding consume_trades
consume_trades-HasOrder w s r [] = tt
consume_trades-HasOrder w s r (t ∷ ts) =
    ground (arith, consume_trades-HasOrder w s (r - min r t.size) ts)

match_order-fields :
    (w : OrderWatch) (s : ℕ)
    → ((match_order w s).0.order_id ≡ w.order_id)
      × ((match_order w s).0.on_fill ≡ w.on_fill)
      × All (HasOrder w.order_id) (match_order w s).1
unfolding match_order
match_order-fields w s = elim (Bool-cases (leb s w.last_matched)) [
  | inl old ↦ rw old (refl, refl, tt)
  | inr new ↦
      let c = consume_trades w s (s - w.last_matched) w.pending_trades in
      rw new (
        refl,
        refl,
        All-append (HasOrder w.order_id) c.events (emit_rest w s c.remaining)
            (consume_trades-HasOrder w s (s - w.last_matched) w.pending_trades)
            (emit_rest-HasOrder w s c.remaining),
      )
]

match_order-Behaves : (w : OrderWatch) (s : ℕ) → Behaves w (match_order w s)
match_order-Behaves w s =
    let f = match_order-fields w s in (f.0, f.1, f.2, match_order-Accounts w s)

match_reconnect-fields :
    (w : OrderWatch) (s : ℕ)
    → ((match_reconnect w s).0.order_id ≡ w.order_id)
      × ((match_reconnect w s).0.on_fill ≡ w.on_fill)
      × All (HasOrder w.order_id) (match_reconnect w s).1
unfolding match_reconnect
match_reconnect-fields w s = ground arith

match_reconnect-Behaves : (w : OrderWatch) (s : ℕ) → Behaves w (match_reconnect w s)
match_reconnect-Behaves w s =
    let f = match_reconnect-fields w s in (f.0, f.1, f.2, match_reconnect-Accounts w s)

match_trade-fields :
    (w : OrderWatch) (i s p : ℕ)
    → ((match_trade w i s p).order_id ≡ w.order_id)
      × ((match_trade w i s p).on_fill ≡ w.on_fill)
      × (w.last_matched + 0 ≡ (match_trade w i s p).last_matched)
unfolding match_trade
match_trade-fields w i s p = ground arith

match_trade-Behaves : (w : OrderWatch) (i s p : ℕ) → Behaves w (match_trade w i s p, [])
match_trade-Behaves w i s p = let f = match_trade-fields w i s p in (f.0, f.1, tt, λ _. (f.2, tt))

Behaves-idle : (w : OrderWatch) → Behaves w (w, [])
Behaves-idle w = (refl, refl, tt, λ _. (omega arith, tt))

pub match_order_signed-Behaves : (z : ℤ) (w : OrderWatch) → Behaves w (match_order_signed z w)
unfolding match_order_signed
match_order_signed-Behaves (pos n) w = match_order-Behaves w n
match_order_signed-Behaves (negsuc n) w = Behaves-idle w

pub match_reconnect_signed-Behaves :
    (z : ℤ) (w : OrderWatch) → Behaves w (match_reconnect_signed z w)
unfolding match_reconnect_signed
match_reconnect_signed-Behaves (pos n) w = match_reconnect-Behaves w n
match_reconnect_signed-Behaves (negsuc n) w = Behaves-idle w

pub match_trade_signed-Behaves :
    (i : ℕ) (s p : ℤ) (w : OrderWatch) → Behaves w (match_trade_signed i s p w)
unfolding match_trade_signed
match_trade_signed-Behaves i (pos s) (pos p) w = match_trade-Behaves w i s p
match_trade_signed-Behaves i _ _ w = Behaves-idle w

-- An order's watch and the order's fills, from one moment to a later one: an order that is watched
-- stays watched, and what is reported for it is what `last_matched` rises by.
abbrev pub Tracks : Option OrderWatch → List FillEvent → Option OrderWatch → Type 0
Tracks none fs none = fs ≡ []
Tracks (some w) fs (some w') = (w'.on_fill ≡ w.on_fill) × (w.on_fill ≡ true → Accounts w (w', fs))
Tracks _ _ _ = ⊥

pub Tracks-refl : (o : Option OrderWatch) → Tracks o [] o
Tracks-refl none = refl
Tracks-refl (some w) = (refl, λ _. (omega arith, tt))

Accounts-trans :
    (u v w : OrderWatch) (fs gs : List FillEvent)
    → Accounts u (v, fs)
    → Accounts v (w, gs)
    → Accounts u (w, fs ++ gs)
Accounts-trans u v w fs gs h k =
    (omega (arith, total_size-append fs gs), IsRunning-append u.last_matched fs gs h.1 (rw h.0 k.1))

pub Tracks-trans :
    (o p q : Option OrderWatch) (fs gs : List FillEvent)
    → Tracks o fs p
    → Tracks p gs q
    → Tracks o (fs ++ gs) q
Tracks-trans none none none fs gs h k = rw h k
Tracks-trans (some u) (some v) (some w) fs gs h k =
    (k.0 ∙ h.0, λ on. Accounts-trans u v w fs gs (h.1 on) (k.1 (h.0 ∙ on)))
Tracks-trans none none (some w) fs gs h k = k
Tracks-trans none (some v) q fs gs h k = absurd h
Tracks-trans (some u) none q fs gs h k = absurd h
Tracks-trans (some u) (some v) none fs gs h k = absurd k
