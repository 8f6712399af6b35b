-- ===== src/OrderBook/Consistency.antt =====
-- The registry of orderbook_ws.py stays consistent.
use poly_strategy.Prelude.{
  ℕ, ◌≡◌, refl, sym, ap, subst, ==_iff, ◌∙◌, Bool, true, false, Option, none, some, List, [], ◌∷◌,
  ◌++◌, Dict, lookup, insert, erase, contains, elem, is_some, ◌==◌, if◌then◌else◌, lookup-insert,
  lookup-erase, Entries, insert-Entries, erase-Entries, lookup-Entries, arith, Bool-cases, inl, inr,
  either_way,
}
use poly_strategy.OrderBook.Book.{LocalOrderBook, empty_book, apply_snapshot, apply_change}
use poly_strategy.OrderBook.Levels.{
  IsBook, empty_book-IsBook, apply_snapshot-IsBook, apply_change-IsBook,
}
use poly_strategy.OrderBook.Registry.{
  Subscription, OrderBookWs, new_ws, list_or_empty, subscribe, discard, without, keep_asset,
  unsubscribe_of, unsubscribe, BookMessage, replace_book, handle_book, handle_snapshot, PriceChange,
  check_drift, change_book, handle_price_change, handle_tick_change, refill, refill_dropped,
  refill_asked, fetch_and_replace, Notice, Call, call, calls,
}

-- An asset is subscribed on the wire exactly if it has a book, and exactly if it has subscribers; and
-- every book is well formed.
pub record IsConsistent (w : OrderBookWs) : Type 0 where
  pub wired : (a : ℕ) → elem a w.subscribed_on_wire ≡ contains a w.books
  pub followed : (a : ℕ) → contains a w.asset_subs ≡ contains a w.books
  pub books : Entries (λ a b. IsBook b) w.books

elem-discard :
    (a b : ℕ) (xs : List ℕ) → elem b (discard a xs) ≡ (if a == b then false else elem b xs)
unfolding discard
elem-discard a b [] = ground arith
elem-discard a b (x ∷ xs) = ground (arith, elem-discard a b xs)

subscribe-IsConsistent :
    (s : Subscription) (w : OrderBookWs) → IsConsistent w → IsConsistent (subscribe s w)
unfolding subscribe
subscribe-IsConsistent s w h =
    let subs = list_or_empty (lookup s.asset_id w.asset_subs) ++ s ∷ [] in
    elim (Bool-cases (elem s.asset_id w.subscribed_on_wire)) [
      | inl e ↦ rw e (record {
        wired = h.wired;
        followed = λ a.
            ground
              (arith, lookup-insert s.asset_id a subs w.asset_subs, h.followed a, h.wired a, e);
        books = h.books;
      })
      | inr e ↦ rw e (record {
        wired = λ a. ground (arith, lookup-insert s.asset_id a empty_book w.books, h.wired a);
        followed = λ a. ground (
          arith,
          lookup-insert s.asset_id a subs w.asset_subs,
          lookup-insert s.asset_id a empty_book w.books,
          h.followed a,
        );
        books =
            insert-Entries (λ a b. IsBook b) s.asset_id empty_book w.books empty_book-IsBook
              h.books;
      })
    ]

-- Writing a key that is there keeps the keys.
contains-insert {ℓ} :
    {V : Type ℓ} (a b : ℕ) (v : V) (d : Dict V)
    → contains a d ≡ true
    → contains b (insert a v d) ≡ contains b d
contains-insert a b v d known = elim (Bool-cases (a == b)) [
  | inl e ↦
      let here : contains b d ≡ true = subst (λ j. contains j d ≡ true) ((==_iff a b).0 e) known in
      ground (arith, lookup-insert a b v d)
  | inr e ↦ ap is_some (lookup-insert a b v d ∙ (rw e refl))
]

drop_asset-IsConsistent :
    (a : ℕ) (w : OrderBookWs) → IsConsistent w → IsConsistent (keep_asset a [] w)
unfolding keep_asset
drop_asset-IsConsistent a w h = record {
  wired = λ b.
      ground (arith, elem-discard a b w.subscribed_on_wire, lookup-erase a b w.books, h.wired b);
  followed =
      λ b. ground (arith, lookup-erase a b w.asset_subs, lookup-erase a b w.books, h.followed b);
  books = erase-Entries (λ a b. IsBook b) a w.books h.books;
}

keep_asset-IsConsistent :
    (a : ℕ) (subs : List Subscription) (w : OrderBookWs)
    → contains a w.asset_subs ≡ true
    → IsConsistent w
    → IsConsistent (keep_asset a subs w)
unfolding keep_asset
keep_asset-IsConsistent a [] w known h = drop_asset-IsConsistent a w h
keep_asset-IsConsistent a (s ∷ subs) w known h = record {
  wired = h.wired;
  followed = λ b. contains-insert a b (s ∷ subs) w.asset_subs known ∙ h.followed b;
  books = h.books;
}

kept_of :
    (a i : ℕ) (old : Option (List Subscription)) (w : OrderBookWs)
    → lookup a w.asset_subs ≡ old
    → IsConsistent w
    → IsConsistent (keep_asset a (without i (list_or_empty old)) w)
unfolding without
kept_of a i none w e h = drop_asset-IsConsistent a w h
kept_of a i (some subs) w e h = keep_asset-IsConsistent a (without i subs) w (ap is_some e) h

unsubscribe_of-IsConsistent :
    (i : ℕ) (o : Option Subscription) (w : OrderBookWs)
    → IsConsistent w
    → IsConsistent (unsubscribe_of i o w)
unfolding unsubscribe_of
unsubscribe_of-IsConsistent i none w h = h
unsubscribe_of-IsConsistent i (some s) w h =
    kept_of s.asset_id i (lookup s.asset_id w.asset_subs) (record w { subs = erase i w.subs }) refl
      (record { wired = h.wired; followed = h.followed; books = h.books })

-- A book that is there is replaced by a well-formed one.
rebook-IsConsistent :
    (a : ℕ) (new : LocalOrderBook) (ticks sizes : Dict ℕ) (w : OrderBookWs)
    → contains a w.books ≡ true
    → IsBook new
    → IsConsistent w
    → IsConsistent
        (record w { books = insert a new w.books; tick_sizes = ticks; min_order_sizes = sizes })
rebook-IsConsistent a new ticks sizes w known good h = record {
  wired = λ b. h.wired b ∙ sym (contains-insert a b new w.books known);
  followed = λ b. h.followed b ∙ sym (contains-insert a b new w.books known);
  books = insert-Entries (λ a b. IsBook b) a new w.books good h.books;
}

replace_book-IsConsistent :
    (m : BookMessage) (o : Option LocalOrderBook) (w : OrderBookWs)
    → lookup m.asset_id w.books ≡ o
    → IsConsistent w
    → IsConsistent (replace_book m o w).0
unfolding replace_book
replace_book-IsConsistent m none w e h = h
replace_book-IsConsistent m (some old) w e h =
    rebook-IsConsistent m.asset_id (apply_snapshot m.bids m.asks old) _ _ w (ap is_some e)
      (apply_snapshot-IsBook m.bids m.asks old) h

handle_snapshot-IsConsistent :
    (ms : List BookMessage) (w : OrderBookWs)
    → IsConsistent w
    → IsConsistent (handle_snapshot ms w).0
unfolding handle_snapshot handle_book
handle_snapshot-IsConsistent [] w h = h
handle_snapshot-IsConsistent (m ∷ ms) w h =
    handle_snapshot-IsConsistent ms (handle_book m w).0
      (replace_book-IsConsistent m (lookup m.asset_id w.books) w refl h)

-- The registry after a handler is consistent.
Leaves : OrderBookWs × List Notice → Type 0
Leaves r = IsConsistent r.0

if-Leaves :
    (b : Bool) (x y : OrderBookWs × List Notice) → Leaves x → Leaves y → Leaves (if b then x else y)
if-Leaves b x y h k = either_way Leaves b x y h k

pair-Leaves : (w : OrderBookWs) (notices : List Notice) → IsConsistent w → Leaves (w, notices)
unfolding Leaves
pair-Leaves w notices h = h

cooled-IsConsistent :
    (d : Dict ℕ) (w : OrderBookWs) → IsConsistent w → IsConsistent (record w { drift_cooldown = d })
cooled-IsConsistent d w h = record { wired = h.wired; followed = h.followed; books = h.books }

ticked-IsConsistent :
    (d : Dict ℕ) (w : OrderBookWs) → IsConsistent w → IsConsistent (record w { tick_sizes = d })
ticked-IsConsistent d w h = record { wired = h.wired; followed = h.followed; books = h.books }

check_drift-Leaves :
    (now : ℕ) (c : PriceChange) (b : LocalOrderBook) (w : OrderBookWs)
    → IsConsistent w
    → Leaves (check_drift now c b w)
unfolding check_drift
check_drift-Leaves now c b w h = search (if-Leaves, pair-Leaves, cooled-IsConsistent)

check_drift-IsConsistent :
    (now : ℕ) (c : PriceChange) (b : LocalOrderBook) (w : OrderBookWs)
    → IsConsistent w
    → IsConsistent (check_drift now c b w).0
unfolding Leaves
check_drift-IsConsistent now c b w h = check_drift-Leaves now c b w h

change_book-IsConsistent :
    (now : ℕ) (c : PriceChange) (o : Option LocalOrderBook) (w : OrderBookWs)
    → lookup c.asset_id w.books ≡ o
    → IsConsistent w
    → IsConsistent (change_book now c o w).0
unfolding change_book
change_book-IsConsistent now c none w e h = h
change_book-IsConsistent now c (some old) w e h =
    let book = apply_change c.price c.size c.side old in
    check_drift-IsConsistent now c book (record w { books = insert c.asset_id book w.books })
      (rebook-IsConsistent c.asset_id book w.tick_sizes w.min_order_sizes w (ap is_some e)
        (apply_change-IsBook c.price c.size c.side old
          (lookup-Entries (λ a b. IsBook b) c.asset_id old w.books h.books e))
        h)

handle_price_change-IsConsistent :
    (now : ℕ) (cs : List PriceChange) (w : OrderBookWs)
    → IsConsistent w
    → IsConsistent (handle_price_change now cs w).0
unfolding handle_price_change
handle_price_change-IsConsistent now [] w h = h
handle_price_change-IsConsistent now (c ∷ cs) w h =
    handle_price_change-IsConsistent now cs (change_book now c (lookup c.asset_id w.books) w).0
      (change_book-IsConsistent now c (lookup c.asset_id w.books) w refl h)

refill-Leaves :
    (m : BookMessage) (old : LocalOrderBook) (w : OrderBookWs)
    → lookup m.asset_id w.books ≡ some old
    → IsConsistent w
    → Leaves (refill m old w)
unfolding refill
refill-Leaves m old w e h =
    let k = replace_book-IsConsistent m (some old) w e h in search (if-Leaves, pair-Leaves)

-- The cached sizes do not matter.
cached-IsConsistent :
    (ticks mins : Dict ℕ) (w : OrderBookWs)
    → IsConsistent w
    → IsConsistent (record w { tick_sizes = ticks; min_order_sizes = mins })
cached-IsConsistent ticks mins w h = record {
  wired = h.wired;
  followed = h.followed;
  books = h.books;
}

refill_dropped-Leaves :
    (m : BookMessage) (old : LocalOrderBook) (w : OrderBookWs)
    → IsConsistent w
    → Leaves (refill_dropped m old w)
unfolding refill_dropped
refill_dropped-Leaves m old w h = search (if-Leaves, pair-Leaves, cached-IsConsistent)

refill_asked-Leaves :
    (dropped : Option LocalOrderBook) (m : BookMessage) (o : Option LocalOrderBook)
    (w : OrderBookWs)
    → lookup m.asset_id w.books ≡ o
    → IsConsistent w
    → Leaves (refill_asked dropped m o w)
unfolding refill_asked
refill_asked-Leaves (some old) m o w e h = refill_dropped-Leaves m old w h
refill_asked-Leaves none m (some old) w e h = refill-Leaves m old w e h
refill_asked-Leaves none m none w e h = pair-Leaves w [] h

handle_tick_change-Leaves :
    (a n : ℕ) (w : OrderBookWs) → IsConsistent w → Leaves (handle_tick_change a n w)
unfolding handle_tick_change
handle_tick_change-Leaves a n w h = search (if-Leaves, pair-Leaves, ticked-IsConsistent)

call-IsConsistent : (c : Call) (w : OrderBookWs) → IsConsistent w → IsConsistent (call c w)
unfolding call unsubscribe fetch_and_replace Leaves
call-IsConsistent (Call.subscribe_to s) w h = subscribe-IsConsistent s w h
call-IsConsistent (Call.unsubscribe_from i) w h =
    unsubscribe_of-IsConsistent i (lookup i w.subs) w h
call-IsConsistent (Call.snapshot_message ms) w h = handle_snapshot-IsConsistent ms w h
call-IsConsistent (Call.price_message now cs) w h = handle_price_change-IsConsistent now cs w h
call-IsConsistent (Call.tick_message a n) w h = handle_tick_change-Leaves a n w h
call-IsConsistent (Call.resync_answer dropped m) w h =
    refill_asked-Leaves dropped m (lookup m.asset_id w.books) w refl h

calls-IsConsistent : (cs : List Call) (w : OrderBookWs) → IsConsistent w → IsConsistent (calls cs w)
unfolding calls
calls-IsConsistent [] w h = h
calls-IsConsistent (c ∷ cs) w h = calls-IsConsistent cs (call c w) (call-IsConsistent c w h)

-- From a new registry on, over any subscriptions, cancelled subscriptions, messages and answers to
-- resyncs: an asset is subscribed on the wire exactly if it has a book, and exactly if it has a list of
-- subscribers, and every book holds each price once with a size above zero.
pub registry-IsConsistent : (cs : List Call) → IsConsistent (calls cs new_ws)
unfolding new_ws lookup
registry-IsConsistent cs =
    calls-IsConsistent cs new_ws (record { wired = λ a. refl; followed = λ a. refl; books = tt })
