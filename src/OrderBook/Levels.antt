-- ===== src/OrderBook/Levels.antt =====
-- What the levels of a book hold (orderbook_ws.py).
use poly_strategy.Prelude.{
  ℕ, ◌≤◌, ◌<◌, ◌≡◌, refl, ◌∙◌, ap, ltb→lt, max, min, Bool, true, false, Option, none, some, List,
  [], ◌∷◌, Dict, lookup, insert, erase, contains, lookup-insert, lookup-erase, HasUniqueKeys,
  insert-HasUniqueKeys, erase-HasUniqueKeys, Entries, insert-Entries, erase-Entries, ltb, ◌==◌,
  ◌&&◌, if◌then◌else◌, arith, Bool-cases, inl, inr,
}
use poly_strategy.OrderBook.Book.{
  empty_book, Level, LocalOrderBook, BookSide, collect, levels_of, apply_snapshot, change_levels,
  apply_change, best_bid_of, best_ask_of, join, best_bid, best_ask,
}

-- The size that the last row of a price with a size above zero gives, read from the rows.
unfoldable pub last_size : ℕ → List Level → Option ℕ → Option ℕ
last_size p [] before = before
last_size p (r ∷ rows) before =
    let next = if r.price == p then (if ltb 0 r.size then some r.size else before) else before in
    last_size p rows next

lookup-collect :
    (p : ℕ) (rows : List Level) (d : Dict ℕ)
    → lookup p (collect rows d) ≡ last_size p rows (lookup p d)
unfolding collect last_size
lookup-collect p [] d = refl
lookup-collect p (r ∷ rows) d =
    let d' = if ltb 0 r.size then insert r.price r.size d else d in
    lookup-collect p rows d'
    ∙ ap (last_size p rows) (ground (arith, lookup-insert r.price p r.size d))

-- Every price stands once and with a size above zero.
pub record HasLevels (d : Dict ℕ) : Type 0 where
  pub unique : HasUniqueKeys d
  pub positive : Entries (λ p s. 0 < s) d

insert-HasLevels : (p s : ℕ) (d : Dict ℕ) → 0 < s → HasLevels d → HasLevels (insert p s d)
insert-HasLevels p s d pos h = record {
  unique = insert-HasUniqueKeys p s d h.unique;
  positive = insert-Entries (λ q n. 0 < n) p s d pos h.positive;
}

erase-HasLevels : (p : ℕ) (d : Dict ℕ) → HasLevels d → HasLevels (erase p d)
erase-HasLevels p d h = record {
  unique = erase-HasUniqueKeys p d h.unique;
  positive = erase-Entries (λ q n. 0 < n) p d h.positive;
}

collect-HasLevels : (rows : List Level) (d : Dict ℕ) → HasLevels d → HasLevels (collect rows d)
unfolding collect
collect-HasLevels [] d h = h
collect-HasLevels (r ∷ rows) d h = elim (Bool-cases (ltb 0 r.size)) [
  | inl e ↦ rw e (
      collect-HasLevels rows (insert r.price r.size d)
        (insert-HasLevels r.price r.size d (ltb→lt 0 r.size e) h))
  | inr e ↦ rw e (collect-HasLevels rows d h)
]

change_levels-HasLevels : (p s : ℕ) (d : Dict ℕ) → HasLevels d → HasLevels (change_levels p s d)
unfolding change_levels
change_levels-HasLevels p s d h = elim (Bool-cases (s == 0)) [
  | inl e ↦ rw e (erase-HasLevels p d h)
  | inr e ↦ rw e (insert-HasLevels p s d (ground arith) h)
]

-- The best bid is the greatest price that the bids hold, and the best ask the least of the asks.
abbrev pub IsGreatest : Option ℕ → Dict ℕ → Type 0
IsGreatest none d = (q : ℕ) → lookup q d ≡ none
IsGreatest (some p) d = (contains p d ≡ true) × ((q : ℕ) → contains q d ≡ true → q ≤ p)

abbrev pub IsLeast : Option ℕ → Dict ℕ → Type 0
IsLeast none d = (q : ℕ) → lookup q d ≡ none
IsLeast (some p) d = (contains p d ≡ true) × ((q : ℕ) → contains q d ≡ true → p ≤ q)

join-max-IsGreatest :
    (p s : ℕ) (rest : Dict ℕ) (b : Option ℕ)
    → IsGreatest b rest
    → IsGreatest (join max p b) ((p, s) ∷ rest)
unfolding lookup
join-max-IsGreatest p s rest none h = (ground arith, λ q held. ground (arith, h q))
join-max-IsGreatest p s rest (some m) h = (grind (arith, h.0), λ q held. ground (arith, h.1 q))

join-min-IsLeast :
    (p s : ℕ) (rest : Dict ℕ) (b : Option ℕ)
    → IsLeast b rest
    → IsLeast (join min p b) ((p, s) ∷ rest)
unfolding lookup
join-min-IsLeast p s rest none h = (ground arith, λ q held. ground (arith, h q))
join-min-IsLeast p s rest (some m) h = (grind (arith, h.0), λ q held. ground (arith, h.1 q))

best_bid_of-IsGreatest : (d : Dict ℕ) → IsGreatest (best_bid_of d) d
unfolding best_bid_of lookup
best_bid_of-IsGreatest [] = λ q. refl
best_bid_of-IsGreatest ((p, s) ∷ rest) =
    join-max-IsGreatest p s rest (best_bid_of rest) (best_bid_of-IsGreatest rest)

best_ask_of-IsLeast : (d : Dict ℕ) → IsLeast (best_ask_of d) d
unfolding best_ask_of lookup
best_ask_of-IsLeast [] = λ q. refl
best_ask_of-IsLeast ((p, s) ∷ rest) =
    join-min-IsLeast p s rest (best_ask_of rest) (best_ask_of-IsLeast rest)

-- A book whose sides hold every price once, with a size above zero.
pub record IsBook (b : LocalOrderBook) : Type 0 where
  pub bids : HasLevels b.bids
  pub asks : HasLevels b.asks

no_levels : HasLevels []
no_levels = record { unique = tt; positive = tt }

pub empty_book-IsBook : IsBook empty_book
unfolding empty_book
empty_book-IsBook = record { bids = no_levels; asks = no_levels }

pub apply_snapshot-IsBook :
    (bids asks : List Level) (b : LocalOrderBook) → IsBook (apply_snapshot bids asks b)
unfolding apply_snapshot levels_of
apply_snapshot-IsBook bids asks b = record {
  bids = collect-HasLevels bids [] no_levels;
  asks = collect-HasLevels asks [] no_levels;
}

pub apply_change-IsBook :
    (p s : ℕ) (side : BookSide) (b : LocalOrderBook) → IsBook b → IsBook (apply_change p s side b)
unfolding apply_change
apply_change-IsBook p s BookSide.sell b h = record {
  bids = h.bids;
  asks = change_levels-HasLevels p s b.asks h.asks;
}
apply_change-IsBook p s BookSide.buy b h = record {
  bids = change_levels-HasLevels p s b.bids h.bids;
  asks = h.asks;
}
apply_change-IsBook p s BookSide.other b h = h

-- The size that a change leaves for its price.
abbrev pub size_after : ℕ → Option ℕ
size_after s = if s == 0 then none else some s

abbrev pub is_buy : BookSide → Bool
is_buy BookSide.buy = true
is_buy _ = false

lookup-change_levels :
    (p s q : ℕ) (d : Dict ℕ)
    → lookup q (change_levels p s d) ≡ (if p == q then size_after s else lookup q d)
unfolding change_levels
lookup-change_levels p s q d = ground (arith, lookup-insert p q s d, lookup-erase p q d)

change_after :
    (bids asks : List Level) (p s q : ℕ) (side : BookSide) (old : LocalOrderBook)
    → lookup q (apply_change p s side (apply_snapshot bids asks old)).bids
      ≡ (if is_buy side && (p == q) then size_after s else last_size q bids none)
unfolding apply_change apply_snapshot levels_of lookup
change_after bids asks p s q BookSide.sell old = lookup-collect q bids []
change_after bids asks p s q BookSide.other old = lookup-collect q bids []
change_after bids asks p s q BookSide.buy old =
    lookup-change_levels p s q (collect bids [])
    ∙ ap (λ o. if p == q then size_after s else o) (lookup-collect q bids [])

-- After a snapshot and one change of the bids or the asks, a price of the bids has the size of the change
-- if that was for this price and the bids, and else the size that the last row of the snapshot with
-- this price and a size above zero gives; the best bid is the greatest price of the bids and the best
-- ask the least of the asks, or there is none.
pub snapshot_and_change :
    (bids asks : List Level) (p s q : ℕ) (side : BookSide) (old : LocalOrderBook)
    → let b = apply_change p s side (apply_snapshot bids asks old) in
      (lookup q b.bids ≡ (if is_buy side && (p == q) then size_after s else last_size q bids none))
      × IsGreatest (best_bid b) b.bids
      × IsLeast (best_ask b) b.asks
unfolding best_bid best_ask
snapshot_and_change bids asks p s q side old =
    let b = apply_change p s side (apply_snapshot bids asks old) in
    (
      change_after bids asks p s q side old,
      best_bid_of-IsGreatest b.bids,
      best_ask_of-IsLeast b.asks,
    )
