-- ===== src/SignalWeather/Sweeps.antt =====
-- Sweeps against the best asks (weather_engine.py).
use poly_strategy.Prelude.{
  ℕ, ◌≡◌, ◌<◌, refl, ◌∙◌, ap, Bool, true, false, not, ◌&&◌, ◌||◌, leb, ltb, if◌then◌else◌, Option,
  none, some, List, [], ◌∷◌, ◌++◌, Dict, Entries, min, arith,
}
use poly_strategy.OrderBook.Book.{best_ask_of, join, apply_snapshot, best_ask}
use poly_strategy.OrderBook.Levels.{IsBook, apply_snapshot-IsBook}
use poly_strategy.SignalWeather.Market.{
  Outcome, Snapshot, top_of_book, has_ask_through, swept_threshold, sweep_ask_thresholds,
}
use poly_strategy.SignalWeather.Timers.{
  Monitor, AssetState, and_then, Effect, state_of, with_state, outcome_of, set_tick,
  start_confirmation, cancel_confirmation,
}
use poly_strategy.SignalWeather.Monitor.{
  Earlier, SnapshotMessage, Message, is_sweep_tick, is_favored, sweep_of, sweep_effects,
  evaluate_asset, load_snapshot, favored_now, earlier_of, on_asset, publish_book_update,
  deliver_book, deliver_running, deliver,
}
use poly_strategy.SignalWeather.Stable.{evaluate_asset_keeps}

-- Whether a best ask is at a threshold or below it.
abbrev pub is_through : (threshold : ℕ) → Option ℕ → Bool
is_through threshold none = false
is_through threshold (some ask) = leb ask threshold

through_join :
    (threshold p s : ℕ) (rest : Option ℕ)
    → 0 < s
    → ((leb p threshold && ltb 0 s) || is_through threshold rest)
      ≡ is_through threshold (join min p rest)
through_join threshold p s none pos = ground arith
through_join threshold p s (some ask) pos = ground arith

has_ask_through-best_ask_of :
    (threshold : ℕ) (asks : Dict ℕ)
    → Entries (λ p s. 0 < s) asks
    → has_ask_through threshold asks ≡ is_through threshold (best_ask_of asks)
unfolding has_ask_through best_ask_of
has_ask_through-best_ask_of threshold [] h = refl
has_ask_through-best_ask_of threshold ((p, s) ∷ rest) h =
    ap (λ b. (leb p threshold && ltb 0 s) || b) (has_ask_through-best_ask_of threshold rest h.1)
    ∙ through_join threshold p s (best_ask_of rest) h.0

-- The best ask moved away: from at most 0.99 to above it or to nothing, and else the same of 0.98.
abbrev pub seen_sweep : (before after : Option ℕ) → Option ℕ
seen_sweep before after =
    if is_through 9900 before && not (is_through 9900 after)
    then some 9900
    else if is_through 9800 before && not (is_through 9800 after)
    then some 9800
    else none

swept_threshold-seen_sweep :
    (asks asks' : Dict ℕ)
    → Entries (λ p s. 0 < s) asks
    → Entries (λ p s. 0 < s) asks'
    → swept_threshold sweep_ask_thresholds asks asks'
      ≡ seen_sweep (best_ask_of asks) (best_ask_of asks')
unfolding swept_threshold
swept_threshold-seen_sweep asks asks' h k =
    rw
      (
        has_ask_through-best_ask_of 9900 asks h,
        has_ask_through-best_ask_of 9900 asks' k,
        has_ask_through-best_ask_of 9800 asks h,
        has_ask_through-best_ask_of 9800 asks' k,
      )
      refl

abbrev pub expected_sweep :
    (favored : Option Outcome) (o : Outcome) (tick tick' before after : Option ℕ) → Option ℕ
expected_sweep favored o tick tick' before after =
    if is_favored favored o && is_sweep_tick tick && is_sweep_tick tick'
    then seen_sweep before after
    else none

state_of-with_state :
    (o : Outcome) (s : AssetState) (m : Monitor) → state_of o (with_state o s m) ≡ s
state_of-with_state Outcome.yes_asset s m = refl
state_of-with_state Outcome.no_asset s m = refl

with_state-publishes :
    (b : Bool) (o : Outcome) (s : AssetState) (m : Monitor)
    → m.publishes_books ≡ b
    → (with_state o s m).publishes_books ≡ b
with_state-publishes b Outcome.yes_asset s m e = e
with_state-publishes b Outcome.no_asset s m e = e

start_confirmation-publishes :
    (b : Bool) (o : Outcome) (before : Option Snapshot) (m : Monitor)
    → m.publishes_books ≡ b
    → (start_confirmation o before m).publishes_books ≡ b
unfolding start_confirmation
start_confirmation-publishes b o before m e = with_state-publishes b o _ _ e

cancel_confirmation-publishes :
    (b : Bool) (o : Outcome) (id : ℕ) (m : Monitor)
    → m.publishes_books ≡ b
    → (cancel_confirmation o id m).publishes_books ≡ b
unfolding cancel_confirmation
cancel_confirmation-publishes b o id m e = with_state-publishes b o _ _ e

evaluate_asset-publishes :
    (now : ℕ) (o : Outcome) (earlier : Option Earlier) (m : Monitor)
    → (evaluate_asset now o earlier m).0.publishes_books ≡ m.publishes_books
evaluate_asset-publishes now o earlier m =
    evaluate_asset_keeps (λ x. x.publishes_books ≡ m.publishes_books)
      (with_state-publishes m.publishes_books) (start_confirmation-publishes m.publishes_books)
      (cancel_confirmation-publishes m.publishes_books) now o earlier m refl

sweep_of-expected_sweep :
    (earlier : Earlier) (o : Outcome) (s : AssetState)
    → Entries (λ p n. 0 < n) earlier.asks
    → Entries (λ p n. 0 < n) s.book.asks
    → sweep_of (some earlier) o s
      ≡ expected_sweep earlier.favored o earlier.tick s.tick
          (best_ask_of earlier.asks)
          (best_ask_of s.book.asks)
unfolding sweep_of
sweep_of-expected_sweep earlier o s h k =
    ap
      (λ r.
        if is_favored earlier.favored o && is_sweep_tick earlier.tick && is_sweep_tick s.tick
        then r
        else none)
      (swept_threshold-seen_sweep earlier.asks s.book.asks h k)

-- The whole of what `_evaluate` publishes for a loaded snapshot.
loaded_effects :
    (now : ℕ) (o : Outcome) (earlier : Earlier) (s' : AssetState) (m : Monitor)
    → Entries (λ p n. 0 < n) earlier.asks
    → Entries (λ p n. 0 < n) s'.book.asks
    → (evaluate_asset now o (some earlier) (with_state o s' m)).1
      ≡ sweep_effects
          (expected_sweep earlier.favored o earlier.tick s'.tick
            (best_ask_of earlier.asks)
            (best_ask_of s'.book.asks))
          o
          s'.last
          (top_of_book now s'.book)
unfolding evaluate_asset
loaded_effects now o earlier s' m h k =
    rw (state_of-with_state o s' m, sweep_of-expected_sweep earlier o s' h k) refl

appended :
    (xs ys : List Effect) (a b : Bool)
    → xs ≡ ys
    → a ≡ b
    → (xs ++ (if a then Effect.book_update ∷ [] else []))
      ≡ (ys ++ (if b then Effect.book_update ∷ [] else []))
appended xs ys a b e f = rw (e, f) refl

snapshot_effects :
    (now : ℕ) (d : SnapshotMessage) (o : Outcome) (m : Monitor)
    → IsBook (state_of o m).book
    → (and_then
        (evaluate_asset now o
          (some (earlier_of o m))
          (with_state o (load_snapshot d (state_of o m)) m))
        publish_book_update).1
      ≡ sweep_effects
          (expected_sweep
            (favored_now m)
            o
            (state_of o m).tick
            (set_tick d.tick_size (state_of o m)).tick
            (best_ask (state_of o m).book)
            (best_ask (apply_snapshot d.bids d.asks (state_of o m).book)))
          o
          (state_of o m).last
          (top_of_book now (apply_snapshot d.bids d.asks (state_of o m).book))
        ++ (if m.publishes_books then Effect.book_update ∷ [] else [])
unfolding load_snapshot publish_book_update best_ask set_tick
snapshot_effects now d o m books =
    let s' = load_snapshot d (state_of o m) in
    let after = evaluate_asset now o (some (earlier_of o m)) (with_state o s' m) in
    appended _ _ after.0.publishes_books m.publishes_books
      (loaded_effects now o (earlier_of o m) s' m books.asks.positive
        (apply_snapshot-IsBook d.bids d.asks (state_of o m).book).asks.positive)
      (evaluate_asset-publishes now o (some (earlier_of o m)) (with_state o s' m)
        ∙ with_state-publishes m.publishes_books o s' m refl)

-- A book message about an asset of a running monitor publishes a sweep exactly when the asset is the one
-- of the higher probability before the message, its tick size is 0.01 before and after, and the best ask
-- goes from at most a threshold of 0.99 or 0.98 to above it or to nothing; the reason names the first such
-- threshold, and the event holds the earlier observation and the top of the new book. Where the monitor
-- publishes its books, it then does so. Every size of the book before is above zero.
pub book_message_sweeps :
    (now : ℕ) (no_first : Bool) (d : SnapshotMessage) (o : Outcome) (m : Monitor)
    → m.running ≡ true
    → outcome_of d.asset_id m ≡ some o
    → IsBook (state_of o m).book
    → (deliver now no_first (Message.book d) m).1
      ≡ sweep_effects
          (expected_sweep
            (favored_now m)
            o
            (state_of o m).tick
            (set_tick d.tick_size (state_of o m)).tick
            (best_ask (state_of o m).book)
            (best_ask (apply_snapshot d.bids d.asks (state_of o m).book)))
          o
          (state_of o m).last
          (top_of_book now (apply_snapshot d.bids d.asks (state_of o m).book))
        ++ (if m.publishes_books then Effect.book_update ∷ [] else [])
unfolding deliver deliver_running deliver_book
book_message_sweeps now no_first d o m running e books =
    ap (λ b. (if b then deliver_running now no_first (Message.book d) m else (m, [])).1) running
    ∙ ap
        (λ found.
          (on_asset found m λ p.
            and_then
              (evaluate_asset now p (some (earlier_of p m))
                (with_state p (load_snapshot d (state_of p m)) m))
              publish_book_update).1)
        e
    ∙ snapshot_effects now d o m books
