-- ===== src/SellFailure/Breaker.antt =====
-- `SellErrorCircuitBreaker` of sell_failure.py.
use poly_strategy.Prelude.{
  ℕ, suc, ◌+◌, ◌≤◌, ◌<◌, ◌≡◌, refl, subst, Bool, true, false, not, ◌&&◌, none, some, List, [], ◌∷◌,
  ◌++◌, arith, if◌then◌else◌, ◌==◌, leb, ltb, length, elem, Dict, lookup, insert, Bool-cases, inl,
  inr,
}
use poly_strategy.SellFailure.Classify.{Signature, number}

-- `(time, token_id)`
abbrev pub Event : Type 0
Event = ℕ × ℕ

pub record Breaker : Type 0 where
  pub threshold : ℕ
  pub window : ℕ
  pub events : Dict (List Event)
  pub opened_signatures : List ℕ

-- `SellErrorCircuitBreaker(threshold, window_sec)`
unfoldable pub new_breaker : (threshold window : ℕ) → Breaker
new_breaker threshold window = record {
  threshold = threshold;
  window = window;
  events = [];
  opened_signatures = [];
}

-- `_prune`: `events[0][0] <= now - window` is `events[0][0] + window <= now`.
unfoldable pub prune : (window now : ℕ) → List Event → List Event
prune window now [] = []
prune window now ((at, token) ∷ rest) =
    let later = prune window now rest in if leb (at + window) now then later else (at, token) ∷ rest

-- `self._events[error_signature]` of the `defaultdict`, or of `get` with an empty default.
unfoldable pub events_of : Signature → Breaker → List Event
events_of signature b = elim (lookup (number signature) b.events) [ none ↦ [] | some es ↦ es ]

-- `record_event` at the time `now`.
unfoldable pub record_event : (now token_id : ℕ) → Signature → Breaker → Breaker × Bool
unfolding prune events_of
record_event now token_id signature b =
    if elem (number signature) b.opened_signatures
    then (b, false)
    else let events = prune b.window now (events_of signature b ++ (now, token_id) ∷ []) in
      let b' = record b { events = insert (number signature) events b.events } in
      if ltb (length events) b.threshold
      then (b', false)
      else (record b' { opened_signatures = number signature ∷ b.opened_signatures }, true)

-- `event_count` prunes the queue that it counts, if there is one.
unfoldable pub event_count : ℕ → Signature → Breaker → Breaker × ℕ
unfolding prune
event_count now signature b = elim (lookup (number signature) b.events) [
  | none ↦ (b, 0)
  | some es ↦
      let kept = prune b.window now es in
      (record b { events = insert (number signature) kept b.events }, length kept)
]

-- One report: a time, a token and a signature.
pub record Report : Type 0 where
  pub now : ℕ
  pub token_id : ℕ
  pub signature : Signature

-- The reports in order, and how often `record_event` answered true for one signature.
pub opens : Signature → List Report → Breaker → ℕ
opens s [] b = 0
opens s (r ∷ rs) b =
    let (b', opened) = record_event r.now r.token_id r.signature b in
    let later = opens s rs b' in
    if opened then (if number r.signature == number s then suc later else later) else later

-- A signature stays open, whatever is reported.
open_stays :
    (now token : ℕ) (r s : Signature) (b : Breaker)
    → elem (number s) b.opened_signatures ≡ true
    → elem (number s) (record_event now token r b).0.opened_signatures ≡ true
unfolding record_event
open_stays now token r s b h = ground arith

-- A signature that is open is not opened again.
open_is_silent :
    (now token : ℕ) (r : Signature) (b : Breaker)
    → elem (number r) b.opened_signatures ≡ true
    → (record_event now token r b).1 ≡ false
unfolding record_event
open_is_silent now token r b h = ground arith

opened_is_open :
    (now token : ℕ) (r : Signature) (b : Breaker)
    → (record_event now token r b).1 ≡ true
    → elem (number r) (record_event now token r b).0.opened_signatures ≡ true
unfolding record_event
opened_is_open now token r b h = ground arith

opens_after :
    (s : Signature) (rs : List Report) (b : Breaker)
    → elem (number s) b.opened_signatures ≡ true
    → opens s rs b ≡ 0
unfolding opens
opens_after s [] b h = refl
opens_after s (r ∷ rs) b h =
    let later =
      opens_after s rs (record_event r.now r.token_id r.signature b).0
        (open_stays r.now r.token_id r.signature s b h) in
    elim (Bool-cases (number r.signature == number s)) [
      | inl own ↦
          let e : number s ≡ number r.signature = ground arith in
          let silent =
            open_is_silent r.now r.token_id r.signature b
              (subst (λ k. elem k b.opened_signatures ≡ true) e h) in
          rw (silent, later)
      | inr other ↦ rw (other, later) (ground arith)
    ]

-- Over any reports of any signatures, the breaker answers true at most once for a signature.
pub opens_at_most_once : (s : Signature) (rs : List Report) (b : Breaker) → opens s rs b ≤ 1
unfolding opens
opens_at_most_once s [] b = omega arith
opens_at_most_once s (r ∷ rs) b =
    let b' = (record_event r.now r.token_id r.signature b).0 in
    let later = opens_at_most_once s rs b' in
    elim (Bool-cases (record_event r.now r.token_id r.signature b).1) [
      | inr quiet ↦ rw quiet later
      | inl opened ↦ elim (Bool-cases (number r.signature == number s)) [
        | inr other ↦ rw (opened, other) later
        | inl own ↦
            let e : number r.signature ≡ number s = ground arith in
            let open_now = opened_is_open r.now r.token_id r.signature b opened in
            rw
              (
                opened,
                own,
                opens_after s rs b' (subst (λ k. elem k b'.opened_signatures ≡ true) e open_now),
              )
              (omega arith)
      ]
    ]

-- A queue in the order of its times, from `lo` up to `hi`.
abbrev pub Ascending : ℕ → ℕ → List Event → Type 0
Ascending lo hi [] = lo ≤ hi
Ascending lo hi ((at, token) ∷ rest) = (lo ≤ at) × Ascending at hi rest

-- How many events are younger than the window.
abbrev pub count_recent : (window now : ℕ) → List Event → ℕ
count_recent window now [] = 0
count_recent window now ((at, token) ∷ rest) =
    if ltb now (at + window)
    then suc (count_recent window now rest)
    else count_recent window now rest

all_recent :
    (w now lo hi : ℕ) (es : List Event)
    → Ascending lo hi es
    → now < lo + w
    → count_recent w now es ≡ length es
all_recent w now lo hi [] a h = refl
all_recent w now lo hi ((at, token) ∷ rest) a h = ground (arith, all_recent w now at hi rest a.1)

length-prune :
    (w now lo hi : ℕ) (es : List Event)
    → Ascending lo hi es
    → length (prune w now es) ≡ count_recent w now es
unfolding prune
length-prune w now lo hi [] a = refl
length-prune w now lo hi ((at, token) ∷ rest) a =
    ground (arith, length-prune w now at hi rest a.1, all_recent w now at hi rest a.1)

Ascending-append :
    (lo now token : ℕ) (es : List Event)
    → Ascending lo now es
    → Ascending lo now (es ++ (now, token) ∷ [])
Ascending-append lo now token [] a = (a, omega arith)
Ascending-append lo now token ((at, k) ∷ rest) a = (a.0, Ascending-append at now token rest a.1)

count_recent-append :
    (w now token : ℕ) (es : List Event)
    → 0 < w
    → count_recent w now (es ++ (now, token) ∷ []) ≡ suc (count_recent w now es)
count_recent-append w now token [] h = ground arith
count_recent-append w now token ((at, k) ∷ rest) h =
    ground (arith, count_recent-append w now token rest h)

-- With a window above zero, a queue in the order of time and a clock that is not behind it,
-- `record_event` answers true exactly if the signature is not open yet and its events inside the
-- window, the new one included, have reached the threshold.
pub opens_exactly :
    (now token : ℕ) (s : Signature) (b : Breaker)
    → 0 < b.window
    → Ascending 0 now (events_of s b)
    → (record_event now token s b).1 ≡ (
        not (elem (number s) b.opened_signatures)
        && leb b.threshold (suc (count_recent b.window now (events_of s b))))
unfolding record_event
opens_exactly now token s b h a = ground (
  arith,
  length-prune b.window now 0 now (events_of s b ++ (now, token) ∷ [])
      (Ascending-append 0 now token (events_of s b) a),
  count_recent-append b.window now token (events_of s b) h,
)
