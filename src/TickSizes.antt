-- ===== src/TickSizes.antt =====
-- backend/src/framework/strategy_runtime/tick_size_service.py and tick_verifier.py: the cache of
-- tick sizes, the consensus of three sources, and the verification of a changed tick size, whose
-- waits show in the times of its rounds. Tick sizes are numbers of a fixed unit and times are
-- milliseconds; an HTTP answer that fails, or lacks the field, is `none`. The lock of a token makes
-- its refreshes one after the other, so that a refresh is one step from the lock to its end; a
-- plain `get` looks at the cache again when it has the lock.
use poly_strategy.Prelude.{
  ℕ, zero, suc, ◌+◌, ◌-◌, ◌≤◌, Bool, true, false, not, ◌&&◌, ◌||◌, Option, none, some, List, [],
  ◌∷◌, Dict, lookup, insert, erase, leb, ltb, ◌==◌, if◌then◌else◌,
}
pub mod Consensus
pub mod Cache
mod Tests

pub record Cached : Type 0 where
  pub tick_size : ℕ
  pub at : ℕ

abbrev pub TickCache : Type 0
TickCache = Dict Cached

-- `_fetch_tick_size_sync`, `_fetch_book_tick_size_sync`: a size of 0 is an error too.
unfoldable pub read_tick_size : Option ℕ → Option ℕ
read_tick_size none = none
read_tick_size (some n) = if n == 0 then none else some n

abbrev pub or_later : Option ℕ → Option ℕ → Option ℕ
or_later (some n) later = some n
or_later none later = later

-- The attempts of `_fetch_tick_size` and `refresh_book_tick_size`, from the attempt `i` on.
unfoldable pub attempt : (left i : ℕ) → (ℕ → Option ℕ) → Option ℕ
unfolding read_tick_size
attempt zero i answers = none
attempt (suc left) i answers = or_later (read_tick_size (answers i)) (attempt left (suc i) answers)

unfoldable pub fetch : (ℕ → Option ℕ) → Option ℕ
unfolding attempt
fetch answers = attempt 3 0 answers

-- The cached tick size, if it is young enough.
unfoldable pub young : (max_age_ms now : ℕ) → Option Cached → Option ℕ
young max_age_ms now none = none
young max_age_ms now (some c) = if leb (now - c.at) max_age_ms then some c.tick_size else none

unfoldable pub store : (token_id now : ℕ) → Option ℕ → TickCache → TickCache × Option ℕ
store token_id now none cache = (cache, none)
store token_id now (some n) cache =
    (insert token_id (record { tick_size = n; at = now }) cache, some n)

-- `refresh`: its answer comes at the time `now`.
unfoldable pub refresh : (token_id now : ℕ) → (ℕ → Option ℕ) → TickCache → TickCache × Option ℕ
unfolding fetch store
refresh token_id now answers cache = store token_id now (fetch answers) cache

unfoldable pub get_or : Option ℕ → TickCache → TickCache × Option ℕ → TickCache × Option ℕ
get_or (some n) cache fetched = (cache, some n)
get_or none cache fetched = fetched

-- `get` at the time `now`, with the lock at `locked_at` and the answer at `answered_at`.
unfoldable pub get :
    (max_age_ms token_id now locked_at answered_at : ℕ)
    → (ℕ → Option ℕ)
    → TickCache
    → TickCache × Option ℕ
unfolding young get_or refresh
get max_age_ms token_id now locked_at answered_at answers cache =
    get_or (young max_age_ms now (lookup token_id cache)) cache (
      get_or (young max_age_ms locked_at (lookup token_id cache)) cache
        (refresh token_id answered_at answers cache))

-- `invalidate`
unfoldable pub invalidate : (token_id : ℕ) → TickCache → TickCache
invalidate token_id cache = erase token_id cache

-- What `refresh_consensus` returns or raises.
pub data Outcome : Type 0 where
  agreed : ℕ → Outcome
  disagree : (ws : Option ℕ) → (tick_api book : ℕ) → Outcome
  fetch_failed : Outcome

unfoldable pub compare_sources : (ws : Option ℕ) → (tick_api book : Option ℕ) → Outcome
compare_sources ws none book = Outcome.fetch_failed
compare_sources ws (some api) none = Outcome.fetch_failed
compare_sources none (some api) (some book) = Outcome.disagree none api book
compare_sources (some ws) (some api) (some book) =
    if (ws == api) && (api == book) then Outcome.agreed api else Outcome.disagree (some ws) api book

-- `refresh_consensus`, with the answers of /tick-size and /book.
unfoldable pub refresh_consensus :
    (token_id now : ℕ)
    → (ws : Option ℕ) → (tick_api book : ℕ → Option ℕ) → TickCache
    → TickCache × Outcome
unfolding refresh fetch compare_sources
refresh_consensus token_id now ws tick_api book cache =
    let (cache', api) = refresh token_id now tick_api cache in
    (cache', compare_sources ws api (fetch book))

-- One round of `verify`: the time at its head, after the wait of the round before, and the tick size of
-- the channel and the answers of the other sources, which are cached at the time `now`.
pub record Attempt : Type 0 where
  pub started : ℕ
  pub now : ℕ
  pub ws_tick_size : Option ℕ
  pub tick_api : ℕ → Option ℕ
  pub book : ℕ → Option ℕ

pub data VerifyError : Type 0 where
  not_started unexpected_tick_size tick_source_mismatch failed : VerifyError

-- `TickVerifyResult`
pub data VerifyResult : Type 0 where
  confirmed : (tick_size : ℕ) → VerifyResult
  refused : VerifyError → VerifyResult

unfoldable pub judge : (target : ℕ) → Outcome → VerifyResult
judge target (Outcome.agreed n) =
    if n == target
    then VerifyResult.confirmed n
    else VerifyResult.refused VerifyError.unexpected_tick_size
judge target (Outcome.disagree ws api book) = VerifyResult.refused VerifyError.tick_source_mismatch
judge target Outcome.fetch_failed = VerifyResult.refused VerifyError.failed

-- After an attempt: the confirmation, or what the later attempts give.
abbrev pub confirmed_or : VerifyResult → (later : VerifyResult → VerifyResult) → VerifyResult
confirmed_or (VerifyResult.confirmed n) later = VerifyResult.confirmed n
confirmed_or (VerifyResult.refused e) later = later (VerifyResult.refused e)

-- The loop of `verify`, which ends at the head of the first round that is not before the deadline.
unfoldable pub verify_from :
    (target deadline token_id : ℕ)
    → List Attempt
    → TickCache
    → (last_result : VerifyResult) → VerifyResult
unfolding refresh_consensus judge
verify_from target deadline token_id [] cache last_result = last_result
verify_from target deadline token_id (a ∷ rest) cache last_result =
    let (cache', outcome) =
      refresh_consensus token_id a.now a.ws_tick_size a.tick_api a.book cache in
    let next =
      confirmed_or (judge target outcome) (verify_from target deadline token_id rest cache') in
    if ltb a.started deadline then next else last_result

-- `verify`, begun at the time `begin`.
unfoldable pub verify :
    (target begin max_duration token_id : ℕ) → List Attempt → TickCache → VerifyResult
unfolding verify_from
verify target begin max_duration token_id attempts cache =
    verify_from target (begin + max_duration) token_id attempts cache
      (VerifyResult.refused VerifyError.not_started)
