-- ===== src/TickSizes/Consensus.antt =====
-- When the sources agree and a tick size is confirmed (tick_size_service.py, tick_verifier.py).
use poly_strategy.Prelude.{
  ℕ, ◌+◌, not, ltb, if◌then◌else◌, true, ◌≡◌, refl, ap, ◌∙◌, Bool, false, ◌&&◌, ◌||◌, Option, none,
  some, List, [], ◌∷◌, ◌==◌, arith, Bool-cases, inl, inr,
}
use poly_strategy.TickSizes.{
  TickCache, read_tick_size, or_later, attempt, fetch, store, refresh, Outcome, compare_sources,
  refresh_consensus, Attempt, VerifyError, VerifyResult, judge, confirmed_or, verify_from, verify,
}

abbrev pub is_size : Option ℕ → ℕ → Bool
is_size none n = false
is_size (some m) n = m == n

-- All three sources have the size.
abbrev pub all_have : (ws tick_api book : Option ℕ) → ℕ → Bool
all_have ws tick_api book n = is_size ws n && is_size tick_api n && is_size book n

abbrev pub agrees_on : Outcome → ℕ → Bool
agrees_on (Outcome.agreed m) n = m == n
agrees_on (Outcome.disagree ws api book) n = false
agrees_on Outcome.fetch_failed n = false

compare_sources-agrees_on :
    (ws api book : Option ℕ) (n : ℕ)
    → agrees_on (compare_sources ws api book) n ≡ all_have ws api book n
unfolding compare_sources
compare_sources-agrees_on ws none book n = ground arith
compare_sources-agrees_on ws (some api) none n = ground arith
compare_sources-agrees_on none (some api) (some book) n = refl
compare_sources-agrees_on (some ws) (some api) (some book) n = ground arith

pub store-answer : (k now : ℕ) (o : Option ℕ) (cache : TickCache) → (store k now o cache).1 ≡ o
unfolding store
store-answer k now none cache = refl
store-answer k now (some n) cache = refl

-- A source answers a size if that is its first valid answer to three requests: an answer that fails or
-- is 0 is followed by the next request.
abbrev pub is_invalid : Option ℕ → Bool
is_invalid none = true
is_invalid (some m) = m == 0

abbrev pub is_valid_as : Option ℕ → ℕ → Bool
is_valid_as none n = false
is_valid_as (some m) n = m == n && not (m == 0)

abbrev pub answers_first : (first second third : Option ℕ) → ℕ → Bool
answers_first first second third n =
    is_valid_as first n
    || (is_invalid first && (is_valid_as second n || (is_invalid second && is_valid_as third n)))

reads_first :
    (a b c : Option ℕ) (n : ℕ)
    → is_size
        (or_later
          (read_tick_size a)
          (or_later (read_tick_size b) (or_later (read_tick_size c) none)))
        n
      ≡ answers_first a b c n
unfolding read_tick_size
reads_first none none none n = refl
reads_first none none (some z) n = ground arith
reads_first none (some y) none n = ground arith
reads_first none (some y) (some z) n = ground arith
reads_first (some x) none none n = ground arith
reads_first (some x) none (some z) n = ground arith
reads_first (some x) (some y) none n = ground arith
reads_first (some x) (some y) (some z) n = ground arith

fetch-answers_first :
    (answers : ℕ → Option ℕ) (n : ℕ)
    → is_size (fetch answers) n ≡ answers_first (answers 0) (answers 1) (answers 2) n
unfolding fetch attempt
fetch-answers_first answers n = reads_first (answers 0) (answers 1) (answers 2) n

-- The channel and the first valid answers of both other sources have the size.
abbrev pub all_answer : (ws : Option ℕ) → (tick_api book : ℕ → Option ℕ) → ℕ → Bool
all_answer ws tick_api book n =
    is_size ws n
    && answers_first (tick_api 0) (tick_api 1) (tick_api 2) n
    && answers_first (book 0) (book 1) (book 2) n

refresh_consensus-agrees_on :
    (k now : ℕ) (ws : Option ℕ) (tick_api book : ℕ → Option ℕ) (cache : TickCache) (n : ℕ)
    → agrees_on (refresh_consensus k now ws tick_api book cache).1 n ≡ all_answer ws tick_api book n
unfolding refresh_consensus refresh
refresh_consensus-agrees_on k now ws tick_api book cache n =
    rw (store-answer k now (fetch tick_api) cache) (
      compare_sources-agrees_on ws (fetch tick_api) (fetch book) n
      ∙ rw (fetch-answers_first tick_api n, fetch-answers_first book n) refl)

-- A round before the deadline, with no round before it that is too late, at which all sources have the
-- target.
abbrev pub any_hits : (target deadline : ℕ) → List Attempt → Bool
any_hits target deadline [] = false
any_hits target deadline (a ∷ rest) =
    ltb a.started deadline
    && (all_answer a.ws_tick_size a.tick_api a.book target || any_hits target deadline rest)

-- The result is a confirmation of the target.
abbrev pub confirms : (target : ℕ) → VerifyResult → Bool
confirms target (VerifyResult.confirmed n) = n == target
confirms target (VerifyResult.refused e) = false

confirms-confirmed_or :
    (target : ℕ) (o : Outcome) (later : VerifyResult → VerifyResult) (hit : Bool)
    → ((e : VerifyError) → confirms target (later (VerifyResult.refused e)) ≡ hit)
    → confirms target (confirmed_or (judge target o) later) ≡ (agrees_on o target || hit)
unfolding judge
confirms-confirmed_or target (Outcome.agreed n) later hit h = elim (Bool-cases (n == target)) [
  | inl e ↦ rw (e, e) refl
  | inr e ↦ rw e (h VerifyError.unexpected_tick_size)
]
confirms-confirmed_or target (Outcome.disagree ws api book) later hit h =
    h VerifyError.tick_source_mismatch
confirms-confirmed_or target Outcome.fetch_failed later hit h = h VerifyError.failed

in_time :
    (target : ℕ) (early : Bool) (next : VerifyResult) (e : VerifyError) (hit : Bool)
    → confirms target next ≡ hit
    → confirms target (if early then next else VerifyResult.refused e) ≡ (early && hit)
in_time target true next e hit h = h
in_time target false next e hit h = refl

verify_from-confirms :
    (target deadline k : ℕ) (rest : List Attempt) (cache : TickCache) (e : VerifyError)
    → confirms target (verify_from target deadline k rest cache (VerifyResult.refused e))
      ≡ any_hits target deadline rest
unfolding verify_from
verify_from-confirms target deadline k [] cache e = refl
verify_from-confirms target deadline k (a ∷ rest) cache e =
    let next = refresh_consensus k a.now a.ws_tick_size a.tick_api a.book cache in
    let round =
      confirms-confirmed_or target next.1 (verify_from target deadline k rest next.0)
        (any_hits target deadline rest)
        (λ e'. verify_from-confirms target deadline k rest next.0 e')
      ∙ ap (λ b. b || any_hits target deadline rest)
          (refresh_consensus-agrees_on k a.now a.ws_tick_size a.tick_api a.book cache target) in
    in_time target (ltb a.started deadline) _ e _ round

-- A changed tick size is confirmed exactly if, at one of the rounds before the first that is not before
-- the deadline, the channel has the target and it is the first valid answer of both other sources, each
-- of which is asked up to three times, failures and zeros being passed over.
pub verify-confirms :
    (target begin max_duration k : ℕ) (rest : List Attempt) (cache : TickCache)
    → confirms target (verify target begin max_duration k rest cache)
      ≡ any_hits target (begin + max_duration) rest
unfolding verify
verify-confirms target begin max_duration k rest cache =
    verify_from-confirms target (begin + max_duration) k rest cache VerifyError.not_started
