-- ===== src/TickSizes/Tests.antt =====
-- Tick sizes at concrete inputs (tick_size_service.py, tick_verifier.py), in units of 0.001.
use poly_strategy.Prelude.{ℕ, zero, suc, ◌≡◌, refl, Option, none, some, List, [], ◌∷◌, true}
use poly_strategy.TickSizes.{fetch, get, invalidate, Attempt, VerifyResult, verify}
use poly_strategy.TickSizes.Consensus.{confirms, verify-confirms}
use poly_strategy.TickSizes.Cache.{get-invalidate}

-- The first request fails, the others give 0.001.
abbrev late_answer : ℕ → Option ℕ
late_answer zero = none
late_answer (suc i) = some 1

abbrev old_answer : ℕ → Option ℕ
old_answer i = some 10

abbrev attempt_at : (started : ℕ) → (book : ℕ → Option ℕ) → Attempt
attempt_at started book = record {
  started = started;
  now = 0;
  ws_tick_size = some 1;
  tick_api = late_answer;
  book = book;
}

-- The second round hits, the third would be too late.
abbrev rounds : List Attempt
rounds = attempt_at 100 old_answer ∷ attempt_at 101 late_answer ∷ attempt_at 1900 late_answer ∷ []

verify_runs : verify 1 100 1800 5 rounds [] ≡ VerifyResult.confirmed 1
unfolding verify
verify_runs = refl

verify-confirms_example : confirms 1 (verify 1 100 1800 5 rounds []) ≡ true
unfolding verify
verify-confirms_example = verify-confirms 1 100 1800 5 rounds []

get-invalidate_example : (get 1000 5 900 900 900 old_answer (invalidate 5 [])).1 ≡ fetch old_answer
get-invalidate_example = get-invalidate 1000 5 900 900 900 old_answer []
