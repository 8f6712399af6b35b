-- ===== src/SellFailure/Tracker.antt =====
-- `SellFailureTracker` of sell_failure.py.
use poly_strategy.Prelude.{
  ℕ, suc, ◌+◌, ◌-◌, ◌≡◌, refl, Bool, true, ◌&&◌, Option, none, some, List, [], ◌∷◌, arith,
  if◌then◌else◌, ◌==◌, leb, ltb, not, Text, length, is_some,
}
use poly_strategy.SellFailure.Classify.{Signature, number, same}

pub data StopReason : Type 0 where
  same_error_repeated : StopReason

pub record Snapshot : Type 0 where
  pub attempt_count : ℕ
  pub consecutive_same_error : ℕ
  pub error_signature : Signature
  pub last_error : Option Text
  pub elapsed_ms : ℕ
  pub stop_reason : Option StopReason

pub record Tracker : Type 0 where
  pub max_consecutive_same_error : ℕ
  pub started_at : ℕ
  pub attempt_count : ℕ
  pub consecutive_same_error : ℕ
  pub error_signature : Signature
  pub last_error : Option Text

-- `SellFailureTracker(max_consecutive_same_error)`, made at the time `now`.
unfoldable pub new_tracker : (max_same now : ℕ) → Tracker
new_tracker max_same now = record {
  max_consecutive_same_error = max_same;
  started_at = now;
  attempt_count = 0;
  consecutive_same_error = 0;
  error_signature = Signature.unknown_api_error;
  last_error = none;
}

-- `snapshot`, with times in milliseconds.
unfoldable pub snapshot : ℕ → Tracker → Snapshot
snapshot now t = record {
  attempt_count = t.attempt_count;
  consecutive_same_error = t.consecutive_same_error;
  error_signature = t.error_signature;
  last_error = t.last_error;
  elapsed_ms = now - t.started_at;
  stop_reason =
      if not (t.max_consecutive_same_error == 0)
        && leb t.max_consecutive_same_error t.consecutive_same_error
      then some StopReason.same_error_repeated
      else none;
}

-- The changes that `record` makes before it takes the snapshot.
unfoldable pub count_failure : Signature → Option Text → Tracker → Tracker
count_failure signature error t =
    if same signature t.error_signature
    then record t {
      attempt_count = t.attempt_count + 1;
      consecutive_same_error = t.consecutive_same_error + 1;
      last_error = error;
    }
    else record t {
      attempt_count = t.attempt_count + 1;
      error_signature = signature;
      consecutive_same_error = 1;
      last_error = error;
    }

-- `record`
unfoldable pub record_failure : ℕ → Signature → Option Text → Tracker → Tracker × Snapshot
unfolding count_failure snapshot
record_failure now signature error t =
    let t' = count_failure signature error t in (t', snapshot now t')

-- A history of failures, the latest first, and the tracker that has recorded it.
abbrev pub History : Type 0
History = List (Signature × Option Text)

pub after_history : (max_same started : ℕ) → History → Tracker
unfolding new_tracker
after_history max_same started [] = new_tracker max_same started
after_history max_same started ((s, e) ∷ h) = count_failure s e (after_history max_same started h)

-- How many of the latest failures have the signature.
abbrev pub streak_of : Signature → History → ℕ
streak_of s [] = 0
streak_of s ((r, e) ∷ h) = if same s r then suc (streak_of s h) else 0

-- How many of the latest failures have the signature of the latest one.
abbrev pub streak : History → ℕ
streak [] = 0
streak ((s, e) ∷ h) = suc (streak_of s h)

same-number : (a b : Signature) → same a b ≡ true → number a ≡ number b
same-number a b h = ground arith

streak_of-same : (a b : Signature) (h : History) → same a b ≡ true → streak_of a h ≡ streak_of b h
streak_of-same a b [] e = refl
streak_of-same a b ((r, x) ∷ h) e = ground (arith, streak_of-same a b h e)

-- Whether the latest failure has the signature; before the first one it is `unknown_api_error`.
abbrev latest_is : Signature → History → Bool
latest_is s [] = same s Signature.unknown_api_error
latest_is s ((r, e) ∷ h) = same s r

tracked :
    (m t : ℕ) (h : History) (s : Signature)
    → (same s (after_history m t h).error_signature ≡ latest_is s h)
      × ((after_history m t h).consecutive_same_error ≡ streak h)
      × ((after_history m t h).attempt_count ≡ length h)
      × ((after_history m t h).max_consecutive_same_error ≡ m)
unfolding after_history count_failure
tracked m t [] s = (refl, refl, refl, refl)
tracked m t ((r, e) ∷ []) s = ground arith
tracked m t ((r, e) ∷ (q, x) ∷ h) s =
    ground (arith, tracked m t ((q, x) ∷ h) s, tracked m t ((q, x) ∷ h) r, streak_of-same r q h)

-- After any history of failures, `attempt_count` is their number, `consecutive_same_error` is the
-- number of latest failures with one signature, and the tracker asks to stop exactly if a limit above
-- zero is set and that number has reached it.
pub tracker_counts :
    (m t now : ℕ) (h : History)
    → let s = snapshot now (after_history m t h) in
      (s.attempt_count ≡ length h)
      × (s.consecutive_same_error ≡ streak h)
      × (is_some s.stop_reason ≡ (ltb 0 m && leb m (streak h)))
unfolding snapshot
tracker_counts m t now h = ground (arith, tracked m t h Signature.unknown_api_error)
