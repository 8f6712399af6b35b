-- ===== src/BalancePoller/Reservations.antt =====
-- Reservations never exceed the cash that is there, and give it back (balance_poller.py).
use native.Mathlib.Nat.{div-mul-le_self, lt-div-mul-add}
use native.Mathlib.Decide.{dec_le}
use poly_strategy.Prelude.{
  ℕ, ◌+◌, ◌*◌, ◌/◌, ◌≤◌, ◌<◌, min, ◌≡◌, List, [], ◌∷◌, arith, inl, inr, ◌⊎◌,
}
use poly_strategy.BalancePoller.State.{Poller, available_cash, release_buy, reserve_buy_shares}

-- A whole number of shares that is bought with a quotient rounded down is covered.
floor_covered : (a p u : ℕ) → a / (p * u) * u * p ≤ a
floor_covered a p u = omega (arith, div-mul-le_self a (p * u))

min_covered : (r m p a : ℕ) → m * p ≤ a → min r m * p ≤ a
min_covered r m p a h = grind arith

reserve_conserves :
    (u r p m : ℕ) (s : Poller)
    → let (s', n) = reserve_buy_shares u r p m s in n * p + available_cash s' ≡ available_cash s
unfolding reserve_buy_shares
reserve_conserves u r p m s = ground (
  arith,
  floor_covered (available_cash s) p u,
  min_covered r (available_cash s / (p * u) * u) p (available_cash s),
)

-- A configuration's request for shares.
pub record Request : Type 0 where
  pub shares : ℕ
  pub price : ℕ
  pub min_shares : ℕ

-- The configurations' requests in the order in which they get the lock, and the money that each is
-- granted.
unfoldable pub reserve_all : ℕ → List Request → Poller → Poller × ℕ
reserve_all u [] s = (s, 0)
reserve_all u (q ∷ qs) s =
    let (s', n) = reserve_buy_shares u q.shares q.price q.min_shares s in
    let (s'', money) = reserve_all u qs s' in (s'', n * q.price + money)

-- In whatever order the requests of the configurations come, what is granted in all and what is
-- still available add up to the cash that was available: the wallet is never promised twice.
pub reserve_all_conserves :
    (u : ℕ) (qs : List Request) (s : Poller)
    → (reserve_all u qs s).1 + available_cash (reserve_all u qs s).0 ≡ available_cash s
unfolding reserve_all
reserve_all_conserves u [] s = omega arith
reserve_all_conserves u (q ∷ qs) s =
    let s' = (reserve_buy_shares u q.shares q.price q.min_shares s).0 in
    omega
      (arith, reserve_conserves u q.shares q.price q.min_shares s, reserve_all_conserves u qs s')

granted :
    (u r p m : ℕ) (s : Poller)
    → let n = (reserve_buy_shares u r p m s).1 in
      (n ≡ 0) ⊎ ((0 < p) × (n ≡ min r (available_cash s / (p * u) * u)) × (m ≤ n))
unfolding reserve_buy_shares
granted u r p m s = ground arith

-- With as many whole shares as the cash pays for, one more is not covered.
more_needed :
    (a p u n left : ℕ) → 0 < p → 0 < u → n ≡ a / (p * u) * u → n * p + left ≡ a → left < p * u
more_needed a p u n left pp pu e k =
    let pos : 0 < p * u = grind arith in
    let cost : n * p ≡ a / (p * u) * (p * u) = rw e (omega arith) in
    omega (arith, lt-div-mul-add {a = a} pos)

-- A grant is nothing, or lies between the minimum and the request. It is the whole request, or else
-- the cash left does not pay for one more whole share.
pub reserve_is_maximal :
    (u r p m : ℕ) (s : Poller)
    → 0 < u
    → let (s', n) = reserve_buy_shares u r p m s in
      (n ≡ 0) ⊎ ((m ≤ n) × (n ≤ r) × ((n ≡ r) ⊎ (available_cash s' < p * u)))
reserve_is_maximal u r p m s h =
    let a = available_cash s in
    let n = (reserve_buy_shares u r p m s).1 in
    let kept = reserve_conserves u r p m s in
    elim (granted u r p m s) [
      | inl nothing ↦ inl nothing
      | inr (pp, eq, le) ↦ inr (
        le,
        rw eq (omega arith),
        elim (dec_le r (a / (p * u) * u)) [
          | yes fits ↦ inl (omega arith)
          | no short ↦ inr (
              more_needed a p u n (available_cash (reserve_buy_shares u r p m s).0) pp h
                (omega arith) kept)
        ],
      )
    ]

-- Releasing the notional of a grant leaves the poller as it was before the grant.
pub release-reserve :
    (u r p m : ℕ) (s : Poller)
    → let (s', n) = reserve_buy_shares u r p m s in release_buy (n * p) s' ≡ s
unfolding reserve_buy_shares release_buy
release-reserve u r p m s = ground arith
