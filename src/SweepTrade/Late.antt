-- ===== src/SweepTrade/Late.antt =====
-- The size of the BUY order (service.py).
use native.Mathlib.Nat.{
  div-mul-le_self, lt-div-mul-add, mul_right_comm, mul_comm, add-mul, mul-le-mul_right,
  mul-lt-mul_of_pos_right,
}
use poly_strategy.Prelude.{ℕ, ◌+◌, ◌*◌, ◌/◌, ◌≤◌, ◌<◌, ◌≡◌, min, arith, lt→ltb}
use poly_strategy.SweepTrade.Entry.{entry_size}

scaled : (x a p u : ℕ) → x * p ≤ a → x * u * p ≤ a * u
scaled x a p u h = rw (mul_right_comm x u p) (mul-le-mul_right u h)

crossed : (x p u : ℕ) → (x * u + u) * p ≡ (x * p + p) * u
crossed x p u =
    omega (arith, add-mul (x * u) u p, add-mul (x * p) p u, mul_right_comm x u p, mul_comm u p)

scaled_above : (x a p u : ℕ) → 0 < u → a < x * p + p → a * u < (x * u + u) * p
scaled_above x a p u k h = rw (crossed x p u) (mul-lt-mul_of_pos_right h k)

min_maximal :
    (f m p s a : ℕ)
    → m * p ≤ a
    → a < (m + s) * p
    → (min f m ≤ f) × (min f m * p ≤ a) × ((min f m < f) → a < (min f m + s) * p)
min_maximal f m p s a below above = (
  omega arith,
  grind arith,
  λ less. (let unbounded : min f m ≡ m = omega arith in rw unbounded above),
)

-- With a positive price and share unit, the BUY order is the largest that the cash allows: it is not
-- above the fixed number, its cost at the limit price is covered by the cash, and if it is below the
-- fixed number, one more share would cost more than the cash.
pub entry_size_is_maximal :
    (share limit fixed cash : ℕ)
    → 0 < share
    → 0 < limit
    → (entry_size share limit fixed cash ≤ fixed)
      × (entry_size share limit fixed cash * limit ≤ cash * share)
      × ((entry_size share limit fixed cash < fixed)
          → cash * share < (entry_size share limit fixed cash + share) * limit)
unfolding entry_size
entry_size_is_maximal share limit fixed cash h k = rw (lt→ltb 0 limit k) (
    min_maximal fixed (cash / limit * share) limit share (cash * share)
      (scaled (cash / limit) cash limit share (div-mul-le_self cash limit))
      (scaled_above (cash / limit) cash limit share h (lt-div-mul-add {a = cash} k)))
