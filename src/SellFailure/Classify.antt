-- ===== src/SellFailure/Classify.antt =====
-- `classify_sell_error` of sell_failure.py.
use poly_strategy.Prelude.{
  ℕ, ◌≡◌, Bool, true, false, ◌||◌, Option, none, some, List, [], ◌∷◌, arith, if◌then◌else◌, ◌==◌,
  Text, codes, lower, lower_code, upper, lower-upper, any_in, occurs_in, Contains,
  occurs_in-Contains, Contains-occurs_in, map, ap, sym, refl, subst, ◌⊎◌, ◌↔◌, inl, inr,
}

pub data Signature : Type 0 where
  insufficient_balance market_trading_disabled market_cancel_disabled : Signature
  invalid_tick_size network_timeout authentication_error : Signature
  invalid_order_params unknown_api_error : Signature

-- The signatures told apart by a number.
unfoldable pub number : Signature → ℕ
number Signature.insufficient_balance = 0
number Signature.market_trading_disabled = 1
number Signature.market_cancel_disabled = 2
number Signature.invalid_tick_size = 3
number Signature.network_timeout = 4
number Signature.authentication_error = 5
number Signature.invalid_order_params = 6
number Signature.unknown_api_error = 7

-- `a == b` on signatures.
abbrev pub same : Signature → Signature → Bool
same a b = number a == number b

-- `OrderResult.status`
pub data OrderStatus : Type 0 where
  filled partial live failed insufficient_balance : OrderStatus

abbrev pub lacks_balance : OrderStatus → Bool
lacks_balance OrderStatus.insufficient_balance = true
lacks_balance _ = false

abbrev pub balance_words : List Text
balance_words =
    codes "insufficient balance" ∷ codes "not enough balance" ∷ codes "not enough allowance" ∷ []

abbrev trading_words : List Text
trading_words = codes "trading is disabled" ∷ []

abbrev cancel_words : List Text
cancel_words = codes "cancels are disabled" ∷ []

abbrev tick_words : List Text
tick_words = codes "invalid tick size" ∷ codes "tick size mismatch" ∷ []

abbrev network_words : List Text
network_words =
    codes "timeout"
    ∷ codes "timed out"
    ∷ codes "connection"
    ∷ codes "network"
    ∷ codes "tick size refresh failed"
    ∷ []

abbrev auth_words : List Text
auth_words = codes "auth" ∷ codes "401" ∷ codes "403" ∷ codes "api key" ∷ codes "signature" ∷ []

abbrev order_words : List Text
order_words =
    codes "invalid order"
    ∷ codes "invalid amount"
    ∷ codes "invalid price"
    ∷ codes "invalid size"
    ∷ codes "invalid param"
    ∷ []

-- The ladder of tests on the text in lower case, from "trading is disabled" on.
unfoldable pub classify_text : Text → Signature
unfolding any_in
classify_text text =
    if any_in trading_words text
    then Signature.market_trading_disabled
    else if any_in cancel_words text
    then Signature.market_cancel_disabled
    else if any_in tick_words text
    then Signature.invalid_tick_size
    else if any_in network_words text
    then Signature.network_timeout
    else if any_in auth_words text
    then Signature.authentication_error
    else if any_in order_words text
    then Signature.invalid_order_params
    else Signature.unknown_api_error

-- `(error or "").lower()`
abbrev pub error_text : Option Text → Text
error_text none = []
error_text (some t) = lower t

unfoldable pub classify_sell_error : OrderStatus → Option Text → Signature
unfolding classify_text any_in
classify_sell_error status error =
    if lacks_balance status || any_in balance_words (error_text error)
    then Signature.insufficient_balance
    else classify_text (error_text error)

classify_text-ne : (t : Text) → same (classify_text t) Signature.insufficient_balance ≡ false
unfolding classify_text number
classify_text-ne t = ground arith

-- The error in lower case.
abbrev pub in_lower_case : Option Text → Text
in_lower_case none = []
in_lower_case (some t) = map lower_code t

lower-map : (t : Text) → lower t ≡ map lower_code t
lower-map [] = refl
lower-map (c ∷ cs) = ap (λ t. lower_code c ∷ t) (lower-map cs)

error_text-in_lower_case : (error : Option Text) → error_text error ≡ in_lower_case error
error_text-in_lower_case none = refl
error_text-in_lower_case (some t) = lower-map t

-- What makes a failure one of an insufficient balance.
abbrev pub TellsShortage : OrderStatus → Text → Type 0
TellsShortage status t =
    (status ≡ OrderStatus.insufficient_balance)
    ⊎ (Contains (codes "insufficient balance") t
        ⊎ (Contains (codes "not enough balance") t ⊎ Contains (codes "not enough allowance") t))

lacks_balance-eq :
    (status : OrderStatus) → lacks_balance status ≡ true → status ≡ OrderStatus.insufficient_balance
lacks_balance-eq OrderStatus.insufficient_balance h = refl
lacks_balance-eq OrderStatus.filled h = absurd (cc)
lacks_balance-eq OrderStatus.partial h = absurd (cc)
lacks_balance-eq OrderStatus.live h = absurd (cc)
lacks_balance-eq OrderStatus.failed h = absurd (cc)

or_true : (a b : Bool) → (a || b) ≡ true → (a ≡ true) ⊎ (b ≡ true)
or_true true b h = inl refl
or_true false b h = inr h

phrase-TellsShortage :
    (status : OrderStatus) (t : Text) → any_in balance_words t ≡ true → TellsShortage status t
unfolding any_in
phrase-TellsShortage status t h = elim (or_true (occurs_in (codes "insufficient balance") t) _ h) [
  | inl e ↦ inr (inl (occurs_in-Contains (codes "insufficient balance") t e))
  | inr k ↦ elim (or_true (occurs_in (codes "not enough balance") t) _ k) [
    | inl e ↦ inr (inr (inl (occurs_in-Contains (codes "not enough balance") t e)))
    | inr l ↦ elim (or_true (occurs_in (codes "not enough allowance") t) false l) [
      | inl e ↦ inr (inr (inr (occurs_in-Contains (codes "not enough allowance") t e)))
      | inr m ↦ absurd (cc)
    ]
  ]
]

TellsShortage-test :
    (status : OrderStatus) (t : Text)
    → TellsShortage status t
    → (lacks_balance status || any_in balance_words t) ≡ true
unfolding any_in
TellsShortage-test status t (inl e) = rw e refl
TellsShortage-test status t (inr (inl c)) =
    ground (arith, Contains-occurs_in (codes "insufficient balance") t c)
TellsShortage-test status t (inr (inr (inl c))) =
    ground (arith, Contains-occurs_in (codes "not enough balance") t c)
TellsShortage-test status t (inr (inr (inr c))) =
    ground (arith, Contains-occurs_in (codes "not enough allowance") t c)

test-TellsShortage :
    (status : OrderStatus) (t : Text)
    → (lacks_balance status || any_in balance_words t) ≡ true
    → TellsShortage status t
test-TellsShortage status t h = elim (or_true (lacks_balance status) _ h) [
  | inl e ↦ inl (lacks_balance-eq status e)
  | inr e ↦ phrase-TellsShortage status t e
]

classify_sell_error-test :
    (status : OrderStatus) (error : Option Text)
    → classify_sell_error status error ≡ Signature.insufficient_balance
    → (lacks_balance status || any_in balance_words (error_text error)) ≡ true
unfolding classify_sell_error number
classify_sell_error-test status error h =
    let told : same (classify_sell_error status error) Signature.insufficient_balance ≡ true =
      rw h refl in
    ground (arith, classify_text-ne (error_text error))

-- A failure counts as insufficient balance exactly if the status says so or the error, in lower case,
-- contains "insufficient balance", "not enough balance" or "not enough allowance", whatever else the
-- error contains.
pub insufficient_exactly :
    (status : OrderStatus) (error : Option Text)
    → (classify_sell_error status error ≡ Signature.insufficient_balance)
      ↔ TellsShortage status (in_lower_case error)
unfolding classify_sell_error
insufficient_exactly status error = (
  λ h.
      subst (TellsShortage status) (error_text-in_lower_case error)
        (test-TellsShortage status (error_text error) (classify_sell_error-test status error h)),
  λ h.
      let text : TellsShortage status (error_text error) =
        subst (TellsShortage status) (sym (error_text-in_lower_case error)) h in
      rw (TellsShortage-test status (error_text error) text) refl,
)

-- The classification does not depend on the case of the ASCII letters of the error.
pub classify-upper :
    (status : OrderStatus) (t : Text)
    → classify_sell_error status (some (upper t)) ≡ classify_sell_error status (some t)
unfolding classify_sell_error
classify-upper status t = rw lower-upper
