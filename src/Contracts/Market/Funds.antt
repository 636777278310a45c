-- ===== src/Contracts/Market/Funds.antt =====
-- The money that the exchange has: what it took and did not pay.
use file_market.Base.{
  ℕ, ◌+◌, ◌/◌, ◌≡◌, refl, sym, ap, ◌∙◌, inl, inr, arith, Bool, true, false, not, ◌&&◌, Option, none,
  some, List, [], ◌∷◌, ◌++◌, ltb, ◌==◌, if◌then◌else◌, Bool-cases, ==_iff, ==_refl, All,
}
use file_market.Base.Result.{Result, ok, err, ◌>>=◌}
use file_market.Contracts.{
  add_uint, mul_uint, sub_uint, put, put_self, put_ne, Post, require-Post, bind-Post, seq-Post,
  Post-map,
}
use file_market.Contracts.Exchange.{
  Order, no_order, Exchange, Payment, percent_multiplier, royalty_ceiling, pay, keep_fee,
  calculate_fee, royalty_paid, payoff_royalty, pay_seller, transfer_cancelled, transfer_finished,
  transfer_fraud_detected,
}
use file_market.Contracts.Exchange.Balance.{
  total, held, End, by_cancellation, by_finish, by_fraud_decision, end_order, IsPaid,
  end_order-IsPaid,
}
pub mod Ends
pub mod Deeds
pub mod Runs

-- The payments in one currency
abbrev pub in_currency : ℕ → List Payment → ℕ
in_currency c [] = 0
in_currency c (p ∷ ps) = (if p.currency == c then p.amount else 0) + in_currency c ps

-- What the exchange owes for an order in a currency: the price, once it is fulfilled
abbrev pub pledge : ℕ → Order → ℕ
pledge c d = if d.fulfilled && (d.currency == c) then d.price else 0

-- The same of the orders of tokens
abbrev pub pledges : ℕ → (ℕ → Order) → List ℕ → ℕ
pledges c orders [] = 0
pledges c orders (k ∷ ks) = pledge c (orders k) + pledges c orders ks

-- How often a token is in a list
abbrev pub times : ℕ → List ℕ → ℕ
times j [] = 0
times j (k ∷ ks) = (if k == j then 1 else 0) + times j ks

pub in_currency-append :
    (c : ℕ) (ps qs : List Payment) → in_currency c (ps ++ qs) ≡ in_currency c ps + in_currency c qs
in_currency-append c [] qs = omega arith
in_currency-append c (p ∷ ps) qs = omega (arith, in_currency-append c ps qs)

-- Payments that are all in one currency
abbrev pub AreIn : ℕ → List Payment → Type 0
AreIn c ps = All (λ (p : Payment). p.currency ≡ c) ps

pub in_currency-total : (c : ℕ) (ps : List Payment) → AreIn c ps → in_currency c ps ≡ total ps
in_currency-total c [] h = refl
in_currency-total c (p ∷ ps) (e, h) = rw (e, ==_refl c) (omega (arith, in_currency-total c ps h))

pub in_currency-other :
    (b c : ℕ) (ps : List Payment) → (c == b) ≡ false → AreIn c ps → in_currency b ps ≡ 0
in_currency-other b c [] n h = refl
in_currency-other b c (p ∷ ps) n (e, h) = rw (e, n) (omega (arith, in_currency-other b c ps n h))

pub AreIn-append : (c : ℕ) (ps qs : List Payment) → AreIn c ps → AreIn c qs → AreIn c (ps ++ qs)
AreIn-append c [] qs h g = g
AreIn-append c (p ∷ ps) qs (e, h) g = (e, AreIn-append c ps qs h g)

-- Where the orders of the other tokens are the same, so is what is owed for them.
pledges-same :
    (c j : ℕ) (f g : ℕ → Order) (ks : List ℕ)
    → times j ks ≡ 0
    → ((i : ℕ) → (i == j) ≡ false → f i ≡ g i)
    → pledges c f ks ≡ pledges c g ks
pledges-same c j f g [] n h = refl
pledges-same c j f g (k ∷ ks) n h = elim (Bool-cases (k == j)) [
  | inl p ↦ absurd (ground (arith, n, p))
  | inr p ↦
      rw (h k p) (ap (λ t. pledge c (g k) + t) (pledges-same c j f g ks (ground (arith, n, p)) h))
]

pub pledges-one :
    (c j : ℕ) (f g : ℕ → Order) (ks : List ℕ)
    → times j ks ≡ 1
    → ((i : ℕ) → (i == j) ≡ false → f i ≡ g i)
    → pledges c f ks + pledge c (g j) ≡ pledges c g ks + pledge c (f j)
pledges-one c j f g [] n h = absurd (omega (arith, n))
pledges-one c j f g (k ∷ ks) n h = elim (Bool-cases (k == j)) [
  | inl p ↦
      let e = (==_iff k j).0 p in
      let rest = pledges-same c j f g ks (ground (arith, n, p)) h in
      rw (e, rest) (swap (pledge c (f j)) (pledge c (g j)) (pledges c g ks))
  | inr p ↦
      let rest = pledges-one c j f g ks (ground (arith, n, p)) h in rw (h k p) (omega (arith, rest))
]
  where
    swap : (a b r : ℕ) → (a + r) + b ≡ (b + r) + a
    swap a b r = omega arith
