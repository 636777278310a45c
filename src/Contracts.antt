-- ===== src/Contracts.antt =====
-- The Solidity contracts of sol-contracts/contracts, by the calls that end and those that revert.
-- An address is a number, with 0 for `address(0)`; a `uint256` is a number below 2 ^ 256, and a sum
-- that leaves that range reverts; `bytes` are lists of bytes.
use file_market.Base.{
  ℕ, ◌+◌, ◌-◌, ◌*◌, ◌^◌, String, ◌≡◌, refl, Bool, true, false, List, [], ◌∷◌, ltb, ◌==◌,
  if◌then◌else◌, ==_refl,
}
use file_market.Base.Result.{Result, ok, err, ◌>>=◌}
use mathlib.Core.Path.{subst}
pub mod Collection
pub mod Exchange
pub mod Interaction
pub mod Mirror
pub mod Market

-- `block.timestamp` and `_msgSender()` of a call
pub record Msg : Type 0 where
  pub sender : ℕ
  pub timestamp : ℕ

-- `require(condition, message)`
unfoldable pub require : Bool → String → Result {0} Unit
require true message = ok tt
require false message = err message

-- The sum of two `uint256`, which reverts where it overflows
unfoldable pub add_uint : ℕ → ℕ → Result ℕ
add_uint a b = if ltb (a + b) (2 ^ 256) then ok (a + b) else err "Arithmetic overflow"

-- The product, the difference of two `uint256`, which revert outside their range
unfoldable pub mul_uint : ℕ → ℕ → Result ℕ
mul_uint a b = if ltb (a * b) (2 ^ 256) then ok (a * b) else err "Arithmetic overflow"

unfoldable pub sub_uint : ℕ → ℕ → Result ℕ
sub_uint a b = if ltb a b then err "Arithmetic underflow" else ok (a - b)

-- `length > 0` of `bytes`
abbrev pub has_any : List ℕ → Bool
has_any [] = false
has_any (b ∷ bs) = true

-- `a || b` and `a && b`, where computing `b` may revert
abbrev pub or_try : Bool → Result Bool → Result Bool
or_try true b = ok true
or_try false b = b

-- An entry of a mapping put in place of the one there
abbrev pub put {ℓ} : {V : Type ℓ} → ℕ → V → (ℕ → V) → ℕ → V
put k v f j = if j == k then v else f j

-- What holds of the value of a call that ends
abbrev pub Post {ℓ κ} : {A : Type ℓ} → (A → Type κ) → Result A → Type κ
Post P (ok a) = P a
Post P (err message) = Unit

pub require-Post {ℓ κ} :
    {A : Type ℓ} (P : A → Type κ) (b : Bool) (message : String) (next : Unit → Result A)
    → (b ≡ true → Post P (next tt))
    → Post P (require b message >>= next)
unfolding require
require-Post P true message next h = h refl
require-Post P false message next h = tt

pub bind-Post {ℓ κ λ'} :
    {A : Type ℓ} {B : Type λ'} (P : A → Type κ) (first : Result B) (next : B → Result A)
    → ((b : B) → first ≡ ok b → Post P (next b))
    → Post P (first >>= next)
bind-Post P (ok b) next h = h b refl
bind-Post P (err message) next h = tt

pub put_self {ℓ} : {V : Type ℓ} (k : ℕ) (v : V) (f : ℕ → V) → put k v f k ≡ v
put_self k v f = rw (==_refl k) refl

pub put_ne {ℓ} : {V : Type ℓ} (k j : ℕ) (v : V) (f : ℕ → V) → (j == k) ≡ false → put k v f j ≡ f j
put_ne k j v f h = rw h refl

-- A step whose value has `Q`, and what follows from any value that has it
pub seq-Post {ℓ κ λ' μ} :
    {A : Type ℓ} {B : Type λ'} (P : A → Type κ) (Q : B → Type μ) (first : Result B)
    (next : B → Result A)
    → Post Q first
    → ((b : B) → Q b → Post P (next b))
    → Post P (first >>= next)
seq-Post P Q (ok b) next q h = h b q
seq-Post P Q (err message) next q h = tt

-- What holds anyway holds of the value.
pub any-Post {ℓ κ} : {A : Type ℓ} (X : Type κ) (r : Result A) → X → Post (λ _. X) r
any-Post X (ok a) x = x
any-Post X (err message) x = tt

pub Post-ok {ℓ κ} : {A : Type ℓ} (P : A → Type κ) (r : Result A) {a : A} → r ≡ ok a → Post P r → P a
Post-ok P r e h = subst (Post P) e h

pub Post-map {ℓ κ μ} :
    {A : Type ℓ} (P : A → Type κ) (Q : A → Type μ) (r : Result A)
    → Post P r
    → ((a : A) → P a → Q a)
    → Post Q r
Post-map P Q (ok a) h f = f a h
Post-map P Q (err message) h f = tt

pub Post-and {ℓ κ μ} :
    {A : Type ℓ} (P : A → Type κ) (Q : A → Type μ) (r : Result A)
    → Post P r
    → Post Q r
    → Post (λ a. P a × Q a) r
Post-and P Q (ok a) p q = (p, q)
Post-and P Q (err message) p q = tt
