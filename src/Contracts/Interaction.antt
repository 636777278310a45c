-- ===== src/Contracts/Interaction.antt =====
-- The calls of the exchange that the pages make: hooks/useCallContract.ts and usePlaceOrder.ts and
-- useFulfillOrder.ts of processing/nft-interaction, in packages/frontend/src/app. The connection, the
-- call that is written, the wait for its receipt, `BigInt` and `getAddress` are other code, and the
-- keys are those of Processing. A call ends with its receipt, or with an error whose text is not
-- rewritten yet.
use Prim.Native.String.{◌++◌ as str_append}
use file_market.Base.{
  ℕ, zero, suc, String, Bool, true, false, not, ◌||◌, Option, none, some, leb, ◌==◌, str_eq,
  if◌then◌else◌,
}
use file_market.Base.Result.{Result, ok, err, ◌>>=◌, or_throw}
use file_market.Contracts.{require}
pub mod Sale

-- A check that an argument is there: neither missing nor the empty string
unfoldable pub provided : String → Option String → Result String
provided message none = err message
provided message (some t) = if str_eq t "" then err message else ok t

-- A check that an object is there
unfoldable pub present {ℓ} : {A : Type ℓ} → String → Option A → Result A
present message none = err message
present message (some a) = ok a

-- The guard of `callContract`, by the balance, where it is known, and the amount to be paid; an
-- amount of 0 counts as none.
unfoldable pub check_balance : (balance min_balance : Option ℕ) → Result {0} Unit
unfolding require
check_balance none min_balance = ok tt
check_balance (some v) none = ok tt
check_balance (some v) (some zero) = ok tt
check_balance (some v) (some (suc n)) =
    require (not ((v == 0) || leb v (suc n))) "Balance too low for transaction."

-- `getTxReceipt`: the race begins once `waitForTransaction` has ended, with its receipt as the first.
unfoldable pub get_tx_receipt {ℓ κ} :
    {H : Type ℓ} {R : Type κ} → (failed : H → String) → (H → Result (Option R)) → H → Result R
get_tx_receipt failed wait hash = wait hash >>= λ receipt. or_throw receipt (failed hash)

-- The state of the wallet, as the hooks read it
pub record Wallet : Type 0 where
  pub connected : Bool
  pub address : Option String
  pub balance : Option ℕ

-- `callContract`, where the failure of a transaction is not ignored
unfoldable pub call_contract {ℓ κ} :
    {H : Type ℓ} {R : Type κ}
    → Wallet
    → (min_balance : Option ℕ) → (write : Result H) → (receipt : H → Result R) → Result R
unfolding require check_balance
call_contract w min_balance write receipt = do
  _ ← require w.connected "The expression evaluated to a falsy value"
  _ ← check_balance w.balance min_balance
  hash ← write
  receipt hash

-- The arguments that the hooks are called with
pub record Asked : Type 0 where
  pub collection_address : Option String
  pub token_id : Option String
  pub price : Option String
  pub signature : Option String

-- The exchange's `placeOrder` and `fulfillOrder`, as they are written to the chain: the collection,
-- the token, the price and the currency; the value, the collection, the key, the token and the
-- signature
pub record ExchangeToken {ℓ} (H : Type ℓ) : Type ℓ where
  pub place_order : String → ℕ → ℕ → ℕ → Result H
  pub fulfill_order : ℕ → String → String → ℕ → String → Result H

-- The signature as `fulfillOrder` passes it on
abbrev pub signature_text : Option String → String
signature_text none = "0x00"
signature_text (some s) = if str_eq s "" then "0x00" else str_append "0x" s

module _ {H : Type 0} {R : Type 0} (big_int : String → Result ℕ) (receipt : H → Result R) where
  -- `placeOrder` of the hook
  unfoldable pub place_order_asked : Wallet → Option (ExchangeToken H) → Asked → Result R
  unfolding provided present
  place_order_asked w config asked = do
    collection ← provided "collectionAddress is not provided" asked.collection_address
    id ← provided "tokenId is not provided" asked.token_id
    token ← present "config is not provided" config
    text ← provided "price is not provided" asked.price
    k ← big_int id
    price ← big_int text
    call_contract w none (token.place_order collection k price 0) receipt

  -- `fulfillOrder` of the hook; `buyer_key` is the key of `initBuy`, as an Ethereum text, for the account, the collection and the token's number.
  unfoldable pub fulfill_order_asked :
      (get_address : String → Result String) (buyer_key : String → String → String → Result String)
      → Wallet
      → Option (ExchangeToken H)
      → Asked
      → Result R
  unfolding provided present
  fulfill_order_asked get_address buyer_key w config asked = do
    collection ← provided "collectionAddress is not provided" asked.collection_address
    id ← provided "tokenId is not provided" asked.token_id
    account ← provided "Wallet is not connected. If it is connected, try to reconnect" w.address
    token ← present "config is not provided" config
    text ← provided "price is not provided" asked.price
    key ← buyer_key account collection id
    value ← big_int text
    address ← get_address collection
    k ← big_int id
    least ← big_int text
    call_contract w (some least)
        (token.fulfill_order value address key k (signature_text asked.signature)) receipt
