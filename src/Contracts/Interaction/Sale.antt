-- ===== src/Contracts/Interaction/Sale.antt =====
-- A sale through the pages: the order that usePlaceOrder.ts places on the exchange of
-- FilemarketExchangeV2.sol, and its fulfilment by useFulfillOrder.ts.
use file_market.Base.{
  ℕ, zero, suc, String, ◌≡◌, refl, ap, ◌∙◌, inl, inr, arith, Bool, true, false, not, ◌||◌, Option,
  none, some, ltb, leb, ◌==◌, str_eq, Bool-cases, ==_refl,
}
use file_market.Base.Result.{Result, ok, ◌>>=◌}
use file_market.Contracts.{Msg, require, put, put_self, Post, require-Post, bind-Post, Post-ok}
use file_market.Contracts.Exchange.{
  Order, Exchange, Purse, place_order, take_payment, fulfill_order, fulfilled_by,
}
use file_market.Contracts.Interaction.{
  provided, present, check_balance, get_tx_receipt, Wallet, call_contract, Asked, ExchangeToken,
  place_order_asked, fulfill_order_asked,
}

-- What the collection, the currency and the buyer's purse answer to a call
pub record Answers : Type 0 where
  pub supports : Bool
  pub draft_returns : Bool
  pub purse : Purse

-- The exchange as a page calls it, with the state it is left in and what it takes as the result;
-- `number` is the address that a text is encoded as.
abbrev pub on_chain :
    (number : String → Result ℕ) → Answers → Msg → Exchange → ExchangeToken (Exchange × ℕ)
on_chain number a m e = record {
  place_order = λ collection k price currency. do
    t ← number collection
    placed ← place_order a.supports a.draft_returns m t k price currency e
    ok (placed, 0);
  fulfill_order = λ value collection key k signature. do
    t ← number collection
    fulfill_order (record a.purse { value = value }) m t k e;
}

-- A call that the chain accepts is mined, and its receipt tells what it did.
abbrev pub mined : Exchange × ℕ → Result (Exchange × ℕ)
mined = get_tx_receipt (λ hash. "The transaction is failed") (λ hash. ok (some hash))

-- An order as it is placed
abbrev pub order_of : Msg → (t k price currency : ℕ) → Order
order_of m t k price currency = record {
  token = t;
  token_id = k;
  price = price;
  currency = currency;
  initiator = m.sender;
  receiver = 0;
  fulfilled = false;
}

abbrev IsPlaced : Msg → (t k price currency : ℕ) → Exchange → Type 0
IsPlaced m t k price currency e =
    (ltb 0 price ≡ true) × (e.orders t k ≡ order_of m t k price currency)

place_order-IsPlaced :
    (supports draft_returns : Bool) (m : Msg) (t k price currency : ℕ) (e : Exchange)
    → Post
        (IsPlaced m t k price currency)
        (place_order supports draft_returns m t k price currency e)
unfolding place_order
place_order-IsPlaced supports draft_returns m t k price currency e =
    let P = IsPlaced m t k price currency in
    require-Post P _ _ _ (λ p. require-Post P _ _ _ (λ _. require-Post P _ _ _ (λ _.
      require-Post P _ _ _ (λ _. (
        p,
        ap (λ f. f k) (put_self t (put k (order_of m t k price currency) (e.orders t)) e.orders)
            ∙ put_self k (order_of m t k price currency) (e.orders t),
      )))))

check_balance-ok : (v n : ℕ) → ltb n v ≡ true → check_balance (some v) (some n) ≡ ok tt
unfolding check_balance require
check_balance-ok v zero h = refl
check_balance-ok v (suc n) h = elim (Bool-cases (not ((v == 0) || leb v (suc n)))) [
  | inl p ↦ rw p refl
  | inr p ↦ absurd (ground (arith, h, p))
]

call_contract-Post :
    (P : Exchange × ℕ → Type 0) (w : Wallet) (least : Option ℕ) (write : Result (Exchange × ℕ))
    → Post P write
    → Post P (call_contract w least write ok)
unfolding call_contract
call_contract-Post P w least write h = require-Post P w.connected _ _ (λ _.
    bind-Post P (check_balance w.balance least) _
      (λ _ _. bind-Post P write ok (λ r e. Post-ok P write e h)))

-- An order in the chain's own coin is fulfilled by its price.
fulfill_order-at_price :
    (w : Purse) (m : Msg) (t k : ℕ) (e : Exchange) (o : Order)
    → e.orders t k ≡ o
    → (o.price == 0) ≡ false
    → o.fulfilled ≡ false
    → (o.currency == 0) ≡ true
    → e.whitelist_deadlines t ≡ 0
    → w.complete_returns ≡ true
    → fulfill_order (record w { value = o.price }) m t k e ≡ ok (fulfilled_by m t k e, o.price)
unfolding fulfill_order take_payment require
fulfill_order-at_price w m t k e o eo p f c d r = rw (eo, p, f, d, c, ==_refl o.price, r) refl

-- The arguments of a page for a token and a price
abbrev pub asking : (collection id text : String) → Option String → Asked
asking collection id text signature = record {
  collection_address = some collection;
  token_id = some id;
  price = some text;
  signature = signature;
}

module _ (big_int number : String → Result ℕ) where
  place_order_asked-IsPlaced :
      (w : Wallet) (a : Answers) (m : Msg) (e : Exchange) (collection id text : String)
      (signature : Option String) (t k n : ℕ)
      → str_eq collection "" ≡ false
      → str_eq id "" ≡ false
      → str_eq text "" ≡ false
      → number collection ≡ ok t
      → big_int id ≡ ok k
      → big_int text ≡ ok n
      → Post
          (λ r. IsPlaced m t k n 0 r.0)
          (place_order_asked big_int mined w
            (some (on_chain number a m e))
            (asking collection id text signature))
  unfolding place_order_asked provided present call_contract check_balance get_tx_receipt
  place_order_asked-IsPlaced w a m e collection id text signature t k n hc hi ht et ek en =
      rw (hc, hi, ht, ek, en)
        (call_contract-Post (λ r. IsPlaced m t k n 0 r.0) w none _
          (rw et (
            bind-Post (λ r. IsPlaced m t k n 0 r.0)
              (place_order a.supports a.draft_returns m t k n 0 e) _
              (λ placed h.
                Post-ok (IsPlaced m t k n 0) (place_order a.supports a.draft_returns m t k n 0 e) h
                  (place_order-IsPlaced a.supports a.draft_returns m t k n 0 e)))))

  fulfill_order_asked-takes :
      (get_address : String → Result String) (buyer_key : String → String → String → Result String)
      (w : Wallet) (a : Answers) (seller m : Msg) (e : Exchange)
      (collection id text address account key : String) (signature : Option String)
      (t k n balance : ℕ)
      → str_eq collection "" ≡ false
      → str_eq id "" ≡ false
      → str_eq text "" ≡ false
      → str_eq account "" ≡ false
      → big_int id ≡ ok k
      → big_int text ≡ ok n
      → get_address collection ≡ ok address
      → number address ≡ ok t
      → buyer_key account collection id ≡ ok key
      → w ≡ record { connected = true; address = some account; balance = some balance }
      → ltb n balance ≡ true
      → a.purse.complete_returns ≡ true
      → e.whitelist_deadlines t ≡ 0
      → IsPlaced seller t k n 0 e
      → fulfill_order_asked big_int mined get_address buyer_key w
          (some (on_chain number a m e))
          (asking collection id text signature)
        ≡ ok (fulfilled_by m t k e, n)
  unfolding fulfill_order_asked provided present call_contract require get_tx_receipt
  fulfill_order_asked-takes get_address buyer_key w a seller m e collection id text address account
        key signature t k n balance hc hi ht ha ek en eg et eb ew lb cr wd (pn, eo) =
      let paid =
        fulfill_order-at_price a.purse m t k e (order_of seller t k n 0) eo (ground (arith, pn))
          refl refl wd cr in
      rw (hc, hi, ew, ha, ht, eb, en, eg, ek, check_balance-ok balance n lb, et, paid) refl

  -- An order that the page of the seller places for a token and a price, and that is still there as it
  -- was placed when the page of a buyer is asked for the same, in a collection without a whitelist:
  -- where the buyer's account has more than the price and the calls of the collection and of the keys
  -- return, the exchange takes the price and marks the order as fulfilled by the buyer.
  pub place_order_asked-fulfilled :
      (get_address : String → Result String) (buyer_key : String → String → String → Result String)
      (ws wb : Wallet) (sa ba : Answers) (seller buyer : Msg) (e placed later : Exchange)
      (collection id text address account key : String) (given signature : Option String)
      (t k n balance taken : ℕ)
      → str_eq collection "" ≡ false
      → str_eq id "" ≡ false
      → str_eq text "" ≡ false
      → str_eq account "" ≡ false
      → big_int id ≡ ok k
      → big_int text ≡ ok n
      → number collection ≡ ok t
      → get_address collection ≡ ok address
      → number address ≡ ok t
      → buyer_key account collection id ≡ ok key
      → place_order_asked big_int mined ws
          (some (on_chain number sa seller e))
          (asking collection id text given)
        ≡ ok (placed, taken)
      → later.orders t k ≡ placed.orders t k
      → later.whitelist_deadlines t ≡ 0
      → wb ≡ record { connected = true; address = some account; balance = some balance }
      → ltb n balance ≡ true
      → ba.purse.complete_returns ≡ true
      → fulfill_order_asked big_int mined get_address buyer_key wb
          (some (on_chain number ba buyer later))
          (asking collection id text signature)
        ≡ ok (fulfilled_by buyer t k later, n)
  place_order_asked-fulfilled get_address buyer_key ws wb sa ba seller buyer e placed later
        collection id text address account key given signature t k n balance taken hc hi ht ha ek en
        et eg ea eb hp same wd ew lb cr =
      let (pn, eo) =
        Post-ok (λ r. IsPlaced seller t k n 0 r.0)
          (place_order_asked big_int mined ws (some (on_chain number sa seller e))
            (asking collection id text given))
          hp
          (place_order_asked-IsPlaced ws sa seller e collection id text given t k n hc hi ht et ek
            en) in
      fulfill_order_asked-takes get_address buyer_key wb ba seller buyer later collection id text
        address account key signature t k n balance hc hi ht ha ek en eg ea eb ew lb cr wd
        (pn, same ∙ eo)
