-- ===== src/Contracts/Collection/Moves/Steps.antt =====
-- What the calls of a transfer have in common.
use file_market.Base.{
  ℕ, String, Option, none, some, ◌≡◌, refl, ◌⊎◌, inl, inr, Bool, true, false, not, ◌||◌, List, ◌==◌,
}
use file_market.Base.Result.{ok, >>=-eq-ok, or_throw}
use file_market.Contracts.{Msg, has_any, put, Post, require-Post, any-Post, put_self, put_ne}
use file_market.Contracts.Collection.{TransferInfo, Log, Outside, Collection, owner_of_token}
use file_market.Contracts.Collection.Sale.{start_transfer}
use file_market.Contracts.Collection.Ending.{hand_over, settle_fraud}
use file_market.Contracts.Collection.Moves.{Move, IsHanded, IsLateFraud, IsMove}

pub false_of_not : (b : Bool) → not b ≡ true → b ≡ false
false_of_not true h = cc
false_of_not false h = refl

pub late_or : (b late : Bool) → (late || false) ≡ true → (b || late) ≡ true
late_or true late h = refl
late_or false true h = refl
late_or false false h = cc

pub or_throw-ok {ℓ} :
    {A : Type ℓ} (d : Option A) (message : String) {a : A} → or_throw d message ≡ ok a → d ≡ some a
or_throw-ok none message e = cc
or_throw-ok (some a) message e = cc

module _ {L : Type 0} (o : Outside L) (m : Msg) (c : Collection L) where
  pub put-IsMove :
      (k : ℕ) (info : TransferInfo) (ls : List Log) (d : Collection L)
      → d.transfers ≡ put k info c.transfers
      → d.fraud_late_decision_enabled ≡ c.fraud_late_decision_enabled
      → IsLateFraud c (c.transfers k).fraud_reported info.fraud_reported
      → (d.ledger ≡ c.ledger) ⊎ IsHanded o k c d.ledger
      → Move m.sender k (c.transfers k) info ls
      → IsMove o m.sender k c (d, ls)
  put-IsMove k info ls d e l f g s = record {
    moved = rw (e, put_self k info c.transfers) s;
    others = λ j h. rw (e, put_ne k j info c.transfers h) refl;
    late = l;
    late_fraud = rw (e, put_self k info c.transfers) f;
    in_ledger = g;
  }

  pub fresh-IsLateFraud : (b : Bool) → IsLateFraud c b false
  unfolding IsLateFraud
  fresh-IsLateFraud b h = cc

  pub kept-IsLateFraud : (b : Bool) → IsLateFraud c b b
  unfolding IsLateFraud
  kept-IsLateFraud b h = rw h refl

  -- A token handed over: its owner, and the ledger that took it
  pub hand_over-IsHanded :
      (k : ℕ) (l : L)
      → (has_any (c.transfers k).encrypted_password ≡ true)
        ⊎ ((c.transfers k).fraud_reported ≡ true)
      → hand_over o m c k (c.transfers k).to (c.transfers k).data_ ≡ ok l
      → IsHanded o k c l
  unfolding hand_over owner_of_token
  hand_over-IsHanded k l given e =
      let (from, owned, sent) = >>=-eq-ok (owner_of_token o m c k) _ e in
      record {
        from = from;
        was_owner = or_throw-ok _ _ owned;
        handed = or_throw-ok _ _ sent;
        given = given;
      }

  pub settle_fraud-in_ledger :
      (k : ℕ) (approve : Bool) (l : L)
      → (has_any (c.transfers k).encrypted_password ≡ true)
        ⊎ ((c.transfers k).fraud_reported ≡ true)
      → settle_fraud o m c k (c.transfers k) approve ≡ ok l
      → (l ≡ c.ledger) ⊎ IsHanded o k c l
  unfolding settle_fraud
  settle_fraud-in_ledger k true l given e = inl cc
  settle_fraud-in_ledger k false l given e = inr (hand_over-IsHanded k l given e)

  pub start_transfer-free :
      (k : ℕ) → Post (λ n. ((c.transfers k).initiator == 0) ≡ true) (start_transfer o m c k)
  unfolding start_transfer
  start_transfer-free k =
      require-Post _ _ _ _ (λ _. require-Post _ _ _ _ (λ free. any-Post _ _ free))
