-- ===== src/Contracts/Collection/Moves.antt =====
-- The state machine of one transfer, as a step relation, and the calls of the contract against it.
use file_market.Base.{ℕ, some, ◌≡◌, ◌⊎◌, Bool, true, false, ◌||◌, List, [], ◌∷◌, ◌==◌}
use file_market.Contracts.{has_any}
use file_market.Contracts.Collection.{
  Bytes, TransferInfo, no_info, Log, log_init, log_draft, log_draft_completion, log_public_key_set,
  log_password_set, log_finished, log_fraud_reported, log_fraud_decided, log_cancellation, Outside,
  Collection,
}
pub mod Steps
pub mod Begin
pub mod Close

-- A step of the transfer of the token `k` that `sender` makes, with the events it emits: what the messages of the
-- requirements ask for, and nothing of how the contract finds it.
pub data Move (sender k : ℕ) (i : TransferInfo) : TransferInfo → List Log → Type 0 where
  started :
      (from to receiver number : ℕ) (d : Bytes)
      → (i.initiator == 0) ≡ true
      → Move sender k i
          (record no_info {
            id = k;
            initiator = sender;
            from = sender;
            to = to;
            callback_receiver = receiver;
            data_ = d;
          })
          (log_init k from to number ∷ [])
  drafted :
      (from receiver number : ℕ)
      → (i.initiator == 0) ≡ true
      → Move sender k i
          (record no_info { id = k; initiator = sender; from = from; callback_receiver = receiver })
          (log_draft k from number ∷ [])
  completed :
      (to time : ℕ) (key d : Bytes)
      → has_any key ≡ true
      → (i.initiator == 0) ≡ false
      → (sender == i.initiator) ≡ true
      → (i.to == 0) ≡ true
      → Move sender k i
          (record i { to = to; data_ = d; public_key = key; public_key_set_at = time })
          (log_draft_completion k to ∷ log_public_key_set k key ∷ [])
  keyed :
      (time : ℕ) (key : Bytes)
      → has_any key ≡ true
      → (i.initiator == 0) ≡ false
      → has_any i.public_key ≡ false
      → Move sender k i
          (record i { public_key = key; public_key_set_at = time })
          (log_public_key_set k key ∷ [])
  approved :
      (time : ℕ) (password : Bytes)
      → has_any password ≡ true
      → (i.initiator == 0) ≡ false
      → has_any i.public_key ≡ true
      → has_any i.encrypted_password ≡ false
      → Move sender k i
          (record i { encrypted_password = password; password_set_at = time })
          (log_password_set k password ∷ [])
  ended :
      (i.initiator == 0) ≡ false
      → has_any i.encrypted_password ≡ true
      → i.fraud_reported ≡ false
      → Move sender k i no_info (log_finished k ∷ [])
  reported :
      (i.initiator == 0) ≡ false
      → has_any i.encrypted_password ≡ true
      → i.fraud_reported ≡ false
      → Move sender k i (record i { fraud_reported = true }) (log_fraud_reported k ∷ [])
  judged_at_once :
      (approve : Bool)
      → (i.initiator == 0) ≡ false
      → has_any i.encrypted_password ≡ true
      → i.fraud_reported ≡ false
      → Move sender k i no_info (log_fraud_reported k ∷ log_fraud_decided k approve ∷ [])
  judged :
      (approve : Bool)
      → (i.initiator == 0) ≡ false
      → i.fraud_reported ≡ true
      → Move sender k i no_info (log_fraud_decided k approve ∷ [])
  withdrawn :
      (i.initiator == 0) ≡ false
      → i.fraud_reported ≡ false
      → Move sender k i no_info (log_cancellation k ∷ [])

-- The token goes from its owner to the receiver of its transfer, whose password is given.
pub record IsHanded {L : Type 0} (o : Outside L) (k : ℕ) (c : Collection L) (l : L) : Type 0 where
  pub from : ℕ
  pub was_owner : o.owner_of c.ledger k ≡ some from
  pub handed : o.safe_transfer c.ledger from (c.transfers k).to k (c.transfers k).data_ ≡ some l
  pub given :
      (has_any (c.transfers k).encrypted_password ≡ true) ⊎ ((c.transfers k).fraud_reported ≡ true)

-- A fraud that is reported but not decided was so before, or waits for a late decision.
unfoldable pub IsLateFraud : {L : Type 0} → Collection L → Bool → Bool → Type 0
IsLateFraud c before after = after ≡ true → (before || c.fraud_late_decision_enabled) ≡ true

-- A call moves the transfer of its token, leaves those of the other tokens as they are, and does
-- nothing to the ledger but hand the token over.
pub record IsMove {L : Type 0} (o : Outside L) (sender k : ℕ) (c : Collection L)
    (r : Collection L × List Log) : Type 0 where
  pub moved : Move sender k (c.transfers k) (r.0.transfers k) r.1
  pub others : (j : ℕ) → (j == k) ≡ false → r.0.transfers j ≡ c.transfers j
  pub late : r.0.fraud_late_decision_enabled ≡ c.fraud_late_decision_enabled
  pub late_fraud : IsLateFraud c (c.transfers k).fraud_reported (r.0.transfers k).fraud_reported
  pub in_ledger : (r.0.ledger ≡ c.ledger) ⊎ IsHanded o k c r.0.ledger
