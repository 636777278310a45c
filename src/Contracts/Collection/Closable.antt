-- ===== src/Contracts/Collection/Closable.antt =====
-- No transfer of an owned token is stuck.
use file_market.Base.{
  ℕ, ◌≡◌, refl, ◌⊎◌, inl, inr, Bool, true, false, ◌||◌, some, List, ◌==◌, ==_iff, ==_refl,
  Bool-cases, ap, sym, ◌∙◌,
}
use file_market.Contracts.{Msg, require, put_self}
use file_market.Contracts.Collection.{
  no_info, Log, Outside, Collection, Call, apply_fraud_decision, cancel_transfer, owner_of_token,
  call_receiver, require_created, token_of,
}
use file_market.Contracts.Collection.Ending.{
  settle_fraud, apply_fraud_decision_call, may_cancel, cancel_transfer_call,
}
use file_market.Contracts.Collection.Calls.{call, transact}
use file_market.Contracts.Collection.Moves.{IsMove, IsLateFraud}
use file_market.Contracts.Collection.Ownership.{transact-by}
use mathlib.Core.Path.{subst}

-- A fraud waits for its decision only where late decisions are allowed.
unfoldable pub IsWaiting : {L : Type 0} → Collection L → Type 0
IsWaiting c = (j : ℕ) → (c.transfers j).fraud_reported ≡ true → c.fraud_late_decision_enabled ≡ true

-- Every callback of the receivers returns.
pub record AreCallable {L : Type 0} (o : Outside L) : Type 0 where
  pub cancelled : (receiver k : ℕ) → o.transfer_cancelled receiver k ≡ true
  pub detected : (receiver k : ℕ) (b : Bool) → o.transfer_fraud_detected receiver k b ≡ true

pub or_true : (b : Bool) → (b || true) ≡ true
or_true true = refl
or_true false = refl

true_of_or : (a b : Bool) → a ≡ b → (a || b) ≡ true → b ≡ true
true_of_or true b e h = sym e
true_of_or false b e h = h

module _ {L : Type 0} (o : Outside L) where
  IsMove-IsWaiting :
      {w : ℕ} (k : ℕ) (c : Collection L) (r : Collection L × List Log)
      → IsWaiting c
      → IsMove o w k c r
      → IsWaiting r.0
  unfolding IsWaiting IsLateFraud
  IsMove-IsWaiting k c r h s j e = elim (Bool-cases (j == k)) [
    | inl p ↦
        s.late
        ∙ waits (c.transfers k).fraud_reported (h k) (
            s.late_fraud
              (subst (λ i. (r.0.transfers i).fraud_reported ≡ true) ((==_iff j k).0 p) e))
    | inr p ↦ s.late ∙ h j (sym (ap (λ i. i.fraud_reported) (s.others j p)) ∙ e)
  ]
    where
      waits :
          (b : Bool)
          → (b ≡ true → c.fraud_late_decision_enabled ≡ true)
          → (b || c.fraud_late_decision_enabled) ≡ true
          → c.fraud_late_decision_enabled ≡ true
      waits true f g = f refl
      waits false f g = g

  -- A fraud waits for its decision only where late decisions are allowed, after every transaction.
  transact-IsWaiting :
      (m : Msg) (a : Call) (c : Collection L) → IsWaiting c → IsWaiting (transact o m a c).0
  transact-IsWaiting m a c h =
      transact-by o (λ r. IsWaiting r.0) m a c h (λ r s. IsMove-IsWaiting (token_of a) c r h s)

  cancel_ends :
      (w time k : ℕ) (c : Collection L)
      → AreCallable o
      → ((c.transfers k).initiator == 0) ≡ false
      → o.owner_of c.ledger k ≡ some w
      → (c.transfers k).fraud_reported ≡ false
      → (transact o (record { sender = w; timestamp = time }) (cancel_transfer k) c).0.transfers k
        ≡ no_info
  unfolding transact call cancel_transfer_call require_created require may_cancel owner_of_token
      call_receiver
  cancel_ends w time k c able made owned fair =
      rw
        (
          made,
          fair,
          owned,
          ==_refl w,
          able.cancelled (c.transfers k).callback_receiver k,
          or_true ((c.transfers k).callback_receiver == 0),
        )
        (put_self k no_info c.transfers)

  decision_ends :
      (time k : ℕ) (c : Collection L)
      → AreCallable o
      → ((c.transfers k).initiator == 0) ≡ false
      → (c.transfers k).fraud_reported ≡ true
      → c.fraud_late_decision_enabled ≡ true
      → (transact o
            (record { sender = c.fraud_decider; timestamp = time })
            (apply_fraud_decision k true)
            c).0.transfers
          k
        ≡ no_info
  unfolding transact call apply_fraud_decision_call require_created require settle_fraud
      call_receiver
  decision_ends time k c able made unfair late =
      rw
        (
          made,
          unfair,
          late,
          ==_refl c.fraud_decider,
          able.detected (c.transfers k).callback_receiver k true,
          or_true ((c.transfers k).callback_receiver == 0),
        )
        (put_self k no_info c.transfers)

  -- A transfer of a token that has an owner never gets stuck: at any time its owner or the fraud
  -- decider can end it by one call, provided that the callbacks return.
  pub transfer-closable :
      (time w k : ℕ) (c : Collection L)
      → AreCallable o
      → IsWaiting c
      → ((c.transfers k).initiator == 0) ≡ false
      → o.owner_of c.ledger k ≡ some w
      → (sender : ℕ) × (a : Call) × ((sender ≡ w) ⊎ (sender ≡ c.fraud_decider))
        × (token_of a ≡ k)
        × ((transact o (record { sender = sender; timestamp = time }) a c).0.transfers k ≡ no_info)
  unfolding IsWaiting
  transfer-closable time w k c able waits made owned =
      elim (Bool-cases (c.transfers k).fraud_reported) [
        | inl p ↦ (
          c.fraud_decider,
          apply_fraud_decision k true,
          inr refl,
          refl,
          decision_ends time k c able made p (waits k p),
        )
        | inr p ↦ (w, cancel_transfer k, inl refl, refl, cancel_ends w time k c able made owned p)
      ]
