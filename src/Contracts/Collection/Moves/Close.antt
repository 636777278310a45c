-- ===== src/Contracts/Collection/Moves/Close.antt =====
-- The calls that end a transfer, and then all calls, are steps of its state machine.
use file_market.Base.{ℕ, ◌≡◌, refl, inl, inr, Bool, true, false, ◌||◌, ◌==◌}
use file_market.Base.Result.{or_throw}
use file_market.Contracts.{Msg, has_any, Post, require-Post, bind-Post}
use file_market.Contracts.Collection.{
  Bytes, Outside, Collection, Call, init_transfer, draft_transfer, complete_transfer_draft,
  set_transfer_public_key, approve_transfer, finalize_transfer, report_fraud, apply_fraud_decision,
  cancel_transfer, call_receiver, require_created, token_of,
}
use file_market.Contracts.Collection.Ending.{
  hand_over, may_finalize, finalize_transfer_call, settle_fraud, report_decided, report_fraud_call,
  apply_fraud_decision_call, may_cancel, cancel_transfer_call,
}
use file_market.Contracts.Collection.Calls.{call}
use file_market.Contracts.Collection.Moves.{
  ended, reported, judged_at_once, judged, withdrawn, IsLateFraud, IsMove,
}
use file_market.Contracts.Collection.Moves.Steps.{
  false_of_not, late_or, put-IsMove, fresh-IsLateFraud, hand_over-IsHanded, settle_fraud-in_ledger,
}
use file_market.Contracts.Collection.Moves.Begin.{
  init-IsMove, draft-IsMove, complete-IsMove, set_public_key-IsMove, approve-IsMove,
}

module _ {L : Type 0} (o : Outside L) (m : Msg) (c : Collection L) where
  finalize-IsMove : (k : ℕ) → Post (IsMove o m.sender k c) (finalize_transfer_call o m c k)
  unfolding finalize_transfer_call require_created
  finalize-IsMove k = require-Post (IsMove o m.sender k c) _ _ _ (λ made.
      require-Post (IsMove o m.sender k c) _ _ _ (λ given.
        require-Post (IsMove o m.sender k c) _ _ _ (λ fair.
          bind-Post (IsMove o m.sender k c) (may_finalize o m c (c.transfers k)) _ (λ allowed _.
            require-Post (IsMove o m.sender k c) _ _ _ (λ _.
              bind-Post (IsMove o m.sender k c)
                (hand_over o m c k (c.transfers k).to (c.transfers k).data_) _
                (λ ledger handed.
                  bind-Post (IsMove o m.sender k c)
                    (call_receiver o m c (c.transfers k).callback_receiver
                      (o.transfer_finished (c.transfers k).callback_receiver k))
                    _
                    (λ _ _.
                      put-IsMove o m c k _ _ _ refl refl (fresh-IsLateFraud o m c _)
                        (inr (hand_over-IsHanded o m c k ledger (inl given) handed))
                        (ended (false_of_not _ made) given (false_of_not _ fair)))))))))

  report_decided-IsMove :
      (k : ℕ) (answer : Bool × Bool)
      → ((c.transfers k).initiator == 0) ≡ false
      → has_any (c.transfers k).encrypted_password ≡ true
      → (c.transfers k).fraud_reported ≡ false
      → (c.fraud_late_decision_enabled || answer.0) ≡ true
      → Post (IsMove o m.sender k c) (report_decided o m c k (c.transfers k) answer)
  unfolding report_decided IsLateFraud
  report_decided-IsMove k (false, approve) made given fair late =
      put-IsMove o m c k _ _ _ refl refl (λ _. late_or _ _ late) (inl refl)
        (reported made given fair)
  report_decided-IsMove k (true, approve) made given fair late =
      bind-Post (IsMove o m.sender k c)
        (call_receiver o m c (c.transfers k).callback_receiver
          (o.transfer_fraud_detected (c.transfers k).callback_receiver k approve))
        _
        (λ _ _.
          bind-Post (IsMove o m.sender k c) (settle_fraud o m c k (c.transfers k) approve) _
            (λ ledger settled.
              put-IsMove o m c k _ _ _ refl refl (fresh-IsLateFraud o m c _)
                (settle_fraud-in_ledger o m c k approve ledger (inl given) settled)
                (judged_at_once approve made given fair)))

  report_fraud-IsMove :
      (k : ℕ) (private_key : Bytes)
      → Post (IsMove o m.sender k c) (report_fraud_call o m c k private_key)
  unfolding report_fraud_call require_created
  report_fraud-IsMove k private_key = require-Post (IsMove o m.sender k c) _ _ _ (λ _.
      require-Post (IsMove o m.sender k c) _ _ _ (λ made.
        require-Post (IsMove o m.sender k c) _ _ _ (λ _.
          require-Post (IsMove o m.sender k c) _ _ _ (λ given.
            require-Post (IsMove o m.sender k c) _ _ _ (λ fair.
              bind-Post (IsMove o m.sender k c)
                (or_throw
                  (o.decide k (c.token_uris k) (c.transfers k).public_key private_key
                    (c.transfers k).encrypted_password)
                  "decider reverted")
                _
                (λ answer _. require-Post (IsMove o m.sender k c) _ _ _ (λ late.
                  report_decided-IsMove k answer (false_of_not _ made) given (false_of_not _ fair)
                    late)))))))

  apply_decision-IsMove :
      (k : ℕ) (approve : Bool)
      → Post (IsMove o m.sender k c) (apply_fraud_decision_call o m c k approve)
  unfolding apply_fraud_decision_call require_created
  apply_decision-IsMove k approve = require-Post (IsMove o m.sender k c) _ _ _ (λ _.
      require-Post (IsMove o m.sender k c) _ _ _ (λ made.
        require-Post (IsMove o m.sender k c) _ _ _ (λ _.
          require-Post (IsMove o m.sender k c) _ _ _ (λ reported.
            bind-Post (IsMove o m.sender k c)
              (call_receiver o m c (c.transfers k).callback_receiver
                (o.transfer_fraud_detected (c.transfers k).callback_receiver k approve))
              _
              (λ _ _.
                bind-Post (IsMove o m.sender k c) (settle_fraud o m c k (c.transfers k) approve) _
                  (λ ledger settled.
                    put-IsMove o m c k _ _ _ refl refl (fresh-IsLateFraud o m c _)
                      (settle_fraud-in_ledger o m c k approve ledger (inr reported) settled)
                      (judged approve (false_of_not _ made) reported)))))))

  cancel-IsMove : (k : ℕ) → Post (IsMove o m.sender k c) (cancel_transfer_call o m c k)
  unfolding cancel_transfer_call require_created
  cancel-IsMove k = require-Post (IsMove o m.sender k c) _ _ _ (λ made.
      require-Post (IsMove o m.sender k c) _ _ _ (λ fair.
        bind-Post (IsMove o m.sender k c) (may_cancel o m c k (c.transfers k)) _ (λ allowed _.
          require-Post (IsMove o m.sender k c) _ _ _ (λ _.
            bind-Post (IsMove o m.sender k c)
              (call_receiver o m c (c.transfers k).callback_receiver
                (o.transfer_cancelled (c.transfers k).callback_receiver k))
              _
              (λ _ _.
                put-IsMove o m c k _ _ _ refl refl (fresh-IsLateFraud o m c _) (inl refl)
                  (withdrawn (false_of_not _ made) (false_of_not _ fair)))))))

  -- Every call that ends is one step of the state machine for its token's transfer, with the events
  -- that the step emits, and leaves the transfers of the other tokens as they are.
  pub call-IsMove : (a : Call) → Post (IsMove o m.sender (token_of a) c) (call o m c a)
  unfolding call
  call-IsMove (init_transfer k to d receiver) = init-IsMove o m c k to d receiver
  call-IsMove (draft_transfer k receiver) = draft-IsMove o m c k receiver
  call-IsMove (complete_transfer_draft k to key d) = complete-IsMove o m c k to key d
  call-IsMove (set_transfer_public_key k key number) = set_public_key-IsMove o m c k key number
  call-IsMove (approve_transfer k password) = approve-IsMove o m c k password
  call-IsMove (finalize_transfer k) = finalize-IsMove k
  call-IsMove (report_fraud k private_key) = report_fraud-IsMove k private_key
  call-IsMove (apply_fraud_decision k approve) = apply_decision-IsMove k approve
  call-IsMove (cancel_transfer k) = cancel-IsMove k
