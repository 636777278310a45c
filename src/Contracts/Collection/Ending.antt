-- ===== src/Contracts/Collection/Ending.antt =====
-- The calls of FilemarketCollectionV2.sol that end a transfer, and the report of a fraud.
use file_market.Base.{ℕ, Bool, true, not, ◌&&◌, ◌||◌, List, [], ◌∷◌, ltb, ◌==◌, if◌then◌else◌}
use file_market.Base.Result.{Result, ok, ◌>>=◌, or_throw}
use file_market.Contracts.{Msg, require, add_uint, has_any, or_try, put}
use file_market.Contracts.Collection.{
  Bytes, TransferInfo, no_info, Log, log_finished, log_fraud_reported, log_fraud_decided,
  log_cancellation, Outside, Collection, set_info, owner_of_token, call_receiver, require_created,
}

module _ {L : Type 0} (o : Outside L) (m : Msg) (c : Collection L) where
  -- `passed + finalizeTransferTimeout < block.timestamp`
  unfoldable pub timeout_passed : ℕ → Result Bool
  timeout_passed passed = do
    deadline ← add_uint passed c.finalize_transfer_timeout
    ok (ltb deadline m.timestamp)

  -- `_safeTransfer(ownerOf(tokenId), to, tokenId, data)`
  unfoldable pub hand_over : ℕ → ℕ → Bytes → Result L
  hand_over token_id to data_ = do
    from ← owner_of_token o m c token_id
    or_throw (o.safe_transfer c.ledger from to token_id data_) "ERC721: transfer failed"

  unfoldable pub may_finalize : TransferInfo → Result Bool
  unfolding add_uint
  may_finalize info =
      or_try (info.to == m.sender)
        (do late ← timeout_passed info.password_set_at; ok (late && (info.from == m.sender)))

  abbrev pub close_transfer : ℕ → L → Collection L
  close_transfer token_id ledger = record c {
    ledger = ledger;
    transfers = put token_id no_info c.transfers;
  }

  unfoldable pub finalize_transfer_call : ℕ → Result (Collection L × List Log)
  unfolding may_finalize
  finalize_transfer_call token_id = do
    _ ← require_created o m c (c.transfers token_id)
    _ ←
        require (has_any (c.transfers token_id).encrypted_password)
          "FilemarketCollectionV2: encrypted password wasn't set yet"
    _ ←
        require (not (c.transfers token_id).fraud_reported)
          "FilemarketCollectionV2: fraud was reported"
    allowed ← may_finalize (c.transfers token_id)
    _ ← require allowed "FilemarketCollectionV2: permission denied"
    ledger ← hand_over token_id (c.transfers token_id).to (c.transfers token_id).data_
    _ ←
        call_receiver o m c (c.transfers token_id).callback_receiver
          (o.transfer_finished (c.transfers token_id).callback_receiver token_id)
    ok (close_transfer token_id ledger, log_finished token_id ∷ [])

  -- `if (!approve) _safeTransfer(...)`
  unfoldable pub settle_fraud : ℕ → TransferInfo → Bool → Result L
  settle_fraud token_id info approve =
      if approve then ok c.ledger else hand_over token_id info.to info.data_

  -- What `reportFraud` does with the answer of the decider
  unfoldable pub report_decided : ℕ → TransferInfo → Bool × Bool → Result (Collection L × List Log)
  report_decided token_id info (decided, approve) =
      if decided
      then (do
        _ ←
            call_receiver o m c info.callback_receiver
              (o.transfer_fraud_detected info.callback_receiver token_id approve)
        ledger ← settle_fraud token_id info approve
        ok (
          close_transfer token_id ledger,
          log_fraud_reported token_id ∷ log_fraud_decided token_id approve ∷ [],
        ))
      else ok (
        set_info token_id (record info { fraud_reported = true }) c,
        log_fraud_reported token_id ∷ [],
      )

  unfoldable pub report_fraud_call : ℕ → Bytes → Result (Collection L × List Log)
  report_fraud_call token_id private_key = do
    _ ← require (has_any private_key) "FilemarketCollectionV2: private key is empty"
    _ ← require_created o m c (c.transfers token_id)
    _ ← require ((c.transfers token_id).to == m.sender) "FilemarketCollectionV2: permission denied"
    _ ←
        require (has_any (c.transfers token_id).encrypted_password)
          "FilemarketCollectionV2: encrypted password wasn't set yet"
    _ ←
        require (not (c.transfers token_id).fraud_reported)
          "FilemarketCollectionV2: fraud was already reported"
    answer ←
        or_throw
          (o.decide token_id (c.token_uris token_id) (c.transfers token_id).public_key private_key
            (c.transfers token_id).encrypted_password)
          "decider reverted"
    _ ←
        require (c.fraud_late_decision_enabled || answer.0)
          "FilemarketCollectionV2: late decision disabled"
    report_decided token_id (c.transfers token_id) answer

  unfoldable pub apply_fraud_decision_call : ℕ → Bool → Result (Collection L × List Log)
  apply_fraud_decision_call token_id approve = do
    _ ← require c.fraud_late_decision_enabled "FilemarketCollectionV2: late decision disabled"
    _ ← require_created o m c (c.transfers token_id)
    _ ← require (m.sender == c.fraud_decider) "FilemarketCollectionV2: permission denied"
    _ ←
        require (c.transfers token_id).fraud_reported
          "FilemarketCollectionV2: fraud was not reported"
    _ ←
        call_receiver o m c (c.transfers token_id).callback_receiver
          (o.transfer_fraud_detected (c.transfers token_id).callback_receiver token_id approve)
    ledger ← settle_fraud token_id (c.transfers token_id) approve
    ok (close_transfer token_id ledger, log_fraud_decided token_id approve ∷ [])

  unfoldable pub may_cancel : ℕ → TransferInfo → Result Bool
  unfolding add_uint
  may_cancel token_id info = do
    from ← owner_of_token o m c token_id
    or_try ((m.sender == from) || ((info.to == 0) && (m.sender == info.initiator))) (do
      late ← timeout_passed info.public_key_set_at
      ok (late && (info.password_set_at == 0) && (info.to == m.sender)))

  unfoldable pub cancel_transfer_call : ℕ → Result (Collection L × List Log)
  unfolding may_cancel
  cancel_transfer_call token_id = do
    _ ← require_created o m c (c.transfers token_id)
    _ ← require (not (c.transfers token_id).fraud_reported) "FilemarketCollectionV2: fraud reported"
    allowed ← may_cancel token_id (c.transfers token_id)
    _ ← require allowed "FilemarketCollectionV2: permission denied"
    _ ←
        call_receiver o m c (c.transfers token_id).callback_receiver
          (o.transfer_cancelled (c.transfers token_id).callback_receiver token_id)
    ok (close_transfer token_id c.ledger, log_cancellation token_id ∷ [])
