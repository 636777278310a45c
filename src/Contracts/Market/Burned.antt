-- ===== src/Contracts/Market/Burned.antt =====
-- What becomes of an order whose token is burned.
use file_market.Base.{ℕ, ◌≡◌, ap, ◌∙◌, inl, inr, arith, true, false, none, List, ◌==◌}
use file_market.Base.Result.{Result, ◌>>=◌}
use file_market.Contracts.{Msg, has_any, Post, require-Post, seq-Post}
use file_market.Contracts.Collection.{
  Log, Outside, Collection, Call, init_transfer, draft_transfer, complete_transfer_draft,
  set_transfer_public_key, approve_transfer, finalize_transfer, report_fraud, apply_fraud_decision,
  cancel_transfer, owner_of_token, require_created, token_of,
}
use file_market.Contracts.Collection.Sale.{
  start_transfer, init_transfer_call, draft_transfer_call, complete_transfer_draft_call,
  set_transfer_public_key_call, approve_transfer_call,
}
use file_market.Contracts.Collection.Ending.{
  finalize_transfer_call, report_fraud_call, apply_fraud_decision_call, may_cancel,
  cancel_transfer_call,
}
use file_market.Contracts.Collection.Calls.{call}
use file_market.Contracts.Collection.Moves.{IsMove}
use file_market.Contracts.Collection.Moves.Steps.{start_transfer-free}
use file_market.Contracts.Collection.Ownership.{IsLedger}

-- A transfer that has a receiver and a key but no password, of a token that is not there
pub record IsOrphan {L : Type 0} (o : Outside L) (k : ℕ) (c : Collection L) : Type 0 where
  pub gone : o.owner_of c.ledger k ≡ none
  pub made : ((c.transfers k).initiator == 0) ≡ false
  pub received : ((c.transfers k).to == 0) ≡ false
  pub keyed_ : has_any (c.transfers k).public_key ≡ true
  pub not_given : has_any (c.transfers k).encrypted_password ≡ false
  pub fair : (c.transfers k).fraud_reported ≡ false

module _ {L : Type 0} (o : Outside L) (m : Msg) (c : Collection L) (k : ℕ)
    (h : IsOrphan o k c) where
  abbrev pub Never : Collection L × List Log → Type 0
  Never r = ⊥

  start-Never :
      (next : ℕ → Result (Collection L × List Log)) → Post Never (start_transfer o m c k >>= next)
  start-Never next =
      seq-Post Never (λ n. ((c.transfers k).initiator == 0) ≡ true) (start_transfer o m c k) next
        (start_transfer-free o m c k) (λ n free. absurd (ground (arith, free, h.made)))

  -- No call that is about the token ends.
  pub orphan-stuck : (a : Call) → token_of a ≡ k → Post Never (call o m c a)
  unfolding call init_transfer_call draft_transfer_call complete_transfer_draft_call
      set_transfer_public_key_call approve_transfer_call finalize_transfer_call report_fraud_call
      apply_fraud_decision_call cancel_transfer_call may_cancel require_created owner_of_token
  orphan-stuck (init_transfer j to d receiver) e = rw e (start-Never _)
  orphan-stuck (draft_transfer j receiver) e = rw e (start-Never _)
  orphan-stuck (complete_transfer_draft j to key d) e = rw e (
      require-Post Never _ _ _ (λ _. require-Post Never _ _ _ (λ _.
        require-Post Never _ _ _
          (λ _. require-Post Never _ _ _ (λ free. absurd (ground (arith, free, h.received)))))))
  orphan-stuck (set_transfer_public_key j key number) e = rw e (
      require-Post Never _ _ _ (λ _. require-Post Never _ _ _ (λ _.
        require-Post Never _ _ _
          (λ _. require-Post Never _ _ _ (λ new. absurd (ground (arith, new, h.keyed_)))))))
  orphan-stuck (approve_transfer j password) e =
      rw e (require-Post Never _ _ _ (λ _. require-Post Never _ _ _ (λ _. rw h.gone tt)))
  orphan-stuck (finalize_transfer j) e = rw e (
      require-Post Never _ _ _
        (λ _. require-Post Never _ _ _ (λ given. absurd (ground (arith, given, h.not_given)))))
  orphan-stuck (report_fraud j private_key) e = rw e (
      require-Post Never _ _ _ (λ _. require-Post Never _ _ _ (λ _.
        require-Post Never _ _ _
          (λ _. require-Post Never _ _ _ (λ given. absurd (ground (arith, given, h.not_given)))))))
  orphan-stuck (apply_fraud_decision j approve) e = rw e (
      require-Post Never _ _ _ (λ _. require-Post Never _ _ _ (λ _.
        require-Post Never _ _ _
          (λ _. require-Post Never _ _ _ (λ told. absurd (ground (arith, told, h.fair)))))))
  orphan-stuck (cancel_transfer j) e =
      rw e (require-Post Never _ _ _ (λ _. require-Post Never _ _ _ (λ _. rw h.gone tt)))

  -- A call about another token leaves the orphan.
  pub other-IsOrphan :
      (j : ℕ) (r : Collection L × List Log)
      → IsLedger o
      → (k == j) ≡ false
      → IsMove o m.sender j c r
      → IsOrphan o k r.0
  other-IsOrphan j r law n mv = record {
    gone = elim mv.in_ledger [
      | inl e ↦ ap (λ l. o.owner_of l k) e ∙ h.gone
      | inr g ↦
          law.apart c.ledger r.0.ledger g.from (c.transfers j).to j k (c.transfers j).data_ g.handed
            n
          ∙ h.gone
    ];
    made = rw (mv.others k n) h.made;
    received = rw (mv.others k n) h.received;
    keyed_ = rw (mv.others k n) h.keyed_;
    not_given = rw (mv.others k n) h.not_given;
    fair = rw (mv.others k n) h.fair;
  }
