-- ===== src/Contracts/Collection/Moves/Begin.antt =====
-- The calls that begin a transfer and carry it to its password are steps of its state machine.
use file_market.Base.{ℕ, refl, inl}
use file_market.Contracts.{Msg, Post, require-Post, bind-Post, seq-Post}
use file_market.Contracts.Collection.{Bytes, Outside, Collection, owner_of_token, require_created}
use file_market.Contracts.Collection.Sale.{
  init_transfer_call, draft_transfer_call, complete_transfer_draft_call,
  set_transfer_public_key_call, approve_transfer_call,
}
use file_market.Contracts.Collection.Moves.{started, drafted, completed, keyed, approved, IsMove}
use file_market.Contracts.Collection.Moves.Steps.{
  false_of_not, put-IsMove, fresh-IsLateFraud, kept-IsLateFraud, start_transfer-free,
}

module _ {L : Type 0} (o : Outside L) (m : Msg) (c : Collection L) where
  pub init-IsMove :
      (k to : ℕ) (d : Bytes) (receiver : ℕ)
      → Post (IsMove o m.sender k c) (init_transfer_call o m c k to d receiver)
  unfolding init_transfer_call
  init-IsMove k to d receiver =
      seq-Post (IsMove o m.sender k c) _ _ _ (start_transfer-free o m c k) (λ number free.
        bind-Post (IsMove o m.sender k c) (owner_of_token o m c k) _ (λ from _.
          put-IsMove o m c k _ _ _ refl refl (fresh-IsLateFraud o m c _) (inl refl)
            (started from to receiver number d free)))

  pub draft-IsMove :
      (k receiver : ℕ) → Post (IsMove o m.sender k c) (draft_transfer_call o m c k receiver)
  unfolding draft_transfer_call
  draft-IsMove k receiver =
      seq-Post (IsMove o m.sender k c) _ _ _ (start_transfer-free o m c k) (λ number free.
        require-Post (IsMove o m.sender k c) _ _ _ (λ _.
          bind-Post (IsMove o m.sender k c) (owner_of_token o m c k) _ (λ from _.
            put-IsMove o m c k _ _ _ refl refl (fresh-IsLateFraud o m c _) (inl refl)
              (drafted from receiver number free))))

  pub complete-IsMove :
      (k to : ℕ) (key d : Bytes)
      → Post (IsMove o m.sender k c) (complete_transfer_draft_call o m c k to key d)
  unfolding complete_transfer_draft_call require_created
  complete-IsMove k to key d = require-Post (IsMove o m.sender k c) _ _ _ (λ any.
      require-Post (IsMove o m.sender k c) _ _ _ (λ made.
        require-Post (IsMove o m.sender k c) _ _ _ (λ own.
          require-Post (IsMove o m.sender k c) _ _ _ (λ free.
            put-IsMove o m c k _ _ _ refl refl
              (kept-IsLateFraud o m c (c.transfers k).fraud_reported) (inl refl)
              (completed to m.timestamp key d any (false_of_not _ made) own free)))))

  pub set_public_key-IsMove :
      (k : ℕ) (key : Bytes) (number : ℕ)
      → Post (IsMove o m.sender k c) (set_transfer_public_key_call o m c k key number)
  unfolding set_transfer_public_key_call require_created
  set_public_key-IsMove k key number = require-Post (IsMove o m.sender k c) _ _ _ (λ any.
      require-Post (IsMove o m.sender k c) _ _ _ (λ made.
        require-Post (IsMove o m.sender k c) _ _ _ (λ _.
          require-Post (IsMove o m.sender k c) _ _ _ (λ new.
            require-Post (IsMove o m.sender k c) _ _ _ (λ _.
              put-IsMove o m c k _ _ _ refl refl
                (kept-IsLateFraud o m c (c.transfers k).fraud_reported) (inl refl)
                (keyed m.timestamp key any (false_of_not _ made) (false_of_not _ new)))))))

  pub approve-IsMove :
      (k : ℕ) (password : Bytes)
      → Post (IsMove o m.sender k c) (approve_transfer_call o m c k password)
  unfolding approve_transfer_call require_created
  approve-IsMove k password = require-Post (IsMove o m.sender k c) _ _ _ (λ any.
      require-Post (IsMove o m.sender k c) _ _ _ (λ made.
        bind-Post (IsMove o m.sender k c) (owner_of_token o m c k) _ (λ from _.
          require-Post (IsMove o m.sender k c) _ _ _ (λ _.
            require-Post (IsMove o m.sender k c) _ _ _ (λ key.
              require-Post (IsMove o m.sender k c) _ _ _ (λ new.
                put-IsMove o m c k _ _ _ refl refl
                  (kept-IsLateFraud o m c (c.transfers k).fraud_reported) (inl refl)
                  (approved m.timestamp password any (false_of_not _ made) key
                    (false_of_not _ new))))))))
