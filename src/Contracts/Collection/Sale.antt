-- ===== src/Contracts/Collection/Sale.antt =====
-- The calls of FilemarketCollectionV2.sol that begin a transfer and carry it to its password.
use file_market.Base.{ℕ, false, not, ◌||◌, List, [], ◌∷◌, ltb, ◌==◌}
use file_market.Base.Result.{Result, ok, ◌>>=◌}
use file_market.Contracts.{Msg, require, add_uint, has_any, put}
use file_market.Contracts.Collection.{
  Bytes, TransferInfo, Log, log_init, log_draft, log_draft_completion, log_public_key_set,
  log_password_set, Outside, Collection, set_info, owner_of_token, require_created,
}

module _ {L : Type 0} (o : Outside L) (m : Msg) (c : Collection L) where
  -- The guards of `initTransfer` and `draftTransfer`, and the number of the new transfer
  unfoldable pub start_transfer : ℕ → Result ℕ
  start_transfer token_id = do
    _ ←
        require (o.is_approved_or_owner c.ledger m.sender token_id)
          "FilemarketCollectionV2: caller is not token owner or approved"
    _ ←
        require ((c.transfers token_id).initiator == 0)
          "FilemarketCollectionV2: transfer for this token was already created"
    add_uint (c.transfer_counts token_id) 1

  abbrev pub counted : ℕ → ℕ → TransferInfo → Collection L
  counted token_id number info = record c {
    transfers = put token_id info c.transfers;
    transfer_counts = put token_id number c.transfer_counts;
  }

  unfoldable pub init_transfer_call : ℕ → ℕ → Bytes → ℕ → Result (Collection L × List Log)
  unfolding add_uint
  init_transfer_call token_id to data_ callback_receiver = do
    number ← start_transfer token_id
    from ← owner_of_token o m c token_id
    ok (
      counted token_id number (record {
        id = token_id;
        initiator = m.sender;
        from = m.sender;
        to = to;
        callback_receiver = callback_receiver;
        data_ = data_;
        public_key = [];
        encrypted_password = [];
        fraud_reported = false;
        public_key_set_at = 0;
        password_set_at = 0;
      }),
      log_init token_id from to number ∷ [],
    )

  unfoldable pub draft_transfer_call : ℕ → ℕ → Result (Collection L × List Log)
  unfolding add_uint
  draft_transfer_call token_id callback_receiver = do
    number ← start_transfer token_id
    _ ←
        require ((c.owner == m.sender) || ltb c.sales_start_timestamp m.timestamp)
          "FilemarketCollectionV2: transfer can't be done before sales start day"
    from ← owner_of_token o m c token_id
    ok (
      counted token_id number (record {
        id = token_id;
        initiator = m.sender;
        from = from;
        to = 0;
        callback_receiver = callback_receiver;
        data_ = [];
        public_key = [];
        encrypted_password = [];
        fraud_reported = false;
        public_key_set_at = 0;
        password_set_at = 0;
      }),
      log_draft token_id from number ∷ [],
    )

  unfoldable pub complete_transfer_draft_call :
      ℕ → ℕ → Bytes → Bytes → Result (Collection L × List Log)
  complete_transfer_draft_call token_id to public_key data_ = do
    _ ← require (has_any public_key) "FilemarketCollectionV2: empty public key"
    _ ← require_created o m c (c.transfers token_id)
    _ ←
        require (m.sender == (c.transfers token_id).initiator)
          "FilemarketCollectionV2: permission denied"
    _ ← require ((c.transfers token_id).to == 0) "FilemarketCollectionV2: draft already complete"
    ok (
      set_info token_id
          (record (c.transfers token_id) {
            to = to;
            data_ = data_;
            public_key = public_key;
            public_key_set_at = m.timestamp;
          })
          c,
      log_draft_completion token_id to ∷ log_public_key_set token_id public_key ∷ [],
    )

  unfoldable pub set_transfer_public_key_call : ℕ → Bytes → ℕ → Result (Collection L × List Log)
  set_transfer_public_key_call token_id public_key transfer_number = do
    _ ← require (has_any public_key) "FilemarketCollectionV2: empty public key"
    _ ← require_created o m c (c.transfers token_id)
    _ ← require ((c.transfers token_id).to == m.sender) "FilemarketCollectionV2: permission denied"
    _ ←
        require (not (has_any (c.transfers token_id).public_key))
          "FilemarketCollectionV2: public key was already set"
    _ ←
        require (transfer_number == c.transfer_counts token_id)
          "FilemarketCollectionV2: the transfer is not the latest transfer of this token"
    ok (
      set_info token_id
          (record (c.transfers token_id) {
            public_key = public_key;
            public_key_set_at = m.timestamp;
          })
          c,
      log_public_key_set token_id public_key ∷ [],
    )

  unfoldable pub approve_transfer_call : ℕ → Bytes → Result (Collection L × List Log)
  approve_transfer_call token_id encrypted_password = do
    _ ← require (has_any encrypted_password) "FilemarketCollectionV2: empty password"
    _ ← require_created o m c (c.transfers token_id)
    from ← owner_of_token o m c token_id
    _ ← require (from == m.sender) "FilemarketCollectionV2: permission denied"
    _ ←
        require (has_any (c.transfers token_id).public_key)
          "FilemarketCollectionV2: public key wasn't set yet"
    _ ←
        require (not (has_any (c.transfers token_id).encrypted_password))
          "FilemarketCollectionV2: encrypted password was already set"
    ok (
      set_info token_id
          (record (c.transfers token_id) {
            encrypted_password = encrypted_password;
            password_set_at = m.timestamp;
          })
          c,
      log_password_set token_id encrypted_password ∷ [],
    )
