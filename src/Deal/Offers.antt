-- ===== src/Deal/Offers.antt =====
-- The actions that the page offers, against what the contract accepts.
use file_market.Base.{
  ℕ, ◌≡◌, refl, inl, inr, Bool, true, false, not, ◌||◌, ◌&&◌, some, ◌==◌, ==_refl, ◌⊎◌,
}
use file_market.Base.Result.{Result, ok, err}
use file_market.Contracts.{Msg, has_any, require}
use file_market.Contracts.Collection.{
  Bytes, TransferInfo, Outside, Collection, complete_transfer_draft, set_transfer_public_key,
  approve_transfer, finalize_transfer, cancel_transfer, owner_of_token, call_receiver,
  require_created,
}
use file_market.Contracts.Collection.Sale.{
  complete_transfer_draft_call, set_transfer_public_key_call, approve_transfer_call,
}
use file_market.Contracts.Collection.Ending.{
  finalize_transfer_call, may_finalize, hand_over, may_cancel, cancel_transfer_call,
}
use file_market.Contracts.Collection.Calls.{call}
use file_market.Contracts.Collection.Closable.{or_true}
use file_market.Contracts.Collection.Status.{transfer_status}
use file_market.Contracts.Mirror.{Texts, Page, FollowsStatus}
use file_market.Stores.Transfer.{drafted, created, public_key_set, password_set, TransferStore}
use file_market.Stores.Transfer.Permissions.{
  has_order, status_is, owner_can_approve, owner_can_cancel, buyer_can_fulfill_order,
  buyer_can_set_public_key, buyer_can_finalize,
}
use file_market.Deal.Statuses.{shown, flags_drafted, flags_created, flags_keyed, flags_given}

or-true : (a b : Bool) → (a || b) ≡ true → (a ≡ true) ⊎ (b ≡ true)
or-true true b h = inl refl
or-true false b h = inr h

and-true : (a b : Bool) → (a && b) ≡ true → a ≡ true
and-true true b h = refl
and-true false b h = h

-- Where the owner may cancel, no fraud is reported.
cancel-unreported :
    (x : Texts) (p : Page x) (i : TransferInfo) (s : TransferStore)
    → FollowsStatus x p i s
    → owner_can_cancel s.data_ ≡ true
    → ((i.initiator == 0) ≡ false) × (i.fraud_reported ≡ false)
unfolding owner_can_cancel transfer_status
cancel-unreported x p i s h e =
    elim (or-true (status_is drafted s.data_ && not (has_order s.data_)) _ e) [
      | inl a ↦
          let f =
            flags_drafted _ _ _ _ _
              (shown x p drafted i s h (and-true _ (not (has_order s.data_)) a)) in
          (f.0, f.1)
      | inr b ↦
          elim (or-true (status_is created s.data_ || status_is public_key_set s.data_)
            (status_is password_set s.data_) b) [
              | inl d ↦
                  elim (or-true (status_is created s.data_) (status_is public_key_set s.data_) d) [
                    | inl a ↦
                        let f = flags_created _ _ _ _ _ (shown x p created i s h a) in (f.0, f.1)
                    | inr a ↦
                        let f = flags_keyed _ _ _ _ _ (shown x p public_key_set i s h a) in
                        (f.0, f.1)
                  ]
              | inr a ↦ let f = flags_given _ _ _ _ _ (shown x p password_set i s h a) in (f.0, f.1)
            ]
    ]

-- One test holds wherever the other does.
abbrev pub implies : Bool → Bool → Bool
implies true b = b
implies false b = true

implies-intro : (a b : Bool) → (a ≡ true → b ≡ true) → implies a b ≡ true
implies-intro true b f = f refl
implies-intro false b f = refl

abbrev pub is_ok {ℓ} : {A : Type ℓ} → Result A → Bool
is_ok (ok a) = true
is_ok (err e) = false

module _ (x : Texts) (p : Page x) {L : Type 0} (o : Outside L) (m : Msg) (c : Collection L)
    (s : TransferStore) (h : FollowsStatus x p (c.transfers p.token_id) s) where
  -- Of the page's buyer
  -- An order that a page that follows the contract offers to fulfil, the contract completes for the
  -- contract that placed it, with any key that is not empty.
  fulfill-accepted :
      (to : ℕ) (key d : Bytes)
      → buyer_can_fulfill_order s.data_ ≡ true
      → m.sender ≡ (c.transfers p.token_id).initiator
      → has_any key ≡ true
      → is_ok (call o m c (complete_transfer_draft p.token_id to key d)) ≡ true
  unfolding buyer_can_fulfill_order transfer_status call complete_transfer_draft_call
      require_created require
  fulfill-accepted to key d e by any =
      let (made, fair, unpaid, new, free) =
        flags_drafted _ _ _ _ _ (shown x p drafted (c.transfers p.token_id) s h e) in
      rw (any, made, by, ==_refl (c.transfers p.token_id).initiator, free) refl

  key-accepted :
      (key : Bytes)
      → buyer_can_set_public_key s.data_ ≡ true
      → (c.transfers p.token_id).to ≡ m.sender
      → has_any key ≡ true
      → is_ok (call o m c (set_transfer_public_key p.token_id key (c.transfer_counts p.token_id)))
        ≡ true
  unfolding buyer_can_set_public_key transfer_status call set_transfer_public_key_call
      require_created require
  key-accepted key e by any =
      let (made, fair, unpaid, new, aimed) =
        flags_created _ _ _ _ _ (shown x p created (c.transfers p.token_id) s h e) in
      rw (any, made, by, ==_refl m.sender, new, ==_refl (c.transfer_counts p.token_id)) refl

  finalize-accepted :
      (from : ℕ) (l : L)
      → buyer_can_finalize s.data_ ≡ true
      → (c.transfers p.token_id).to ≡ m.sender
      → o.owner_of c.ledger p.token_id ≡ some from
      → o.safe_transfer c.ledger from m.sender p.token_id (c.transfers p.token_id).data_ ≡ some l
      → o.transfer_finished (c.transfers p.token_id).callback_receiver p.token_id ≡ true
      → is_ok (call o m c (finalize_transfer p.token_id)) ≡ true
  unfolding buyer_can_finalize transfer_status call finalize_transfer_call require_created require
      may_finalize hand_over owner_of_token call_receiver
  finalize-accepted from l e by owned sent called =
      let (made, fair, given) =
        flags_given _ _ _ _ _ (shown x p password_set (c.transfers p.token_id) s h e) in
      rw
        (
          made,
          given,
          fair,
          by,
          ==_refl m.sender,
          owned,
          sent,
          called,
          or_true ((c.transfers p.token_id).callback_receiver == 0),
        )
        refl

  approve-accepted :
      (password : Bytes)
      → owner_can_approve s.data_ ≡ true
      → o.owner_of c.ledger p.token_id ≡ some m.sender
      → has_any password ≡ true
      → is_ok (call o m c (approve_transfer p.token_id password)) ≡ true
  unfolding owner_can_approve transfer_status call approve_transfer_call require_created require
      owner_of_token
  approve-accepted password e owned any =
      let (made, fair, unpaid, key) =
        flags_keyed _ _ _ _ _ (shown x p public_key_set (c.transfers p.token_id) s h e) in
      rw (any, made, owned, ==_refl m.sender, key, unpaid) refl

  unreported-accepted :
      ((c.transfers p.token_id).initiator == 0) ≡ false
      → (c.transfers p.token_id).fraud_reported ≡ false
      → o.owner_of c.ledger p.token_id ≡ some m.sender
      → o.transfer_cancelled (c.transfers p.token_id).callback_receiver p.token_id ≡ true
      → is_ok (call o m c (cancel_transfer p.token_id)) ≡ true
  unfolding call cancel_transfer_call require_created require may_cancel owner_of_token
      call_receiver
  unreported-accepted made fair owned called =
      rw
        (
          made,
          fair,
          owned,
          ==_refl m.sender,
          called,
          or_true ((c.transfers p.token_id).callback_receiver == 0),
        )
        refl

  cancel-accepted :
      owner_can_cancel s.data_ ≡ true
      → o.owner_of c.ledger p.token_id ≡ some m.sender
      → o.transfer_cancelled (c.transfers p.token_id).callback_receiver p.token_id ≡ true
      → is_ok (call o m c (cancel_transfer p.token_id)) ≡ true
  cancel-accepted e owned called =
      let (made, fair) = cancel-unreported x p (c.transfers p.token_id) s h e in
      unreported-accepted made fair owned called

  -- What a page that follows the contract offers to the owner of the token, the contract accepts
  -- from the owner: to give the password for the key, if it is not empty, and to cancel, if the
  -- callback returns.
  pub owner-accepted :
      (password : Bytes)
      → o.owner_of c.ledger p.token_id ≡ some m.sender
      → has_any password ≡ true
      → o.transfer_cancelled (c.transfers p.token_id).callback_receiver p.token_id ≡ true
      → (implies
            (owner_can_approve s.data_)
            (is_ok (call o m c (approve_transfer p.token_id password)))
          ≡ true)
        × (implies (owner_can_cancel s.data_) (is_ok (call o m c (cancel_transfer p.token_id)))
            ≡ true)
  owner-accepted password owned any called = (
    implies-intro _ _ (λ e. approve-accepted password e owned any),
    implies-intro _ _ (λ e. cancel-accepted e owned called),
  )

  -- What a page that follows the contract offers to the receiver of a transfer, the contract
  -- accepts from the receiver: to set a key that is not empty, for the latest transfer of the
  -- token, and to finalize, if the ledger hands the token over and the callback returns.
  pub buyer-accepted :
      (key : Bytes) (from : ℕ) (l : L)
      → (c.transfers p.token_id).to ≡ m.sender
      → has_any key ≡ true
      → o.owner_of c.ledger p.token_id ≡ some from
      → o.safe_transfer c.ledger from m.sender p.token_id (c.transfers p.token_id).data_ ≡ some l
      → o.transfer_finished (c.transfers p.token_id).callback_receiver p.token_id ≡ true
      → (implies (buyer_can_set_public_key s.data_) (
            is_ok
              (call o m c (set_transfer_public_key p.token_id key (c.transfer_counts p.token_id))))
          ≡ true)
        × (implies (buyer_can_finalize s.data_) (is_ok (call o m c (finalize_transfer p.token_id)))
            ≡ true)
  buyer-accepted key from l by any owned sent called = (
    implies-intro _ _ (λ e. key-accepted key e by any),
    implies-intro _ _ (λ e. finalize-accepted from l e by owned sent called),
  )
