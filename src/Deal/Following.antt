-- ===== src/Deal/Following.antt =====
-- The status of the store after an action, and of the contract after the call of that action.
use file_market.Base.{
  ℕ, ◌≡◌, refl, ap, ◌∙◌, Bool, true, false, ◌||◌, Option, some, List, [], ◌∷◌, ◌==◌, is_some,
}
use file_market.Contracts.Collection.{
  Bytes, TransferInfo, no_info, Log, log_init, log_draft, log_draft_completion, log_public_key_set,
  log_password_set, log_finished, log_fraud_reported, log_fraud_decided, log_cancellation,
}
use file_market.Contracts.Collection.Moves.{
  Move, started, drafted as draft_started, completed, keyed, approved, ended, reported,
  judged_at_once, judged, withdrawn,
}
use file_market.Contracts.Collection.Status.{transfer_status}
use file_market.Contracts.Mirror.{Texts, Page, latest_status, FollowsStatus}
use file_market.Contracts.Mirror.Bodies.{
  draft-FollowsStatus, key-FollowsStatus, fraud-FollowsStatus,
}
use file_market.Contracts.Mirror.Steps.{checked, activation, gone-FollowsStatus}
use file_market.Contracts.Mirror.Status.{unseen, seen_in, FollowsStatus-latest}
use file_market.Deal.{
  Receipt, place_order_done, gift_done, fulfill_order_done, set_public_key_done, finalize_done,
  report_fraud_done, cancel_transfer_done,
}
use file_market.Stores.Transfer.{drafted, created, fraud_reported, TransferStore, statuses_of}
use file_market.Stores.Transfer.Handlers.{
  draft_body, public_key_body, fraud_body, finished_body, cancellation_body, on_event,
}

-- The receipt of a transaction in a block
abbrev pub mined : Receipt → ℕ → Option Receipt
mined r n = some (record r { block_number = some n })

-- The transfer that `initTransfer` makes
abbrev pub given_to : ℕ → ℕ → ℕ → ℕ → Bytes → TransferInfo
given_to k w to receiver d = record no_info {
  id = k;
  initiator = w;
  from = w;
  to = to;
  callback_receiver = receiver;
  data_ = d;
}

-- What the button does whose call emits the events, where the key that it sends is that of the
-- event. A decision on a fraud has no button; the button of a password encrypts it once more.
unfoldable pub button_done :
    (x : Texts) → (token_id now : ℕ) → Receipt → ℕ → List Log → TransferStore → TransferStore
unfolding place_order_done gift_done fulfill_order_done set_public_key_done finalize_done
    report_fraud_done cancel_transfer_done
button_done x k now r n (log_init _ _ _ _ ∷ ls) = gift_done x.big_int k now (mined r n)
button_done x k now r n (log_draft _ _ _ ∷ ls) = place_order_done x.big_int k now (mined r n)
button_done x k now r n (log_draft_completion _ _ ∷ log_public_key_set _ key ∷ ls) =
    fulfill_order_done x.big_int k now (mined r n) (some (x.hex key))
button_done x k now r n (log_public_key_set _ key ∷ ls) =
    set_public_key_done x.big_int k now (mined r n) (some (x.hex key))
button_done x k now r n (log_finished _ ∷ ls) = finalize_done x.big_int k now (mined r n)
button_done x k now r n (log_fraud_reported _ ∷ ls) = report_fraud_done x.big_int k now (mined r n)
button_done x k now r n (log_cancellation _ ∷ ls) = cancel_transfer_done x.big_int k now (mined r n)
button_done x k now r n ls = λ s. s

-- The events that a button does not follow: a gift, a password and a decision on a fraud
abbrev pub is_untold : Log → Bool
is_untold (log_init k from to number) = true
is_untold (log_password_set k password) = true
is_untold (log_fraud_decided k verdict) = true
is_untold l = false

abbrev pub has_untold : List Log → Bool
has_untold [] = false
has_untold (l ∷ ls) = is_untold l || has_untold ls

module _ (x : Texts) (p : Page x) (r : Receipt) (n now : ℕ) where
  -- Where the store has a transfer just when the contract has one, with its status, key and password,
  -- this is so again after each action of the page, with the receipt of a block and no event but
  -- that of the call: placing an order, fulfilling it, accepting a transfer, finalizing, reporting a
  -- fraud that waits for its decision, and cancelling. Sender and receiver are not compared.
  pub button_done-FollowsStatus :
      (w : ℕ) (i i' : TransferInfo) (ls : List Log) (s : TransferStore)
      → (w == 0) ≡ false
      → Move w p.token_id i i' ls
      → has_untold ls ≡ false
      → FollowsStatus x p i s
      → FollowsStatus x p i' (button_done x p.token_id now r n ls s)
  unfolding button_done place_order_done fulfill_order_done set_public_key_done finalize_done
      report_fraud_done cancel_transfer_done on_event
  button_done-FollowsStatus w i _ _ s sent (started from to receiver number d free) kept h = cc
  button_done-FollowsStatus w i _ _ s sent (draft_started from receiver number free) kept h =
      rw
        (
          unseen drafted s (h.absent free),
          activation x p (draft_body r.from n now) s h.activated h.full_id,
        )
        (draft-FollowsStatus x p n now i s h.activated h.full_id w from receiver r.from sent)
  button_done-FollowsStatus w i _ _ s sent (completed to time key d any made own free) kept h =
      let (t, is, e, mir) = h.present made in
      rw (checked x p (public_key_body (x.hex key) n now) t s e mir.id) (
        key-FollowsStatus x p n now i s h.activated h.full_id t is made h.ordered mir time to key d
          any)
  button_done-FollowsStatus w i _ _ s sent (keyed time key any made new) kept h =
      let (t, is, e, mir) = h.present made in
      rw (checked x p (public_key_body (x.hex key) n now) t s e mir.id) (
        key-FollowsStatus x p n now i s h.activated h.full_id t is made h.ordered mir time i.to key
          i.data_ any)
  button_done-FollowsStatus w i _ _ s sent (approved time password any made key new) kept h = cc
  button_done-FollowsStatus w i _ _ s sent (ended made given fair) kept h =
      let (t, is, e, mir) = h.present made in
      rw (ap is_some e, activation x p finished_body s h.activated h.full_id)
        (gone-FollowsStatus x p _ h.activated h.full_id refl)
  button_done-FollowsStatus w i _ _ s sent (reported made given fair) kept h =
      let (t, is, e, mir) = h.present made in
      rw
        (
          seen_in x p fraud_reported i t is s e mir ∙ mir.fraud_known ∙ fair,
          checked x p (fraud_body n now) t s e mir.id,
        )
        (fraud-FollowsStatus x p n now i s h.activated h.full_id t is made h.ordered mir given)
  button_done-FollowsStatus w i _ _ s sent (judged_at_once approve made given fair) kept h = cc
  button_done-FollowsStatus w i _ _ s sent (judged approve made unfair) kept h = cc
  button_done-FollowsStatus w i _ _ s sent (withdrawn made fair) kept h =
      rw (activation x p cancellation_body s h.activated h.full_id)
        (gone-FollowsStatus x p _ h.activated h.full_id refl)

  -- A gift leaves a transfer that the contract has as created and the page as drafted, until its
  -- data comes from the backend.
  gift_done-drafted :
      (w to receiver number : ℕ) (d : Bytes) (i : TransferInfo) (s : TransferStore)
      → (w == 0) ≡ false
      → (to == 0) ≡ false
      → (i.initiator == 0) ≡ true
      → FollowsStatus x p i s
      → (transfer_status (given_to p.token_id w to receiver d) ≡ some created)
        × (latest_status (statuses_of (gift_done x.big_int p.token_id now (mined r n) s).data_)
            ≡ some drafted)
  unfolding gift_done on_event transfer_status
  gift_done-drafted w to receiver number d i s sent aimed free h = (
    rw (sent, aimed) refl,
    rw
        (
          unseen drafted s (h.absent free),
          activation x p (draft_body r.from n now) s h.activated h.full_id,
        )
        (FollowsStatus-latest x p _ _
            (draft-FollowsStatus x p n now i s h.activated h.full_id w 0 0 r.from sent)
          ∙ rw sent refl),
  )
