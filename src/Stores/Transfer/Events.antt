-- ===== src/Stores/Transfer/Events.antt =====
-- Which events change the store, and what stays after them.
use file_market.Base.{
  ℕ, String, ◌≡◌, refl, sym, ap, ◌∙◌, inl, inr, Bool, true, false, not, ◌&&◌, Option, none, some,
  [], arith, str_eq, ◌==◌, if◌then◌else◌, ==_refl, Bool-cases, or_else, is_some,
}
use file_market.Stores.Transfer.{
  drafted, created, public_key_set, password_set, fraud_reported, finished, Transfer, TransferStore,
  has_status, statuses_of, check_exist_status, set_waiting_event, set_block_transfer,
  block_transfer_aux,
}
use file_market.Stores.Transfer.Handlers.{
  unshift, put_data, settle_event, ContractEvent, transfer_init, transfer_draft,
  transfer_draft_completion, transfer_public_key_set, transfer_password_set, transfer_finished,
  transfer_fraud_reported, transfer_fraud_decided, transfer_cancellation, check_data,
  check_activation, check_data_aux, check_activation_aux, init_body, draft_body, completion_body,
  public_key_body, password_body, fraud_body, decided_body, finished_body, cancellation_body,
  on_event,
}

settle-waiting : (n : ℕ) (s : TransferStore) → (settle_event n s).is_waiting_for_event ≡ false
unfolding settle_event set_block_transfer set_waiting_event
settle-waiting n s = go s.data_
  where
    go :
        (d : Option Transfer)
        → (block_transfer_aux n (record s { is_waiting_for_event = false }) d).is_waiting_for_event
          ≡ false
    go none = refl
    go (some t) = elim (Bool-cases (is_some t.block)) [ inl p ↦ rw p refl | inr p ↦ rw p refl ]

public_key-waiting :
    (key : String) (n now : ℕ) (t : Transfer) (s : TransferStore)
    → (public_key_body key n now t s).is_waiting_for_event ≡ false
unfolding public_key_body
public_key-waiting key n now t s = settle-waiting n (
    put_data
      (if has_status public_key_set (or_else t.statuses [])
        then record t { public_key = some key }
        else unshift public_key_set now (record t { public_key = some key }))
      s)

module _ (big_int : String → ℕ) where
  -- The store has no transfer of the token, and is not activated for it.
  unfoldable pub IsOther : ℕ → TransferStore → Type 0
  IsOther token_id s =
      ((t : Transfer) → s.data_ ≡ some t → (big_int t.token_id == token_id) ≡ false)
      × ((id : String × String) → s.token_full_id ≡ some id → (big_int id.1 == token_id) ≡ false)

  check_data_other :
      (token_id : ℕ) (f : Transfer → TransferStore → TransferStore) (s : TransferStore)
      (d : Option Transfer)
      → ((t : Transfer) → d ≡ some t → (big_int t.token_id == token_id) ≡ false)
      → check_data_aux big_int token_id f s d ≡ s
  check_data_other token_id f s none h = refl
  check_data_other token_id f s (some t) h = ground (arith, h t refl)

  check_activation_other :
      (token_id : ℕ) (f : (String × String) → TransferStore → TransferStore) (s : TransferStore)
      (d : Option (String × String))
      → ((id : String × String) → d ≡ some id → (big_int id.1 == token_id) ≡ false)
      → check_activation_aux big_int token_id f s d ≡ s
  check_activation_other token_id f s none h = refl
  check_activation_other token_id f s (some id) h = ground (arith, h id refl)

  if_same {ℓ} : {S : Type ℓ} (b : Bool) {x y : S} → x ≡ y → (if b then x else y) ≡ y
  if_same true e = e
  if_same false e = refl

  same_if {ℓ} : {S : Type ℓ} (b : Bool) {x y : S} → y ≡ x → (if b then x else y) ≡ x
  same_if true e = refl
  same_if false e = e

  -- An event of another token changes nothing in the store.
  pub on_event_other :
      (e : ContractEvent) (token_id now : ℕ) (s : TransferStore)
      → IsOther token_id s
      → on_event big_int e token_id now s ≡ s
  unfolding on_event check_data check_activation IsOther
  on_event_other (transfer_init from to n) token_id now s h =
      same_if (check_exist_status created s)
        (check_activation_other token_id (init_body from to n now) s s.token_full_id h.1)
  on_event_other (transfer_draft from n) token_id now s h =
      same_if (check_exist_status drafted s)
        (check_activation_other token_id (draft_body from n now) s s.token_full_id h.1)
  on_event_other (transfer_draft_completion to n) token_id now s h =
      check_data_other token_id (completion_body to n) s s.data_ h.0
  on_event_other (transfer_public_key_set key n) token_id now s h =
      check_data_other token_id (public_key_body key n now) s s.data_ h.0
  on_event_other (transfer_password_set password n) token_id now s h =
      check_data_other token_id (password_body password n now) s s.data_ h.0
  on_event_other transfer_finished token_id now s h =
      if_same (is_some s.data_)
        (check_activation_other token_id (finished_body) s s.token_full_id h.1)
  on_event_other (transfer_fraud_reported n) token_id now s h =
      same_if (check_exist_status fraud_reported s)
        (check_data_other token_id (fraud_body n now) s s.data_ h.0)
  on_event_other (transfer_fraud_decided approved n) token_id now s h =
      same_if (check_exist_status finished s)
        (check_data_other token_id (decided_body approved n now) s s.data_ h.0)
  on_event_other (transfer_cancellation n) token_id now s h =
      check_activation_other token_id (cancellation_body) s s.token_full_id h.1

  -- Where the transfer has the status of a set password already, another such event leaves the flag
  -- of waiting and the block store as they are.
  password_set_again :
      (password : String) (n token_id now : ℕ) (s : TransferStore)
      → check_exist_status password_set s ≡ true
      → ((on_event big_int (transfer_password_set password n) token_id now s).is_waiting_for_event
          ≡ s.is_waiting_for_event)
        × ((on_event big_int (transfer_password_set password n) token_id now s).block_store
            ≡ s.block_store)
  unfolding on_event check_data check_exist_status password_body
  password_set_again password n token_id now s h = go s.data_ refl
    where
      go :
          (d : Option Transfer)
          → s.data_ ≡ d
          → ((check_data_aux big_int token_id
                (password_body password n now)
                s
                d).is_waiting_for_event
              ≡ s.is_waiting_for_event)
            × ((check_data_aux big_int token_id (password_body password n now) s d).block_store
                ≡ s.block_store)
      go none e = (refl, refl)
      go (some t) e =
          elim (Bool-cases (not (str_eq t.token_id "") && (big_int t.token_id == token_id))) [
            | inl p ↦
                rw (p, sym (ap (λ d. has_status password_set (statuses_of d)) e) ∙ h) (refl, refl)
            | inr p ↦ rw p (refl, refl)
          ]

  -- An event of a set public key for the token of the store's transfer, whose id is not empty, ends
  -- the waiting, whether or not the transfer has that status.
  public_key_set_again :
      (key : String) (n token_id now : ℕ) (t : Transfer) (s : TransferStore)
      → s.data_ ≡ some t
      → (str_eq t.token_id "") ≡ false
      → big_int t.token_id ≡ token_id
      → (on_event big_int (transfer_public_key_set key n) token_id now s).is_waiting_for_event
        ≡ false
  unfolding on_event check_data
  public_key_set_again key n token_id now t s e full same =
      rw (e, full, same, ==_refl token_id)
        (public_key-waiting key n now t (record s { data_ = some t }))
