-- ===== src/Stores/Transfer/Statuses.antt =====
-- The statuses of the transfer in the store.
use file_market.Base.{
  ℕ, String, ◌≡◌, refl, sym, ap, ◌∙◌, inl, inr, Bool, true, false, Option, none, some, [],
  if◌then◌else◌, Bool-cases, or_else, is_some,
}
use file_market.Stores.Transfer.{
  TransferStatus, drafted, created, fraud_reported, finished, Transfer, TransferStore, has_status,
  statuses_of, check_exist_status,
}
use file_market.Stores.Transfer.Handlers.{
  ContractEvent, transfer_init, transfer_draft, transfer_draft_completion, transfer_public_key_set,
  transfer_password_set, transfer_finished, transfer_fraud_reported, transfer_fraud_decided,
  transfer_cancellation, check_data, check_activation, check_data_aux, check_activation_aux,
  init_body, draft_body, completion_body, public_key_body, password_body, fraud_body, decided_body,
  finished_body, cancellation_body, on_event,
}
use mathlib.Core.Path.{subst}
use file_market.Stores.Transfer.Distinct.{
  IsDistinct, HasDistinct, of-data, public_key-HasDistinct, password-HasDistinct, init-HasDistinct,
  draft-HasDistinct, completion-HasDistinct, fraud-HasDistinct, decided-HasDistinct,
  finished-HasDistinct, cancellation-HasDistinct,
}

-- What holds of both branches holds of a test.
pub if-keeps {ℓ κ} :
    {S : Type ℓ} (P : S → Type κ) (b : Bool) {x y : S} → P x → P y → P (if b then x else y)
if-keeps P true hx hy = hx
if-keeps P false hx hy = hy

module _ (big_int : String → ℕ) (token_id : ℕ) (s : TransferStore) where
  check_data_aux-keeps {ℓ} :
      (P : TransferStore → Type ℓ) (f : Transfer → TransferStore → TransferStore)
      (d : Option Transfer)
      → P s
      → ((t : Transfer) → d ≡ some t → P (f t s))
      → P (check_data_aux big_int token_id f s d)
  check_data_aux-keeps P f none h g = h
  check_data_aux-keeps P f (some t) h g = if-keeps P _ (g t refl) h

  check_activation_aux-keeps {ℓ} :
      (P : TransferStore → Type ℓ) (f : (String × String) → TransferStore → TransferStore)
      (d : Option (String × String))
      → P s
      → ((id : String × String) → P (f id s))
      → P (check_activation_aux big_int token_id f s d)
  check_activation_aux-keeps P f none h g = h
  check_activation_aux-keeps P f (some id) h g = if-keeps P _ (g id) h

  -- What holds of the store and of what a handler makes of its transfer holds afterwards.
  pub check_data-keeps {ℓ} :
      (P : TransferStore → Type ℓ) (f : Transfer → TransferStore → TransferStore)
      → P s
      → ((t : Transfer) → s.data_ ≡ some t → P (f t s))
      → P (check_data big_int token_id f s)
  unfolding check_data
  check_data-keeps P f h g = check_data_aux-keeps P f s.data_ h g

  pub check_activation-keeps {ℓ} :
      (P : TransferStore → Type ℓ) (f : (String × String) → TransferStore → TransferStore)
      → P s
      → ((id : String × String) → P (f id s))
      → P (check_activation big_int token_id f s)
  unfolding check_activation
  check_activation-keeps P f h g = check_activation_aux-keeps P f s.token_full_id h g

module _ (big_int : String → ℕ) where
  -- A handler that stops where its status is there, and puts it in front otherwise
  guarded-HasDistinct :
      (st : TransferStatus) (token_id : ℕ) (f : Transfer → TransferStore → TransferStore)
      (s : TransferStore)
      → HasDistinct s
      → ((t : Transfer)
          → has_status st (or_else t.statuses []) ≡ false
          → IsDistinct (or_else t.statuses [])
          → HasDistinct (f t s))
      → HasDistinct (if check_exist_status st s then s else check_data big_int token_id f s)
  unfolding check_exist_status HasDistinct
  guarded-HasDistinct st token_id f s h g =
      elim (Bool-cases (has_status st (statuses_of s.data_))) [
        | inl p ↦ rw p h
        | inr p ↦ rw p (
            check_data-keeps big_int token_id s HasDistinct f h (λ t e.
              g t (sym (ap (has_status st) (of-data s t e)) ∙ p)
                (subst IsDistinct (of-data s t e) h)))
      ]

  -- Whatever event of the contract comes, for whatever token, the statuses stay distinct.
  pub on_event-HasDistinct :
      (e : ContractEvent) (token_id now : ℕ) (s : TransferStore)
      → HasDistinct s
      → HasDistinct (on_event big_int e token_id now s)
  unfolding on_event HasDistinct
  on_event-HasDistinct (transfer_init from to n) token_id now s h =
      if-keeps HasDistinct (check_exist_status created s) {x = s}
        {y = (check_activation big_int token_id (init_body from to n now) s)} h
        (check_activation-keeps big_int token_id s HasDistinct (init_body from to n now) h
          (λ id. init-HasDistinct from to n now id s))
  on_event-HasDistinct (transfer_draft from n) token_id now s h =
      if-keeps HasDistinct (check_exist_status drafted s) {x = s}
        {y = (check_activation big_int token_id (draft_body from n now) s)} h
        (check_activation-keeps big_int token_id s HasDistinct (draft_body from n now) h
          (λ id. draft-HasDistinct from n now id s))
  on_event-HasDistinct (transfer_draft_completion to n) token_id now s h =
      check_data-keeps big_int token_id s HasDistinct (completion_body to n) h
        (λ t e. completion-HasDistinct to n t s (subst IsDistinct (of-data s t e) h))
  on_event-HasDistinct (transfer_public_key_set key n) token_id now s h =
      check_data-keeps big_int token_id s HasDistinct (public_key_body key n now) h
        (λ t e. public_key-HasDistinct key n now t s (subst IsDistinct (of-data s t e) h))
  on_event-HasDistinct (transfer_password_set password n) token_id now s h =
      check_data-keeps big_int token_id s HasDistinct (password_body password n now) h
        (λ t e. password-HasDistinct password n now t s (subst IsDistinct (of-data s t e) h))
  on_event-HasDistinct transfer_finished token_id now s h =
      if-keeps HasDistinct (is_some s.data_)
        {x = (check_activation big_int token_id (finished_body) s)} {y = s}
        (check_activation-keeps big_int token_id s HasDistinct (finished_body) h
          (λ id. finished-HasDistinct id s))
        (h)
  on_event-HasDistinct (transfer_fraud_reported n) token_id now s h =
      guarded-HasDistinct fraud_reported token_id (fraud_body n now) s h
        (λ t. fraud-HasDistinct n now t s)
  on_event-HasDistinct (transfer_fraud_decided approved n) token_id now s h =
      guarded-HasDistinct finished token_id (decided_body approved n now) s h
        (λ t. decided-HasDistinct approved n now t s)
  on_event-HasDistinct (transfer_cancellation n) token_id now s h =
      check_activation-keeps big_int token_id s HasDistinct (cancellation_body) h
        (λ id. cancellation-HasDistinct id s)
