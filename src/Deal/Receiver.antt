-- ===== src/Deal/Receiver.antt =====
-- The receiver of a transfer on the page of the account that has just fulfilled its order:
-- ButtonFulfillOrder.tsx, and useIsBuyer.ts of packages/frontend/src/app/processing/nft-interaction.
use file_market.Base.{
  ℕ, String, ◌≡◌, refl, sym, ap, ◌∙◌, inl, inr, Bool, false, not, ◌&&◌, str_eq, Option, none, some,
  [], arith, ◌==◌, Bool-cases, is_some, or_else,
}
use file_market.Contracts.Collection.{TransferInfo}
use file_market.Contracts.Mirror.{Texts, Page, FollowsStatus}
use file_market.Contracts.Mirror.Steps.{checked}
use file_market.Deal.{Receipt, fulfill_order_done}
use file_market.Deal.Following.{mined}
use file_market.Stores.Transfer.{
  public_key_set, Transfer, TransferStore, has_status, set_waiting_event, set_block_transfer,
  block_transfer_aux,
}
use file_market.Stores.Transfer.Handlers.{
  unshift, put_data, settle_event, public_key_body, on_event,
}

abbrev pub receiver_in : Option Transfer → Option String
receiver_in none = none
receiver_in (some t) = t.to

-- `transfer?.to && getAddress(address) === getAddress(transfer.to)`
abbrev is_receiver : (same : String → String → Bool) → String → Option String → Bool
is_receiver same address none = false
is_receiver same address (some to) = not (str_eq to "") && same address to

-- `useIsBuyer`, for the address of the connected account; `same` compares the texts by `getAddress`.
unfoldable pub is_buyer : (same : String → String → Bool) → Option String → Option Transfer → Bool
is_buyer same none t = false
is_buyer same (some address) t = not (str_eq address "") && is_receiver same address (receiver_in t)

settle-receiver :
    (n : ℕ) (s : TransferStore) → receiver_in (settle_event n s).data_ ≡ receiver_in s.data_
unfolding settle_event set_block_transfer set_waiting_event
settle-receiver n s = blocks n s s.data_ refl
  where
    blocks :
        (n : ℕ) (s : TransferStore) (d : Option Transfer)
        → s.data_ ≡ d
        → receiver_in (block_transfer_aux n (record s { is_waiting_for_event = false }) d).data_
          ≡ receiver_in d
    blocks n s none e = rw e refl
    blocks n s (some t) e = elim (Bool-cases (is_some t.block)) [
      | inl p ↦ rw p refl
      | inr p ↦ rw (p, e) refl
    ]

module _ (x : Texts) (p : Page x) (r : Receipt) (n now : ℕ) where
  key_put-receiver :
      (key : String) (t : Transfer) (s : TransferStore)
      → receiver_in (public_key_body key n now t s).data_ ≡ t.to
  unfolding public_key_body unshift
  key_put-receiver key t s = elim (Bool-cases (has_status public_key_set (or_else t.statuses []))) [
    | inl q ↦ rw q (settle-receiver n (put_data (record t { public_key = some key }) s))
    | inr q ↦ rw q (
        settle-receiver n
          (put_data (unshift public_key_set now (record t { public_key = some key })) s))
  ]

  -- On a page whose transfer of an open order has no receiver, the buyer who fulfils the order is not
  -- seen as the buyer afterwards, nor is anyone else: only the key comes to the store.
  pub fulfill_order_done-is_buyer :
      (i : TransferInfo) (s : TransferStore) (hex : String) (same : String → String → Bool)
      (address : Option String)
      → (i.initiator == 0) ≡ false
      → FollowsStatus x p i s
      → receiver_in s.data_ ≡ none
      → is_buyer same address
          (fulfill_order_done x.big_int p.token_id now (mined r n) (some hex) s).data_
        ≡ false
  unfolding fulfill_order_done on_event is_buyer
  fulfill_order_done-is_buyer i s hex same address made h unknown =
      let (t, is, e, mir) = h.present made in
      rw (checked x p (public_key_body hex n now) t s e mir.id)
        (nobody address _ (key_put-receiver hex t s ∙ sym (ap receiver_in e) ∙ unknown))
    where
      nobody :
          (a : Option String) (d : Option Transfer)
          → receiver_in d ≡ none
          → is_buyer same a d ≡ false
      nobody none d none_known = refl
      nobody (some a) d none_known = rw none_known (ground arith)
