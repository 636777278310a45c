-- ===== src/Stores/Socket/Messages.antt =====
-- What a message of the backend does to the stores of a page.
use file_market.Base.{
  ◌≡◌, refl, inl, inr, true, false, ◌||◌, Option, none, some, Bool-cases, is_some,
}
use file_market.Stores.Transfer.{
  Transfer, TransferStore, set_waiting_event, set_waiting_socket, is_waiting_for_continue,
  set_block_transfer, set_data,
}
use file_market.Stores.Socket.{PageStores, EftMessage, on_message, on_message_subscribe_to_eft}

set_data-event :
    (t : Option Transfer) (s : TransferStore) → (set_data t s).is_waiting_for_event ≡ false
unfolding set_data set_block_transfer set_waiting_event
set_data-event none s = refl
set_data-event (some t) s = elim (Bool-cases (is_some t.block)) [
  | inl e ↦ rw e refl
  | inr e ↦ rw e refl
]

-- A message with an order or a token ends the waiting of the page and gives it the order and the
-- token of the message; a token lets it redirect, and what let it redirect still does.
message-stops :
    {O T : Type 0} (m : EftMessage O T) (p : PageStores O T)
    → (is_some m.order || is_some m.token) ≡ true
    → (is_waiting_for_continue (on_message_subscribe_to_eft (some m) p).transfer_store ≡ false)
      × ((on_message_subscribe_to_eft (some m) p).order ≡ m.order)
      × ((on_message_subscribe_to_eft (some m) p).token ≡ m.token)
      × ((on_message_subscribe_to_eft (some m) p).is_can_redirect_mint
          ≡ (p.is_can_redirect_mint || is_some m.token))
unfolding on_message_subscribe_to_eft on_message is_waiting_for_continue set_waiting_socket
message-stops m p h =
    rw (some_key, set_data-event m.transfer p.transfer_store) (refl, refl, refl, refl)
  where
    some_key : (is_some m.transfer || is_some m.order || is_some m.token) ≡ true
    some_key = elim (Bool-cases (is_some m.transfer)) [ inl e ↦ rw e refl | inr e ↦ rw e h ]
