-- ===== src/Deal/Waiting.antt =====
-- What an action leaves of the waiting that it begins.
use file_market.Base.{◌≡◌, refl, Bool, true, false, not, ◌&&◌, ◌||◌}
use file_market.Base.Result.{Result, ok, err}
use file_market.Stores.Transfer.{
  TransferStore, set_waiting_event, set_waiting_receipt, set_waiting_socket, can_continue,
  is_waiting_for_continue,
}
use file_market.Deal.{is_disabled, on_action_start, on_action_error, on_action_end, wrap_action}

none_waiting : (c e w : Bool) → (not c || (e && false && w)) ≡ not c
none_waiting true true w = refl
none_waiting true false w = refl
none_waiting false e w = refl

all_waiting : (c : Bool) → (not c || true) ≡ true
all_waiting true = refl
all_waiting false = refl

-- Whatever an action awaits, whatever else happens meanwhile, and however it ends: while it starts
-- the actions are disabled, and afterwards they are disabled only for the confirmations of the
-- block.
wrap_action-enables :
    (other : TransferStore → TransferStore) (call : Result (TransferStore → TransferStore))
    (s : TransferStore)
    → (is_disabled (on_action_start s) ≡ true)
      × (is_disabled (wrap_action other call s).0
          ≡ not (can_continue (wrap_action other call s).0.block_store))
unfolding is_disabled wrap_action is_waiting_for_continue on_action_start on_action_error
    on_action_end set_waiting_event set_waiting_receipt set_waiting_socket
wrap_action-enables other (ok finish) s = (
  all_waiting (can_continue s.block_store),
  none_waiting (can_continue (wrap_action other (ok finish) s).0.block_store)
      (wrap_action other (ok finish) s).0.is_waiting_for_event
      (wrap_action other (ok finish) s).0.is_waiting_for_socket,
)
wrap_action-enables other (err e) s = (
  all_waiting (can_continue s.block_store),
  none_waiting (can_continue (wrap_action other (err e) s).0.block_store) false false,
)
