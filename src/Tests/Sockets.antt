-- ===== src/Tests/Sockets.antt =====
-- A page of one chain after another.
use file_market.Base.{ℕ, refl, true, false, none, some, [], ◌∷◌}
use file_market.Stores.Transfer.{new_block_store, TransferStore}
use file_market.Stores.Socket.{SocketConnect, SocketStore, PageStores}
use file_market.Stores.Socket.Chains.{HasNoOpen}

abbrev old_connect : SocketConnect
old_connect = record {
  socket = 0;
  chain_id = some 1;
  last_message = "a";
  is_open = true;
  on_close = some "a";
}

abbrev connected : SocketStore
connected = record { connects = old_connect ∷ []; created = 1; sent = []; closed = [] }

no_open : HasNoOpen (some 2) (old_connect ∷ [])
unfolding HasNoOpen
no_open = refl

abbrev waiting_store : TransferStore
waiting_store = record {
  data_ = none;
  token_full_id = none;
  is_activated = true;
  is_waiting_for_event = true;
  is_waiting_for_receipt = true;
  is_waiting_for_socket = true;
  block_store = new_block_store;
  effects = [];
}

abbrev stores : PageStores ℕ ℕ
stores = record {
  transfer_store = waiting_store;
  order = none;
  token = none;
  is_can_redirect_mint = false;
}
