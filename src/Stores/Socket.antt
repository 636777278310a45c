-- ===== src/Stores/Socket.antt =====
-- stores/Socket/SocketStore.ts of packages/frontend/src/app. A web socket is known by the number
-- of its creation; what is sent to it and the calls of `close` are logs. There is one type of
-- connection, so it is left out, as is logging. Addresses of the sockets are given by the caller.
use file_market.Base.{
  ℕ, zero, suc, ◌+◌, String, Bool, true, false, ◌&&◌, ◌||◌, Option, none, some, List, [], ◌∷◌, ◌++◌,
  ◌==◌, if◌then◌else◌, is_some, length, get_elem?,
}
use file_market.Stores.Transfer.{created, Transfer, TransferStore, set_waiting_socket, set_data}
pub mod Chains
pub mod Messages

-- `ISocketConnect`; `is_open` is whether the state of its socket is OPEN
pub record SocketConnect : Type 0 where
  pub socket : ℕ
  pub chain_id : Option ℕ
  pub last_message : String
  pub is_open : Bool
  pub on_close : Option String

pub record SocketStore : Type 0 where
  pub connects : List SocketConnect
  pub created : ℕ
  pub sent : List (ℕ × String)
  pub closed : List ℕ

abbrev pub same_chain : Option ℕ → Option ℕ → Bool
same_chain none none = true
same_chain none (some n) = false
same_chain (some n) none = false
same_chain (some n) (some k) = n == k

-- The test of `findIndexSocket`
abbrev pub matches : Option ℕ → SocketConnect → Bool
matches none c = c.is_open
matches (some n) c = same_chain c.chain_id (some n) && c.is_open

abbrev pub next_index : Option ℕ → Option ℕ
next_index none = none
next_index (some k) = some (suc k)

-- `findIndexSocket`; none is -1
abbrev pub find_index_socket : Option ℕ → List SocketConnect → Option ℕ
find_index_socket chain [] = none
find_index_socket chain (c ∷ cs) =
    let rest = find_index_socket chain cs in if matches chain c then some zero else next_index rest

-- `splice(index, 1)`: an index of -1 counts from the end
abbrev pub remove_nth : ℕ → List SocketConnect → List SocketConnect
remove_nth k [] = []
remove_nth zero (c ∷ cs) = cs
remove_nth (suc k) (c ∷ cs) = c ∷ remove_nth k cs

abbrev pub remove_last : List SocketConnect → List SocketConnect
remove_last [] = []
remove_last (c ∷ []) = []
remove_last (c ∷ d ∷ cs) = c ∷ remove_last (d ∷ cs)

abbrev pub set_nth : (SocketConnect → SocketConnect) → ℕ → List SocketConnect → List SocketConnect
set_nth f k [] = []
set_nth f zero (c ∷ cs) = f c ∷ cs
set_nth f (suc k) (c ∷ cs) = c ∷ set_nth f k cs

abbrev pub close_connect : Option SocketConnect → SocketStore → SocketStore
close_connect none s = s
close_connect (some c) s = record s { closed = c.socket ∷ s.closed }

abbrev pub disconnect_at : Option ℕ → SocketStore → SocketStore
disconnect_at none s = record s { connects = remove_last s.connects }
disconnect_at (some k) s = record (close_connect (get_elem? s.connects k) s) {
  connects = remove_nth k s.connects;
}

unfoldable pub disconnect : Option ℕ → SocketStore → SocketStore
disconnect chain s = disconnect_at (find_index_socket chain s.connects) s

-- `subscribe`: on the socket there is, or on a new one, which sends once it opens
abbrev pub send_at : Option SocketConnect → String → SocketStore → SocketStore
send_at none message s = s
send_at (some c) message s = record s { sent = (c.socket, message) ∷ s.sent }

abbrev pub subscribe_at : Option ℕ → String → Option ℕ → SocketStore → SocketStore
subscribe_at chain message none s = record s {
  created = suc s.created;
  connects =
      s.connects
      ++ (record {
        socket = s.created;
        chain_id = chain;
        last_message = message;
        is_open = false;
        on_close = some message;
      }
          ∷ []);
}
subscribe_at chain message (some k) s = record (send_at (get_elem? s.connects k) message s) {
  connects =
      set_nth (λ c. record c { last_message = message; on_close = some message }) k s.connects;
}

unfoldable pub subscribe : Option ℕ → String → SocketStore → SocketStore
subscribe chain message s = subscribe_at chain message (find_index_socket chain s.connects) s

-- The loop of `subscribeToEft`, which visits as many indices as there were connections
abbrev pub visit : Option ℕ → Option SocketConnect → SocketStore → SocketStore
visit chain none s = s
visit chain (some c) s =
    if same_chain c.chain_id chain then s else disconnect_at (find_index_socket chain s.connects) s

abbrev pub visit_loop : Option ℕ → ℕ → ℕ → SocketStore → SocketStore
visit_loop chain zero k s = s
visit_loop chain (suc left) k s =
    visit_loop chain left (suc k) (visit chain (get_elem? s.connects k) s)

unfoldable pub subscribe_to_eft : Option ℕ → String → SocketStore → SocketStore
unfolding subscribe
subscribe_to_eft chain message s =
    subscribe chain message (visit_loop chain (length s.connects) zero s)

-- The stores of a page that a message changes: of the orders and the tokens only their data
pub record PageStores (Order Token : Type 0) : Type 0 where
  pub transfer_store : TransferStore
  pub order : Option Order
  pub token : Option Token
  pub is_can_redirect_mint : Bool

-- `EFTSubscriptionMessage`
pub record EftMessage (Order Token : Type 0) : Type 0 where
  pub transfer : Option Transfer
  pub order : Option Order
  pub token : Option Token

-- `onMessageSubscribeToEft` of a message that has a key
unfoldable pub on_message : {O T : Type 0} → EftMessage O T → PageStores O T → PageStores O T
on_message m p = record {
  transfer_store = set_waiting_socket false (set_data m.transfer p.transfer_store);
  order = m.order;
  token = m.token;
  is_can_redirect_mint = p.is_can_redirect_mint || is_some m.token;
}

unfoldable pub on_message_subscribe_to_eft :
    {O T : Type 0} → Option (EftMessage O T) → PageStores O T → PageStores O T
unfolding on_message
on_message_subscribe_to_eft none p = p
on_message_subscribe_to_eft (some m) p =
    if is_some m.transfer || is_some m.order || is_some m.token then on_message m p else p
