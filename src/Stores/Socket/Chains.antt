-- ===== src/Stores/Socket/Chains.antt =====
-- The connections when a page of another chain subscribes.
use file_market.Base.{
  ℕ, zero, suc, String, ◌≡◌, refl, ap, ◌∙◌, inl, inr, Bool, true, false, Option, none, some, List,
  [], ◌∷◌, if◌then◌else◌, Bool-cases, length, get_elem?,
}
use file_market.Stores.Socket.{
  SocketConnect, SocketStore, same_chain, matches, next_index, find_index_socket, remove_last,
  set_nth, subscribe, visit, visit_loop, subscribe_to_eft,
}

-- A connection of the chain whose socket is open
unfoldable pub HasNoOpen : Option ℕ → List SocketConnect → Type 0
HasNoOpen chain cs = find_index_socket chain cs ≡ none

next_index-none : (o : Option ℕ) → next_index o ≡ none → o ≡ none
next_index-none none e = refl
next_index-none (some k) e = cc

HasNoOpen-split :
    (chain : Option ℕ) (c : SocketConnect) (cs : List SocketConnect)
    → HasNoOpen chain (c ∷ cs)
    → (matches chain c ≡ false) × HasNoOpen chain cs
unfolding HasNoOpen
HasNoOpen-split chain c cs e = go (matches chain c) (find_index_socket chain cs) e
  where
    go :
        (b : Bool) (o : Option ℕ)
        → (if b then some zero else next_index o) ≡ none
        → (b ≡ false) × (o ≡ none)
    go true o e = cc
    go false o e = (refl, next_index-none o e)

HasNoOpen-remove_last :
    (chain : Option ℕ) (cs : List SocketConnect)
    → HasNoOpen chain cs
    → HasNoOpen chain (remove_last cs)
unfolding HasNoOpen
HasNoOpen-remove_last chain [] e = refl
HasNoOpen-remove_last chain (c ∷ []) e = refl
HasNoOpen-remove_last chain (c ∷ d ∷ cs) e =
    rw
      (
        (HasNoOpen-split chain c (d ∷ cs) e).0,
        HasNoOpen-remove_last chain (d ∷ cs) (HasNoOpen-split chain c (d ∷ cs) e).1,
      )
      refl

visit_loop-closed :
    (chain : Option ℕ) (left k : ℕ) (s : SocketStore)
    → HasNoOpen chain s.connects
    → ((visit_loop chain left k s).closed ≡ s.closed)
      × HasNoOpen chain (visit_loop chain left k s).connects
unfolding HasNoOpen
visit_loop-closed chain zero k s h = (refl, h)
visit_loop-closed chain (suc left) k s h = (
  (visit_loop-closed chain left (suc k) _ (visited (get_elem? s.connects k)).1).0
      ∙ (visited (get_elem? s.connects k)).0,
  (visit_loop-closed chain left (suc k) _ (visited (get_elem? s.connects k)).1).1,
)
  where
    visited :
        (c : Option SocketConnect)
        → ((visit chain c s).closed ≡ s.closed) × HasNoOpen chain (visit chain c s).connects
    visited none = (refl, h)
    visited (some c) = elim (Bool-cases (same_chain c.chain_id chain)) [
      | inl e ↦ rw e (refl, h)
      | inr e ↦ rw (e, h) (refl, HasNoOpen-remove_last chain s.connects h)
    ]

-- Where no connection of the chain is open, a subscription closes no socket, whatever
-- connections of other chains there are.
subscribe_to_eft_closes :
    (chain : Option ℕ) (message : String) (s : SocketStore)
    → HasNoOpen chain s.connects
    → (subscribe_to_eft chain message s).closed ≡ s.closed
unfolding subscribe_to_eft subscribe HasNoOpen
subscribe_to_eft_closes chain message s h =
    rw (visit_loop-closed chain (length s.connects) zero s h).1
      (visit_loop-closed chain (length s.connects) zero s h).0

-- The only connection, of another chain, is forgotten while its socket stays as it is: it is not
-- closed, and it subscribes again when it closes.
subscribe_to_eft-drops :
    (chain : Option ℕ) (message : String) (c : SocketConnect) (s : SocketStore)
    → s.connects ≡ c ∷ []
    → same_chain c.chain_id chain ≡ false
    → HasNoOpen chain (c ∷ [])
    → ((subscribe_to_eft chain message s).closed ≡ s.closed)
      × ((subscribe_to_eft chain message s).connects
          ≡ record {
            socket = s.created;
            chain_id = chain;
            last_message = message;
            is_open = false;
            on_close = some message;
          }
            ∷ [])
unfolding subscribe_to_eft subscribe HasNoOpen
subscribe_to_eft-drops chain message c s e other h =
    rw (e, other, (HasNoOpen-split chain c [] h).0) (refl, refl)

length-set_nth :
    (f : SocketConnect → SocketConnect) (k : ℕ) (cs : List SocketConnect)
    → length (set_nth f k cs) ≡ length cs
length-set_nth f k [] = refl
length-set_nth f zero (c ∷ cs) = refl
length-set_nth f (suc k) (c ∷ cs) = ap suc (length-set_nth f k cs)

-- Where a connection of the chain is open, a subscription sends on it, and neither makes a
-- socket nor changes the number of connections.
subscribe_again :
    (chain : Option ℕ) (message : String) (k : ℕ) (c : SocketConnect) (s : SocketStore)
    → find_index_socket chain s.connects ≡ some k
    → get_elem? s.connects k ≡ some c
    → ((subscribe chain message s).sent ≡ (c.socket, message) ∷ s.sent)
      × ((subscribe chain message s).created ≡ s.created)
      × (length (subscribe chain message s).connects ≡ length s.connects)
unfolding subscribe
subscribe_again chain message k c s found there =
    rw (found, there)
      (
        refl,
        refl,
        length-set_nth (λ d. record d { last_message = message; on_close = some message }) k
            s.connects,
      )
