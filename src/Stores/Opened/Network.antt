-- ===== src/Stores/Opened/Network.antt =====
-- A store and the backend: what a page does to the store, through the hook
-- useActivateDeactivateStore.ts of packages/frontend/src/app/hooks, and what the backend answers, in
-- any order. What sets the data from elsewhere, as setData of a message does, is left out.
use mathlib.Core.List.{Memᴰ}
use file_market.Base.{ℕ, ◌≡◌, true, false, Option, none, some, List, [], ◌∷◌}
use file_market.Stores.ErrorText.{Thrown, ErrorResponse}
use file_market.Stores.Request.{
  new_requester, Store, response_ok, response_error, fulfilled, rejected,
}
use file_market.Stores.Opened.{Opened, Opens}

-- The requests on their way or answered, each with its question
abbrev pub note : {Q : Type 0} → Option ℕ → Q → List (ℕ × Q) → List (ℕ × Q)
note none q sent = sent
note (some id) q sent = (id, q) ∷ sent

abbrev pub new_store : {Q D : Type 0} → Store (Opened Q D)
new_store = record {
  requester = new_requester;
  content = record { is_activated = false; asked = none; data_ = none };
}

-- How a store and its requests come to be, where the backend answers a question by `serve` or fails:
-- the hook activates only a store that is not active, a page reloads the store while it is active,
-- and an answer comes at any time after its request, also again.
module _ {K Q R D : Type 0} (o : Opens K Q R D) (serve : Q → R) where
  pub data Reach : Store (Opened Q D) → List (ℕ × Q) → Type 0 where
    started : Reach new_store []
    activated :
        (k : K) (s : Store (Opened Q D)) (sent : List (ℕ × Q))
        → s.content.is_activated ≡ false
        → Reach s sent
        → Reach (o.activate k s).0 (note (o.activate k s).1 (o.question k) sent)
    deactivated :
        (s : Store (Opened Q D)) (sent : List (ℕ × Q)) → Reach s sent → Reach (o.deactivate s) sent
    reloaded :
        (q : Q) (s : Store (Opened Q D)) (sent : List (ℕ × Q))
        → s.content.is_activated ≡ true
        → s.content.asked ≡ some q
        → Reach s sent
        → Reach (o.reload s).0 (note (o.reload s).1 q sent)
    answered :
        (id : ℕ) (q : Q) (s : Store (Opened Q D)) (sent : List (ℕ × Q))
        → Memᴰ (id, q) sent
        → Reach s sent
        → Reach (o.answer id (fulfilled (response_ok (serve q))) s) sent
    refused :
        (id : ℕ) (e : Option ErrorResponse) (s : Store (Opened Q D)) (sent : List (ℕ × Q))
        → Reach s sent
        → Reach (o.answer id (fulfilled (response_error e)) s) sent
    failed :
        (id : ℕ) (e : Thrown) (s : Store (Opened Q D)) (sent : List (ℕ × Q))
        → Reach s sent
        → Reach (o.answer id (rejected e) s) sent
