-- ===== src/Stores/Transfer/Activation.antt =====
-- The activation of the transfer store, by its requests: TransferStore.ts of
-- packages/frontend/src/app/stores/Transfer, and the hook useActivateDeactivateStore.ts.
use file_market.Base.{
  ℕ, suc, String, ◌≤◌, ◌≡◌, refl, Bool, true, false, not, ◌&&◌, Option, none, some, arith, ◌==◌,
  if◌then◌else◌, is_some, ==_refl,
}
use file_market.Stores.Request.{
  Store, HttpResponse, response_ok, Settled, fulfilled, store_request_generic, finish, store_reset,
  set_loaded, handle, settle,
}
use file_market.Stores.Transfer.{Transfer, TransferStore, transfer_loaded}

-- The store with its requests; the API of the chain it is active for is a number.
pub record ActiveStore : Type 0 where
  pub store : Store TransferStore
  pub api : Option ℕ

-- `request`: nothing without an API
abbrev pub request_with : Option ℕ → Store TransferStore → Store TransferStore × Option ℕ
request_with none s = (s, none)
request_with (some api) s = store_request_generic s

unfoldable pub request : ActiveStore → ActiveStore × Option ℕ
request a = let r = request_with a.api a.store in (record a { store = r.0 }, r.1)

unfoldable pub activate :
    (get_api : ℕ → Option ℕ)
    → (collection token_id : String) → (chain : ℕ) → ActiveStore
    → ActiveStore × Option ℕ
unfolding request
activate get_api collection token_id chain a = request (record {
  store = record a.store {
    content = record a.store.content {
      is_activated = true;
      token_full_id = some (collection, token_id);
    };
  };
  api = get_api chain;
})

unfoldable pub deactivate : ActiveStore → ActiveStore
unfolding store_reset
deactivate a =
    let s = store_reset a.store in
    record a { store = record s { content = record s.content { is_activated = false } } }

-- `reload`: nothing before the first activation
unfoldable pub reload : ActiveStore → ActiveStore × Option ℕ
unfolding request
reload a = if is_some a.store.content.token_full_id then request a else (a, none)

-- The answer to the request `id`
unfoldable pub answer : ℕ → Settled (HttpResponse (Option Transfer)) → ActiveStore → ActiveStore
unfolding settle
answer id r a = record a { store = settle transfer_loaded (λ e c. c) id r a.store }

-- The effect of the hook: its clean-up for the old arguments if it activated, then the activation for
-- the new ones if they are all there and the store is not active
unfoldable pub change_params :
    (activated all_there : Bool)
    → (get_api : ℕ → Option ℕ) → (collection token_id : String) → (chain : ℕ) → ActiveStore
    → ActiveStore × Option ℕ
unfolding activate deactivate
change_params activated all_there get_api collection token_id chain a =
    let b = if activated then deactivate a else a in
    if all_there && not b.store.content.is_activated
    then activate get_api collection token_id chain b
    else (b, none)

later_id : (j n : ℕ) → j ≤ n → (suc n == j) ≡ false
later_id j n h = ground (arith, h)

-- A page that goes from one token to another, while the request of the first is on its way or not:
-- the store makes a request for the second, an answer to any earlier request changes nothing, and
-- the answer to the new one gives the store its transfer.
pub change_params-answers :
    (get_api : ℕ → Option ℕ) (collection token_id : String) (chain api j : ℕ) (a : ActiveStore)
    (r : Settled (HttpResponse (Option Transfer))) (t : Option Transfer)
    → get_api chain ≡ some api
    → j ≤ a.store.requester.request_count
    → ((change_params true true get_api collection token_id chain a).1
        ≡ some (suc a.store.requester.request_count))
      × (answer j r (change_params true true get_api collection token_id chain a).0
          ≡ (change_params true true get_api collection token_id chain a).0)
      × ((answer
            (suc a.store.requester.request_count)
            (fulfilled (response_ok t))
            (change_params true true get_api collection token_id chain a).0).store.content
          ≡ transfer_loaded t
              (change_params true true get_api collection token_id chain a).0.store.content)
unfolding change_params activate deactivate request answer settle finish handle set_loaded
    store_request_generic store_reset
change_params-answers get_api collection token_id chain api j a r t e h =
    rw
      (
        e,
        later_id j a.store.requester.request_count h,
        ==_refl (suc a.store.requester.request_count),
      )
      (refl, refl, refl)
