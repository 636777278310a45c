-- ===== src/Stores/Opened/Order.antt =====
-- stores/Order/OrderStore.ts of packages/frontend/src/app.
use file_market.Base.{ℕ, String, ◌≡◌, refl, true, false, Option, none, some, is_some}
use file_market.Stores.Request.{
  Store, HttpResponse, Settled, store_request_generic, store_reset, settle,
}
use file_market.Stores.Opened.{
  Opened, opened_for, closed, request_if, request_asked, keep_answer, Opens, IsOpens,
}

-- A token of a collection and the API of its chain
abbrev pub OrderQuestion : Type 0
OrderQuestion = (String × String) × Option ℕ

module _ {Order : Type 0} where
  -- `request`: nothing without an API
  unfoldable pub request_order :
      Option ℕ → Store (Opened OrderQuestion Order) → Store (Opened OrderQuestion Order) × Option ℕ
  request_order none s = (s, none)
  request_order (some api) s = store_request_generic s

  unfoldable pub answer_order :
      ℕ
      → Settled (HttpResponse (Option Order))
      → Store (Opened OrderQuestion Order)
      → Store (Opened OrderQuestion Order)
  unfolding settle
  answer_order = settle (λ r c. record c { data_ = r }) (λ e c. c)

  unfoldable pub activate_order :
      (get_api : Option ℕ → Option ℕ)
      → (collection token_id : String) → (chain : ℕ) → Store (Opened OrderQuestion Order)
      → Store (Opened OrderQuestion Order) × Option ℕ
  unfolding request_order
  activate_order get_api collection token_id chain s =
      request_order (get_api (some chain)) (record s {
        content = record s.content {
          is_activated = true;
          asked = some ((collection, token_id), get_api (some chain));
        };
      })

  unfoldable pub deactivate_order :
      Store (Opened OrderQuestion Order) → Store (Opened OrderQuestion Order)
  unfolding store_reset
  deactivate_order s =
      let r = store_reset s in record r { content = record r.content { is_activated = false } }

  abbrev reload_for :
      Option OrderQuestion
      → Store (Opened OrderQuestion Order)
      → Store (Opened OrderQuestion Order) × Option ℕ
  reload_for none s = (s, none)
  reload_for (some q) s = request_order q.1 s

  unfoldable pub reload_order :
      Store (Opened OrderQuestion Order) → Store (Opened OrderQuestion Order) × Option ℕ
  unfolding request_order
  reload_order s = reload_for s.content.asked s

  -- `setData`
  unfoldable pub set_order_data :
      Option Order → Store (Opened OrderQuestion Order) → Store (Opened OrderQuestion Order)
  set_order_data d s = record s { content = record s.content { data_ = d } }

  request_if-order :
      (api : Option ℕ) (s : Store (Opened OrderQuestion Order))
      → request_order api s ≡ request_if (is_some api) s
  unfolding request_order request_if
  request_if-order none s = refl
  request_if-order (some api) s = refl

  request_asked-order :
      (q : Option OrderQuestion) (s : Store (Opened OrderQuestion Order))
      → reload_for q s ≡ request_asked (λ q. is_some q.1) q s
  unfolding request_asked
  request_asked-order none s = refl
  request_asked-order (some q) s = request_if-order q.1 s

  abbrev pub order_store :
      (get_api : Option ℕ → Option ℕ)
      → Opens ((String × String) × ℕ) OrderQuestion (Option Order) Order
  order_store get_api = record {
    question = λ k. (k.0, get_api (some k.1));
    sends = λ q. is_some q.1;
    resends = λ q. is_some q.1;
    load = λ r. r;
    activate = λ k s. activate_order get_api k.0.0 k.0.1 k.1 s;
    deactivate = deactivate_order;
    reload = reload_order;
    answer = answer_order;
  }

  pub order_store-IsOpens : (get_api : Option ℕ → Option ℕ) → IsOpens (order_store get_api)
  unfolding activate_order deactivate_order reload_order answer_order opened_for closed keep_answer
  order_store-IsOpens get_api = record {
    activate_lem = λ k s. request_if-order (get_api (some k.1)) _;
    deactivate_lem = λ s. refl;
    reload_lem = λ s. request_asked-order s.content.asked s;
    answer_lem = λ id r s. refl;
  }
