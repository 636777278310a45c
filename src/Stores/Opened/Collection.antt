-- ===== src/Stores/Opened/Collection.antt =====
-- stores/Collection/CollectionStore.ts of packages/frontend/src/app. Before the first activation its
-- address is empty and it has no API; later the two change together.
use file_market.Base.{ℕ, String, ◌≡◌, refl, true, false, Option, none, some, is_some}
use file_market.Stores.Request.{
  Store, HttpResponse, Settled, store_request_generic, store_reset, settle,
}
use file_market.Stores.Opened.{
  Opened, opened_for, closed, request_if, request_asked, keep_answer, Opens, IsOpens,
}

-- The address of a collection and the API of its chain
abbrev pub CollectionQuestion : Type 0
CollectionQuestion = String × Option ℕ

module _ {Collection : Type 0} where
  -- `request`: nothing without an API
  unfoldable pub request_collection :
      Option ℕ
      → Store (Opened CollectionQuestion Collection)
      → Store (Opened CollectionQuestion Collection) × Option ℕ
  request_collection none s = (s, none)
  request_collection (some api) s = store_request_generic s

  -- Of the response, its collection, which can be missing
  unfoldable pub answer_collection :
      ℕ
      → Settled (HttpResponse (Option Collection))
      → Store (Opened CollectionQuestion Collection)
      → Store (Opened CollectionQuestion Collection)
  unfolding settle
  answer_collection = settle (λ r c. record c { data_ = r }) (λ e c. c)

  unfoldable pub activate_collection :
      (get_api : Option ℕ → Option ℕ)
      → (address : String) → (chain : Option ℕ) → Store (Opened CollectionQuestion Collection)
      → Store (Opened CollectionQuestion Collection) × Option ℕ
  unfolding request_collection
  activate_collection get_api address chain s = request_collection (get_api chain) (record s {
    content = record s.content { is_activated = true; asked = some (address, get_api chain) };
  })

  unfoldable pub deactivate_collection :
      Store (Opened CollectionQuestion Collection) → Store (Opened CollectionQuestion Collection)
  unfolding store_reset
  deactivate_collection s =
      let r = store_reset s in record r { content = record r.content { is_activated = false } }

  abbrev reload_for :
      Option CollectionQuestion
      → Store (Opened CollectionQuestion Collection)
      → Store (Opened CollectionQuestion Collection) × Option ℕ
  reload_for none s = request_collection none s
  reload_for (some q) s = request_collection q.1 s

  unfoldable pub reload_collection :
      Store (Opened CollectionQuestion Collection)
      → Store (Opened CollectionQuestion Collection) × Option ℕ
  unfolding request_collection
  reload_collection s = reload_for s.content.asked s

  request_if-collection :
      (api : Option ℕ) (s : Store (Opened CollectionQuestion Collection))
      → request_collection api s ≡ request_if (is_some api) s
  unfolding request_collection request_if
  request_if-collection none s = refl
  request_if-collection (some api) s = refl

  request_asked-collection :
      (q : Option CollectionQuestion) (s : Store (Opened CollectionQuestion Collection))
      → reload_for q s ≡ request_asked (λ q. is_some q.1) q s
  unfolding request_collection request_asked
  request_asked-collection none s = refl
  request_asked-collection (some q) s = request_if-collection q.1 s

  abbrev pub collection_store :
      (get_api : Option ℕ → Option ℕ)
      → Opens (String × Option ℕ) CollectionQuestion (Option Collection) Collection
  collection_store get_api = record {
    question = λ k. (k.0, get_api k.1);
    sends = λ q. is_some q.1;
    resends = λ q. is_some q.1;
    load = λ r. r;
    activate = λ k s. activate_collection get_api k.0 k.1 s;
    deactivate = deactivate_collection;
    reload = reload_collection;
    answer = answer_collection;
  }

  pub collection_store-IsOpens :
      (get_api : Option ℕ → Option ℕ) → IsOpens (collection_store get_api)
  unfolding activate_collection deactivate_collection reload_collection answer_collection opened_for
      closed keep_answer
  collection_store-IsOpens get_api = record {
    activate_lem = λ k s. request_if-collection (get_api k.1) _;
    deactivate_lem = λ s. refl;
    reload_lem = λ s. request_asked-collection s.content.asked s;
    answer_lem = λ id r s. refl;
  }
