-- ===== src/Stores/Opened/WhiteList.antt =====
-- stores/WhiteList/WhiteListStore.ts of packages/frontend/src/app. A request goes to the API of the
-- chain that is current when it is made; that API is a number, which each call that can make a
-- request is given. Beside the address stands the API of the chain of the activation.
use file_market.Base.{
  ℕ, String, str_eq, ◌≡◌, refl, ap, inl, inr, Bool-cases, true, false, not, Option, none, some,
  if◌then◌else◌,
}
use file_market.Stores.Request.{
  Store, HttpResponse, Settled, store_request_generic, store_reset, settle,
}
use file_market.Stores.Opened.{
  Opened, opened_for, closed, request_if, request_asked, keep_answer, Opens, IsOpens,
}

-- An address, and the API that is asked about it
abbrev pub WhiteListQuestion : Type 0
WhiteListQuestion = String × ℕ

-- The identity of a request, with the API it goes to
abbrev sent_to : ℕ → Option ℕ → Option (ℕ × ℕ)
sent_to api none = none
sent_to api (some id) = some (id, api)

abbrev identity : Option (ℕ × ℕ) → Option ℕ
identity none = none
identity (some r) = some r.0

identity-sent_to : (api : ℕ) (id : Option ℕ) → identity (sent_to api id) ≡ id
identity-sent_to api none = refl
identity-sent_to api (some id) = refl

module _ {WhiteList : Type 0} where
  -- `request`, to the API of the current chain
  unfoldable pub request_white_list :
      (api : ℕ)
      → Store (Opened WhiteListQuestion WhiteList)
      → Store (Opened WhiteListQuestion WhiteList) × Option (ℕ × ℕ)
  request_white_list api s = let r = store_request_generic s in (r.0, sent_to api r.1)

  unfoldable pub answer_white_list :
      ℕ
      → Settled (HttpResponse WhiteList)
      → Store (Opened WhiteListQuestion WhiteList)
      → Store (Opened WhiteListQuestion WhiteList)
  unfolding settle
  answer_white_list = settle (λ r c. record c { data_ = some r }) (λ e c. c)

  unfoldable pub activate_white_list :
      (api : ℕ)
      → (address : String) → Store (Opened WhiteListQuestion WhiteList)
      → Store (Opened WhiteListQuestion WhiteList) × Option (ℕ × ℕ)
  unfolding request_white_list
  activate_white_list api address s =
      request_white_list api (record s {
        content = record s.content { is_activated = true; asked = some (address, api) };
      })

  unfoldable pub deactivate_white_list :
      Store (Opened WhiteListQuestion WhiteList) → Store (Opened WhiteListQuestion WhiteList)
  unfolding store_reset
  deactivate_white_list s =
      let r = store_reset s in record r { content = record r.content { is_activated = false } }

  -- `if (this.address)`: an empty address is none
  abbrev reload_for :
      ℕ
      → Option WhiteListQuestion
      → Store (Opened WhiteListQuestion WhiteList)
      → Store (Opened WhiteListQuestion WhiteList) × Option (ℕ × ℕ)
  reload_for api none s = (s, none)
  reload_for api (some (address, before)) s =
      if not (str_eq address "") then request_white_list api s else (s, none)

  unfoldable pub reload_white_list :
      (api : ℕ)
      → Store (Opened WhiteListQuestion WhiteList)
      → Store (Opened WhiteListQuestion WhiteList) × Option (ℕ × ℕ)
  unfolding request_white_list
  reload_white_list api s = reload_for api s.content.asked s

  -- While the current chain stays the one with the API `api`
  abbrev pub white_list_store : (api : ℕ) → Opens String WhiteListQuestion WhiteList WhiteList
  white_list_store api = record {
    question = λ a. (a, api);
    sends = λ q. true;
    resends = λ q. not (str_eq q.0 "");
    load = λ r. some r;
    activate = λ a s. let r = activate_white_list api a s in (r.0, identity r.1);
    deactivate = deactivate_white_list;
    reload = λ s. let r = reload_white_list api s in (r.0, identity r.1);
    answer = answer_white_list;
  }

  abbrev without_api :
      Store (Opened WhiteListQuestion WhiteList) × Option (ℕ × ℕ)
      → Store (Opened WhiteListQuestion WhiteList) × Option ℕ
  without_api r = (r.0, identity r.1)

  request-white_list :
      (api : ℕ) (s : Store (Opened WhiteListQuestion WhiteList))
      → without_api (request_white_list api s) ≡ store_request_generic s
  unfolding request_white_list
  request-white_list api s = ap (λ i. ((store_request_generic s).0, i)) (identity-sent_to api _)

  request_asked-white_list :
      (api : ℕ) (q : Option WhiteListQuestion) (s : Store (Opened WhiteListQuestion WhiteList))
      → without_api (reload_for api q s) ≡ request_asked (λ q. not (str_eq q.0 "")) q s
  unfolding request_asked request_if
  request_asked-white_list api none s = refl
  request_asked-white_list api (some (a, before)) s = elim (Bool-cases (not (str_eq a ""))) [
    | inl p ↦ rw p (request-white_list api s)
    | inr p ↦ rw p refl
  ]

  pub white_list_store-IsOpens : (api : ℕ) → IsOpens (white_list_store api)
  unfolding activate_white_list deactivate_white_list reload_white_list answer_white_list opened_for
      closed keep_answer request_if
  white_list_store-IsOpens api = record {
    activate_lem = λ k s. request-white_list api _;
    deactivate_lem = λ s. refl;
    reload_lem = λ s. request_asked-white_list api s.content.asked s;
    answer_lem = λ id r s. refl;
  }
