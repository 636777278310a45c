-- ===== src/Stores/Opened/Token.antt =====
-- stores/Token/TokenStore.ts of packages/frontend/src/app.
use file_market.Base.{ℕ, ◌+◌, String, ◌≡◌, refl, true, false, Option, none, some, is_some}
use file_market.Stores.Request.{
  Store, HttpResponse, Settled, store_request_generic, store_reset, settle,
}
use file_market.Stores.Opened.{
  Opened, opened_for, closed, request_if, request_asked, keep_answer, Opens, IsOpens,
}

-- A token of a collection and the API of its chain
abbrev pub TokenQuestion : Type 0
TokenQuestion = (String × String) × Option ℕ

module _ {Token : Type 0} where
  -- `request`: nothing without an API
  unfoldable pub request_token :
      Option ℕ → Store (Opened TokenQuestion Token) → Store (Opened TokenQuestion Token) × Option ℕ
  request_token none s = (s, none)
  request_token (some api) s = store_request_generic s

  unfoldable pub answer_token :
      ℕ
      → Settled (HttpResponse Token)
      → Store (Opened TokenQuestion Token)
      → Store (Opened TokenQuestion Token)
  unfolding settle
  answer_token = settle (λ r c. record c { data_ = some r }) (λ e c. c)

  unfoldable pub activate_token :
      (get_api : Option ℕ → Option ℕ)
      → (collection token_id : String) → (chain : ℕ) → Store (Opened TokenQuestion Token)
      → Store (Opened TokenQuestion Token) × Option ℕ
  unfolding request_token
  activate_token get_api collection token_id chain s =
      request_token (get_api (some chain)) (record s {
        content = record s.content {
          is_activated = true;
          asked = some ((collection, token_id), get_api (some chain));
        };
      })

  unfoldable pub deactivate_token :
      Store (Opened TokenQuestion Token) → Store (Opened TokenQuestion Token)
  unfolding store_reset
  deactivate_token s =
      let r = store_reset s in record r { content = record r.content { is_activated = false } }

  abbrev reload_for :
      Option TokenQuestion
      → Store (Opened TokenQuestion Token)
      → Store (Opened TokenQuestion Token) × Option ℕ
  reload_for none s = (s, none)
  reload_for (some q) s = request_token q.1 s

  unfoldable pub reload_token :
      Store (Opened TokenQuestion Token) → Store (Opened TokenQuestion Token) × Option ℕ
  unfolding request_token
  reload_token s = reload_for s.content.asked s

  -- `setData`
  unfoldable pub set_token_data :
      Option Token → Store (Opened TokenQuestion Token) → Store (Opened TokenQuestion Token)
  set_token_data d s = record s { content = record s.content { data_ = d } }

  request_if-token :
      (api : Option ℕ) (s : Store (Opened TokenQuestion Token))
      → request_token api s ≡ request_if (is_some api) s
  unfolding request_token request_if
  request_if-token none s = refl
  request_if-token (some api) s = refl

  request_asked-token :
      (q : Option TokenQuestion) (s : Store (Opened TokenQuestion Token))
      → reload_for q s ≡ request_asked (λ q. is_some q.1) q s
  unfolding request_asked
  request_asked-token none s = refl
  request_asked-token (some q) s = request_if-token q.1 s

  abbrev pub token_store :
      (get_api : Option ℕ → Option ℕ) → Opens ((String × String) × ℕ) TokenQuestion Token Token
  token_store get_api = record {
    question = λ k. (k.0, get_api (some k.1));
    sends = λ q. is_some q.1;
    resends = λ q. is_some q.1;
    load = λ r. some r;
    activate = λ k s. activate_token get_api k.0.0 k.0.1 k.1 s;
    deactivate = deactivate_token;
    reload = reload_token;
    answer = answer_token;
  }

  pub token_store-IsOpens : (get_api : Option ℕ → Option ℕ) → IsOpens (token_store get_api)
  unfolding activate_token deactivate_token reload_token answer_token opened_for closed keep_answer
  token_store-IsOpens get_api = record {
    activate_lem = λ k s. request_if-token (get_api (some k.1)) _;
    deactivate_lem = λ s. refl;
    reload_lem = λ s. request_asked-token s.content.asked s;
    answer_lem = λ id r s. refl;
  }

module _ {Token : Type 0} (likes_of : Token → Option ℕ) (with_likes : ℕ → Token → Token) where
  abbrev liked_from : Option ℕ → Token → Token
  liked_from none t = with_likes 1 t
  liked_from (some n) t = with_likes (n + 1) t

  abbrev liked_data : Option Token → Option Token
  liked_data none = none
  liked_data (some t) = some (liked_from (likes_of t) t)

  -- `increaseLikeCount`, given the count of a token and how to set it
  unfoldable pub increase_token_likes :
      Store (Opened TokenQuestion Token) → Store (Opened TokenQuestion Token)
  increase_token_likes s = record s {
    content = record s.content { data_ = liked_data s.content.data_ };
  }
