-- ===== src/Stores/Auth.antt =====
-- stores/auth/AuthStore.ts, utils/jwt and utils/auth/checkIsActualToken.ts of
-- packages/frontend/src/app. In the browser's storage a number stands for its decimal text.
use file_market.Base.{
  ℕ, zero, suc, ◌+◌, ◌-◌, ◌*◌, ◌/◌, ◌%◌, ◌^◌, ◌≤◌, ◌<◌, String, ◌≡◌, refl, sym, ap, ◌∙◌, ◌≢◌, ◌↔◌,
  ◌⊎◌, inl, inr, Bool, true, false, not, ◌&&◌, ◌||◌, Option, none, some, List, [], ◌∷◌, ◌++◌, map,
  arith, str_eq, eq_iff, ltb, leb, ◌==◌, if◌then◌else◌, ==_iff, ==_refl, Bool-cases, Option-cases,
  or_else, is_some, str_eq_ne, ltb_of_ge, ltb_of_lt, ge_of_ltb, lt_of_ltb, str_eq-true, length,
  get_elem?, take, drop, find?, keep, length-append, length-take, length-drop, take-append_length,
  drop-append_length, All, All-take, All-drop,
}
use file_market.Base.Dict.{
  Dict, lookup, insert, erase, keys, lookup-insert, lookup-insert_self, lookup-insert_ne,
  lookup-erase_self, lookup-erase_ne,
}
use file_market.Stores.ErrorText.{Thrown, text}
use file_market.Stores.Request.{
  Requester, new_requester, show_error, Store, HttpResponse, response_ok, response_error, Settled,
  fulfilled, rejected, is_current, store_request_generic, finish, store_reset, set_loaded,
  fail_with, handle, settle, handle_fetch, settle_fetch, Outcome, pending, resolved, refused,
  promise_outcome, Event, call, arrive, cancel, step, run, handled,
}
pub mod Tokens
pub mod Sessions

-- A text in the browser's storage
pub data Item : Type 0 where
  plain : String → Item
  number : ℕ → Item

-- `JwtTokenInfo`
pub record JwtTokenInfo : Type 0 where
  pub token : String
  pub expires_at : ℕ

abbrev pub access_token_key : String
access_token_key = "Access_token"

abbrev pub refresh_token_key : String
refresh_token_key = "Refresh_token"

abbrev pub access_expired_key : String
access_expired_key = "Access_tokenExpired"

abbrev pub refresh_expired_key : String
refresh_expired_key = "Refresh_tokenExpired"

-- Both `get` functions, by what the storage holds
abbrev pub token_info : Option Item → Option Item → Option JwtTokenInfo
token_info (some (plain t)) (some (number n)) =
    if str_eq t "" then none else some (record { token = t; expires_at = n })
token_info _ _ = none

unfoldable pub get_access_token : Dict Item → Option JwtTokenInfo
get_access_token d = token_info (lookup access_token_key d) (lookup access_expired_key d)

unfoldable pub get_refresh_token : Dict Item → Option JwtTokenInfo
get_refresh_token d = token_info (lookup refresh_token_key d) (lookup refresh_expired_key d)

abbrev pub save_token : String → String → Option JwtTokenInfo → Dict Item → Dict Item
save_token key expired_key none d = d
save_token key expired_key (some j) d =
    insert expired_key (number j.expires_at) (insert key (plain j.token) d)

unfoldable pub save_access_token : Option JwtTokenInfo → Dict Item → Dict Item
save_access_token j d = save_token access_token_key access_expired_key j d

unfoldable pub save_refresh_token : Option JwtTokenInfo → Dict Item → Dict Item
save_refresh_token j d = save_token refresh_token_key refresh_expired_key j d

unfoldable pub remove_access_token : Dict Item → Dict Item
remove_access_token d = erase access_expired_key (erase access_token_key d)

unfoldable pub remove_refresh_token : Dict Item → Dict Item
remove_refresh_token d = erase refresh_expired_key (erase refresh_token_key d)

-- `AuthResponse`, and the content of the store with that of the user store
module _ (User : Type 0) where
  pub record AuthResponse : Type 0 where
    pub access_token : Option JwtTokenInfo
    pub refresh_token : Option JwtTokenInfo
    pub profile : Option User

  pub record AuthContent : Type 0 where
    pub local : Dict Item
    pub cookie : String
    pub user : Option User
    pub is_auth : Option Bool

abbrev pub token_text : Option JwtTokenInfo → String
token_text none = ""
token_text (some j) = j.token

module _ {User : Type 0} where
  -- `setData`
  unfoldable pub set_auth_data : AuthResponse User → AuthContent User → AuthContent User
  unfolding save_access_token save_refresh_token
  set_auth_data r c = record {
    local = save_refresh_token r.refresh_token (save_access_token r.access_token c.local);
    cookie = token_text r.access_token;
    user = r.profile;
    is_auth = some true;
  }

  -- What `logout` does besides its request
  unfoldable pub logged_out : AuthContent User → AuthContent User
  unfolding remove_access_token remove_refresh_token
  logged_out c = record c {
    local = remove_refresh_token (remove_access_token c.local);
    user = none;
    is_auth = some false;
  }

  -- `loginBySignature`, and its answer; the request is dropped where there is a current one
  unfoldable pub login_by_signature : Store (AuthContent User) → Store (AuthContent User)
  unfolding store_request_generic
  login_by_signature s = (store_request_generic s).0

  unfoldable pub login_answer :
      ℕ
      → Settled (HttpResponse (AuthResponse User))
      → Store (AuthContent User)
      → Store (AuthContent User)
  unfolding settle set_auth_data
  login_answer id r s = settle set_auth_data (λ e c. c) id r s

  unfoldable pub logout : Store (AuthContent User) → Store (AuthContent User)
  unfolding store_request_generic logged_out
  logout s = record (store_request_generic s).0 {
    content = logged_out (store_request_generic s).0.content;
  }

  -- The answer of `checkAuth`: an error logs out, with a request of its own
  unfoldable pub check_auth_handle :
      Settled (HttpResponse User) → Store (AuthContent User) → Store (AuthContent User)
  unfolding handle logout
  check_auth_handle (fulfilled r) s =
      handle (λ u c. record c { user = some u; is_auth = some true }) (λ e c. c) (fulfilled r) s
  check_auth_handle (rejected e) s = logout (handle (λ (u : User) c. c) (λ e' c. c) (rejected e) s)

  unfoldable pub check_auth_answer :
      ℕ → Settled (HttpResponse User) → Store (AuthContent User) → Store (AuthContent User)
  unfolding finish check_auth_handle
  check_auth_answer id r s = finish id (check_auth_handle r) s

  -- The answer of `refreshToken`
  unfoldable pub refresh_handle :
      Settled (HttpResponse (AuthResponse User))
      → Store (AuthContent User)
      → Store (AuthContent User)
  unfolding handle logout set_auth_data
  refresh_handle (fulfilled r) s = handle set_auth_data (λ e c. c) (fulfilled r) s
  refresh_handle (rejected e) s = logout (handle set_auth_data (λ e' c. c) (rejected e) s)

  unfoldable pub refresh_answer :
      ℕ
      → Settled (HttpResponse (AuthResponse User))
      → Store (AuthContent User)
      → Store (AuthContent User)
  unfolding finish refresh_handle
  refresh_answer id r s = finish id (refresh_handle r) s

abbrev pub expires : Option JwtTokenInfo → ℕ
expires none = 0
expires (some j) = j.expires_at

unfoldable pub is_have_token : Dict Item → Bool
unfolding get_access_token
is_have_token d = is_some (get_access_token d)

-- `isActualAccessToken` and `isActualRefreshToken`, at the time `now`
unfoldable pub is_actual_access_token : ℕ → Dict Item → Bool
unfolding get_access_token
is_actual_access_token now d = ltb (now + 20000) (expires (get_access_token d))

unfoldable pub is_actual_refresh_token : ℕ → Dict Item → Bool
unfolding get_refresh_token
is_actual_refresh_token now d = ltb (now + 40000) (expires (get_refresh_token d))

-- What `checkIsActualToken` does
pub data TokenAction : Type 0 where
  keep_token : TokenAction
  refresh_token_call : TokenAction
  disconnect_call : TokenAction

unfoldable pub check_is_actual_token : ℕ → Dict Item → TokenAction
unfolding is_have_token is_actual_access_token is_actual_refresh_token
check_is_actual_token now d =
    if is_have_token d
    then (if is_actual_access_token now d
        then keep_token
        else (if is_actual_refresh_token now d then refresh_token_call else disconnect_call))
    else disconnect_call
