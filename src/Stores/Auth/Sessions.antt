-- ===== src/Stores/Auth/Sessions.antt =====
-- Logging in and out while requests are under way.
use file_market.Base.{
  ℕ, suc, ◌≡◌, refl, ap, ◌∙◌, true, false, none, some, ◌∷◌, arith, ◌==◌, ==_refl,
}
use file_market.Stores.ErrorText.{Thrown, stringify_error}
use file_market.Stores.Request.{
  show_error, Store, response_ok, fulfilled, rejected, store_request_generic, finish, set_loaded,
  fail_with, handle, settle, is_current,
}
use file_market.Stores.Auth.{
  AuthResponse, AuthContent, set_auth_data, logged_out, login_by_signature, login_answer, logout,
  check_auth_handle, check_auth_answer, refresh_handle, refresh_answer, get_access_token,
  get_refresh_token, check_is_actual_token, is_have_token, disconnect_call,
}
use file_market.Stores.Auth.Tokens.{get_token-logout}

module _ {User : Type 0} where
  -- A logout while a login is under way, which began with no request current, does not stop the
  -- login: its answer authorizes the store again, with the profile and the tokens of the answer.
  logout-login_answer :
      (r : AuthResponse User) (s : Store (AuthContent User))
      → s.requester.current_request ≡ none
      → ((login_answer
            (suc s.requester.request_count)
            (fulfilled (response_ok r))
            (logout (login_by_signature s))).content.is_auth
          ≡ some true)
        × ((login_answer
              (suc s.requester.request_count)
              (fulfilled (response_ok r))
              (logout (login_by_signature s))).content
            ≡ set_auth_data r (logged_out s.content))
  unfolding login_answer logout login_by_signature store_request_generic settle finish handle
      set_loaded set_auth_data logged_out
  logout-login_answer r s e = rw (e, ==_refl (suc s.requester.request_count)) (refl, refl)

  -- What a failed check or renewal leaves of a store: neither token can be read, so that a check of the
  -- tokens disconnects at any time, there is no user and no authorization, the error is shown, and
  -- the request of the logout is current.
  pub record HasLoggedOut (e : Thrown) (s s' : Store (AuthContent User)) : Type 0 where
    pub no_access : get_access_token s'.content.local ≡ none
    pub no_refresh : get_refresh_token s'.content.local ≡ none
    pub disconnects : (now : ℕ) → check_is_actual_token now s'.content.local ≡ disconnect_call
    pub nobody : s'.content.user ≡ none
    pub unauthorized : s'.content.is_auth ≡ some false
    pub shown : s'.requester.shown ≡ stringify_error e ∷ s.requester.shown
    pub own_request : s'.requester.current_request ≡ some (suc s.requester.request_count)

  -- The store once its request has failed
  failed : Thrown → Store (AuthContent User) → Store (AuthContent User)
  failed e s = record {
    requester =
        show_error (stringify_error e)
          (record s.requester { is_loading = false; current_request = none });
    content = s.content;
  }

  -- The logout of a store without a current request, of the same content and count
  logout-HasLoggedOut :
      (e : Thrown) (s t : Store (AuthContent User))
      → t.requester.current_request ≡ none
      → t.requester.request_count ≡ s.requester.request_count
      → t.requester.shown ≡ stringify_error e ∷ s.requester.shown
      → HasLoggedOut e s (logout t)
  unfolding logout store_request_generic check_is_actual_token is_have_token
  logout-HasLoggedOut e s t idle count shown =
      let (a, r, u, i) = get_token-logout t in
      record {
        no_access = a;
        no_refresh = r;
        disconnects = λ now. disconnected now (logout t) a;
        nobody = u;
        unauthorized = i;
        shown = kept t idle ∙ shown;
        own_request = counted t idle ∙ ap (λ n. some (suc n)) count;
      }
    where
      disconnected :
          (now : ℕ) (q : Store (AuthContent User))
          → get_access_token q.content.local ≡ none
          → check_is_actual_token now q.content.local ≡ disconnect_call
      disconnected now q a = rw a refl

      kept :
          (q : Store (AuthContent User))
          → q.requester.current_request ≡ none
          → (logout q).requester.shown ≡ q.requester.shown
      kept q idle = rw idle refl

      counted :
          (q : Store (AuthContent User))
          → q.requester.current_request ≡ none
          → (logout q).requester.current_request ≡ some (suc q.requester.request_count)
      counted q idle = rw idle refl

  -- Where the check of the authorization, or the renewal of the tokens, is current and fails, the store
  -- is logged out: no token, no user, no authorization, the error is shown, and the request of the
  -- logout is current after it. Where it is not current, nothing changes.
  pub check_auth_answer-rejected :
      (id j : ℕ) (e : Thrown) (s : Store (AuthContent User))
      → s.requester.current_request ≡ some id
      → (j == id) ≡ false
      → HasLoggedOut e s (check_auth_answer id (rejected e) s)
        × HasLoggedOut e s (refresh_answer id (rejected e) s)
        × (check_auth_answer j (rejected e) s ≡ s)
        × (refresh_answer j (rejected e) s ≡ s)
  unfolding check_auth_answer check_auth_handle refresh_answer refresh_handle finish handle
      fail_with show_error failed
  check_auth_answer-rejected id j e s current other =
      rw (ap (is_current id) current ∙ ==_refl id, ap (is_current j) current ∙ id_other)
        (
          logout-HasLoggedOut e s (failed e s) refl refl refl,
          logout-HasLoggedOut e s (failed e s) refl refl refl,
          refl,
          refl,
        )
    where
      id_other : (id == j) ≡ false
      id_other = ground (arith, other)
