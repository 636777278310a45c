-- ===== src/Stores/Auth/Tokens.antt =====
-- The tokens in the browser's storage.
use file_market.Base.{
  String, ◌≡◌, refl, inl, inr, false, Option, none, some, str_eq, eq_iff, if◌then◌else◌, Bool-cases,
}
use file_market.Base.Dict.{Dict, lookup, erase, lookup-insert, lookup-erase_self, lookup-erase_ne}
use file_market.Stores.Request.{Store}
use file_market.Stores.Auth.{
  Item, JwtTokenInfo, get_access_token, get_refresh_token, save_access_token, save_refresh_token,
  remove_access_token, remove_refresh_token, AuthContent, set_auth_data, logged_out, logout,
}

lookup-erase :
    (k j : String) (d : Dict Item)
    → lookup j (erase k d) ≡ (if str_eq k j then none else lookup j d)
lookup-erase k j d = elim (Bool-cases (str_eq k j)) [
  | inl h ↦ rw (h, (eq_iff k j).0 h) (lookup-erase_self j d)
  | inr h ↦ rw h (lookup-erase_ne k j d (λ e. let t = (eq_iff k j).1 e in cc))
]

-- After a login whose tokens are not empty, both are read again as they came.
get_token-set_auth_data :
    {User : Type 0} (a r : JwtTokenInfo) (profile : Option User) (c : AuthContent User)
    → str_eq a.token "" ≡ false
    → str_eq r.token "" ≡ false
    → (get_access_token
          (set_auth_data
            (record { access_token = some a; refresh_token = some r; profile = profile })
            c).local
        ≡ some a)
      × (get_refresh_token
            (set_auth_data
              (record { access_token = some a; refresh_token = some r; profile = profile })
              c).local
          ≡ some r)
unfolding get_access_token get_refresh_token set_auth_data save_access_token save_refresh_token
get_token-set_auth_data a r profile c full_a full_r =
    (simp (lookup-insert, full_a) refl, simp (lookup-insert, full_r) refl)

-- After a logout no token is there, no user, and the store is not authorized.
pub get_token-logout :
    {User : Type 0} (s : Store (AuthContent User))
    → (get_access_token (logout s).content.local ≡ none)
      × (get_refresh_token (logout s).content.local ≡ none)
      × ((logout s).content.user ≡ none)
      × ((logout s).content.is_auth ≡ some false)
unfolding logout logged_out get_access_token get_refresh_token remove_access_token
    remove_refresh_token
get_token-logout s = (simp lookup-erase refl, simp lookup-erase refl, refl, refl)
