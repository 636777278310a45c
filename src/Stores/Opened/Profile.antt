-- ===== src/Stores/Opened/Profile.antt =====
-- stores/Profile/ProfileStore.ts of packages/frontend/src/app.
use file_market.Base.{
  ℕ, String, str_eq, ◌≡◌, refl, true, false, not, Option, none, some, if◌then◌else◌,
}
use file_market.Stores.Request.{
  Store, HttpResponse, Settled, store_request_generic, store_reset, settle,
}
use file_market.Stores.Opened.{
  Opened, opened_for, closed, request_if, request_asked, keep_answer, Opens, IsOpens,
}

module _ {User : Type 0} where
  -- `request`
  unfoldable pub request_profile :
      Store (Opened String User) → Store (Opened String User) × Option ℕ
  request_profile s = store_request_generic s

  unfoldable pub answer_profile :
      ℕ
      → Settled (HttpResponse (Option User))
      → Store (Opened String User)
      → Store (Opened String User)
  unfolding settle
  answer_profile = settle (λ r c. record c { data_ = r }) (λ e c. c)

  unfoldable pub activate_profile :
      (address : String) → Store (Opened String User) → Store (Opened String User) × Option ℕ
  unfolding request_profile
  activate_profile address s =
      request_profile
        (record s { content = record s.content { is_activated = true; asked = some address } })

  unfoldable pub deactivate_profile : Store (Opened String User) → Store (Opened String User)
  unfolding store_reset
  deactivate_profile s =
      let r = store_reset s in record r { content = record r.content { is_activated = false } }

  -- `if (this.address)`: an empty address is none
  abbrev reload_for :
      Option String → Store (Opened String User) → Store (Opened String User) × Option ℕ
  reload_for none s = (s, none)
  reload_for (some address) s = if not (str_eq address "") then request_profile s else (s, none)

  unfoldable pub reload_profile : Store (Opened String User) → Store (Opened String User) × Option ℕ
  unfolding request_profile
  reload_profile s = reload_for s.content.asked s

  request_asked-profile :
      (q : Option String) (s : Store (Opened String User))
      → reload_for q s ≡ request_asked (λ a. not (str_eq a "")) q s
  unfolding request_profile request_asked request_if
  request_asked-profile none s = refl
  request_asked-profile (some q) s = refl

  abbrev pub profile_store : Opens String String (Option User) User
  profile_store = record {
    question = λ a. a;
    sends = λ a. true;
    resends = λ a. not (str_eq a "");
    load = λ r. r;
    activate = activate_profile;
    deactivate = deactivate_profile;
    reload = reload_profile;
    answer = answer_profile;
  }

  pub profile_store-IsOpens : IsOpens (profile_store)
  unfolding activate_profile deactivate_profile reload_profile answer_profile opened_for closed
      keep_answer request_if
  profile_store-IsOpens = record {
    activate_lem = λ k s. refl;
    deactivate_lem = λ s. refl;
    reload_lem = λ s. request_asked-profile s.content.asked s;
    answer_lem = λ id r s. refl;
  }
