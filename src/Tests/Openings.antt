-- ===== src/Tests/Openings.antt =====
-- A page that goes from one token to the next, while the first is asked for, and a store that is
-- reloaded after it is closed.
use mathlib.Core.List.{Memᴰ}
use file_market.Base.{ℕ, String, ◌≡◌, refl, true, Option, none, some, List, [], ◌∷◌}
use file_market.Stores.Request.{
  Store, response_ok, fulfilled, store_request_generic, finish, store_reset, set_loaded, handle,
  settle,
}
use file_market.Stores.Opened.{Opened}
use file_market.Stores.Opened.Order.{
  request_order, answer_order, activate_order, deactivate_order, reload_order, set_order_data,
}
use file_market.Stores.Opened.Collection.{
  request_collection, answer_collection, activate_collection, deactivate_collection,
  reload_collection,
}
use file_market.Stores.Opened.WhiteList.{
  request_white_list, answer_white_list, activate_white_list, deactivate_white_list,
  reload_white_list,
}
use file_market.Stores.Opened.Profile.{
  request_profile, answer_profile, activate_profile, deactivate_profile, reload_profile,
}
use file_market.Stores.Opened.Token.{
  set_token_data, increase_token_likes, TokenQuestion, request_token, answer_token, activate_token,
  deactivate_token, reload_token,
}
use file_market.Stores.Opened.Network.{new_store, Reach, started, activated, deactivated, answered}
use file_market.Stores.Opened.Current.{token, store_of, store_of-shows}
use file_market.Stores.Opened.Closed.{store_of-reopened}

abbrev get_api : Option ℕ → Option ℕ
get_api c = c

-- The backend answers with the number of the token.
abbrev serve : TokenQuestion → String
serve q = q.0.1

abbrev TokenPage : Type 0
TokenPage = Store (Opened TokenQuestion String)

abbrev question : String → TokenQuestion
question id = (("0xC", id), some 1)

abbrev first : TokenPage
first = (activate_token get_api "0xC" "1" 1 new_store).0

abbrev left : TokenPage
left = deactivate_token first

abbrev second : TokenPage
second = (activate_token get_api "0xC" "2" 1 left).0

abbrev late : TokenPage
late = answer_token 1 (fulfilled (response_ok "1")) second

abbrev there : TokenPage
there = answer_token 2 (fulfilled (response_ok "2")) late

abbrev sent : List (ℕ × TokenQuestion)
sent = (2, question "2") ∷ (1, question "1") ∷ []

there-Reach : Reach (store_of get_api 0 token) serve there sent
unfolding request_token activate_token deactivate_token answer_token store_request_generic
    store_reset settle finish handle set_loaded
there-Reach = answered 2 (question "2") late sent (Memᴰ.head refl) (
    answered 1 (question "1") second sent (Memᴰ.tail (Memᴰ.head refl)) (
      activated (("0xC", "2"), 1) left ((1, question "1") ∷ []) refl
        (deactivated first ((1, question "1") ∷ [])
          (activated (("0xC", "1"), 1) new_store [] refl started))))

store_of-shows_example : there.content.data_ ≡ some "2"
unfolding request_token activate_token deactivate_token answer_token store_request_generic
    store_reset settle finish handle set_loaded
store_of-shows_example =
    store_of-shows get_api 0 token serve (question "2") there sent there-Reach refl refl

store_of-reopened_example :
    ((activate_token get_api "0xC" "2" 1 (reload_token left).0).1 ≡ none)
    × ((answer_token 2
          (fulfilled (response_ok "1"))
          (activate_token get_api "0xC" "2" 1 (reload_token left).0).0).content
        ≡ record { is_activated = true; asked = some (question "2"); data_ = some "1" })
unfolding request_token activate_token deactivate_token reload_token answer_token
    store_request_generic store_reset settle finish handle set_loaded
store_of-reopened_example =
    store_of-reopened get_api 0 token (question "1") (("0xC", "2"), 1) "1" first refl refl

-- An order that is answered by null is none, whatever the data were.
no_order_there :
    (answer_order {Order = String} 1
      (fulfilled (response_ok none))
      (set_order_data (some "old") (activate_order get_api "0xC" "1" 1 new_store).0)).content.data_
    ≡ none
unfolding request_order activate_order answer_order set_order_data store_request_generic settle
    finish handle set_loaded
no_order_there = refl

deactivated_order : (reload_order {Order = String} (deactivate_order new_store)).1 ≡ none
unfolding reload_order deactivate_order store_reset
deactivated_order = refl

-- Without a chain there is no request for a collection, also not by a reload.
collection_without_chain :
    (reload_collection {Collection = String} (activate_collection get_api "0xC" none new_store).0).1
    ≡ none
unfolding request_collection activate_collection reload_collection
collection_without_chain = refl

collection_again :
    (answer_collection {Collection = String} 2
      (fulfilled (response_ok (some "c")))
      (reload_collection (
        deactivate_collection
          (activate_collection get_api "0xC" (some 1) new_store).0)).0).content.data_
    ≡ some "c"
unfolding request_collection activate_collection deactivate_collection reload_collection
    answer_collection store_request_generic store_reset settle finish handle set_loaded
collection_again = refl

-- A white list for an empty address is asked for once, and not again by a reload.
white_list_of_nobody :
    (reload_white_list {WhiteList = String} 1 (
      answer_white_list 1
        (fulfilled (response_ok "w"))
        (deactivate_white_list (activate_white_list 1 "" new_store).0))).1
    ≡ none
unfolding request_white_list activate_white_list deactivate_white_list reload_white_list
    answer_white_list store_request_generic store_reset settle finish handle set_loaded
white_list_of_nobody = refl

profile_again :
    (reload_profile {User = String} (
      answer_profile 1
        (fulfilled (response_ok (some "u")))
        (deactivate_profile (activate_profile "0xA" new_store).0))).1
    ≡ some 2
unfolding request_profile activate_profile deactivate_profile reload_profile answer_profile
    store_request_generic store_reset settle finish handle set_loaded
profile_again = refl

-- A token without a number of likes gets the first, then the second.
liked_twice :
    (increase_token_likes
      (λ t. t)
      (λ n t. some n)
      (increase_token_likes
        (λ t. t)
        (λ n t. some n)
        (set_token_data (some none) new_store))).content.data_
    ≡ some (some 2)
unfolding increase_token_likes set_token_data
liked_twice = refl

-- After a change of the chain a reload asks the API of the new one.
white_list_elsewhere :
    (reload_white_list {WhiteList = String} 2 (
      answer_white_list 1
        (fulfilled (response_ok "w"))
        (activate_white_list 1 "0xA" new_store).0)).1
    ≡ some (2, 2)
unfolding request_white_list activate_white_list reload_white_list answer_white_list
    store_request_generic settle finish handle set_loaded
white_list_elsewhere = refl
