-- ===== src/Stores/Opened/Closed.antt =====
-- A store that is reloaded after its page has closed it.
use file_market.Base.{
  ℕ, suc, ◌≡◌, refl, ap, ◌∙◌, is_some, Bool, true, false, Option, none, some, ==_refl,
}
use file_market.Stores.Request.{
  Store, response_ok, fulfilled, store_request_generic, finish, store_reset, set_loaded, handle,
  settle,
}
use file_market.Stores.Opened.{
  Opened, opened_for, closed, request_if, request_asked, keep_answer, Opens, IsOpens,
}
use file_market.Stores.Opened.Current.{
  Kind, KeyOf, QuestionOf, AnswerOf, store_of, store_of-IsOpens,
}

module _ {K Q R D : Type 0} (o : Opens K Q R D) (lawful : IsOpens o) where
  reopened-requests :
      (q : Q) (s : Store (Opened Q D))
      → s.content.asked ≡ some q
      → o.resends q ≡ true
      → o.reload (o.deactivate s) ≡ store_request_generic (closed s)
  unfolding closed request_asked request_if store_reset
  reopened-requests q s e sends = rw (lawful.deactivate_lem s, lawful.reload_lem, e, sends) refl

  busy_request :
      (b : Bool) (j : ℕ) (s : Store (Opened Q D))
      → s.requester.current_request ≡ some j
      → request_if b s ≡ (s, none)
  unfolding request_if store_request_generic
  busy_request false j s e = refl
  busy_request true j s e = rw (ap is_some e) refl

  -- An activation while a request is on its way makes none.
  busy_activate :
      (k : K) (j : ℕ) (s : Store (Opened Q D))
      → s.requester.current_request ≡ some j
      → o.activate k s ≡ (opened_for (o.question k) s, none)
  unfolding opened_for
  busy_activate k j s e =
      lawful.activate_lem k s
      ∙ busy_request (o.sends (o.question k)) j (opened_for (o.question k) s) e

  reopened-shows :
      (q : Q) (k : K) (answer : R) (s : Store (Opened Q D))
      → s.content.asked ≡ some q
      → o.resends q ≡ true
      → ((o.activate k (o.reload (o.deactivate s)).0).1 ≡ none)
        × ((o.answer
              (suc s.requester.request_count)
              (fulfilled (response_ok answer))
              (o.activate k (o.reload (o.deactivate s)).0).0).content
            ≡ record { is_activated = true; asked = some (o.question k); data_ = o.load answer })
  unfolding opened_for closed store_request_generic store_reset settle finish handle set_loaded
      keep_answer
  reopened-shows q k answer s e sends =
      rw
        (
          reopened-requests q s e sends,
          busy_activate k (suc s.requester.request_count) (store_request_generic (closed s)).0 refl,
          lawful.answer_lem,
          ==_refl (suc s.requester.request_count),
        )
        (refl, refl)

-- An order, a token, a collection, a white list or a profile whose store is deactivated, then reloaded
-- where it would reload, then activated for a key: the activation makes no request, and the answer
-- to the request of the reload becomes the data of the store for the new key.
pub store_of-reopened :
    {D : Type 0} (get_api : Option ℕ → Option ℕ) (current : ℕ) (k : Kind) (old : QuestionOf k)
    (key : KeyOf k) (answer : AnswerOf k D) (s : Store (Opened (QuestionOf k) D))
    → s.content.asked ≡ some old
    → (store_of {D = D} get_api current k).resends old ≡ true
    → (((store_of get_api current k).activate key
          ((store_of get_api current k).reload ((store_of get_api current k).deactivate s)).0).1
        ≡ none)
      × (((store_of get_api current k).answer
            (suc s.requester.request_count)
            (fulfilled (response_ok answer))
            ((store_of get_api current k).activate key
              ((store_of get_api current k).reload
                ((store_of get_api current k).deactivate s)).0).0).content
          ≡ record {
            is_activated = true;
            asked = some ((store_of {D = D} get_api current k).question key);
            data_ = (store_of get_api current k).load answer;
          })
store_of-reopened get_api current k old key answer s =
    reopened-shows (store_of get_api current k) (store_of-IsOpens get_api current k) old key answer
      s
