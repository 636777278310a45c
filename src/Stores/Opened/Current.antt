-- ===== src/Stores/Opened/Current.antt =====
-- Each of the stores that are opened for something shows what it is opened for.
use file_market.Base.{ℕ, String, ◌≡◌, true, Option, some, List}
use file_market.Stores.Request.{Store}
use file_market.Stores.Opened.{Opened, Opens, IsOpens}
use file_market.Stores.Opened.Order.{OrderQuestion, order_store, order_store-IsOpens}
use file_market.Stores.Opened.Token.{TokenQuestion, token_store, token_store-IsOpens}
use file_market.Stores.Opened.Collection.{
  CollectionQuestion, collection_store, collection_store-IsOpens,
}
use file_market.Stores.Opened.WhiteList.{
  WhiteListQuestion, white_list_store, white_list_store-IsOpens,
}
use file_market.Stores.Opened.Profile.{profile_store, profile_store-IsOpens}
use file_market.Stores.Opened.Network.{Reach}
use file_market.Stores.Opened.Invariant.{IsCurrent, reached-IsCurrent}

pub data Kind : Type 0 where
  order : Kind
  token : Kind
  collection : Kind
  white_list : Kind
  profile : Kind

-- What a store is activated with, asks and is answered
abbrev pub KeyOf : Kind → Type 0
KeyOf order = (String × String) × ℕ
KeyOf token = (String × String) × ℕ
KeyOf collection = String × Option ℕ
KeyOf white_list = String
KeyOf profile = String

abbrev pub QuestionOf : Kind → Type 0
QuestionOf order = OrderQuestion
QuestionOf token = TokenQuestion
QuestionOf collection = CollectionQuestion
QuestionOf white_list = WhiteListQuestion
QuestionOf profile = String

abbrev pub AnswerOf : Kind → Type 0 → Type 0
AnswerOf order D = Option D
AnswerOf token D = D
AnswerOf collection D = Option D
AnswerOf white_list D = D
AnswerOf profile D = Option D

module _ {D : Type 0} (get_api : Option ℕ → Option ℕ) (current : ℕ) where
  abbrev pub store_of : (k : Kind) → Opens (KeyOf k) (QuestionOf k) (AnswerOf k D) D
  store_of order = order_store get_api
  store_of token = token_store get_api
  store_of collection = collection_store get_api
  store_of white_list = white_list_store current
  store_of profile = profile_store

  pub store_of-IsOpens : (k : Kind) → IsOpens (store_of k)
  store_of-IsOpens order = order_store-IsOpens get_api
  store_of-IsOpens token = token_store-IsOpens get_api
  store_of-IsOpens collection = collection_store-IsOpens get_api
  store_of-IsOpens white_list = white_list_store-IsOpens current
  store_of-IsOpens profile = profile_store-IsOpens

  -- The store of an order, a token, a collection, a white list or a profile, from its start on and in
  -- whatever order its activations while it is not active, deactivations, reloads while it is active,
  -- and the answers and failures of its requests come: once it is loaded, its data are what the
  -- backend answers for what it is opened for, a white list while `current` is the API of the current
  -- chain.
  pub store_of-shows :
      (k : Kind) (serve : QuestionOf k → AnswerOf k D) (q : QuestionOf k)
      (s : Store (Opened (QuestionOf k) D)) (sent : List (ℕ × QuestionOf k))
      → Reach (store_of k) serve s sent
      → s.requester.is_loaded ≡ true
      → s.content.asked ≡ some q
      → s.content.data_ ≡ (store_of k).load (serve q)
  unfolding IsCurrent
  store_of-shows k serve q s sent r =
      (reached-IsCurrent (store_of k) (store_of-IsOpens k) serve s sent r).2 q
