-- ===== src/Stores/Opened.antt =====
-- The stores of packages/frontend/src/app/stores that are opened for something, ask the backend for
-- it and keep the answer: OrderStore.ts, TokenStore.ts, CollectionStore.ts, WhiteListStore.ts and
-- ProfileStore.ts. This is what they share; each child of the first five names is one of them.
use file_market.Base.{
  ℕ, ◌≡◌, Bool, true, false, Option, none, some, if◌then◌else◌, ==_refl, inl, inr, Option-cases,
}
use file_market.Stores.Request.{
  Store, HttpResponse, Settled, store_request_generic, store_reset, settle,
}
pub mod Order
pub mod Token
pub mod Collection
pub mod WhiteList
pub mod Profile
pub mod Network
pub mod Invariant
pub mod Current
pub mod Closed

-- The own fields of a store; what it is opened for is the question it puts to the backend, with the
-- API it puts it to where the store keeps one.
pub record Opened (Q D : Type 0) : Type 0 where
  pub is_activated : Bool
  pub asked : Option Q
  pub data_ : Option D

-- The callback of `storeRequest` where the request is rejected
abbrev pub no_error_callback : {E A : Type 0} → E → A → A
no_error_callback e a = a

module _ {Q D : Type 0} where
  -- A store before its request, active for `q`
  unfoldable pub opened_for : Q → Store (Opened Q D) → Store (Opened Q D)
  opened_for q s = record s { content = record s.content { is_activated = true; asked = some q } }

  -- `deactivate`
  unfoldable pub closed : Store (Opened Q D) → Store (Opened Q D)
  unfolding store_reset
  closed s =
      let r = store_reset s in record r { content = record r.content { is_activated = false } }

  unfoldable pub request_if : Bool → Store (Opened Q D) → Store (Opened Q D) × Option ℕ
  request_if b s = if b then store_request_generic s else (s, none)

  unfoldable pub request_asked :
      (Q → Bool) → Option Q → Store (Opened Q D) → Store (Opened Q D) × Option ℕ
  unfolding request_if
  request_asked sends none s = (s, none)
  request_asked sends (some q) s = request_if (sends q) s

  unfoldable pub keep_answer : {R : Type 0} → (R → Option D) → R → Opened Q D → Opened Q D
  keep_answer load r c = record c { data_ = load r }

-- What such a store is: its operations, for the keys `K` it is activated with, the questions `Q`
-- and the answers `R` of the backend. A call gives the identity of the request it makes, if any.
pub record Opens (K Q R D : Type 0) : Type 0 where
  pub question : K → Q
  pub sends : Q → Bool
  pub resends : Q → Bool
  pub load : R → Option D
  pub activate : K → Store (Opened Q D) → Store (Opened Q D) × Option ℕ
  pub deactivate : Store (Opened Q D) → Store (Opened Q D)
  pub reload : Store (Opened Q D) → Store (Opened Q D) × Option ℕ
  pub answer : ℕ → Settled (HttpResponse R) → Store (Opened Q D) → Store (Opened Q D)

-- What such a store promises: its operations are those of the requests, on its questions.
pub record IsOpens {K Q R D : Type 0} (o : Opens K Q R D) : Type 0 where
  pub activate_lem :
      (k : K) (s : Store (Opened Q D))
      → o.activate k s ≡ request_if (o.sends (o.question k)) (opened_for (o.question k) s)
  pub deactivate_lem : (s : Store (Opened Q D)) → o.deactivate s ≡ closed s
  pub reload_lem : (s : Store (Opened Q D)) → o.reload s ≡ request_asked o.resends s.content.asked s
  pub answer_lem :
      (id : ℕ) (r : Settled (HttpResponse R)) (s : Store (Opened Q D))
      → o.answer id r s ≡ settle (keep_answer o.load) no_error_callback id r s
