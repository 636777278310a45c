-- ===== src/Stores/Request.antt =====
-- utils/store/IStoreRequester.ts of packages/frontend/src/app: the requests of a store. A store
-- is a `Requester` and its own data; a promise is known by the identity of its request and
-- settles by an event. Handlers are given as functions on the data; a handler that throws is
-- not modelled.
use file_market.Base.{
  ℕ, suc, String, Bool, true, false, Option, none, some, List, [], ◌∷◌, ◌==◌, if◌then◌else◌,
  is_some,
}
use file_market.Stores.ErrorText.{Thrown, ErrorResponse, stringify_error, error_response_to_message}
pub mod Invariant
pub mod Order

-- The fields of `IStoreRequester`; of the error store, the messages shown, the latest first
pub record Requester : Type 0 where
  pub is_loading : Bool
  pub is_loaded : Bool
  pub request_count : ℕ
  pub current_request : Option ℕ
  pub shown : List String

-- The fields a store starts with
abbrev pub new_requester : Requester
new_requester = record {
  is_loading = false;
  is_loaded = false;
  request_count = 0;
  current_request = none;
  shown = [];
}

-- `ErrorStore.showError`, as the requester sees it
unfoldable pub show_error : String → Requester → Requester
show_error message r = record r { shown = message ∷ r.shown }

pub record Store (A : Type 0) : Type 0 where
  pub requester : Requester
  pub content : A

-- `HttpResponse<Data, ErrorResponse>`
pub data HttpResponse (D : Type 0) : Type 0 where
  response_ok : D → HttpResponse D
  response_error : Option ErrorResponse → HttpResponse D

-- How a promise settles
pub data Settled (R : Type 0) : Type 0 where
  fulfilled : R → Settled R
  rejected : Thrown → Settled R

-- Whether `currentRequest?.id === id`
abbrev pub is_current : ℕ → Option ℕ → Bool
is_current id none = false
is_current id (some j) = j == id

module _ {A : Type 0} where
  -- `storeRequestGeneric` up to the promise: the request it registers, if there is none yet
  unfoldable pub store_request_generic : Store A → Store A × Option ℕ
  store_request_generic s = if is_some s.requester.current_request then (s, none) else (
    record {
      requester = record s.requester {
        is_loading = true;
        request_count = suc s.requester.request_count;
        current_request = some (suc s.requester.request_count);
      };
      content = s.content;
    },
    some (suc s.requester.request_count),
  )

  -- `finish`: the result is handled only by the request that is current
  unfoldable pub finish : ℕ → (Store A → Store A) → Store A → Store A
  finish id handler s =
      if is_current id s.requester.current_request
      then handler (record {
        requester = record s.requester { is_loading = false; current_request = none };
        content = s.content;
      })
      else s

  -- `storeReset`
  unfoldable pub store_reset : Store A → Store A
  store_reset s = record {
    requester = record s.requester {
      is_loading = false;
      is_loaded = false;
      current_request = none;
    };
    content = s.content;
  }

  unfoldable pub set_loaded : (A → A) → Store A → Store A
  set_loaded f s = record {
    requester = record s.requester { is_loaded = true };
    content = f s.content;
  }

  unfoldable pub fail_with : String → (A → A) → Store A → Store A
  unfolding show_error
  fail_with message f s = record {
    requester = show_error message s.requester;
    content = f s.content;
  }

  module _ {D : Type 0} (callback : D → A → A) (error_callback : Thrown → A → A) where
    -- The two handlers of `storeRequest`
    unfoldable pub handle : Settled (HttpResponse D) → Store A → Store A
    unfolding set_loaded fail_with
    handle (fulfilled (response_ok d)) s = set_loaded (callback d) s
    handle (fulfilled (response_error e)) s = fail_with (error_response_to_message e) (λ a. a) s
    handle (rejected e) s = fail_with (stringify_error e) (error_callback e) s

    -- `storeRequest`, when its promise settles
    unfoldable pub settle : ℕ → Settled (HttpResponse D) → Store A → Store A
    unfolding finish handle
    settle id r = finish id (handle r)

  -- The two handlers of `storeRequestFetch`
  unfoldable pub handle_fetch : {D : Type 0} → (D → A → A) → Settled D → Store A → Store A
  unfolding set_loaded fail_with
  handle_fetch callback (fulfilled d) s = set_loaded (callback d) s
  handle_fetch callback (rejected e) s = fail_with (stringify_error e) (λ a. a) s

  unfoldable pub settle_fetch : {D : Type 0} → (D → A → A) → ℕ → Settled D → Store A → Store A
  unfolding finish handle_fetch
  settle_fetch callback id r = finish id (handle_fetch callback r)

-- What a request of `storeRequestPromise` does to the promise it returned
pub data Outcome (D : Type 0) : Type 0 where
  pending : Outcome D
  resolved : D → Outcome D
  refused : Thrown → Outcome D

module _ {A D : Type 0} where
  -- `storeRequestPromise`, when its request `id`, if it was registered, settles
  unfoldable pub promise_outcome : Option ℕ → Settled (HttpResponse D) → Store A → Outcome D
  promise_outcome none r s = pending
  promise_outcome (some id) (fulfilled (response_error e)) s = pending
  promise_outcome (some id) (fulfilled (response_ok d)) s =
      if is_current id s.requester.current_request then resolved d else pending
  promise_outcome (some id) (rejected e) s =
      if is_current id s.requester.current_request then refused e else pending

-- What happens to a store: a call of `storeRequest`, the settling of a promise, a `storeReset`
pub data Event (D : Type 0) : Type 0 where
  call : Event D
  arrive : ℕ → Settled (HttpResponse D) → Event D
  cancel : Event D

module _ {A D : Type 0} (callback : D → A → A) (error_callback : Thrown → A → A) where
  unfoldable pub step : Event D → Store A → Store A
  unfolding store_request_generic settle store_reset
  step call s = (store_request_generic s).0
  step (arrive id r) s = settle callback error_callback id r s
  step cancel s = store_reset s

  unfoldable pub run : List (Event D) → Store A → Store A
  unfolding step
  run [] s = s
  run (e ∷ events) s = run events (step e s)

  -- The requests whose results a run handles, in order
  unfoldable pub handled : List (Event D) → Store A → List ℕ
  unfolding step
  handled [] s = []
  handled (call ∷ events) s = handled events (step call s)
  handled (cancel ∷ events) s = handled events (step cancel s)
  handled (arrive id r ∷ events) s =
      let rest = handled events (step (arrive id r) s) in
      if is_current id s.requester.current_request then id ∷ rest else rest
