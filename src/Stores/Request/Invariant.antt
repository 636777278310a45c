-- ===== src/Stores/Request/Invariant.antt =====
-- What holds of a requester at any time.
use file_market.Base.{
  ℕ, ◌≡◌, refl, ap, ◌∙◌, inl, inr, some, List, [], ◌∷◌, arith, Bool-cases, Option-cases, is_some,
}
use file_market.Stores.ErrorText.{Thrown}
use file_market.Stores.Request.{
  Requester, show_error, Store, HttpResponse, response_ok, response_error, Settled, fulfilled,
  rejected, is_current, store_request_generic, finish, store_reset, set_loaded, fail_with, handle,
  settle, Event, call, arrive, cancel, step, run,
}

-- `isLoading` says whether there is a current request, and that is the latest.
unfoldable pub IsValid : Requester → Type 0
IsValid r =
    (r.is_loading ≡ is_some r.current_request)
    × ((id : ℕ) → r.current_request ≡ some id → id ≡ r.request_count)

module _ {A D : Type 0} (callback : D → A → A) (error_callback : Thrown → A → A) where
  handle-IsValid :
      (r : Settled (HttpResponse D)) (s : Store A)
      → IsValid s.requester
      → IsValid (handle callback error_callback r s).requester
  unfolding handle set_loaded fail_with show_error IsValid
  handle-IsValid (fulfilled (response_ok d)) s h = h
  handle-IsValid (fulfilled (response_error e)) s h = h
  handle-IsValid (rejected e) s h = h

  call-IsValid :
      (s : Store A) → IsValid s.requester → IsValid (step callback error_callback call s).requester
  unfolding step store_request_generic IsValid
  call-IsValid s h = elim (Option-cases s.requester.current_request) [
    | inl p ↦ rw p (refl, λ id e. grind arith)
    | inr (a, p) ↦ rw p (h.0 ∙ ap is_some p, λ id e. h.1 id (p ∙ e))
  ]

  arrive-IsValid :
      (id : ℕ) (r : Settled (HttpResponse D)) (s : Store A)
      → IsValid s.requester
      → IsValid (step callback error_callback (arrive id r) s).requester
  unfolding step settle finish IsValid
  arrive-IsValid id r s h = elim (Bool-cases (is_current id s.requester.current_request)) [
    | inl p ↦ rw p (handle-IsValid r _ (refl, λ id e. grind arith))
    | inr p ↦ rw p h
  ]

  cancel-IsValid : (s : Store A) → IsValid (step callback error_callback cancel s).requester
  unfolding step store_reset IsValid
  cancel-IsValid s = (refl, λ id e. grind arith)

  -- Whatever calls, answers and resets come in whatever order, a valid requester stays valid.
  run-IsValid :
      (events : List (Event D)) (s : Store A)
      → IsValid s.requester
      → IsValid (run callback error_callback events s).requester
  unfolding run
  run-IsValid [] s h = h
  run-IsValid (call ∷ events) s h = run-IsValid events _ (call-IsValid s h)
  run-IsValid (arrive id r ∷ events) s h = run-IsValid events _ (arrive-IsValid id r s h)
  run-IsValid (cancel ∷ events) s h = run-IsValid events _ (cancel-IsValid s)
