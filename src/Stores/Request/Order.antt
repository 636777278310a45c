-- ===== src/Stores/Request/Order.antt =====
-- Which answers of the requests of a store are handled, and in which order.
use file_market.Base.{
  ℕ, ◌≤◌, ◌<◌, ◌≡◌, refl, ap, ◌∙◌, ◌≢◌, inl, inr, Bool, true, false, Option, none, some, List, [],
  ◌∷◌, arith, ◌==◌, if◌then◌else◌, ==_iff, ==_refl, Bool-cases, Option-cases,
}
use file_market.Stores.ErrorText.{Thrown}
use file_market.Stores.Request.{
  new_requester, show_error, Store, HttpResponse, response_ok, response_error, Settled, fulfilled,
  rejected, is_current, store_request_generic, finish, store_reset, set_loaded, fail_with, handle,
  settle, Event, call, arrive, cancel, step, run, handled,
}

-- A list of numbers above `n`, each above the one before it
abbrev pub IsIncreasing : ℕ → List ℕ → Type 0
IsIncreasing n [] = Unit
IsIncreasing n (k ∷ ks) = (n < k) × IsIncreasing k ks

if-IsIncreasing :
    (b : Bool) (n k : ℕ) (ks : List ℕ)
    → (b ≡ true → (n < k) × IsIncreasing k ks)
    → (b ≡ false → IsIncreasing n ks)
    → IsIncreasing n (if b then k ∷ ks else ks)
if-IsIncreasing true n k ks on off = on refl
if-IsIncreasing false n k ks on off = off refl

pub is_current-some : (id : ℕ) (cur : Option ℕ) → is_current id cur ≡ true → cur ≡ some id
is_current-some id none e = cc
is_current-some id (some j) e = ap some ((==_iff j id).0 e)

is_current_ne : (id : ℕ) (cur : Option ℕ) → cur ≢ some id → is_current id cur ≡ false
is_current_ne id none h = refl
is_current_ne id (some j) h = elim (Bool-cases (j == id)) [
  | inl p ↦ absurd (h (ap some ((==_iff j id).0 p)))
  | inr p ↦ p
]

module _ {A : Type 0} where
  -- Whatever request is handled from here on was registered after `n` others.
  IsAhead : ℕ → Store A → Type 0
  IsAhead n s =
      (n ≤ s.requester.request_count)
      × ((id : ℕ)
          → s.requester.current_request ≡ some id
          → (n < id) × (id ≤ s.requester.request_count))

  -- The request `id` was registered, and is not the current one any more.
  unfoldable pub IsRetired : ℕ → Store A → Type 0
  IsRetired id s = (id ≤ s.requester.request_count) × (s.requester.current_request ≢ some id)

module _ {A D : Type 0} (callback : D → A → A) (error_callback : Thrown → A → A) where
  handle-IsAhead :
      (n : ℕ) (r : Settled (HttpResponse D)) (s : Store A)
      → IsAhead n s
      → IsAhead n (handle callback error_callback r s)
  unfolding handle set_loaded fail_with show_error IsAhead
  handle-IsAhead n (fulfilled (response_ok d)) s h = h
  handle-IsAhead n (fulfilled (response_error e)) s h = h
  handle-IsAhead n (rejected e) s h = h

  call-IsAhead :
      (n : ℕ) (s : Store A) → IsAhead n s → IsAhead n (step callback error_callback call s)
  unfolding step store_request_generic IsAhead
  call-IsAhead n s h = elim (Option-cases s.requester.current_request) [
    | inl p ↦ rw p (grind arith, λ id e. grind arith)
    | inr (a, p) ↦ rw p (h.0, λ id e. h.1 id (p ∙ e))
  ]

  cancel-IsAhead :
      (n : ℕ) (s : Store A) → IsAhead n s → IsAhead n (step callback error_callback cancel s)
  unfolding step store_reset IsAhead
  cancel-IsAhead n s h = (h.0, λ id e. grind arith)

  -- A handled result: the rest is ahead of its request.
  arrive-IsAhead :
      (n id : ℕ) (r : Settled (HttpResponse D)) (s : Store A)
      → IsAhead n s
      → s.requester.current_request ≡ some id
      → (n < id) × IsAhead id (step callback error_callback (arrive id r) s)
  unfolding step settle finish IsAhead
  arrive-IsAhead n id r s h e =
      ((h.1 id e).0, rw (e, ==_refl id) (handle-IsAhead id r _ ((h.1 id e).1, λ j q. grind arith)))

  arrive_dropped :
      (id : ℕ) (r : Settled (HttpResponse D)) (s : Store A)
      → is_current id s.requester.current_request ≡ false
      → step callback error_callback (arrive id r) s ≡ s
  unfolding step settle finish
  arrive_dropped id r s e = rw e refl

  -- The requests that a run handles were registered after `n` others, each after the one before.
  handled-IsAhead :
      (n : ℕ) (events : List (Event D)) (s : Store A)
      → IsAhead n s
      → IsIncreasing n (handled callback error_callback events s)
  unfolding handled
  handled-IsAhead n [] s h = tt
  handled-IsAhead n (call ∷ events) s h = handled-IsAhead n events _ (call-IsAhead n s h)
  handled-IsAhead n (cancel ∷ events) s h = handled-IsAhead n events _ (cancel-IsAhead n s h)
  handled-IsAhead n (arrive id r ∷ events) s h =
      if-IsIncreasing (is_current id s.requester.current_request) n id _
        (λ p. (
          (arrive-IsAhead n id r s h (is_current-some id _ p)).0,
          handled-IsAhead id events _ (arrive-IsAhead n id r s h (is_current-some id _ p)).1,
        ))
        (λ p. rw (arrive_dropped id r s p) (handled-IsAhead n events s h))

  -- From a new store on, the requests whose results are handled come in the order of their
  -- registration, and none of them twice, whatever comes when.
  pub handled-IsIncreasing :
      (events : List (Event D)) (content : A)
      → IsIncreasing 0 (
          handled callback error_callback events
            (record { requester = new_requester; content = content }))
  unfolding IsAhead
  handled-IsIncreasing events content =
      handled-IsAhead 0 events _ (omega arith, λ id e. grind arith)

  call-IsRetired :
      (id : ℕ) (s : Store A) → IsRetired id s → IsRetired id (step callback error_callback call s)
  unfolding step store_request_generic IsRetired
  call-IsRetired id s h = elim (Option-cases s.requester.current_request) [
    | inl p ↦ rw p (omega (arith, h.0), λ e. grind arith)
    | inr (a, p) ↦ rw p (h.0, λ e. h.1 (p ∙ e))
  ]

  handle-IsRetired :
      (id : ℕ) (r : Settled (HttpResponse D)) (s : Store A)
      → IsRetired id s
      → IsRetired id (handle callback error_callback r s)
  unfolding handle set_loaded fail_with show_error IsRetired
  handle-IsRetired id (fulfilled (response_ok d)) s h = h
  handle-IsRetired id (fulfilled (response_error e)) s h = h
  handle-IsRetired id (rejected e) s h = h

  arrive-IsRetired :
      (id j : ℕ) (r : Settled (HttpResponse D)) (s : Store A)
      → IsRetired id s
      → IsRetired id (step callback error_callback (arrive j r) s)
  unfolding step settle finish IsRetired
  arrive-IsRetired id j r s h = elim (Bool-cases (is_current j s.requester.current_request)) [
    | inl p ↦ rw p (handle-IsRetired id r _ (h.0, λ e. grind arith))
    | inr p ↦ rw p h
  ]

  cancel-IsRetired :
      (id : ℕ) (s : Store A)
      → id ≤ s.requester.request_count
      → IsRetired id (step callback error_callback cancel s)
  unfolding step store_reset IsRetired
  cancel-IsRetired id s h = (h, λ e. grind arith)

  answered-IsRetired :
      (id : ℕ) (r : Settled (HttpResponse D)) (s : Store A)
      → s.requester.current_request ≡ some id
      → id ≤ s.requester.request_count
      → IsRetired id (step callback error_callback (arrive id r) s)
  unfolding step settle finish IsRetired
  answered-IsRetired id r s e h = rw (e, ==_refl id) (handle-IsRetired id r _ (h, λ q. grind arith))

  run-IsRetired :
      (id : ℕ) (events : List (Event D)) (s : Store A)
      → IsRetired id s
      → IsRetired id (run callback error_callback events s)
  unfolding run IsRetired
  run-IsRetired id [] s h = h
  run-IsRetired id (call ∷ events) s h = run-IsRetired id events _ (call-IsRetired id s h)
  run-IsRetired id (arrive j r ∷ events) s h =
      run-IsRetired id events _ (arrive-IsRetired id j r s h)
  run-IsRetired id (cancel ∷ events) s h = run-IsRetired id events _ (cancel-IsRetired id s h.0)

  -- Once a registered request is not current, because it was answered or cancelled, its result
  -- changes nothing, whatever came in between.
  pub arrive_retired :
      (id : ℕ) (r : Settled (HttpResponse D)) (events : List (Event D)) (s : Store A)
      → IsRetired id s
      → step callback error_callback (arrive id r) (run callback error_callback events s)
        ≡ run callback error_callback events s
  unfolding IsRetired
  arrive_retired id r events s h =
      arrive_dropped id r _ (is_current_ne id _ (run-IsRetired id events s h).1)

  -- A reset retires every request made before it.
  pub reset-arrive :
      (id : ℕ) (r : Settled (HttpResponse D)) (events : List (Event D)) (s : Store A)
      → id ≤ s.requester.request_count
      → step callback error_callback
          (arrive id r)
          (run callback error_callback events (store_reset s))
        ≡ run callback error_callback events (store_reset s)
  unfolding store_reset step
  reset-arrive id r events s h =
      arrive_retired id r events (store_reset s) (cancel-IsRetired id s h)

  -- The result of a call made while nothing is current arrives once: any later arrival of the
  -- same request changes nothing.
  pub arrive_once :
      (r r' : Settled (HttpResponse D)) (events : List (Event D)) (s : Store A) (id : ℕ)
      → s.requester.current_request ≡ some id
      → id ≤ s.requester.request_count
      → step callback error_callback
          (arrive id r')
          (run callback error_callback (arrive id r ∷ events) s)
        ≡ run callback error_callback (arrive id r ∷ events) s
  unfolding run
  arrive_once r r' events s id e h = arrive_retired id r' events _ (answered-IsRetired id r s e h)
