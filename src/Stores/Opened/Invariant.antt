-- ===== src/Stores/Opened/Invariant.antt =====
-- What holds of a store and its requests at any time.
use mathlib.Core.List.{Memᴰ}
use file_market.Base.{
  ℕ, ◌≤◌, ◌≡◌, refl, ap, inl, inr, Bool, true, false, Option, none, some, List, [], ◌∷◌, All, arith,
  Bool-cases, is_some,
}
use file_market.Stores.Request.{
  show_error, Store, HttpResponse, response_ok, response_error, Settled, fulfilled, rejected,
  is_current, store_request_generic, finish, store_reset, set_loaded, fail_with, handle, settle,
}
use file_market.Stores.Request.Order.{is_current-some}
use file_market.Stores.Opened.{
  Opened, no_error_callback, opened_for, closed, request_if, request_asked, keep_answer, Opens,
  IsOpens,
}
use file_market.Stores.Opened.Network.{
  note, Reach, started, activated, deactivated, reloaded, answered, refused, failed,
}

All-map :
    {T : Type 0} {P Q : T → Type 0} → ((t : T) → P t → Q t) → (ts : List T) → All P ts → All Q ts
All-map f [] h = tt
All-map f (t ∷ ts) h = (f t h.0, All-map f ts h.1)

All-Mem : {T : Type 0} (P : T → Type 0) {t : T} (ts : List T) → Memᴰ t ts → All P ts → P t
All-Mem P [] m h = elim m [ ]
All-Mem P (x ∷ ts) (Memᴰ.head e) h = rw e h.0
All-Mem P (x ∷ ts) (Memᴰ.tail m) h = All-Mem P ts m h.1

module _ {Q R D : Type 0} (load : R → Option D) (serve : Q → R) where
  -- The current request was made for what the store is opened for, no request is ahead of the
  -- count, loaded data are the answer for what the store is opened for, and a store that is not
  -- active has no request and is not loaded.
  unfoldable pub IsCurrent : Store (Opened Q D) → List (ℕ × Q) → Type 0
  IsCurrent s sent =
      All (λ e. s.requester.current_request ≡ some e.0 → s.content.asked ≡ some e.1) sent
      × All (λ e. e.0 ≤ s.requester.request_count) sent
      × ((q : Q)
          → s.requester.is_loaded ≡ true
          → s.content.asked ≡ some q
          → s.content.data_ ≡ load (serve q))
      × (s.content.is_activated ≡ false
          → (s.requester.current_request ≡ none) × (s.requester.is_loaded ≡ false))

  -- A request for what the store is opened for
  request-IsCurrent :
      (b : Bool) (q : Q) (s : Store (Opened Q D)) (sent : List (ℕ × Q))
      → s.content.is_activated ≡ true
      → s.content.asked ≡ some q
      → IsCurrent s sent
      → IsCurrent (request_if b s).0 (note (request_if b s).1 q sent)
  unfolding request_if IsCurrent store_request_generic
  request-IsCurrent false q s sent on e h = h
  request-IsCurrent true q s sent on e h = elim (Bool-cases (is_some s.requester.current_request)) [
    | inl p ↦ rw p h
    | inr p ↦ rw p (
      ((λ _. e), All-map (λ t le. λ eq. grind (arith, le, eq)) sent h.1),
      (omega arith, All-map (λ t le. omega (arith, le)) sent h.1),
      h.2,
      λ off. grind arith,
    )
  ]

  asked-IsCurrent :
      (sends : Q → Bool) (q : Q) (s : Store (Opened Q D)) (sent : List (ℕ × Q))
      → s.content.is_activated ≡ true
      → s.content.asked ≡ some q
      → IsCurrent s sent
      → IsCurrent
          (request_asked sends s.content.asked s).0
          (note (request_asked sends s.content.asked s).1 q sent)
  unfolding request_asked
  asked-IsCurrent sends q s sent on e h =
      rw (ap (λ a. request_asked sends a s) e) (request-IsCurrent (sends q) q s sent on e h)

  -- An activation of a store that is not active
  opened-IsCurrent :
      (b : Bool) (q : Q) (s : Store (Opened Q D)) (sent : List (ℕ × Q))
      → s.content.is_activated ≡ false
      → IsCurrent s sent
      → IsCurrent (request_if b (opened_for q s)).0 (note (request_if b (opened_for q s)).1 q sent)
  unfolding opened_for IsCurrent
  opened-IsCurrent b q s sent off h = request-IsCurrent b q (opened_for q s) sent refl refl (
    All-map (λ t _. λ eq. grind (arith, eq, (h.3 off).0)) sent h.1,
    h.1,
    (λ r loaded e. grind (arith, loaded, (h.3 off).1)),
    λ on. grind (arith, on),
  )

  closed-IsCurrent :
      (s : Store (Opened Q D)) (sent : List (ℕ × Q)) → IsCurrent s sent → IsCurrent (closed s) sent
  unfolding closed store_reset IsCurrent
  closed-IsCurrent s sent h = (
    All-map (λ t _. λ eq. grind (arith, eq)) sent h.1,
    h.1,
    (λ q e. grind (arith, e)),
    λ _. (refl, refl),
  )

  -- A store without a request
  unfoldable IsIdle : Store (Opened Q D) → List (ℕ × Q) → Type 0
  unfolding IsCurrent
  IsIdle s sent =
      (s.requester.current_request ≡ none) × (s.content.is_activated ≡ true) × IsCurrent s sent

  handle-IsCurrent :
      (r : Settled (HttpResponse R)) (s : Store (Opened Q D)) (sent : List (ℕ × Q))
      → ((d : R)
          → r ≡ fulfilled (response_ok d)
          → (q : Q) → s.content.asked ≡ some q
          → load d ≡ load (serve q))
      → IsIdle s sent
      → IsCurrent (handle (keep_answer load) no_error_callback r s) sent
  unfolding handle set_loaded fail_with show_error keep_answer IsCurrent IsIdle
  handle-IsCurrent (fulfilled (response_ok d)) s sent ok (none_now, on, h) =
      (h.0, h.1, (λ q _ e. ok d refl q e), λ off. grind (arith, on, off))
  handle-IsCurrent (fulfilled (response_error e)) s sent ok (none_now, on, h) = h
  handle-IsCurrent (rejected e) s sent ok (none_now, on, h) = h

  requesting-IsOn :
      (id : ℕ) (s : Store (Opened Q D)) (sent : List (ℕ × Q))
      → s.requester.current_request ≡ some id
      → IsCurrent s sent
      → s.content.is_activated ≡ true
  unfolding IsCurrent
  requesting-IsOn id s sent e h = elim (Bool-cases s.content.is_activated) [
    | inl on ↦ on
    | inr off ↦ grind (arith, e, (h.3 off).0)
  ]

  -- An answer that is not of the current request changes nothing; one that is has its question.
  settled-IsCurrent :
      (id : ℕ) (r : Settled (HttpResponse R)) (s : Store (Opened Q D)) (sent : List (ℕ × Q))
      → ((d : R)
          → r ≡ fulfilled (response_ok d)
          → s.requester.current_request ≡ some id
          → (q : Q) → s.content.asked ≡ some q
          → load d ≡ load (serve q))
      → IsCurrent s sent
      → IsCurrent (settle (keep_answer load) no_error_callback id r s) sent
  unfolding settle finish IsCurrent IsIdle
  settled-IsCurrent id r s sent ok h =
      elim (Bool-cases (is_current id s.requester.current_request)) [
        | inl p ↦
            let e = is_current-some id _ p in
            let on = requesting-IsOn id s sent e h in
            rw p (
              handle-IsCurrent r _ sent (λ d q. ok d q e)
                (
                  refl,
                  on,
                  (
                    All-map (λ t _. λ eq. grind (arith, eq)) sent h.1,
                    h.1,
                    h.2,
                    λ off. grind (arith, on, off),
                  ),
                ))
        | inr p ↦ rw p h
      ]

module _ {K Q R D : Type 0} (o : Opens K Q R D) (lawful : IsOpens o) (serve : Q → R) where
  answered-IsCurrent :
      (id : ℕ) (q : Q) (s : Store (Opened Q D)) (sent : List (ℕ × Q))
      → Memᴰ (id, q) sent
      → IsCurrent o.load serve s sent
      → IsCurrent o.load serve (o.answer id (fulfilled (response_ok (serve q))) s) sent
  unfolding IsCurrent
  answered-IsCurrent id q s sent m h = rw (lawful.answer_lem id _ s) (
      settled-IsCurrent o.load serve id _ s sent
        (λ d same e r asked.
          let mine =
            All-Mem (λ t. s.requester.current_request ≡ some t.0 → s.content.asked ≡ some t.1) sent
              m h.0 e in
          cc)
        h)

  -- Whatever comes when, a store that is reached is current.
  pub reached-IsCurrent :
      (s : Store (Opened Q D)) (sent : List (ℕ × Q))
      → Reach o serve s sent
      → IsCurrent o.load serve s sent
  unfolding IsCurrent
  reached-IsCurrent _ _ started = (tt, tt, (λ q e. grind (arith, e)), λ _. (refl, refl))
  reached-IsCurrent _ _ (activated k s sent off r) =
      rw (lawful.activate_lem k s)
        (opened-IsCurrent o.load serve _ (o.question k) s sent off (reached-IsCurrent s sent r))
  reached-IsCurrent _ _ (deactivated s sent r) =
      rw (lawful.deactivate_lem s)
        (closed-IsCurrent o.load serve s sent (reached-IsCurrent s sent r))
  reached-IsCurrent _ _ (reloaded q s sent on e r) =
      rw (lawful.reload_lem s)
        (asked-IsCurrent o.load serve o.resends q s sent on e (reached-IsCurrent s sent r))
  reached-IsCurrent _ _ (answered id q s sent m r) =
      answered-IsCurrent id q s sent m (reached-IsCurrent s sent r)
  reached-IsCurrent _ _ (refused id e s sent r) =
      rw (lawful.answer_lem id (fulfilled (response_error e)) s)
        (settled-IsCurrent o.load serve id _ s sent (λ d q. cc) (reached-IsCurrent s sent r))
  reached-IsCurrent _ _ (failed id e s sent r) =
      rw (lawful.answer_lem id (rejected e) s)
        (settled-IsCurrent o.load serve id _ s sent (λ d q. cc) (reached-IsCurrent s sent r))
