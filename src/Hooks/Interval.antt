-- ===== src/Hooks/Interval.antt =====
-- The timers of useIntervalAsync.
use file_market.Base.{
  ℕ, ◌-◌, ◌≤◌, ◌<◌, ◌≡◌, refl, sym, ap, ◌∙◌, inl, inr, Bool, true, false, not, ◌&&◌, ◌||◌, Option,
  none, some, List, [], ◌∷◌, ◌==◌, ==_iff, ==_refl, arith, All, Bool-cases,
}
use file_market.Hooks.{
  IntervalAsync, without, clear_timeout, next, run_start, run_end, run_rejected, flush, unmount,
  IntervalEvent, call_run, fn_resolved, fn_rejected, timer_fires, call_flush, unmounted, has_timer,
  interval_step, interval_run,
}

-- Whether a list of events has the timer fire
abbrev pub is_firing : ℕ → IntervalEvent → Bool
is_firing t call_run = false
is_firing t (fn_resolved id) = false
is_firing t fn_rejected = false
is_firing t (timer_fires id) = t == id
is_firing t call_flush = false
is_firing t unmounted = false

abbrev pub has_fired : ℕ → List IntervalEvent → Bool
has_fired t [] = false
has_fired t (e ∷ es) = is_firing t e || has_fired t es

kept-parts : (a b : Bool) → (a && not b) ≡ true → (a ≡ true) × (b ≡ false)
kept-parts true true h = cc
kept-parts true false h = (refl, refl)
kept-parts false b h = cc

has_timer-without :
    (t id : ℕ) (ts : List ℕ)
    → has_timer t (without id ts) ≡ true
    → (has_timer t ts ≡ true) × ((t == id) ≡ false)
has_timer-without t id [] h = cc
has_timer-without t id (u ∷ us) h = elim (Bool-cases (u == id)) [
  | inl p ↦ let (a, b) = has_timer-without t id us (sym (rw p refl) ∙ h) in ground (arith, a, b)
  | inr p ↦ elim (Bool-cases (u == t)) [
    | inl q ↦ (rw q refl, ground (arith, p, q))
    | inr q ↦
        let (a, b) = has_timer-without t id us (sym (rw (p, q) refl) ∙ h) in ground (arith, a, b)
  ]
]

has_timer-clear_timeout :
    (t : ℕ) (o : Option ℕ) (ts : List ℕ)
    → has_timer t (clear_timeout o ts) ≡ true
    → has_timer t ts ≡ true
has_timer-clear_timeout t none ts h = h
has_timer-clear_timeout t (some id) ts h = (has_timer-without t id ts h).0

-- More runs are counted than calls are on the way.
abbrev pub IsStuck : IntervalAsync → Type 0
IsStuck s = s.in_flight < s.running_count

-- Where more runs are counted than calls are on the way, this stays.
step-IsStuck : (e : IntervalEvent) (s : IntervalAsync) → IsStuck s → IsStuck (interval_step e s)
unfolding interval_step run_start run_end run_rejected flush unmount next
step-IsStuck call_run s h = omega (arith, h)
step-IsStuck (fn_resolved id) s h = ground (arith, h)
step-IsStuck fn_rejected s h = ground (arith, h)
step-IsStuck (timer_fires id) s h = elim (Bool-cases (has_timer id s.pending)) [
  | inl p ↦ rw p (omega (arith, h))
  | inr p ↦ rw p h
]
step-IsStuck call_flush s h = h
step-IsStuck unmounted s h = h

-- Then no step sets a timer, and a timer that fires is not pending any more.
step-pending :
    (e : IntervalEvent) (s : IntervalAsync) (t : ℕ)
    → IsStuck s
    → has_timer t (interval_step e s).pending ≡ true
    → (has_timer t s.pending ≡ true) × (is_firing t e ≡ false)
unfolding interval_step run_start run_end run_rejected flush unmount next
step-pending call_run s t h g = (g, refl)
step-pending (fn_resolved id) s t h g = ground (arith, h, g)
step-pending fn_rejected s t h g = ground (arith, h, g)
step-pending (timer_fires id) s t h g = elim (Bool-cases (has_timer id s.pending)) [
  | inl p ↦ has_timer-without t id s.pending (sym (rw p refl) ∙ g)
  | inr p ↦
      let there : has_timer t s.pending ≡ true = sym (rw p refl) ∙ g in
      (
        there,
        elim (Bool-cases (t == id)) [
          | inl q ↦ cc (there, p, ap (λ k. has_timer k s.pending) ((==_iff t id).0 q))
          | inr q ↦ q
        ],
      )
]
step-pending call_flush s t h g = (has_timer-clear_timeout t s.timeout s.pending g, refl)
step-pending unmounted s t h g = (has_timer-clear_timeout t s.timeout s.pending g, refl)

All-map : {P Q : ℕ → Type 0} → ((t : ℕ) → P t → Q t) → (ts : List ℕ) → All P ts → All Q ts
All-map f [] h = tt
All-map f (t ∷ ts) h = (f t h.0, All-map f ts h.1)

-- Each of the timers is pending.
all_there : (ts : List ℕ) → All (λ t. (has_timer t ts && true) ≡ true) ts
all_there [] = tt
all_there (t ∷ ts) = (rw (==_refl t) refl, All-map (λ u h. ground (arith, h)) ts (all_there ts))

stuck-pending :
    (es : List IntervalEvent) (s : IntervalAsync)
    → IsStuck s
    → All (λ t. (has_timer t s.pending && not (has_fired t es)) ≡ true) (interval_run es s).pending
unfolding interval_run
stuck-pending [] s h = all_there s.pending
stuck-pending (e ∷ es) s h =
    All-map
      (λ t g.
        let (there, later) = kept-parts _ _ g in
        let (before, now) = step-pending e s t h there in rw (before, now, later) refl)
      _ (stuck-pending es (interval_step e s) (step-IsStuck e s h))

step-counted :
    (e : IntervalEvent) (s : IntervalAsync)
    → s.in_flight ≤ s.running_count
    → (interval_step e s).in_flight ≤ (interval_step e s).running_count
unfolding interval_step run_start run_end run_rejected flush unmount next
step-counted call_run s h = omega (arith, h)
step-counted (fn_resolved id) s h = ground (arith, h)
step-counted fn_rejected s h = ground (arith, h)
step-counted (timer_fires id) s h = elim (Bool-cases (has_timer id s.pending)) [
  | inl p ↦ rw p (omega (arith, h))
  | inr p ↦ rw p h
]
step-counted call_flush s h = h
step-counted unmounted s h = h

-- The runs that are counted are at least the calls on the way, at all times.
interval_run-IsCounted :
    (es : List IntervalEvent) (s : IntervalAsync)
    → s.in_flight ≤ s.running_count
    → (interval_run es s).in_flight ≤ (interval_run es s).running_count
unfolding interval_run
interval_run-IsCounted [] s h = h
interval_run-IsCounted (e ∷ es) s h =
    interval_run-IsCounted es (interval_step e s) (step-counted e s h)

-- After a call that rejects, the hook never sets a timer again, whatever happens: each timer that is
-- pending at the end was pending before and has not fired since. So the polling ends once the timers
-- that were pending have fired.
pub fn_rejected-stops :
    (es : List IntervalEvent) (s : IntervalAsync)
    → s.in_flight ≤ s.running_count
    → 0 < s.in_flight
    → All
        (λ t. (has_timer t s.pending && not (has_fired t es)) ≡ true)
        (interval_run es (interval_step fn_rejected s)).pending
unfolding interval_step run_rejected
fn_rejected-stops es s h g =
    rw (not_zero s.in_flight g)
      (stuck-pending es (record s { in_flight = s.in_flight - 1 }) (omega (arith, h, g)))
  where
    not_zero : (n : ℕ) → 0 < n → (n == 0) ≡ false
    not_zero n h = ground arith

-- Where nothing is on the way and the hook is mounted, a run by the page adds a timer to those that
-- are pending, so there is one more loop of polling than before.
run-adds_timer :
    (id : ℕ) (s : IntervalAsync)
    → s.mounted ≡ true
    → s.running_count ≡ 0
    → s.in_flight ≡ 0
    → (interval_run (call_run ∷ fn_resolved id ∷ []) s).pending ≡ id ∷ s.pending
unfolding interval_run interval_step run_start run_end next
run-adds_timer id s h g f = rw (h, g, f) refl
