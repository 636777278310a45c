-- ===== src/Hooks.antt =====
-- Hooks of packages/frontend/src/app/hooks that are state machines of their own. A promise settles
-- and a timer fires by an event; what is set by the setters of React is a field.
use file_market.Base.{
  ℕ, suc, ◌-◌, String, Bool, true, false, not, ◌&&◌, ◌||◌, Option, none, some, List, [], ◌∷◌, ◌==◌,
  if◌then◌else◌,
}
use file_market.Stores.ErrorText.{Thrown, stringify_error}
pub mod Interval
pub mod Status

-- `useIntervalAsync`: the counter of its runs, the timer it has last set, and whether it is mounted.
-- Beside its fields stand the timers that the window has still to fire, and the number of calls of
-- `fn` whose promises have not settled.
pub record IntervalAsync : Type 0 where
  pub running_count : ℕ
  pub timeout : Option ℕ
  pub mounted : Bool
  pub all_runs_count : ℕ
  pub pending : List ℕ
  pub in_flight : ℕ

-- After its first effect
abbrev pub mounted_interval : IntervalAsync
mounted_interval = record {
  running_count = 0;
  timeout = none;
  mounted = true;
  all_runs_count = 0;
  pending = [];
  in_flight = 0;
}

-- `window.clearTimeout` of a timer that may be missing
abbrev pub without : ℕ → List ℕ → List ℕ
without id [] = []
without id (t ∷ ts) = let rest = without id ts in if t == id then rest else t ∷ rest

abbrev pub clear_timeout : Option ℕ → List ℕ → List ℕ
clear_timeout none ts = ts
clear_timeout (some id) ts = without id ts

-- `next`, where the window gives the new timer its id
unfoldable pub next : ℕ → IntervalAsync → IntervalAsync
next id s =
    if s.mounted && (s.running_count == 0)
    then record s {
      all_runs_count = suc s.all_runs_count;
      timeout = some id;
      pending = id ∷ s.pending;
    }
    else s

-- `run` up to its await, from its await on, and where `fn` rejects
unfoldable pub run_start : IntervalAsync → IntervalAsync
run_start s = record s { running_count = suc s.running_count; in_flight = suc s.in_flight }

unfoldable pub run_end : ℕ → IntervalAsync → IntervalAsync
unfolding next
run_end id s =
    next id (record s { running_count = s.running_count - 1; in_flight = s.in_flight - 1 })

unfoldable pub run_rejected : IntervalAsync → IntervalAsync
run_rejected s = record s { in_flight = s.in_flight - 1 }

unfoldable pub flush : IntervalAsync → IntervalAsync
flush s = record s { pending = clear_timeout s.timeout s.pending }

unfoldable pub unmount : IntervalAsync → IntervalAsync
unmount s = record s { mounted = false; pending = clear_timeout s.timeout s.pending }

pub data IntervalEvent : Type 0 where
  call_run : IntervalEvent
  fn_resolved : (new_id : ℕ) → IntervalEvent
  fn_rejected : IntervalEvent
  timer_fires : (id : ℕ) → IntervalEvent
  call_flush : IntervalEvent
  unmounted : IntervalEvent

-- A promise settles only while there is one, and a timer fires only while it is pending, and then
-- calls `run`.
abbrev pub has_timer : ℕ → List ℕ → Bool
has_timer id [] = false
has_timer id (t ∷ ts) = (t == id) || has_timer id ts

unfoldable pub interval_step : IntervalEvent → IntervalAsync → IntervalAsync
unfolding run_start run_end run_rejected flush unmount
interval_step call_run s = run_start s
interval_step (fn_resolved id) s = if s.in_flight == 0 then s else run_end id s
interval_step fn_rejected s = if s.in_flight == 0 then s else run_rejected s
interval_step (timer_fires id) s =
    if has_timer id s.pending then run_start (record s { pending = without id s.pending }) else s
interval_step call_flush s = flush s
interval_step unmounted s = unmount s

unfoldable pub interval_run : List IntervalEvent → IntervalAsync → IntervalAsync
unfolding interval_step
interval_run [] s = s
interval_run (e ∷ es) s = interval_run es (interval_step e s)

-- `useStatusState`: its three states, and of a wrapped call what it gives
pub record StatusState (R : Type 0) : Type 0 where
  pub is_loading : Bool
  pub error : Option String
  pub result : Option R
  pub connects : ℕ

-- How a call ends
pub data Ending (R : Type 0) : Type 0 where
  returned : R → Ending R
  thrown : Thrown → Ending R

module _ {R : Type 0} (is_connected is_not_need_auth : Bool) where
  -- `wrapPromise` up to its await: the state, and whether the call is made
  unfoldable pub wrap_start : StatusState R → StatusState R × Bool
  wrap_start s =
      if not is_connected && not is_not_need_auth
      then (record s { is_loading = false; connects = suc s.connects }, false)
      else (record s { is_loading = true; error = none; result = none }, true)

  -- `wrapPromise` from its await on
  unfoldable pub wrap_end : Ending R → StatusState R → StatusState R
  wrap_end (returned r) s = record s { is_loading = false; result = some r }
  wrap_end (thrown e) s = record s { is_loading = false; error = some (stringify_error e) }
