-- ===== src/Tests/Hooked.antt =====
-- A polling page, a page that goes to another token, and lists with one token in both.
use file_market.Base.{◌≡◌, refl, true, not, ◌&&◌, none, some, [], ◌∷◌, arith, All}
use file_market.Hooks.{
  IntervalAsync, mounted_interval, call_run, fn_resolved, fn_rejected, timer_fires, has_timer,
  interval_step, interval_run,
}
use file_market.Hooks.Interval.{has_fired, fn_rejected-stops}
use file_market.Stores.Request.{fulfilled, response_ok, new_requester}
use file_market.Stores.Transfer.{drafted, Transfer, new_transfer, transfer_loaded}
use file_market.Stores.Transfer.Activation.{
  ActiveStore, answer, change_params, change_params-answers,
}
use file_market.Stores.TransferList.{TransferLists}
use file_market.Tests.Deals.{opened_page}

abbrev polling : IntervalAsync
polling = record mounted_interval { running_count = 1; in_flight = 1; pending = 4 ∷ [] }

fn_rejected-stops_example :
    All
      (λ t.
        (has_timer t polling.pending
          && not (has_fired t (timer_fires 4 ∷ fn_resolved 5 ∷ call_run ∷ fn_resolved 6 ∷ [])))
        ≡ true)
      (interval_run
        (timer_fires 4 ∷ fn_resolved 5 ∷ call_run ∷ fn_resolved 6 ∷ [])
        (interval_step fn_rejected polling)).pending
fn_rejected-stops_example =
    fn_rejected-stops (timer_fires 4 ∷ fn_resolved 5 ∷ call_run ∷ fn_resolved 6 ∷ []) polling
      (omega arith) (omega arith)

-- The request 1 of the first token is on its way.
abbrev first_page : ActiveStore
first_page = record {
  store = record {
    requester = record new_requester {
      is_loading = true;
      request_count = 1;
      current_request = some 1;
    };
    content = opened_page;
  };
  api = some 0;
}

abbrev incoming_transfer : Transfer
incoming_transfer = new_transfer "0xc0" "8" "0x5" (some "0x6") drafted 3 12

change_params-answers_example :
    ((change_params true true (λ c. some c) "0xc0" "8" 1 first_page).1 ≡ some 2)
    × (answer 1
          (fulfilled (response_ok none))
          (change_params true true (λ c. some c) "0xc0" "8" 1 first_page).0
        ≡ (change_params true true (λ c. some c) "0xc0" "8" 1 first_page).0)
    × ((answer 2
          (fulfilled (response_ok (some incoming_transfer)))
          (change_params true true (λ c. some c) "0xc0" "8" 1 first_page).0).store.content
        ≡ transfer_loaded
            (some incoming_transfer)
            (change_params true true (λ c. some c) "0xc0" "8" 1 first_page).0.store.content)
change_params-answers_example =
    change_params-answers (λ c. some c) "0xc0" "8" 1 1 1 first_page (fulfilled (response_ok none))
      (some incoming_transfer) refl (omega arith)

abbrev both_lists : TransferLists
both_lists = record {
  incoming = incoming_transfer ∷ [];
  outgoing = record incoming_transfer { to = none } ∷ [];
}
