-- ===== src/Tests/Requests.antt =====
-- The requests of a store: a call that is cancelled, one that is answered, and late answers.
use file_market.Base.{ℕ, ◌≡◌, refl, List, [], ◌∷◌, arith}
use file_market.Stores.ErrorText.{Thrown}
use file_market.Stores.Request.{
  new_requester, Store, response_ok, fulfilled, store_request_generic, finish, store_reset,
  set_loaded, handle, settle, Event, call, arrive, cancel, step, run, handled,
}
use file_market.Stores.Request.Invariant.{IsValid}
use file_market.Stores.Request.Order.{IsIncreasing, IsRetired, handled-IsIncreasing, arrive_retired}

-- The content of the store is the list of what its callback was given.
abbrev push : ℕ → List ℕ → List ℕ
push d a = d ∷ a

abbrev no_callback : Thrown → List ℕ → List ℕ
no_callback e a = a

abbrev fresh : Store (List ℕ)
fresh = record { requester = new_requester; content = [] }

abbrev story : List (Event ℕ)
story =
    call
    ∷ cancel
    ∷ call
    ∷ arrive 1 (fulfilled (response_ok 10))
    ∷ arrive 2 (fulfilled (response_ok 20))
    ∷ []

abbrev answered : Store (List ℕ)
answered = run push no_callback story fresh

story_content : answered.content ≡ 20 ∷ []
unfolding run step settle finish handle set_loaded store_request_generic store_reset
story_content = refl

fresh-IsValid : IsValid fresh.requester
unfolding IsValid
fresh-IsValid = (refl, λ id e. grind arith)

handled-IsIncreasing_example : IsIncreasing 0 (handled push no_callback story fresh)
handled-IsIncreasing_example = handled-IsIncreasing push no_callback story []

answered-IsRetired : IsRetired 2 answered
unfolding IsRetired run step settle finish handle set_loaded store_request_generic store_reset
answered-IsRetired = (omega arith, λ e. grind arith)

arrive_retired_example :
    step push no_callback
      (arrive 2 (fulfilled (response_ok 30)))
      (run push no_callback (call ∷ []) answered)
    ≡ run push no_callback (call ∷ []) answered
arrive_retired_example =
    arrive_retired push no_callback 2 (fulfilled (response_ok 30)) (call ∷ []) answered
      answered-IsRetired
