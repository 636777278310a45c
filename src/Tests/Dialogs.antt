-- ===== src/Tests/Dialogs.antt =====
-- A store of dialogs.
use file_market.Base.{◌≡◌, refl, true, none, some, List, [], ◌∷◌, map, arith}
use file_market.Stores.Dialog.{
  DialogStore, new_dialog_store, open_dialog, close_dialog_by_id, on_timer, DialogEvent, open_call,
  close_id_call, timer, dialog_step, dialog_run,
}
use file_market.Stores.Dialog.Ids.{HasIds, dialog_run-HasIds}
use file_market.Stores.Dialog.Closing.{closed_at, close_dialog_by_id-map}

abbrev clicks : List DialogEvent
clicks =
    open_call 1 (some "sale") ∷ open_call 2 none ∷ close_id_call 1 ∷ timer 1 ∷ open_call 1 none ∷ []

new-HasIds : HasIds new_dialog_store
unfolding HasIds
new-HasIds = omega arith

shown_ids : map (λ i. i.id) (dialog_run clicks new_dialog_store).instances ≡ 2 ∷ 3 ∷ []
unfolding dialog_run dialog_step open_dialog close_dialog_by_id on_timer
shown_ids = refl

dialog_run-HasIds_example : HasIds (dialog_run clicks new_dialog_store)
dialog_run-HasIds_example = dialog_run-HasIds clicks new_dialog_store new-HasIds

abbrev two : DialogStore
two = record {
  instances =
      record { id = 2; component = 2; name = none; is_open = true }
      ∷ record { id = 3; component = 1; name = none; is_open = true }
      ∷ [];
  count = 3;
  closed_calls = [];
  timers = [];
}

two-HasIds : HasIds two
unfolding HasIds
two-HasIds = (omega arith, (omega arith, omega arith))

close_dialog_by_id-map_example :
    (close_dialog_by_id 3 two).instances ≡ map (closed_at 3) two.instances
close_dialog_by_id-map_example = close_dialog_by_id-map 3 two two-HasIds
