-- ===== src/Stores/Dialog.antt =====
-- stores/Dialog/DialogStore.ts of packages/frontend/src/app. A component is known by a number; of
-- the listeners of a dialog, the calls are kept in a log. The timer of a second is an event.
use file_market.Base.{
  ℕ, zero, suc, ◌+◌, String, Bool, true, false, not, Option, none, some, List, [], ◌∷◌, ◌++◌,
  str_eq, ◌==◌, if◌then◌else◌, is_some, length, get_elem?, keep,
}
pub mod Ids
pub mod Closing

-- `DialogCallInstance`, with the name of its props
pub record DialogInstance : Type 0 where
  pub id : ℕ
  pub component : ℕ
  pub name : Option String
  pub is_open : Bool

pub record DialogStore : Type 0 where
  pub instances : List DialogInstance
  pub count : ℕ
  pub closed_calls : List ℕ
  pub timers : List ℕ

abbrev pub new_dialog_store : DialogStore
new_dialog_store = record { instances = []; count = 0; closed_calls = []; timers = [] }

-- `openDialog`, and the id that its `DialogRef` has
unfoldable pub open_dialog : ℕ → Option String → DialogStore → DialogStore × ℕ
open_dialog component name s = (
  record s {
    count = suc s.count;
    instances =
        s.instances
        ++ (record { id = suc s.count; component = component; name = name; is_open = true } ∷ []);
  },
  suc s.count,
)

abbrev pub close_instance : DialogInstance → DialogInstance
close_instance i = record i { is_open = false }

-- `instances[index].open = false`
abbrev pub close_nth : ℕ → List DialogInstance → List DialogInstance
close_nth k [] = []
close_nth zero (i ∷ is) = close_instance i ∷ is
close_nth (suc k) (i ∷ is) = i ∷ close_nth k is

abbrev pub close_found : ℕ → Option DialogInstance → DialogStore → DialogStore
close_found k none s = s
close_found k (some i) s = record s {
  instances = close_nth k s.instances;
  closed_calls = i.id ∷ s.closed_calls;
  timers = i.id ∷ s.timers;
}

-- `closeDialogByOpenIndex`, for an index that is not negative
unfoldable pub close_dialog_by_open_index : ℕ → DialogStore → DialogStore
close_dialog_by_open_index k s = close_found k (get_elem? s.instances k) s

abbrev pub next_index : Option ℕ → Option ℕ
next_index none = none
next_index (some k) = some (suc k)

-- `findIndex`; none is -1
abbrev pub find_index : (DialogInstance → Bool) → List DialogInstance → Option ℕ
find_index p [] = none
find_index p (i ∷ is) = let rest = find_index p is in if p i then some zero else next_index rest

abbrev pub close_index : Option ℕ → DialogStore → DialogStore
close_index none s = s
close_index (some k) s = close_found k (get_elem? s.instances k) s

unfoldable pub close_dialog_by_id : ℕ → DialogStore → DialogStore
close_dialog_by_id id s = close_index (find_index (λ i. i.id == id) s.instances) s

-- `instance.props.name === name`
abbrev pub has_name : String → DialogInstance → Bool
has_name name i = name_is name i.name
  where
    name_is : String → Option String → Bool
    name_is n none = false
    name_is n (some m) = str_eq m n

unfoldable pub close_dialog_by_name : String → DialogStore → DialogStore
close_dialog_by_name name s = close_index (find_index (has_name name) s.instances) s

-- The loop of `closeDialog`, from the index `k` on
abbrev pub close_if : ℕ → ℕ → Option DialogInstance → DialogStore → DialogStore
close_if component k none s = s
close_if component k (some i) s = if i.component == component then close_found k (some i) s else s

abbrev pub close_loop : ℕ → ℕ → ℕ → DialogStore → DialogStore
close_loop component zero k s = s
close_loop component (suc left) k s =
    close_loop component left (suc k) (close_if component k (get_elem? s.instances k) s)

unfoldable pub close_dialog : ℕ → DialogStore → DialogStore
close_dialog component s = close_loop component (length s.instances) zero s

-- The timer set for the dialog `id`
unfoldable pub on_timer : ℕ → DialogStore → DialogStore
on_timer id s = record s { instances = keep (λ i. not (i.id == id)) s.instances }

unfoldable pub is_dialog_open_by_name : String → DialogStore → Bool
is_dialog_open_by_name name s = is_some (find_index (has_name name) s.instances)

pub data DialogEvent : Type 0 where
  open_call : ℕ → Option String → DialogEvent
  close_id_call : ℕ → DialogEvent
  close_name_call : String → DialogEvent
  close_component_call : ℕ → DialogEvent
  timer : ℕ → DialogEvent

unfoldable pub dialog_step : DialogEvent → DialogStore → DialogStore
unfolding open_dialog close_dialog_by_id close_dialog_by_name close_dialog on_timer
dialog_step (open_call component name) s = (open_dialog component name s).0
dialog_step (close_id_call id) s = close_dialog_by_id id s
dialog_step (close_name_call name) s = close_dialog_by_name name s
dialog_step (close_component_call component) s = close_dialog component s
dialog_step (timer id) s = on_timer id s

unfoldable pub dialog_run : List DialogEvent → DialogStore → DialogStore
unfolding dialog_step
dialog_run [] s = s
dialog_run (e ∷ es) s = dialog_run es (dialog_step e s)
