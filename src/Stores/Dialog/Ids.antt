-- ===== src/Stores/Dialog/Ids.antt =====
-- The ids of the dialogs on show.
use file_market.Base.{
  ℕ, zero, suc, ◌≤◌, ◌<◌, String, inl, inr, Bool, true, not, Option, none, some, List, [], ◌∷◌,
  ◌++◌, arith, ◌==◌, Bool-cases, length, get_elem?, keep,
}
use file_market.Stores.Dialog.{
  DialogInstance, DialogStore, open_dialog, close_nth, close_found, find_index, close_index,
  close_dialog_by_id, has_name, close_dialog_by_name, close_if, close_loop, close_dialog, on_timer,
  DialogEvent, open_call, close_id_call, close_name_call, close_component_call, timer, dialog_step,
  dialog_run,
}

-- The ids are above `low`, each above the one before it, and at most `high`.
abbrev pub IsBetween : ℕ → List DialogInstance → ℕ → Type 0
IsBetween low [] high = low ≤ high
IsBetween low (i ∷ is) high = (low < i.id) × IsBetween i.id is high

-- The ids of a store are distinct, in the order of opening, and no greater than its count.
unfoldable pub HasIds : DialogStore → Type 0
HasIds s = IsBetween 0 s.instances s.count

pub IsBetween-low :
    (low low' : ℕ) (is : List DialogInstance) (high : ℕ)
    → low' ≤ low
    → IsBetween low is high
    → IsBetween low' is high
IsBetween-low low low' [] high le h = omega (arith, le, h)
IsBetween-low low low' (i ∷ is) high le h = (omega (arith, le, h.0), h.1)

IsBetween-push :
    (low : ℕ) (is : List DialogInstance) (high c : ℕ) (n : Option String)
    → IsBetween low is high
    → IsBetween low
        (is ++ (record { id = suc high; component = c; name = n; is_open = true } ∷ []))
        (suc high)
IsBetween-push low [] high c n h = (omega (arith, h), omega arith)
IsBetween-push low (i ∷ is) high c n h = (h.0, IsBetween-push i.id is high c n h.1)

IsBetween-close_nth :
    (k low : ℕ) (is : List DialogInstance) (high : ℕ)
    → IsBetween low is high
    → IsBetween low (close_nth k is) high
IsBetween-close_nth k low [] high h = h
IsBetween-close_nth zero low (i ∷ is) high h = h
IsBetween-close_nth (suc k) low (i ∷ is) high h = (h.0, IsBetween-close_nth k i.id is high h.1)

IsBetween-keep :
    (p : DialogInstance → Bool) (low : ℕ) (is : List DialogInstance) (high : ℕ)
    → IsBetween low is high
    → IsBetween low (keep p is) high
IsBetween-keep p low [] high h = h
IsBetween-keep p low (i ∷ is) high h = elim (Bool-cases (p i)) [
  | inl e ↦ rw e (h.0, IsBetween-keep p i.id is high h.1)
  | inr e ↦ rw e (
      IsBetween-low i.id low (keep p is) high (omega (arith, h.0))
        (IsBetween-keep p i.id is high h.1))
]

close_found-HasIds :
    (k : ℕ) (i : Option DialogInstance) (s : DialogStore) → HasIds s → HasIds (close_found k i s)
unfolding HasIds
close_found-HasIds k none s h = h
close_found-HasIds k (some i) s h = IsBetween-close_nth k 0 s.instances s.count h

close_index-HasIds : (k : Option ℕ) (s : DialogStore) → HasIds s → HasIds (close_index k s)
close_index-HasIds none s h = h
close_index-HasIds (some k) s h = close_found-HasIds k (get_elem? s.instances k) s h

close_if-HasIds :
    (c k : ℕ) (i : Option DialogInstance) (s : DialogStore) → HasIds s → HasIds (close_if c k i s)
close_if-HasIds c k none s h = h
close_if-HasIds c k (some i) s h = elim (Bool-cases (i.component == c)) [
  | inl e ↦ rw e (close_found-HasIds k (some i) s h)
  | inr e ↦ rw e h
]

close_loop-HasIds : (c left k : ℕ) (s : DialogStore) → HasIds s → HasIds (close_loop c left k s)
close_loop-HasIds c zero k s h = h
close_loop-HasIds c (suc left) k s h =
    close_loop-HasIds c left (suc k) _ (close_if-HasIds c k (get_elem? s.instances k) s h)

-- Whatever is opened and closed, and whichever timers fire, the ids of the dialogs stay distinct,
-- in the order of opening, and at most the count.
pub dialog_run-HasIds :
    (es : List DialogEvent) (s : DialogStore) → HasIds s → HasIds (dialog_run es s)
unfolding dialog_run dialog_step open_dialog close_dialog_by_id close_dialog_by_name close_dialog
    on_timer HasIds
dialog_run-HasIds [] s h = h
dialog_run-HasIds (open_call c n ∷ es) s h =
    dialog_run-HasIds es _ (IsBetween-push 0 s.instances s.count c n h)
dialog_run-HasIds (close_id_call id ∷ es) s h =
    dialog_run-HasIds es _ (close_index-HasIds (find_index (λ i. i.id == id) s.instances) s h)
dialog_run-HasIds (close_name_call n ∷ es) s h =
    dialog_run-HasIds es _ (close_index-HasIds (find_index (has_name n) s.instances) s h)
dialog_run-HasIds (close_component_call c ∷ es) s h =
    dialog_run-HasIds es _ (close_loop-HasIds c (length s.instances) zero s h)
dialog_run-HasIds (timer id ∷ es) s h =
    dialog_run-HasIds es _ (IsBetween-keep (λ i. not (i.id == id)) 0 s.instances s.count h)
