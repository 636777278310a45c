-- ===== src/Stores/Dialog/Closing.antt =====
-- What closing a dialog by its id does.
use file_market.Base.{
  ℕ, zero, suc, ◌≤◌, ◌<◌, String, ◌≡◌, refl, sym, ap, ◌∙◌, inl, inr, true, false, Option, none,
  some, List, [], ◌∷◌, ◌++◌, map, arith, ◌==◌, if◌then◌else◌, ==_iff, ==_refl, Bool-cases, length,
  get_elem?,
}
use file_market.Stores.Dialog.{
  DialogInstance, DialogStore, open_dialog, close_instance, close_nth, next_index, close_found,
  find_index, close_index, close_dialog_by_id,
}
use file_market.Stores.Dialog.Ids.{IsBetween, HasIds}

close_opt : Option ℕ → List DialogInstance → List DialogInstance
close_opt none is = is
close_opt (some k) is = close_nth k is

-- What a close by the id should do to each dialog
abbrev pub closed_at : ℕ → DialogInstance → DialogInstance
closed_at id i = if i.id == id then close_instance i else i

close_nth_past : (k : ℕ) (is : List DialogInstance) → get_elem? is k ≡ none → close_nth k is ≡ is
close_nth_past k [] e = refl
close_nth_past zero (i ∷ is) e = cc
close_nth_past (suc k) (i ∷ is) e = ap (λ js. i ∷ js) (close_nth_past k is e)

close_found-instances :
    (k : ℕ) (s : DialogStore) (i : Option DialogInstance)
    → get_elem? s.instances k ≡ i
    → (close_found k i s).instances ≡ close_nth k s.instances
close_found-instances k s none e = sym (close_nth_past k s.instances e)
close_found-instances k s (some i) e = refl

close_index-instances :
    (k : Option ℕ) (s : DialogStore) → (close_index k s).instances ≡ close_opt k s.instances
unfolding close_opt
close_index-instances none s = refl
close_index-instances (some k) s = close_found-instances k s (get_elem? s.instances k) refl

close_opt-next :
    (k : Option ℕ) (i : DialogInstance) (is : List DialogInstance)
    → close_opt (next_index k) (i ∷ is) ≡ i ∷ close_opt k is
unfolding close_opt
close_opt-next none i is = refl
close_opt-next (some k) i is = refl

map-later :
    (id low : ℕ) (is : List DialogInstance) (high : ℕ)
    → id ≤ low
    → IsBetween low is high
    → map (closed_at id) is ≡ is
map-later id low [] high le h = refl
map-later id low (i ∷ is) high le h =
    rw
      (
        ltb_of_ne id i.id (omega (arith, le, h.0)),
        map-later id i.id is high (omega (arith, le, h.0)) h.1,
      )
      refl
  where
    ltb_of_ne : (id j : ℕ) → id < j → (j == id) ≡ false
    ltb_of_ne id j lt = elim (Bool-cases (j == id)) [
      | inl e ↦ absurd (omega (arith, lt, (==_iff j id).0 e))
      | inr e ↦ e
    ]

close_opt-map :
    (id low : ℕ) (is : List DialogInstance) (high : ℕ)
    → IsBetween low is high
    → close_opt (find_index (λ i. i.id == id) is) is ≡ map (closed_at id) is
unfolding close_opt
close_opt-map id low [] high h = refl
close_opt-map id low (i ∷ is) high h = elim (Bool-cases (i.id == id)) [
  | inl e ↦ rw (e, map-later id i.id is high (omega (arith, (==_iff i.id id).0 e)) h.1) refl
  | inr e ↦
      rw
        (
          e,
          close_opt-next (find_index (λ j. j.id == id) is) i is,
          close_opt-map id i.id is high h.1,
        )
        refl
]

-- Where the ids are in order, a close by an id closes the dialogs of that id and leaves the others
-- as they are, in their places.
pub close_dialog_by_id-map :
    (id : ℕ) (s : DialogStore)
    → HasIds s
    → (close_dialog_by_id id s).instances ≡ map (closed_at id) s.instances
unfolding close_dialog_by_id HasIds
close_dialog_by_id-map id s h =
    close_index-instances (find_index (λ i. i.id == id) s.instances) s
    ∙ close_opt-map id 0 s.instances s.count h

find_index-last :
    (id low : ℕ) (is : List DialogInstance) (high : ℕ) (new : DialogInstance)
    → IsBetween low is high
    → high < id
    → new.id ≡ id
    → find_index (λ i. i.id == id) (is ++ (new ∷ [])) ≡ some (length is)
find_index-last id low [] high new h lt e = rw (e, ==_refl id) refl
find_index-last id low (i ∷ is) high new h lt e =
    rw (id_ne i is h, find_index-last id i.id is high new h.1 lt e) refl
  where
    below : (low : ℕ) (is : List DialogInstance) → IsBetween low is high → low ≤ high
    below low [] h = h
    below low (j ∷ js) h = omega (arith, h.0, below j.id js h.1)

    id_ne :
        (i : DialogInstance) (is : List DialogInstance)
        → IsBetween low (i ∷ is) high
        → (i.id == id) ≡ false
    id_ne i is h = elim (Bool-cases (i.id == id)) [
      | inl e ↦ absurd (omega (arith, lt, below i.id is h.1, (==_iff i.id id).0 e))
      | inr e ↦ e
    ]

get_elem?-last :
    (is : List DialogInstance) (new : DialogInstance)
    → get_elem? (is ++ (new ∷ [])) (length is) ≡ some new
get_elem?-last [] new = refl
get_elem?-last (i ∷ is) new = get_elem?-last is new

close_nth-last :
    (is : List DialogInstance) (new : DialogInstance)
    → close_nth (length is) (is ++ (new ∷ [])) ≡ is ++ (close_instance new ∷ [])
close_nth-last [] new = refl
close_nth-last (i ∷ is) new = ap (λ js. i ∷ js) (close_nth-last is new)

-- Closing by the id where the last dialog has it
close_last :
    (s : DialogStore) (is : List DialogInstance) (high : ℕ) (new : DialogInstance)
    → IsBetween 0 is high
    → high < new.id
    → s.instances ≡ is ++ (new ∷ [])
    → ((close_dialog_by_id new.id s).closed_calls ≡ new.id ∷ s.closed_calls)
      × ((close_dialog_by_id new.id s).instances ≡ is ++ (close_instance new ∷ []))
unfolding close_dialog_by_id
close_last s is high new h lt e =
    rw
      (
        e,
        find_index-last new.id 0 is high new h lt refl,
        get_elem?-last is new,
        close_nth-last is new,
      )
      (refl, refl)

-- Closing a dialog a second time, before its timer fires, calls its listeners a second time.
close-twice :
    (c : ℕ) (n : Option String) (s : DialogStore)
    → HasIds s
    → (close_dialog_by_id
        (suc s.count)
        (close_dialog_by_id (suc s.count) (open_dialog c n s).0)).closed_calls
      ≡ suc s.count ∷ suc s.count ∷ s.closed_calls
unfolding HasIds open_dialog
close-twice c n s h =
    (close_last (close_dialog_by_id (suc s.count) (open_dialog c n s).0) s.instances s.count
      (close_instance (record { id = suc s.count; component = c; name = n; is_open = true })) h
      (omega arith) first.1).0
    ∙ ap (λ l. suc s.count ∷ l) first.0
  where
    first :
        ((close_dialog_by_id (suc s.count) (open_dialog c n s).0).closed_calls
          ≡ suc s.count ∷ s.closed_calls)
        × ((close_dialog_by_id (suc s.count) (open_dialog c n s).0).instances
            ≡ s.instances
              ++ (close_instance
                    (record { id = suc s.count; component = c; name = n; is_open = true })
                  ∷ []))
    first =
        close_last (open_dialog c n s).0 s.instances s.count
          (record { id = suc s.count; component = c; name = n; is_open = true }) h (omega arith)
          refl
