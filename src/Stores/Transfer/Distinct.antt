-- ===== src/Stores/Transfer/Distinct.antt =====
-- What each handler does to the statuses of the transfer in the store.
use file_market.Base.{
  ℕ, String, ◌≡◌, refl, ap, inl, inr, Bool, false, Option, none, some, List, [], ◌∷◌, Bool-cases,
  or_else, is_some,
}
use file_market.Stores.Transfer.{
  TransferStatus, drafted, created, public_key_set, password_set, fraud_reported, finished,
  TransferStatusInfo, Transfer, TransferStore, has_status, statuses_of, set_waiting_event,
  set_block_transfer, block_transfer_aux, new_transfer,
}
use file_market.Stores.Transfer.Handlers.{
  unshift, put_data, settle_event, init_body, draft_body, completion_body, public_key_body,
  password_body, fraud_body, decided_body, finished_body, cancellation_body,
}

-- No status stands twice in a list.
abbrev pub IsDistinct : List TransferStatusInfo → Type 0
IsDistinct [] = Unit
IsDistinct (i ∷ is) = (has_status i.status is ≡ false) × IsDistinct is

-- The statuses of the store's transfer are distinct.
unfoldable pub HasDistinct : TransferStore → Type 0
HasDistinct s = IsDistinct (statuses_of s.data_)

pub settle-statuses :
    (n : ℕ) (s : TransferStore) → statuses_of (settle_event n s).data_ ≡ statuses_of s.data_
unfolding settle_event set_block_transfer set_waiting_event
settle-statuses n s = block_statuses n s s.data_ refl
  where
    block_statuses :
        (n : ℕ) (s : TransferStore) (d : Option Transfer)
        → s.data_ ≡ d
        → statuses_of (block_transfer_aux n (record s { is_waiting_for_event = false }) d).data_
          ≡ statuses_of d
    block_statuses n s none e = rw e refl
    block_statuses n s (some t) e = elim (Bool-cases (is_some t.block)) [
      | inl p ↦ rw p refl
      | inr p ↦ rw (p, e) refl
    ]

-- An unshift of a status that is not there yet
unshift-IsDistinct :
    (st : TransferStatus) (now : ℕ) (t : Transfer) (is : Option (List TransferStatusInfo))
    → t.statuses ≡ is
    → has_status st (or_else is []) ≡ false
    → IsDistinct (or_else is [])
    → IsDistinct (or_else (unshift st now t).statuses [])
unfolding unshift
unshift-IsDistinct st now t none e new h = rw e h
unshift-IsDistinct st now t (some is) e new h = rw e (new, h)

-- The statuses that the two checks see
pub of-data :
    (s : TransferStore) (t : Transfer)
    → s.data_ ≡ some t
    → statuses_of s.data_ ≡ or_else t.statuses []
of-data s t e = ap statuses_of e

unshifted-HasDistinct :
    (st : TransferStatus) (n now : ℕ) (t : Transfer) (s : TransferStore)
    → has_status st (or_else t.statuses []) ≡ false
    → IsDistinct (or_else t.statuses [])
    → HasDistinct (settle_event n (put_data (unshift st now t) s))
unfolding HasDistinct
unshifted-HasDistinct st n now t s new h =
    rw (settle-statuses n (put_data (unshift st now t) s))
      (unshift-IsDistinct st now t t.statuses refl new h)

put-HasDistinct :
    (n : ℕ) (t : Transfer) (s : TransferStore)
    → IsDistinct (or_else t.statuses [])
    → HasDistinct (settle_event n (put_data t s))
unfolding HasDistinct
put-HasDistinct n t s h = rw (settle-statuses n (put_data t s)) h

pub public_key-HasDistinct :
    (key : String) (n now : ℕ) (t : Transfer) (s : TransferStore)
    → IsDistinct (or_else t.statuses [])
    → HasDistinct (public_key_body key n now t s)
unfolding public_key_body HasDistinct
public_key-HasDistinct key n now t s h =
    elim (Bool-cases (has_status public_key_set (or_else t.statuses []))) [
      | inl p ↦ rw p (put-HasDistinct n (record t { public_key = some key }) s h)
      | inr p ↦
          rw p
            (unshifted-HasDistinct public_key_set n now (record t { public_key = some key }) s p h)
    ]

pub password-HasDistinct :
    (password : String) (n now : ℕ) (t : Transfer) (s : TransferStore)
    → IsDistinct (or_else t.statuses [])
    → HasDistinct (password_body password n now t s)
unfolding password_body HasDistinct
password-HasDistinct password n now t s h =
    elim (Bool-cases (has_status password_set (or_else t.statuses []))) [
      | inl p ↦ rw p h
      | inr p ↦ rw p (
          unshifted-HasDistinct password_set n now (record t { encrypted_password = some password })
            s p h)
    ]

pub init-HasDistinct :
    (from to : String) (n now : ℕ) (id : String × String) (s : TransferStore)
    → HasDistinct (init_body from to n now id s)
unfolding init_body
init-HasDistinct from to n now id s =
    put-HasDistinct n (new_transfer id.0 id.1 from (some to) created now n) s (refl, tt)

pub draft-HasDistinct :
    (from : String) (n now : ℕ) (id : String × String) (s : TransferStore)
    → HasDistinct (draft_body from n now id s)
unfolding draft_body HasDistinct
draft-HasDistinct from n now id s =
    put-HasDistinct n (new_transfer id.0 id.1 from none drafted now n) s (refl, tt)

pub completion-HasDistinct :
    (to : Option String) (n : ℕ) (t : Transfer) (s : TransferStore)
    → IsDistinct (or_else t.statuses [])
    → HasDistinct (completion_body to n t s)
unfolding completion_body
completion-HasDistinct to n t s h = put-HasDistinct n (record t { to = to }) s h

pub fraud-HasDistinct :
    (n now : ℕ) (t : Transfer) (s : TransferStore)
    → has_status fraud_reported (or_else t.statuses []) ≡ false
    → IsDistinct (or_else t.statuses [])
    → HasDistinct (fraud_body n now t s)
unfolding fraud_body
fraud-HasDistinct n now t s new h = unshifted-HasDistinct fraud_reported n now t s new h

pub decided-HasDistinct :
    (approved : Bool) (n now : ℕ) (t : Transfer) (s : TransferStore)
    → has_status finished (or_else t.statuses []) ≡ false
    → IsDistinct (or_else t.statuses [])
    → HasDistinct (decided_body approved n now t s)
unfolding decided_body
decided-HasDistinct approved n now t s new h =
    unshifted-HasDistinct finished n now (record t { fraud_approved = some approved }) s new h

pub finished-HasDistinct :
    (id : String × String) (s : TransferStore) → HasDistinct (finished_body id s)
unfolding finished_body HasDistinct set_waiting_event
finished-HasDistinct id s = tt

pub cancellation-HasDistinct :
    (id : String × String) (s : TransferStore) → HasDistinct (cancellation_body id s)
unfolding cancellation_body HasDistinct set_waiting_event
cancellation-HasDistinct id s = tt
