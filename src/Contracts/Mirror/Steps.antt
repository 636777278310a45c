-- ===== src/Contracts/Mirror/Steps.antt =====
-- One event of the contract in the store of its token's page.
use file_market.Base.{
  ℕ, String, ◌≡◌, refl, inl, inr, true, false, none, some, List, ◌==◌, ==_refl, Bool-cases, is_some,
}
use file_market.Contracts.Collection.{TransferInfo, no_info}
use file_market.Contracts.Collection.Status.{IsOrdered, no_info-IsOrdered}
use file_market.Contracts.Mirror.{Texts, Page, IsMirror, FollowsStatus}
use file_market.Stores.Transfer.{
  TransferStatusInfo, Transfer, Effect, TransferStore, set_waiting_event, set_block_transfer,
}
use file_market.Stores.Transfer.Handlers.{
  put_data, add_effect, settle_event, check_data, check_activation,
}

module _ (x : Texts) (p : Page x) where
  -- What a handler does to the transfer of the page's token
  pub checked :
      (f : Transfer → TransferStore → TransferStore) (t : Transfer) (s : TransferStore)
      → s.data_ ≡ some t
      → t.token_id ≡ p.token_text
      → check_data x.big_int p.token_id f s ≡ f t s
  unfolding check_data
  checked f t s e id = rw (e, id, p.is_full, p.is_number, ==_refl p.token_id) refl

  pub activation :
      (f : (String × String) → TransferStore → TransferStore) (s : TransferStore)
      → s.is_activated ≡ true
      → s.token_full_id ≡ some (p.collection, p.token_text)
      → check_activation x.big_int p.token_id f s ≡ f (p.collection, p.token_text) s
  unfolding check_activation
  activation f s a e = rw (e, a, p.is_number, ==_refl p.token_id) refl

  pub effect-FollowsStatus :
      (e : Effect) (i : TransferInfo) (s : TransferStore)
      → FollowsStatus x p i s
      → FollowsStatus x p i (add_effect e s)
  effect-FollowsStatus e i s h = record {
    activated = h.activated;
    full_id = h.full_id;
    ordered = h.ordered;
    absent = h.absent;
    present = h.present;
  }

  -- A store without a transfer follows a contract without one.
  pub gone-FollowsStatus :
      (s : TransferStore)
      → s.is_activated ≡ true
      → s.token_full_id ≡ some (p.collection, p.token_text)
      → s.data_ ≡ none
      → FollowsStatus x p no_info s
  gone-FollowsStatus s a f e = record {
    activated = a;
    full_id = f;
    ordered = no_info-IsOrdered;
    absent = λ h. e;
    present = λ h. cc;
  }

  -- What the handlers put in the store, with the number of its block, follows what it mirrors.
  pub settle-FollowsStatus :
      (n : ℕ) (i : TransferInfo) (t : Transfer) (is : List TransferStatusInfo) (s : TransferStore)
      → s.is_activated ≡ true
      → s.token_full_id ≡ some (p.collection, p.token_text)
      → IsOrdered i
      → (i.initiator == 0) ≡ false
      → IsMirror x p.token_text i t is
      → FollowsStatus x p i (settle_event n (put_data t s))
  unfolding settle_event set_block_transfer set_waiting_event
  settle-FollowsStatus n i t is s a f ord made h = elim (Bool-cases (is_some t.block)) [
    | inl b ↦ rw b (record {
      activated = a;
      full_id = f;
      ordered = ord;
      absent = λ e. cc;
      present = λ e. (
        record t { block = some (some n) },
        is,
        refl,
        record {
          statuses = h.statuses;
          id = h.id;
          latest = h.latest;
          key_known = h.key_known;
          password_known = h.password_known;
          fraud_known = h.fraud_known;
          finished_known = h.finished_known;
          public_key = h.public_key;
          password = h.password;
        },
      );
    })
    | inr b ↦ rw b (record {
      activated = a;
      full_id = f;
      ordered = ord;
      absent = λ e. cc;
      present = λ e. (t, is, refl, h);
    })
  ]
