-- ===== src/Contracts/Mirror/Bodies.antt =====
-- What each handler makes of a store that follows the contract.
use file_market.Base.{
  ℕ, String, ◌≡◌, refl, sym, ap, ◌∙◌, inl, inr, Bool, true, false, none, some, List, [], ◌∷◌, ◌==◌,
  Bool-cases, or_else,
}
use file_market.Contracts.{has_any}
use file_market.Contracts.Collection.{Bytes, TransferInfo, no_info}
use file_market.Contracts.Collection.Status.{IsOrdered, transfer_status}
use file_market.Contracts.Mirror.{Texts, Page, IsMirror, FollowsStatus}
use file_market.Contracts.Mirror.Steps.{effect-FollowsStatus, settle-FollowsStatus}
use file_market.Stores.Transfer.{
  TransferStatus, drafted, public_key_set, fraud_reported, same_status, TransferStatusInfo,
  Transfer, TransferStore, has_status, new_transfer, draft_call, public_key_set_call,
}
use file_market.Stores.Transfer.Handlers.{unshift, draft_body, public_key_body, fraud_body}

false_of-implies : (a b : Bool) → (a ≡ true → b ≡ true) → b ≡ false → a ≡ false
false_of-implies true b h e = sym (h refl) ∙ e
false_of-implies false b h e = refl

unpaid_of-unkeyed :
    (i : TransferInfo)
    → IsOrdered i
    → has_any i.public_key ≡ false
    → has_any i.encrypted_password ≡ false
unpaid_of-unkeyed i h e = false_of-implies _ _ h.keyed_before e

fair_of-unpaid :
    (i : TransferInfo)
    → IsOrdered i
    → has_any i.encrypted_password ≡ false
    → i.fraud_reported ≡ false
fair_of-unpaid i h e = false_of-implies _ _ h.given_before e

module _ (x : Texts) (p : Page x) (n now : ℕ) (i : TransferInfo) (s : TransferStore) where
  module _ (a : s.is_activated ≡ true)
      (f : s.token_full_id ≡ some (p.collection, p.token_text)) where
    pub draft-FollowsStatus :
        (sender from receiver : ℕ) (owner : String)
        → (sender == 0) ≡ false
        → FollowsStatus x p
            (record no_info {
              id = p.token_id;
              initiator = sender;
              from = from;
              callback_receiver = receiver;
            })
            (draft_body owner n now (p.collection, p.token_text) s)
    unfolding draft_body same_status transfer_status
    draft-FollowsStatus sender from receiver owner sent = effect-FollowsStatus x p draft_call _ _ (
        settle-FollowsStatus x p n _
          (new_transfer p.collection p.token_text owner none drafted now n)
          (record { status = drafted; timestamp = now } ∷ []) s a f
          (record { keyed_before = λ e. cc; given_before = λ e. cc }) sent
          (record {
            statuses = refl;
            id = refl;
            latest = rw sent refl;
            key_known = refl;
            password_known = refl;
            fraud_known = refl;
            finished_known = refl;
            public_key = refl;
            password = refl;
          }))

    module _ (t : Transfer) (is : List TransferStatusInfo) (made : (i.initiator == 0) ≡ false)
        (ord : IsOrdered i) (h : IsMirror x p.token_text i t is) where
      seen : (st : TransferStatus) → has_status st (or_else t.statuses []) ≡ has_status st is
      seen st = ap (λ o. has_status st (or_else o [])) h.statuses

      pub key-FollowsStatus :
          (time to : ℕ) (key d : Bytes)
          → has_any key ≡ true
          → FollowsStatus x p
              (record i { to = to; data_ = d; public_key = key; public_key_set_at = time })
              (public_key_body (x.hex key) n now t s)
      unfolding public_key_body unshift same_status transfer_status
      key-FollowsStatus time to key d any = elim (Bool-cases (has_any i.public_key)) [
        | inl known ↦ rw (seen public_key_set ∙ h.key_known ∙ known) (
            effect-FollowsStatus x p public_key_set_call _ _ (
              settle-FollowsStatus x p n _ (record t { public_key = some (x.hex key) }) is s a f
                (record { keyed_before = λ e. any; given_before = ord.given_before }) made
                (record {
                  statuses = h.statuses;
                  id = h.id;
                  latest = h.latest ∙ rw (known, any) refl;
                  key_known = h.key_known ∙ known ∙ sym any;
                  password_known = h.password_known;
                  fraud_known = h.fraud_known;
                  finished_known = h.finished_known;
                  public_key = rw any refl;
                  password = h.password;
                })))
        | inr new ↦ rw (seen public_key_set ∙ h.key_known ∙ new) (
            effect-FollowsStatus x p public_key_set_call _ _ (
              settle-FollowsStatus x p n _
                (unshift public_key_set now (record t { public_key = some (x.hex key) }))
                (record { status = public_key_set; timestamp = now } ∷ is) s a f
                (record { keyed_before = λ e. any; given_before = ord.given_before }) made
                (record {
                  statuses = rw h.statuses refl;
                  id = h.id;
                  latest =
                      rw
                        (
                          made,
                          unpaid_of-unkeyed i ord new,
                          fair_of-unpaid i ord (unpaid_of-unkeyed i ord new),
                          any,
                        )
                        refl;
                  key_known = sym any;
                  password_known = h.password_known;
                  fraud_known = h.fraud_known;
                  finished_known = h.finished_known;
                  public_key = rw any refl;
                  password = h.password;
                })))
      ]

      pub fraud-FollowsStatus :
          has_any i.encrypted_password ≡ true
          → FollowsStatus x p (record i { fraud_reported = true }) (fraud_body n now t s)
      unfolding fraud_body unshift same_status transfer_status
      fraud-FollowsStatus given =
          settle-FollowsStatus x p n _ (unshift fraud_reported now t)
            (record { status = fraud_reported; timestamp = now } ∷ is) s a f
            (record { keyed_before = ord.keyed_before; given_before = λ e. given }) made
            (record {
              statuses = rw h.statuses refl;
              id = h.id;
              latest = rw made refl;
              key_known = h.key_known;
              password_known = h.password_known;
              fraud_known = refl;
              finished_known = h.finished_known;
              public_key = h.public_key;
              password = h.password;
            })
