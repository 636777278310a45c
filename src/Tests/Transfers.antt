-- ===== src/Tests/Transfers.antt =====
-- A transfer of a token, with a toy reading of its id.
use file_market.Base.{
  ℕ, String, ◌≡◌, refl, inl, inr, true, false, none, some, [], ◌∷◌, str_eq, ◌==◌, if◌then◌else◌,
  Bool-cases,
}
use file_market.Stores.Transfer.{
  public_key_set, password_set, same_status, Transfer, new_block_store, TransferStore,
}
use file_market.Stores.Transfer.Handlers.{transfer_fraud_reported, on_event}
use file_market.Stores.Transfer.Distinct.{HasDistinct}
use file_market.Stores.Transfer.Statuses.{on_event-HasDistinct}

abbrev toy_big_int : String → ℕ
toy_big_int t = if str_eq t "7" then 7 else 0

abbrev sold : Transfer
sold = record {
  collection = "0xc0";
  token_id = "7";
  from = some "0xa";
  to = some "0xb";
  order_id = none;
  fraud_approved = none;
  public_key = some "0x1";
  encrypted_password = some "0x2";
  statuses = some (
      record { status = password_set; timestamp = 5 }
      ∷ record { status = public_key_set; timestamp = 3 }
      ∷ []);
  block = some (some 12);
}

abbrev page : TransferStore
page = record {
  data_ = some sold;
  token_full_id = some ("0xc0", "7");
  is_activated = true;
  is_waiting_for_event = true;
  is_waiting_for_receipt = true;
  is_waiting_for_socket = true;
  block_store = new_block_store;
  effects = [];
}

page-HasDistinct : HasDistinct page
unfolding HasDistinct same_status
page-HasDistinct = (refl, (refl, tt))

on_event-HasDistinct_example :
    HasDistinct (on_event toy_big_int (transfer_fraud_reported 13) 7 9 page)
on_event-HasDistinct_example =
    on_event-HasDistinct toy_big_int (transfer_fraud_reported 13) 7 9 page page-HasDistinct

toy_big_int_ne : (t : String) → (toy_big_int t == 8) ≡ false
toy_big_int_ne t = elim (Bool-cases (str_eq t "7")) [ inl p ↦ rw p refl | inr p ↦ rw p refl ]
