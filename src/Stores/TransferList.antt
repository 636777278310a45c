-- ===== src/Stores/TransferList.antt =====
-- stores/Transfer/TransferListStore.ts of packages/frontend/src/app, and the text of a token's full
-- id of processing/utils/id.ts. Its requests are those of Stores/Request.
use Prim.Native.String.{◌++◌ as text_append}
use file_market.Base.{
  String, ◌≡◌, refl, ap, ◌∙◌, inl, inr, Bool, not, ◌&&◌, Option, none, some, List, [], ◌∷◌, ◌++◌,
  str_eq, if◌then◌else◌, or_else, Bool-cases,
}
use file_market.Base.Dict.{Dict, lookup, insert, lookup-insert}
use file_market.Stores.Transfer.{Transfer}

-- `stringifyTokenFullId`
unfoldable pub stringify_token_full_id : (collection_address token_id : String) → String
stringify_token_full_id collection_address token_id =
    text_append "{\"collectionAddress\":"
      (text_append collection_address (text_append ",\"tokenId\":" (text_append token_id "}")))

pub record TransferLists : Type 0 where
  pub incoming : List Transfer
  pub outgoing : List Transfer

-- The answer of the backend: a list that is missing leaves that of the store
pub record TransfersResponse : Type 0 where
  pub incoming : Option (List Transfer)
  pub outgoing : Option (List Transfer)

unfoldable pub transfers_loaded : TransfersResponse → TransferLists → TransferLists
transfers_loaded d s = record {
  incoming = or_else d.incoming s.incoming;
  outgoing = or_else d.outgoing s.outgoing;
}

-- `transfer.collection && transfer.tokenId`; a missing text is empty
abbrev pub has_full_id : Transfer → Bool
has_full_id t = not (str_eq t.collection "") && not (str_eq t.token_id "")

abbrev pub key_of_transfer : Transfer → String
key_of_transfer t = stringify_token_full_id t.collection t.token_id

-- `fillDict`
abbrev pub fill_dict : List Transfer → Dict Transfer → Dict Transfer
fill_dict [] d = d
fill_dict (t ∷ ts) d = fill_dict ts (if has_full_id t then insert (key_of_transfer t) t d else d)

unfoldable pub full_id_dict : TransferLists → Dict Transfer
full_id_dict s = fill_dict s.outgoing (fill_dict s.incoming [])

-- The last transfer of a list that has the key
abbrev pub last_with : String → List Transfer → Option Transfer → Option Transfer
last_with k [] found = found
last_with k (t ∷ ts) found =
    last_with k ts (if has_full_id t && str_eq (key_of_transfer t) k then some t else found)

filled_once :
    (k : String) (t : Transfer) (d : Dict Transfer)
    → lookup k (if has_full_id t then insert (key_of_transfer t) t d else d)
      ≡ (if has_full_id t && str_eq (key_of_transfer t) k then some t else lookup k d)
filled_once k t d = elim (Bool-cases (has_full_id t)) [
  | inl p ↦ rw p (lookup-insert (key_of_transfer t) k t d)
  | inr p ↦ rw p refl
]

lookup-fill_dict :
    (k : String) (ts : List Transfer) (d : Dict Transfer)
    → lookup k (fill_dict ts d) ≡ last_with k ts (lookup k d)
lookup-fill_dict k [] d = refl
lookup-fill_dict k (t ∷ ts) d =
    lookup-fill_dict k ts (if has_full_id t then insert (key_of_transfer t) t d else d)
    ∙ ap (last_with k ts) (filled_once k t d)

last_with-append :
    (k : String) (xs ys : List Transfer) (found : Option Transfer)
    → last_with k ys (last_with k xs found) ≡ last_with k (xs ++ ys) found
last_with-append k [] ys found = refl
last_with-append k (x ∷ xs) ys found =
    last_with-append k xs ys
      (if has_full_id x && str_eq (key_of_transfer x) k then some x else found)

-- The dictionary has for a full id the last of the incoming and then the outgoing transfers that has
-- it, and nothing where none has.
full_id_dict-last :
    (k : String) (s : TransferLists)
    → lookup k (full_id_dict s) ≡ last_with k (s.incoming ++ s.outgoing) none
unfolding full_id_dict
full_id_dict-last k s =
    lookup-fill_dict k s.outgoing (fill_dict s.incoming [])
    ∙ ap (last_with k s.outgoing) (lookup-fill_dict k s.incoming [])
    ∙ last_with-append k s.incoming s.outgoing none
