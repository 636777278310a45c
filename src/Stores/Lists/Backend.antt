-- ===== src/Stores/Lists/Backend.antt =====
-- `GetCollectionTokens` and `GetCollectionTokensTotal` of indexer/internal/repository/tokens.go: the
-- pages of the tokens of a collection, by the text order of their ids. A row is any type with an
-- id; the rows are those that the conditions on the collection let through.
use mathlib.Core.Path.{subst}
use file_market.Base.{
  ℕ, zero, suc, ◌≡◌, refl, sym, ap, Bool, true, false, Option, none, some, List, [], ◌∷◌,
  if◌then◌else◌, All, length, take, drop, keep,
}
use file_market.Stores.Lists.{last_item, PageData, key_of}

-- The order of the texts of ids
pub record IsStrict {K : Type 0} (less : K → K → Bool) : Type 0 where
  pub irreflexive : (a : K) → less a a ≡ false
  pub asymmetric : (a b : K) → less a b ≡ true → less b a ≡ false

some-inj : {A : Type 0} {a b : A} → some a ≡ some b → a ≡ b
some-inj e = cc

module _ {A K : Type 0} (id : A → K) (less : K → K → Bool) (is_zero : K → Bool) where
  -- The rows with a larger id than the last; an id of zero is taken for no id.
  abbrev pub rows_after : Option K → List A → List A
  rows_after none rows = rows
  rows_after (some last) rows = if is_zero last then rows else keep (λ a. less last (id a)) rows

  unfoldable pub get_collection_tokens : List A → (limit : ℕ) → Option K → PageData A
  get_collection_tokens rows limit last = record {
    items = some (take limit (rows_after last rows));
    total = some (length rows);
  }

  -- Each id is less than the later ones.
  abbrev pub IsAscending : List A → Type 0
  IsAscending [] = Unit
  IsAscending (a ∷ rows) = All (λ b. less (id a) (id b) ≡ true) rows × IsAscending rows

  keep-all :
      (a : A) (rows : List A)
      → All (λ b. less (id a) (id b) ≡ true) rows
      → keep (λ b. less (id a) (id b)) rows ≡ rows
  keep-all a [] h = refl
  keep-all a (b ∷ rows) h = rw (h.0, keep-all a rows h.1) refl

  last_of :
      (P : A → Type 0) (k : ℕ) (rows : List A) {x : A}
      → All P rows
      → last_item (take k rows) ≡ some x
      → P x
  last_of P zero rows h e = cc
  last_of P (suc k) [] h e = cc
  last_of P (suc zero) (a ∷ rows) h e = subst P (some-inj e) h.0
  last_of P (suc (suc k)) (a ∷ []) h e = subst P (some-inj e) h.0
  last_of P (suc (suc k)) (a ∷ b ∷ rows) h e = last_of P (suc k) (b ∷ rows) h.1 e

  module _ (order : IsStrict less) where
    keep_last :
        (a : A) (rows : List A)
        → IsAscending (a ∷ rows)
        → keep (λ b. less (id a) (id b)) (a ∷ rows) ≡ rows
    keep_last a rows h = rw (order.irreflexive (id a)) (keep-all a rows h.0)

    kept :
        (k : ℕ) (rows : List A) {x : A}
        → IsAscending rows
        → last_item (take k rows) ≡ some x
        → keep (λ b. less (id x) (id b)) rows ≡ drop k rows
    kept zero rows h e = cc
    kept (suc k) [] h e = refl
    kept (suc zero) (a ∷ rows) h e =
        subst (λ y. keep (λ b. less (id y) (id b)) (a ∷ rows) ≡ rows) (some-inj e)
          (keep_last a rows h)
    kept (suc (suc k)) (a ∷ []) h e =
        subst (λ y. keep (λ b. less (id y) (id b)) (a ∷ []) ≡ []) (some-inj e) (keep_last a [] h)
    kept (suc (suc k)) (a ∷ b ∷ rows) {x} h e =
        rw
          (order.asymmetric (id a) (id x)
            (last_of (λ b. less (id a) (id b) ≡ true) (suc k) (b ∷ rows) h.0 e))
          (kept (suc k) (b ∷ rows) h.1 e)

    no_last : (k : ℕ) (b : A) (rows : List A) → last_item (take (suc k) (b ∷ rows)) ≡ none → ⊥
    no_last zero b rows e = cc
    no_last (suc k) b [] e = cc
    no_last (suc k) b (c ∷ rows) e = no_last k c rows e

    keep_whole : (k : ℕ) (rows : List A) → last_item (take k rows) ≡ none → drop k rows ≡ rows
    keep_whole zero rows e = refl
    keep_whole (suc k) [] e = refl
    keep_whole (suc zero) (a ∷ rows) e = cc
    keep_whole (suc (suc k)) (a ∷ []) e = cc
    keep_whole (suc (suc k)) (a ∷ b ∷ rows) e = absurd (no_last k b rows e)

    -- Where no row has the id zero, the page after the last of the first `k` rows is the next one.
    pub get_collection_tokens-pages :
        (rows : List A) (limit k : ℕ)
        → IsAscending rows
        → All (λ a. is_zero (id a) ≡ false) rows
        → (get_collection_tokens rows limit
            (key_of (λ a. some (id a)) (last_item (take k rows)))).items
          ≡ some (take limit (drop k rows))
    unfolding get_collection_tokens
    get_collection_tokens-pages rows limit k sorted positive = go (last_item (take k rows)) refl
      where
        go :
            (o : Option A)
            → last_item (take k rows) ≡ o
            → some (take limit (rows_after (key_of (λ a. some (id a)) o) rows))
              ≡ some (take limit (drop k rows))
        go none e = ap (λ r. some (take limit r)) (sym (keep_whole k rows e))
        go (some x) e =
            rw (last_of (λ a. is_zero (id a) ≡ false) k rows positive e)
              (ap (λ r. some (take limit r)) (kept k rows sorted e))
