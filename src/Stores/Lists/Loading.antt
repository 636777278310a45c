-- ===== src/Stores/Lists/Loading.antt =====
-- How the pages of a list add up.
use file_market.Base.{
  ℕ, zero, suc, ◌+◌, ◌*◌, ◌≤◌, ◌<◌, ◌≡◌, refl, sym, ap, ◌∙◌, inl, inr, Bool, true, false, All,
  Option, none, some, List, [], ◌∷◌, ◌++◌, arith, ltb, Bool-cases, ltb_of_ge, ltb_of_lt, ge_of_ltb,
  lt_of_ltb, length, take, drop, length-take,
}
use file_market.Stores.Lists.{
  last_item, PageData, no_data, set_page, add_page, has_more_data, key_of, last_key,
}
use file_market.Stores.Lists.Backend.{
  IsStrict, IsAscending, get_collection_tokens, get_collection_tokens-pages,
}

-- A backend with the list it holds and the limit of a page gives the first page, and the page after
-- the last of the first `k` items, with the total.
record PageLaws {A K : Type 0} (key : A → Option K) (all : List A) (limit : ℕ)
    (respond : Option K → PageData A) : Type 0 where
  pub pages :
      (k : ℕ)
      → (respond (key_of key (last_item (take k all)))).items ≡ some (take limit (drop k all))
  pub totals : (from : Option K) → (respond from).total ≡ some (length all)

take-none {ℓ} : {A : Type ℓ} (n : ℕ) → take {A = A} n [] ≡ []
take-none zero = refl
take-none (suc n) = refl

take-drop {ℓ} :
    {A : Type ℓ} (k n : ℕ) (xs : List A) → take k xs ++ take n (drop k xs) ≡ take (k + n) xs
take-drop zero n xs = ap (λ m. take m xs) (omega arith)
take-drop (suc k) n [] = take-none n ∙ sym (take-none (suc k + n))
take-drop (suc k) n (x ∷ xs) =
    ap (λ ys. x ∷ ys) (take-drop k n xs) ∙ ap (λ m. take m (x ∷ xs)) (suc_add k n)
  where
    suc_add : (k n : ℕ) → suc (k + n) ≡ suc k + n
    suc_add k n = omega arith

take-whole {ℓ} : {A : Type ℓ} (n : ℕ) (xs : List A) → length xs ≤ n → take n xs ≡ xs
take-whole zero [] h = refl
take-whole (suc n) [] h = refl
take-whole zero (x ∷ xs) h = absurd (omega (arith, h))
take-whole (suc n) (x ∷ xs) h = ap (λ ys. x ∷ ys) (take-whole n xs (omega (arith, h)))

module _ {A K : Type 0} (key : A → Option K) (all : List A) (limit : ℕ)
    (respond : Option K → PageData A) where
  -- The first request and `more` further ones, each answered before the next
  unfoldable pub load : ℕ → PageData A
  unfolding set_page add_page last_key
  load zero = set_page (respond none) no_data
  load (suc more) = let old = load more in add_page (respond (last_key key old)) old

  load-items :
      (laws : PageLaws key all limit respond) (more : ℕ)
      → ((load more).items ≡ some (take (limit * suc more) all))
        × ((load more).total ≡ some (length all))
  unfolding load set_page add_page last_key
  load-items laws zero =
      (laws.pages 0 ∙ ap (λ n. some (take n all)) (omega arith), laws.totals none)
  load-items laws (suc more) = (
    rw ((load-items laws more).0, laws.pages (limit * suc more))
        (ap some (take-drop (limit * suc more) limit all ∙ ap (λ n. take n all) (omega arith))),
    laws.totals (last_key key (load more)),
  )

  -- The pages add up to a prefix of the list of the backend, so long as there is more if and only if
  -- it is not the whole; and pages for the whole list make the whole.
  load-pages :
      (laws : PageLaws key all limit respond) (more : ℕ)
      → ((load more).items ≡ some (take (limit * suc more) all))
        × (has_more_data (load more) ≡ ltb (limit * suc more) (length all))
  unfolding has_more_data
  load-pages laws more = (
    (load-items laws more).0,
    rw ((load-items laws more).0, (load-items laws more).1) (ltb-length (limit * suc more) all),
  )
    where
      ltb-length : (n : ℕ) (xs : List A) → ltb (length (take n xs)) (length xs) ≡ ltb n (length xs)
      ltb-length n xs = elim (Bool-cases (ltb n (length xs))) [
        | inl p ↦ rw p (
            ltb_of_lt (length (take n xs)) (length xs)
              (omega (arith, length-take n xs, lt_of_ltb n (length xs) p)))
        | inr p ↦
            rw (p, take-whole n xs (ge_of_ltb n (length xs) p))
              (ltb_of_ge (length xs) (length xs) (omega arith))
      ]

  load_whole :
      (laws : PageLaws key all limit respond)
      → 0 < limit
      → ((load (length all)).items ≡ some all) × (has_more_data (load (length all)) ≡ false)
  load_whole laws positive = (
    (load-pages laws (length all)).0 ∙ ap some (take-whole (limit * suc (length all)) all enough),
    (load-pages laws (length all)).1 ∙ ltb_of_ge (limit * suc (length all)) (length all) enough,
  )
    where
      enough : length all ≤ limit * suc (length all)
      enough = grind (arith, positive)

-- With a positive limit and tokens of different ids, none of which is zero, in the order of the
-- backend: as many requests as there are tokens, each for the page after the last token that is
-- there, load all of them, in order, and then there is no more.
pub load_all :
    {A K : Type 0} (id : A → K) (less : K → K → Bool) (is_zero : K → Bool) (rows : List A)
    (limit : ℕ)
    → IsStrict less
    → IsAscending id less is_zero rows
    → All (λ a. is_zero (id a) ≡ false) rows
    → 0 < limit
    → ((load
          (λ a. some (id a))
          rows
          limit
          (get_collection_tokens id less is_zero rows limit)
          (length rows)).items
        ≡ some rows)
      × (has_more_data (
            load
              (λ a. some (id a))
              rows
              limit
              (get_collection_tokens id less is_zero rows limit)
              (length rows))
          ≡ false)
unfolding get_collection_tokens
load_all id less is_zero rows limit order sorted positive some_limit =
    load_whole (λ a. some (id a)) rows limit (get_collection_tokens id less is_zero rows limit)
      (record {
        pages = λ k. get_collection_tokens-pages id less is_zero order rows limit k sorted positive;
        totals = λ last. refl;
      })
      some_limit

-- A collection whose only token has the id zero: the second request gets it again.
load-again :
    {A K : Type 0} (id : A → K) (less : K → K → Bool) (is_zero : K → Bool) (a : A) (limit : ℕ)
    → is_zero (id a) ≡ true
    → 0 < limit
    → (load
        (λ a. some (id a))
        (a ∷ [])
        limit
        (get_collection_tokens id less is_zero (a ∷ []) limit)
        1).items
      ≡ some (a ∷ a ∷ [])
unfolding load set_page add_page last_key get_collection_tokens
load-again id less is_zero a zero z h = absurd (omega (arith, h))
load-again id less is_zero a (suc limit) z h =
    rw (take-none limit) (rw z (rw (take-none limit) refl))
