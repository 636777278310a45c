-- ===== src/Tests/Listing.antt =====
-- A backend with three items, a page of two, and a configuration of two chains.
use file_market.Base.{ℕ, ◌≡◌, refl, true, false, Option, some, List, [], ◌∷◌, arith, ◌==◌, ltb}
use file_market.Stores.Lists.{PageData, has_more_data, TwoPages, TokenEntry}
use file_market.Stores.Lists.Backend.{IsStrict, get_collection_tokens}
use file_market.Stores.Lists.Loading.{load, load_all}

-- The tokens 2, 3 and 10, by the order of numbers here
abbrev three : List ℕ
three = 2 ∷ 3 ∷ 10 ∷ []

ltb-IsStrict : IsStrict ltb
ltb-IsStrict = record { irreflexive = λ a. ground arith; asymmetric = λ a b h. ground (arith, h) }

abbrev three_pages : Option ℕ → PageData ℕ
three_pages = get_collection_tokens (λ a. a) ltb (λ a. a == 0) three 2

load_all_example :
    ((load (λ a. some a) three 2 three_pages 3).items ≡ some three)
    × (has_more_data (load (λ a. some a) three 2 three_pages 3) ≡ false)
load_all_example =
    load_all (λ a. a) ltb (λ a. a == 0) three 2 ltb-IsStrict
      ((refl, (refl, tt)), ((refl, tt), (tt, tt))) (refl, (refl, (refl, tt))) (omega arith)

abbrev entry : ℕ → TokenEntry
entry n = record { has_token = true; like_count = some n }

abbrev both : TwoPages TokenEntry TokenEntry
both = record {
  first_items = some (entry 1 ∷ []);
  first_total = some 1;
  second_items = some (entry 2 ∷ []);
  second_total = some 1;
}
