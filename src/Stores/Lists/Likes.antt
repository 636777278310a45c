-- ===== src/Stores/Lists/Likes.antt =====
-- The numbers of likes.
use file_market.Base.{
  ℕ, zero, suc, ◌-◌, ◌≤◌, ◌<◌, ◌≡◌, refl, sym, ap, ◌∙◌, inl, inr, some, List, [], ◌∷◌, ◌++◌, arith,
  ltb, Bool-cases, or_else, ge_of_ltb, lt_of_ltb, length,
}
use file_market.Stores.Lists.{TwoPages, TokenEntry, like_nth, increase_transfer_like_count}

like_nth-front :
    (k : ℕ) (xs ys : List TokenEntry) → k < length xs → like_nth k (xs ++ ys) ≡ like_nth k xs ++ ys
like_nth-front k [] ys h = absurd (omega (arith, h))
like_nth-front zero (x ∷ xs) ys h = refl
like_nth-front (suc k) (x ∷ xs) ys h = ap (λ l. x ∷ l) (like_nth-front k xs ys (omega (arith, h)))

like_nth-back :
    (k : ℕ) (xs ys : List TokenEntry)
    → length xs ≤ k
    → like_nth k (xs ++ ys) ≡ xs ++ like_nth (k - length xs) ys
like_nth-back k [] ys h = ap (λ j. like_nth j ys) (omega arith)
like_nth-back zero (x ∷ xs) ys h = absurd (omega (arith, h))
like_nth-back (suc k) (x ∷ xs) ys h =
    ap (λ l. x ∷ l)
      (like_nth-back k xs ys (omega (arith, h)) ∙ ap (λ j. xs ++ like_nth j ys) (omega arith))

-- Where there are incoming and outgoing transfers, the likes of both lists, one after the other,
-- change at the index alone.
increase_transfer_like_count-nth :
    (k : ℕ) (xs ys : List TokenEntry) (d : TwoPages TokenEntry TokenEntry)
    → d.first_items ≡ some xs
    → d.second_items ≡ some ys
    → (or_else (increase_transfer_like_count k d).first_items []
        ++ or_else (increase_transfer_like_count k d).second_items [])
      ≡ like_nth k (xs ++ ys)
unfolding increase_transfer_like_count
increase_transfer_like_count-nth k xs ys d e f = elim (Bool-cases (ltb k (length xs))) [
  | inl p ↦ rw (e, f, p) (sym (like_nth-front k xs ys (lt_of_ltb k (length xs) p)))
  | inr p ↦ rw (e, f, p) (sym (like_nth-back k xs ys (ge_of_ltb k (length xs) p)))
]
