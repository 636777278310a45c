-- ===== src/Contracts/Collection/Burn.antt =====
-- `burn` of FilemarketCollectionV2.sol.
use file_market.Base.{
  ℕ, ◌≡◌, refl, ap, ◌∙◌, sym, inl, inr, arith, false, ◌&&◌, some, ◌==◌, ==_iff, Bool-cases,
}
use mathlib.Core.Path.{subst}
use file_market.Base.Result.{Result, ok, err, ◌>>=◌}
use file_market.Contracts.{Msg, require, require-Post, bind-Post, Post-ok}
use file_market.Contracts.Collection.{Outside, Collection, owner_of_token}

-- `burn`; `burned` is the ledger after OpenZeppelin's `_burn`.
unfoldable pub burn_call :
    {L : Type 0} → Outside L → (L → ℕ → L) → Msg → ℕ → Collection L → Result (Collection L)
unfolding owner_of_token
burn_call o burned m k c = do
  from ← owner_of_token o m c k
  _ ← require (from == m.sender) "FilemarketCollectionV2: not an owner of token"
  ok (record c { ledger = burned c.ledger k })

pub burn_call-ledger :
    {L : Type 0} (o : Outside L) (burned : L → ℕ → L) (m : Msg) (k : ℕ) (c : Collection L)
    {d : Collection L}
    → burn_call o burned m k c ≡ ok d
    → d ≡ record c { ledger = burned c.ledger k }
unfolding burn_call
burn_call-ledger o burned m k c e =
    Post-ok (λ d. d ≡ record c { ledger = burned c.ledger k }) (burn_call o burned m k c) e
      (bind-Post _ (owner_of_token o m c k) _ (λ from _. require-Post _ _ _ _ (λ _. refl)))

-- A burn takes the token from its owner, and leaves the others: what ERC721 says of `_burn`.
pub record Burns {L : Type 0} (o : Outside L) (burned : L → ℕ → L) : Type 0 where
  pub others : (l : L) (k j : ℕ) → (k == j) ≡ false → o.owner_of (burned l k) j ≡ o.owner_of l j

-- The collection after the transaction, which leaves it as it is where it reverts
abbrev pub after_burn : {L : Type 0} → Collection L → Result (Collection L) → Collection L
after_burn c (ok d) = d
after_burn c (err message) = c

module _ {L : Type 0} (o : Outside L) (burned : L → ℕ → L) (m : Msg) (k : ℕ)
    (c : Collection L) where
  after_burn-by :
      (P : Collection L → Type 0)
      → P c
      → P (record c { ledger = burned c.ledger k })
      → P (after_burn c (burn_call o burned m k c))
  after_burn-by P kept done =
      go (burn_call o burned m k c) (λ d e. subst P (sym (burn_call-ledger o burned m k c e)) done)
    where
      go : (r : Result (Collection L)) → ((d : Collection L) → r ≡ ok d → P d) → P (after_burn c r)
      go (ok d) h = h d refl
      go (err message) h = kept

  pub after_burn-transfers :
      (j : ℕ) → (after_burn c (burn_call o burned m k c)).transfers j ≡ c.transfers j
  after_burn-transfers j = after_burn-by (λ d. d.transfers j ≡ c.transfers j) refl refl

  -- A token of the account `w` stays with it, unless that account burns the token.
  pub after_burn-owner :
      (w j : ℕ)
      → Burns o burned
      → o.owner_of c.ledger j ≡ some w
      → ((k == j) && (m.sender == w)) ≡ false
      → o.owner_of (after_burn c (burn_call o burned m k c)).ledger j ≡ some w
  unfolding burn_call owner_of_token require
  after_burn-owner w j law own other = elim (Bool-cases (k == j)) [
    | inl p ↦
        let mine : o.owner_of c.ledger k ≡ some w =
          ap (λ i. o.owner_of c.ledger i) ((==_iff k j).0 p) ∙ own in
        let refused : (w == m.sender) ≡ false = ground (arith, p, other) in rw (mine, refused) own
    | inr p ↦
        after_burn-by (λ d. o.owner_of d.ledger j ≡ some w) own (law.others c.ledger k j p ∙ own)
  ]
