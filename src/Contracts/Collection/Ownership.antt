-- ===== src/Contracts/Collection/Ownership.antt =====
-- Who owns the tokens after the calls of the contract.
use file_market.Base.{
  ℕ, ◌≡◌, refl, ◌⊎◌, inl, inr, true, false, some, List, [], ◌==◌, ==_iff, Bool-cases, ap, sym,
}
use file_market.Base.Result.{Result, ok, err}
use file_market.Contracts.{Msg, has_any, Post}
use file_market.Contracts.Collection.{Bytes, TransferInfo, Log, Outside, Collection, Call, token_of}
use file_market.Contracts.Collection.Calls.{call, committed, transact}
use file_market.Contracts.Collection.Moves.{IsHanded, IsMove}
use file_market.Contracts.Collection.Moves.Close.{call-IsMove}
use file_market.Contracts.Collection.Status.{IsOrdered, Move-IsOrdered}
use mathlib.Core.Path.{subst}

-- A transfer in the ledger gives the token to its receiver, and moves no other token: what ERC721
-- says of `_safeTransfer`.
pub record IsLedger {L : Type 0} (o : Outside L) : Type 0 where
  pub taken :
      (l l' : L) (from to k : ℕ) (d : Bytes)
      → o.safe_transfer l from to k d ≡ some l'
      → o.owner_of l' k ≡ some to
  pub apart :
      (l l' : L) (from to k j : ℕ) (d : Bytes)
      → o.safe_transfer l from to k d ≡ some l'
      → (j == k) ≡ false
      → o.owner_of l' j ≡ o.owner_of l j

-- The transfers of all tokens are in order.
unfoldable pub AreOrdered : {L : Type 0} → Collection L → Type 0
AreOrdered c = (j : ℕ) → IsOrdered (c.transfers j)

-- The owner of `j` is as before, or is the receiver of its transfer, whose password was given.
unfoldable pub IsPaidFor : {L : Type 0} → Outside L → ℕ → Collection L → Collection L → Type 0
IsPaidFor o j c d =
    (o.owner_of d.ledger j ≡ o.owner_of c.ledger j)
    ⊎ ((o.owner_of d.ledger j ≡ some (c.transfers j).to)
        × (has_any (c.transfers j).encrypted_password ≡ true))

module _ {L : Type 0} (o : Outside L) where
  IsMove-AreOrdered :
      {w : ℕ} (k : ℕ) (c : Collection L) (r : Collection L × List Log)
      → AreOrdered c
      → IsMove o w k c r
      → AreOrdered r.0
  unfolding AreOrdered
  IsMove-AreOrdered k c r h s j = elim (Bool-cases (j == k)) [
    | inl p ↦
        subst (λ i. IsOrdered (r.0.transfers i)) (sym ((==_iff j k).0 p))
          (Move-IsOrdered s.moved (h k))
    | inr p ↦ subst IsOrdered (sym (s.others j p)) (h j)
  ]

  given-any :
      (i : TransferInfo)
      → IsOrdered i
      → (has_any i.encrypted_password ≡ true) ⊎ (i.fraud_reported ≡ true)
      → has_any i.encrypted_password ≡ true
  given-any i h (inl e) = e
  given-any i h (inr e) = h.given_before e

  IsHanded-IsPaidFor :
      (k j : ℕ) (c d : Collection L)
      → IsLedger o
      → AreOrdered c
      → IsHanded o k c d.ledger
      → IsPaidFor o j c d
  unfolding IsPaidFor AreOrdered
  IsHanded-IsPaidFor k j c d law h g = elim (Bool-cases (j == k)) [
    | inl p ↦ inr (
        subst
          (λ i.
            (o.owner_of d.ledger i ≡ some (c.transfers i).to)
            × (has_any (c.transfers i).encrypted_password ≡ true))
          (sym ((==_iff j k).0 p))
          (
            law.taken c.ledger d.ledger g.from (c.transfers k).to k (c.transfers k).data_ g.handed,
            given-any (c.transfers k) (h k) g.given,
          ))
    | inr p ↦
        inl (
          law.apart c.ledger d.ledger g.from (c.transfers k).to k j (c.transfers k).data_ g.handed
            p)
  ]

  IsMove-IsPaidFor :
      {w : ℕ} (k j : ℕ) (c : Collection L) (r : Collection L × List Log)
      → IsLedger o
      → AreOrdered c
      → IsMove o w k c r
      → IsPaidFor o j c r.0
  unfolding IsPaidFor
  IsMove-IsPaidFor k j c r law h s = elim s.in_ledger [
    | inl e ↦ inl (ap (λ l. o.owner_of l j) e)
    | inr g ↦ IsHanded-IsPaidFor k j c r.0 law h g
  ]

  -- What a transaction's call that ends makes true is true after the transaction, if it is true of
  -- a transaction that reverts.
  pub transact-by {ℓ} :
      (P : (Collection L × List Log) → Type ℓ) (m : Msg) (a : Call) (c : Collection L)
      → P (c, [])
      → ((r : Collection L × List Log) → IsMove o m.sender (token_of a) c r → P r)
      → P (transact o m a c)
  unfolding transact
  transact-by P m a c kept moved = go (call o m c a) (call-IsMove o m c a)
    where
      go :
          (r : Result (Collection L × List Log))
          → Post (IsMove o m.sender (token_of a) c) r
          → P (committed c r)
      go (ok r) s = moved r s
      go (err message) s = kept

  -- The transfers stay in order: a password only after a key, a report only after a password.
  pub transact-AreOrdered :
      (m : Msg) (a : Call) (c : Collection L) → AreOrdered c → AreOrdered (transact o m a c).0
  transact-AreOrdered m a c h =
      transact-by (λ r. AreOrdered r.0) m a c h (λ r s. IsMove-AreOrdered (token_of a) c r h s)

  -- Whoever sends whatever call, a token changes its owner only to the receiver of its transfer, and
  -- only after the password of its file has been given.
  pub transact-IsPaidFor :
      (m : Msg) (a : Call) (j : ℕ) (c : Collection L)
      → IsLedger o
      → AreOrdered c
      → IsPaidFor o j c (transact o m a c).0
  unfolding IsPaidFor
  transact-IsPaidFor m a j c law h =
      transact-by (λ r. IsPaidFor o j c r.0) m a c (inl refl)
        (λ r s. IsMove-IsPaidFor (token_of a) j c r law h s)
