-- ===== src/Contracts/Collection/Unpaid.antt =====
-- Lists of transactions in which the password of a token's file is not given.
use file_market.Base.{ℕ, Bool, false, ◌&&◌, ◌||◌, List, [], ◌∷◌, ◌++◌, ◌==◌}
use file_market.Contracts.{Msg}
use file_market.Contracts.Collection.{Log, log_password_set, Outside, Collection, Call}
use file_market.Contracts.Collection.Calls.{transact}
use file_market.Contracts.Collection.Burn.{burn_call, after_burn}

-- A transaction: one of the calls of the transfers, or a burn
pub data Sent : Type 0 where
  called : Call → Sent
  burning : ℕ → Sent

-- Transactions one after the other, with the events of the transfers
unfoldable pub transact_all :
    {L : Type 0}
    → Outside L
    → (burned : L → ℕ → L) → List (Msg × Sent)
    → Collection L
    → Collection L × List Log
transact_all o burned [] c = (c, [])
transact_all o burned ((m, called a) ∷ rest) c =
    let now = transact o m a c in
    let after = transact_all o burned rest now.0 in (after.0, now.1 ++ after.1)
transact_all o burned ((m, burning k) ∷ rest) c =
    transact_all o burned rest (after_burn c (burn_call o burned m k c))

-- The account `w` burns the token `j`.
abbrev pub burns : ℕ → ℕ → List (Msg × Sent) → Bool
burns w j [] = false
burns w j ((m, called a) ∷ rest) = burns w j rest
burns w j ((m, burning k) ∷ rest) = ((k == j) && (m.sender == w)) || burns w j rest

-- The password of the token's file is among the events.
abbrev pub gives_password : ℕ → Log → Bool
gives_password j (log_password_set k password) = j == k
gives_password j l = false

abbrev pub has_password : ℕ → List Log → Bool
has_password j [] = false
has_password j (l ∷ ls) = gives_password j l || has_password j ls
