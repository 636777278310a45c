-- ===== src/Processing/Factories/Owners.antt =====
-- The registered processors, one call after another and interleaved.
use file_market.Base.{ℕ, String, ◌≡◌, refl, ◌≢◌, Option, none, some, [], ◌∷◌, str_eq_ne}
use file_market.Base.Dict.{lookup, insert, lookup-insert_self}
use file_market.Processing.Factories.{
  Processors, account_entry, Begun, begun, begin_get, finish_get,
}

finish-lookup :
    (account key : String) (made : ℕ) (b : Begun) (o : Option ℕ) (ps : Processors)
    → lookup key (account_entry (lookup account ps)) ≡ o
    → b ≡ begun o (account_entry (lookup account ps))
    → lookup key (account_entry (lookup account (finish_get account key made b ps).0))
      ≡ some (finish_get account key made b ps).1
unfolding finish_get
finish-lookup account key made b none ps e h =
    rw
      (
        h,
        lookup-insert_self account (insert key made (account_entry (lookup account ps))) ps,
        lookup-insert_self key made (account_entry (lookup account ps)),
      )
      refl
finish-lookup account key made b (some o) ps e h = rw (h, e) refl

-- A call that runs without another one in between registers what it returns: a later call for the
-- same account and token gets the same processor, whatever it would make.
get-again :
    (account key : String) (made other : ℕ) (ps : Processors)
    → finish_get account key other
        (begin_get account key (finish_get account key made (begin_get account key ps) ps).0)
        (finish_get account key made (begin_get account key ps) ps).0
      ≡ finish_get account key made (begin_get account key ps) ps
unfolding begin_get finish_get
get-again account key made other ps =
    rw
      (finish-lookup account key made (begin_get account key ps)
        (lookup key (account_entry (lookup account ps))) ps refl refl)
      refl

-- Of two calls for one account without entries that are both begun before one of them ends, the
-- first to end is not registered any more.
get-interleaved :
    (account key key' : String) (made made' : ℕ) (ps : Processors)
    → lookup account ps ≡ none
    → key' ≢ key
    → lookup key (
        account_entry (
          lookup account
            (finish_get account key' made'
              (begin_get account key' ps)
              (finish_get account key made (begin_get account key ps) ps).0).0))
      ≡ none
unfolding begin_get finish_get
get-interleaved account key key' made made' ps e ne =
    rw
      (
        e,
        lookup-insert_self account ((key', made') ∷ []) (insert account ((key, made) ∷ []) ps),
        str_eq_ne key' key ne,
      )
      refl
