-- ===== src/Hooks/Status.antt =====
-- What a call wrapped by useStatusState leaves.
use file_market.Base.{
  ◌≡◌, refl, arith, inl, inr, Bool-cases, Bool, true, false, not, ◌&&◌, none, is_some,
}
use file_market.Hooks.{StatusState, Ending, returned, thrown, wrap_start, wrap_end}

-- One of two tests holds, not both.
abbrev pub one_of : Bool → Bool → Bool
one_of true b = not b
one_of false b = b

-- The state that a call begins with
abbrev loading : {R : Type 0} → StatusState R → StatusState R
loading s = record s { is_loading = true; error = none; result = none }

module _ {R : Type 0} (is_connected is_not_need_auth : Bool) where
  -- A wrapped call that is made shows as loading, with neither a result nor an error, and once it
  -- ends as not loading, with one of the two; without a connection that it needs it is not made.
  wrap-shows :
      (s : StatusState R) (e : Ending R)
      → (wrap_start is_connected is_not_need_auth s).1 ≡ true
      → ((wrap_start is_connected is_not_need_auth s).0.is_loading ≡ true)
        × (is_some (wrap_start is_connected is_not_need_auth s).0.result ≡ false)
        × (is_some (wrap_start is_connected is_not_need_auth s).0.error ≡ false)
        × ((wrap_end is_connected is_not_need_auth e
              (wrap_start is_connected is_not_need_auth s).0).is_loading
            ≡ false)
        × (one_of
              (is_some
                (wrap_end is_connected is_not_need_auth e
                  (wrap_start is_connected is_not_need_auth s).0).result)
              (is_some
                (wrap_end is_connected is_not_need_auth e
                  (wrap_start is_connected is_not_need_auth s).0).error)
            ≡ true)
  unfolding wrap_start wrap_end
  wrap-shows s e h = elim (Bool-cases (not is_connected && not is_not_need_auth)) [
    | inl p ↦ absurd (never p)
    | inr p ↦ rw p (ended e)
  ]
    where
      never : (not is_connected && not is_not_need_auth) ≡ true → ⊥
      never p = ground (arith, h, p)

      ended :
          (e : Ending R)
          → (true ≡ true)
            × (false ≡ false)
            × (false ≡ false)
            × ((wrap_end is_connected is_not_need_auth e (loading s)).is_loading ≡ false)
            × (one_of
                  (is_some (wrap_end is_connected is_not_need_auth e (loading s)).result)
                  (is_some (wrap_end is_connected is_not_need_auth e (loading s)).error)
                ≡ true)
      ended (returned r) = (refl, refl, refl, refl, refl)
      ended (thrown t) = (refl, refl, refl, refl, refl)
