-- ===== src/Processing/Factories/Jobs.antt =====
-- How often a factory creates the object of an account.
use file_market.Base.{
  ℕ, suc, ◌≤◌, String, ◌≡◌, refl, sym, ap, ◌∙◌, inl, inr, true, false, Option, none, some, List, [],
  ◌∷◌, ◌++◌, arith, str_eq, eq_iff, if◌then◌else◌, Bool-cases, length,
}
use file_market.Base.Dict.{lookup, insert, lookup-insert_self, lookup-insert_ne}
use file_market.Processing.Factories.{
  Factory, answer_job, answer_object, get_object, job_done, FactoryEvent, get_call, done,
  factory_step, factory_run,
}

abbrev pub count_of : String → List String → ℕ
count_of a [] = 0
count_of a (b ∷ bs) = let rest = count_of a bs in if str_eq a b then suc rest else rest

-- An account has at most one job, and none if none is registered for it.
unfoldable pub IsOnce : Factory → Type 0
IsOnce f =
    (a : String) → (count_of a f.started ≤ 1) × (lookup a f.jobs ≡ none → count_of a f.started ≡ 0)

count_of-push :
    (a b : String) (bs : List String)
    → count_of a (bs ++ (b ∷ [])) ≡ (if str_eq a b then suc (count_of a bs) else count_of a bs)
count_of-push a b [] = refl
count_of-push a b (c ∷ bs) = ground (arith, count_of-push a b bs)

answer_job-IsOnce :
    (account : String) (j : Option ℕ) (f : Factory)
    → lookup account f.jobs ≡ j
    → IsOnce f
    → IsOnce (answer_job account j f).0
unfolding IsOnce
answer_job-IsOnce account (some j) f e h = h
answer_job-IsOnce account none f e h = λ a. elim (Bool-cases (str_eq a account)) [
  | inl p ↦ (
    omega (
      arith,
      pushed a p,
      (h account).1 e,
      ap (λ k. count_of k f.started) ((eq_iff a account).0 p),
    ),
    λ q. let there = found a p in cc,
  )
  | inr p ↦ (
    omega (arith, kept a p, (h a).0),
    λ q. omega (
      arith,
      kept a p,
      (h a).1 (
          sym (
            lookup-insert_ne account a (length f.started) f.jobs
              (λ r. let t = (eq_iff a account).1 (sym r) in cc))
          ∙ q),
    ),
  )
]
  where
    pushed :
        (a : String)
        → str_eq a account ≡ true
        → count_of a (f.started ++ (account ∷ [])) ≡ suc (count_of a f.started)
    pushed a p = count_of-push a account f.started ∙ rw p refl

    found :
        (a : String)
        → str_eq a account ≡ true
        → lookup a (insert account (length f.started) f.jobs) ≡ some (length f.started)
    found a p = rw ((eq_iff a account).0 p) (lookup-insert_self account (length f.started) f.jobs)

    kept :
        (a : String)
        → str_eq a account ≡ false
        → count_of a (f.started ++ (account ∷ [])) ≡ count_of a f.started
    kept a p = count_of-push a account f.started ∙ rw p refl

answer_object-IsOnce :
    (account : String) (o : Option ℕ) (f : Factory)
    → IsOnce f
    → IsOnce (answer_object account o f).0
answer_object-IsOnce account (some o) f h = h
answer_object-IsOnce account none f h = answer_job-IsOnce account (lookup account f.jobs) f refl h

-- Whatever calls come and whichever jobs end, no account has two jobs.
pub factory_run-IsOnce :
    (es : List FactoryEvent) (f : Factory) → IsOnce f → IsOnce (factory_run es f)
unfolding factory_run factory_step get_object job_done IsOnce
factory_run-IsOnce [] f h = h
factory_run-IsOnce (get_call account ∷ es) f h =
    factory_run-IsOnce es _ (answer_object-IsOnce account (lookup account f.objects) f h)
factory_run-IsOnce (done account o ∷ es) f h = factory_run-IsOnce es _ h
