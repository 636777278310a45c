-- ===== src/Processing/Factories.antt =====
-- StorageFactory/StorageFactory.ts, SeedProviderFactory/SeedProviderFactory.ts and
-- HiddenFileProcessorFactory/HiddenFileProcessorFactory.ts of
-- packages/frontend/src/app/processing. Objects and promises are known by numbers; what stands
-- between two awaits is one step. `getAddress` of viem is a parameter.
use file_market.Base.{ℕ, ◌+◌, String, Option, none, some, List, [], ◌∷◌, ◌++◌, length}
use file_market.Base.Dict.{Dict, lookup, insert}
use file_market.Base.Result.{Result, ok, ◌>>=◌}
pub mod Jobs
pub mod Owners

-- The state of a factory that creates an object for an account once: the objects, the jobs that
-- create them, by the number of the job, and the accounts of the jobs in the order of their start
pub record Factory : Type 0 where
  pub objects : Dict ℕ
  pub jobs : Dict ℕ
  pub started : List String

abbrev pub new_factory : Factory
new_factory = record { objects = []; jobs = []; started = [] }

-- What a call returns: an object that is there, or the promise of a job
pub data Answer : Type 0 where
  object : ℕ → Answer
  job : ℕ → Answer

abbrev pub answer_job : String → Option ℕ → Factory → Factory × Answer
answer_job account (some j) f = (f, job j)
answer_job account none f = (
  record f {
    jobs = insert account (length f.started) f.jobs;
    started = f.started ++ (account ∷ []);
  },
  job (length f.started),
)

abbrev pub answer_object : String → Option ℕ → Factory → Factory × Answer
answer_object account (some o) f = (f, object o)
answer_object account none f = answer_job account (lookup account f.jobs) f

-- `getSeedProvider` and `getStorages`, after `getAddress`
unfoldable pub get_object : String → Factory → Factory × Answer
get_object account f = answer_object account (lookup account f.objects) f

module _ (get_address : String → Result String) where
  unfoldable pub get_seed_provider : String → Factory → Result (Factory × Answer)
  unfolding get_object
  get_seed_provider account f = get_address account >>= λ a. ok (get_object a f)

-- The end of the job of an account, `createSeedProvider` or `createStorages`, that made `o`
unfoldable pub job_done : String → ℕ → Factory → Factory
job_done account o f = record f { objects = insert account o f.objects }

pub data FactoryEvent : Type 0 where
  get_call : String → FactoryEvent
  done : String → ℕ → FactoryEvent

unfoldable pub factory_step : FactoryEvent → Factory → Factory
unfolding get_object job_done
factory_step (get_call account) f = (get_object account f).0
factory_step (done account o) f = job_done account o f

unfoldable pub factory_run : List FactoryEvent → Factory → Factory
unfolding factory_step
factory_run [] f = f
factory_run (e ∷ es) f = factory_run es (factory_step e f)

-- `owners` or `buyers` of the factory of the hidden file processors: by account and by token key
abbrev pub Processors : Type 0
Processors = Dict (Dict ℕ)

abbrev pub account_entry : Option (Dict ℕ) → Dict ℕ
account_entry none = []
account_entry (some d) = d

-- `getOwner` up to its first await: what is there, or what the rest of it needs
pub data Begun : Type 0 where
  existing : ℕ → Begun
  waiting : Dict ℕ → Begun

abbrev pub begun : Option ℕ → Dict ℕ → Begun
begun none snapshot = waiting snapshot
begun (some o) snapshot = existing o

unfoldable pub begin_get : String → String → Processors → Begun
begin_get account key ps =
    begun (lookup key (account_entry (lookup account ps))) (account_entry (lookup account ps))

-- `getOwner` from there on, with the object that it makes
unfoldable pub finish_get : String → String → ℕ → Begun → Processors → Processors × ℕ
finish_get account key made (existing o) ps = (ps, o)
finish_get account key made (waiting snapshot) ps =
    (insert account (insert key made snapshot) ps, made)
