-- ===== src/Base/Result.antt =====
-- A promise or a call, by how it ends: with a value, or with a thrown or rejected error.
use Prim.Native.String.{String}
use mathlib.Core.Path.{◌≡◌, refl}
use mathlib.Core.Bool.{Bool, true, false}
use file_market.Base.Tests.{if◌then◌else◌}
use mathlib.Core.Option.{Option, none, some}

pub data Result {ℓ} (T : Type ℓ) : Type ℓ where
  ok : T → Result T
  err : String → Result T

infixl 5 ◌>>=◌
abbrev pub ◌>>=◌ {ℓ κ} : {S : Type ℓ} {T : Type κ} → Result S → (S → Result T) → Result T
ok v >>= next = next v
err message >>= next = err message

-- A value that may be missing, and the error that its absence raises.
abbrev pub or_throw {ℓ} : {A : Type ℓ} → Option A → String → Result A
or_throw none e = err e
or_throw (some a) e = ok a

-- A chain that ends with a value: what its first step gave, and the rest from there.
pub >>=-eq-ok {ℓ κ} :
    {S : Type ℓ} {T : Type κ} (step : Result S) (next : S → Result T) {end : T}
    → (step >>= next) ≡ ok end
    → (mid : S) × (step ≡ ok mid) × (next mid ≡ ok end)
>>=-eq-ok (ok v) next e = (v, refl, e)
>>=-eq-ok (err message) next e = cc

pub if-eq-ok {ℓ} :
    {A : Type ℓ} (b : Bool) (x y : A) (e : String)
    → (if b then ok x else err e) ≡ ok y
    → (b ≡ true) × (x ≡ y)
if-eq-ok true x y e h = (refl, cc)
if-eq-ok false x y e h = cc
