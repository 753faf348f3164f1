-- ===== src/Base/Results.antt =====
-- `Result`, with the constructors and the chaining of the `?` operator.
use mathlib.Core.Bool.{Bool, true, false}
use mathlib.Core.Path.{◌≡◌, refl}
use mathlib.Core.Option.{Option, none, some}

pub data Result {ℓ κ} (A : Type ℓ) (E : Type κ) : Type (ℓ ⊔ κ) where
  ok : A → Result A E
  err : E → Result A E

infixl 5 ◌>>=◌ ◌>>◌
abbrev pub ◌>>=◌ {ℓ κ μ} :
    {A : Type ℓ} {B : Type κ} {E : Type μ} → Result A E → (A → Result B E) → Result B E
ok a >>= f = f a
err e >>= f = err e

abbrev pub ◌>>◌ {ℓ μ} : {B : Type ℓ} {E : Type μ} → Result (Unit {0}) E → Result B E → Result B E
m >> k = m >>= λ _. k

-- `anyhow::ensure!`, or `bail!` under the opposite test.
abbrev pub ensure {μ} : {E : Type μ} → Bool → E → Result (Unit {0}) E
ensure true e = ok tt
ensure false e = err e

-- `context`, and `ok_or`.
abbrev pub or_err {ℓ μ} : {A : Type ℓ} {E : Type μ} → Option A → E → Result A E
or_err none e = err e
or_err (some a) e = ok a

-- A chain succeeds only if its first step does.
pub >>-eq-ok {ℓ μ} :
    {B : Type ℓ} {E : Type μ} (m : Result (Unit {0}) E) (k : Result B E) {b : B}
    → (m >> k) ≡ ok b
    → (m ≡ ok tt) × (k ≡ ok b)
>>-eq-ok (ok u) k h = (refl, h)
>>-eq-ok (err e) k h = absurd (cc)
