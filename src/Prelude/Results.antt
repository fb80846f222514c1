-- ===== src/Prelude/Results.antt =====
-- The outcome of a computation that can fail: `Result<T, E>` with `?` as bind.
use mathlib.Core.Path.{◌≡◌, refl, subst}
use mathlib.Core.Option.{Option, none, some}
use mathlib.Core.Logic.{◌⊎◌, inl, inr}
use mathlib.Core.Bool.{Bool, true, false}
use gas_analyzer.Prelude.Tests.{if◌then◌else◌}

pub data Result {ℓ κ} (E : Type κ) (A : Type ℓ) : Type (ℓ ⊔ κ) where
  ok : A → Result E A
  err : E → Result E A

infixl 5 ◌>>=◌ ◌>>◌
abbrev pub ◌>>=◌ {ℓ κ μ} :
    {E : Type μ} {A : Type ℓ} {B : Type κ} → Result E A → (A → Result E B) → Result E B
ok a >>= f = f a
err e >>= f = err e

abbrev pub ◌>>◌ {ℓ κ} : {E : Type κ} {B : Type ℓ} → Result E (Unit {0}) → Result E B → Result E B
m >> k = m >>= λ _. k

-- `ok_or`, and `expect` where the error stands for a panic.
abbrev pub ok_or {ℓ κ} : {E : Type κ} {A : Type ℓ} → Option A → E → Result E A
ok_or (some a) e = ok a
ok_or none e = err e

-- `if bad { bail!(e) }`
abbrev pub refuse_if {κ} : {E : Type κ} → Bool → E → Result E (Unit {0})
refuse_if true e = err e
refuse_if false e = ok tt

pub >>=-eq-ok {ℓ κ μ} :
    {E : Type μ} {A : Type ℓ} {B : Type κ} (first : Result E A) (next : A → Result E B) {final : B}
    → (first >>= next) ≡ ok final
    → (between : A) × (first ≡ ok between) × (next between ≡ ok final)
>>=-eq-ok (ok between) next h = (between, refl, h)
>>=-eq-ok (err e) next h = cc

pub Result-cases {ℓ κ} :
    {E : Type κ} {A : Type ℓ} (m : Result E A) → ((a : A) × (m ≡ ok a)) ⊎ ((e : E) × (m ≡ err e))
Result-cases (ok a) = inl (a, refl)
Result-cases (err e) = inr (e, refl)

pub ok-injective {ℓ κ} :
    {E : Type κ} {A : Type ℓ} {a b : A} → ◌≡◌ {A = Result E A} (ok a) (ok b) → a ≡ b
ok-injective h = cc

-- A predicate on what a computation gives, if it gives something.
abbrev pub IfOk {ℓ κ μ} : {E : Type κ} {A : Type ℓ} → (A → Type μ) → Result E A → Type μ
IfOk P (ok a) = P a
IfOk P (err e) = Unit

pub IfOk-bind {ℓ κ μ ν ξ} :
    {E : Type κ} {A : Type ℓ} {B : Type ν} (P : A → Type μ) (Q : B → Type ξ) (m : Result E A)
    (next : A → Result E B)
    → IfOk P m
    → ((a : A) → P a → IfOk Q (next a))
    → IfOk Q (m >>= next)
IfOk-bind P Q (ok a) next h k = k a h
IfOk-bind P Q (err e) next h k = tt

-- A step of which only its success is used.
pub IfOk-after {ℓ κ ν ξ} :
    {E : Type κ} {A : Type ℓ} {B : Type ν} (Q : B → Type ξ) (m : Result E A) (next : A → Result E B)
    → ((a : A) → m ≡ ok a → IfOk Q (next a))
    → IfOk Q (m >>= next)
IfOk-after Q (ok a) next k = k a refl
IfOk-after Q (err e) next k = tt

pub IfOk-ok {ℓ κ μ} :
    {E : Type κ} {A : Type ℓ} (P : A → Type μ) (m : Result E A) {a : A} → IfOk P m → m ≡ ok a → P a
IfOk-ok P (ok b) h e = subst P (ok-injective e) h
IfOk-ok P (err b) h e = cc

pub IfOk-mono {ℓ κ μ ν} :
    {E : Type κ} {A : Type ℓ} (P : A → Type μ) (Q : A → Type ν) (m : Result E A)
    → ((a : A) → P a → Q a)
    → IfOk P m
    → IfOk Q m
IfOk-mono P Q (ok a) k h = k a h
IfOk-mono P Q (err e) k h = tt

pub ok_or-ok {ℓ κ} :
    {E : Type κ} {A : Type ℓ} (o : Option A) (e : E) {a : A} → ok_or o e ≡ ok a → o ≡ some a
ok_or-ok none e h = cc
ok_or-ok (some a) e h = cc

pub IfOk-if {ℓ κ μ} :
    {E : Type κ} {A : Type ℓ} (P : A → Type μ) (b : Bool) (m m' : Result E A)
    → (b ≡ true → IfOk P m)
    → (b ≡ false → IfOk P m')
    → IfOk P (if b then m else m')
IfOk-if P true m m' h k = h refl
IfOk-if P false m m' h k = k refl

pub IfOk-refuse_if {ℓ κ ν} :
    {E : Type κ} {B : Type ℓ} (Q : B → Type ν) (b : Bool) (e : E) (m : Result E B)
    → (b ≡ false → IfOk Q m)
    → IfOk Q (refuse_if b e >> m)
IfOk-refuse_if Q true e m k = tt
IfOk-refuse_if Q false e m k = k refl
