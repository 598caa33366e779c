-- ===== src/Memory/Partial.antt =====
-- What holds of the value of a call if it returns: of a step that was taken.
use mathlib.Core.Path.{subst}
use taste_runtime_common.Common.{◌≡◌}
use taste_runtime_common.Memory.{Result, ok, aborted, faulted, out_of_fuel, ◌>>=◌}

abbrev pub IfReturns {ℓ κ} : {A : Type ℓ} → (A → Type κ) → Result A → Type κ
IfReturns P (ok a) = P a
IfReturns P aborted = Unit
IfReturns P faulted = Unit
IfReturns P out_of_fuel = Unit

pub IfReturns-bind {ℓ κ ι υ} :
    {A : Type ℓ} {B : Type κ} (P : A → Type ι) (Q : B → Type υ) (m : Result A) (f : A → Result B)
    → IfReturns P m
    → ((a : A) → P a → IfReturns Q (f a))
    → IfReturns Q (m >>= f)
IfReturns-bind P Q (ok a) f h k = k a h
IfReturns-bind P Q aborted f h k = tt
IfReturns-bind P Q faulted f h k = tt
IfReturns-bind P Q out_of_fuel f h k = tt

pub IfReturns-map {ℓ κ ι} :
    {A : Type ℓ} (P : A → Type κ) (Q : A → Type ι) (m : Result A)
    → ((a : A) → P a → Q a)
    → IfReturns P m
    → IfReturns Q m
IfReturns-map P Q (ok a) k h = k a h
IfReturns-map P Q aborted k h = tt
IfReturns-map P Q faulted k h = tt
IfReturns-map P Q out_of_fuel k h = tt

-- Nothing is known of the first value.
pub IfReturns-any {ℓ κ υ} :
    {A : Type ℓ} {B : Type κ} (Q : B → Type υ) (m : Result A) (f : A → Result B)
    → ((a : A) → IfReturns Q (f a))
    → IfReturns Q (m >>= f)
IfReturns-any Q (ok a) f k = k a
IfReturns-any Q aborted f k = tt
IfReturns-any Q faulted f k = tt
IfReturns-any Q out_of_fuel f k = tt

pub IfReturns-of_eq {ℓ κ} :
    {A : Type ℓ} (P : A → Type κ) {m : Result A} {a : A} → m ≡ ok a → IfReturns P m → P a
IfReturns-of_eq P e h = subst (IfReturns P) e h

pub IfReturns-and {ℓ κ ι} :
    {A : Type ℓ} (P : A → Type κ) (Q : A → Type ι) (m : Result A)
    → IfReturns P m
    → IfReturns Q m
    → IfReturns (λ a. P a × Q a) m
IfReturns-and P Q (ok a) p q = (p, q)
IfReturns-and P Q aborted p q = tt
IfReturns-and P Q faulted p q = tt
IfReturns-and P Q out_of_fuel p q = tt
