-- ===== src/Memory/Laws.antt =====
-- What an access inside a buffer does, with the functions shut, and when two buffers agree.
use Prim.Native.Nat.{bit_or}
use taste_runtime_common.Common.{ℕ, zero, suc, ◌≤◌, ◌<◌, ◌≡◌, refl, arith, ltb, if◌then◌else◌}
use taste_runtime_common.Common.{List, [], ◌∷◌, length, drop}
use taste_runtime_common.Memory.{
  Result, ok, aborted, faulted, out_of_fuel, ◌>>=◌, Returns, Buffer, update, load, store, or_store,
  memset, read,
}

pub load_lem : (b : Buffer) (i : ℕ) → i < b.size → load b i ≡ ok (b.byte i)
unfolding load
load_lem b i h = ground arith

pub store_lem :
    (b : Buffer) (i v : ℕ) → i < b.size → store b i v ≡ ok (record b { byte = update b.byte i v })
unfolding store
store_lem b i v h = ground arith

pub or_store_lem :
    (b : Buffer) (i v : ℕ)
    → i < b.size
    → or_store b i v ≡ ok (record b { byte = update b.byte i (bit_or (b.byte i) v) })
unfolding or_store
or_store_lem b i v h = ground arith

pub memset_lem :
    (b : Buffer) (v n : ℕ)
    → n ≤ b.size
    → memset b v n ≡ ok (record b { byte = λ j. if ltb j n then v else b.byte j })
unfolding memset
memset_lem b v n h = ground arith

-- A read in range takes the first element of what is left of the list from there on.
pub read_lem :
    (xs : List ℕ) (i : ℕ)
    → i < length xs
    → (x : ℕ) × (read xs i ≡ ok x) × (drop i xs ≡ x ∷ drop (suc i) xs)
unfolding read
read_lem [] i h = absurd (omega arith)
read_lem (x ∷ xs) zero h = (x, refl, refl)
read_lem (x ∷ xs) (suc i) h = read_lem xs i (omega arith)

pub >>=-assoc {ℓ κ ι} :
    {A : Type ℓ} {B : Type κ} {C : Type ι} (m : Result A) (f : A → Result B) (g : B → Result C)
    → (m >>= f >>= g) ≡ (m >>= λ a. f a >>= g)
>>=-assoc (ok a) f g = refl
>>=-assoc aborted f g = refl
>>=-assoc faulted f g = refl
>>=-assoc out_of_fuel f g = refl

pub >>=-ok {ℓ} : {A : Type ℓ} (m : Result A) → (m >>= ok) ≡ m
>>=-ok (ok a) = refl
>>=-ok aborted = refl
>>=-ok faulted = refl
>>=-ok out_of_fuel = refl

-- What holds of the value of a first part goes over to the whole by way of the second.
pub Returns-bind {ℓ κ ι υ} :
    {A : Type ℓ} {B : Type κ} (P : A → Type ι) (Q : B → Type υ) (m : Result A) (f : A → Result B)
    → Returns P m
    → ((a : A) → P a → Returns Q (f a))
    → Returns Q (m >>= f)
Returns-bind P Q (ok a) f h k = k a h
Returns-bind P Q aborted f h k = elim h [ ]
Returns-bind P Q faulted f h k = elim h [ ]
Returns-bind P Q out_of_fuel f h k = elim h [ ]

pub Returns-of_eq {ℓ κ} :
    {A : Type ℓ} (P : A → Type κ) {m : Result A} {a : A} → m ≡ ok a → P a → Returns P m
Returns-of_eq P e p = rw e p

pub eq_of_Returns {ℓ κ} :
    {A : Type ℓ} (P : A → Type κ) (m : Result A) → Returns P m → (a : A) × (m ≡ ok a) × P a
eq_of_Returns P (ok a) h = (a, refl, h)
eq_of_Returns P aborted h = elim h [ ]
eq_of_Returns P faulted h = elim h [ ]
eq_of_Returns P out_of_fuel h = elim h [ ]

pub Returns-map {ℓ κ ι} :
    {A : Type ℓ} (P : A → Type κ) (Q : A → Type ι) (m : Result A)
    → ((a : A) → P a → Q a)
    → Returns P m
    → Returns Q m
Returns-map P Q (ok a) k h = k a h
Returns-map P Q aborted k h = elim h [ ]
Returns-map P Q faulted k h = elim h [ ]
Returns-map P Q out_of_fuel k h = elim h [ ]

pub Returns-and {ℓ κ ι} :
    {A : Type ℓ} (P : A → Type κ) (Q : A → Type ι) (m : Result A)
    → Returns P m
    → Returns Q m
    → Returns (λ a. P a × Q a) m
Returns-and P Q (ok a) p q = (p, q)
Returns-and P Q aborted p q = elim p [ ]
Returns-and P Q faulted p q = elim p [ ]
Returns-and P Q out_of_fuel p q = elim p [ ]
