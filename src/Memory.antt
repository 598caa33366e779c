-- ===== src/Memory.antt =====
-- Byte buffers reached through a `uint8_t*`, and the outcomes of a call.
-- A buffer knows how many bytes the caller owns: an access outside them, which C leaves undefined,
-- is `faulted`. A failed `assert` and a call of `abort` are `aborted`.
-- A loop that is run on fuel may also be `out_of_fuel`; each such loop has a theorem that excludes it.
pub mod Laws
pub mod Window
pub mod Partial
use Prim.Native.Nat.{bit_or}
use taste_runtime_common.Common.{ℕ, zero, suc, ◌+◌, Bool, true, false, Option, none, some}
use taste_runtime_common.Common.{List, [], ◌∷◌, ltb, leb, ◌==◌, if◌then◌else◌}

pub data Result {ℓ} (A : Type ℓ) : Type ℓ where
  ok : A → Result A
  aborted faulted out_of_fuel : Result A

infixl 5 ◌>>=◌ ◌>>◌
-- The rest of the function runs after a call that returned.
abbrev pub ◌>>=◌ {ℓ κ} : {A : Type ℓ} {B : Type κ} → Result A → (A → Result B) → Result B
aborted >>= rest = aborted
faulted >>= rest = faulted
out_of_fuel >>= rest = out_of_fuel
ok value >>= rest = rest value

abbrev pub ◌>>◌ {ℓ} : {B : Type ℓ} → Result (Unit {0}) → Result B → Result B
call >> rest = call >>= λ done. rest

-- `assert(condition)`
abbrev pub check : Bool → Result (Unit {0})
check true = ok tt
check false = aborted

-- No value, at every level.
pub data Never {ℓ} : Type ℓ where

-- The call returns, with a value of which `P` holds.
abbrev pub Returns {ℓ κ} : {A : Type ℓ} → (A → Type κ) → Result A → Type κ
Returns P (ok a) = P a
Returns P aborted = Never
Returns P faulted = Never
Returns P out_of_fuel = Never

-- The bytes from the pointer on, and how many of them belong to the object it points into.
pub record Buffer : Type 0 where
  pub size : ℕ
  pub byte : ℕ → ℕ

abbrev pub update : (ℕ → ℕ) → ℕ → ℕ → ℕ → ℕ
update f i v j = if i == j then v else f j

-- `packet[i]`, read
unfoldable pub load : Buffer → ℕ → Result ℕ
load b i = if ltb i b.size then ok (b.byte i) else faulted

-- `packet[i] = v`
unfoldable pub store : Buffer → ℕ → ℕ → Result Buffer
store b i v = if ltb i b.size then ok (record b { byte = update b.byte i v }) else faulted

-- `packet[i] |= v`
unfoldable pub or_store : Buffer → ℕ → ℕ → Result Buffer
unfolding load store
or_store b i v = do x ← load b i; store b i (bit_or x v)

-- `memset(packet, v, n)`
unfoldable pub memset : Buffer → ℕ → ℕ → Result Buffer
memset b v n =
    if leb n b.size then ok (record b { byte = λ j. if ltb j n then v else b.byte j }) else faulted

-- A read of a `const` array that is given as a list.
unfoldable pub read {ℓ} : {A : Type ℓ} → List A → ℕ → Result A
read [] i = faulted
read (x ∷ xs) zero = ok x
read (x ∷ xs) (suc i) = read xs i

-- The `n` bytes from index `i` on.
abbrev pub window : (ℕ → ℕ) → ℕ → ℕ → List ℕ
window f i zero = []
window f i (suc n) = f i ∷ window f (i + 1) n
