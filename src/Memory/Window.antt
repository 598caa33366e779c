-- ===== src/Memory/Window.antt =====
-- The bytes of a part of a buffer as a list.
use native.Mathlib.Decide.{ℕ_discrete}
use taste_runtime_common.Common.{ℕ, zero, suc, ◌+◌, ◌≤◌, ◌<◌, ◌≡◌, refl, ap, ap₂, sym, ◌∙◌, arith}
use taste_runtime_common.Common.{[], ◌∷◌, ◌++◌, length}
use native.Mathlib.Nat.{zero-add, add-zero, suc-add}
use native.Mathlib.Numerals.{add-one}
use taste_runtime_common.Memory.{update, window}

pub length-window : (f : ℕ → ℕ) (i n : ℕ) → length (window f i n) ≡ n
length-window f i zero = refl
length-window f i (suc n) = ap suc (length-window f (i + 1) n)

-- Two buffers that agree on the part hold the same bytes there.
pub window_ext :
    (f g : ℕ → ℕ) (i n : ℕ)
    → ((j : ℕ) → i ≤ j → j < i + n → f j ≡ g j)
    → window f i n ≡ window g i n
window_ext f g i zero h = refl
window_ext f g i (suc n) h =
    ap₂ ◌∷◌ (h i (omega arith) (omega arith))
      (window_ext f g (i + 1) n (λ j p q. h j (omega arith) (omega arith)))

-- A write just behind the part extends it by the byte written.
pub window-update :
    (f : ℕ → ℕ) (i n j v : ℕ) → j ≡ i + n → window (update f j v) i (suc n) ≡ window f i n ++ v ∷ []
window-update f i zero j v e = ap (λ t. t ∷ []) (ground arith)
window-update f i (suc n) j v e =
    ap₂ ◌∷◌ (ground arith) (window-update f (i + 1) n j v (omega arith))

-- A part of a part.
pub window-add :
    (f : ℕ → ℕ) (i m n k : ℕ) → k ≡ i + m → window f i (m + n) ≡ window f i m ++ window f k n
window-add f i zero n k e = rw (zero-add, e, add-zero)
window-add f i (suc m) n k e =
    rw suc-add (ap (λ t. f i ∷ t) (window-add f (i + 1) m n k (omega arith)))

-- The same for a buffer that is filled from its start.
pub window_snoc : (f : ℕ → ℕ) (n v : ℕ) → window (update f n v) 0 (n + 1) ≡ window f 0 n ++ v ∷ []
window_snoc f n v = rw add-one (window-update f 0 n n v (omega arith))

-- The bytes of a part are determined by its list.
pub byte_of_window :
    (f g : ℕ → ℕ) (i n j : ℕ) → window f i n ≡ window g i n → i ≤ j → j < i + n → f j ≡ g j
byte_of_window f g i zero j same lo hi = absurd (omega arith)
byte_of_window f g i (suc n) j same lo hi = elim (ℕ_discrete i j) [
  | yes e ↦ (let head : f i ≡ g i = cc in rw (sym e) head)
  | no apart ↦
      (let tail : window f (i + 1) n ≡ window g (i + 1) n = cc in
        byte_of_window f g (i + 1) n j tail (omega arith) (omega arith))
]

-- Parts at two places that hold the same bytes.
pub window_shift :
    (f g : ℕ → ℕ) (i k n : ℕ)
    → ((j : ℕ) → j < n → f (i + j) ≡ g (k + j))
    → window f i n ≡ window g k n
window_shift f g i k zero h = refl
window_shift f g i k (suc n) h =
    let e₀ : i ≡ i + 0 = omega arith in
    let e₁ : k + 0 ≡ k = omega arith in
    ap₂ ◌∷◌ (ap f e₀ ∙ h 0 (omega arith) ∙ ap g e₁) (
      window_shift f g (i + 1) (k + 1) n λ j p.
        let e : i + 1 + j ≡ i + (1 + j) = omega arith in
        let e' : k + 1 + j ≡ k + (1 + j) = omega arith in rw (e, e') (h (1 + j) (omega arith)))
