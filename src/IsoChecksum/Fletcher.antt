-- ===== src/IsoChecksum/Fletcher.antt =====
-- The loops of `fletcher16` against the plain sums: no sum of 32 bits wraps.
use native.Mathlib.Nat.{add-zero, add-suc}
use taste_runtime_common.Common.{
  ℕ, zero, suc, ◌+◌, ◌-◌, ◌*◌, ◌/◌, ◌%◌, ◌^◌, ◌≤◌, ◌<◌, ◌≡◌, refl, ap, arith,
}
use taste_runtime_common.Common.{ltb, if◌then◌else◌}
use taste_runtime_common.Common.{le_refl}
use taste_runtime_common.Words.Fields.{and_mask}
use taste_runtime_common.Memory.{Returns, Buffer}
use taste_runtime_common.Memory.Laws.{load_lem, Returns-bind}
use taste_runtime_common.IsoChecksum.{Sums, reduce, chunk_size, chunk_loop, fletcher_loop}

-- The sum of the first `n` bytes, and the sum of these sums.
unfoldable pub first : (ℕ → ℕ) → ℕ → ℕ
first f zero = 0
first f (suc n) = first f n + f n

unfoldable pub second : (ℕ → ℕ) → ℕ → ℕ
unfolding first
second f zero = 0
second f (suc n) = second f n + first f (suc n)

-- How much the second sum may grow over `d` bytes of a chunk.
unfoldable pub growth : ℕ → ℕ
growth zero = 0
growth (suc d) = growth d + 276 + 255 * suc d

growth_mono : (d e : ℕ) → growth d ≤ growth (d + e)
unfolding growth
growth_mono d zero = rw (add-zero d) (le_refl _)
growth_mono d (suc e) = rw (add-suc d e) (omega (arith, growth_mono d e))

growth-le : (d : ℕ) → d ≤ 20 → growth d ≤ 59070
unfolding growth
growth-le d h =
    let e : d + (20 - d) ≡ 20 = omega arith in
    let m : growth (d + (20 - d)) ≤ 59070 = rw e (omega arith) in
    omega (arith, growth_mono d (20 - d), m)

-- After `i` bytes, `d` of them in the chunk: the sums are the plain ones modulo 255, not zero, and
-- bounded.
pub record IsSums (b : Buffer) (d i : ℕ) (s : Sums) : Type 0 where
  pub it_is : s.it ≡ i
  pub sum1_mod : s.sum1 % 255 ≡ first b.byte i % 255
  pub sum2_mod : s.sum2 % 255 ≡ second b.byte i % 255
  pub sum1_pos : 1 ≤ s.sum1
  pub sum2_pos : 1 ≤ s.sum2
  pub sum1-le : s.sum1 ≤ 276 + 255 * d
  pub sum2-le : s.sum2 ≤ 510 + growth d

abbrev add_byte : ℕ → Sums → Sums
add_byte x s = record {
  it = s.it + 1;
  sum1 = (s.sum1 + x) % 2 ^ 32;
  sum2 = (s.sum2 + (s.sum1 + x) % 2 ^ 32) % 2 ^ 32;
}

add_byte-IsSums :
    (b : Buffer) (d i : ℕ) (s : Sums)
    → b.byte i < 256
    → d < 20
    → IsSums b d i s
    → IsSums b (suc d) (suc i) (add_byte (b.byte i) s)
unfolding growth first second
add_byte-IsSums b d i s below short is =
    let g : growth d ≤ 59070 = growth-le d (omega arith) in
    record {
      it_is = omega (arith, is.it_is);
      sum1_mod = omega (arith, is.sum1_mod, is.sum1-le);
      sum2_mod = omega (arith, is.sum1_mod, is.sum2_mod, is.sum1-le, is.sum2-le);
      sum1_pos = omega (arith, is.sum1_pos, is.sum1-le);
      sum2_pos = omega (arith, is.sum2_pos, is.sum1-le, is.sum2-le);
      sum1-le = omega (arith, is.sum1-le);
      sum2-le = omega (arith, is.sum1-le, is.sum2-le);
    }

chunk_loop-IsSums :
    (b : Buffer) (d i left d' i' : ℕ) (s : Sums)
    → ((j : ℕ) → b.byte j < 256)
    → i + left ≡ i'
    → i' ≤ b.size
    → d + left ≡ d'
    → d' ≤ 20
    → IsSums b d i s
    → Returns (IsSums b d' i') (chunk_loop b left s)
unfolding chunk_loop
chunk_loop-IsSums b d i zero d' i' s bytes to room end short is =
    let e : i' ≡ i = omega arith in let e' : d' ≡ d = omega arith in rw (e, e') is
chunk_loop-IsSums b d i (suc left) d' i' s bytes to room end short is =
    let same : b.byte s.it ≡ b.byte i = ap (λ j. b.byte j) is.it_is in
    rw (load_lem b s.it (omega (arith, is.it_is)), same)
      (chunk_loop-IsSums b (suc d) (suc i) left d' i' (add_byte (b.byte i) s) bytes (omega arith)
        room (omega arith) short (add_byte-IsSums b d i s (bytes i) (omega arith) is))

-- `REDUCE` is the sum of a number's lowest byte and the rest.
pub reduce_lem : (x : ℕ) → x < 2 ^ 32 → reduce x ≡ x % 256 + x / 256
reduce_lem x small = rw (and_mask 8 x) (omega arith)

reduced-IsSums :
    (b : Buffer) (d i : ℕ) (s : Sums)
    → d ≤ 20
    → IsSums b d i s
    → IsSums b 0 i (record s { sum1 = reduce s.sum1; sum2 = reduce s.sum2 })
unfolding growth
reduced-IsSums b d i s short is =
    let g : growth d ≤ 59070 = growth-le d short in
    let r₁ : reduce s.sum1 ≡ s.sum1 % 256 + s.sum1 / 256 =
      reduce_lem s.sum1 (omega (arith, is.sum1-le)) in
    let r₂ : reduce s.sum2 ≡ s.sum2 % 256 + s.sum2 / 256 =
      reduce_lem s.sum2 (omega (arith, is.sum2-le)) in
    record {
      it_is = is.it_is;
      sum1_mod = rw r₁ (omega (arith, is.sum1_mod));
      sum2_mod = rw r₂ (omega (arith, is.sum2_mod));
      sum1_pos = rw r₁ (omega (arith, is.sum1_pos));
      sum2_pos = rw r₂ (omega (arith, is.sum2_pos));
      sum1-le = rw r₁ (omega (arith, is.sum1-le));
      sum2-le = rw r₂ (omega (arith, is.sum2-le));
    }

-- The chunk of a round: at least one byte, at most twenty and at most all that are left.
chunk_range :
    (n : ℕ)
    → let chunk : ℕ = if ltb chunk_size (suc n) then chunk_size else suc n in
      (1 ≤ chunk) × (chunk ≤ 20) × (chunk ≤ suc n)
chunk_range n = ground arith

-- Fuel for as many rounds as there are bytes is enough.
pub fletcher_loop-IsSums :
    (fuel : ℕ) (b : Buffer) (n i i' : ℕ) (s : Sums)
    → ((j : ℕ) → b.byte j < 256)
    → n ≤ fuel
    → i + n ≡ i'
    → i' ≤ b.size
    → IsSums b 0 i s
    → Returns (IsSums b 0 i') (fletcher_loop fuel b n s)
unfolding fletcher_loop
fletcher_loop-IsSums fuel b zero i i' s bytes enough to room is =
    let e : i' ≡ i = omega arith in rw e is
fletcher_loop-IsSums zero b (suc n) i i' s bytes enough to room is = absurd (omega arith)
fletcher_loop-IsSums (suc fuel) b (suc n) i i' s bytes enough to room is =
    let chunk : ℕ = if ltb chunk_size (suc n) then chunk_size else suc n in
    let range : (1 ≤ chunk) × (chunk ≤ 20) × (chunk ≤ suc n) = chunk_range n in
    Returns-bind (IsSums b chunk (i + chunk)) (IsSums b 0 i') (chunk_loop b chunk s) _
      (chunk_loop-IsSums b 0 i chunk chunk (i + chunk) s bytes refl (omega (arith, range))
        (omega arith) (omega (arith, range)) is)
      λ r after.
        fletcher_loop-IsSums fuel b (suc n - chunk) (i + chunk) i' _ bytes (omega (arith, range))
          (omega (arith, range)) room
          (reduced-IsSums b chunk (i + chunk) r (omega (arith, range)) after)
