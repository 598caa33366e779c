-- ===== src/Packetizer/Forgery.antt =====
-- The sender PID of a packet, which its CRC does not cover.
use taste_runtime_common.Common.{
  ℕ, ◌+◌, ◌-◌, ◌≤◌, ◌<◌, ◌≡◌, ◌≢◌, refl, sym, ap, ◌∙◌, arith, Bool, true, false, Bool-cases, inl,
  inr,
}
use taste_runtime_common.Common.{ltb}
use taste_runtime_common.Memory.{ok, Buffer, load}
use taste_runtime_common.Crc16.{calculate_crc16}
use taste_runtime_common.Crc16.Sum.{calculate_crc16_ext}
use taste_runtime_common.SpacePacket.{PacketType, Packetizer, Outputs}
use taste_runtime_common.Packetizer.{depacketize}
use taste_runtime_common.Packetizer.Verdict.{IsBytes, word_at, verdict}
use taste_runtime_common.Packetizer.Depacketize.{depacketize-eq-verdict}

-- The bytes of the sender PID are others, and nothing else.
pub record IsForged (size : ℕ) (b c : Buffer) : Type 0 where
  pub bytes : IsBytes c
  pub same_size : c.size ≡ b.size
  pub elsewhere : (j : ℕ) → j ≢ size - 4 → j ≢ size - 3 → c.byte j ≡ b.byte j

-- The same decision, with another source where the packet is accepted.
abbrev pub with_source : ℕ → Bool × Outputs → Bool × Outputs
with_source pid (true, o) = (true, record o { source = pid })
with_source pid (false, o) = (false, o)

-- The CRC covers what stands before the sender PID.
covered_sum :
    (b c : Buffer) (size : ℕ)
    → IsForged size b c
    → calculate_crc16 c (size - 4) ≡ calculate_crc16 b (size - 4)
unfolding load
covered_sum b c size forged = calculate_crc16_ext c b (size - 4) λ j below.
    let same : c.byte j ≡ b.byte j = forged.elsewhere j (λ e. omega arith) (λ e. omega arith) in
    rw (forged.same_size, same) refl

forged_verdict :
    (sum : ℕ) (t : PacketType) (b c : Buffer) (size : ℕ) (o : Outputs)
    → IsForged size b c
    → verdict sum t c.byte size o
      ≡ with_source (word_at c.byte (size - 4)) (verdict sum t b.byte size o)
forged_verdict sum t b c size o forged = elim (Bool-cases (ltb size 12)) [
  | inl short ↦ rw short refl
  | inr long ↦
      (let large : 12 ≤ size = ground arith in
        let same : (j : ℕ) → j < 8 → c.byte j ≡ b.byte j =
          λ j low. forged.elsewhere j (λ e. omega arith) (λ e. omega arith) in
        let crc_high : c.byte (size - 2) ≡ b.byte (size - 2) =
          forged.elsewhere (size - 2) (λ e. omega arith) (λ e. omega arith) in
        let crc_low : c.byte (size - 2 + 1) ≡ b.byte (size - 2 + 1) =
          forged.elsewhere (size - 2 + 1) (λ e. omega arith) (λ e. omega arith) in
        rw
          (
            same 0 (omega arith),
            same 1 (omega arith),
            same 4 (omega arith),
            same 5 (omega arith),
            same 6 (omega arith),
            same 7 (omega arith),
            crc_high,
            crc_low,
          )
          (ground arith))
]

-- A packet in a buffer of bytes, and one that differs from it in the two bytes of the sender PID
-- alone: Packetizer_depacketize returns for both, without an access out of bounds, and decides the
-- same with the same error code; where it accepts, destination, data offset and data size are the
-- same, and the source is the one of the packet at hand. size_t has 32 bits or more.
pub depacketize-of_forged :
    (size_mod : ℕ) (self : Packetizer) (t : PacketType) (b c : Buffer) (size bus : ℕ) (o : Outputs)
    → 4294967296 ≤ size_mod
    → IsBytes b
    → size ≤ b.size
    → b.size < size_mod
    → IsForged size b c
    → (r : Bool × Outputs) × (depacketize size_mod self t b size bus o ≡ ok r)
      × (depacketize size_mod self t c size bus o ≡ ok (with_source (word_at c.byte (size - 4)) r))
depacketize-of_forged size_mod self t b c size bus o wide bytes room fits forged =
    let (sum, sum_is, of_b) =
      depacketize-eq-verdict size_mod wide self t b size bus o bytes room fits in
    let (sum', sum_is', of_c) =
      depacketize-eq-verdict size_mod wide self t c size bus o forged.bytes
        (omega (arith, forged.same_size)) (omega (arith, forged.same_size)) in
    let covered = covered_sum b c size forged in
    let same_sum : sum ≡ sum' = cc in
    (
      verdict sum t b.byte size o,
      of_b,
      of_c
          ∙ ap (λ n. ok (verdict n t c.byte size o)) (sym same_sum)
          ∙ ap ok (forged_verdict sum t b c size o forged),
    )
