-- ===== src/Packetizer/Detection.antt =====
-- Transmission errors in a packet that `Packetizer_depacketize` accepts.
use mathlib.Core.Path.{subst}
use taste_runtime_common.Common.{
  ℕ, ◌+◌, ◌-◌, ◌≤◌, ◌<◌, ◌≡◌, ◌≢◌, refl, ap, ◌∙◌, ◌⊎◌, inl, inr, sym, arith,
}
use taste_runtime_common.Common.{Bool, true, false, Bool-cases, ltb, ◌==◌, ne→==}
use taste_runtime_common.Memory.{ok, Returns, Buffer, window}
use taste_runtime_common.Memory.Laws.{Returns-of_eq}
use taste_runtime_common.Memory.Window.{window_ext}
use taste_runtime_common.Crc16.{calculate_crc16}
use taste_runtime_common.Crc16.Division.{remainder, calculate_crc16-eq-remainder}
use taste_runtime_common.Crc16.Detection.{AgreeBut, same_of_remainder}
use taste_runtime_common.SpacePacket.{
  PacketType, Packetizer, Outputs, set_error, incorrect_crc16, incorrect_packet_size,
}
use taste_runtime_common.Packetizer.{depacketize}
use taste_runtime_common.Packetizer.Verdict.{IsBytes, word_at, received_size, verdict}
use taste_runtime_common.Packetizer.Depacketize.{depacketize-eq-verdict}
use taste_runtime_common.Packetizer.Outcome.{IsAccepted, Outcome, depacketize-Outcome}

-- What arrives of a packet: bytes `j` and `j + 1` of header and data, or the two of the CRC, are
-- changed, both or one of them.
pub record IsCorrupted (size j : ℕ) (b c : Buffer) : Type 0 where
  pub bytes : IsBytes c
  pub same_size : c.size ≡ b.size
  pub elsewhere : AgreeBut j b.byte c.byte
  pub changed : (b.byte j ≢ c.byte j) ⊎ (b.byte (j + 1) ≢ c.byte (j + 1))
  pub place : (j + 6 ≤ size) ⊎ (j + 2 ≡ size)

abbrev pub IsRejected : Outputs → Bool × Outputs → Type 0
IsRejected o (accepted, o') =
    (accepted ≡ false)
    × ((o' ≡ set_error o incorrect_crc16) ⊎ (o' ≡ set_error o incorrect_packet_size))

same_sum :
    (b : Buffer) (length sum : ℕ)
    → IsBytes b
    → length ≤ b.size
    → calculate_crc16 b length ≡ ok sum
    → remainder 0xffff (window b.byte 0 length) ≡ sum
same_sum b length sum bytes room is =
    let computed = calculate_crc16-eq-remainder b length bytes room in cc

not_changed :
    (size j : ℕ) (b c : Buffer)
    → IsCorrupted size j b c
    → (b.byte j ≡ c.byte j) × (b.byte (j + 1) ≡ c.byte (j + 1))
    → ⊥
not_changed size j b c bad (first, second) = elim bad.changed [ inl n ↦ n first | inr n ↦ n second ]

-- The sum of what arrives is not the CRC that arrives.
differs :
    (b c : Buffer) (size j : ℕ)
    → IsBytes b
    → IsCorrupted size j b c
    → 12 ≤ size
    → size ≤ b.size
    → calculate_crc16 b (size - 4) ≡ ok (word_at b.byte (size - 2))
    → calculate_crc16 c (size - 4) ≢ ok (word_at c.byte (size - 2))
differs b c size j bytes bad large room sum_b sum_c =
    let rb = same_sum b (size - 4) _ bytes (omega arith) sum_b in
    let rc = same_sum c (size - 4) _ bad.bytes (omega (arith, bad.same_size)) sum_c in
    elim bad.place [
      | inl covered ↦
          let trailer : word_at b.byte (size - 2) ≡ word_at c.byte (size - 2) = omega (
            arith,
            bad.elsewhere.behind (size - 2) (omega arith),
            bad.elsewhere.behind (size - 2 + 1) (omega arith),
          ) in
          not_changed size j b c bad (
            same_of_remainder b.byte c.byte j j 0 (size - 4) 0xffff bytes bad.bytes bad.elsewhere
              (omega arith) (omega arith) (omega arith) (rb ∙ trailer ∙ sym rc))
      | inr trailer ↦
          let covered : window b.byte 0 (size - 4) ≡ window c.byte 0 (size - 4) =
            window_ext b.byte c.byte 0 (size - 4) λ k lo hi. bad.elsewhere.before k (omega arith) in
          let at : j ≡ size - 2 = omega arith in
          let words : word_at b.byte j ≡ word_at c.byte j =
            ap (word_at b.byte) at
            ∙ sym rb
            ∙ ap (remainder 0xffff) covered
            ∙ rc
            ∙ ap (word_at c.byte) (sym at) in
          not_changed size j b c bad (
            omega (arith, bytes (j + 1), bad.bytes (j + 1)),
            omega (arith, bytes (j + 1), bad.bytes (j + 1)),
          )
    ]

verdict-IsRejected :
    (sum : ℕ) (t : PacketType) (c : Buffer) (size : ℕ) (o : Outputs)
    → 12 ≤ size
    → word_at c.byte (size - 2) ≢ sum
    → IsRejected o (verdict sum t c.byte size o)
verdict-IsRejected sum t c size o large other =
    let long : ltb size 12 ≡ false = ground arith in
    rw long (elim (Bool-cases (size == 12 + received_size c.byte)) [
      | inr odd ↦ rw odd (refl, inr refl)
      | inl same ↦ rw (same, ne→== _ _ other) (refl, inl refl)
    ])

IsAccepted-of_true :
    (size_mod : ℕ) (self : Packetizer) (t : PacketType) (b : Buffer) (size bus : ℕ) (o o' : Outputs)
    → 4294967296 ≤ size_mod
    → IsBytes b
    → size ≤ b.size
    → b.size < size_mod
    → depacketize size_mod self t b size bus o ≡ ok (true, o')
    → IsAccepted t b size o o'
IsAccepted-of_true size_mod self t b size bus o o' wide bytes room fits accepted =
    let outcome : Outcome t b size o (true, o') =
      subst (Returns (Outcome t b size o)) accepted
        (depacketize-Outcome size_mod self t b size bus o wide bytes room fits) in
    elim outcome [ inl (_, good) ↦ good | inr (other, _) ↦ absurd cc ]

-- A packet in a buffer of bytes that Packetizer_depacketize accepts, and of which one byte, or two
-- adjacent ones, of the header and the data or of the CRC are changed to other bytes: the call returns,
-- without an access out of bounds, and refuses the changed packet, with
-- Packetizer_ErrorCode_IncorrectCrc16 or Packetizer_ErrorCode_IncorrectPacketSize; it writes nothing
-- but the error code. size_t has 32 bits or more.
pub depacketize-IsRejected :
    (size_mod : ℕ) (self : Packetizer) (t : PacketType) (b c : Buffer) (size bus j : ℕ)
    (o o' : Outputs)
    → 4294967296 ≤ size_mod
    → IsBytes b
    → size ≤ b.size
    → b.size < size_mod
    → depacketize size_mod self t b size bus o ≡ ok (true, o')
    → IsCorrupted size j b c
    → Returns (IsRejected o) (depacketize size_mod self t c size bus o)
depacketize-IsRejected size_mod self t b c size bus j o o' wide bytes room fits accepted bad =
    let (sum, sum_is, same) =
      depacketize-eq-verdict size_mod wide self t c size bus o bad.bytes
        (omega (arith, bad.same_size)) (omega (arith, bad.same_size)) in
    let good : IsAccepted t b size o o' =
      IsAccepted-of_true size_mod self t b size bus o o' wide bytes room fits accepted in
    let large : 12 ≤ size = omega (arith, good.data_inside, good.offset_is) in
    Returns-of_eq (IsRejected o) same (
      verdict-IsRejected sum t c size o large
        λ e. differs b c size j bytes bad large room good.sum_matches (sum_is ∙ ap ok (sym e)))
