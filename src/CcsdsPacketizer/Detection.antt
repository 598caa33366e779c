-- ===== src/CcsdsPacketizer/Detection.antt =====
-- Transmission errors in a packet that `CCSDS_Packetizer_depacketize` accepts.
use taste_runtime_common.Common.{
  ℕ, zero, suc, ◌+◌, ◌-◌, ◌*◌, ◌%◌, ◌≤◌, ◌<◌, ◌≡◌, ◌≢◌, refl, sym, ap, ◌∙◌, ◌⊎◌, inl, inr, arith,
}
use taste_runtime_common.Common.{Bool, true, false, Bool-cases, leb, ◌==◌, ==_iff, ne→==}
use taste_runtime_common.Memory.{ok, Returns, Buffer}
use taste_runtime_common.Memory.Laws.{Returns-of_eq}
use taste_runtime_common.IsoChecksum.Fletcher.{first, second}
use taste_runtime_common.IsoChecksum.Checksum.{check_0, check_1, first_ext, second_ext}
use taste_runtime_common.Crc16.Detection.{AgreeBut}
use taste_runtime_common.SpacePacket.{
  PacketType, Packetizer, Outputs, set_error, ccsds_incorrect_checksum, ccsds_incorrect_packet_size,
}
use taste_runtime_common.CcsdsPacketizer.{depacketize}
use taste_runtime_common.CcsdsPacketizer.Verdict.{
  received_size, verdict, ccsds_depacketize-eq-verdict,
}
use taste_runtime_common.Packetizer.Verdict.{IsBytes, word_at}

-- What arrives of a packet: bytes `j` and `j + 1` of it are changed, both or one of them, and not only
-- by making 0xff of 0x00 or 0x00 of 0xff, which are the same modulo 255.
pub record IsCorrupted (size j : ℕ) (b c : Buffer) : Type 0 where
  pub bytes : IsBytes c
  pub same_size : c.size ≡ b.size
  pub elsewhere : AgreeBut j b.byte c.byte
  pub changed : (b.byte j % 255 ≢ c.byte j % 255) ⊎ (b.byte (j + 1) % 255 ≢ c.byte (j + 1) % 255)
  pub place : j + 2 ≤ size

abbrev pub IsRejected : Outputs → Bool × Outputs → Type 0
IsRejected o (accepted, o') =
    (accepted ≡ false)
    × ((o' ≡ set_error o ccsds_incorrect_checksum) ⊎ (o' ≡ set_error o ccsds_incorrect_packet_size))

-- The sums up to the last of the bytes.
sums_to :
    (f : ℕ → ℕ) (n : ℕ) {j : ℕ}
    → suc j ≡ n
    → (first f n ≡ first f j + f j) × (second f n ≡ second f j + first f j + f j)
unfolding first second
sums_to f n at = rw (sym at) (refl, omega arith)

module _ (f g : ℕ → ℕ) (j : ℕ) (agree : AgreeBut j f g) where
  -- The plain sums of `n` bytes with the changed ones among them.
  first_changed :
      (n : ℕ) → suc (suc j) ≤ n → first f n + (g j + g (suc j)) ≡ first g n + (f j + f (suc j))
  unfolding first
  first_changed zero far = absurd (omega arith)
  first_changed (suc n) far = elim (Bool-cases (n == suc j)) [
    | inl last ↦ rw ((==_iff n (suc j)).0 last) (omega (arith, first_ext f g j agree.before))
    | inr later ↦
        (let more : suc (suc j) ≤ n = ground arith in
          omega (arith, first_changed n more, agree.behind n (omega arith)))
  ]

  second_changed :
      (n : ℕ)
      → suc (suc j) ≤ n
      → (f j + f (suc j)) % 255 ≡ (g j + g (suc j)) % 255
      → (second f n + (2 * g j + g (suc j))) % 255 ≡ (second g n + (2 * f j + f (suc j))) % 255
  unfolding first second
  second_changed zero far same = absurd (omega arith)
  second_changed (suc n) far same = elim (Bool-cases (n == suc j)) [
    | inl last ↦
        rw ((==_iff n (suc j)).0 last)
          (omega (arith, first_ext f g j agree.before, second_ext f g j agree.before))
    | inr later ↦
        (let more : suc (suc j) ≤ n = ground arith in
          omega (arith, first_changed (suc n) far, second_changed n more same))
  ]

  -- Check bytes of both, which are the same if the changed bytes stand before them.
  module _ (n : ℕ) (agree_0 : f n ≡ check_0 f n) (agree_1 : f (suc n) ≡ check_1 f n)
      (agree_0' : g n ≡ check_0 g n) (agree_1' : g (suc n) ≡ check_1 g n) where
    same_in_front : suc (suc j) ≤ n → (f j % 255 ≡ g j % 255) × (f (suc j) % 255 ≡ g (suc j) % 255)
    same_in_front far =
        let high : f n ≡ g n = agree.behind n (omega arith) in
        let low : f (suc n) ≡ g (suc n) = agree.behind (suc n) (omega arith) in
        let one : first f n % 255 ≡ first g n % 255 = omega arith in
        let two : second f n % 255 ≡ second g n % 255 = omega arith in
        let sum : (f j + f (suc j)) % 255 ≡ (g j + g (suc j)) % 255 =
          omega (arith, first_changed n far) in
        let difference = second_changed n far sum in (omega arith, omega arith)

    same_across : suc j ≡ n → (f j % 255 ≡ g j % 255) × (f (suc j) % 255 ≡ g (suc j) % 255)
    same_across at =
        let low : f (suc n) ≡ g (suc n) = agree.behind (suc n) (omega arith) in
        let (first_f, second_f) = sums_to f n at in
        let (first_g, second_g) = sums_to g n at in
        let two : second f n % 255 ≡ second g n % 255 = omega arith in
        let front : f j % 255 ≡ g j % 255 =
          omega (arith, first_ext f g j agree.before, second_ext f g j agree.before) in
        let one : first f n % 255 ≡ first g n % 255 = omega (arith, first_ext f g j agree.before) in
        let high : f n ≡ g n = omega arith in (front, rw at (ap (λ x. x % 255) high))

    same_behind : j ≡ n → (f j % 255 ≡ g j % 255) × (f (suc j) % 255 ≡ g (suc j) % 255)
    same_behind at =
        let before : (k : ℕ) → k < n → f k ≡ g k = λ k below. agree.before k (omega arith) in
        let one : first f n ≡ first g n = first_ext f g n before in
        let two : second f n ≡ second g n = second_ext f g n before in
        rw at (omega arith, omega arith)

    same_all : j ≤ n → (f j % 255 ≡ g j % 255) × (f (suc j) % 255 ≡ g (suc j) % 255)
    same_all inside = elim (Bool-cases (j == n)) [
      | inl last ↦ same_behind ((==_iff j n).0 last)
      | inr other ↦ elim (Bool-cases (suc j == n)) [
        | inl across ↦ same_across ((==_iff (suc j) n).0 across)
        | inr front ↦ same_in_front (ground arith)
      ]
    ]

ok_injective : {r r' : Bool × Outputs} → ok r ≡ ok r' → r ≡ r'
ok_injective e = cc

-- What an accepted packet says of its size and its checksum.
accepted_sum :
    (t : PacketType) (f : ℕ → ℕ) (size : ℕ) (o o' : Outputs)
    → verdict t f size o ≡ (true, o')
    → (9 ≤ size) × (word_at f (size - 2) ≡ check_0 f (size - 2) * 256 + check_1 f (size - 2))
accepted_sum t f size o o' accepted = ground arith

verdict-IsRejected :
    (t : PacketType) (f : ℕ → ℕ) (size : ℕ) (o : Outputs)
    → 9 ≤ size
    → word_at f (size - 2) ≢ check_0 f (size - 2) * 256 + check_1 f (size - 2)
    → IsRejected o (verdict t f size o)
verdict-IsRejected t f size o large other =
    let long : leb size 8 ≡ false = ground arith in
    rw long (elim (Bool-cases (size == 6 + received_size f)) [
      | inr odd ↦ rw odd (refl, inr refl)
      | inl same ↦ rw (same, ne→== _ _ other) (refl, inl refl)
    ])

-- The two bytes of a sum that matches.
check_bytes_of :
    (f : ℕ → ℕ) (n : ℕ)
    → ((k : ℕ) → f k < 256)
    → word_at f n ≡ check_0 f n * 256 + check_1 f n
    → (f n ≡ check_0 f n) × (f (suc n) ≡ check_1 f n)
check_bytes_of f n bytes same =
    let next : f (n + 1) ≡ f (suc n) = ap f (omega arith) in
    (omega (arith, bytes (suc n)), omega (arith, bytes (suc n)))

differs :
    (b c : Buffer) (size j : ℕ)
    → IsBytes b
    → IsCorrupted size j b c
    → word_at b.byte (size - 2) ≡ check_0 b.byte (size - 2) * 256 + check_1 b.byte (size - 2)
    → word_at c.byte (size - 2) ≢ check_0 c.byte (size - 2) * 256 + check_1 c.byte (size - 2)
differs b c size j bytes bad sum_b sum_c =
    let (high_b, low_b) = check_bytes_of b.byte (size - 2) bytes sum_b in
    let (high_c, low_c) = check_bytes_of c.byte (size - 2) bad.bytes sum_c in
    let (first_same, second_same) =
      same_all b.byte c.byte j bad.elsewhere (size - 2) high_b low_b high_c low_c
        (omega (arith, bad.place)) in
    let next : j + 1 ≡ suc j = omega arith in
    elim bad.changed [ inl n ↦ n first_same | inr n ↦ n (rw next second_same) ]

-- A packet in a buffer of bytes that CCSDS_Packetizer_depacketize accepts, and of which one byte, or
-- two adjacent ones, are changed, wherever they stand, and not only by making 0xff of 0x00 or 0x00 of
-- 0xff: the call returns, without an access out of bounds, and refuses the changed packet, with
-- CCSDS_Packetizer_ErrorCode_IncorrectChecksum or CCSDS_Packetizer_ErrorCode_IncorrectPacketSize; it
-- writes nothing but the error code. size_t has 32 bits or more.
pub ccsds_depacketize-IsRejected :
    (size_mod : ℕ) (self : Packetizer) (t : PacketType) (b c : Buffer) (size bus j : ℕ)
    (o o' : Outputs)
    → 4294967296 ≤ size_mod
    → IsBytes b
    → size ≤ b.size
    → b.size < size_mod
    → depacketize size_mod self t b size bus o ≡ ok (true, o')
    → IsCorrupted size j b c
    → Returns (IsRejected o) (depacketize size_mod self t c size bus o)
ccsds_depacketize-IsRejected size_mod self t b c size bus j o o' wide bytes room fits accepted bad =
    let same : verdict t b.byte size o ≡ (true, o') = ok_injective (
      sym (ccsds_depacketize-eq-verdict size_mod wide self t b size bus o bytes room fits)
      ∙ accepted) in
    let (large, sum_b) = accepted_sum t b.byte size o o' same in
    Returns-of_eq (IsRejected o)
      (ccsds_depacketize-eq-verdict size_mod wide self t c size bus o bad.bytes
        (omega (arith, bad.same_size)) (omega (arith, bad.same_size)))
      (verdict-IsRejected t c.byte size o large (differs b c size j bytes bad sum_b))
