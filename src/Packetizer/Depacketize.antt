-- ===== src/Packetizer/Depacketize.antt =====
-- `Packetizer_depacketize` against a description that has no bit operations and no wrap.
use Prim.Native.Nat.{bit_or}
use taste_runtime_common.Common.{
  ℕ, ◌+◌, ◌-◌, ◌*◌, ◌/◌, ◌%◌, ◌≤◌, ◌<◌, ◌≡◌, refl, ap, ◌∙◌, sym, inl, inr, arith,
}
use taste_runtime_common.Common.{mod-eq_of_lt, mod-eq-sub-mod, ltb, ◌==◌, ==_iff, if◌then◌else◌}
use taste_runtime_common.Common.{Bool, true, false, not, Bool-cases, not_ltb→le, ne→==}
use native.Mathlib.Decide.{dec_lt}
use taste_runtime_common.Words.{u16}
use taste_runtime_common.Words.Octets.{join_octets, join_four}
use taste_runtime_common.Memory.{ok, Buffer}
use taste_runtime_common.Memory.Laws.{load_lem, eq_of_Returns}
use taste_runtime_common.Crc16.{calculate_crc16}
use taste_runtime_common.Crc16.Sum.{calculate_crc16-Returns}
use taste_runtime_common.SpacePacket.{
  PacketType, type_code, Packetizer, Outputs, set_error, incorrect_crc16, incorrect_packet_type,
}
use taste_runtime_common.Packetizer.{
  size_t, read_u16, read_packet_data_length, depacketize_sized, depacketize,
}
use taste_runtime_common.Packetizer.Fields.{read_type, read_apid_high}
use taste_runtime_common.Packetizer.Verdict.{IsBytes, word_at, received_size, sized_by, verdict}

-- The same by the received size.
abbrev sized_verdict : ℕ → PacketType → (ℕ → ℕ) → ℕ → Outputs → Bool × Outputs
sized_verdict sum t f received o =
    if not (word_at f (10 + received) == sum)
    then (false, set_error o incorrect_crc16)
    else if not (f 0 / 8 % 2 == type_code t)
    then (false, set_error o incorrect_packet_type)
    else (
      true,
      record o {
        source = word_at f (8 + received);
        destination = f 0 / 32 * 256 + f 1;
        data_offset = 8;
        data_size = received;
      },
    )

sized_verdict-eq-sized_by :
    (sum : ℕ) (t : PacketType) (f : ℕ → ℕ) (received size : ℕ) (o : Outputs)
    → size ≡ 12 + received
    → sized_verdict sum t f received o ≡ sized_by sum t f size o
sized_verdict-eq-sized_by sum t f received size o e =
    let crc_at : 12 + received - 2 ≡ 10 + received = omega arith in
    let pid_at : 12 + received - 4 ≡ 8 + received = omega arith in
    let data_is : 12 + received - 12 ≡ received = omega arith in rw (e, crc_at, pid_at, data_is)

join_destination :
    (x₀ x₁ : ℕ) → x₀ < 256 → x₁ < 256 → bit_or (u16 x₁) (u16 (x₀ / 32 * 256)) ≡ x₀ / 32 * 256 + x₁
join_destination x₀ x₁ h₀ h₁ =
    let e : u16 (x₀ / 32) ≡ x₀ / 32 = omega arith in
    rw e at (join_octets x₁ (x₀ / 32) h₁ (omega arith))

read_u16_lem :
    (b : Buffer) (i j : ℕ)
    → IsBytes b
    → j < b.size
    → j ≡ i + 1
    → read_u16 b i j ≡ ok (word_at b.byte i)
unfolding read_u16
read_u16_lem b i j bytes room e = rw (
  load_lem b j room,
  load_lem b i (omega arith),
  join_octets (b.byte j) (b.byte i) (bytes j) (bytes i),
  e,
)

module _ (size_mod : ℕ) (wide : 4294967296 ≤ size_mod) where
  length_of_field :
      (field : ℕ)
      → field < 4294967296
      → (if field == 4294967295 then 0 else size_t size_mod (size_t size_mod field + 1))
        ≡ (field + 1) % 4294967296
  length_of_field field small = elim (Bool-cases (field == 4294967295)) [
    | inl ones ↦ rw ones (omega (arith, (==_iff field 4294967295).0 ones))
    | inr other ↦
        let below : field < 4294967295 = ground arith in
        let fits : size_t size_mod field ≡ field = mod-eq_of_lt (omega arith) in
        rw (other, fits, mod-eq_of_lt {n = field + 1} {m = size_mod} (omega arith)) (omega arith)
  ]

  read_packet_data_length_lem :
      (b : Buffer)
      → IsBytes b
      → 8 ≤ b.size
      → read_packet_data_length size_mod b ≡ ok (received_size b.byte)
  unfolding read_packet_data_length
  read_packet_data_length_lem b bytes room =
      rw
        (
          load_lem b 4 (omega arith),
          load_lem b 5 (omega arith),
          load_lem b 6 (omega arith),
          load_lem b 7 (omega arith),
          join_four (b.byte 4) (b.byte 5) (b.byte 6) (b.byte 7) (bytes 4) (bytes 5) (bytes 6)
              (bytes 7),
        )
        (ap ok (length_of_field _ (omega (arith, bytes 4, bytes 5, bytes 6, bytes 7))))

  -- No received length makes the sum of the sizes wrap to the size of a packet.
  size_test :
      (size received : ℕ)
      → 12 ≤ size
      → size < size_mod
      → received < 4294967296
      → (size == size_t size_mod (8 + received + 2 + 2)) ≡ (size == 12 + received)
  size_test size received large fits small = elim (dec_lt (8 + received + 2 + 2) size_mod) [
    | yes no_wrap ↦ rw (mod-eq_of_lt no_wrap) (ap (λ k. size == k) (omega arith))
    | no wraps ↦
        let rest : 8 + received + 2 + 2 - size_mod < size_mod = omega arith in
        rw
          (
            mod-eq-sub-mod {n = 8 + received + 2 + 2} {m = size_mod} (omega arith),
            mod-eq_of_lt rest,
          )
          (ne→== _ _ (omega arith) ∙ sym (ne→== _ _ (omega arith)))
  ]

  depacketize_sized_lem :
      (t : PacketType) (b : Buffer) (received sum : ℕ) (o : Outputs)
      → IsBytes b
      → 12 + received ≤ b.size
      → b.size < size_mod
      → calculate_crc16 b (8 + received) ≡ ok sum
      → depacketize_sized size_mod t b (12 + received) received o
        ≡ ok (sized_verdict sum t b.byte received o)
  unfolding depacketize_sized
  depacketize_sized_lem t b received sum o bytes room fits sum_is =
      let e₀ : size_t size_mod (8 + received) ≡ 8 + received = mod-eq_of_lt (omega arith) in
      let e₁ : size_t size_mod (8 + received + 1) ≡ 8 + received + 1 = mod-eq_of_lt (omega arith) in
      let e₂ : size_t size_mod (8 + received + 2) ≡ 10 + received =
        mod-eq_of_lt (omega arith) ∙ omega arith in
      let e₃ : size_t size_mod (8 + received + 2 + 1) ≡ 11 + received =
        mod-eq_of_lt (omega arith) ∙ omega arith in
      let e₄ : 12 + received - 2 - 2 ≡ 8 + received = omega arith in
      rw
        (
          e₀,
          e₁,
          e₂,
          e₃,
          e₄,
          read_u16_lem b (8 + received) (8 + received + 1) bytes (omega arith) refl,
          read_u16_lem b (10 + received) (11 + received) bytes (omega arith) (omega arith),
          sum_is,
          load_lem b 0 (omega arith),
          load_lem b 1 (omega arith),
          read_type (b.byte 0),
          read_apid_high (b.byte 0) (bytes 0),
        )
        (ground (arith, join_destination (b.byte 0) (b.byte 1) (bytes 0) (bytes 1)))

  pub depacketize_of_sum :
      (self : Packetizer) (t : PacketType) (b : Buffer) (size bus : ℕ) (o : Outputs) (sum : ℕ)
      → IsBytes b
      → size ≤ b.size
      → b.size < size_mod
      → calculate_crc16 b (size - 4) ≡ ok sum
      → depacketize size_mod self t b size bus o ≡ ok (verdict sum t b.byte size o)
  unfolding depacketize
  depacketize_of_sum self t b size bus o sum bytes room fits sum_is =
      elim (Bool-cases (ltb size 12)) [
        | inl short ↦ rw short
        | inr long ↦
            let large : 12 ≤ size = not_ltb→le _ _ long in
            let test = size_test size (received_size b.byte) large (omega arith) (omega arith) in
            rw (long, read_packet_data_length_lem b bytes (omega arith), test)
              (elim (Bool-cases (size == 12 + received_size b.byte)) [
                | inr other ↦ rw other
                | inl same ↦
                    let e : size ≡ 12 + received_size b.byte = (==_iff _ _).0 same in
                    rw same (
                      ap (λ k. depacketize_sized size_mod t b k (received_size b.byte) o) e
                      ∙ depacketize_sized_lem t b (received_size b.byte) sum o bytes (omega arith)
                          fits (ap (calculate_crc16 b) (omega arith) ∙ sum_is)
                      ∙ ap ok
                          (sized_verdict-eq-sized_by sum t b.byte (received_size b.byte) size o e))
              ])
      ]

  -- A packet that lies in a buffer is checked and read as `verdict` says, with the sum of its header
  -- and data: no access is out of bounds, whatever the bytes are, and at every width of `size_t` of
  -- 32 bits or more.
  pub depacketize-eq-verdict :
      (self : Packetizer) (t : PacketType) (b : Buffer) (size bus : ℕ) (o : Outputs)
      → IsBytes b
      → size ≤ b.size
      → b.size < size_mod
      → (sum : ℕ) × (calculate_crc16 b (size - 4) ≡ ok sum)
        × (depacketize size_mod self t b size bus o ≡ ok (verdict sum t b.byte size o))
  depacketize-eq-verdict self t b size bus o bytes room fits =
      let (sum, sum_is, _) =
        eq_of_Returns (λ c. c < 65536) (calculate_crc16 b (size - 4))
          (calculate_crc16-Returns b (size - 4) (omega arith)) in
      (sum, sum_is, depacketize_of_sum self t b size bus o sum bytes room fits sum_is)
