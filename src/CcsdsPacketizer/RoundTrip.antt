-- ===== src/CcsdsPacketizer/RoundTrip.antt =====
-- A packet that `CCSDS_Packetizer_packetize` makes, given to `CCSDS_Packetizer_depacketize`.
use native.Mathlib.Decide.{ℕ_discrete, dec_lt}
use Prim.Native.Nat.{bit_and, bit_or}
use taste_runtime_common.Common.{
  ℕ, ◌+◌, ◌-◌, ◌*◌, ◌/◌, ◌%◌, ◌^◌, ◌≤◌, ◌<◌, ◌≡◌, refl, ap, ◌∙◌, arith, mod-eq_of_lt,
  mod-eq-sub-mod,
}
use taste_runtime_common.Common.{
  Bool, true, false, Bool-cases, inl, inr, leb, ◌==◌, ==_iff, if◌then◌else◌,
}
use taste_runtime_common.Words.{u16, ◌<<<◌, ◌>>>◌}
use taste_runtime_common.Words.Fields.{and_mask, and_field, or_fields}
use taste_runtime_common.Words.Octets.{join_octets, or_comm}
use taste_runtime_common.Memory.{ok, Returns, Buffer, window}
use taste_runtime_common.Memory.Laws.{Returns-map, load_lem}
use taste_runtime_common.Memory.Window.{window_ext}
use taste_runtime_common.IsoChecksum.Checksum.{check_0, check_1, calculate-eq-check_bytes}
use taste_runtime_common.SpacePacket.{
  PacketType, type_code, telemetry, telecommand, Packetizer, Packetized, Outputs, set_error,
  ccsds_incorrect_packet_type, ccsds_incorrect_packet_size,
}
use taste_runtime_common.CcsdsPacketizer.{
  read_packet_data_length, packetize, depacketize, depacketize_sized,
}
use taste_runtime_common.CcsdsPacketizer.Packet.{CanPacketize, PacketizedAs, header-lt}
use taste_runtime_common.CcsdsPacketizer.Packetize.{ccsds_packetize-PacketizedAs}

packet_bytes :
    {t : PacketType} {size_mod destination count data_size : ℕ} {b : Buffer} {q : Packetized}
    → CanPacketize size_mod destination count data_size b
    → PacketizedAs t destination count data_size b q
    → (j : ℕ) → q.buffer.byte j < 256
packet_bytes {data_size = data_size} can a j = elim (dec_lt j 6) [
  | yes header ↦ header-lt a.header can.destination_in_range can.count_in_range j header
  | no behind ↦ elim (dec_lt j (6 + data_size)) [
    | yes inside ↦ rw (a.data_kept j (omega arith) inside) (can.bytes j)
    | no outside ↦ elim (ℕ_discrete j (6 + data_size)) [
      | yes e₀ ↦ rw e₀ (omega (arith, a.check_high))
      | no n₀ ↦ elim (ℕ_discrete j (7 + data_size)) [
        | yes e₁ ↦ rw e₁ (omega (arith, a.check_low))
        | no n₁ ↦ rw (a.rest_kept j (omega arith)) (can.bytes j)
      ]
    ]
  ]
]

-- The size that is read back, with the checksum.
abbrev size_read : ℕ → ℕ
size_read data_size = (data_size + 1) % 65536 + 1

read_length :
    {t : PacketType} {size_mod destination count data_size : ℕ} {b : Buffer} {q : Packetized}
    → CanPacketize size_mod destination count data_size b
    → PacketizedAs t destination count data_size b q
    → read_packet_data_length size_mod q.buffer ≡ ok (size_read data_size)
unfolding read_packet_data_length
read_length {size_mod = size_mod} {data_size = data_size} {q = q} can a =
    let high : ℕ = (data_size + 1) / 256 % 256 in
    let low : ℕ = (data_size + 1) % 256 in
    let e : high * 2 ^ 8 % size_mod ≡ high * 2 ^ 8 = mod-eq_of_lt (omega (arith, can.wide)) in
    let e' : (high * 2 ^ 8 + low + 1) % size_mod ≡ high * 2 ^ 8 + low + 1 =
      mod-eq_of_lt (omega (arith, can.wide)) in
    rw
      (
        load_lem q.buffer 4 (omega (arith, a.same_size, can.room)),
        load_lem q.buffer 5 (omega (arith, a.same_size, can.room)),
        a.header.octet_4,
        a.header.octet_5,
        e,
        or_fields 8 high low (omega arith),
        e',
      )
      (ap ok (omega arith))

type_of_octet :
    (t : PacketType) (destination : ℕ)
    → destination ≤ 2047
    → bit_and (type_code t * 16 + 8 + destination / 256) 0x10 >>> 4 ≡ type_code t
type_of_octet telemetry destination small =
    rw (and_field 4 1 (0 * 16 + 8 + destination / 256)) (omega arith)
type_of_octet telecommand destination small =
    rw (and_field 4 1 (1 * 16 + 8 + destination / 256)) (omega arith)

destination_of_octets :
    (t : PacketType) (destination : ℕ)
    → destination ≤ 2047
    → u16 (
        bit_or
          (destination % 256)
          (u16 (bit_and (u16 (type_code t * 16 + 8 + destination / 256)) 0x07) <<< 8))
      ≡ destination
destination_of_octets t destination small =
    let x : ℕ = type_code t * 16 + 8 + destination / 256 in
    let e : u16 (u16 x % 2 ^ 3) * 2 ^ 8 ≡ destination / 256 * 2 ^ 8 = elim t [
      | telemetry ↦ omega arith
      | telecommand ↦ omega arith
    ] in
    rw
      (
        and_mask 3 (u16 x),
        e,
        or_comm (destination % 256) (destination / 256 * 2 ^ 8),
        or_fields 8 (destination / 256) (destination % 256) (omega arith),
      )
      (omega arith)

-- The answer to a receiver that expects packets of type `expected`: a data size of 65535 does not fit
-- the length field together with the checksum.
abbrev pub answer : PacketType → PacketType → ℕ → ℕ → Outputs → Bool × Outputs
answer made expected destination data_size o =
    if data_size == 65535
    then (false, set_error o ccsds_incorrect_packet_size)
    else if type_code made == type_code expected
    then (true, record o { destination = destination; data_offset = 6; data_size = data_size })
    else (false, set_error o ccsds_incorrect_packet_type)

-- A difference of sizes, as `size_t` computes it.
pub wrapped : (size_mod x k : ℕ) → k ≤ x → x < size_mod → (x + (size_mod - k)) % size_mod ≡ x - k
wrapped size_mod x k le lt =
    let e : x + (size_mod - k) - size_mod ≡ x - k = omega arith in
    mod-eq-sub-mod (omega arith) ∙ ap (λ n. n % size_mod) e ∙ mod-eq_of_lt (omega arith)

depacketize_sized_of_packet :
    {t : PacketType} {size_mod destination count data_size : ℕ} {b : Buffer} {q : Packetized}
    (expected : PacketType) (o : Outputs)
    → CanPacketize size_mod destination count data_size b
    → PacketizedAs t destination count data_size b q
    → depacketize_sized size_mod expected q.buffer (8 + data_size) (data_size + 2) o
      ≡ ok (
          if type_code t == type_code expected
          then (
            true,
            record o { destination = destination; data_offset = 6; data_size = data_size },
          )
          else (false, set_error o ccsds_incorrect_packet_type))
unfolding depacketize_sized
depacketize_sized_of_packet {t = t} {size_mod = size_mod} {destination = destination}
      {data_size = data_size} {q = q} expected o can a =
    let bytes : (j : ℕ) → q.buffer.byte j < 256 = packet_bytes can a in
    let hi : ℕ = check_0 q.buffer.byte (6 + data_size) in
    let lo : ℕ = check_1 q.buffer.byte (6 + data_size) in
    let e₀ : (6 + (data_size + 2)) % size_mod ≡ 8 + data_size =
      mod-eq_of_lt (omega (arith, can.room, can.size_fits)) ∙ omega arith in
    let e₁ : (8 + data_size + (size_mod - 1)) % size_mod ≡ 7 + data_size =
      wrapped size_mod (8 + data_size) 1 (omega arith) (omega (arith, can.room, can.size_fits))
      ∙ omega arith in
    let e₂ : (8 + data_size + (size_mod - 2)) % size_mod ≡ 6 + data_size =
      wrapped size_mod (8 + data_size) 2 (omega arith) (omega (arith, can.room, can.size_fits))
      ∙ omega arith in
    let e₃ : (data_size + 2 + (size_mod - 2)) % size_mod ≡ data_size =
      wrapped size_mod (data_size + 2) 2 (omega arith) (omega (arith, can.room, can.size_fits))
      ∙ omega arith in
    let e₄ : 8 + data_size - 2 ≡ 6 + data_size = omega arith in
    let same : (hi * 256 + lo == hi * 256 + lo) ≡ true = (==_iff _ _).1 refl in
    rw
      (
        e₀,
        e₁,
        e₂,
        load_lem q.buffer (7 + data_size) (omega (arith, a.same_size, can.room)),
        load_lem q.buffer (6 + data_size) (omega (arith, a.same_size, can.room)),
        a.check_low,
        a.check_high,
        join_octets lo hi (omega arith) (omega arith),
        e₄,
        calculate-eq-check_bytes q.buffer (6 + data_size) bytes
            (omega (arith, a.same_size, can.room)),
        same,
        load_lem q.buffer 0 (omega (arith, a.same_size, can.room)),
        load_lem q.buffer 1 (omega (arith, a.same_size, can.room)),
        a.header.octet_0,
        a.header.octet_1,
        type_of_octet t destination can.destination_in_range,
        e₃,
        destination_of_octets t destination can.destination_in_range,
      )
      (elim (Bool-cases (type_code t == type_code expected)) [
        | inl equal ↦ rw equal refl
        | inr other ↦ rw other refl
      ])

-- What the receiver finds: the answer, and the data where the results say that it is.
abbrev pub Received :
    ℕ → Packetizer → PacketType → PacketType → ℕ → Outputs → ℕ → ℕ → Buffer → Packetized → Type 0
Received size_mod receiver made expected bus o destination data_size b q =
    (depacketize size_mod receiver expected q.buffer q.size bus o
      ≡ ok (answer made expected destination data_size o))
    × (window q.buffer.byte 6 data_size ≡ window b.byte 6 data_size)

pub depacketize_of_packet :
    {t : PacketType} {size_mod destination count data_size : ℕ} {b : Buffer} {q : Packetized}
    (receiver : Packetizer) (expected : PacketType) (bus : ℕ) (o : Outputs)
    → CanPacketize size_mod destination count data_size b
    → PacketizedAs t destination count data_size b q
    → depacketize size_mod receiver expected q.buffer (8 + data_size) bus o
      ≡ ok (answer t expected destination data_size o)
unfolding depacketize
depacketize_of_packet {t = t} {size_mod = size_mod} {destination = destination}
      {data_size = data_size} {q = q} receiver expected bus o can a =
    let long : leb (8 + data_size) 8 ≡ false = ground (arith, can.some_data) in
    let e : (6 + size_read data_size) % size_mod ≡ 6 + size_read data_size =
      mod-eq_of_lt (omega (arith, can.wide)) in
    rw (long, read_length can a, e)
      (elim (Bool-cases (data_size == 65535)) [
        | inl largest ↦
            let differs : (8 + data_size == 6 + size_read data_size) ≡ false = ground arith in
            rw (largest, differs) refl
        | inr fits ↦
            let r : size_read data_size ≡ data_size + 2 = ground (arith, can.size_in_range) in
            let same : (8 + data_size == 6 + (data_size + 2)) ≡ true =
              (==_iff _ _).1 (omega arith) in
            rw (fits, r, same) (depacketize_sized_of_packet expected o can a)
      ])

-- A packet made in the asserted ranges, in a buffer of bytes, and given as it is to a CCSDS packetizer
-- that expects packets of some type. With at most 65534 bytes of data and of that type, it is accepted,
-- and destination, data offset and data size are read back; of the other type, it is refused with
-- CCSDS_Packetizer_ErrorCode_IncorrectPacketType. With 65535 bytes of data, which the source admits,
-- it is refused with CCSDS_Packetizer_ErrorCode_IncorrectPacketSize. The data is unchanged. `size_t`
-- has 32 bits or more.
pub ccsds_packetize-depacketize :
    (size_mod : ℕ) (t expected : PacketType) (bus bus' source destination data_size : ℕ)
    (self receiver : Packetizer) (b : Buffer) (o : Outputs)
    → CanPacketize size_mod destination self.packet_sequence_count data_size b
    → Returns
        (Received size_mod receiver t expected bus' o destination data_size b)
        (packetize size_mod self t bus source destination b 6 data_size)
ccsds_packetize-depacketize size_mod t expected bus bus' source destination data_size self receiver
      b o can =
    Returns-map (PacketizedAs t destination self.packet_sequence_count data_size b)
      (Received size_mod receiver t expected bus' o destination data_size b) _
      (λ q a. (
        ap (λ size. depacketize size_mod receiver expected q.buffer size bus' o) a.size_is
            ∙ depacketize_of_packet receiver expected bus' o can a,
        window_ext q.buffer.byte b.byte 6 data_size (λ j lo hi. a.data_kept j lo (omega arith)),
      ))
      (ccsds_packetize-PacketizedAs size_mod t bus source destination data_size self b can)
