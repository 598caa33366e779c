-- ===== src/Packetizer/RoundTrip.antt =====
-- A packet that `Packetizer_packetize` makes, given to `Packetizer_depacketize`.
use native.Mathlib.Decide.{ℕ_discrete, dec_lt}
use taste_runtime_common.Common.{
  ℕ, zero, suc, ◌+◌, ◌-◌, ◌*◌, ◌/◌, ◌%◌, ◌≤◌, ◌<◌, ◌≡◌, ap, ◌∙◌, arith,
}
use taste_runtime_common.Common.{
  Bool, true, false, Bool-cases, inl, inr, ltb, ◌==◌, ==_iff, if◌then◌else◌,
}
use taste_runtime_common.Memory.{ok, Returns, Buffer, window}
use taste_runtime_common.Memory.Laws.{Returns-map}
use taste_runtime_common.Memory.Window.{window_ext}
use taste_runtime_common.Crc16.{calculate_crc16}
use taste_runtime_common.SpacePacket.{
  PacketType, telemetry, telecommand, type_code, Packetizer, Packetized, Outputs, set_error,
  incorrect_packet_type,
}
use taste_runtime_common.Packetizer.{packetize, depacketize}
use taste_runtime_common.Packetizer.Packet.{
  Header, IsPacket, CanPacketize, PacketizedAs, packetize-PacketizedAs,
}
use taste_runtime_common.Packetizer.Verdict.{IsBytes, word_at, received_size, verdict}
use taste_runtime_common.Packetizer.Depacketize.{depacketize_of_sum}

-- The ranges that the types and assertions of the source give a header.
abbrev pub HeaderInRange : Header → Type 0
HeaderInRange h =
    (h.count ≤ 16383) × (h.destination ≤ 2047) × (h.source < 65536) × (h.data_size < 4294967295)

type_code-le : (t : PacketType) → type_code t ≤ 1
type_code-le telemetry = omega arith
type_code-le telecommand = omega arith

header-lt :
    {h : Header} {c : Buffer} → IsPacket h c → HeaderInRange h → (j : ℕ) → j < 8 → c.byte j < 256
header-lt {h} p r zero below = omega (arith, p.octet_0, type_code-le h.packet_type)
header-lt p r (suc zero) below = omega (arith, p.octet_1)
header-lt p r (suc (suc zero)) below = omega (arith, p.octet_2)
header-lt p r (suc (suc (suc zero))) below = omega (arith, p.octet_3)
header-lt p r (suc (suc (suc (suc zero)))) below = omega (arith, p.octet_4)
header-lt p r (suc (suc (suc (suc (suc zero))))) below = omega (arith, p.octet_5)
header-lt p r (suc (suc (suc (suc (suc (suc zero)))))) below = omega (arith, p.octet_6)
header-lt p r (suc (suc (suc (suc (suc (suc (suc zero))))))) below = omega (arith, p.octet_7)
header-lt p r (suc (suc (suc (suc (suc (suc (suc (suc j)))))))) below = absurd (omega arith)

trailer-lt :
    {h : Header} {c : Buffer} (j : ℕ)
    → IsPacket h c
    → 8 + h.data_size ≤ j
    → j < 12 + h.data_size
    → c.byte j < 256
trailer-lt {h} {c} j p lo hi = elim (ℕ_discrete j (8 + h.data_size)) [
  | yes e₀ ↦ rw e₀ (omega (arith, p.pid_high))
  | no n₀ ↦ elim (ℕ_discrete j (9 + h.data_size)) [
    | yes e₁ ↦ rw e₁ (omega (arith, p.pid_low))
    | no n₁ ↦ elim (ℕ_discrete j (10 + h.data_size)) [
      | yes e₂ ↦ rw e₂ (omega (arith, p.crc_high))
      | no n₂ ↦ let e₃ : j ≡ 11 + h.data_size = omega arith in rw e₃ (omega (arith, p.crc_low))
    ]
  ]
]

-- The packet and what lies round it are bytes, if the buffer held bytes before.
packet-IsBytes :
    {h : Header} {b : Buffer} {q : Packetized}
    → HeaderInRange h
    → PacketizedAs h b q
    → IsBytes b
    → IsBytes q.buffer
packet-IsBytes {h} {b} {q} r a bytes j = elim (dec_lt j 8) [
  | yes header ↦ header-lt a.packet r j header
  | no behind ↦ elim (dec_lt j (8 + h.data_size)) [
    | yes inside ↦ rw (a.data_kept j (omega arith) inside) (bytes j)
    | no outside ↦ elim (dec_lt j (12 + h.data_size)) [
      | yes trailer ↦ trailer-lt j a.packet (omega arith) trailer
      | no rest ↦ rw (a.rest_kept j (omega arith)) (bytes j)
    ]
  ]
]

-- What is read from the packet.
abbrev pub read_back : Header → Outputs → Outputs
read_back h o = record o {
  source = h.source;
  destination = h.destination;
  data_offset = 8;
  data_size = h.data_size;
}

-- The answer to a receiver that expects packets of type `t`.
abbrev pub answer : PacketType → Header → Outputs → Bool × Outputs
answer t h o =
    if type_code h.packet_type == type_code t
    then (true, read_back h o)
    else (false, set_error o incorrect_packet_type)

received_size_of_packet :
    {h : Header} {c : Buffer} → HeaderInRange h → IsPacket h c → received_size c.byte ≡ h.data_size
received_size_of_packet r p = omega (arith, p.octet_4, p.octet_5, p.octet_6, p.octet_7)

pub crc_of_packet :
    {h : Header} {c : Buffer} (p : IsPacket h c) → word_at c.byte (12 + h.data_size - 2) ≡ p.sum
crc_of_packet {h} p =
    let at : 12 + h.data_size - 2 ≡ 10 + h.data_size = omega arith in
    let next : 10 + h.data_size + 1 ≡ 11 + h.data_size = omega arith in
    rw (at, next, p.crc_high, p.crc_low) (omega (arith, p.sum-lt))

source_of_packet :
    {h : Header} {c : Buffer}
    → HeaderInRange h
    → IsPacket h c
    → word_at c.byte (12 + h.data_size - 4) ≡ h.source
source_of_packet {h} r p =
    let at : 12 + h.data_size - 4 ≡ 8 + h.data_size = omega arith in
    let next : 8 + h.data_size + 1 ≡ 9 + h.data_size = omega arith in
    rw (at, next, p.pid_high, p.pid_low) (omega arith)

type_of_packet :
    {h : Header} {c : Buffer}
    → HeaderInRange h
    → IsPacket h c
    → c.byte 0 / 8 % 2 ≡ type_code h.packet_type
type_of_packet {h} r p = omega (arith, p.octet_0, type_code-le h.packet_type)

destination_of_packet :
    {h : Header} {c : Buffer}
    → HeaderInRange h
    → IsPacket h c
    → c.byte 0 / 32 * 256 + c.byte 1 ≡ h.destination
destination_of_packet {h} r p = omega (arith, p.octet_0, p.octet_1, type_code-le h.packet_type)

pub verdict_of_packet :
    {h : Header} {c : Buffer} (t : PacketType) (o : Outputs)
    → HeaderInRange h
    → (p : IsPacket h c) → verdict p.sum t c.byte (12 + h.data_size) o ≡ answer t h o
verdict_of_packet {h} {c} t o r p =
    let long : ltb (12 + h.data_size) 12 ≡ false = ground arith in
    let same : (12 + h.data_size == 12 + received_size c.byte) ≡ true =
      (==_iff _ _).1 (omega (arith, received_size_of_packet r p)) in
    let crc : (word_at c.byte (12 + h.data_size - 2) == p.sum) ≡ true =
      (==_iff _ _).1 (crc_of_packet p) in
    let size : 12 + h.data_size - 12 ≡ h.data_size = omega arith in
    rw (long, same, crc, type_of_packet r p, source_of_packet r p, destination_of_packet r p, size)
      (elim (Bool-cases (type_code h.packet_type == type_code t)) [
        | inl equal ↦ rw equal
        | inr other ↦ rw other
      ])

-- What the receiver finds: the answer, and the data where the results say that it is.
abbrev pub Received :
    ℕ → Packetizer → PacketType → ℕ → Outputs → Header → Buffer → Packetized → Type 0
Received size_mod receiver t bus o h b q =
    (depacketize size_mod receiver t q.buffer q.size bus o ≡ ok (answer t h o))
    × (window q.buffer.byte 8 h.data_size ≡ window b.byte 8 h.data_size)

Received-of_PacketizedAs :
    (size_mod : ℕ) (receiver : Packetizer) (t : PacketType) (bus : ℕ) (o : Outputs) (h : Header)
    (b : Buffer) (q : Packetized)
    → 4294967296 ≤ size_mod
    → IsBytes b
    → HeaderInRange h
    → CanPacketize size_mod h b
    → PacketizedAs h b q
    → Received size_mod receiver t bus o h b q
Received-of_PacketizedAs size_mod receiver t bus o h b q wide bytes r can a = (
  ap (λ size. depacketize size_mod receiver t q.buffer size bus o) a.size_is
      ∙ depacketize_of_sum size_mod wide receiver t q.buffer (12 + h.data_size) bus o a.packet.sum
          (packet-IsBytes r a bytes) (omega (arith, a.same_size)) (omega (arith, a.same_size))
          (ap (calculate_crc16 q.buffer) (omega arith) ∙ a.packet.sum_is)
      ∙ ap ok (verdict_of_packet t o r a.packet),
  window_ext q.buffer.byte b.byte 8 h.data_size (λ j lo hi. a.data_kept j lo hi),
)

-- A packet made in the asserted ranges, from bytes and with a source of 16 bits, and given as it is
-- to any packetizer that expects packets of type `t`: of that type, it is accepted, and source,
-- destination, data offset and data size are read back, with `*errorCode` not written; of the other
-- type, it is refused with Packetizer_ErrorCode_IncorrectPacketType. The data is unchanged. `size_t`
-- has 32 bits or more.
pub packetize-depacketize :
    (size_mod : ℕ) (h : Header) (b : Buffer) (receiver : Packetizer) (t : PacketType) (bus bus' : ℕ)
    (o : Outputs)
    → 4294967296 ≤ size_mod
    → IsBytes b
    → h.source < 65536
    → CanPacketize size_mod h b
    → Returns (Received size_mod receiver t bus' o h b) (
        packetize size_mod
          (record { packet_sequence_count = h.count })
          h.packet_type
          bus
          h.source
          h.destination
          b
          8
          h.data_size)
packetize-depacketize size_mod h b receiver t bus bus' o wide bytes source_fits can =
    Returns-map (PacketizedAs h b) (Received size_mod receiver t bus' o h b) _
      (λ q a.
        Received-of_PacketizedAs size_mod receiver t bus' o h b q wide bytes
          (can.count_in_range, can.destination_in_range, source_fits, can.size_in_range) can a)
      (packetize-PacketizedAs size_mod h bus b can)
