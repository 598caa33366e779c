-- ===== src/Packetizer/Outcome.antt =====
-- What a caller of `Packetizer_depacketize` may rely on.
use taste_runtime_common.Common.{
  ℕ, ◌+◌, ◌-◌, ◌*◌, ◌/◌, ◌%◌, ◌≤◌, ◌<◌, ◌≡◌, refl, ap, ◌∙◌, ◌⊎◌, inl, inr, sym, arith,
}
use taste_runtime_common.Common.{Bool, true, false, Bool-cases, ltb, ◌==◌, ==_iff, not_ltb→le}
use taste_runtime_common.Memory.{ok, Returns, Buffer}
use taste_runtime_common.Memory.Laws.{Returns-of_eq}
use taste_runtime_common.Crc16.{calculate_crc16}
use taste_runtime_common.SpacePacket.{
  PacketType, type_code, Packetizer, Outputs, set_error, incorrect_crc16, incorrect_packet_type,
  incorrect_packet_size, packet_too_small,
}
use taste_runtime_common.Packetizer.{depacketize}
use taste_runtime_common.Packetizer.Verdict.{IsBytes, word_at, received_size, sized_by, verdict}
use taste_runtime_common.Packetizer.Depacketize.{depacketize-eq-verdict}

-- An accepted packet: it has the received size, its sum and its type are the expected ones, the data
-- lies inside it, and the results are in their ranges; `*errorCode` is not written.
pub record IsAccepted (t : PacketType) (b : Buffer) (size : ℕ) (o o' : Outputs) : Type 0 where
  pub data_inside : o'.data_offset + o'.data_size + 4 ≡ size
  pub offset_is : o'.data_offset ≡ 8
  pub sum_matches : calculate_crc16 b (size - 4) ≡ ok (word_at b.byte (size - 2))
  pub type_matches : b.byte 0 / 8 % 2 ≡ type_code t
  pub destination_in_range : o'.destination ≤ 2047
  pub source_in_range : o'.source < 65536
  pub same_error : o'.error_code ≡ o.error_code

-- A refused packet: an error code is written, where there is a place for it, and nothing else.
abbrev pub IsRefused : Outputs → Outputs → Type 0
IsRefused o o' = (code : ℕ) × (1 ≤ code) × (code ≤ 4) × (o' ≡ set_error o code)

abbrev pub Outcome : PacketType → Buffer → ℕ → Outputs → Bool × Outputs → Type 0
Outcome t b size o (accepted, o') =
    ((accepted ≡ true) × IsAccepted t b size o o') ⊎ ((accepted ≡ false) × IsRefused o o')

IsAccepted-by :
    (sum : ℕ) (t : PacketType) (b : Buffer) (size : ℕ) (o : Outputs)
    → IsBytes b
    → calculate_crc16 b (size - 4) ≡ ok sum
    → 12 ≤ size
    → word_at b.byte (size - 2) ≡ sum
    → b.byte 0 / 8 % 2 ≡ type_code t
    → IsAccepted t b size o (record o {
      source = word_at b.byte (size - 4);
      destination = b.byte 0 / 32 * 256 + b.byte 1;
      data_offset = 8;
      data_size = size - 12;
    })
IsAccepted-by sum t b size o bytes sum_is large crc type = record {
  data_inside = omega arith;
  offset_is = refl;
  sum_matches = sum_is ∙ ap ok (sym crc);
  type_matches = type;
  destination_in_range = omega (arith, bytes 0, bytes 1);
  source_in_range = omega (arith, bytes (size - 4), bytes (size - 4 + 1));
  same_error = refl;
}

sized_by-Outcome :
    (sum : ℕ) (t : PacketType) (b : Buffer) (size : ℕ) (o : Outputs)
    → IsBytes b
    → calculate_crc16 b (size - 4) ≡ ok sum
    → 12 ≤ size
    → Outcome t b size o (sized_by sum t b.byte size o)
sized_by-Outcome sum t b size o bytes sum_is large =
    elim (Bool-cases (word_at b.byte (size - 2) == sum)) [
      | inr differs ↦ rw differs (inr (refl, (incorrect_crc16, omega arith, omega arith, refl)))
      | inl crc ↦ rw crc (elim (Bool-cases (b.byte 0 / 8 % 2 == type_code t)) [
        | inr other ↦ rw other (inr (refl, (incorrect_packet_type, omega arith, omega arith, refl)))
        | inl type ↦ rw type (
            inl (
              refl,
              IsAccepted-by sum t b size o bytes sum_is large ((==_iff _ sum).0 crc)
                  ((==_iff _ (type_code t)).0 type),
            ))
      ])
    ]

verdict-Outcome :
    (sum : ℕ) (t : PacketType) (b : Buffer) (size : ℕ) (o : Outputs)
    → IsBytes b
    → calculate_crc16 b (size - 4) ≡ ok sum
    → Outcome t b size o (verdict sum t b.byte size o)
verdict-Outcome sum t b size o bytes sum_is = elim (Bool-cases (ltb size 12)) [
  | inl short ↦ rw short (inr (refl, (packet_too_small, omega arith, omega arith, refl)))
  | inr long ↦ rw long (elim (Bool-cases (size == 12 + received_size b.byte)) [
    | inr other ↦ rw other (inr (refl, (incorrect_packet_size, omega arith, omega arith, refl)))
    | inl same ↦ rw same (sized_by-Outcome sum t b size o bytes sum_is (not_ltb→le _ _ long))
  ])
]

-- Whatever bytes arrive in a buffer, and at every width of `size_t` of 32 bits or more, the call
-- returns: it accepts, and then the data lies inside the packet, the sum and the type are the
-- expected ones, the results are in their ranges and `*errorCode` is not written; or it refuses, and
-- then it writes one of the four error codes, where there is a place for it, and nothing else.
pub depacketize-Outcome :
    (size_mod : ℕ) (self : Packetizer) (t : PacketType) (b : Buffer) (size bus : ℕ) (o : Outputs)
    → 4294967296 ≤ size_mod
    → IsBytes b
    → size ≤ b.size
    → b.size < size_mod
    → Returns (Outcome t b size o) (depacketize size_mod self t b size bus o)
depacketize-Outcome size_mod self t b size bus o wide bytes room fits =
    let (sum, sum_is, same) =
      depacketize-eq-verdict size_mod wide self t b size bus o bytes room fits in
    Returns-of_eq (Outcome t b size o) same (verdict-Outcome sum t b size o bytes sum_is)
