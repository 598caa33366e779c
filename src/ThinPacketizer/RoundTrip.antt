-- ===== src/ThinPacketizer/RoundTrip.antt =====
-- A packet that `ThinPacketizer_packetize` makes, given to `ThinPacketizer_depacketize`.
use Prim.Native.Nat.{bit_or}
use taste_runtime_common.Common.{
  ℕ, ◌+◌, ◌-◌, ◌*◌, ◌/◌, ◌%◌, ◌^◌, ◌≤◌, ◌<◌, ◌≡◌, refl, ap, ◌∙◌, arith,
}
use taste_runtime_common.Common.{
  Bool, true, false, Bool-cases, inl, inr, ltb, ◌==◌, ==_iff, if◌then◌else◌, mod-eq_of_lt,
}
use taste_runtime_common.Words.Bits.{or_step, or_cut}
use taste_runtime_common.Words.Fields.{or-zero, zero-or, or_fields}
use taste_runtime_common.Words.Octets.{low_octet}
use taste_runtime_common.Memory.{ok, Returns, Buffer, window, store, or_store, memset}
use taste_runtime_common.Memory.Laws.{Returns-map, load_lem}
use taste_runtime_common.Memory.Window.{window_ext}
use taste_runtime_common.SpacePacket.{
  PacketType, Packetizer, Packetized, Outputs, set_error, incorrect_packet_size,
}
use taste_runtime_common.ThinPacketizer.{
  read_packet_data_length, read_packet_id, write_packet_id, write_packet_data_length, packetize,
  depacketize,
}

-- What the packet says, and what the caller has to respect.
pub record CanPacketize (size_mod destination data_size : ℕ) (b : Buffer) : Type 0 where
  pub destination_in_range : destination ≤ 2047
  pub some_data : 1 ≤ data_size
  pub size_in_range : data_size < 4294967295
  pub room : 4 + data_size ≤ b.size
  pub size_fits : b.size < size_mod

-- The packet: the destination and the two lowest bytes of the size less one, then the data.
pub record PacketizedAs (destination data_size : ℕ) (b : Buffer) (p : Packetized) : Type 0 where
  pub octet_0 : p.buffer.byte 0 ≡ destination / 256
  pub octet_1 : p.buffer.byte 1 ≡ destination % 256
  pub octet_2 : p.buffer.byte 2 ≡ (data_size - 1) / 256 % 256
  pub octet_3 : p.buffer.byte 3 ≡ (data_size - 1) % 256
  pub data_kept : (j : ℕ) → 4 ≤ j → p.buffer.byte j ≡ b.byte j
  pub same_size : p.buffer.size ≡ b.size
  pub size_is : p.size ≡ 4 + data_size

pub packetize-PacketizedAs :
    (size_mod : ℕ) (self : Packetizer) (t : PacketType) (bus source destination data_size : ℕ)
    (b : Buffer)
    → CanPacketize size_mod destination data_size b
    → Returns
        (PacketizedAs destination data_size b)
        (packetize size_mod self t bus source destination b 4 data_size)
unfolding packetize write_packet_id write_packet_data_length store or_store memset
packetize-PacketizedAs size_mod self t bus source destination data_size b can =
    let e : (4 + data_size) % size_mod ≡ 4 + data_size =
      mod-eq_of_lt (omega (arith, can.room, can.size_fits)) in
    rw e (
      ground (
        arith,
        can,
        low_octet (destination / 256 % 256),
        low_octet destination,
        low_octet ((data_size - 1) / 256),
        low_octet (data_size - 1),
        zero-or (destination / 256),
        zero-or (destination % 256),
      ))

or_one : (q : ℕ) → bit_or q 1 ≡ q / 2 * 2 + 1
or_one q = omega (arith, or_step q 1, or-zero (q / 2))

-- `(high << 8) | (low + 1)`, where the addition may carry into the byte that is joined.
pub join_length :
    (high low : ℕ)
    → low < 256
    → bit_or (high * 2 ^ 8) (low + 1)
      ≡ (if low == 255 then (high / 2 * 2 + 1) * 256 else high * 256 + (low + 1))
join_length high low below = elim (Bool-cases (low == 255)) [
  | inl last ↦
      let e : low ≡ 255 = (==_iff _ _).0 last in
      let q : high * 2 ^ 8 / 2 ^ 8 ≡ high = omega arith in
      let r : high * 2 ^ 8 % 2 ^ 8 ≡ 0 = omega arith in
      rw (last, e, or_cut 8 (high * 2 ^ 8) 256, q, r) (omega (arith, or_one high))
  | inr other ↦ rw other (or_fields 8 high (low + 1) (ground arith))
]

-- The size that is read back.
abbrev size_read : ℕ → ℕ
size_read data_size = if data_size % 512 == 0 then data_size - 256 else data_size

size_of_octets :
    (data_size : ℕ)
    → 1 ≤ data_size
    → data_size ≤ 65536
    → (if (data_size - 1) % 256 == 255
        then ((data_size - 1) / 256 % 256 / 2 * 2 + 1) * 256
        else (data_size - 1) / 256 % 256 * 256 + ((data_size - 1) % 256 + 1))
      ≡ size_read data_size
size_of_octets data_size some small = ground arith

read_length :
    (size_mod destination data_size : ℕ) (b : Buffer) (q : Packetized)
    → 4294967296 ≤ size_mod
    → data_size ≤ 65536
    → CanPacketize size_mod destination data_size b
    → PacketizedAs destination data_size b q
    → read_packet_data_length size_mod q.buffer ≡ ok (size_read data_size)
unfolding read_packet_data_length
read_length size_mod destination data_size b q wide small can a =
    let high : ℕ = (data_size - 1) / 256 % 256 in
    let low : ℕ = (data_size - 1) % 256 in
    let e₂ : (high * 2 ^ 8) % size_mod ≡ high * 2 ^ 8 = mod-eq_of_lt (omega arith) in
    let e₃ : (low + 1) % size_mod ≡ low + 1 = mod-eq_of_lt (omega arith) in
    rw
      (
        load_lem q.buffer 2 (omega (arith, a.same_size, can.room)),
        load_lem q.buffer 3 (omega (arith, a.same_size, can.room)),
        a.octet_2,
        a.octet_3,
        e₂,
        e₃,
        join_length high low (omega arith),
      )
      (ap ok (size_of_octets data_size can.some_data small))

read_destination :
    (size_mod destination data_size : ℕ) (b : Buffer) (q : Packetized)
    → CanPacketize size_mod destination data_size b
    → PacketizedAs destination data_size b q
    → read_packet_id q.buffer ≡ ok destination
unfolding read_packet_id
read_destination size_mod destination data_size b q can a =
    let e : destination / 256 % 65536 * 2 ^ 8 % 65536 ≡ destination / 256 * 2 ^ 8 =
      omega (arith, can.destination_in_range) in
    rw
      (
        load_lem q.buffer 0 (omega (arith, a.same_size, can.room)),
        load_lem q.buffer 1 (omega (arith, a.same_size, can.room)),
        a.octet_0,
        a.octet_1,
        e,
        or_fields 8 (destination / 256) (destination % 256) (omega arith),
      )
      (ap ok (omega arith))

-- The answer of a receiver: a size that is a multiple of 512 is read back wrongly.
abbrev pub answer : ℕ → ℕ → Outputs → Bool × Outputs
answer destination data_size o =
    if data_size % 512 == 0
    then (false, set_error o incorrect_packet_size)
    else (true, record o { destination = destination; data_offset = 4; data_size = data_size })

-- What the receiver finds: the answer, and the data where the results say that it is.
abbrev pub Received :
    ℕ → Packetizer → PacketType → ℕ → Outputs → ℕ → ℕ → Buffer → Packetized → Type 0
Received size_mod receiver t bus o destination data_size b q =
    (depacketize size_mod receiver t q.buffer q.size bus o ≡ ok (answer destination data_size o))
    × (window q.buffer.byte 4 data_size ≡ window b.byte 4 data_size)

pub depacketize_of_packet :
    (size_mod destination data_size : ℕ) (receiver : Packetizer) (t : PacketType) (bus : ℕ)
    (o : Outputs) (b : Buffer) (q : Packetized)
    → 4294967296 ≤ size_mod
    → data_size ≤ 65536
    → CanPacketize size_mod destination data_size b
    → PacketizedAs destination data_size b q
    → depacketize size_mod receiver t q.buffer (4 + data_size) bus o
      ≡ ok (answer destination data_size o)
unfolding depacketize
depacketize_of_packet size_mod destination data_size receiver t bus o b q wide small can a =
    let fits : (4 + size_read data_size) % size_mod ≡ 4 + size_read data_size =
      mod-eq_of_lt (ground arith) in
    let long : ltb (4 + data_size) 4 ≡ false = ground arith in
    rw
      (
        long,
        read_length size_mod destination data_size b q wide small can a,
        fits,
        read_destination size_mod destination data_size b q can a,
      )
      (elim (Bool-cases (data_size % 512 == 0)) [
        | inl wrong ↦
            let differs : (4 + data_size == 4 + (data_size - 256)) ≡ false =
              ground (arith, can.some_data) in
            rw (wrong, differs)
        | inr right ↦
            let same : (4 + data_size == 4 + data_size) ≡ true = (==_iff _ _).1 refl in
            rw (right, same)
      ])

-- A packet of at most 65536 bytes of data, made in the asserted ranges and given as it is to a thin
-- packetizer: it is accepted, and destination, data offset and data size are read back, if and only
-- if the data size is no multiple of 512; otherwise it is refused with
-- Packetizer_ErrorCode_IncorrectPacketSize. The data is unchanged. `size_t` has 32 bits or more.
pub thin_packetize-depacketize :
    (size_mod destination source data_size : ℕ) (b : Buffer) (self receiver : Packetizer)
    (made expected : PacketType) (bus bus' : ℕ) (o : Outputs)
    → 4294967296 ≤ size_mod
    → data_size ≤ 65536
    → CanPacketize size_mod destination data_size b
    → Returns
        (Received size_mod receiver expected bus' o destination data_size b)
        (packetize size_mod self made bus source destination b 4 data_size)
thin_packetize-depacketize size_mod destination source data_size b self receiver made expected bus
      bus' o wide small can =
    Returns-map (PacketizedAs destination data_size b)
      (Received size_mod receiver expected bus' o destination data_size b) _
      (λ q a. (
        ap (λ size. depacketize size_mod receiver expected q.buffer size bus' o) a.size_is
            ∙ depacketize_of_packet size_mod destination data_size receiver expected bus' o b q wide
                small can a,
        window_ext q.buffer.byte b.byte 4 data_size (λ j lo hi. a.data_kept j lo),
      ))
      (packetize-PacketizedAs size_mod self made bus source destination data_size b can)
