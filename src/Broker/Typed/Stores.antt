-- ===== src/Broker/Typed/Stores.antt =====
-- Writes of bytes leave a buffer of bytes, whichever packetizer makes them.
use Prim.Native.Nat.{bit_and, bit_or}
use taste_runtime_common.Common.{ℕ, ◌+◌, ◌-◌, ◌%◌, ◌<◌, arith, Bool-cases, inl, inr, ◌==◌}
use taste_runtime_common.Common.{leb, ltb}
use taste_runtime_common.Words.{u8, u16, ◌<<<◌, ◌>>>◌}
use taste_runtime_common.Words.Octets.{or-lt}
use taste_runtime_common.Memory.{Result, ◌>>=◌, Buffer, update, store, or_store, load, memset}
use taste_runtime_common.Memory.Partial.{IfReturns, IfReturns-any, IfReturns-bind}
use taste_runtime_common.SpacePacket.{PacketType, type_code, Packetizer}
use taste_runtime_common.Packetizer as Default
use taste_runtime_common.CcsdsPacketizer
use taste_runtime_common.ThinPacketizer
use taste_runtime_common.Packetizer.Verdict.{IsBytes}
use taste_runtime_common.Crc16.{calculate_crc16}
use taste_runtime_common.IsoChecksum.{calculate}

-- A function on buffers that keeps bytes.
abbrev pub Keeps : (Buffer → Result Buffer) → Type 0
Keeps f = (b : Buffer) → IsBytes b → IfReturns IsBytes (f b)

update-IsBytes :
    (f : ℕ → ℕ) (i v : ℕ) → ((j : ℕ) → f j < 256) → v < 256 → (j : ℕ) → update f i v j < 256
update-IsBytes f i v bytes small j = elim (Bool-cases (i == j)) [
  | inl here ↦ rw here small
  | inr away ↦ rw away (bytes j)
]

pub store-Keeps : (i v : ℕ) → v < 256 → Keeps (λ b. store b i v)
unfolding store
store-Keeps i v small b bytes = elim (Bool-cases (ltb i b.size)) [
  | inl inside ↦ rw inside (update-IsBytes b.byte i v bytes small)
  | inr outside ↦ rw outside tt
]

pub or_store-Keeps : (i v : ℕ) → v < 256 → Keeps (λ b. or_store b i v)
unfolding or_store load store
or_store-Keeps i v small b bytes = elim (Bool-cases (ltb i b.size)) [
  | inl inside ↦
      rw inside
        (update-IsBytes b.byte i (bit_or (b.byte i) v) bytes (or-lt 8 (b.byte i) v (bytes i) small))
  | inr outside ↦ rw outside tt
]

pub memset-Keeps : (v n : ℕ) → v < 256 → Keeps (λ b. memset b v n)
unfolding memset
memset-Keeps v n small b bytes = elim (Bool-cases (leb n b.size)) [
  | inl inside ↦ rw inside λ j. elim (Bool-cases (ltb j n)) [
    | inl front ↦ rw front small
    | inr behind ↦ rw behind (bytes j)
  ]
  | inr outside ↦ rw outside tt
]

-- A write of a byte, and what follows it.
store_then {ℓ κ} :
    {A : Type ℓ} (Q : A → Type κ) (b : Buffer)
    → IsBytes b
    → (i v : ℕ) (g : Buffer → Result A) → v < 256
    → ((c : Buffer) → IsBytes c → IfReturns Q (g c))
    → IfReturns Q (store b i v >>= g)
store_then Q b bytes i v g small rest =
    IfReturns-bind IsBytes Q (store b i v) g (store-Keeps i v small b bytes) rest

or_store_then {ℓ κ} :
    {A : Type ℓ} (Q : A → Type κ) (b : Buffer)
    → IsBytes b
    → (i v : ℕ) (g : Buffer → Result A) → v < 256
    → ((c : Buffer) → IsBytes c → IfReturns Q (g c))
    → IfReturns Q (or_store b i v >>= g)
or_store_then Q b bytes i v g small rest =
    IfReturns-bind IsBytes Q (or_store b i v) g (or_store-Keeps i v small b bytes) rest

pub write_packet_id-Keeps :
    (t : PacketType) (destination : ℕ) → Keeps (λ b. Default.write_packet_id b t destination)
unfolding Default.write_packet_id
write_packet_id-Keeps t destination b bytes =
    or_store_then IsBytes b bytes 0 (u8 (u8 (type_code t) <<< 3)) _ (omega arith) λ b₁ k₁.
      or_store_then IsBytes b₁ k₁ 0 (u8 (1 <<< 4)) _ (omega arith) λ b₂ k₂.
        or_store_then IsBytes b₂ k₂ 0 (u8 (u16 (bit_and destination 0x0700) >>> 3)) _ (omega arith)
          λ b₃ k₃. or_store-Keeps 1 (u8 (bit_and destination 0xff)) (omega arith) b₃ k₃

pub write_packet_sequence_control-Keeps :
    (p : Packetizer) → Keeps (λ b. Default.write_packet_sequence_control b p)
unfolding Default.write_packet_sequence_control
write_packet_sequence_control-Keeps p b bytes =
    or_store_then IsBytes b bytes 2 (u8 (1 <<< 0)) _ (omega arith) λ b₁ k₁.
      or_store_then IsBytes b₁ k₁ 2 (u8 (1 <<< 1)) _ (omega arith) λ b₂ k₂.
        or_store_then IsBytes b₂ k₂ 2 (u8 (u16 (bit_and p.packet_sequence_count 0x3f00) >>> 6)) _
          (omega arith)
          λ b₃ k₃. or_store-Keeps 3 (u8 (bit_and p.packet_sequence_count 0xff)) (omega arith) b₃ k₃

pub write_packet_data_length-Keeps : (n : ℕ) → Keeps (λ b. Default.write_packet_data_length b n)
unfolding Default.write_packet_data_length
write_packet_data_length-Keeps n b bytes = elim (Bool-cases (n == 0)) [
  | inl none ↦ rw none (
      store_then IsBytes b bytes 4 (0xff) _ (omega arith) λ b₁ k₁.
        store_then IsBytes b₁ k₁ 5 (0xff) _ (omega arith) λ b₂ k₂.
          store_then IsBytes b₂ k₂ 6 (0xff) _ (omega arith)
            λ b₃ k₃. store-Keeps 7 (0xff) (omega arith) b₃ k₃)
  | inr some ↦ rw some (
      store_then IsBytes b bytes 4 (u8 (bit_and ((n - 1) >>> 24) 0xff)) _ (omega arith) λ b₁ k₁.
        store_then IsBytes b₁ k₁ 5 (u8 (bit_and ((n - 1) >>> 16) 0xff)) _ (omega arith) λ b₂ k₂.
          store_then IsBytes b₂ k₂ 6 (u8 (bit_and ((n - 1) >>> 8) 0xff)) _ (omega arith)
            λ b₃ k₃. store-Keeps 7 (u8 (bit_and (n - 1) 0xff)) (omega arith) b₃ k₃)
]

pub write_sender_pid-Keeps :
    (size_mod n pid : ℕ) → Keeps (λ b. Default.write_sender_pid size_mod b n pid)
unfolding Default.write_sender_pid
write_sender_pid-Keeps size_mod n pid b bytes =
    store_then IsBytes b bytes ((8 + n) % size_mod) (u8 (bit_and (u8 (pid >>> 8)) 0xff)) _
      (omega arith)
      λ b₁ k₁. store-Keeps ((8 + n + 1) % size_mod) (u8 (bit_and pid 0xff)) (omega arith) b₁ k₁

pub write_crc-Keeps : (size_mod n : ℕ) → Keeps (λ b. Default.write_crc size_mod b n)
unfolding Default.write_crc
write_crc-Keeps size_mod n b bytes = IfReturns-any IsBytes (calculate_crc16 b _) _ λ crc.
    store_then IsBytes b bytes ((8 + n + 2) % size_mod) (u8 (bit_and (u8 (crc >>> 8)) 0xff)) _
      (omega arith)
      λ b₁ k₁. store-Keeps ((8 + n + 2 + 1) % size_mod) (u8 (bit_and crc 0xff)) (omega arith) b₁ k₁

pub ccsds_write_packet_id-Keeps :
    (t : PacketType) (destination : ℕ)
    → Keeps (λ b. CcsdsPacketizer.write_packet_id b t destination)
unfolding CcsdsPacketizer.write_packet_id
ccsds_write_packet_id-Keeps t destination b bytes =
    or_store_then IsBytes b bytes 0 (u8 (type_code t <<< 4)) _ (omega arith) λ b₁ k₁.
      or_store_then IsBytes b₁ k₁ 0 (u8 (1 <<< 3)) _ (omega arith) λ b₂ k₂.
        or_store_then IsBytes b₂ k₂ 0 (u8 (bit_and destination 0x0700 >>> 8)) _ (omega arith)
          λ b₃ k₃. or_store-Keeps 1 (u8 (bit_and destination 0xff)) (omega arith) b₃ k₃

pub ccsds_write_packet_sequence_control-Keeps :
    (p : Packetizer) → Keeps (λ b. CcsdsPacketizer.write_packet_sequence_control b p)
unfolding CcsdsPacketizer.write_packet_sequence_control
ccsds_write_packet_sequence_control-Keeps p b bytes =
    or_store_then IsBytes b bytes 2 (u8 (1 <<< 7)) _ (omega arith) λ b₁ k₁.
      or_store_then IsBytes b₁ k₁ 2 (u8 (1 <<< 6)) _ (omega arith) λ b₂ k₂.
        or_store_then IsBytes b₂ k₂ 2 (u8 (bit_and p.packet_sequence_count 0x3f00 >>> 8)) _
          (omega arith)
          λ b₃ k₃. or_store-Keeps 3 (u8 (bit_and p.packet_sequence_count 0xff)) (omega arith) b₃ k₃

pub ccsds_write_packet_data_length-Keeps :
    (n : ℕ) → Keeps (λ b. CcsdsPacketizer.write_packet_data_length b n)
unfolding CcsdsPacketizer.write_packet_data_length
ccsds_write_packet_data_length-Keeps n b bytes =
    store_then IsBytes b bytes 4 (u8 (bit_and (u16 ((n - 1) >>> 8)) 0xff)) _ (omega arith)
      λ b₁ k₁. store-Keeps 5 (u8 (bit_and (n - 1) 0xff)) (omega arith) b₁ k₁

pub write_checksum-Keeps :
    (size_mod n : ℕ) → Keeps (λ b. CcsdsPacketizer.write_checksum size_mod b n)
unfolding CcsdsPacketizer.write_checksum
write_checksum-Keeps size_mod n b bytes = IfReturns-any IsBytes (calculate b _) _ λ sum.
    store_then IsBytes b bytes ((6 + n) % size_mod) (u8 (bit_and (sum >>> 8) 0xff)) _ (omega arith)
      λ b₁ k₁.
        store-Keeps (((6 + n) % size_mod + 1) % size_mod) (u8 (bit_and sum 0xff)) (omega arith) b₁
          k₁

pub thin_write_packet_id-Keeps :
    (destination : ℕ) → Keeps (λ b. ThinPacketizer.write_packet_id b destination)
unfolding ThinPacketizer.write_packet_id
thin_write_packet_id-Keeps destination b bytes =
    or_store_then IsBytes b bytes 0 (u8 (bit_and (u8 (destination >>> 8)) 0xff)) _ (omega arith)
      λ b₁ k₁. or_store-Keeps 1 (u8 (bit_and destination 0xff)) (omega arith) b₁ k₁

pub thin_write_packet_data_length-Keeps :
    (n : ℕ) → Keeps (λ b. ThinPacketizer.write_packet_data_length b n)
unfolding ThinPacketizer.write_packet_data_length
thin_write_packet_data_length-Keeps n b bytes =
    store_then IsBytes b bytes 2 (u8 (bit_and ((n - 1) >>> 8) 0xff)) _ (omega arith)
      λ b₁ k₁. store-Keeps 3 (u8 (bit_and (n - 1) 0xff)) (omega arith) b₁ k₁
