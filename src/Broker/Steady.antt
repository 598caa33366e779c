-- ===== src/Broker/Steady.antt =====
-- What the operations of the broker leave alone, on buses with packetizers of the library's own: the
-- size of the buffer, the table of packetizers once it is set, and the range of the sequence counts.
use taste_runtime_common.Common.{ℕ, ◌≤◌, ◌≡◌, arith}
use taste_runtime_common.Common.{Bool, true}
use taste_runtime_common.Memory.{Buffer, read, store, or_store, memset}
use taste_runtime_common.Memory.Partial.{IfReturns}
use taste_runtime_common.SpacePacket.{PacketType, Packetizer, Packetized}
use taste_runtime_common.SystemSpec.{
  System, PacketizerCfg, cfg_default, cfg_ccsds, cfg_strict_ccsds, cfg_thin, cfg_device_provided,
  cfg_passthrough,
}
use taste_runtime_common.PacketizerTable.{functions}
use taste_runtime_common.Packetizer as Default
use taste_runtime_common.CcsdsPacketizer
use taste_runtime_common.ThinPacketizer
use taste_runtime_common.PassthroughPacketizer
use taste_runtime_common.Broker.{Broker}
use taste_runtime_common.Broker.Relay.{is_own, device-is_own}

-- The buffer has its size, and a count in range stays in range.
abbrev pub IsSteady : Packetizer → Buffer → Packetized → Type 0
IsSteady p b q = (q.buffer.size ≡ b.size) × (q.packetizer.packet_sequence_count ≤ 16383)

default_packetize-IsSteady :
    (size_mod : ℕ) (p : Packetizer) (t : PacketType) (bus source destination : ℕ) (b : Buffer)
    (offset length : ℕ)
    → IfReturns
        (IsSteady p b)
        (Default.packetize size_mod p t bus source destination b offset length)
unfolding Default.packetize Default.write_packet_id Default.write_packet_sequence_control
    Default.write_packet_data_length Default.write_sender_pid Default.write_crc
    Default.next_sequence_count store or_store memset
default_packetize-IsSteady size_mod p t bus source destination b offset length = ground arith

ccsds_packetize-IsSteady :
    (size_mod : ℕ) (p : Packetizer) (t : PacketType) (bus source destination : ℕ) (b : Buffer)
    (offset length : ℕ)
    → IfReturns
        (IsSteady p b)
        (CcsdsPacketizer.packetize size_mod p t bus source destination b offset length)
unfolding CcsdsPacketizer.packetize CcsdsPacketizer.write_packet_id
    CcsdsPacketizer.write_packet_sequence_control CcsdsPacketizer.write_packet_data_length
    CcsdsPacketizer.write_checksum CcsdsPacketizer.next_sequence_count store or_store memset
ccsds_packetize-IsSteady size_mod p t bus source destination b offset length = ground arith

thin_packetize-IsSteady :
    (size_mod : ℕ) (p : Packetizer) (t : PacketType) (bus source destination : ℕ) (b : Buffer)
    (offset length : ℕ)
    → p.packet_sequence_count ≤ 16383
    → IfReturns
        (IsSteady p b)
        (ThinPacketizer.packetize size_mod p t bus source destination b offset length)
unfolding ThinPacketizer.packetize ThinPacketizer.write_packet_id
    ThinPacketizer.write_packet_data_length store or_store memset
thin_packetize-IsSteady size_mod p t bus source destination b offset length small = ground arith

pub packetize-IsSteady :
    (s : System) (cfg : PacketizerCfg) (p : Packetizer) (bus source destination : ℕ) (b : Buffer)
    (offset length : ℕ)
    → is_own cfg ≡ true
    → p.packet_sequence_count ≤ 16383
    → IfReturns
        (IsSteady p b)
        ((functions s cfg).packetize p s.send_type bus source destination b offset length)
unfolding PassthroughPacketizer.packetize
packetize-IsSteady s cfg_default p bus source destination b offset length own small =
    default_packetize-IsSteady s.size_mod p s.send_type bus source destination b offset length
packetize-IsSteady s cfg_ccsds p bus source destination b offset length own small =
    default_packetize-IsSteady s.size_mod p s.send_type bus source destination b offset length
packetize-IsSteady s cfg_strict_ccsds p bus source destination b offset length own small =
    ccsds_packetize-IsSteady s.size_mod p s.send_type bus source destination b offset length
packetize-IsSteady s cfg_thin p bus source destination b offset length own small =
    thin_packetize-IsSteady s.size_mod p s.send_type bus source destination b offset length small
packetize-IsSteady s cfg_passthrough p bus source destination b offset length own small =
    ground arith
packetize-IsSteady s cfg_device_provided p bus source destination b offset length own small =
    absurd (device-is_own own)

pub init-InRange :
    (s : System) (cfg : PacketizerCfg) (p : Packetizer) (bus : ℕ)
    → is_own cfg ≡ true
    → p.packet_sequence_count ≤ 16383
    → IfReturns (λ i. i.packetizer.packet_sequence_count ≤ 16383) ((functions s cfg).init p bus)
unfolding Default.init CcsdsPacketizer.init ThinPacketizer.init PassthroughPacketizer.init
init-InRange s cfg_default p bus own small = omega arith
init-InRange s cfg_ccsds p bus own small = omega arith
init-InRange s cfg_strict_ccsds p bus own small = omega arith
init-InRange s cfg_thin p bus own small = small
init-InRange s cfg_passthrough p bus own small = ground arith
init-InRange s cfg_device_provided p bus own small = absurd (device-is_own own)

-- The broker's buffer has its size, and no count has left its 14 bits.
pub record InOrder (size : ℕ) (broker : Broker) : Type 0 where
  pub size_is : broker.packetizer_buffer.size ≡ size
  pub counts : (bus : ℕ) → (broker.packetizers_data bus).packet_sequence_count ≤ 16383

-- Every bus has a packetizer of the library's own.
abbrev pub AllOwn : System → Type 0
AllOwn s = (bus : ℕ) → IfReturns (λ cfg. is_own cfg ≡ true) (read s.bus_to_packetizer_cfg bus)

-- What an operation leaves, with the table of packetizers set or not, as it was.
abbrev pub Leaves {ℓ} : {A : Type ℓ} → ℕ → Bool → Broker × A → Type 0
Leaves size set (broker, out) = InOrder size broker × (broker.functions_set ≡ set)
