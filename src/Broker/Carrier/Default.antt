-- ===== src/Broker/Carrier/Default.antt =====
-- The default packetizer of src/Packetizer/Packetizer.c carries messages.
use taste_runtime_common.Common.{ℕ, ◌+◌, ◌≤◌, ◌<◌, ◌≡◌, refl, ◌∙◌, arith, ◌==◌, ==_iff, true}
use taste_runtime_common.Memory.{Returns, Buffer}
use taste_runtime_common.Memory.Laws.{Returns-map}
use taste_runtime_common.Memory.Window.{window_ext}
use taste_runtime_common.SpacePacket.{PacketType, type_code, Packetizer, Packetized, Outputs}
use taste_runtime_common.SystemSpec.{System, cfg_default, cfg_ccsds}
use taste_runtime_common.PacketizerTable.{functions}
use taste_runtime_common.Packetizer.{depacketize}
use taste_runtime_common.Packetizer.Packet.{
  Header, CanPacketize, PacketizedAs, IsPacket, packetize-PacketizedAs,
}
use taste_runtime_common.Packetizer.Copy.{copy-IsPacket, depacketize_of_packet}
use taste_runtime_common.Packetizer.RoundTrip.{HeaderInRange}
use taste_runtime_common.Broker.Carrier.{Arrived, Opened, Carrier}

abbrev pub header_for : PacketType → Packetizer → (source destination length : ℕ) → Header
header_for t p source destination length = record {
  packet_type = t;
  destination = destination;
  source = source;
  count = p.packet_sequence_count;
  data_size = length;
}

-- What the sender has to respect: the asserted ranges, and a source of 16 bits.
pub record Admits (size_mod : ℕ) (h : Header) (b : Buffer) : Type 0 where
  pub can : CanPacketize size_mod h b
  pub source-lt : h.source < 65536

-- What it makes.
pub record Made (size_mod : ℕ) (h : Header) (b : Buffer) (q : Packetized) : Type 0 where
  pub admitted : Admits size_mod h b
  pub packet : PacketizedAs h b q

pub Arrived-Opened :
    {size_mod size_mod' : ℕ} {h : Header} {b c : Buffer} {q : Packetized} (p : Packetizer)
    (expected : PacketType) (bus : ℕ) (o : Outputs)
    → 4294967296 ≤ size_mod'
    → type_code h.packet_type ≡ type_code expected
    → Made size_mod h b q
    → Arrived size_mod' q c
    → Returns
        (λ (accepted, o'). Opened h.destination b 8 h.data_size c accepted o')
        (depacketize size_mod' p expected c q.size bus o)
Arrived-Opened {size_mod' = size_mod'} {h} {b} {c} {q} p expected bus o wide type m a =
    let room : 12 + h.data_size ≤ c.size = omega (arith, m.packet.size_is, a.room) in
    let same : (j : ℕ) → j < 12 + h.data_size → c.byte j ≡ q.buffer.byte j =
      λ j below. a.same j (omega (arith, m.packet.size_is)) in
    let is : IsPacket h c =
      copy-IsPacket h q.buffer c (omega (arith, m.packet.same_size, m.admitted.can.room)) room same
        m.packet.packet in
    let range : HeaderInRange h = (
      m.admitted.can.count_in_range, m.admitted.can.destination_in_range, m.admitted.source-lt,
      m.admitted.can.size_in_range,
    ) in
    let opened =
      depacketize_of_packet size_mod' p expected h c bus o wide a.bytes room a.fits range is in
    let equal : (type_code h.packet_type == type_code expected) ≡ true = (==_iff _ _).1 type in
    rw (m.packet.size_is, opened, equal)
      (record {
        accepted_is = refl;
        destination_is = refl;
        inside = omega (arith, room);
        data_is =
            window_ext c.byte b.byte 8 h.data_size
              λ j lo hi. same j (omega arith) ∙ m.packet.data_kept j lo hi;
      })

-- PACKETIZER_DEFAULT and PACKETIZER_CCSDS have the same functions.
module _ (s r : System) (bus : ℕ) (wide : 4294967296 ≤ r.size_mod)
    (type : type_code s.send_type ≡ type_code r.expect_type) where
  abbrev pub default_carrier : Carrier s r (functions s cfg_default) (functions r cfg_default) 8 bus
  default_carrier = record {
    Admits = λ p bus' source destination b length.
        Admits s.size_mod (header_for s.send_type p source destination length) b;
    Made = λ p source destination b length q.
        Made s.size_mod (header_for s.send_type p source destination length) b q;
    packetizes = λ p bus' source destination b length admitted.
        Returns-map (PacketizedAs (header_for s.send_type p source destination length) b)
          (Made s.size_mod (header_for s.send_type p source destination length) b) _
          (λ q packet. record { admitted = admitted; packet = packet })
          (packetize-PacketizedAs s.size_mod (header_for s.send_type p source destination length)
            bus' b admitted.can);
    owned = λ p source destination b length q m.
        omega (arith, m.packet.size_is, m.packet.same_size, m.admitted.can.room);
    opens = λ p p' source destination b length q c o m a.
        Arrived-Opened p' r.expect_type bus o wide type m a;
  }

  abbrev pub ccsds_default_carrier :
      Carrier s r (functions s cfg_ccsds) (functions r cfg_ccsds) 8 bus
  ccsds_default_carrier = default_carrier
