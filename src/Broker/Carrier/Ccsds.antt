-- ===== src/Broker/Carrier/Ccsds.antt =====
-- The CCSDS packetizer of src/Packetizer/CCSDSPacketizer.c carries messages.
use taste_runtime_common.Common.{ℕ, ◌+◌, ◌≤◌, ◌<◌, ◌≡◌, refl, ◌∙◌, arith, ◌==◌, ==_iff, false, true}
use taste_runtime_common.Memory.{Returns, Buffer}
use taste_runtime_common.Memory.Laws.{Returns-map}
use taste_runtime_common.Memory.Window.{window_ext}
use taste_runtime_common.SpacePacket.{PacketType, type_code, Packetizer, Packetized, Outputs}
use taste_runtime_common.SystemSpec.{System, cfg_strict_ccsds}
use taste_runtime_common.PacketizerTable.{functions}
use taste_runtime_common.IsoChecksum.Checksum.{first_ext, second_ext}
use taste_runtime_common.IsoChecksum.Fletcher.{first, second}
use taste_runtime_common.CcsdsPacketizer.{depacketize}
use taste_runtime_common.CcsdsPacketizer.Packet.{CanPacketize, PacketizedAs, HasHeader}
use taste_runtime_common.CcsdsPacketizer.Packetize.{ccsds_packetize-PacketizedAs}
use taste_runtime_common.CcsdsPacketizer.RoundTrip.{depacketize_of_packet}
use taste_runtime_common.Broker.Carrier.{Arrived, Opened, Carrier}

-- What the sender has to respect: the asserted ranges, and a size that the length field can say.
pub record Admits (size_mod destination count : ℕ) (b : Buffer) (length : ℕ) : Type 0 where
  pub can : CanPacketize size_mod destination count length b
  pub short : length < 65535

-- What it makes.
pub record Made (t : PacketType) (size_mod destination count : ℕ) (b : Buffer) (length : ℕ)
    (q : Packetized) : Type 0 where
  pub admitted : Admits size_mod destination count b length
  pub packet : PacketizedAs t destination count length b q

Arrived-PacketizedAs :
    {t : PacketType} {size_mod size_mod' destination count length : ℕ} {b c : Buffer}
    {q : Packetized}
    → Made t size_mod destination count b length q
    → Arrived size_mod' q c
    → PacketizedAs t destination count length c (record q { buffer = c })
Arrived-PacketizedAs {length = length} {c = c} {q = q} m a =
    let old : HasHeader _ _ _ _ q.buffer = m.packet.header in
    let below : (j : ℕ) → j < 8 + length → c.byte j ≡ q.buffer.byte j =
      λ j lt. a.same j (omega (arith, m.packet.size_is)) in
    let f : first c.byte (6 + length) ≡ first q.buffer.byte (6 + length) =
      first_ext c.byte q.buffer.byte (6 + length) λ j lt. below j (omega arith) in
    let g : second c.byte (6 + length) ≡ second q.buffer.byte (6 + length) =
      second_ext c.byte q.buffer.byte (6 + length) λ j lt. below j (omega arith) in
    record {
      header = record {
        octet_0 = below 0 (omega arith) ∙ old.octet_0;
        octet_1 = below 1 (omega arith) ∙ old.octet_1;
        octet_2 = below 2 (omega arith) ∙ old.octet_2;
        octet_3 = below 3 (omega arith) ∙ old.octet_3;
        octet_4 = below 4 (omega arith) ∙ old.octet_4;
        octet_5 = below 5 (omega arith) ∙ old.octet_5;
      };
      check_high = omega (arith, below (6 + length) (omega arith), m.packet.check_high, f, g);
      check_low = omega (arith, below (7 + length) (omega arith), m.packet.check_low, f, g);
      data_kept = λ j lo hi. refl;
      rest_kept = λ j lo. refl;
      same_size = refl;
      size_is = m.packet.size_is;
      next_count = m.packet.next_count;
    }

pub Arrived-Opened :
    {t : PacketType} {size_mod size_mod' destination count length : ℕ} {b c : Buffer}
    {q : Packetized} (p : Packetizer) (expected : PacketType) (bus : ℕ) (o : Outputs)
    → 4294967296 ≤ size_mod'
    → type_code t ≡ type_code expected
    → Made t size_mod destination count b length q
    → Arrived size_mod' q c
    → Returns
        (λ (accepted, o'). Opened destination b 6 length c accepted o')
        (depacketize size_mod' p expected c q.size bus o)
Arrived-Opened {t} {size_mod' = size_mod'} {destination} {count} {length} {b} {c} {q} p expected bus
      o wide type m a =
    let can : CanPacketize size_mod' destination count length c = record {
      wide = wide;
      count_in_range = m.admitted.can.count_in_range;
      destination_in_range = m.admitted.can.destination_in_range;
      some_data = m.admitted.can.some_data;
      size_in_range = m.admitted.can.size_in_range;
      room = omega (arith, m.packet.size_is, a.room);
      size_fits = a.fits;
      bytes = a.bytes;
    } in
    let opened = depacketize_of_packet p expected bus o can (Arrived-PacketizedAs m a) in
    let short : (length == 65535) ≡ false = ground (arith, m.admitted.short) in
    let same : (type_code t == type_code expected) ≡ true = (==_iff _ _).1 type in
    rw (m.packet.size_is, opened, short, same)
      (record {
        accepted_is = refl;
        destination_is = refl;
        inside = omega (arith, m.packet.size_is, a.room);
        data_is =
            window_ext c.byte b.byte 6 length
              λ j lo hi. a.same j (omega (arith, m.packet.size_is)) ∙ m.packet.data_kept j lo hi;
      })

abbrev pub ccsds_carrier :
    (s r : System) (bus : ℕ)
    → 4294967296 ≤ r.size_mod
    → type_code s.send_type ≡ type_code r.expect_type
    → Carrier s r (functions s cfg_strict_ccsds) (functions r cfg_strict_ccsds) 6 bus
ccsds_carrier s r bus wide type = record {
  Admits = λ p bus' source destination b length.
      Admits s.size_mod destination p.packet_sequence_count b length;
  Made = λ p source destination b length q.
      Made s.send_type s.size_mod destination p.packet_sequence_count b length q;
  packetizes = λ p bus' source destination b length admitted.
      Returns-map (PacketizedAs s.send_type destination p.packet_sequence_count length b)
        (Made s.send_type s.size_mod destination p.packet_sequence_count b length) _
        (λ q packet. record { admitted = admitted; packet = packet })
        (ccsds_packetize-PacketizedAs s.size_mod s.send_type bus' source destination length p b
          admitted.can);
  owned = λ p source destination b length q m.
      omega (arith, m.packet.size_is, m.packet.same_size, m.admitted.can.room);
  opens = λ p p' source destination b length q c o m a.
      Arrived-Opened p' r.expect_type bus o wide type m a;
}
