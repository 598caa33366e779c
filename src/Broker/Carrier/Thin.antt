-- ===== src/Broker/Carrier/Thin.antt =====
-- The thin packetizer of src/Packetizer/ThinPacketizer.c carries messages.
use taste_runtime_common.Common.{ℕ, ◌%◌, ◌≤◌, ◌≡◌, refl, ◌∙◌, arith, ◌==◌, false}
use taste_runtime_common.Memory.{Returns, Buffer}
use taste_runtime_common.Memory.Laws.{Returns-map}
use taste_runtime_common.Memory.Window.{window_ext}
use taste_runtime_common.SpacePacket.{PacketType, Packetizer, Packetized, Outputs}
use taste_runtime_common.SystemSpec.{System, cfg_thin}
use taste_runtime_common.PacketizerTable.{functions}
use taste_runtime_common.ThinPacketizer.{depacketize}
use taste_runtime_common.ThinPacketizer.RoundTrip.{
  CanPacketize, PacketizedAs, packetize-PacketizedAs, depacketize_of_packet,
}
use taste_runtime_common.Broker.Carrier.{Arrived, Opened, Carrier}

-- What the sender has to respect: the asserted ranges, and a size that is read back.
pub record Admits (size_mod destination : ℕ) (b : Buffer) (length : ℕ) : Type 0 where
  pub can : CanPacketize size_mod destination length b
  pub short : length ≤ 65536
  pub read_back : (length % 512 == 0) ≡ false

-- What it makes.
pub record Made (size_mod destination : ℕ) (b : Buffer) (length : ℕ) (q : Packetized) : Type 0 where
  pub admitted : Admits size_mod destination b length
  pub packet : PacketizedAs destination length b q

Arrived-PacketizedAs :
    {size_mod size_mod' destination length : ℕ} {b c : Buffer} {q : Packetized}
    → Made size_mod destination b length q
    → Arrived size_mod' q c
    → PacketizedAs destination length c (record q { buffer = c })
Arrived-PacketizedAs m a = record {
  octet_0 = a.same 0 (omega (arith, m.packet.size_is)) ∙ m.packet.octet_0;
  octet_1 = a.same 1 (omega (arith, m.packet.size_is)) ∙ m.packet.octet_1;
  octet_2 = a.same 2 (omega (arith, m.packet.size_is)) ∙ m.packet.octet_2;
  octet_3 = a.same 3 (omega (arith, m.packet.size_is)) ∙ m.packet.octet_3;
  data_kept = λ j lo. refl;
  same_size = refl;
  size_is = m.packet.size_is;
}

pub Arrived-Opened :
    {size_mod size_mod' destination length : ℕ} {b c : Buffer} {q : Packetized} (p : Packetizer)
    (t : PacketType) (bus : ℕ) (o : Outputs)
    → 4294967296 ≤ size_mod'
    → Made size_mod destination b length q
    → Arrived size_mod' q c
    → Returns
        (λ (accepted, o'). Opened destination b 4 length c accepted o')
        (depacketize size_mod' p t c q.size bus o)
Arrived-Opened {size_mod' = size_mod'} {destination} {length} {b} {c} {q} p t bus o wide m a =
    let can : CanPacketize size_mod' destination length c = record {
      destination_in_range = m.admitted.can.destination_in_range;
      some_data = m.admitted.can.some_data;
      size_in_range = m.admitted.can.size_in_range;
      room = omega (arith, m.packet.size_is, a.room);
      size_fits = a.fits;
    } in
    let opened =
      depacketize_of_packet size_mod' destination length p t bus o c (record q { buffer = c }) wide
        m.admitted.short can (Arrived-PacketizedAs m a) in
    rw (m.packet.size_is, opened, m.admitted.read_back)
      (record {
        accepted_is = refl;
        destination_is = refl;
        inside = omega (arith, m.packet.size_is, a.room);
        data_is =
            window_ext c.byte b.byte 4 length
              λ j lo hi. a.same j (omega (arith, m.packet.size_is)) ∙ m.packet.data_kept j lo;
      })

abbrev pub thin_carrier :
    (s r : System) (bus : ℕ)
    → 4294967296 ≤ r.size_mod
    → Carrier s r (functions s cfg_thin) (functions r cfg_thin) 4 bus
thin_carrier s r bus wide = record {
  Admits = λ p bus' source destination b length. Admits s.size_mod destination b length;
  Made = λ p source destination b length q. Made s.size_mod destination b length q;
  packetizes = λ p bus' source destination b length admitted.
      Returns-map (PacketizedAs destination length b) (Made s.size_mod destination b length) _
        (λ q packet. record { admitted = admitted; packet = packet })
        (packetize-PacketizedAs s.size_mod p s.send_type bus' source destination length b
          admitted.can);
  owned = λ p source destination b length q m.
      omega (arith, m.packet.size_is, m.packet.same_size, m.admitted.can.room);
  opens =
      λ p p' source destination b length q c o m a. Arrived-Opened p' r.expect_type bus o wide m a;
}
