-- ===== src/Broker/Carrier/Passthrough.antt =====
-- The pass-through packetizer of src/Packetizer/PassthroughPacketizer.c carries messages, to the only
-- interface behind the receiver's bus.
use taste_runtime_common.Common.{ℕ, ◌≤◌, ◌<◌, ◌≡◌, refl, ap, ◌∙◌, arith, le→leb}
use taste_runtime_common.Memory.{Returns, Buffer, read, ok}
use taste_runtime_common.Memory.Window.{window_ext}
use taste_runtime_common.Words.{u16}
use taste_runtime_common.SpacePacket.{Packetizer, Packetized, Outputs}
use taste_runtime_common.SystemSpec.{System, cfg_passthrough}
use taste_runtime_common.PacketizerTable.{functions}
use taste_runtime_common.PassthroughPacketizer.{packetize, depacketize}
use taste_runtime_common.Broker.Carrier.{Arrived, Opened, Carrier}

-- What the sender has to respect, and the receiver's interface behind the bus.
pub record Admits (r : System) (bus destination : ℕ) (b : Buffer) (length : ℕ) : Type 0 where
  pub some_data : 1 ≤ length
  pub room : length ≤ b.size
  pub destination-lt : destination < 65536
  pub unique_port : read r.bus_to_unique_port_map bus ≡ ok destination

-- What it makes: the data is the packet.
pub record Made (r : System) (bus destination : ℕ) (b : Buffer) (length : ℕ) (q : Packetized)
    : Type 0 where
  pub admitted : Admits r bus destination b length
  pub same_buffer : q.buffer ≡ b
  pub size_is : q.size ≡ length

pub packetize-Made :
    (s r : System) (bus : ℕ) (p : Packetizer) (bus' source destination : ℕ) (b : Buffer)
    (length : ℕ)
    → Admits r bus destination b length
    → Returns
        (Made r bus destination b length)
        ((functions s cfg_passthrough).packetize p s.send_type bus' source destination b 0 length)
unfolding packetize
packetize-Made s r bus p bus' source destination b length admitted =
    rw (le→leb 1 length admitted.some_data)
      (record { admitted = admitted; same_buffer = refl; size_is = refl })

pub Arrived-Opened :
    (r : System) (bus destination : ℕ) (b : Buffer) (length : ℕ) (q : Packetized) (c : Buffer)
    (p : Packetizer) (o : Outputs)
    → Made r bus destination b length q
    → Arrived r.size_mod q c
    → Returns
        (λ (accepted, o'). Opened destination b 0 length c accepted o')
        ((functions r cfg_passthrough).depacketize p r.expect_type c q.size bus o)
unfolding depacketize
Arrived-Opened r bus destination b length q c p o m a =
    let whole : u16 destination ≡ destination = omega (arith, m.admitted.destination-lt) in
    rw (m.admitted.unique_port, whole, m.size_is)
      (record {
        accepted_is = refl;
        destination_is = refl;
        inside = omega (arith, m.size_is, a.room);
        data_is =
            window_ext c.byte b.byte 0 length
              λ j lo hi. a.same j (omega (arith, m.size_is)) ∙ ap (λ x. x.byte j) m.same_buffer;
      })

abbrev pub passthrough_carrier :
    (s r : System) (bus : ℕ)
    → Carrier s r (functions s cfg_passthrough) (functions r cfg_passthrough) 0 bus
passthrough_carrier s r bus = record {
  Admits = λ p bus' source destination b length. Admits r bus destination b length;
  Made = λ p source destination b length q. Made r bus destination b length q;
  packetizes = packetize-Made s r bus;
  owned = λ p source destination b length q m.
      omega (arith, m.size_is, m.admitted.room, ap (λ x. x.size) m.same_buffer);
  opens = λ p p' source destination b length q c o m a.
      Arrived-Opened r bus destination b length q c p' o m a;
}
