-- ===== src/Broker/AnyPacket.antt =====
-- What `Broker_receive_packet` may do with any bytes that arrive on a bus with any of the library's own
-- packetizers.
mod Tests
use taste_runtime_common.Common.{
  ℕ, ◌+◌, ◌-◌, ◌*◌, ◌/◌, ◌%◌, ◌≤◌, ◌<◌, ◌≡◌, refl, ap, ◌∙◌, sym, arith, ◌⊎◌, inl, inr, some,
}
use taste_runtime_common.Common.{
  Bool, true, false, Bool-cases, ◌==◌, ==_iff, ltb, leb, List, [], ◌∷◌, ◌++◌, if◌then◌else◌,
}
use taste_runtime_common.Words.{u16}
use taste_runtime_common.Memory.{Result, ok, ◌>>=◌, Returns, Buffer, read, window}
use taste_runtime_common.Memory.Laws.{Returns-map, Returns-of_eq, eq_of_Returns}
use taste_runtime_common.SpacePacket.{PacketType, type_code, Packetizer, Outputs, set_error}
use taste_runtime_common.SystemSpec.{
  System, PacketizerCfg, cfg_default, cfg_ccsds, cfg_strict_ccsds, cfg_thin, cfg_device_provided,
  cfg_passthrough,
}
use taste_runtime_common.PacketizerTable.{functions}
use taste_runtime_common.Packetizer.Verdict.{IsBytes, word_at}
use taste_runtime_common.Packetizer.Outcome.{Outcome, depacketize-Outcome}
use taste_runtime_common.CcsdsPacketizer.Verdict as Ccsds
use taste_runtime_common.ThinPacketizer.Verdict as Thin
use taste_runtime_common.PassthroughPacketizer.{depacketize}
use taste_runtime_common.Broker.{
  Broker, Effect, ErrorType, acquire_lock, release_lock, deliver, report, no_outputs, error_value,
  to_broker_error, accept, reject, receive_packet,
}
use taste_runtime_common.Broker.Delivery.{slice_lem}
use taste_runtime_common.Broker.Reception.{Listens, passed_pid, accept_lem, receive_of_depacketized}
use taste_runtime_common.Broker.Relay.{is_own, device-is_own}

-- Each number of 16 bits has a deliver function, and the bus an entry in the table of unique ports.
pub record KnowsAll (s : System) (bus : ℕ) : Type 0 where
  pub function : ℕ → ℕ
  pub is_read :
      (destination : ℕ)
      → destination < 65536
      → read s.interface_to_deliver_function destination ≡ ok (function destination)
  pub is_set : (destination : ℕ) → destination < 65536 → 1 ≤ function destination
  pub port : ℕ
  pub port_is : read s.bus_to_unique_port_map bus ≡ ok port

-- The data lies in the packet; or there is an error, without a code for a short packet only.
abbrev pub IsDecided : ℕ → Bool × Outputs → Type 0
IsDecided length (accepted, o) =
    ((accepted ≡ true) × (o.destination < 65536) × (o.data_offset + o.data_size ≤ length))
    ⊎ ((accepted ≡ false)
        × (error_value o.error_code ≤ 4)
        × ((1 ≤ error_value o.error_code) ⊎ (length ≤ 8)))

default-IsDecided :
    (t : PacketType) (b : Buffer) (length : ℕ) (a : Bool × Outputs)
    → Outcome t b length no_outputs a
    → IsDecided length a
default-IsDecided t b length a outcome = elim outcome [
  | inl (passed, is) ↦
      inl (passed, omega (arith, is.destination_in_range), omega (arith, is.data_inside))
  | inr (failed, refused) ↦
      let (code, lo, hi, is) = refused in inr (failed, rw is hi, inl (rw is lo))
]

ccsds-IsDecided :
    (t : PacketType) (f : ℕ → ℕ) (length : ℕ)
    → ((j : ℕ) → f j < 256)
    → IsDecided length (Ccsds.verdict t f length no_outputs)
ccsds-IsDecided t f length bytes = ground (arith, bytes 0, bytes 1)

thin-IsDecided :
    (f : ℕ → ℕ) (length : ℕ)
    → ((j : ℕ) → f j < 256)
    → IsDecided length (Thin.verdict f length no_outputs)
thin-IsDecided f length bytes = ground (arith, bytes 0, bytes 1)

-- The packetizer of the bus decides.
depacketize-IsDecided :
    (s : System) (cfg : PacketizerCfg) (p : Packetizer) (b : Buffer) (length bus : ℕ)
    → is_own cfg ≡ true
    → KnowsAll s bus
    → 4294967296 ≤ s.size_mod
    → IsBytes b
    → length ≤ b.size
    → b.size < s.size_mod
    → Returns
        (IsDecided length)
        ((functions s cfg).depacketize p s.expect_type b length bus no_outputs)
unfolding depacketize
depacketize-IsDecided s cfg_default p b length bus own k wide bytes room fits =
    Returns-map (Outcome s.expect_type b length no_outputs) (IsDecided length) _
      (default-IsDecided s.expect_type b length)
      (depacketize-Outcome s.size_mod p s.expect_type b length bus no_outputs wide bytes room fits)
depacketize-IsDecided s cfg_ccsds p b length bus own k wide bytes room fits =
    Returns-map (Outcome s.expect_type b length no_outputs) (IsDecided length) _
      (default-IsDecided s.expect_type b length)
      (depacketize-Outcome s.size_mod p s.expect_type b length bus no_outputs wide bytes room fits)
depacketize-IsDecided s cfg_strict_ccsds p b length bus own k wide bytes room fits =
    Returns-of_eq (IsDecided length)
      (Ccsds.ccsds_depacketize-eq-verdict s.size_mod wide p s.expect_type b length bus no_outputs
        bytes room fits)
      (ccsds-IsDecided s.expect_type b.byte length bytes)
depacketize-IsDecided s cfg_thin p b length bus own k wide bytes room fits =
    Returns-of_eq (IsDecided length)
      (Thin.thin_depacketize-eq-verdict s.size_mod wide p s.expect_type b length bus no_outputs
        bytes room fits)
      (thin-IsDecided b.byte length bytes)
depacketize-IsDecided s cfg_passthrough p b length bus own k wide bytes room fits =
    rw k.port_is (inl (refl, omega arith, omega arith))
depacketize-IsDecided s cfg_device_provided p b length bus own k wide bytes room fits =
    absurd (device-is_own own)

-- A part of the packet was delivered.
pub record IsPartDelivered (s : System) (bus : ℕ) (k : KnowsAll s bus) (packet : Buffer)
    (length : ℕ) (done : List Effect) : Type 0 where
  pub destination : ℕ
  pub source : ℕ
  pub offset : ℕ
  pub size : ℕ
  pub inside : offset + size ≤ length
  pub delivered :
      done
      ≡ deliver (k.function destination) (passed_pid s source) (window packet.byte offset size) ∷ []

-- The callback, where there is one, was told an error, by a code but for a short packet.
pub record IsErrorReported (callback : ℕ) (packet : Buffer) (length : ℕ) (done : List Effect)
    : Type 0 where
  pub code : ℕ
  pub known : ((1 ≤ code) × (code ≤ 4)) ⊎ (length ≤ 8)
  pub reported : done ≡ (
      if callback == 0
      then []
      else report callback (to_broker_error code) (window packet.byte 0 length) ∷ [])

-- One of the two, between the calls of the lock; the broker is unchanged.
pub record IsAnswered (s : System) (bus : ℕ) (k : KnowsAll s bus) (broker : Broker)
    (packet : Buffer) (length : ℕ) (broker' : Broker) (effects : List Effect) : Type 0 where
  pub same_broker : broker' ≡ broker
  pub done : List Effect
  pub locked : effects ≡ acquire_lock ∷ (done ++ (release_lock ∷ []))
  pub outcome :
      IsPartDelivered s bus k packet length done
      ⊎ IsErrorReported broker.error_callback packet length done

reject_lem :
    (broker : Broker) (packet : Buffer) (length : ℕ) (o : Outputs)
    → length ≤ packet.size
    → reject broker packet length o
      ≡ ok (
          if broker.error_callback == 0
          then []
          else report broker.error_callback
              (to_broker_error (error_value o.error_code))
              (window packet.byte 0 length)
            ∷ [])
unfolding reject
reject_lem broker packet length o room = elim (Bool-cases (broker.error_callback == 0)) [
  | inl silent ↦ rw silent refl
  | inr told ↦ rw (told, slice_lem packet 0 length (omega arith)) refl
]

-- Any bytes that arrive in a buffer, on a bus with any of the library's own packetizers, at an
-- initialized broker that has a deliver function for each number of 16 bits and an entry for the bus
-- in the table of unique ports: Broker_receive_packet returns, without an access out of bounds, and
-- leaves the broker as it was. Between the calls of the lock, either a part of the packet is
-- delivered; or the error callback, where there is one, is told an error, with the packet: that of a
-- code from 1 to 4, unless the packet has at most 8 bytes. size_t has 32 bits or more.
pub receive_packet-IsAnswered :
    (s : System) (cfg : PacketizerCfg) (broker : Broker) (bus : ℕ) (packet : Buffer) (length : ℕ)
    (k : KnowsAll s bus)
    → is_own cfg ≡ true
    → Listens s broker cfg bus
    → IsBytes packet
    → length ≤ packet.size
    → packet.size < s.size_mod
    → Returns
        (λ (broker', effects). IsAnswered s bus k broker packet length broker' effects)
        (receive_packet s broker bus packet length)
receive_packet-IsAnswered s cfg broker bus packet length k own listens bytes room fits =
    let ((result, o), found, decided) = eq_of_Returns (IsDecided length) _ (
      depacketize-IsDecided s cfg (broker.packetizers_data bus) packet length bus own k listens.wide
        bytes room fits) in
    rw (receive_of_depacketized s broker cfg bus packet length result o listens found)
      (elim decided [
        | inl (passed, small, inside) ↦
            rw
              (
                passed,
                accept_lem s packet o (k.function o.destination) (k.is_read o.destination small)
                    (k.is_set o.destination small) (omega arith),
              )
              (record {
                same_broker = refl;
                done = _;
                locked = refl;
                outcome = inl (record {
                  destination = o.destination;
                  source = o.source;
                  offset = o.data_offset;
                  size = o.data_size;
                  inside = inside;
                  delivered = refl;
                });
              })
        | inr (failed, hi, known) ↦
            rw (failed, reject_lem broker packet length o room)
              (record {
                same_broker = refl;
                done = _;
                locked = refl;
                outcome = inr (record {
                  code = error_value o.error_code;
                  known = elim known [ inl lo ↦ inl (lo, hi) | inr short ↦ inr short ];
                  reported = refl;
                });
              })
      ])
