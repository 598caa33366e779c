-- ===== src/Broker/Outcome.antt =====
-- What `Broker_receive_packet` does with any bytes that arrive on a bus with the default packetizer.
use taste_runtime_common.Common.{
  ℕ, ◌+◌, ◌-◌, ◌*◌, ◌/◌, ◌%◌, ◌≤◌, ◌<◌, ◌≡◌, refl, ap, ◌∙◌, arith, inl, inr,
}
use taste_runtime_common.Common.{
  Bool, true, false, not, Bool-cases, ltb, not_ltb→le, ◌==◌, List, [], ◌∷◌, ◌++◌, if◌then◌else◌,
}
use taste_runtime_common.Memory.{Result, ok, Buffer, read, window}
use taste_runtime_common.SpacePacket.{
  type_code, Outputs, set_error, incorrect_crc16, incorrect_packet_type, incorrect_packet_size,
  packet_too_small,
}
use taste_runtime_common.Crc16.{calculate_crc16}
use taste_runtime_common.SystemSpec.{System, cfg_default}
use taste_runtime_common.Packetizer.Verdict.{IsBytes, word_at, received_size, sized_by, verdict}
use taste_runtime_common.Packetizer.Depacketize.{depacketize-eq-verdict}
use taste_runtime_common.Broker.{
  Broker, Effect, ErrorType, broker_crc16, broker_packet_type, broker_packet_size, broker_too_small,
  acquire_lock, release_lock, deliver, report, no_outputs, to_broker_error, accept, reject,
  receive_packet,
}
use taste_runtime_common.Broker.Delivery.{slice_lem}
use taste_runtime_common.Broker.Reception.{Listens, passed_pid, accept_lem, receive_of_depacketized}

-- Each destination that a header can name has a deliver function.
pub record Knows (s : System) : Type 0 where
  pub function : ℕ → ℕ
  pub is_read :
      (destination : ℕ)
      → destination ≤ 2047
      → read s.interface_to_deliver_function destination ≡ ok (function destination)
  pub is_set : (destination : ℕ) → destination ≤ 2047 → 1 ≤ function destination

-- The callback, where there is one, is told an error, with the packet.
abbrev pub told : (callback : ℕ) → ErrorType → Buffer → (length : ℕ) → List Effect
told callback error packet length =
    if callback == 0 then [] else report callback error (window packet.byte 0 length) ∷ []

-- What is to become of a packet: the checks in their order, with the CRC `sum` of all but its last four
-- bytes; the error callback, where there is one, is told what is wrong, with the packet; a packet that
-- passes is delivered to the interface that its first two bytes name.
abbrev pub handled :
    (s : System) → Knows s → (callback sum : ℕ) → (packet : Buffer) (length : ℕ) → List Effect
handled s k callback sum packet length =
    if ltb length 12
    then told callback broker_too_small packet length
    else if not (length == 12 + received_size packet.byte)
    then told callback broker_packet_size packet length
    else if not (word_at packet.byte (length - 2) == sum)
    then told callback broker_crc16 packet length
    else if not (packet.byte 0 / 8 % 2 == type_code s.expect_type)
    then told callback broker_packet_type packet length
    else deliver (k.function (packet.byte 0 / 32 * 256 + packet.byte 1))
        (passed_pid s (word_at packet.byte (length - 4))) (window packet.byte 8 (length - 12))
      ∷ []

reject_lem :
    (broker : Broker) (packet : Buffer) (length code : ℕ)
    → length ≤ packet.size
    → reject broker packet length (set_error no_outputs code)
      ≡ ok (told broker.error_callback (to_broker_error code) packet length)
unfolding reject
reject_lem broker packet length code room = elim (Bool-cases (broker.error_callback == 0)) [
  | inl silent ↦ rw silent refl
  | inr heard ↦ rw (heard, slice_lem packet 0 length (omega arith)) refl
]

-- What the broker does with a decision of the packetizer.
abbrev answered : System → Broker → Buffer → ℕ → Bool × Outputs → Result (List Effect)
answered s broker packet length (accepted, o) =
    if accepted then accept s packet o else reject broker packet length o

module _ (s : System) (k : Knows s) (broker : Broker) (packet : Buffer) (length sum : ℕ)
    (bytes : IsBytes packet) (room : length ≤ packet.size) where
  rejected :
      (code : ℕ) (error : ErrorType)
      → to_broker_error code ≡ error
      → reject broker packet length (set_error no_outputs code)
        ≡ ok (told broker.error_callback error packet length)
  rejected code error is =
      reject_lem broker packet length code room
      ∙ ap (λ e. ok (told broker.error_callback e packet length)) is

  delivered :
      12 ≤ length
      → accept s packet (record no_outputs {
        source = word_at packet.byte (length - 4);
        destination = packet.byte 0 / 32 * 256 + packet.byte 1;
        data_offset = 8;
        data_size = length - 12;
      })
        ≡ ok (
            deliver
              (k.function (packet.byte 0 / 32 * 256 + packet.byte 1))
              (passed_pid s (word_at packet.byte (length - 4)))
              (window packet.byte 8 (length - 12))
            ∷ [])
  delivered large =
      let small : packet.byte 0 / 32 * 256 + packet.byte 1 ≤ 2047 =
        omega (arith, bytes 0, bytes 1) in
      accept_lem s packet _ (k.function (packet.byte 0 / 32 * 256 + packet.byte 1))
        (k.is_read _ small) (k.is_set _ small) (omega arith)

  answered-sized_by :
      12 ≤ length
      → (length == 12 + received_size packet.byte) ≡ true
      → answered s broker packet length (sized_by sum s.expect_type packet.byte length no_outputs)
        ≡ ok (handled s k broker.error_callback sum packet length)
  unfolding to_broker_error
  answered-sized_by large sized =
      let long : ltb length 12 ≡ false = ground arith in
      rw (long, sized)
        (elim (Bool-cases (word_at packet.byte (length - 2) == sum)) [
          | inr changed ↦ rw changed (rejected incorrect_crc16 broker_crc16 refl)
          | inl matches ↦
              rw matches (elim (Bool-cases (packet.byte 0 / 8 % 2 == type_code s.expect_type)) [
                | inr other ↦ rw other (rejected incorrect_packet_type broker_packet_type refl)
                | inl same ↦ rw same (delivered large)
              ])
        ])

  answered-verdict :
      answered s broker packet length (verdict sum s.expect_type packet.byte length no_outputs)
      ≡ ok (handled s k broker.error_callback sum packet length)
  unfolding to_broker_error
  answered-verdict = elim (Bool-cases (ltb length 12)) [
    | inl short ↦ rw short (rejected packet_too_small broker_too_small refl)
    | inr long ↦ elim (Bool-cases (length == 12 + received_size packet.byte)) [
      | inr other ↦ rw (long, other) (rejected incorrect_packet_size broker_packet_size refl)
      | inl sized ↦
          let answer = answered-sized_by (not_ltb→le _ _ long) sized in
          rw (long, sized) (rw (long, sized) at answer)
    ]
  ]

-- Any bytes that arrive in a buffer, on a bus with the default packetizer, at an initialized broker
-- that has a deliver function for each destination that a header can name, with a size_t of 32 bits or
-- more: Broker_receive_packet returns, without an access out of bounds, and leaves the broker as it
-- was. Between the calls of the lock it does what the bytes call for. A packet of less than 12 bytes,
-- of a size that is not the one its length field says, with a CRC that is not that of its header and
-- data, or of an unexpected type is not delivered, and the error callback, where there is one, is told
-- the first of these errors that it has, with the packet. Any other packet is delivered, to the
-- interface of the 11 bits that name one in its first two bytes, with all between its header and the
-- last four bytes, and with the sender PID in front of the CRC if the node passes it on; the callback
-- is not called.
pub receive_packet-eq-handled :
    (s : System) (k : Knows s) (broker : Broker) (bus : ℕ) (packet : Buffer) (length : ℕ)
    → Listens s broker cfg_default bus
    → IsBytes packet
    → length ≤ packet.size
    → packet.size < s.size_mod
    → (sum : ℕ) × (calculate_crc16 packet (length - 4) ≡ ok sum)
      × (receive_packet s broker bus packet length
          ≡ ok (
            broker,
            acquire_lock
                ∷ (handled s k broker.error_callback sum packet length ++ (release_lock ∷ [])),
          ))
receive_packet-eq-handled s k broker bus packet length listens bytes room fits =
    let (sum, sum_is, decided) =
      depacketize-eq-verdict s.size_mod listens.wide (broker.packetizers_data bus) s.expect_type
        packet length bus no_outputs bytes room fits in
    let v : Bool × Outputs = verdict sum s.expect_type packet.byte length no_outputs in
    (
      sum,
      sum_is,
      receive_of_depacketized s broker cfg_default bus packet length v.0 v.1 listens decided
          ∙ rw (answered-verdict s k broker packet length sum bytes room) refl,
    )
