-- ===== src/Broker/Carrier/Path.antt =====
-- The path of a message from one node to another, whatever the packetizer of the bus: through
-- `Broker_deliver_request`, the driver, and `Broker_receive_packet` (src/Broker/Broker.c).
use taste_runtime_common.Common.{ℕ, ◌+◌, ◌≤◌, ◌<◌, ◌≡◌, refl, sym, ap, ◌∙◌, arith}
use taste_runtime_common.Common.{Bool, List, [], ◌∷◌, length as count}
use taste_runtime_common.Common.{if◌then◌else◌}
use taste_runtime_common.Words.{u16}
use taste_runtime_common.Memory.{ok, Returns, Buffer, read, window}
use taste_runtime_common.Memory.Laws.{Returns-bind, Returns-of_eq, eq_of_Returns}
use taste_runtime_common.Memory.Window.{byte_of_window, length-window, window_shift}
use taste_runtime_common.SpacePacket.{Packetizer, Packetized, Outputs}
use taste_runtime_common.SystemSpec.{System, PacketizerCfg}
use taste_runtime_common.PacketizerTable.{functions, header_size_of}
use taste_runtime_common.Packetizer.Verdict.{IsBytes}
use taste_runtime_common.Broker.{
  Broker, Effect, acquire_lock, release_lock, send, no_outputs, receive_packet, deliver_request,
}
use taste_runtime_common.Broker.Delivery.{
  Leads, copied, memcpy_lem, table_entry_lem, packetizer_of_lem, slice_lem, call_lem,
}
use taste_runtime_common.Broker.Reception.{Listens, accept_lem, receive_of_depacketized}
use taste_runtime_common.Broker.Carrier.{
  Arrived, Opened, Carrier, sent_bytes, sent_by, SentOnce, DeliveredOnce,
}

module _ (s r : System) (cfg cfg' : PacketizerCfg) (header bus : ℕ)
    (carrier : Carrier s r (functions s cfg) (functions r cfg') header bus) where
  -- What the sender's packetizer is given.
  abbrev pub source_of : ℕ → ℕ
  source_of sender_pid = if s.passes_sender_pid then u16 sender_pid else 0

  -- The message with its header fits the broker's buffer, and the packetizer admits it.
  pub record CanCarry (broker : Broker) (bus' interface sender_pid : ℕ) (message : Buffer)
      (length : ℕ) : Type 0 where
    pub interface-lt : interface < 65536
    pub message_owned : length ≤ message.size
    pub room : header + length ≤ broker.packetizer_buffer.size
    pub admits :
        carrier.Admits
          (broker.packetizers_data bus')
          bus'
          (source_of sender_pid)
          interface
          (copied broker.packetizer_buffer header message length)
          length

  -- What a request leaves.
  abbrev Carried :
      (send_function private_data : ℕ)
      → Packetizer
      → (source destination : ℕ) → Buffer
      → ℕ
      → Broker × List Effect
      → Type 0
  Carried send_function private_data p source destination b length (broker', effects) =
      (q : Packetized) × carrier.Made p source destination b length q
      × (effects
          ≡ acquire_lock
            ∷ send send_function private_data (window q.buffer.byte 0 q.size)
            ∷ release_lock
            ∷ [])

  deliver_request-Carried :
      (broker : Broker) (interface sender_pid : ℕ) (message : Buffer) (length : ℕ)
      (leads : Leads s broker cfg interface)
      → header_size_of s cfg leads.bus (functions s cfg) ≡ header
      → CanCarry broker leads.bus interface sender_pid message length
      → Returns
          (Carried leads.send_function leads.private_data
            (broker.packetizers_data leads.bus)
            (source_of sender_pid)
            interface
            (copied broker.packetizer_buffer header message length)
            length)
          (deliver_request s broker interface sender_pid message length)
  unfolding deliver_request
  deliver_request-Carried broker interface sender_pid message length leads header_is can =
      let p : Packetizer = broker.packetizers_data leads.bus in
      let b : Buffer = copied broker.packetizer_buffer header message length in
      let whole : u16 interface ≡ interface = omega (arith, can.interface-lt) in
      rw
        (
          leads.bus_is,
          leads.cfg_is,
          table_entry_lem s broker cfg leads.initialized,
          header_is,
          memcpy_lem broker.packetizer_buffer header message length can.room can.message_owned,
          packetizer_of_lem s broker leads.bus leads.bus-lt,
          whole,
        )
        (Returns-bind (carrier.Made p (source_of sender_pid) interface b length) _ _ _
          (carrier.packetizes p leads.bus (source_of sender_pid) interface b length can.admits)
          λ q made.
            rw
              (
                leads.private_data_is,
                leads.send_function_is,
                slice_lem q.buffer 0 q.size (
                    omega
                      (arith, carrier.owned p (source_of sender_pid) interface b length q made)),
                call_lem leads.send_function _ leads.send_function_set,
              )
              (q, made, refl))

  message_of_copied :
      (b message : Buffer) (length : ℕ)
      → window (copied b header message length).byte header length ≡ window message.byte 0 length
  message_of_copied b message length =
      window_shift (copied b header message length).byte message.byte header 0 length
        λ j below. ground arith

  -- A packet that arrives, of those that the sender makes.
  receive_packet-DeliveredOnce :
      (receiver : Broker) (function : ℕ) (p : Packetizer) (source destination : ℕ) (b : Buffer)
      (length : ℕ) (q : Packetized) (packet : Buffer)
      → Listens r receiver cfg' bus
      → read r.interface_to_deliver_function destination ≡ ok function
      → 1 ≤ function
      → carrier.Made p source destination b length q
      → Arrived r.size_mod q packet
      → Returns
          (DeliveredOnce r receiver function (window b.byte header length))
          (receive_packet r receiver bus packet q.size)
  receive_packet-DeliveredOnce receiver function p source destination b length q packet listens
        found set made arrived =
      let P : Bool × Outputs → Type 0 =
        λ (accepted, o'). Opened destination b header length packet accepted o' in
      let ((accepted, o), is, opened) = eq_of_Returns P _ (
        carrier.opens p (receiver.packetizers_data bus) source destination b length q packet
          no_outputs made arrived) in
      let there : read r.interface_to_deliver_function o.destination ≡ ok function =
        ap (read r.interface_to_deliver_function) opened.destination_is ∙ found in
      rw
        (
          receive_of_depacketized r receiver cfg' bus packet q.size accepted o listens is,
          opened.accepted_is,
          accept_lem r packet o function there set opened.inside,
          opened.data_is,
        )
        (o.source, refl, refl)

  Arrived-of_window :
      (q : Packetized) (packet : Buffer)
      → IsBytes packet
      → q.size ≤ packet.size
      → packet.size < r.size_mod
      → window packet.byte 0 q.size ≡ window q.buffer.byte 0 q.size
      → Arrived r.size_mod q packet
  Arrived-of_window q packet bytes room fits same = record {
    bytes = bytes;
    room = room;
    fits = fits;
    same = λ j below.
        byte_of_window packet.byte q.buffer.byte 0 q.size j same (omega arith) (omega arith);
  }

  -- The path of a message from one node to another, whatever the packetizer.
  pub deliver_request-Reaches :
      (broker receiver : Broker) (interface sender_pid function : ℕ) (message packet : Buffer)
      (length : ℕ) (leads : Leads s broker cfg interface)
      → header_size_of s cfg leads.bus (functions s cfg) ≡ header
      → CanCarry broker leads.bus interface sender_pid message length
      → Listens r receiver cfg' bus
      → read r.interface_to_deliver_function interface ≡ ok function
      → 1 ≤ function
      → IsBytes packet
      → count (sent_by (deliver_request s broker interface sender_pid message length)) ≤ packet.size
      → packet.size < r.size_mod
      → window packet.byte 0
          (count (sent_by (deliver_request s broker interface sender_pid message length)))
        ≡ sent_by (deliver_request s broker interface sender_pid message length)
      → Returns
          (SentOnce leads.send_function leads.private_data)
          (deliver_request s broker interface sender_pid message length)
        × Returns (DeliveredOnce r receiver function (window message.byte 0 length)) (
            receive_packet r receiver bus packet
              (count (sent_by (deliver_request s broker interface sender_pid message length))))
  deliver_request-Reaches broker receiver interface sender_pid function message packet length leads
        header_is can listens found set bytes room fits copy =
      let p : Packetizer = broker.packetizers_data leads.bus in
      let b : Buffer = copied broker.packetizer_buffer header message length in
      let ((broker', effects), is, carried) =
        eq_of_Returns
          (Carried leads.send_function leads.private_data p (source_of sender_pid) interface b
            length)
          _
          (deliver_request-Carried broker interface sender_pid message length leads header_is
            can) in
      let (q, made, sent) = carried in
      let bytes_are : sent_by (deliver_request s broker interface sender_pid message length)
          ≡ window q.buffer.byte 0 q.size =
        rw (is, sent) refl in
      let size_is : count (sent_by (deliver_request s broker interface sender_pid message length))
          ≡ q.size =
        rw bytes_are (length-window q.buffer.byte 0 q.size) in
      let all_sent : sent_bytes effects ≡ window q.buffer.byte 0 q.size = rw sent refl in
      let arrived : Arrived r.size_mod q packet =
        Arrived-of_window q packet bytes (omega (arith, size_is, room)) fits
          (ap (window packet.byte 0) (sym size_is) ∙ copy ∙ bytes_are) in
      (
        Returns-of_eq (SentOnce leads.send_function leads.private_data) is (
            sent
            ∙ ap
                (λ bs.
                  acquire_lock ∷ send leads.send_function leads.private_data bs ∷ release_lock ∷ [])
                (sym all_sent)),
        rw (size_is, ← message_of_copied broker.packetizer_buffer message length)
            (receive_packet-DeliveredOnce receiver function p (source_of sender_pid) interface b
              length q packet listens found set made arrived),
      )
