-- ===== src/Broker/Delivery.antt =====
-- A request that one node delivers through the default packetizer, as far as the driver.
use taste_runtime_common.Common.{ℕ, ◌+◌, ◌-◌, ◌%◌, ◌≤◌, ◌<◌, ◌≡◌, refl, ◌∙◌, arith}
use taste_runtime_common.Common.{true, ltb, if◌then◌else◌, List, [], ◌∷◌}
use taste_runtime_common.Words.{u16}
use taste_runtime_common.Memory.{ok, Returns, Buffer, read, window}
use taste_runtime_common.Memory.Laws.{Returns-bind}
use taste_runtime_common.Memory.Window.{window_shift}
use taste_runtime_common.SpacePacket.{Packetized}
use taste_runtime_common.SystemSpec.{System, PacketizerCfg, cfg_default}
use taste_runtime_common.PacketizerTable.{functions, header_size_of}
use taste_runtime_common.Packetizer.Packet.{Header, IsPacket, PacketizedAs, packetize-PacketizedAs}
use taste_runtime_common.Broker.{
  Broker, Effect, acquire_lock, release_lock, send, memcpy, table_entry, packetizer_of, slice, call,
  set_packetizer, deliver_request,
}

-- An interface leads to a bus with the packetizer `cfg` and a driver, in a broker that was initialized.
pub record Leads (s : System) (broker : Broker) (cfg : PacketizerCfg) (interface : ℕ) : Type 0 where
  pub bus : ℕ
  pub private_data : ℕ
  pub send_function : ℕ
  pub bus_is : read s.port_to_bus_map interface ≡ ok bus
  pub bus-lt : bus < s.system_buses_number
  pub cfg_is : read s.bus_to_packetizer_cfg bus ≡ ok cfg
  pub private_data_is : read s.bus_to_driver_private_data bus ≡ ok private_data
  pub send_function_is : read s.bus_to_driver_send_function bus ≡ ok send_function
  pub send_function_set : 1 ≤ send_function
  pub initialized : broker.functions_set ≡ true

-- What the packet of a request says.
abbrev pub header_of : (s : System) (broker : Broker) (bus interface sender_pid length : ℕ) → Header
header_of s broker bus interface sender_pid length = record {
  packet_type = s.send_type;
  destination = interface;
  source = if s.passes_sender_pid then u16 sender_pid else 0;
  count = (broker.packetizers_data bus).packet_sequence_count;
  data_size = length;
}

-- The message can be sent: the interface has 11 bits, the counter is in range, and the message with
-- what the packet adds fits the broker's buffer.
pub record CanSend (s : System) (broker : Broker) (bus interface : ℕ) (message : Buffer)
    (length : ℕ) : Type 0 where
  pub interface_in_range : interface ≤ 2047
  pub count_in_range : (broker.packetizers_data bus).packet_sequence_count ≤ 16383
  pub message_owned : length ≤ message.size
  pub room : 12 + length ≤ broker.packetizer_buffer.size
  pub buffer_fits : broker.packetizer_buffer.size < s.size_mod
  pub length-lt : length < 4294967295

-- The request was sent: the broker's buffer starts with a packet that says `h` and carries the
-- message, the driver got its bytes, between the lock's calls, and the bus counts the packet.
pub record IsSent (h : Header) (send_function private_data bus : ℕ) (broker : Broker)
    (message : Buffer) (length : ℕ) (broker' : Broker) (effects : List Effect) : Type 0 where
  pub packet : IsPacket h broker'.packetizer_buffer
  pub carries : window broker'.packetizer_buffer.byte 8 length ≡ window message.byte 0 length
  pub same_size : broker'.packetizer_buffer.size ≡ broker.packetizer_buffer.size
  pub counted : (broker'.packetizers_data bus).packet_sequence_count ≡ (h.count + 1) % 16384
  pub effects_are :
      effects
      ≡ acquire_lock
        ∷ send send_function private_data (window broker'.packetizer_buffer.byte 0 (12 + length))
        ∷ release_lock
        ∷ []

-- The buffer after the message was copied behind a header of `header` bytes.
abbrev pub copied : Buffer → ℕ → Buffer → ℕ → Buffer
copied b header message length = record b {
  byte = λ j.
      if ltb j header
      then b.byte j
      else if ltb j (header + length)
      then message.byte (j - header)
      else b.byte j;
}

pub memcpy_lem :
    (b : Buffer) (header : ℕ) (message : Buffer) (length : ℕ)
    → header + length ≤ b.size
    → length ≤ message.size
    → memcpy b header message length ≡ ok (copied b header message length)
unfolding memcpy
memcpy_lem b header message length room owned = ground arith

pub slice_lem :
    (b : Buffer) (offset length : ℕ)
    → offset + length ≤ b.size
    → slice b offset length ≡ ok (window b.byte offset length)
unfolding slice
slice_lem b offset length room = ground arith

pub call_lem : (function : ℕ) (e : Effect) → 1 ≤ function → call function e ≡ ok (e ∷ [])
unfolding call
call_lem function e set = ground arith

pub table_entry_lem :
    (s : System) (broker : Broker) (cfg : PacketizerCfg)
    → broker.functions_set ≡ true
    → table_entry s broker cfg ≡ ok (functions s cfg)
unfolding table_entry
table_entry_lem s broker cfg e = rw e refl

pub packetizer_of_lem :
    (s : System) (broker : Broker) (bus : ℕ)
    → bus < s.system_buses_number
    → packetizer_of s broker bus ≡ ok (broker.packetizers_data bus)
unfolding packetizer_of
packetizer_of_lem s broker bus below = ground arith

-- The packetizer's outcome is what the broker leaves.
IsSent-of_PacketizedAs :
    (h : Header) (send_function private_data bus : ℕ) (broker : Broker) (message : Buffer)
    (length : ℕ) (q : Packetized)
    → h.data_size ≡ length
    → PacketizedAs h (copied broker.packetizer_buffer 8 message length) q
    → IsSent h send_function private_data bus broker message length
        (record (set_packetizer broker bus q.packetizer) { packetizer_buffer = q.buffer })
        (acquire_lock
          ∷ send send_function private_data (window q.buffer.byte 0 (12 + length))
          ∷ release_lock
          ∷ [])
IsSent-of_PacketizedAs h send_function private_data bus broker message length q e a = record {
  packet = a.packet;
  carries =
      window_shift q.buffer.byte message.byte 8 0 length
        λ j below. a.data_kept (8 + j) (omega arith) (omega arith) ∙ (ground arith);
  same_size = a.same_size;
  counted = ground (arith, a.next_count);
  effects_are = refl;
}

-- A message of bytes that can be sent, to an interface that leads to a bus with the default packetizer
-- and a driver, from an initialized broker: Broker_deliver_request returns, without an access out of
-- bounds. Between the calls of the lock, the driver's send function is called once, with the bytes of
-- a packet that says packet type, interface, sender PID, sequence count and size, and carries the
-- message; and the bus's sequence count is the next modulo 2 ^ 14.
pub deliver_request-IsSent :
    (s : System) (broker : Broker) (interface sender_pid : ℕ) (message : Buffer) (length : ℕ)
    (leads : Leads s broker cfg_default interface)
    → CanSend s broker leads.bus interface message length
    → Returns
        (λ (broker', effects).
          IsSent
            (header_of s broker leads.bus interface sender_pid length)
            leads.send_function
            leads.private_data
            leads.bus
            broker
            message
            length
            broker'
            effects)
        (deliver_request s broker interface sender_pid message length)
unfolding deliver_request header_size_of
deliver_request-IsSent s broker interface sender_pid message length leads can =
    let h : Header = header_of s broker leads.bus interface sender_pid length in
    let b : Buffer = copied broker.packetizer_buffer 8 message length in
    let whole : u16 interface ≡ interface = omega (arith, can.interface_in_range) in
    rw
      (
        leads.bus_is,
        leads.cfg_is,
        table_entry_lem s broker cfg_default leads.initialized,
        memcpy_lem broker.packetizer_buffer 8 message length (omega (arith, can.room))
            can.message_owned,
        packetizer_of_lem s broker leads.bus leads.bus-lt,
        whole,
      )
      (Returns-bind (PacketizedAs h b)
        (λ (broker', effects).
          IsSent h leads.send_function leads.private_data leads.bus broker message length broker'
            effects)
        _ _
        (packetize-PacketizedAs s.size_mod h leads.bus b (record {
          count_in_range = can.count_in_range;
          destination_in_range = can.interface_in_range;
          size_in_range = can.length-lt;
          room = can.room;
          size_fits = can.buffer_fits;
        }))
        λ q a.
          let room : 0 + (12 + length) ≤ q.buffer.size = omega (arith, a.same_size, can.room) in
          rw
            (
              leads.private_data_is,
              leads.send_function_is,
              a.size_is,
              slice_lem q.buffer 0 (12 + length) room,
              call_lem leads.send_function _ leads.send_function_set,
            )
            (IsSent-of_PacketizedAs h leads.send_function leads.private_data leads.bus broker
              message length q refl a))
