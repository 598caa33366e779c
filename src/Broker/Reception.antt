-- ===== src/Broker/Reception.antt =====
-- What `Broker_receive_packet` does with a packet on a bus with the default packetizer.
use mathlib.Core.Path.{subst}
use taste_runtime_common.Common.{ℕ, ◌+◌, ◌≤◌, ◌<◌, ◌≡◌, refl, ap, ◌∙◌, arith, inl, inr}
use taste_runtime_common.Common.{
  Bool, true, Bool-cases, Option, none, some, ◌==◌, ==_iff, if◌then◌else◌, List, [], ◌∷◌, ◌++◌,
}
use taste_runtime_common.Words.{u16}
use taste_runtime_common.Memory.{Result, ok, ◌>>=◌, Returns, Buffer, read, window}
use taste_runtime_common.Memory.Window.{byte_of_window, window_ext}
use taste_runtime_common.SpacePacket.{type_code, Outputs}
use taste_runtime_common.SystemSpec.{System, PacketizerCfg, cfg_default}
use taste_runtime_common.Packetizer.Packet.{Header, IsPacket}
use taste_runtime_common.Packetizer.Verdict.{IsBytes}
use taste_runtime_common.Packetizer.RoundTrip.{HeaderInRange, answer}
use taste_runtime_common.Packetizer.Copy.{copy-IsPacket, depacketize_of_packet}
use taste_runtime_common.PacketizerTable.{functions}
use taste_runtime_common.Broker.{
  Broker, Effect, acquire_lock, release_lock, send, deliver, no_outputs, accept, reject,
  receive_packet, deliver_request,
}
use taste_runtime_common.Broker.Delivery.{
  Leads, CanSend, IsSent, header_of, deliver_request-IsSent, table_entry_lem, packetizer_of_lem,
  slice_lem, call_lem,
}

-- A bus with the packetizer `cfg`, in a broker that was initialized, of a system whose `size_t` has
-- 32 bits or more.
pub record Listens (s : System) (broker : Broker) (cfg : PacketizerCfg) (bus : ℕ) : Type 0 where
  pub wide : 4294967296 ≤ s.size_mod
  pub initialized : broker.functions_set ≡ true
  pub bus-lt : bus < s.system_buses_number
  pub cfg_is : read s.bus_to_packetizer_cfg bus ≡ ok cfg

-- The sender PID that an interface is given.
abbrev pub passed_pid : System → ℕ → Option ℕ
passed_pid s source = if s.passes_sender_pid then some source else none

pub accept_lem :
    (s : System) (packet : Buffer) (o : Outputs) (function : ℕ)
    → read s.interface_to_deliver_function o.destination ≡ ok function
    → 1 ≤ function
    → o.data_offset + o.data_size ≤ packet.size
    → accept s packet o
      ≡ ok (
          deliver function (passed_pid s o.source) (window packet.byte o.data_offset o.data_size)
          ∷ [])
unfolding accept
accept_lem s packet o function found set room =
    rw (found, slice_lem packet o.data_offset o.data_size room) (call_lem function _ set)

pub receive_of_depacketized :
    (s : System) (broker : Broker) (cfg : PacketizerCfg) (bus : ℕ) (packet : Buffer) (length : ℕ)
    (result : Bool) (o : Outputs)
    → Listens s broker cfg bus
    → (functions s cfg).depacketize
        (broker.packetizers_data bus)
        s.expect_type
        packet
        length
        bus
        no_outputs
      ≡ ok (result, o)
    → receive_packet s broker bus packet length ≡ (do
      effects ← if result then accept s packet o else reject broker packet length o
      ok (broker, acquire_lock ∷ (effects ++ (release_lock ∷ []))))
unfolding receive_packet
receive_of_depacketized s broker cfg bus packet length result o listens read =
    rw
      (
        listens.cfg_is,
        table_entry_lem s broker cfg listens.initialized,
        packetizer_of_lem s broker bus listens.bus-lt,
        read,
      )
      refl

-- A packet that says `h`, in a buffer: its data goes to the interface that it names.
receive_packet_of_IsPacket :
    (s : System) (broker : Broker) (bus function : ℕ) (h : Header) (packet : Buffer)
    → Listens s broker cfg_default bus
    → IsBytes packet
    → 12 + h.data_size ≤ packet.size
    → packet.size < s.size_mod
    → HeaderInRange h
    → IsPacket h packet
    → type_code h.packet_type ≡ type_code s.expect_type
    → read s.interface_to_deliver_function h.destination ≡ ok function
    → 1 ≤ function
    → receive_packet s broker bus packet (12 + h.data_size)
      ≡ ok (
        broker,
        acquire_lock
            ∷ deliver function (passed_pid s h.source) (window packet.byte 8 h.data_size)
            ∷ release_lock
            ∷ [],
      )
receive_packet_of_IsPacket s broker bus function h packet listens bytes room fits range is type
      found set =
    let same : (type_code h.packet_type == type_code s.expect_type) ≡ true = (==_iff _ _).1 type in
    let o : Outputs = record {
      source = h.source;
      destination = h.destination;
      data_offset = 8;
      data_size = h.data_size;
      error_code = some 0;
    } in
    let accepted : answer s.expect_type h no_outputs ≡ (true, o) = rw same refl in
    receive_of_depacketized s broker cfg_default bus packet (12 + h.data_size) true o listens (
      depacketize_of_packet s.size_mod (broker.packetizers_data bus) s.expect_type h packet bus
        no_outputs listens.wide bytes room fits range is
      ∙ ap ok accepted)
    ∙ rw (accept_lem s packet o function found set (omega arith)) refl

source-lt :
    (s : System) (sender_pid : ℕ) → (if s.passes_sender_pid then u16 sender_pid else 0) < 65536
source-lt s sender_pid = elim (Bool-cases s.passes_sender_pid) [
  | inl passed ↦ rw passed (omega arith)
  | inr dropped ↦ rw dropped (omega arith)
]

-- What arrives of a request, if the driver was given `effects` and the receiver did `received`.
pub record Arrives (s r : System) (receiver : Broker)
    (function send_function private_data interface sender_pid : ℕ) (message packet : Buffer)
    (length : ℕ) (effects : List Effect) (received : Result (Broker × List Effect)) : Type 0 where
  pub sent :
      effects
      ≡ acquire_lock
        ∷ send send_function private_data (window packet.byte 0 (12 + length))
        ∷ release_lock
        ∷ []
  pub delivered :
      received
      ≡ ok (
        receiver,
        acquire_lock
            ∷ deliver function
                (passed_pid r (if s.passes_sender_pid then u16 sender_pid else 0))
                (window message.byte 0 length)
            ∷ release_lock
            ∷ [],
      )

Arrives-of_IsSent :
    (s r : System) (broker broker' receiver : Broker) (effects : List Effect)
    (interface sender_pid function bus : ℕ) (message packet : Buffer) (length : ℕ)
    (leads : Leads s broker cfg_default interface)
    → CanSend s broker leads.bus interface message length
    → Listens r receiver cfg_default bus
    → type_code s.send_type ≡ type_code r.expect_type
    → read r.interface_to_deliver_function interface ≡ ok function
    → 1 ≤ function
    → IsBytes packet
    → 12 + length ≤ packet.size
    → packet.size < r.size_mod
    → window packet.byte 0 (12 + length) ≡ window broker'.packetizer_buffer.byte 0 (12 + length)
    → IsSent
        (header_of s broker leads.bus interface sender_pid length)
        leads.send_function
        leads.private_data
        leads.bus
        broker
        message
        length
        broker'
        effects
    → Arrives s r receiver function leads.send_function leads.private_data interface sender_pid
        message packet length effects
        (receive_packet r receiver bus packet (12 + length))
Arrives-of_IsSent s r broker broker' receiver effects interface sender_pid function bus message
      packet length leads can listens type found set bytes room fits copied sent =
    let h : Header = header_of s broker leads.bus interface sender_pid length in
    let c : Buffer = broker'.packetizer_buffer in
    let room' : 12 + length ≤ c.size = omega (arith, sent.same_size, can.room) in
    let same : (j : ℕ) → j < 12 + length → packet.byte j ≡ c.byte j = λ j below.
      byte_of_window packet.byte c.byte 0 (12 + length) j copied (omega arith) (omega arith) in
    let is : IsPacket h packet = copy-IsPacket h c packet room' room same sent.packet in
    let data_is : window packet.byte 8 length ≡ window message.byte 0 length =
      window_ext packet.byte c.byte 8 length (λ j lo hi. same j (omega arith)) ∙ sent.carries in
    let range : HeaderInRange h =
      (can.count_in_range, can.interface_in_range, source-lt s sender_pid, can.length-lt) in
    record {
      sent = rw copied sent.effects_are;
      delivered =
          receive_packet_of_IsPacket r receiver bus function h packet listens bytes room fits range
            is type found set
          ∙ rw data_is refl;
    }

-- A request that an initialized broker delivered, of a message that can be sent, to an interface that
-- leads to a bus with the default packetizer and a driver. The driver was given the bytes of one
-- packet. A buffer of another node that starts with these bytes, received on a bus with the default
-- packetizer by an initialized broker that expects packets of the sender's type and knows the
-- interface: that node delivers to the interface, once and between the calls of the lock, the message
-- and, if it passes sender PIDs on, the one sent; its broker is unchanged. The receiver's size_t has
-- 32 bits or more.
pub deliver_request-receive_packet :
    (s r : System) (broker broker' receiver : Broker) (effects : List Effect)
    (interface sender_pid function bus : ℕ) (message packet : Buffer) (length : ℕ)
    (leads : Leads s broker cfg_default interface)
    → CanSend s broker leads.bus interface message length
    → Listens r receiver cfg_default bus
    → type_code s.send_type ≡ type_code r.expect_type
    → read r.interface_to_deliver_function interface ≡ ok function
    → 1 ≤ function
    → IsBytes packet
    → 12 + length ≤ packet.size
    → packet.size < r.size_mod
    → deliver_request s broker interface sender_pid message length ≡ ok (broker', effects)
    → window packet.byte 0 (12 + length) ≡ window broker'.packetizer_buffer.byte 0 (12 + length)
    → Arrives s r receiver function leads.send_function leads.private_data interface sender_pid
        message packet length effects
        (receive_packet r receiver bus packet (12 + length))
deliver_request-receive_packet s r broker broker' receiver effects interface sender_pid function bus
      message packet length leads can listens type found set bytes room fits delivered copied =
    let sent : IsSent (header_of s broker leads.bus interface sender_pid length) leads.send_function
        leads.private_data leads.bus broker message length broker' effects =
      subst
        (Returns λ (b, es).
          IsSent (header_of s broker leads.bus interface sender_pid length) leads.send_function
            leads.private_data leads.bus broker message length b es)
        delivered (deliver_request-IsSent s broker interface sender_pid message length leads can) in
    Arrives-of_IsSent s r broker broker' receiver effects interface sender_pid function bus message
      packet length leads can listens type found set bytes room fits copied sent
