-- ===== src/Broker.antt =====
-- src/Broker/Broker.c and Broker.h: messages between nodes, over the packetizer of a bus.
-- What the broker makes others do is the list of its `Effect`s, in order: the lock, the
-- driver's send function, an interface's deliver function, the error callback. A function pointer and
-- a pointer to private data are numbers, NULL is 0.
pub mod Delivery
pub mod Reception
pub mod Outcome
pub mod Carrier
pub mod Callback
pub mod Start
pub mod AnyPacket
pub mod Steady
pub mod Traffic
pub mod Relay
pub mod Typed
pub mod SerialLink
pub mod Restart
mod Tests
use taste_runtime_common.Common.{ℕ, zero, suc, ◌+◌, ◌-◌, Bool, true, false}
use taste_runtime_common.Common.{Option, none, some, List, [], ◌∷◌, ◌++◌}
use taste_runtime_common.Common.{ltb, leb, ◌==◌, if◌then◌else◌}
use taste_runtime_common.Words.{u16}
use taste_runtime_common.Memory.{Result, ok, faulted, ◌>>=◌, Buffer, read, window}
use taste_runtime_common.SpacePacket.{
  header_size, sender_pid_size, error_control_size, incorrect_crc16, incorrect_packet_type,
  incorrect_packet_size, packet_too_small, Packetizer, Outputs, PacketizerFunctions,
}
use taste_runtime_common.SystemSpec.{System, PacketizerCfg}
use taste_runtime_common.PacketizerTable.{functions, header_size_of}

-- BROKER_BUFFER_SIZE
abbrev pub broker_buffer_size : System → ℕ
broker_buffer_size s =
    header_size + s.generic_partition_buffer_size + sender_pid_size + error_control_size

-- Broker_ErrorType
pub data ErrorType : Type 0 where
  unknown_error broker_crc16 broker_packet_type broker_packet_size broker_too_small : ErrorType

pub data Effect : Type 0 where
  acquire_lock release_lock : Effect
  send : (send_function private_data : ℕ) (packet : List ℕ) → Effect
  deliver : (function : ℕ) (sender_pid : Option ℕ) (message : List ℕ) → Effect
  report : (callback : ℕ) (error : ErrorType) (packet : List ℕ) → Effect
  set_device_header_size : (bus size : ℕ) → Effect

-- The static variables
pub record Broker : Type 0 where
  pub packetizers_data : ℕ → Packetizer
  pub functions_set : Bool
  pub error_callback : ℕ
  pub packetizer_buffer : Buffer

-- Broker_packetizer_error_to_broker_error
unfoldable pub to_broker_error : ℕ → ErrorType
to_broker_error code =
    if code == incorrect_crc16
    then broker_crc16
    else if code == incorrect_packet_type
    then broker_packet_type
    else if code == incorrect_packet_size
    then broker_packet_size
    else if code == packet_too_small
    then broker_too_small
    else unknown_error

-- `memcpy(buffer + offset, data, length)`, which reads and writes inside the objects
unfoldable pub memcpy : Buffer → ℕ → Buffer → ℕ → Result Buffer
memcpy b offset source length =
    if leb (offset + length) b.size
    then (if leb length source.size
        then ok (record b {
          byte = λ j.
              if ltb j offset
              then b.byte j
              else if ltb j (offset + length)
              then source.byte (j - offset)
              else b.byte j;
        })
        else faulted)
    else faulted

-- The entry of `packetizers_functions`; a call through it before the table is set is one of NULL.
unfoldable pub table_entry : System → Broker → PacketizerCfg → Result PacketizerFunctions
table_entry s broker cfg = if broker.functions_set then ok (functions s cfg) else faulted

-- `packetizers_data[bus_id]`
unfoldable pub packetizer_of : System → Broker → ℕ → Result Packetizer
packetizer_of s broker bus =
    if ltb bus s.system_buses_number then ok (broker.packetizers_data bus) else faulted

abbrev pub set_packetizer : Broker → ℕ → Packetizer → Broker
set_packetizer broker bus p = record broker {
  packetizers_data = λ i. if i == bus then p else broker.packetizers_data i;
}

-- What a callee reads that is handed a pointer and a length.
unfoldable pub slice : Buffer → ℕ → ℕ → Result (List ℕ)
slice b offset length =
    if leb (offset + length) b.size then ok (window b.byte offset length) else faulted

-- A call through a pointer, which is not compared with NULL.
unfoldable pub call : ℕ → Effect → Result (List Effect)
call function effect = if function == 0 then faulted else ok (effect ∷ [])

abbrev pub device_effects : List (ℕ × ℕ) → List Effect
device_effects [] = []
device_effects ((bus, size) ∷ calls) = set_device_header_size bus size ∷ device_effects calls

-- The body of the `for` loop, for a bus inside the tables.
unfoldable pub initialize_bus : System → Broker → ℕ → Result (Broker × List Effect)
initialize_bus s broker bus = do
  cfg ← read s.bus_to_packetizer_cfg bus
  f ← table_entry s broker cfg
  p ← packetizer_of s broker bus
  i ← f.init p bus
  ok (set_packetizer broker bus i.packetizer, device_effects i.device_calls)

-- The `for` loop from index `i` on, with `left` entries to go.
unfoldable pub initialize_loop : System → List ℕ → ℕ → ℕ → Broker → Result (Broker × List Effect)
initialize_loop s valid_buses i zero broker = ok (broker, [])
initialize_loop s valid_buses i (suc left) broker = do
  bus ← read valid_buses i
  let bounded = ltb bus s.system_buses_number
  elim (bus == s.bus_invalid_id) [
    | true ↦ ok (broker, [])
    | false ↦ do
      (broker', effects) ← if bounded then initialize_bus s broker bus else ok (broker, [])
      (broker'', more) ← initialize_loop s valid_buses (i + 1) left broker'
      ok (broker'', effects ++ more)
  ]

unfoldable pub initialize : System → Broker → List ℕ → Result (Broker × List Effect)
initialize s broker valid_buses =
    initialize_loop s valid_buses 0 s.system_buses_number (record broker { functions_set = true })

unfoldable pub deliver_request :
    System → Broker → ℕ → ℕ → Buffer → ℕ → Result (Broker × List Effect)
deliver_request s broker interface sender_pid message length = do
  bus ← read s.port_to_bus_map interface
  cfg ← read s.bus_to_packetizer_cfg bus
  f ← table_entry s broker cfg
  let header = header_size_of s cfg bus f
  b ← memcpy broker.packetizer_buffer header message length
  p ← packetizer_of s broker bus
  let source = if s.passes_sender_pid then u16 sender_pid else 0
  r ← f.packetize p s.send_type bus source (u16 interface) b header length
  private_data ← read s.bus_to_driver_private_data bus
  send_function ← read s.bus_to_driver_send_function bus
  packet ← slice r.buffer 0 r.size
  sent ← call send_function (send send_function private_data packet)
  ok (
    record (set_packetizer broker bus r.packetizer) { packetizer_buffer = r.buffer },
    acquire_lock ∷ (sent ++ (release_lock ∷ [])),
  )

-- The local variables that receive the results.
abbrev pub no_outputs : Outputs
no_outputs = record {
  source = 0;
  destination = 0;
  data_offset = 0;
  data_size = 0;
  error_code = some 0;
}

abbrev pub error_value : Option ℕ → ℕ
error_value none = 0
error_value (some code) = code

-- `if(!success)`
unfoldable pub reject : Broker → Buffer → ℕ → Outputs → Result (List Effect)
reject broker packet length o = if broker.error_callback == 0 then ok [] else do
  bytes ← slice packet 0 length
  ok (report broker.error_callback (to_broker_error (error_value o.error_code)) bytes ∷ [])

-- The delivery of an accepted packet.
unfoldable pub accept : System → Buffer → Outputs → Result (List Effect)
accept s packet o = do
  function ← read s.interface_to_deliver_function o.destination
  message ← slice packet o.data_offset o.data_size
  call function (deliver function (if s.passes_sender_pid then some o.source else none) message)

unfoldable pub receive_packet : System → Broker → ℕ → Buffer → ℕ → Result (Broker × List Effect)
receive_packet s broker bus packet length = do
  cfg ← read s.bus_to_packetizer_cfg bus
  f ← table_entry s broker cfg
  p ← packetizer_of s broker bus
  (success, o) ← f.depacketize p s.expect_type packet length bus no_outputs
  effects ← if success then accept s packet o else reject broker packet length o
  ok (broker, acquire_lock ∷ (effects ++ (release_lock ∷ [])))

unfoldable pub register_error_callback : Broker → ℕ → Broker
register_error_callback broker callback = record broker { error_callback = callback }
