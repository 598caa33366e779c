-- ===== src/Broker/Traffic.antt =====
-- The broker of a node in use: buses initialized, requests delivered, packets received and error
-- callbacks registered, in any order.
pub mod Operations
pub mod Invariant
pub mod Numbering
pub mod Unchanged
pub mod Tests
use taste_runtime_common.Common.{ℕ, ◌≡◌, false, List}
use taste_runtime_common.Memory.{ok, Buffer}
use taste_runtime_common.SystemSpec.{System}
use taste_runtime_common.Broker.{
  Broker, Effect, initialize, deliver_request, receive_packet, register_error_callback,
}

-- A call that returned.
pub data Step (s : System) : Broker → Broker → Type 0 where
  initialized :
      (broker broker' : Broker) (valid_buses : List ℕ) (effects : List Effect)
      → initialize s broker valid_buses ≡ ok (broker', effects)
      → Step s broker broker'
  requested :
      (broker broker' : Broker) (interface sender_pid : ℕ) (message : Buffer) (length : ℕ)
      (effects : List Effect)
      → deliver_request s broker interface sender_pid message length ≡ ok (broker', effects)
      → Step s broker broker'
  arrived :
      (broker broker' : Broker) (bus : ℕ) (packet : Buffer) (length : ℕ) (effects : List Effect)
      → receive_packet s broker bus packet length ≡ ok (broker', effects)
      → Step s broker broker'
  registered :
      (broker : Broker) (callback : ℕ) → Step s broker (register_error_callback broker callback)

pub data Reach (s : System) (broker : Broker) : Broker → Type 0 where
  here : Reach s broker broker
  next : {b c : Broker} → Reach s broker b → Step s b c → Reach s broker c

-- The static variables when the program starts; the buffer has `size` bytes, where that is
-- BROKER_BUFFER_SIZE (`broker_buffer_size`) in the source.
abbrev pub at_start : ℕ → Broker
at_start size = record {
  packetizers_data = λ bus. record { packet_sequence_count = 0 };
  functions_set = false;
  error_callback = 0;
  packetizer_buffer = record { size = size; byte = λ j. 0 };
}
