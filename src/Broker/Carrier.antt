-- ===== src/Broker/Carrier.antt =====
-- What the broker relies on of a packetizer, whichever a bus has: an interface of operations and laws,
-- and what a request and a reception are to leave.
pub mod Thin
pub mod Ccsds
pub mod Default
pub mod Passthrough
pub mod Device
pub mod Path
use mathlib.Core.Path.{subst}
use taste_runtime_common.Common.{ℕ, ◌+◌, ◌-◌, ◌≤◌, ◌<◌, ◌≡◌, refl, sym, ap, ◌∙◌, arith}
use taste_runtime_common.Common.{
  Bool, true, false, Option, none, some, List, [], ◌∷◌, length as count,
}
use taste_runtime_common.Common.{if◌then◌else◌}
use taste_runtime_common.Words.{u16}
use taste_runtime_common.Memory.{
  Result, ok, aborted, faulted, out_of_fuel, ◌>>=◌, Returns, Buffer, read, window,
}
use taste_runtime_common.Memory.Laws.{Returns-bind, Returns-of_eq, eq_of_Returns}
use taste_runtime_common.Memory.Window.{byte_of_window, length-window, window_shift}
use taste_runtime_common.SpacePacket.{Packetizer, Packetized, Outputs, PacketizerFunctions}
use taste_runtime_common.SystemSpec.{System, PacketizerCfg}
use taste_runtime_common.PacketizerTable.{functions, header_size_of}
use taste_runtime_common.Packetizer.Verdict.{IsBytes}
use taste_runtime_common.Broker.{
  Broker, Effect, acquire_lock, release_lock, send, deliver, report, set_device_header_size,
  no_outputs, accept, reject, set_packetizer, receive_packet, deliver_request,
}
use taste_runtime_common.Broker.Delivery.{
  Leads, copied, memcpy_lem, table_entry_lem, packetizer_of_lem, slice_lem, call_lem,
}
use taste_runtime_common.Broker.Reception.{Listens, passed_pid, accept_lem, receive_of_depacketized}

-- What arrives of a packet: its bytes, at the start of a buffer of the receiver.
pub record Arrived (size_mod : ℕ) (q : Packetized) (c : Buffer) : Type 0 where
  pub bytes : IsBytes c
  pub room : q.size ≤ c.size
  pub fits : c.size < size_mod
  pub same : (j : ℕ) → j < q.size → c.byte j ≡ q.buffer.byte j

-- The receiver's packetizer accepts it for the destination, and its data are the message, which stood
-- in the sender's buffer `b` behind the header.
pub record Opened (destination : ℕ) (b : Buffer) (header length : ℕ) (c : Buffer) (accepted : Bool)
    (o : Outputs) : Type 0 where
  pub accepted_is : accepted ≡ true
  pub destination_is : o.destination ≡ destination
  pub inside : o.data_offset + o.data_size ≤ c.size
  pub data_is : window c.byte o.data_offset o.data_size ≡ window b.byte header length

-- The packetizers of a bus at its two ends: what the sender has to respect, what it makes, and that
-- the receiver opens it.
pub record Carrier (s r : System) (f g : PacketizerFunctions) (header bus : ℕ) : Type 1 where
  pub Admits : (p : Packetizer) (bus' source destination : ℕ) (b : Buffer) (length : ℕ) → Type 0
  pub Made :
      (p : Packetizer) (source destination : ℕ) (b : Buffer) (length : ℕ) (q : Packetized) → Type 0
  pub packetizes :
      (p : Packetizer) (bus' source destination : ℕ) (b : Buffer) (length : ℕ)
      → Admits p bus' source destination b length
      → Returns
          (Made p source destination b length)
          (f.packetize p s.send_type bus' source destination b header length)
  pub owned :
      (p : Packetizer) (source destination : ℕ) (b : Buffer) (length : ℕ) (q : Packetized)
      → Made p source destination b length q
      → q.size ≤ q.buffer.size
  pub opens :
      (p p' : Packetizer) (source destination : ℕ) (b : Buffer) (length : ℕ) (q : Packetized)
      (c : Buffer) (o : Outputs)
      → Made p source destination b length q
      → Arrived r.size_mod q c
      → Returns
          (λ (accepted, o'). Opened destination b header length c accepted o')
          (g.depacketize p' r.expect_type c q.size bus o)

-- The bytes that the drivers were given.
abbrev pub sent_bytes : List Effect → List ℕ
sent_bytes [] = []
sent_bytes (send function private_data packet ∷ effects) = packet
sent_bytes (acquire_lock ∷ effects) = sent_bytes effects
sent_bytes (release_lock ∷ effects) = sent_bytes effects
sent_bytes (deliver function pid message ∷ effects) = sent_bytes effects
sent_bytes (report callback error packet ∷ effects) = sent_bytes effects
sent_bytes (set_device_header_size bus size ∷ effects) = sent_bytes effects

abbrev pub sent_by : Result (Broker × List Effect) → List ℕ
sent_by (ok (broker, effects)) = sent_bytes effects
sent_by aborted = []
sent_by faulted = []
sent_by out_of_fuel = []

-- The driver was given one packet, between the calls of the lock.
abbrev pub SentOnce : (send_function private_data : ℕ) → Broker × List Effect → Type 0
SentOnce send_function private_data (broker, effects) =
    effects
    ≡ acquire_lock ∷ send send_function private_data (sent_bytes effects) ∷ release_lock ∷ []

-- The interface was given the message, once and between the calls of the lock, with a sender PID if the
-- node passes it on; the broker is as before.
abbrev pub DeliveredOnce :
    System → Broker → (function : ℕ) (message : List ℕ) → Broker × List Effect → Type 0
DeliveredOnce r receiver function message (broker, effects) =
    (source : ℕ) × (broker ≡ receiver)
    × (effects ≡ acquire_lock ∷ deliver function (passed_pid r source) message ∷ release_lock ∷ [])
