-- ===== src/Broker/Typed.antt =====
-- The bytes that the broker hands out on a request are bytes, which a packet has to be for its receiver.
mod Stores
mod Packetizers
pub mod Operations
use taste_runtime_common.Common.{ℕ, ◌≤◌, ◌<◌, none, some, Option, List, [], ◌∷◌}
use taste_runtime_common.Memory.{Result, ok, ◌>>=◌, Buffer}
use taste_runtime_common.Common.{◌++◌}
use taste_runtime_common.SystemSpec.{System}
use taste_runtime_common.Packetizer.Verdict.{IsBytes}
use taste_runtime_common.Broker.{
  Broker, Effect, acquire_lock, release_lock, send, deliver, report, set_device_header_size,
  initialize, deliver_request, receive_packet, register_error_callback,
}

abbrev pub All {ℓ κ} : {A : Type ℓ} → (A → Type κ) → List A → Type κ
All P [] = Unit
All P (x ∷ xs) = P x × All P xs

abbrev pub AllBytes : List ℕ → Type 0
AllBytes = All (λ x. x < 256)

-- What drivers, interfaces and the error callback are handed consists of bytes.
abbrev pub IsTypedEffect : Effect → Type 0
IsTypedEffect acquire_lock = Unit
IsTypedEffect release_lock = Unit
IsTypedEffect (send function private_data packet) = AllBytes packet
IsTypedEffect (deliver function pid message) = AllBytes message
IsTypedEffect (report callback error packet) = AllBytes packet
IsTypedEffect (set_device_header_size bus size) = Unit
