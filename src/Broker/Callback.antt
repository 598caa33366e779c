-- ===== src/Broker/Callback.antt =====
-- `Broker_receive_packet` (src/Broker/Broker.c) as the callback of a decoder: called for each packet
-- that the decoder delivers, in order.
use taste_runtime_common.Common.{ℕ, zero, suc, ◌+◌, ◌≤◌, ◌<◌, ◌≡◌, refl, ap, ◌∙◌, arith}
use taste_runtime_common.Common.{List, [], ◌∷◌, ◌++◌, length as count, get_or}
use taste_runtime_common.Memory.{Result, ok, ◌>>=◌, Returns, Buffer, read, window}
use taste_runtime_common.Memory.Laws.{Returns-bind}
use taste_runtime_common.Memory.Window.{window_shift}
use taste_runtime_common.SystemSpec.{System}
use taste_runtime_common.Escaper.{Event}
use taste_runtime_common.Broker.{
  Broker, Effect, acquire_lock, release_lock, deliver, receive_packet,
}
use taste_runtime_common.Broker.Reception.{passed_pid}
use taste_runtime_common.Broker.Carrier.{DeliveredOnce}
use taste_runtime_common.Broker.Typed.{AllBytes}

-- A request, with the function of its interface at the receiver.
pub record Job : Type 0 where
  pub interface : ℕ
  pub sender_pid : ℕ
  pub function : ℕ
  pub message : Buffer
  pub length : ℕ

-- The buffer that the callback is given with a packet.
abbrev pub buffer_of : List ℕ → Buffer
buffer_of packet = record { size = count packet; byte = λ j. get_or packet j 0 }

-- `Broker_receive_packet` as the callback of the decoder: a call for each packet, in order.
unfoldable pub receive_all : System → Broker → List Event → Result (Broker × List Effect)
receive_all r broker [] = ok (broker, [])
receive_all r broker (event ∷ events) = do
  (broker', effects) ←
      receive_packet r broker event.bus (buffer_of event.packet) (count event.packet)
  (broker'', more) ← receive_all r broker' events
  ok (broker'', effects ++ more)

-- What the interfaces of the receiver are handed: the messages, in order, each between the calls of
-- the lock.
abbrev pub HandedOver : System → List Job → List Effect → Type 0
HandedOver r [] effects = effects ≡ []
HandedOver r (job ∷ jobs) effects =
    (source : ℕ) × (rest : List Effect) × (effects
      ≡ acquire_lock
        ∷ deliver job.function (passed_pid r source) (window job.message.byte 0 job.length)
        ∷ release_lock
        ∷ rest)
    × HandedOver r jobs rest

abbrev pub AllKnown : System → List Job → Type 0
AllKnown r [] = Unit
AllKnown r (job ∷ jobs) =
    (read r.interface_to_deliver_function job.interface ≡ ok job.function)
    × (1 ≤ job.function)
    × AllKnown r jobs

pub get_or-lt : (packet : List ℕ) (j : ℕ) → AllBytes packet → get_or packet j 0 < 256
get_or-lt [] j small = omega arith
get_or-lt (x ∷ xs) zero small = small.0
get_or-lt (x ∷ xs) (suc j) small = get_or-lt xs j small.1

shifted :
    (x : ℕ) (xs : List ℕ) (j : ℕ) → j < count xs → get_or (x ∷ xs) (1 + j) 0 ≡ get_or xs (0 + j) 0
shifted x xs j below =
    let next : 1 + j ≡ suc j = omega arith in
    let same : 0 + j ≡ j = omega arith in rw (next, same) refl

pub window-buffer_of : (packet : List ℕ) → window (buffer_of packet).byte 0 (count packet) ≡ packet
window-buffer_of [] = refl
window-buffer_of (x ∷ xs) =
    ap (λ t. x ∷ t)
      (window_shift (λ j. get_or (x ∷ xs) j 0) (λ j. get_or xs j 0) 1 0 (count xs) (shifted x xs)
        ∙ window-buffer_of xs)

module _ (r : System) where
  -- The receiver's broker is as before, and its interfaces were handed the messages.
  abbrev pub Received : Broker → List Job → Broker × List Effect → Type 0
  Received receiver jobs (receiver', effects) = (receiver' ≡ receiver) × HandedOver r jobs effects

  pub Received-cons :
      (receiver : Broker) (job : Job) (jobs : List Job) (m : Result (Broker × List Effect))
      (next : Broker → Result (Broker × List Effect))
      → Returns (DeliveredOnce r receiver job.function (window job.message.byte 0 job.length)) m
      → Returns (Received receiver jobs) (next receiver)
      → Returns (Received receiver (job ∷ jobs)) (
          m >>= λ (receiver', effects).
          next receiver' >>= λ (receiver'', more). ok (receiver'', effects ++ more))
  Received-cons receiver job jobs m next one others =
      let D : Broker × List Effect → Type 0 =
        DeliveredOnce r receiver job.function (window job.message.byte 0 job.length) in
      let Q : Broker × List Effect → Type 0 = Received receiver (job ∷ jobs) in
      Returns-bind D Q m _ one λ a (source, same, out). rw same (
        Returns-bind (Received receiver jobs) Q (next receiver) _ others
          λ c (unchanged, handed). (unchanged, (source, c.1, ap (λ es. es ++ c.1) out, handed)))
