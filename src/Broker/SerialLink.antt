-- ===== src/Broker/SerialLink.antt =====
-- Two nodes on a byte stream: the sender's driver escapes the packets that its broker hands over, and
-- the receiver's driver calls `Escaper_decode_packet` with `Broker_receive_packet` as the callback.
mod Tests
use mathlib.Core.Path.{subst}
use taste_runtime_common.Common.{ℕ, zero, suc, ◌+◌, ◌≤◌, ◌<◌, ◌≡◌, refl, sym, ap, ◌∙◌, arith, true}
use taste_runtime_common.Common.{List, [], ◌∷◌, ◌++◌, length as count, get_or}
use taste_runtime_common.Memory.{Result, ok, ◌>>=◌, Returns, Buffer, read, window}
use taste_runtime_common.Memory.Laws.{Returns-bind, >>=-assoc}
use taste_runtime_common.Memory.Partial.{IfReturns-of_eq}
use taste_runtime_common.Memory.Window.{window_shift}
use taste_runtime_common.SpacePacket.{type_code}
use taste_runtime_common.SystemSpec.{System, PacketizerCfg}
use taste_runtime_common.PacketizerTable.{functions}
use taste_runtime_common.Packetizer.Verdict.{IsBytes}
use taste_runtime_common.Escaper.{Escaper, Event, decode_packet}
use taste_runtime_common.Escaper.Encoder.Call.{HasSendBuffer}
use taste_runtime_common.Escaper.Decoder.Packet.{IsIdleFor}
use taste_runtime_common.Escaper.Decoder.Stream.{Delivered}
use taste_runtime_common.Escaper.Transmit.{Sent}
use taste_runtime_common.Escaper.RoundTrip.{
  AllShort, deliver_each, send_all, send_all-decode_packet,
}
use taste_runtime_common.Broker.{
  Broker, Effect, acquire_lock, release_lock, send, deliver, report, set_device_header_size,
  receive_packet, deliver_request,
}
use taste_runtime_common.Broker.Delivery.{Leads}
use taste_runtime_common.Broker.Reception.{Listens, passed_pid}
use taste_runtime_common.Broker.Carrier.{DeliveredOnce, sent_bytes, sent_by}
use taste_runtime_common.Broker.Carrier.Path.{CanCarry}
use taste_runtime_common.Broker.Callback.{
  Job, buffer_of, receive_all, HandedOver, AllKnown, get_or-lt, window-buffer_of, Received,
  Received-cons,
}
use taste_runtime_common.Broker.Relay.{is_own, header_bytes, carrier_of, relay-Reaches}
use taste_runtime_common.Broker.Steady.{AllOwn}
use taste_runtime_common.Broker.Typed.{All, AllBytes, IsTypedEffect}
use taste_runtime_common.Broker.Typed.Operations.{Hands, deliver_request-Hands}

sent_bytes-AllBytes :
    (effects : List Effect) → All IsTypedEffect effects → AllBytes (sent_bytes effects)
sent_bytes-AllBytes [] typed = tt
sent_bytes-AllBytes (send function private_data packet ∷ effects) typed = typed.0
sent_bytes-AllBytes (acquire_lock ∷ effects) typed = sent_bytes-AllBytes effects typed.1
sent_bytes-AllBytes (release_lock ∷ effects) typed = sent_bytes-AllBytes effects typed.1
sent_bytes-AllBytes (deliver function pid message ∷ effects) typed =
    sent_bytes-AllBytes effects typed.1
sent_bytes-AllBytes (report callback error packet ∷ effects) typed =
    sent_bytes-AllBytes effects typed.1
sent_bytes-AllBytes (set_device_header_size bus size ∷ effects) typed =
    sent_bytes-AllBytes effects typed.1

module _ (r : System) where
  -- What all calls together leave and hand out.
  abbrev pub Transferred : ℕ → Broker → List Job → Escaper × Broker × List Effect → Type 0
  Transferred max receiver jobs (decoder', receiver', effects) =
      IsIdleFor max decoder' × (receiver' ≡ receiver) × HandedOver r jobs effects

module _ (r : System) (bus : ℕ) where
  -- The packets on their way: escaped, sent, decoded, and received.
  unfoldable pub transfer :
      Escaper → Escaper → Broker → List (List ℕ) → Result (Escaper × Broker × List Effect)
  transfer sender decoder receiver packets = do
    sent ← send_all sender packets
    (decoder', events) ← decode_packet decoder bus sent.bytes (count sent.bytes)
    (receiver', effects) ← receive_all r receiver events
    ok (decoder', receiver', effects)

  decoded-Transferred :
      (max : ℕ) (receiver : Broker) (jobs : List Job) (packets : List (List ℕ))
      → Returns (Received r receiver jobs) (receive_all r receiver (deliver_each bus packets))
      → (a : Escaper × List Event) → Delivered max (deliver_each bus packets) a
      → Returns
          (Transferred r max receiver jobs)
          (receive_all r receiver a.1 >>= λ (receiver', effects). ok (a.0, receiver', effects))
  decoded-Transferred max receiver jobs packets received a (idle, same) = rw same (
      Returns-bind (Received r receiver jobs) (Transferred r max receiver jobs)
        (receive_all r receiver (deliver_each bus packets)) _ received
        λ c done. (idle, done.0, done.1))

module _ (s r : System) (bus : ℕ) (wide : 4294967296 ≤ r.size_mod)
    (type : type_code s.send_type ≡ type_code r.expect_type) (cfg : PacketizerCfg)
    (own : is_own cfg ≡ true) where
  -- Requests that a broker delivers one after the other, with the packet that the driver is given for
  -- each: each is to an interface that leads to a bus with the packetizer, and is such that the
  -- packetizer carries it.
  pub data Sends : Broker → List Job → List (List ℕ) → Type 0 where
    stop : (broker : Broker) → Sends broker [] []
    sends :
        (broker broker' : Broker) (job : Job) (jobs : List Job) (effects : List Effect)
        (packet : List ℕ) (packets : List (List ℕ)) (leads : Leads s broker cfg job.interface)
        → CanCarry s r cfg cfg
            (header_bytes cfg)
            bus
            (carrier_of s r bus wide type cfg own)
            broker
            leads.bus
            job.interface
            job.sender_pid
            job.message
            job.length
        → IsBytes job.message
        → deliver_request s broker job.interface job.sender_pid job.message job.length
          ≡ ok (broker', effects)
        → sent_bytes effects ≡ packet
        → Sends broker' jobs packets
        → Sends broker (job ∷ jobs) (packet ∷ packets)

  receive_all-Received :
      (receiver : Broker) {broker : Broker} {jobs : List Job} {packets : List (List ℕ)} (max : ℕ)
      → AllOwn s
      → IsBytes broker.packetizer_buffer
      → Sends broker jobs packets
      → AllKnown r jobs
      → AllShort max packets
      → max < r.size_mod
      → Listens r receiver cfg bus
      → Returns (Received r receiver jobs) (receive_all r receiver (deliver_each bus packets))
  unfolding receive_all
  receive_all-Received receiver max all_own bytes (stop broker) known short below listens =
      (refl, refl)
  receive_all-Received receiver max all_own bytes
        (sends broker broker' job jobs effects packet packets leads can typed is given others) known
        short below listens =
      let hands : Hands (broker', effects) = IfReturns-of_eq Hands is (
        deliver_request-Hands s all_own broker job.interface job.sender_pid job.message job.length
          bytes typed) in
      let small : AllBytes packet = subst AllBytes given (sent_bytes-AllBytes effects hands.1) in
      let sent : sent_by
            (deliver_request s broker job.interface job.sender_pid job.message job.length)
          ≡ packet =
        ap sent_by is ∙ given in
      let size : count
            (sent_by (deliver_request s broker job.interface job.sender_pid job.message job.length))
          ≡ count packet =
        ap count sent in
      let reached =
        relay-Reaches s r bus wide type cfg own broker receiver job.interface job.sender_pid
          job.function job.message (buffer_of packet) job.length leads can listens known.0 known.1
          (λ j. get_or-lt packet j small) (omega (arith, size)) (omega (arith, short.0))
          (ap (window (buffer_of packet).byte 0) size ∙ window-buffer_of packet ∙ sym sent) in
      Received-cons r receiver job jobs
        (receive_packet r receiver bus (buffer_of packet) (count packet))
        (λ b. receive_all r b (deliver_each bus packets))
        (subst
          (λ n.
            Returns (DeliveredOnce r receiver job.function (window job.message.byte 0 job.length))
              (receive_packet r receiver bus (buffer_of packet) n))
          size reached.1)
        (receive_all-Received receiver max all_own hands.0 others known.2 short.1 below listens)

  -- Two nodes whose drivers talk over a byte stream. Requests that a broker, whose buses all have
  -- packetizers of the library's own, delivers one after the other, with messages of bytes, each to an
  -- interface that leads to a bus with the packetizer and is such that this carries it; the driver
  -- sends the packets that it is given with an escaper whose send buffer has two bytes or more; they
  -- fit the receive buffer of an idle decoder, whose callback is Broker_receive_packet of an
  -- initialized broker that has the packetizer on its bus, expects packets of the sender's type and
  -- knows the interfaces. Then all calls return, without an access out of bounds; the interfaces of
  -- the receiver are handed the messages of the requests, in order, once each and nothing else, each
  -- between the calls of the lock; its broker is as before, and the decoder is idle again. The
  -- receiver's size_t has 32 bits or more.
  pub transfer-Transferred :
      (broker receiver : Broker) (sender decoder : Escaper) (jobs : List Job)
      (packets : List (List ℕ))
      → AllOwn s
      → IsBytes broker.packetizer_buffer
      → Sends broker jobs packets
      → HasSendBuffer sender
      → IsIdleFor decoder.decoded_max_size decoder
      → AllShort decoder.decoded_max_size packets
      → decoder.decoded_max_size < r.size_mod
      → Listens r receiver cfg bus
      → AllKnown r jobs
      → Returns
          (Transferred r decoder.decoded_max_size receiver jobs)
          (transfer r bus sender decoder receiver packets)
  unfolding transfer
  transfer-Transferred broker receiver sender decoder jobs packets all_own bytes requests has_buffer
        idle short below listens known =
      let max : ℕ = decoder.decoded_max_size in
      let received =
        receive_all-Received receiver max all_own bytes requests known short below listens in
      let decode : Sent → Result (Escaper × List Event) =
        λ t. decode_packet decoder bus t.bytes (count t.bytes) in
      let receive : Escaper × List Event → Result (Escaper × Broker × List Effect) =
        λ a. receive_all r receiver a.1 >>= λ (receiver', effects). ok (a.0, receiver', effects) in
      subst (Returns (Transferred r max receiver jobs))
        (>>=-assoc (send_all sender packets) decode receive)
        (Returns-bind (Delivered max (deliver_each bus packets)) (Transferred r max receiver jobs)
          (send_all sender packets >>= decode) receive
          (send_all-decode_packet sender decoder bus packets has_buffer idle short)
          (decoded-Transferred r bus max receiver jobs packets received))
