-- ===== src/Broker/Traffic/Numbering.antt =====
-- The sequence counts of the packets that a node sends on a bus with the default packetizer.
pub mod Tests
use mathlib.Core.Path.{subst}
use taste_runtime_common.Common.{
  ℕ, zero, suc, ◌+◌, ◌*◌, ◌/◌, ◌%◌, ◌≤◌, ◌<◌, ◌≡◌, ◌≢◌, refl, sym, ap, ◌∙◌, arith,
}
use taste_runtime_common.Common.{
  Option, none, some, List, [], ◌∷◌, ◌++◌, length as count, get_elem?, get_or, ne→==, ◌==◌, false,
  if◌then◌else◌,
}
use taste_runtime_common.Memory.{ok, Buffer, read, window, Returns}
use taste_runtime_common.Memory.Window.{window-add}
use taste_runtime_common.Memory.Partial.{IfReturns, IfReturns-any, IfReturns-bind, IfReturns-of_eq}
use taste_runtime_common.SystemSpec.{System, cfg_default}
use taste_runtime_common.PacketizerTable.{header_size_of}
use taste_runtime_common.Broker.{
  Broker, Effect, broker_buffer_size, deliver_request, receive_packet, register_error_callback,
  table_entry, packetizer_of, memcpy, slice, call, no_outputs, accept, reject,
}
use taste_runtime_common.Broker.Carrier.{sent_bytes}
use taste_runtime_common.Broker.Delivery.{Leads, IsSent, header_of}
use taste_runtime_common.Broker.Steady.{InOrder, AllOwn}
use taste_runtime_common.Broker.Traffic.{
  Step, requested, arrived, registered, Reach, next, at_start,
}
use taste_runtime_common.Broker.Traffic.Unchanged.{
  count_of, deliver_request-keeps_count, receive_packet-keeps,
}
use taste_runtime_common.Broker.Traffic.Invariant.{Reach-InOrder, Reach-IsSent}

-- The sequence count that a packet of the default packetizer says.
abbrev pub number_in : List ℕ → ℕ
number_in packet = get_or packet 2 0 / 4 * 256 + get_or packet 3 0

-- A request that the broker can send: the interface has 11 bits, and the message with what the packet
-- adds fits the broker's buffer of `size` bytes.
pub record IsSendable (s : System) (size interface : ℕ) (message : Buffer) (length : ℕ)
    : Type 0 where
  pub small : interface ≤ 2047
  pub owned : length ≤ message.size
  pub room : 12 + length ≤ size
  pub fits : size < s.size_mod
  pub length-lt : length < 4294967295

-- A message of at most GENERIC_PARTITION_BUFFER_SIZE bytes fits a buffer of BROKER_BUFFER_SIZE bytes.
pub IsSendable-of_partition :
    (s : System) (interface : ℕ) (message : Buffer) (length : ℕ)
    → interface ≤ 2047
    → length ≤ message.size
    → length ≤ s.generic_partition_buffer_size
    → broker_buffer_size s < s.size_mod
    → length < 4294967295
    → IsSendable s (broker_buffer_size s) interface message length
IsSendable-of_partition s interface message length small owned short fits below = record {
  small = small;
  owned = owned;
  room = omega arith;
  fits = fits;
  length-lt = below;
}

-- Calls of a broker, up to the state `last`, with the packets that the driver of `bus` is given in
-- them, in order. Other requests lead to other buses.
pub data Run (s : System) (size bus : ℕ) (last : Broker) : Broker → List (List ℕ) → Type 0 where
  stop : Run s size bus last last []
  sends :
      (broker broker' : Broker) (interface sender_pid : ℕ) (message : Buffer) (length : ℕ)
      (effects : List Effect) (packet : List ℕ) (packets : List (List ℕ))
      (leads : Leads s broker cfg_default interface)
      → leads.bus ≡ bus
      → IsSendable s size interface message length
      → deliver_request s broker interface sender_pid message length ≡ ok (broker', effects)
      → sent_bytes effects ≡ packet
      → Run s size bus last broker' packets
      → Run s size bus last broker (packet ∷ packets)
  elsewhere :
      (broker broker' : Broker) (interface other sender_pid : ℕ) (message : Buffer) (length : ℕ)
      (effects : List Effect) (packets : List (List ℕ))
      → read s.port_to_bus_map interface ≡ ok other
      → other ≢ bus
      → deliver_request s broker interface sender_pid message length ≡ ok (broker', effects)
      → Run s size bus last broker' packets
      → Run s size bus last broker packets
  receives :
      (broker broker' : Broker) (from : ℕ) (packet : Buffer) (length : ℕ) (effects : List Effect)
      (packets : List (List ℕ))
      → receive_packet s broker from packet length ≡ ok (broker', effects)
      → Run s size bus last broker' packets
      → Run s size bus last broker packets
  registers :
      (broker : Broker) (callback : ℕ) (packets : List (List ℕ))
      → Run s size bus last (register_error_callback broker callback) packets
      → Run s size bus last broker packets

-- What a run leaves: a broker that calls have led to, the count moved on by the packets sent, and each
-- packet numbered by its place.
pub record IsNumbered (s : System) (size bus start : ℕ) (last : Broker) (packets : List (List ℕ))
    : Type 0 where
  pub reached : Reach s (at_start size) last
  pub count_is : count_of last bus ≡ (start + count packets) % 16384
  pub numbers :
      (i : ℕ) (packet : List ℕ)
      → get_elem? packets i ≡ some packet
      → number_in packet ≡ (start + i) % 16384

number_of_IsSent :
    (s : System) (broker broker' : Broker) (send_function private_data bus interface sender_pid : ℕ)
    (message : Buffer) (length : ℕ) (effects : List Effect)
    → count_of broker bus ≤ 16383
    → IsSent
        (header_of s broker bus interface sender_pid length)
        send_function
        private_data
        bus
        broker
        message
        length
        broker'
        effects
    → number_in (sent_bytes effects) ≡ count_of broker bus
number_of_IsSent s broker broker' send_function private_data bus interface sender_pid message length
      effects small sent =
    let f : ℕ → ℕ = broker'.packetizer_buffer.byte in
    let whole : 12 + length ≡ 4 + (8 + length) = omega arith in
    let front : window f 0 (12 + length) ≡ window f 0 4 ++ window f 4 (8 + length) =
      ap (window f 0) whole ∙ window-add f 0 4 (8 + length) 4 refl in
    rw (sent.effects_are, front) (omega (arith, sent.packet.octet_2, sent.packet.octet_3))

module _ (s : System) (size bus : ℕ) where
  IsNumbered-cons :
      (start : ℕ) (last : Broker) (packet : List ℕ) (packets : List (List ℕ))
      → start ≤ 16383
      → number_in packet ≡ start
      → IsNumbered s size bus ((start + 1) % 16384) last packets
      → IsNumbered s size bus start last (packet ∷ packets)
  IsNumbered-cons start last packet packets small first rest = record {
    reached = rest.reached;
    count_is = omega (arith, rest.count_is);
    numbers = numbers;
  }
    where
      numbers :
          (i : ℕ) (p : List ℕ)
          → get_elem? (packet ∷ packets) i ≡ some p
          → number_in p ≡ (start + i) % 16384
      numbers zero p found =
          let same : packet ≡ p = cc in ap number_in (sym same) ∙ first ∙ omega arith
      numbers (suc i) p found = rest.numbers i p found ∙ omega arith

  module _ (all_own : AllOwn s) where
    -- A node whose buses have packetizers of the library's own, with a broker that calls have led to
    -- since its start, and more calls that return, but for Broker_initialize, with requests for the
    -- bus that go by the default packetizer and can be sent: the packets that the bus's driver is
    -- given are numbered one after the other modulo 2 ^ 14, from the count that the bus has before
    -- these calls, whatever other buses are used for between them and whatever is received; after
    -- them the count of the bus is the number of the next packet.
    pub Run-IsNumbered :
        {last broker : Broker} {packets : List (List ℕ)}
        → Reach s (at_start size) broker
        → Run s size bus last broker packets
        → IsNumbered s size bus (count_of broker bus) last packets
    unfolding register_error_callback
    Run-IsNumbered {broker = broker} reached stop =
        let order : InOrder size broker = Reach-InOrder s all_own size reached in
        record {
          reached = reached;
          count_is = omega (arith, order.counts bus);
          numbers = λ i packet found. absurd cc;
        }
    Run-IsNumbered {last} {broker} reached
          (sends _ broker' interface sender_pid message length effects packet packets leads here can
            is given run) =
        let order : InOrder size broker = Reach-InOrder s all_own size reached in
        let P : Broker × List Effect → Type 0 = λ (b, es).
          IsSent (header_of s broker leads.bus interface sender_pid length) leads.send_function
            leads.private_data leads.bus broker message length b es in
        let at_bus : count_of broker leads.bus ≡ count_of broker bus = ap (count_of broker) here in
        let sent : P (broker', effects) =
          subst (Returns P) is
            (Reach-IsSent s all_own size interface sender_pid message length reached leads can.small
              can.owned can.room can.fits can.length-lt).1 in
        let said : number_in packet ≡ count_of broker bus =
          ap number_in (sym given)
          ∙ number_of_IsSent s broker broker' leads.send_function leads.private_data leads.bus
              interface sender_pid message length effects (order.counts leads.bus) sent
          ∙ at_bus in
        let moved : count_of broker' bus ≡ (count_of broker bus + 1) % 16384 =
          ap (count_of broker') (sym here) ∙ sent.counted ∙ ap (λ c. (c + 1) % 16384) at_bus in
        IsNumbered-cons (count_of broker bus) last packet packets (order.counts bus) said (
          rw (sym moved) (
            Run-IsNumbered
              (next reached
                (requested broker broker' interface sender_pid message length effects is))
              run))
    Run-IsNumbered {broker = broker} reached
          (elsewhere _ broker' interface other sender_pid message length effects packets found apart
            is run) =
        let kept : count_of broker' bus ≡ count_of broker bus =
          IfReturns-of_eq (λ (b, es). count_of b bus ≡ count_of broker bus) is
            (deliver_request-keeps_count s bus broker interface other sender_pid message length
              found apart) in
        rw (sym kept) (
          Run-IsNumbered
            (next reached (requested broker broker' interface sender_pid message length effects is))
            run)
    Run-IsNumbered {broker = broker} reached
          (receives _ broker' from packet length effects packets is run) =
        let kept : broker' ≡ broker =
          IfReturns-of_eq (λ (b, es). b ≡ broker) is
            (receive_packet-keeps s broker from packet length) in
        rw (ap (λ b. count_of b bus) (sym kept))
          (Run-IsNumbered (next reached (arrived broker broker' from packet length effects is)) run)
    Run-IsNumbered {broker = broker} reached (registers _ callback packets run) =
        Run-IsNumbered (next reached (registered broker callback)) run
