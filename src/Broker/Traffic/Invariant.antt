-- ===== src/Broker/Traffic/Invariant.antt =====
-- What holds of the broker after any sequence of calls, and of the next request.
use taste_runtime_common.Common.{ℕ, ◌+◌, ◌≤◌, ◌<◌, refl, arith}
use taste_runtime_common.Common.{true}
use taste_runtime_common.Memory.{Returns, Buffer}
use taste_runtime_common.Memory.Partial.{IfReturns-of_eq}
use taste_runtime_common.SystemSpec.{System, cfg_default}
use taste_runtime_common.Broker.{Broker, initialize, deliver_request, register_error_callback}
use taste_runtime_common.Broker.Delivery.{Leads, IsSent, header_of, deliver_request-IsSent}
use taste_runtime_common.Broker.Steady.{InOrder, AllOwn, Leaves}
use taste_runtime_common.Broker.Traffic.{
  Step, initialized, requested, arrived, registered, Reach, here, next, at_start,
}
use taste_runtime_common.Broker.Traffic.Operations.{
  deliver_request-Leaves, receive_packet-Leaves, initialize_loop-Leaves,
}

module _ (s : System) (all_own : AllOwn s) (size : ℕ) where
  Step-InOrder : {b c : Broker} → Step s b c → InOrder size b → InOrder size c
  unfolding initialize register_error_callback
  Step-InOrder (initialized broker broker' valid_buses effects is) order =
      (IfReturns-of_eq (Leaves size true) is (
        initialize_loop-Leaves s all_own size valid_buses 0 s.system_buses_number
          (record broker { functions_set = true })
          (record { size_is = order.size_is; counts = order.counts }))).0
  Step-InOrder (requested broker broker' interface sender_pid message length effects is) order =
      (IfReturns-of_eq (Leaves size broker.functions_set) is
        (deliver_request-Leaves s all_own size broker interface sender_pid message length order)).0
  Step-InOrder (arrived broker broker' bus packet length effects is) order =
      (IfReturns-of_eq (Leaves size broker.functions_set) is
        (receive_packet-Leaves s all_own size broker bus packet length order)).0
  Step-InOrder (registered broker callback) order = record {
    size_is = order.size_is;
    counts = order.counts;
  }

  pub Reach-InOrder : {b : Broker} → Reach s (at_start size) b → InOrder size b
  Reach-InOrder here = record { size_is = refl; counts = λ bus. omega arith }
  Reach-InOrder (next r step) = Step-InOrder step (Reach-InOrder r)

  -- A node whose buses have packetizers of the library's own, and whose broker has come from its start
  -- by calls of its functions, in any order and with any arguments, that returned: its buffer has its
  -- size, and no sequence count has left its 14 bits. A request now, of an initialized broker, to an interface of at most 11 bits that leads to a bus with the default
  -- packetizer and a driver, with a message that fits the broker's buffer: Broker_deliver_request
  -- returns, without an access out of bounds and without a failed assertion, and the driver is given
  -- one packet that says the count of the bus and carries the message.
  pub Reach-IsSent :
      {broker : Broker} (interface sender_pid : ℕ) (message : Buffer) (length : ℕ)
      → Reach s (at_start size) broker
      → (leads : Leads s broker cfg_default interface) → interface ≤ 2047
      → length ≤ message.size
      → 12 + length ≤ size
      → size < s.size_mod
      → length < 4294967295
      → InOrder size broker
        × Returns
            (λ (broker', effects).
              IsSent
                (header_of s broker leads.bus interface sender_pid length)
                leads.send_function
                leads.private_data
                leads.bus
                broker
                message
                length
                broker'
                effects)
            (deliver_request s broker interface sender_pid message length)
  Reach-IsSent {broker} interface sender_pid message length reached leads small owned room fits
        short =
      let order : InOrder size broker = Reach-InOrder reached in
      (
        order,
        deliver_request-IsSent s broker interface sender_pid message length leads (record {
          interface_in_range = small;
          count_in_range = order.counts leads.bus;
          message_owned = owned;
          room = omega (arith, order.size_is);
          buffer_fits = omega (arith, order.size_is);
          length-lt = short;
        }),
      )
