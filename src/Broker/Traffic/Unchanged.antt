-- ===== src/Broker/Traffic/Unchanged.antt =====
-- What a call of the broker leaves alone: the sequence counts of other buses, and all of its state in
-- a reception.
use taste_runtime_common.Common.{ℕ, ◌≡◌, ◌≢◌, refl, sym, ap}
use taste_runtime_common.Common.{List, ne→==, ◌==◌, false, if◌then◌else◌}
use taste_runtime_common.Memory.{ok, Buffer, read}
use taste_runtime_common.Memory.Partial.{IfReturns, IfReturns-any}
use taste_runtime_common.SystemSpec.{System}
use taste_runtime_common.Broker.{
  Broker, Effect, deliver_request, receive_packet, table_entry, packetizer_of, memcpy, slice, call,
  no_outputs, accept, reject,
}

abbrev pub count_of : Broker → ℕ → ℕ
count_of broker bus = (broker.packetizers_data bus).packet_sequence_count

module _ (s : System) where
  -- A request to another bus leaves the packetizer of this one alone.
  pub deliver_request-keeps_count :
      (bus : ℕ) (broker : Broker) (interface other sender_pid : ℕ) (message : Buffer) (length : ℕ)
      → read s.port_to_bus_map interface ≡ ok other
      → other ≢ bus
      → IfReturns
          (λ (broker', effects). count_of broker' bus ≡ count_of broker bus)
          (deliver_request s broker interface sender_pid message length)
  unfolding deliver_request
  deliver_request-keeps_count bus broker interface other sender_pid message length found apart =
      let Q : Broker × List Effect → Type 0 =
        λ (broker', effects). count_of broker' bus ≡ count_of broker bus in
      let away : (bus == other) ≡ false = ne→== bus other (λ e. apart (sym e)) in
      rw found (
        IfReturns-any Q (read s.bus_to_packetizer_cfg other) _ λ cfg.
          IfReturns-any Q (table_entry s broker cfg) _ λ f.
            IfReturns-any Q (memcpy broker.packetizer_buffer _ message length) _ λ b.
              IfReturns-any Q (packetizer_of s broker other) _ λ p.
                IfReturns-any Q (f.packetize p s.send_type other _ _ b _ length) _ λ r.
                  IfReturns-any Q (read s.bus_to_driver_private_data other) _ λ private_data.
                    IfReturns-any Q (read s.bus_to_driver_send_function other) _ λ function.
                      IfReturns-any Q (slice r.buffer 0 r.size) _ λ packet.
                        IfReturns-any Q (call function _) _ λ sent.
                          ap
                            (λ t.
                              (if t
                                then r.packetizer
                                else broker.packetizers_data bus).packet_sequence_count)
                            away)

  -- A reception leaves the broker as it was, whatever arrives.
  pub receive_packet-keeps :
      (broker : Broker) (from : ℕ) (packet : Buffer) (length : ℕ)
      → IfReturns
          (λ (broker', effects). broker' ≡ broker)
          (receive_packet s broker from packet length)
  unfolding receive_packet
  receive_packet-keeps broker from packet length =
      let Q : Broker × List Effect → Type 0 = λ (broker', effects). broker' ≡ broker in
      IfReturns-any Q (read s.bus_to_packetizer_cfg from) _ λ cfg.
        IfReturns-any Q (table_entry s broker cfg) _ λ f.
          IfReturns-any Q (packetizer_of s broker from) _ λ p.
            IfReturns-any Q (f.depacketize p s.expect_type packet length from no_outputs) _ λ r.
              IfReturns-any Q (if r.0 then accept s packet r.1 else reject broker packet length r.1)
                _ λ effects. refl
