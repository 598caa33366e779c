-- ===== src/Broker/Traffic/Operations.antt =====
-- What each operation of the broker leaves.
use taste_runtime_common.Common.{ℕ, zero, suc, ◌+◌, ◌≤◌, ◌≡◌, refl, ◌∙◌, ap, arith, List, []}
use taste_runtime_common.Common.{true, Bool-cases, inl, inr, ltb, ◌==◌, if◌then◌else◌}
use taste_runtime_common.Words.{u16}
use taste_runtime_common.Memory.{Result, ok, Buffer, read}
use taste_runtime_common.Memory.Partial.{IfReturns, IfReturns-bind, IfReturns-any}
use taste_runtime_common.SpacePacket.{Packetizer, PacketizerFunctions}
use taste_runtime_common.SystemSpec.{System, PacketizerCfg}
use taste_runtime_common.PacketizerTable.{functions, header_size_of}
use taste_runtime_common.Broker.{
  Broker, Effect, accept, reject, no_outputs, set_packetizer, table_entry, packetizer_of, memcpy,
  slice, call, initialize_bus, initialize_loop, deliver_request, receive_packet,
}
use taste_runtime_common.Broker.Relay.{is_own}
use taste_runtime_common.Broker.Steady.{
  IsSteady, packetize-IsSteady, init-InRange, InOrder, AllOwn, Leaves,
}

pub table_entry-functions :
    (s : System) (broker : Broker) (cfg : PacketizerCfg)
    → IfReturns (λ f. f ≡ functions s cfg) (table_entry s broker cfg)
unfolding table_entry
table_entry-functions s broker cfg = ground arith

packetizer_of-data :
    (s : System) (broker : Broker) (bus : ℕ)
    → IfReturns (λ p. p ≡ broker.packetizers_data bus) (packetizer_of s broker bus)
unfolding packetizer_of
packetizer_of-data s broker bus = ground arith

memcpy-size :
    (b : Buffer) (offset : ℕ) (source : Buffer) (length : ℕ)
    → IfReturns (λ c. c.size ≡ b.size) (memcpy b offset source length)
unfolding memcpy
memcpy-size b offset source length = ground arith

InOrder-set :
    (size : ℕ) (broker : Broker) (bus : ℕ) (p : Packetizer)
    → InOrder size broker
    → p.packet_sequence_count ≤ 16383
    → InOrder size (set_packetizer broker bus p)
InOrder-set size broker bus p order small = record {
  size_is = order.size_is;
  counts = λ i. elim (Bool-cases (i == bus)) [
    | inl same ↦ rw same small
    | inr other ↦ rw other (order.counts i)
  ];
}

InOrder-resized :
    (size : ℕ) (broker : Broker) (b : Buffer)
    → InOrder size broker
    → b.size ≡ size
    → InOrder size (record broker { packetizer_buffer = b })
InOrder-resized size broker b order same = record { size_is = same; counts = order.counts }

abbrev bounded_bus : System → Broker → ℕ → Result (Broker × List Effect)
bounded_bus s broker bus =
    if ltb bus s.system_buses_number then initialize_bus s broker bus else ok (broker, [])

module _ (s : System) (all_own : AllOwn s) (size : ℕ) where
  abbrev pid_of : ℕ → ℕ
  pid_of sender_pid = if s.passes_sender_pid then u16 sender_pid else 0

  packetized :
      (f : PacketizerFunctions) (cfg : PacketizerCfg) (p : Packetizer) (bus source destination : ℕ)
      (b : Buffer) (offset length : ℕ)
      → f ≡ functions s cfg
      → is_own cfg ≡ true
      → p.packet_sequence_count ≤ 16383
      → IfReturns (IsSteady p b) (f.packetize p s.send_type bus source destination b offset length)
  packetized f cfg p bus source destination b offset length is own small =
      rw is (packetize-IsSteady s cfg p bus source destination b offset length own small)

  pub deliver_request-Leaves :
      (broker : Broker) (interface sender_pid : ℕ) (message : Buffer) (length : ℕ)
      → InOrder size broker
      → IfReturns
          (Leaves size broker.functions_set)
          (deliver_request s broker interface sender_pid message length)
  unfolding deliver_request
  deliver_request-Leaves broker interface sender_pid message length order =
      let Q : Broker × List Effect → Type 0 = Leaves size broker.functions_set in
      IfReturns-any Q (read s.port_to_bus_map interface) _ λ bus.
        IfReturns-bind (λ cfg. is_own cfg ≡ true) Q (read s.bus_to_packetizer_cfg bus) _
          (all_own bus)
          λ cfg own.
            IfReturns-bind (λ f. f ≡ functions s cfg) Q (table_entry s broker cfg) _
              (table_entry-functions s broker cfg)
              λ f is.
                let header : ℕ = header_size_of s cfg bus f in
                IfReturns-bind (λ b. b.size ≡ broker.packetizer_buffer.size) Q _ _
                  (memcpy-size broker.packetizer_buffer header message length)
                  λ b same.
                    IfReturns-bind (λ p. p ≡ broker.packetizers_data bus) Q
                      (packetizer_of s broker bus) _ (packetizer_of-data s broker bus)
                      λ p data_is.
                        let small : p.packet_sequence_count ≤ 16383 =
                          omega
                            (arith, ap (λ x. x.packet_sequence_count) data_is, order.counts bus) in
                        IfReturns-bind (IsSteady p b) Q _ _
                          (packetized f cfg p bus (pid_of sender_pid) (u16 interface) b header
                            length is own small)
                          λ r steady.
                            IfReturns-any Q (read s.bus_to_driver_private_data bus) _
                              λ private_data.
                                IfReturns-any Q (read s.bus_to_driver_send_function bus) _
                                  λ function. IfReturns-any Q (slice r.buffer 0 r.size) _ λ packet.
                                    IfReturns-any Q (call function _) _ λ sent. (
                                      InOrder-resized size (set_packetizer broker bus r.packetizer)
                                          r.buffer
                                          (InOrder-set size broker bus r.packetizer order steady.1)
                                          (steady.0 ∙ same ∙ order.size_is),
                                      refl,
                                    )

  pub receive_packet-Leaves :
      (broker : Broker) (bus : ℕ) (packet : Buffer) (length : ℕ)
      → InOrder size broker
      → IfReturns (Leaves size broker.functions_set) (receive_packet s broker bus packet length)
  unfolding receive_packet
  receive_packet-Leaves broker bus packet length order =
      let Q : Broker × List Effect → Type 0 = Leaves size broker.functions_set in
      IfReturns-any Q (read s.bus_to_packetizer_cfg bus) _ λ cfg.
        IfReturns-any Q (table_entry s broker cfg) _ λ f.
          IfReturns-any Q (packetizer_of s broker bus) _ λ p.
            IfReturns-any Q (f.depacketize p s.expect_type packet length bus no_outputs) _ λ r.
              IfReturns-any Q (if r.0 then accept s packet r.1 else reject broker packet length r.1)
                _ λ effects. (order, refl)

  initialize_bus-Leaves :
      (broker : Broker) (bus : ℕ)
      → InOrder size broker
      → IfReturns (Leaves size broker.functions_set) (initialize_bus s broker bus)
  unfolding initialize_bus
  initialize_bus-Leaves broker bus order =
      let Q : Broker × List Effect → Type 0 = Leaves size broker.functions_set in
      IfReturns-bind (λ cfg. is_own cfg ≡ true) Q (read s.bus_to_packetizer_cfg bus) _ (all_own bus)
        λ cfg own.
          IfReturns-bind (λ f. f ≡ functions s cfg) Q (table_entry s broker cfg) _
            (table_entry-functions s broker cfg)
            λ f is.
              IfReturns-bind (λ p. p ≡ broker.packetizers_data bus) Q (packetizer_of s broker bus) _
                (packetizer_of-data s broker bus)
                λ p data_is.
                  let small : p.packet_sequence_count ≤ 16383 =
                    omega (arith, ap (λ x. x.packet_sequence_count) data_is, order.counts bus) in
                  IfReturns-bind (λ i. i.packetizer.packet_sequence_count ≤ 16383) Q (f.init p bus)
                    _ (rw is (init-InRange s cfg p bus own small))
                    λ i in_range. (InOrder-set size broker bus i.packetizer order in_range, refl)

  bounded_bus-Leaves :
      (broker : Broker) (bus : ℕ)
      → InOrder size broker
      → IfReturns (Leaves size broker.functions_set) (bounded_bus s broker bus)
  bounded_bus-Leaves broker bus order = elim (Bool-cases (ltb bus s.system_buses_number)) [
    | inl inside ↦ rw inside (initialize_bus-Leaves broker bus order)
    | inr outside ↦ rw outside (order, refl)
  ]

  pub initialize_loop-Leaves :
      (valid_buses : List ℕ) (i left : ℕ) (broker : Broker)
      → InOrder size broker
      → IfReturns (Leaves size broker.functions_set) (initialize_loop s valid_buses i left broker)
  unfolding initialize_loop
  initialize_loop-Leaves valid_buses i zero broker order = (order, refl)
  initialize_loop-Leaves valid_buses i (suc left) broker order =
      let Q : Broker × List Effect → Type 0 = Leaves size broker.functions_set in
      IfReturns-any Q (read valid_buses i) _ λ bus. elim (Bool-cases (bus == s.bus_invalid_id)) [
        | inl last ↦ rw last (order, refl)
        | inr valid ↦ rw valid (
            IfReturns-bind Q Q (bounded_bus s broker bus) _ (bounded_bus-Leaves broker bus order)
              λ a leaves.
                IfReturns-bind (Leaves size a.0.functions_set) Q
                  (initialize_loop s valid_buses (i + 1) left a.0) _
                  (initialize_loop-Leaves valid_buses (i + 1) left a.0 leaves.0)
                  λ c more. (more.0, more.1 ∙ leaves.1))
      ]
