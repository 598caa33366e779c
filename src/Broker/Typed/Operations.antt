-- ===== src/Broker/Typed/Operations.antt =====
-- What `Broker_deliver_request` leaves in its buffer and hands to a driver are bytes.
use taste_runtime_common.Common.{ℕ, zero, suc, ◌+◌, ◌-◌, ◌<◌, ◌≡◌, List, [], ◌∷◌, ◌++◌}
use taste_runtime_common.Common.{true, Bool-cases, inl, inr, ltb, leb, ◌==◌, if◌then◌else◌}
use taste_runtime_common.Words.{u16}
use taste_runtime_common.Memory.{Buffer, read, window}
use taste_runtime_common.Memory.Partial.{IfReturns, IfReturns-bind, IfReturns-any}
use taste_runtime_common.SpacePacket.{Packetizer, PacketizerFunctions}
use taste_runtime_common.SystemSpec.{System, PacketizerCfg}
use taste_runtime_common.PacketizerTable.{functions, header_size_of}
use taste_runtime_common.Packetizer.Verdict.{IsBytes}
use taste_runtime_common.Broker.{
  Broker, Effect, acquire_lock, release_lock, send, table_entry, packetizer_of, memcpy, slice, call,
  deliver_request,
}
use taste_runtime_common.Broker.Relay.{is_own}
use taste_runtime_common.Broker.Steady.{AllOwn}
use taste_runtime_common.Broker.Traffic.Operations.{table_entry-functions}
use taste_runtime_common.Broker.Typed.{All, AllBytes, IsTypedEffect}
use taste_runtime_common.Broker.Typed.Packetizers.{HasBytes, packetize-HasBytes}

All-append {ℓ κ} :
    {A : Type ℓ} (P : A → Type κ) (xs ys : List A) → All P xs → All P ys → All P (xs ++ ys)
All-append P [] ys h k = k
All-append P (x ∷ xs) ys h k = (h.0, All-append P xs ys h.1 k)

window-AllBytes : (f : ℕ → ℕ) (i n : ℕ) → ((j : ℕ) → f j < 256) → AllBytes (window f i n)
window-AllBytes f i zero bytes = tt
window-AllBytes f i (suc n) bytes = (bytes i, window-AllBytes f (i + 1) n bytes)

slice-AllBytes :
    (b : Buffer) (offset length : ℕ) → IsBytes b → IfReturns AllBytes (slice b offset length)
unfolding slice
slice-AllBytes b offset length bytes = elim (Bool-cases (leb (offset + length) b.size)) [
  | inl inside ↦ rw inside (window-AllBytes b.byte offset length bytes)
  | inr outside ↦ rw outside tt
]

memcpy-IsBytes :
    (b : Buffer) (offset : ℕ) (source : Buffer) (length : ℕ)
    → IsBytes b
    → IsBytes source
    → IfReturns IsBytes (memcpy b offset source length)
unfolding memcpy
memcpy-IsBytes b offset source length bytes more =
    elim (Bool-cases (leb (offset + length) b.size)) [
      | inr outside ↦ rw outside tt
      | inl inside ↦ rw inside (elim (Bool-cases (leb length source.size)) [
        | inr short ↦ rw short tt
        | inl owned ↦ rw owned λ j. elim (Bool-cases (ltb j offset)) [
          | inl front ↦ rw front (bytes j)
          | inr at ↦ rw at (elim (Bool-cases (ltb j (offset + length))) [
            | inl among ↦ rw among (more (j - offset))
            | inr behind ↦ rw behind (bytes j)
          ])
        ]
      ])
    ]

call-All :
    (function : ℕ) (e : Effect) → IsTypedEffect e → IfReturns (All IsTypedEffect) (call function e)
unfolding call
call-All function e typed = elim (Bool-cases (function == 0)) [
  | inl null ↦ rw null tt
  | inr set ↦ rw set (typed, tt)
]

-- What an operation hands out, between the calls of the lock.
locked-All :
    (effects : List Effect)
    → All IsTypedEffect effects
    → All IsTypedEffect (acquire_lock ∷ (effects ++ (release_lock ∷ [])))
locked-All effects typed = (tt, All-append IsTypedEffect effects (release_lock ∷ []) typed (tt, tt))

-- The buffer and the effects.
abbrev pub Hands : Broker × List Effect → Type 0
Hands (broker, effects) = IsBytes broker.packetizer_buffer × All IsTypedEffect effects

module _ (s : System) (all_own : AllOwn s) where
  packetized :
      (f : PacketizerFunctions) (cfg : PacketizerCfg) (p : Packetizer) (bus source destination : ℕ)
      (b : Buffer) (offset length : ℕ)
      → f ≡ functions s cfg
      → is_own cfg ≡ true
      → IsBytes b
      → IfReturns HasBytes (f.packetize p s.send_type bus source destination b offset length)
  packetized f cfg p bus source destination b offset length is own bytes =
      rw is (packetize-HasBytes s cfg p bus source destination b offset length own bytes)

  pub deliver_request-Hands :
      (broker : Broker) (interface sender_pid : ℕ) (message : Buffer) (length : ℕ)
      → IsBytes broker.packetizer_buffer
      → IsBytes message
      → IfReturns Hands (deliver_request s broker interface sender_pid message length)
  unfolding deliver_request
  deliver_request-Hands broker interface sender_pid message length bytes typed =
      let source : ℕ = if s.passes_sender_pid then u16 sender_pid else 0 in
      IfReturns-any Hands (read s.port_to_bus_map interface) _ λ bus.
        IfReturns-bind (λ cfg. is_own cfg ≡ true) Hands (read s.bus_to_packetizer_cfg bus) _
          (all_own bus)
          λ cfg own.
            IfReturns-bind (λ f. f ≡ functions s cfg) Hands (table_entry s broker cfg) _
              (table_entry-functions s broker cfg)
              λ f is.
                let header : ℕ = header_size_of s cfg bus f in
                IfReturns-bind IsBytes Hands _ _
                  (memcpy-IsBytes broker.packetizer_buffer header message length bytes typed)
                  λ b copied. IfReturns-any Hands (packetizer_of s broker bus) _ λ p.
                    IfReturns-bind HasBytes Hands
                      (f.packetize p s.send_type bus source (u16 interface) b header length) _
                      (packetized f cfg p bus source (u16 interface) b header length is own copied)
                      λ r made.
                        IfReturns-any Hands (read s.bus_to_driver_private_data bus) _
                          λ private_data.
                            IfReturns-any Hands (read s.bus_to_driver_send_function bus) _
                              λ function.
                                IfReturns-bind AllBytes Hands (slice r.buffer 0 r.size) _
                                  (slice-AllBytes r.buffer 0 r.size made)
                                  λ packet small.
                                    IfReturns-bind (All IsTypedEffect) Hands
                                      (call function (send function private_data packet)) _
                                      (call-All function (send function private_data packet) small)
                                      λ sent out. (made, locked-All sent out)
