-- ===== src/Escaper/Decoder/Oversize.antt =====
-- What the decoder makes of frames of packets of any size, also of those that its buffer cannot hold.
use taste_runtime_common.Common.{ℕ, ◌≡◌, refl, sym, ap, ◌∙◌, inl, inr, arith, Option, none, some}
use taste_runtime_common.Common.{Bool-cases, List, [], ◌∷◌, ◌++◌, length, append_assoc}
use taste_runtime_common.Memory.{◌>>=◌, Returns, window}
use taste_runtime_common.Memory.Laws.{>>=-ok, Returns-bind}
use taste_runtime_common.Escaper.{
  Escaper, Event, wait, data_byte, start_byte, stop_byte, decode_packet,
}
use taste_runtime_common.Escaper.Frame.{is_special, escape_bytes, frame}
use taste_runtime_common.Escaper.Decoder.{decode_bytes, after_events, decode_packet-eq-decode_bytes}
use taste_runtime_common.Escaper.Decoder.Packet.{
  IsIdleFor, decode_silent, decode_delivers, step-stop,
}
use taste_runtime_common.Escaper.Decoder.Stream.{stream, NoStart, Delivered, decode-noise}
use taste_runtime_common.Escaper.Decoder.Taker.{take_byte, take_bytes, taken_for, event_of}
use taste_runtime_common.Escaper.Decoder.TakerRounds.{
  Has, Stands, sent_byte, takes, step_waits, step_starts,
}

escape_bytes-cons :
    (x : ℕ) (xs rest : List ℕ)
    → escape_bytes (x ∷ xs) ++ rest ≡ sent_byte x (escape_bytes xs ++ rest)
escape_bytes-cons x xs rest = elim (Bool-cases (is_special x)) [
  | inl special ↦ rw special refl
  | inr plain ↦ rw plain refl
]

takes_all :
    (bus max : ℕ) (got : Option (List ℕ)) (e : Escaper) (xs rest : List ℕ)
    → Stands max got e
    → (e' : Escaper) × Stands max (take_bytes max got xs) e'
      × (decode_bytes bus e (escape_bytes xs ++ rest) ≡ decode_bytes bus e' rest)
takes_all bus max got e [] rest h = (e, h, refl)
takes_all bus max got e (x ∷ xs) rest h =
    let (e₁, h₁, one) = takes bus max e x (escape_bytes xs ++ rest) got h in
    let (e₂, h₂, others) = takes_all bus max (take_byte max got x) e₁ xs rest h₁ in
    (e₂, h₂, ap (decode_bytes bus e) (escape_bytes-cons x xs rest) ∙ one ∙ others)

-- The stop byte.
ends :
    (bus max : ℕ) (got : Option (List ℕ)) (e : Escaper) (rest : List ℕ)
    → Stands max got e
    → (e' : Escaper) × IsIdleFor max e'
      × (decode_bytes bus e (stop_byte ∷ rest)
          ≡ (decode_bytes bus e' rest >>= after_events (event_of bus got)))
ends bus max none e rest i = (
  e,
  i,
  decode_silent bus e stop_byte e rest (step_waits bus e stop_byte i.idle.waits refl)
      ∙ sym (>>=-ok (decode_bytes bus e rest)),
)
ends bus max (some got) e rest h =
    let e' : Escaper = record e { parse_state = wait; decoded_index = 0 } in
    (
      e',
      record {
        idle = record { waits = refl; nothing_held = refl };
        max_is = h.max_is;
        max_in_buffer = h.max_in_buffer;
      },
      decode_delivers bus e stop_byte e' _ rest (step-stop bus e h.in_packet)
          ∙ ap
              (λ p.
                decode_bytes bus e' rest >>= after_events (record { bus = bus; packet = p } ∷ []))
              h.bytes,
    )

-- A frame of any packet, at an idle decoder.
decode-any_frame :
    (bus max : ℕ) (e : Escaper) (packet rest : List ℕ)
    → IsIdleFor max e
    → (e' : Escaper) × IsIdleFor max e'
      × (decode_bytes bus e (frame packet ++ rest)
          ≡ (decode_bytes bus e' rest >>= after_events (event_of bus (taken_for max packet))))
decode-any_frame bus max e packet rest i =
    let e₀ : Escaper = record e { parse_state = data_byte } in
    let started : Has max [] e₀ = record {
      in_packet = refl;
      bytes = ap (window e.decoded_buffer.byte 0) i.idle.nothing_held;
      room = omega (arith, i.idle.nothing_held);
      max_is = i.max_is;
      max_in_buffer = i.max_in_buffer;
    } in
    let (e₁, h, body) = takes_all bus max (some []) e₀ packet (stop_byte ∷ rest) started in
    let (e₂, idle, stop) = ends bus max (taken_for max packet) e₁ rest h in
    (
      e₂,
      idle,
      decode_silent bus e start_byte e₀ _ (step_starts bus e start_byte i.idle.waits refl)
          ∙ ap (decode_bytes bus e₀) (append_assoc (escape_bytes packet) (stop_byte ∷ []) rest)
          ∙ body
          ∙ stop,
    )

-- What the packets of a stream are taken for.
abbrev pub taken_events : ℕ → ℕ → List (List ℕ × List ℕ) → List Event
taken_events bus max [] = []
taken_events bus max ((noise, packet) ∷ parts) =
    event_of bus (taken_for max packet) ++ taken_events bus max parts

abbrev pub QuietBetween : List (List ℕ × List ℕ) → Type 0
QuietBetween [] = Unit
QuietBetween ((noise, packet) ∷ parts) = NoStart noise × QuietBetween parts

decode_bytes-taken :
    (bus max : ℕ) (e : Escaper) (parts : List (List ℕ × List ℕ))
    → IsIdleFor max e
    → QuietBetween parts
    → Returns (Delivered max (taken_events bus max parts)) (decode_bytes bus e (stream parts))
decode_bytes-taken bus max e [] i h = unfold decode_bytes in (i, refl)
decode_bytes-taken bus max e ((noise, packet) ∷ parts) i h =
    let (e', i', same) = decode-any_frame bus max e packet (stream parts) i in
    rw (decode-noise bus e noise (frame packet ++ stream parts) i.idle h.0 ∙ same) (
      Returns-bind (Delivered max (taken_events bus max parts)) _
        (decode_bytes bus e' (stream parts)) _ (decode_bytes-taken bus max e' parts i' h.1)
        λ r d. (d.0, ap (λ t. event_of bus (taken_for max packet) ++ t) d.1))

-- An idle decoder that receives frames of packets of any sizes, with bytes other than the start byte
-- between them: it returns, without an access out of bounds and idle, and has delivered for each
-- frame, in order, what a receiver with room for m_decoded_packet_max_size bytes takes its packet
-- for: one that collects bytes, drops all at the first byte for which there is no room, and then
-- collects anew behind the next start byte among the bytes of the packet; it delivers nothing if there
-- is none.
pub decode_packet-taken :
    (e : Escaper) (bus : ℕ) (parts : List (List ℕ × List ℕ))
    → IsIdleFor e.decoded_max_size e
    → QuietBetween parts
    → Returns
        (Delivered e.decoded_max_size (taken_events bus e.decoded_max_size parts))
        (decode_packet e bus (stream parts) (length (stream parts)))
decode_packet-taken e bus parts i h =
    rw (decode_packet-eq-decode_bytes e bus (stream parts))
      (decode_bytes-taken bus e.decoded_max_size e parts i h)
