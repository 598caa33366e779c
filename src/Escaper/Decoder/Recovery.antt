-- ===== src/Escaper/Decoder/Recovery.antt =====
-- How the decoder finds its way back into the stream, from whatever state it is in.
use taste_runtime_common.Common.{ℕ, ◌≡◌, ap, ◌∙◌}
use taste_runtime_common.Common.{List, [], ◌∷◌, ◌++◌, length, append_assoc}
use taste_runtime_common.Memory.{◌>>=◌, Returns}
use taste_runtime_common.Memory.Laws.{Returns-bind}
use taste_runtime_common.Escaper.{Escaper, Event}
use taste_runtime_common.Escaper.{start_byte, stop_byte, decode_packet}
use taste_runtime_common.Escaper.Frame.{escape_bytes, frame}
use taste_runtime_common.Escaper.Decoder.{decode_bytes, after_events}
use taste_runtime_common.Escaper.Decoder.{decode_packet-eq-decode_bytes}
use taste_runtime_common.Escaper.Decoder.Packet.{IsIdleFor, decode_silent}
use taste_runtime_common.Escaper.Decoder.Stream.{
  stream, FitsStream, deliveries, Delivered, decode_bytes-stream,
}
use taste_runtime_common.Escaper.Decoder.Sound.{IsSound}
use taste_runtime_common.Escaper.Decoder.Rounds.{AtMostOne, start_round, body_rounds, stop_round}

-- A whole frame, from any state.
frame_rounds :
    (bus max : ℕ) (e : Escaper) (packet rest : List ℕ)
    → IsSound max e
    → (e' : Escaper) × (out : List Event) × IsIdleFor max e'
      × AtMostOne bus max out
      × (decode_bytes bus e (frame packet ++ rest)
          ≡ (decode_bytes bus e' rest >>= after_events out))
frame_rounds bus max e packet rest h =
    let (e₁, b₁, start) = start_round bus max e h in
    let (e₂, b₂, body) = body_rounds bus max e₁ packet (stop_byte ∷ rest) b₁ in
    let (e₃, out, idle, one, stop) = stop_round bus max e₂ rest b₂ in
    (
      e₃,
      out,
      idle,
      one,
      decode_silent bus e start_byte e₁ _ start
          ∙ ap (decode_bytes bus e₁) (append_assoc (escape_bytes packet) (stop_byte ∷ []) rest)
          ∙ body
          ∙ stop,
    )

-- What a decoder delivers of a stream that it enters in the midst of something else: something of
-- the first frame, at most, and then every packet.
abbrev pub Recovered : ℕ → ℕ → List Event → Escaper × List Event → Type 0
Recovered bus max events (e, out) =
    (first : List Event) × AtMostOne bus max first × IsIdleFor max e × (out ≡ first ++ events)

-- A decoder in any state that receives a frame, of a packet of any size, and then frames of packets
-- that fit its buffer, with bytes other than the start byte between them: it returns without an
-- access out of bounds and idle, and has delivered at most one packet for the first frame, of no more
-- than m_decoded_packet_max_size bytes, and then exactly the packets of the other frames, in order.
-- The state is any that holds bytes only while a packet is under way.
pub decode_packet-Recovered :
    (e : Escaper) (bus : ℕ) (packet : List ℕ) (parts : List (List ℕ × List ℕ))
    → IsSound e.decoded_max_size e
    → FitsStream e.decoded_max_size parts
    → Returns
        (Recovered bus e.decoded_max_size (deliveries bus parts))
        (decode_packet e bus (frame packet ++ stream parts) (length (frame packet ++ stream parts)))
decode_packet-Recovered e bus packet parts h fits =
    let max : ℕ = e.decoded_max_size in
    let (e', out, idle, one, same) = frame_rounds bus max e packet (stream parts) h in
    rw (decode_packet-eq-decode_bytes e bus (frame packet ++ stream parts), same)
      (Returns-bind (Delivered max (deliveries bus parts)) _ (decode_bytes bus e' (stream parts)) _
        (decode_bytes-stream bus max e' parts idle fits)
        λ r d. (out, one, d.0, ap (λ t. out ++ t) d.1))
