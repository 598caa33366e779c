-- ===== src/Escaper/Decoder/Stream.antt =====
-- What the decoder makes of the frames of a stream.
use taste_runtime_common.Common.{ℕ, ◌+◌, ◌≤◌, ◌≡◌, ◌≢◌, refl, ap, ◌∙◌, arith}
use taste_runtime_common.Common.{List, [], ◌∷◌, ◌++◌, length, append-nil, none}
use taste_runtime_common.Memory.{ok, Returns}
use taste_runtime_common.Memory.Laws.{Returns-bind}
use taste_runtime_common.Escaper.{Escaper, Event, wait, step, start_byte, start_decoder}
use taste_runtime_common.Escaper.{decode_packet}
use taste_runtime_common.Escaper.Frame.{frame}
use taste_runtime_common.Escaper.Decoder.{decode_bytes}
use taste_runtime_common.Escaper.Decoder.{decode_packet-eq-decode_bytes}
use taste_runtime_common.Escaper.Decoder.Packet.{IsIdle, IsIdleFor, held, decode_silent}
use taste_runtime_common.Escaper.Decoder.Packet.{decode-frame, decode-frame_behind}

step-noise :
    (bus : ℕ) (e : Escaper) (x : ℕ) → IsIdle e → x ≢ start_byte → step bus e x ≡ ok (e, none)
unfolding step
step-noise bus e x i h = ground arith

-- Bytes between two frames.
abbrev pub NoStart : List ℕ → Type 0
NoStart [] = Unit
NoStart (x ∷ xs) = (x ≢ start_byte) × NoStart xs

pub decode-noise :
    (bus : ℕ) (e : Escaper) (noise rest : List ℕ)
    → IsIdle e
    → NoStart noise
    → decode_bytes bus e (noise ++ rest) ≡ decode_bytes bus e rest
decode-noise bus e [] rest i h = refl
decode-noise bus e (x ∷ xs) rest i h =
    decode_silent bus e x e (xs ++ rest) (step-noise bus e x i h.0)
    ∙ decode-noise bus e xs rest i h.1

-- Frames, each behind bytes that belong to none.
abbrev pub stream : List (List ℕ × List ℕ) → List ℕ
stream [] = []
stream ((noise, packet) ∷ parts) = noise ++ (frame packet ++ stream parts)

abbrev pub FitsStream : ℕ → List (List ℕ × List ℕ) → Type 0
FitsStream max [] = Unit
FitsStream max ((noise, packet) ∷ parts) =
    NoStart noise × (length packet ≤ max) × FitsStream max parts

-- One delivery for each packet, in order.
abbrev pub deliveries : ℕ → List (List ℕ × List ℕ) → List Event
deliveries bus [] = []
deliveries bus ((noise, packet) ∷ parts) =
    record { bus = bus; packet = packet } ∷ deliveries bus parts

abbrev pub Delivered : ℕ → List Event → Escaper × List Event → Type 0
Delivered max events (e, out) = IsIdleFor max e × (out ≡ events)

pub decode_bytes-stream :
    (bus max : ℕ) (e : Escaper) (parts : List (List ℕ × List ℕ))
    → IsIdleFor max e
    → FitsStream max parts
    → Returns (Delivered max (deliveries bus parts)) (decode_bytes bus e (stream parts))
decode_bytes-stream bus max e [] i h = unfold decode_bytes in (i, refl)
decode_bytes-stream bus max e ((noise, packet) ∷ parts) i h =
    let (e', i', same) = decode-frame bus max e packet (stream parts) i h.1 in
    rw (decode-noise bus e noise (frame packet ++ stream parts) i.idle h.0 ∙ same) (
      Returns-bind (Delivered max (deliveries bus parts)) _ (decode_bytes bus e' (stream parts)) _
        (decode_bytes-stream bus max e' parts i' h.2)
        λ r d. (d.0, ap (λ t. record { bus = bus; packet = packet } ∷ t) d.1))

-- An idle decoder that receives frames, with bytes other than the start byte between them, of packets
-- that fit its buffer, returns idle and has delivered exactly those packets, in order.
pub decode_packet-stream :
    (e : Escaper) (bus : ℕ) (parts : List (List ℕ × List ℕ))
    → IsIdleFor e.decoded_max_size e
    → FitsStream e.decoded_max_size parts
    → Returns
        (Delivered e.decoded_max_size (deliveries bus parts))
        (decode_packet e bus (stream parts) (length (stream parts)))
decode_packet-stream e bus parts i h =
    rw (decode_packet-eq-decode_bytes e bus (stream parts))
      (decode_bytes-stream bus e.decoded_max_size e parts i h)

-- `Escaper_start_decoder` keeps the bytes of a packet under way: the next frame, where there is room
-- for both, is delivered with those bytes in front of its packet.
pub start_decoder-keeps_bytes :
    (e : Escaper) (bus : ℕ) (xs : List ℕ)
    → e.decoded_index + length xs ≤ e.decoded_max_size
    → e.decoded_max_size ≤ e.decoded_buffer.size
    → Returns
        (Delivered e.decoded_max_size (record { bus = bus; packet = held e ++ xs } ∷ []))
        (decode_packet (start_decoder e) bus (frame xs) (length (frame xs)))
unfolding start_decoder
start_decoder-keeps_bytes e bus xs fits in_buffer =
    let e₀ : Escaper = record e { parse_state = wait } in
    let (e', i, same) =
      decode-frame_behind bus e.decoded_max_size e₀ xs [] refl fits refl in_buffer in
    rw (decode_packet-eq-decode_bytes e₀ bus (frame xs), ← append-nil (frame xs), same)
      (unfold decode_bytes in (i, refl))
