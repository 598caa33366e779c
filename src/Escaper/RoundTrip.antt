-- ===== src/Escaper/RoundTrip.antt =====
-- What one node sends with the encoder, another takes back with the decoder.
use taste_runtime_common.Common.{ℕ, ◌≤◌, ◌≡◌, refl, ap, ap₂}
use taste_runtime_common.Common.{List, [], ◌∷◌, ◌++◌, length}
use taste_runtime_common.Memory.{Result, ok, ◌>>=◌, Returns}
use taste_runtime_common.Memory.Laws.{Returns-bind}
use taste_runtime_common.Escaper.{Escaper, Event, decode_packet}
use taste_runtime_common.Escaper.Encoder.Call.{HasSendBuffer}
use taste_runtime_common.Escaper.Transmit.{Sent, AllSent, send, send-frame}
use taste_runtime_common.Escaper.Frame.{frame}
use taste_runtime_common.Escaper.Decoder.Packet.{IsIdleFor}
use taste_runtime_common.Escaper.Decoder.Stream.{stream, FitsStream, deliveries, Delivered}
use taste_runtime_common.Escaper.Decoder.Stream.{decode_packet-stream}

-- Packets sent one after the other by one object.
pub send_all : Escaper → List (List ℕ) → Result Sent
send_all e [] = ok (record { bytes = []; escaper = e })
send_all e (packet ∷ packets) = do
  s ← send e packet
  t ← send_all s.escaper packets
  ok (record t { bytes = s.bytes ++ t.bytes })

-- The packets as a stream with nothing between the frames.
abbrev pub parts_of : List (List ℕ) → List (List ℕ × List ℕ)
parts_of [] = []
parts_of (packet ∷ packets) = ([], packet) ∷ parts_of packets

pub send_all-stream :
    (e : Escaper) (packets : List (List ℕ))
    → HasSendBuffer e
    → Returns (λ s. s.bytes ≡ stream (parts_of packets)) (send_all e packets)
unfolding send_all
send_all-stream e [] b = refl
send_all-stream e (packet ∷ packets) b =
    Returns-bind (AllSent e (frame packet)) (λ s. s.bytes ≡ stream (parts_of (packet ∷ packets)))
      (send e packet) _ (send-frame e packet b)
      λ s a.
        Returns-bind (λ t. t.bytes ≡ stream (parts_of packets))
          (λ t. t.bytes ≡ stream (parts_of (packet ∷ packets))) (send_all s.escaper packets) _
          (send_all-stream s.escaper packets a.2) λ t same. ap₂ ◌++◌ a.0 same

abbrev pub AllShort : ℕ → List (List ℕ) → Type 0
AllShort max [] = Unit
AllShort max (packet ∷ packets) = (length packet ≤ max) × AllShort max packets

pub FitsStream-of_AllShort :
    (max : ℕ) (packets : List (List ℕ)) → AllShort max packets → FitsStream max (parts_of packets)
FitsStream-of_AllShort max [] h = tt
FitsStream-of_AllShort max (packet ∷ packets) h = (tt, h.0, FitsStream-of_AllShort max packets h.1)

abbrev pub deliver_each : ℕ → List (List ℕ) → List Event
deliver_each bus [] = []
deliver_each bus (packet ∷ packets) =
    record { bus = bus; packet = packet } ∷ deliver_each bus packets

pub deliveries_of_parts :
    (bus : ℕ) (packets : List (List ℕ))
    → deliveries bus (parts_of packets) ≡ deliver_each bus packets
deliveries_of_parts bus [] = refl
deliveries_of_parts bus (packet ∷ packets) =
    ap (λ t. record { bus = bus; packet = packet } ∷ t) (deliveries_of_parts bus packets)

-- Packets, of any bytes, that an object with a send buffer of two bytes or more sends one after the
-- other, and that fit the receive buffer of an idle decoder, are delivered there: each of them, in
-- order, unchanged, and nothing else; the decoder is idle again.
pub send_all-decode_packet :
    (sender receiver : Escaper) (bus : ℕ) (packets : List (List ℕ))
    → HasSendBuffer sender
    → IsIdleFor receiver.decoded_max_size receiver
    → AllShort receiver.decoded_max_size packets
    → Returns
        (Delivered receiver.decoded_max_size (deliver_each bus packets))
        (send_all sender packets >>= λ s. decode_packet receiver bus s.bytes (length s.bytes))
send_all-decode_packet sender receiver bus packets b i short =
    let max = receiver.decoded_max_size in
    Returns-bind (λ s. s.bytes ≡ stream (parts_of packets))
      (Delivered max (deliver_each bus packets)) (send_all sender packets) _
      (send_all-stream sender packets b)
      λ s same.
        rw (same, ← deliveries_of_parts bus packets)
          (decode_packet-stream receiver bus (parts_of packets) i
            (FitsStream-of_AllShort max packets short))
