-- ===== src/Escaper/Pieces.antt =====
-- A byte stream that a driver reads in pieces: `Escaper_decode_packet` (src/Escaper/Escaper.c) is called
-- for each of them.
use taste_runtime_common.Common.{ℕ, ◌≡◌, refl, ap, ◌∙◌, sym, fun_ext, List, [], ◌∷◌, ◌++◌, length}
use taste_runtime_common.Memory.{Result, ok, ◌>>=◌, Returns}
use taste_runtime_common.Memory.Laws.{Returns-bind}
use taste_runtime_common.Escaper.{Escaper, Event, decode_packet}
use taste_runtime_common.Escaper.Encoder.Call.{HasSendBuffer}
use taste_runtime_common.Escaper.Decoder.{
  decode_bytes, decode_bytes-append, after_events, decode_packet-eq-decode_bytes,
}
use taste_runtime_common.Escaper.Decoder.Packet.{IsIdleFor}
use taste_runtime_common.Escaper.Decoder.Stream.{stream, Delivered, decode_packet-stream}
use taste_runtime_common.Escaper.RoundTrip.{
  AllShort, send_all, deliver_each, parts_of, send_all-stream, FitsStream-of_AllShort,
  deliveries_of_parts,
}

abbrev pub join : List (List ℕ) → List ℕ
join [] = []
join (piece ∷ pieces) = piece ++ join pieces

-- A call for each piece, with all deliveries in their order.
unfoldable pub decode_pieces : Escaper → ℕ → List (List ℕ) → Result (Escaper × List Event)
decode_pieces e bus [] = ok (e, [])
decode_pieces e bus (piece ∷ pieces) = do
  (e', events) ← decode_packet e bus piece (length piece)
  later ← decode_pieces e' bus pieces
  after_events events later

decode_pieces-eq-decode_bytes :
    (e : Escaper) (bus : ℕ) (pieces : List (List ℕ))
    → decode_pieces e bus pieces ≡ decode_bytes bus e (join pieces)
unfolding decode_pieces decode_bytes
decode_pieces-eq-decode_bytes e bus [] = refl
decode_pieces-eq-decode_bytes e bus (piece ∷ pieces) =
    rw (decode_packet-eq-decode_bytes e bus piece, decode_bytes-append bus e piece (join pieces))
      (ap (λ k. decode_bytes bus e piece >>= k)
        (fun_ext
          λ r. ap (λ m. m >>= after_events r.1) (decode_pieces-eq-decode_bytes r.0 bus pieces)))

-- Packets, of any bytes, that an object with a send buffer of two bytes or more sends one after the
-- other, and that fit the receive buffer of an idle decoder; however the sent bytes are cut into
-- pieces, in the middle of a packet or behind an escape byte as well, with a call of
-- Escaper_decode_packet for each piece: all calls return, without an access out of bounds, and have
-- delivered each of the packets, in order, unchanged, and nothing else; the decoder is idle again.
pub send_all-decode_pieces :
    (sender receiver : Escaper) (bus : ℕ) (packets : List (List ℕ)) (cut : List ℕ → List (List ℕ))
    → ((bytes : List ℕ) → join (cut bytes) ≡ bytes)
    → HasSendBuffer sender
    → IsIdleFor receiver.decoded_max_size receiver
    → AllShort receiver.decoded_max_size packets
    → Returns
        (Delivered receiver.decoded_max_size (deliver_each bus packets))
        (send_all sender packets >>= λ s. decode_pieces receiver bus (cut s.bytes))
send_all-decode_pieces sender receiver bus packets cut whole has_buffer idle short =
    let max = receiver.decoded_max_size in
    Returns-bind (λ s. s.bytes ≡ stream (parts_of packets))
      (Delivered max (deliver_each bus packets)) (send_all sender packets) _
      (send_all-stream sender packets has_buffer)
      λ s same.
        let one_call : decode_pieces receiver bus (cut s.bytes)
            ≡ decode_packet receiver bus s.bytes (length s.bytes) =
          decode_pieces-eq-decode_bytes receiver bus (cut s.bytes)
          ∙ ap (decode_bytes bus receiver) (whole s.bytes)
          ∙ sym (decode_packet-eq-decode_bytes receiver bus s.bytes) in
        rw (one_call, same, ← deliveries_of_parts bus packets)
          (decode_packet-stream receiver bus (parts_of packets) idle
            (FitsStream-of_AllShort max packets short))
