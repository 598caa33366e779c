-- ===== src/Escaper/Tests.antt =====
-- The escaper at concrete inputs.
use taste_runtime_common.Common.{
  ℕ, ◌≡◌, refl, ap, arith, false, ◌++◌, ◌==◌, if◌then◌else◌, List, [], ◌∷◌, length,
}
use taste_runtime_common.Memory.{faulted, ◌>>=◌, Returns, Buffer, store, read}
use taste_runtime_common.Escaper.{Escaper, wait, data_byte, init, start_decoder}
use taste_runtime_common.Escaper.{decode_packet, decode_loop, step, encode_packet}
use taste_runtime_common.Escaper.Frame.{frame}
use taste_runtime_common.Escaper.Decoder.Safety.{DecodeFits, decode_packet-fits}
use taste_runtime_common.Escaper.Decoder.Stream.{
  stream, deliveries, Delivered, decode_packet-stream,
}
use taste_runtime_common.Escaper.Decoder.Stream.{start_decoder-keeps_bytes}
use taste_runtime_common.Escaper.Decoder.Sound.{IsSound}
use taste_runtime_common.Escaper.Decoder.Oversize.{taken_events, decode_packet-taken}
use taste_runtime_common.Escaper.Decoder.Recovery.{Recovered, decode_packet-Recovered}
use taste_runtime_common.Escaper.Session.{Session, Step, receive, here, next, opened}
use taste_runtime_common.Escaper.Session.Invariant.{IsServing, Reach-IsServing}
use taste_runtime_common.Escaper.Encoder.Call.{Called, encode_packet-Called}
use taste_runtime_common.Escaper.Transmit.{AllSent, send, send-frame}
use taste_runtime_common.Escaper.RoundTrip.{send_all, deliver_each, send_all-decode_packet}
use taste_runtime_common.Escaper.Pieces.{join, decode_pieces, send_all-decode_pieces}

abbrev blank : ℕ → Buffer
blank size = record { size = size; byte = λ j. 0 }

abbrev fresh : Escaper
fresh = record {
  parse_state = wait;
  encode_started = false;
  escape = false;
  encode_finished = false;
  encoded_buffer = blank 3;
  encoded_max_size = 3;
  decoded_buffer = blank 4;
  decoded_max_size = 4;
  decoded_index = 0;
}

-- A packet of which one byte has arrived.
abbrev under_way : Escaper
under_way = record fresh {
  parse_state = data_byte;
  decoded_buffer = record { size = 4; byte = λ j. 9 };
  decoded_index = 1;
}

init_is_fresh : init (blank 3) 3 (blank 4) 4 ≡ fresh
unfolding init
init_is_fresh = refl

-- A send buffer of one byte is overrun by the first call.
one_byte_overrun :
    encode_packet (record fresh { encoded_buffer = blank 1; encoded_max_size = 1 }) (5 ∷ []) 1 0
    ≡ faulted
unfolding encode_packet store read
one_byte_overrun = refl

abbrev packet : List ℕ
packet = 5 ∷ 0xfe ∷ 0x00 ∷ []

abbrev parts : List (List ℕ × List ℕ)
parts = (7 ∷ [], packet) ∷ ([], 1 ∷ 2 ∷ []) ∷ []

decode_packet-fits_example :
    Returns (DecodeFits 1 4) (decode_packet under_way 1 (3 ∷ 0xff ∷ 0 ∷ 8 ∷ []) 4)
decode_packet-fits_example = decode_packet-fits under_way 1 (3 ∷ 0xff ∷ 0 ∷ 8 ∷ []) (omega arith)

decode_packet-stream_example :
    Returns (Delivered 4 (deliveries 1 parts)) (decode_packet fresh 1 (stream parts) 12)
decode_packet-stream_example = decode_packet-stream fresh 1 parts (ground arith) (ground arith)

start_decoder-keeps_bytes_example :
    Returns
      (Delivered 4 (record { bus = 1; packet = 9 ∷ 5 ∷ [] } ∷ []))
      (decode_packet (start_decoder under_way) 1 (0 ∷ 5 ∷ 0xff ∷ []) 3)
start_decoder-keeps_bytes_example =
    start_decoder-keeps_bytes under_way 1 (5 ∷ []) (omega arith) (omega arith)

encode_packet-Called_example : Returns (Called fresh packet 0) (encode_packet fresh packet 3 0)
encode_packet-Called_example = encode_packet-Called fresh packet 0 (ground arith)

send-frame_example : Returns (AllSent fresh (frame packet)) (send fresh packet)
send-frame_example = send-frame fresh packet (omega arith)

send_all-decode_packet_example : Returns (Delivered 4 (deliver_each 1 (packet ∷ (1 ∷ []) ∷ []))) (
    send_all fresh (packet ∷ (1 ∷ []) ∷ []) >>= λ s. decode_packet fresh 1 s.bytes (length s.bytes))
send_all-decode_packet_example =
    send_all-decode_packet fresh fresh 1 (packet ∷ (1 ∷ []) ∷ []) (omega arith) (ground arith)
      (omega arith)

-- Each byte in a call of its own.
abbrev one_by_one : List ℕ → List (List ℕ)
one_by_one [] = []
one_by_one (x ∷ xs) = (x ∷ []) ∷ one_by_one xs

join-one_by_one : (bytes : List ℕ) → join (one_by_one bytes) ≡ bytes
join-one_by_one [] = refl
join-one_by_one (x ∷ xs) = ap (λ t. x ∷ t) (join-one_by_one xs)

send_all-decode_pieces_example :
    Returns
      (Delivered 4 (deliver_each 1 (packet ∷ (1 ∷ []) ∷ [])))
      (send_all fresh (packet ∷ (1 ∷ []) ∷ []) >>= λ s. decode_pieces fresh 1 (one_by_one s.bytes))
send_all-decode_pieces_example =
    send_all-decode_pieces fresh fresh 1 (packet ∷ (1 ∷ []) ∷ []) one_by_one join-one_by_one
      (omega arith) (ground arith) (omega arith)

under_way-IsSound : IsSound 4 under_way
under_way-IsSound = record {
  waits_empty = λ waits. cc;
  within = omega arith;
  max_is = refl;
  max_in_buffer = omega arith;
}

decode_packet-Recovered_example : Returns (Recovered 1 4 (deliveries 1 parts)) (
    decode_packet under_way 1
      (frame packet ++ stream parts)
      (length (frame packet ++ stream parts)))
decode_packet-Recovered_example =
    decode_packet-Recovered under_way 1 packet parts under_way-IsSound (ground arith)

abbrev session : Session
session = opened (blank 3) 3 (blank 4) 4 packet

-- The session when the start byte and a byte of a packet have arrived.
abbrev reached : Session
reached = record session {
  escaper = record fresh {
    parse_state = data_byte;
    decoded_buffer = record { size = 4; byte = λ j. if 0 == j then 5 else 0 };
    decoded_index = 1;
  };
}

arrival : Step session reached
unfolding decode_packet decode_loop step read store init
arrival = receive session 1 (0 ∷ 5 ∷ []) reached.escaper [] refl

Reach-IsServing_example : IsServing 4 reached
Reach-IsServing_example =
    Reach-IsServing (blank 3) (blank 4) 3 4 packet (omega arith) (omega arith) (omega arith)
      (next here arrival)

-- A packet that is too large for the buffer: what stands behind the start byte in it is delivered.
abbrev oversize : List (List ℕ × List ℕ)
oversize = ([], 1 ∷ 2 ∷ 3 ∷ 4 ∷ 5 ∷ 6 ∷ 0 ∷ 7 ∷ 8 ∷ []) ∷ (9 ∷ [], packet) ∷ []

oversize_tail :
    taken_events 1 4 oversize
    ≡ record { bus = 1; packet = 7 ∷ 8 ∷ [] } ∷ record { bus = 1; packet = packet } ∷ []
oversize_tail = refl

decode_packet-taken_example :
    Returns
      (Delivered 4 (taken_events 1 4 oversize))
      (decode_packet fresh 1 (stream oversize) (length (stream oversize)))
decode_packet-taken_example = decode_packet-taken fresh 1 oversize (ground arith) (ground arith)
