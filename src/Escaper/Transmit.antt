-- ===== src/Escaper/Transmit.antt =====
-- A driver's sending loop, as Escaper.h describes it: `Escaper_start_encoder`, then
-- `Escaper_encode_packet` until it returns 0, each part sent on as it comes.
use taste_runtime_common.Common.{ℕ, zero, suc, ◌+◌, ◌*◌, ◌≤◌, ◌<◌, ◌≡◌, ◌∙◌, ap, inl, inr, arith}
use taste_runtime_common.Common.{
  List, [], ◌∷◌, ◌++◌, length, length-append, ◌==◌, if◌then◌else◌, Bool-cases, ==_iff,
}
use taste_runtime_common.Memory.{Result, ok, out_of_fuel, ◌>>=◌, Returns, window}
use taste_runtime_common.Memory.Laws.{Returns-bind}
use taste_runtime_common.Memory.Window.{length-window}
use taste_runtime_common.Escaper.{Escaper, Progress, stop_byte, start_encoder, encode_packet}
use taste_runtime_common.Escaper.Frame.{frame, escape_bytes}
use taste_runtime_common.Escaper.Encoder.{sent, decoder_part}
use taste_runtime_common.Escaper.Encoder.Call.{
  pending, HasSendBuffer, EncoderReady, Called, encode_packet-Called,
}

-- The bytes sent, and the object and `*index` afterwards.
pub record Sent : Type 0 where
  pub bytes : List ℕ
  pub escaper : Escaper

pub send_loop : ℕ → Escaper → List ℕ → ℕ → Result Sent
send_loop zero e packet index = out_of_fuel
send_loop (suc fuel) e packet index = do
  q ← encode_packet e packet (length packet) index
  let more = send_loop fuel q.escaper packet q.index
  if q.count == 0
      then ok (record { bytes = []; escaper = q.escaper })
      else (do s ← more; ok (record s { bytes = sent q ++ s.bytes }))

-- Each call but the last sends a byte or more, and a frame has at most twice the packet's bytes and two.
pub send : Escaper → List ℕ → Result Sent
unfolding start_encoder
send e packet = send_loop (2 * length packet + 3) (start_encoder e) packet 0

length-escape_bytes : (xs : List ℕ) → length (escape_bytes xs) ≤ 2 * length xs
length-escape_bytes [] = omega arith
length-escape_bytes (x ∷ xs) = ground (arith, length-escape_bytes xs)

-- All that was pending is sent, and the decoder's fields are unchanged.
abbrev pub AllSent : Escaper → List ℕ → Sent → Type 0
AllSent e pending_bytes s =
    (s.bytes ≡ pending_bytes) × (decoder_part s.escaper ≡ decoder_part e) × HasSendBuffer s.escaper

last_call :
    {e : Escaper} {packet : List ℕ} {index : ℕ} {q : Progress}
    → Called e packet index q
    → EncoderReady e packet index
    → q.count ≡ 0
    → AllSent e (pending e packet index) (record { bytes = []; escaper = q.escaper })
last_call {q = q} c h none_sent =
    ground (arith, ap (λ n. window q.escaper.encoded_buffer.byte 0 n) none_sent)

length-pending :
    {e : Escaper} {packet : List ℕ} {index : ℕ} {q : Progress}
    → Called e packet index q
    → q.count + length (pending q.escaper packet q.index) ≡ length (pending e packet index)
length-pending {packet = packet} {q = q} c = omega (
  arith,
  ap length c.kept,
  length-append (sent q) (pending q.escaper packet q.index),
  length-window q.escaper.encoded_buffer.byte 0 q.count,
)

send_loop-AllSent :
    (fuel : ℕ) (e : Escaper) (packet : List ℕ) (index : ℕ)
    → EncoderReady e packet index
    → length (pending e packet index) < fuel
    → Returns (AllSent e (pending e packet index)) (send_loop fuel e packet index)
unfolding send_loop
send_loop-AllSent zero e packet index h few = absurd (omega arith)
send_loop-AllSent (suc fuel) e packet index h few =
    Returns-bind (Called e packet index) (AllSent e (pending e packet index))
      (encode_packet e packet (length packet) index) _ (encode_packet-Called e packet index h)
      λ q c. elim (Bool-cases (q.count == 0)) [
        | inl last ↦ rw last (last_call c h ((==_iff q.count 0).0 last))
        | inr more ↦ rw more (
            Returns-bind (AllSent q.escaper (pending q.escaper packet q.index))
              (AllSent e (pending e packet index)) (send_loop fuel q.escaper packet q.index) _
              (send_loop-AllSent fuel q.escaper packet q.index c.ready
                (ground (arith, length-pending c)))
              λ s a. (ap (λ t. sent q ++ t) a.0 ∙ c.kept, a.1 ∙ c.same_decoder, a.2))
      ]

-- With a send buffer of two bytes or more, the sending loop ends, without an access out of bounds,
-- and what it sent is the frame of the packet; the decoder's fields are unchanged, and the send buffer
-- still has two bytes or more.
pub send-frame :
    (e : Escaper) (packet : List ℕ)
    → HasSendBuffer e
    → Returns (AllSent e (frame packet)) (send e packet)
unfolding send
send-frame e packet b =
    send_loop-AllSent (2 * length packet + 3) (start_encoder e) packet 0 (ground arith) (
      omega
        (arith, length-append (escape_bytes packet) (stop_byte ∷ []), length-escape_bytes packet))
