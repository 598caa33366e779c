-- ===== src/Escaper/Decoder/Safety.antt =====
-- `Escaper_decode_packet` never leaves its buffer, whatever bytes arrive.
use taste_runtime_common.Common.{ℕ, ◌≤◌, ◌≡◌, refl, arith}
use taste_runtime_common.Common.{List, [], ◌∷◌, length, Option, none, some}
use taste_runtime_common.Memory.{Returns, store}
use taste_runtime_common.Memory.Laws.{Returns-bind}
use taste_runtime_common.Memory.Window.{length-window}
use taste_runtime_common.Escaper.{Escaper, Event, ParseState, wait, data_byte, escaped_byte}
use taste_runtime_common.Escaper.{step, wait_step, data_step, escape_step, dispatch, prepend}
use taste_runtime_common.Escaper.{decode_packet}
use taste_runtime_common.Escaper.Decoder.{decode_bytes, decode_packet-eq-decode_bytes}

-- The packet that is being put together lies inside the buffer.
pub record DecoderFits (e : Escaper) : Type 0 where
  pub in_max : e.decoded_index ≤ e.decoded_max_size
  pub in_buffer : e.decoded_max_size ≤ e.decoded_buffer.size

abbrev pub EventFits : ℕ → ℕ → Event → Type 0
EventFits bus max event = (event.bus ≡ bus) × (length event.packet ≤ max)

abbrev pub AllFit : ℕ → ℕ → List Event → Type 0
AllFit bus max [] = Unit
AllFit bus max (event ∷ events) = EventFits bus max event × AllFit bus max events

abbrev OutFits : ℕ → ℕ → Option Event → Type 0
OutFits bus max none = Unit
OutFits bus max (some event) = EventFits bus max event

abbrev StepFits : ℕ → ℕ → Escaper × Option Event → Type 0
StepFits bus max (e, out) = DecoderFits e × (e.decoded_max_size ≡ max) × OutFits bus max out

wait_step-fits :
    (bus : ℕ) (e : Escaper) (x : ℕ)
    → DecoderFits e
    → Returns (StepFits bus e.decoded_max_size) (wait_step e x)
unfolding wait_step
wait_step-fits bus e x h = ground arith

data_step-fits :
    (bus : ℕ) (e : Escaper) (x : ℕ)
    → DecoderFits e
    → Returns (StepFits bus e.decoded_max_size) (data_step bus e x)
unfolding data_step store
data_step-fits bus e x h = ground (arith, length-window e.decoded_buffer.byte 0 e.decoded_index)

escape_step-fits :
    (bus : ℕ) (e : Escaper) (x : ℕ)
    → DecoderFits e
    → Returns (StepFits bus e.decoded_max_size) (escape_step e x)
unfolding escape_step store
escape_step-fits bus e x h = ground arith

dispatch-fits :
    (state : ParseState) (bus : ℕ) (e : Escaper) (x : ℕ)
    → DecoderFits e
    → Returns (StepFits bus e.decoded_max_size) (dispatch state bus e x)
unfolding dispatch
dispatch-fits wait = wait_step-fits
dispatch-fits data_byte = data_step-fits
dispatch-fits escaped_byte = escape_step-fits

step-fits :
    (bus : ℕ) (e : Escaper) (x : ℕ)
    → DecoderFits e
    → Returns (StepFits bus e.decoded_max_size) (step bus e x)
unfolding step
step-fits bus e x h = dispatch-fits e.parse_state bus e x h

prepend-fits :
    (bus max : ℕ) (out : Option Event) (events : List Event)
    → OutFits bus max out
    → AllFit bus max events
    → AllFit bus max (prepend out events)
prepend-fits bus max none events h k = k
prepend-fits bus max (some event) events h k = (h, k)

abbrev pub DecodeFits : ℕ → ℕ → Escaper × List Event → Type 0
DecodeFits bus max (e, events) = DecoderFits e × (e.decoded_max_size ≡ max) × AllFit bus max events

decode_bytes-fits :
    (bus max : ℕ) (e : Escaper) (xs : List ℕ)
    → DecoderFits e
    → e.decoded_max_size ≡ max
    → Returns (DecodeFits bus max) (decode_bytes bus e xs)
unfolding decode_bytes
decode_bytes-fits bus max e [] h m = (h, m, tt)
decode_bytes-fits bus max e (x ∷ xs) h m =
    Returns-bind (StepFits bus max) (DecodeFits bus max) (step bus e x) _
      (rw (← m) (step-fits bus e x h))
      λ a ah.
        Returns-bind (DecodeFits bus max) (DecodeFits bus max) (decode_bytes bus a.0 xs) _
          (decode_bytes-fits bus max a.0 xs ah.0 ah.1)
          λ c ch. (ch.0, ch.1, prepend-fits bus max a.1 c.1 ah.2 ch.2)

-- A decoder whose packet under way lies inside its buffer, given any bytes that were received,
-- returns without an access out of bounds. Its packet under way lies inside the buffer again, and
-- each packet delivered names the bus and has at most `m_decoded_packet_max_size` bytes.
pub decode_packet-fits :
    (e : Escaper) (bus : ℕ) (buffer : List ℕ)
    → DecoderFits e
    → Returns (DecodeFits bus e.decoded_max_size) (decode_packet e bus buffer (length buffer))
decode_packet-fits e bus buffer h =
    rw (decode_packet-eq-decode_bytes e bus buffer)
      (decode_bytes-fits bus e.decoded_max_size e buffer h refl)
