-- ===== src/Escaper/Decoder/Serves.antt =====
-- The decoder leaves the fields of the encoder alone.
use taste_runtime_common.Common.{ℕ, ◌≡◌, refl, ◌∙◌, arith}
use taste_runtime_common.Common.{Bool, List, [], ◌∷◌}
use taste_runtime_common.Memory.{Returns, Buffer, store}
use taste_runtime_common.Memory.Laws.{Returns-and, Returns-bind}
use taste_runtime_common.Escaper.{Escaper, ParseState, wait, data_byte, escaped_byte}
use taste_runtime_common.Escaper.{step, wait_step, data_step, escape_step, dispatch}
use taste_runtime_common.Escaper.Decoder.{decode_bytes}
use taste_runtime_common.Escaper.Decoder.Sound.{IsSound, StepIsSound, step-IsSound}

-- The fields that only the encoder uses.
abbrev pub encoder_part : Escaper → Bool × Bool × Bool × Buffer × ℕ
encoder_part e =
    (e.encode_started, e.escape, e.encode_finished, e.encoded_buffer, e.encoded_max_size)

abbrev KeepsEncoder {ℓ} : {A : Type ℓ} → Escaper → Escaper × A → Type 0
KeepsEncoder e (e', out) = encoder_part e' ≡ encoder_part e

dispatch-KeepsEncoder :
    (state : ParseState) (bus max : ℕ) (e : Escaper) (x : ℕ)
    → IsSound max e
    → Returns (KeepsEncoder e) (dispatch state bus e x)
unfolding dispatch wait_step data_step escape_step store
dispatch-KeepsEncoder wait bus max e x h = ground arith
dispatch-KeepsEncoder data_byte bus max e x h = ground (arith, h.within, h.max_is)
dispatch-KeepsEncoder escaped_byte bus max e x h = ground (arith, h.within, h.max_is)

abbrev pub Serves {ℓ} : {A : Type ℓ} → ℕ → Escaper → Escaper × A → Type 0
Serves max e (e', out) = IsSound max e' × (encoder_part e' ≡ encoder_part e)

step-Serves :
    (bus max : ℕ) (e : Escaper) (x : ℕ) → IsSound max e → Returns (Serves max e) (step bus e x)
step-Serves bus max e x h =
    Returns-and (StepIsSound max) (KeepsEncoder e) (step bus e x) (step-IsSound bus max e x h)
      (unfold step in dispatch-KeepsEncoder e.parse_state bus max e x h)

pub decode_bytes-Serves :
    (bus max : ℕ) (e : Escaper) (xs : List ℕ)
    → IsSound max e
    → Returns (Serves max e) (decode_bytes bus e xs)
unfolding decode_bytes
decode_bytes-Serves bus max e [] h = (h, refl)
decode_bytes-Serves bus max e (x ∷ xs) h =
    Returns-bind (Serves max e) (Serves max e) (step bus e x) _ (step-Serves bus max e x h) λ a s.
      Returns-bind (Serves max a.0) (Serves max e) (decode_bytes bus a.0 xs) _
        (decode_bytes-Serves bus max a.0 xs s.0) λ c t. (t.0, t.1 ∙ s.1)
