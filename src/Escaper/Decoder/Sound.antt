-- ===== src/Escaper/Decoder/Sound.antt =====
-- A state that the decoder never leaves: it holds bytes only while a packet is under way.
use taste_runtime_common.Common.{ℕ, ◌≤◌, ◌≡◌, refl, inl, inr, arith}
use taste_runtime_common.Common.{Bool-cases, List, [], ◌∷◌, length}
use taste_runtime_common.Common.{◌<◌, ◌==◌, leb, Option}
use taste_runtime_common.Memory.{Returns, store}
use taste_runtime_common.Memory.Laws.{store_lem, Returns-bind}
use taste_runtime_common.Escaper.{Escaper, Event, wait, data_byte, escaped_byte, step}
use taste_runtime_common.Escaper.{wait_step, data_step, escape_step, dispatch, ParseState}
use taste_runtime_common.Escaper.{start_byte, stop_byte, escape_byte, decode_packet}
use taste_runtime_common.Escaper.Decoder.{decode_bytes}
use taste_runtime_common.Escaper.Decoder.{decode_packet-eq-decode_bytes}

-- A decoder with room for `max` bytes that holds bytes only while a packet is under way.
pub record IsSound (max : ℕ) (e : Escaper) : Type 0 where
  pub waits_empty : e.parse_state ≡ wait → e.decoded_index ≡ 0
  pub within : e.decoded_index ≤ max
  pub max_is : e.decoded_max_size ≡ max
  pub max_in_buffer : max ≤ e.decoded_buffer.size

abbrev pub StepIsSound : ℕ → Escaper × Option Event → Type 0
StepIsSound max (e, out) = IsSound max e

wait_step-IsSound :
    (max : ℕ) (e : Escaper) (x : ℕ)
    → e.decoded_index ≡ 0
    → e.decoded_max_size ≡ max
    → max ≤ e.decoded_buffer.size
    → Returns (StepIsSound max) (wait_step e x)
unfolding wait_step
wait_step-IsSound max e x i m b = ground arith

data_step-IsSound :
    (bus max : ℕ) (e : Escaper) (x : ℕ)
    → e.parse_state ≡ data_byte
    → e.decoded_index ≤ max
    → e.decoded_max_size ≡ max
    → max ≤ e.decoded_buffer.size
    → Returns (StepIsSound max) (data_step bus e x)
unfolding data_step
data_step-IsSound bus max e x s i m b = elim (Bool-cases (x == stop_byte)) [
  | inl stop ↦ rw stop (ground arith)
  | inr n₁ ↦ elim (Bool-cases (x == escape_byte)) [
    | inl escape ↦ rw (n₁, escape) (ground arith)
    | inr n₂ ↦ elim (Bool-cases (x == start_byte)) [
      | inl start ↦ rw (n₁, n₂, start) (ground arith)
      | inr n₃ ↦ elim (Bool-cases (leb e.decoded_max_size e.decoded_index)) [
        | inl full ↦ rw (n₁, n₂, n₃, full) (ground arith)
        | inr free ↦
            let inside : e.decoded_index < e.decoded_buffer.size = ground arith in
            rw (n₁, n₂, n₃, free, store_lem e.decoded_buffer e.decoded_index x inside)
              (ground arith)
      ]
    ]
  ]
]

escape_step-IsSound :
    (max : ℕ) (e : Escaper) (x : ℕ)
    → e.decoded_index ≤ max
    → e.decoded_max_size ≡ max
    → max ≤ e.decoded_buffer.size
    → Returns (StepIsSound max) (escape_step e x)
unfolding escape_step store
escape_step-IsSound max e x i m b = ground arith

dispatch-IsSound :
    (state : ParseState) (bus max : ℕ) (e : Escaper) (x : ℕ)
    → e.parse_state ≡ state
    → IsSound max e
    → Returns (StepIsSound max) (dispatch state bus e x)
unfolding dispatch
dispatch-IsSound wait bus max e x is h =
    wait_step-IsSound max e x (h.waits_empty is) h.max_is h.max_in_buffer
dispatch-IsSound data_byte bus max e x is h =
    data_step-IsSound bus max e x is h.within h.max_is h.max_in_buffer
dispatch-IsSound escaped_byte bus max e x is h =
    escape_step-IsSound max e x h.within h.max_is h.max_in_buffer

pub step-IsSound :
    (bus max : ℕ) (e : Escaper) (x : ℕ) → IsSound max e → Returns (StepIsSound max) (step bus e x)
unfolding step
step-IsSound bus max e x h = dispatch-IsSound e.parse_state bus max e x refl h

abbrev pub StaysSound : ℕ → Escaper × List Event → Type 0
StaysSound max (e, events) = IsSound max e

decode_bytes-IsSound :
    (bus max : ℕ) (e : Escaper) (xs : List ℕ)
    → IsSound max e
    → Returns (StaysSound max) (decode_bytes bus e xs)
unfolding decode_bytes
decode_bytes-IsSound bus max e [] h = h
decode_bytes-IsSound bus max e (x ∷ xs) h =
    Returns-bind (StepIsSound max) (StaysSound max) (step bus e x) _ (step-IsSound bus max e x h)
      λ a ah.
        Returns-bind (StaysSound max) (StaysSound max) (decode_bytes bus a.0 xs) _
          (decode_bytes-IsSound bus max a.0 xs ah) λ c ch. ch

-- A new decoder is in such a state, and stays in one, whatever bytes arrive: Escaper_decode_packet
-- returns, without an access out of bounds.
pub decode_packet-IsSound :
    (e : Escaper) (bus max : ℕ) (buffer : List ℕ)
    → IsSound max e
    → Returns (StaysSound max) (decode_packet e bus buffer (length buffer))
decode_packet-IsSound e bus max buffer h =
    rw (decode_packet-eq-decode_bytes e bus buffer) (decode_bytes-IsSound bus max e buffer h)
