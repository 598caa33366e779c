-- ===== src/Escaper/Decoder/Rounds.antt =====
-- What the decoder does with each part of a frame, from whatever sound state.
use taste_runtime_common.Common.{ℕ, ◌≡◌, refl, sym, ap, ◌∙◌, ◌⊎◌, inl, inr, arith}
use taste_runtime_common.Common.{false, Bool-cases, List, [], ◌∷◌, ◌++◌}
use taste_runtime_common.Common.{◌<◌, ◌==◌, leb, Option, none, some}
use taste_runtime_common.Memory.{Result, ok, aborted, faulted, out_of_fuel, ◌>>=◌, Returns, window}
use taste_runtime_common.Memory.Laws.{>>=-ok, store_lem}
use taste_runtime_common.Escaper.{Escaper, Event, wait, data_byte, escaped_byte, step}
use taste_runtime_common.Escaper.{wait_step, data_step, escape_step, dispatch, ParseState}
use taste_runtime_common.Escaper.{start_byte, stop_byte, escape_byte}
use taste_runtime_common.Escaper.Frame.{is_special, escape_bytes}
use taste_runtime_common.Escaper.Decoder.{decode_bytes, after_events}
use taste_runtime_common.Escaper.Decoder.Packet.{
  IsIdleFor, decode_silent, decode_delivers, step-stop,
}
use taste_runtime_common.Memory.Window.{length-window}
use taste_runtime_common.Escaper.Decoder.Safety.{EventFits}
use taste_runtime_common.Escaper.Decoder.Sound.{IsSound, StepIsSound, step-IsSound}

-- Not in the middle of an escape sequence.
abbrev pub Between : Escaper → Type 0
Between e = (e.parse_state ≡ wait) ⊎ (e.parse_state ≡ data_byte)

-- A round after which nothing is delivered and no escape sequence has begun.
abbrev Quiet : Escaper × Option Event → Type 0
Quiet (e, out) = Between e × (out ≡ none)

pub record AtBoundary (max : ℕ) (e : Escaper) : Type 0 where
  pub sound : IsSound max e
  pub between : Between e

Quiet-round :
    (max : ℕ) (m : Result (Escaper × Option Event))
    → Returns (StepIsSound max) m
    → Returns Quiet m
    → (e : Escaper) × AtBoundary max e × (m ≡ ok (e, none))
Quiet-round max (ok (e, none)) h q = (e, record { sound = h; between = q.0 }, refl)
Quiet-round max (ok (e, some event)) h q = absurd (cc)
Quiet-round max aborted h q = elim h [ ]
Quiet-round max faulted h q = elim h [ ]
Quiet-round max out_of_fuel h q = elim h [ ]

escape_step-Quiet :
    (max : ℕ) (e : Escaper) (x : ℕ) → IsSound max e → Returns Quiet (escape_step e x)
unfolding escape_step
escape_step-Quiet max e x h = elim (Bool-cases (leb e.decoded_max_size e.decoded_index)) [
  | inl full ↦ rw full (inl refl, refl)
  | inr free ↦
      let inside : e.decoded_index < e.decoded_buffer.size =
        ground (arith, h.within, h.max_is, h.max_in_buffer) in
      rw (free, store_lem e.decoded_buffer e.decoded_index x inside) (inr refl, refl)
]

dispatch-start :
    (state : ParseState) (bus max : ℕ) (e : Escaper)
    → IsSound max e
    → Returns Quiet (dispatch state bus e start_byte)
unfolding dispatch wait_step data_step
dispatch-start wait bus max e h = (inr refl, refl)
dispatch-start data_byte bus max e h = (inr refl, refl)
dispatch-start escaped_byte bus max e h = escape_step-Quiet max e start_byte h

-- A start byte, in whatever state, ends an escape sequence at least.
pub start_round :
    (bus max : ℕ) (e : Escaper)
    → IsSound max e
    → (e' : Escaper) × AtBoundary max e' × (step bus e start_byte ≡ ok (e', none))
unfolding step
start_round bus max e h =
    Quiet-round max (step bus e start_byte) (step-IsSound bus max e start_byte h)
      (dispatch-start e.parse_state bus max e h)

wait_step-Quiet : (e : Escaper) (x : ℕ) → e.parse_state ≡ wait → Returns Quiet (wait_step e x)
unfolding wait_step
wait_step-Quiet e x waits = elim (Bool-cases (x == start_byte)) [
  | inl start ↦ rw start (inr refl, refl)
  | inr other ↦ rw other (inl waits, refl)
]

data_step-Quiet :
    (bus max : ℕ) (e : Escaper) (x : ℕ)
    → IsSound max e
    → e.parse_state ≡ data_byte
    → is_special x ≡ false
    → Returns Quiet (data_step bus e x)
unfolding data_step
data_step-Quiet bus max e x h collects plain =
    let n₁ : (x == stop_byte) ≡ false = ground arith in
    let n₂ : (x == escape_byte) ≡ false = ground arith in
    let n₃ : (x == start_byte) ≡ false = ground arith in
    elim (Bool-cases (leb e.decoded_max_size e.decoded_index)) [
      | inl full ↦ rw (n₁, n₂, n₃, full) (inl refl, refl)
      | inr free ↦
          let inside : e.decoded_index < e.decoded_buffer.size =
            ground (arith, h.within, h.max_is, h.max_in_buffer) in
          rw (n₁, n₂, n₃, free, store_lem e.decoded_buffer e.decoded_index x inside)
            (inr collects, refl)
    ]

dispatch-plain :
    (state : ParseState) (bus max : ℕ) (e : Escaper) (x : ℕ)
    → e.parse_state ≡ state
    → IsSound max e
    → is_special x ≡ false
    → Returns Quiet (dispatch state bus e x)
unfolding dispatch
dispatch-plain wait bus max e x is h plain = wait_step-Quiet e x is
dispatch-plain data_byte bus max e x is h plain = data_step-Quiet bus max e x h is plain
dispatch-plain escaped_byte bus max e x is h plain = escape_step-Quiet max e x h

-- A byte of a packet that needs no escape.
plain_round :
    (bus max : ℕ) (e : Escaper) (x : ℕ)
    → IsSound max e
    → is_special x ≡ false
    → (e' : Escaper) × AtBoundary max e' × (step bus e x ≡ ok (e', none))
unfolding step
plain_round bus max e x h plain =
    Quiet-round max (step bus e x) (step-IsSound bus max e x h)
      (dispatch-plain e.parse_state bus max e x refl h plain)

step-wait : (bus : ℕ) (e : Escaper) (x : ℕ) → e.parse_state ≡ wait → step bus e x ≡ wait_step e x
unfolding step dispatch
step-wait bus e x is = ap (λ state. dispatch state bus e x) is

step-escape_byte :
    (bus : ℕ) (e : Escaper)
    → e.parse_state ≡ data_byte
    → step bus e escape_byte ≡ ok (record e { parse_state = escaped_byte }, none)
unfolding step dispatch data_step
step-escape_byte bus e is = ap (λ state. dispatch state bus e escape_byte) is

-- An escape sequence: its second byte is taken, dropped, or starts a packet.
escaped_rounds :
    (bus max : ℕ) (e : Escaper) (x : ℕ) (rest : List ℕ)
    → AtBoundary max e
    → (e' : Escaper) × AtBoundary max e'
      × (decode_bytes bus e (escape_byte ∷ x ∷ rest) ≡ decode_bytes bus e' rest)
escaped_rounds bus max e x rest b = elim b.between [
  | inl waits ↦
      let (e', b', same) =
        Quiet-round max (step bus e x) (step-IsSound bus max e x b.sound)
          (rw (step-wait bus e x waits) (wait_step-Quiet e x waits)) in
      (
        e',
        b',
        decode_silent bus e escape_byte e (x ∷ rest)
              (step-wait bus e escape_byte waits ∙ unfold wait_step in refl)
            ∙ decode_silent bus e x e' rest same,
      )
  | inr collects ↦
      let e₁ : Escaper = record e { parse_state = escaped_byte } in
      let h : IsSound max e₁ = record {
        waits_empty = λ waits. cc;
        within = b.sound.within;
        max_is = b.sound.max_is;
        max_in_buffer = b.sound.max_in_buffer;
      } in
      let (e', b', same) =
        Quiet-round max (step bus e₁ x) (step-IsSound bus max e₁ x h)
          (unfold step dispatch in escape_step-Quiet max e₁ x h) in
      (
        e',
        b',
        decode_silent bus e escape_byte e₁ (x ∷ rest) (step-escape_byte bus e collects)
            ∙ decode_silent bus e₁ x e' rest same,
      )
]

-- The body of a frame.
pub body_rounds :
    (bus max : ℕ) (e : Escaper) (xs rest : List ℕ)
    → AtBoundary max e
    → (e' : Escaper) × AtBoundary max e'
      × (decode_bytes bus e (escape_bytes xs ++ rest) ≡ decode_bytes bus e' rest)
body_rounds bus max e [] rest b = (e, b, refl)
body_rounds bus max e (x ∷ xs) rest b = elim (Bool-cases (is_special x)) [
  | inl special ↦
      let (e₁, b₁, same) = escaped_rounds bus max e x (escape_bytes xs ++ rest) b in
      let (e₂, b₂, same') = body_rounds bus max e₁ xs rest b₁ in (e₂, b₂, rw special (same ∙ same'))
  | inr plain ↦
      let (e₁, b₁, same) = plain_round bus max e x b.sound plain in
      let (e₂, b₂, same') = body_rounds bus max e₁ xs rest b₁ in
      (e₂, b₂, rw plain (decode_silent bus e x e₁ (escape_bytes xs ++ rest) same ∙ same'))
]

-- At most one delivery, of at most `max` bytes.
abbrev pub AtMostOne : ℕ → ℕ → List Event → Type 0
AtMostOne bus max [] = Unit
AtMostOne bus max (event ∷ []) = EventFits bus max event
AtMostOne bus max (event ∷ other ∷ more) = ⊥

-- The end of a frame.
pub stop_round :
    (bus max : ℕ) (e : Escaper) (rest : List ℕ)
    → AtBoundary max e
    → (e' : Escaper) × (out : List Event) × IsIdleFor max e'
      × AtMostOne bus max out
      × (decode_bytes bus e (stop_byte ∷ rest) ≡ (decode_bytes bus e' rest >>= after_events out))
stop_round bus max e rest b = elim b.between [
  | inl waits ↦ (
    e,
    [],
    record {
      idle = record { waits = waits; nothing_held = b.sound.waits_empty waits };
      max_is = b.sound.max_is;
      max_in_buffer = b.sound.max_in_buffer;
    },
    tt,
    decode_silent bus e stop_byte e rest
          (step-wait bus e stop_byte waits ∙ unfold wait_step in refl)
        ∙ sym (>>=-ok (decode_bytes bus e rest)),
  )
  | inr collects ↦ (
    record e { parse_state = wait; decoded_index = 0 },
    record { bus = bus; packet = window e.decoded_buffer.byte 0 e.decoded_index } ∷ [],
    record {
      idle = record { waits = refl; nothing_held = refl };
      max_is = b.sound.max_is;
      max_in_buffer = b.sound.max_in_buffer;
    },
    (refl, omega (arith, length-window e.decoded_buffer.byte 0 e.decoded_index, b.sound.within)),
    decode_delivers bus e stop_byte _ _ rest (step-stop bus e collects),
  )
]
