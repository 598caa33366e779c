-- ===== src/Escaper/Decoder/TakerRounds.antt =====
-- One byte of a packet of any size, at the decoder.
use taste_runtime_common.Common.{
  ℕ, ◌+◌, ◌≤◌, ◌≡◌, refl, sym, ap, ◌∙◌, inl, inr, arith, Option, none, some,
}
use taste_runtime_common.Common.{
  true, false, Bool-cases, leb, ◌==◌, if◌then◌else◌, List, [], ◌∷◌, ◌++◌, length,
}
use taste_runtime_common.Memory.{ok, window, store}
use taste_runtime_common.Memory.Window.{window_snoc, length-window}
use taste_runtime_common.Escaper.{
  Escaper, wait, data_byte, escaped_byte, step, start_byte, escape_byte,
}
use taste_runtime_common.Escaper.Frame.{is_special}
use taste_runtime_common.Escaper.Decoder.{decode_bytes}
use taste_runtime_common.Escaper.Decoder.Packet.{IsIdleFor, decode_silent, held, took}
use taste_runtime_common.Escaper.Decoder.Taker.{take_byte}

-- The state of the decoder that stands for the receiver's.
pub record Has (max : ℕ) (got : List ℕ) (e : Escaper) : Type 0 where
  pub in_packet : e.parse_state ≡ data_byte
  pub bytes : held e ≡ got
  pub room : e.decoded_index ≤ max
  pub max_is : e.decoded_max_size ≡ max
  pub max_in_buffer : max ≤ e.decoded_buffer.size

abbrev pub Stands : ℕ → Option (List ℕ) → Escaper → Type 0
Stands max (some got) e = Has max got e
Stands max none e = IsIdleFor max e

-- One byte of the packet, as it is sent.
abbrev pub sent_byte : ℕ → List ℕ → List ℕ
sent_byte x rest = if is_special x then escape_byte ∷ x ∷ rest else x ∷ rest

abbrev pub Takes : ℕ → ℕ → Option (List ℕ) → Escaper → ℕ → List ℕ → Type 0
Takes bus max got e x rest =
    (e' : Escaper) × Stands max (take_byte max got x) e'
    × (decode_bytes bus e (sent_byte x rest) ≡ decode_bytes bus e' rest)

-- The rounds that the packet module leaves out: a buffer that is full, and a decoder that waits.
step_escape :
    (bus : ℕ) (e : Escaper)
    → e.parse_state ≡ data_byte
    → step bus e escape_byte ≡ ok (record e { parse_state = escaped_byte }, none)
unfolding step
step_escape bus e in_packet = ground arith

step_full :
    (bus : ℕ) (e : Escaper) (x : ℕ)
    → e.parse_state ≡ data_byte
    → e.decoded_max_size ≤ e.decoded_index
    → is_special x ≡ false
    → step bus e x ≡ ok (record e { parse_state = wait; decoded_index = 0 }, none)
unfolding step
step_full bus e x in_packet full plain = ground arith

step_full_escaped :
    (bus : ℕ) (e : Escaper) (x : ℕ)
    → e.decoded_max_size ≤ e.decoded_index
    → step bus (record e { parse_state = escaped_byte }) x
      ≡ ok (record e { parse_state = wait; decoded_index = 0 }, none)
unfolding step
step_full_escaped bus e x full = ground arith

pub step_waits :
    (bus : ℕ) (e : Escaper) (x : ℕ)
    → e.parse_state ≡ wait
    → (x == start_byte) ≡ false
    → step bus e x ≡ ok (e, none)
unfolding step
step_waits bus e x waits other = ground arith

pub step_starts :
    (bus : ℕ) (e : Escaper) (x : ℕ)
    → e.parse_state ≡ wait
    → (x == start_byte) ≡ true
    → step bus e x ≡ ok (record e { parse_state = data_byte }, none)
unfolding step
step_starts bus e x waits start = ground arith

step_takes :
    (bus : ℕ) (e : Escaper) (x : ℕ)
    → e.parse_state ≡ data_byte
    → e.decoded_index + 1 ≤ e.decoded_max_size
    → e.decoded_max_size ≤ e.decoded_buffer.size
    → is_special x ≡ false
    → step bus e x ≡ ok (took e x, none)
unfolding step store
step_takes bus e x in_packet room in_buffer plain = ground arith

step_takes_escaped :
    (bus : ℕ) (e : Escaper) (x : ℕ)
    → e.decoded_index + 1 ≤ e.decoded_max_size
    → e.decoded_max_size ≤ e.decoded_buffer.size
    → step bus (record e { parse_state = escaped_byte }) x ≡ ok (took e x, none)
unfolding step store
step_takes_escaped bus e x room in_buffer = ground arith

-- A byte that a decoder takes in the same way, escaped or not.
both_ways :
    (bus : ℕ) (e e' : Escaper) (x : ℕ) (rest : List ℕ)
    → e.parse_state ≡ data_byte
    → step bus (record e { parse_state = escaped_byte }) x ≡ ok (e', none)
    → (is_special x ≡ false → step bus e x ≡ ok (e', none))
    → decode_bytes bus e (sent_byte x rest) ≡ decode_bytes bus e' rest
both_ways bus e e' x rest in_packet escaped plainly = elim (Bool-cases (is_special x)) [
  | inl special ↦ rw special (
      decode_silent bus e escape_byte _ _ (step_escape bus e in_packet)
      ∙ decode_silent bus _ x e' rest escaped)
  | inr plain ↦ rw plain (decode_silent bus e x e' rest (plainly plain))
]

module _ (bus max : ℕ) (e : Escaper) (x : ℕ) (rest : List ℕ) where
  Takes-full :
      (got : List ℕ)
      → Has max got e
      → leb max (length got) ≡ true
      → Takes bus max (some got) e x rest
  Takes-full got h full =
      let size : e.decoded_index ≡ length got =
        sym (length-window e.decoded_buffer.byte 0 e.decoded_index) ∙ ap length h.bytes in
      let none_left : e.decoded_max_size ≤ e.decoded_index = ground (arith, h.max_is) in
      (
        record e { parse_state = wait; decoded_index = 0 },
        rw full (record {
          idle = record { waits = refl; nothing_held = refl };
          max_is = h.max_is;
          max_in_buffer = h.max_in_buffer;
        }),
        both_ways bus e _ x rest h.in_packet (step_full_escaped bus e x none_left)
            (step_full bus e x h.in_packet none_left),
      )

  Takes-more :
      (got : List ℕ)
      → Has max got e
      → leb max (length got) ≡ false
      → Takes bus max (some got) e x rest
  Takes-more got h more =
      let size : e.decoded_index ≡ length got =
        sym (length-window e.decoded_buffer.byte 0 e.decoded_index) ∙ ap length h.bytes in
      let room : e.decoded_index + 1 ≤ e.decoded_max_size = ground (arith, h.max_is) in
      let in_buffer : e.decoded_max_size ≤ e.decoded_buffer.size =
        omega (arith, h.max_is, h.max_in_buffer) in
      (
        took e x,
        rw more (record {
          in_packet = refl;
          bytes =
              window_snoc e.decoded_buffer.byte e.decoded_index x ∙ ap (λ t. t ++ (x ∷ [])) h.bytes;
          room = omega (arith, room, h.max_is);
          max_is = h.max_is;
          max_in_buffer = h.max_in_buffer;
        }),
        both_ways bus e _ x rest h.in_packet (step_takes_escaped bus e x room in_buffer)
            (step_takes bus e x h.in_packet room in_buffer),
      )

  -- A decoder that waits takes no notice of the escape byte.
  waiting_way :
      (e' : Escaper)
      → e.parse_state ≡ wait
      → step bus e x ≡ ok (e', none)
      → decode_bytes bus e (sent_byte x rest) ≡ decode_bytes bus e' rest
  waiting_way e' waits taken = elim (Bool-cases (is_special x)) [
    | inl special ↦ rw special (
        decode_silent bus e escape_byte e _ (step_waits bus e escape_byte waits refl)
        ∙ decode_silent bus e x e' rest taken)
    | inr plain ↦ rw plain (decode_silent bus e x e' rest taken)
  ]

  Takes-waiting : IsIdleFor max e → Takes bus max none e x rest
  Takes-waiting i = elim (Bool-cases (x == start_byte)) [
    | inl start ↦ (
      record e { parse_state = data_byte },
      rw start (record {
        in_packet = refl;
        bytes = ap (window e.decoded_buffer.byte 0) i.idle.nothing_held;
        room = omega (arith, i.idle.nothing_held);
        max_is = i.max_is;
        max_in_buffer = i.max_in_buffer;
      }),
      waiting_way _ i.idle.waits (step_starts bus e x i.idle.waits start),
    )
    | inr other ↦
        (e, rw other i, waiting_way e i.idle.waits (step_waits bus e x i.idle.waits other))
  ]

  pub takes : (got : Option (List ℕ)) → Stands max got e → Takes bus max got e x rest
  takes none i = Takes-waiting i
  takes (some got) h = elim (Bool-cases (leb max (length got))) [
    | inl full ↦ Takes-full got h full
    | inr more ↦ Takes-more got h more
  ]
