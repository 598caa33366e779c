-- ===== src/Escaper/Decoder/Packet.antt =====
-- What the decoder makes of one frame.
use taste_runtime_common.Common.{ℕ, suc, ◌+◌, ◌≤◌, ◌≡◌, refl, ap, ◌∙◌, inl, inr, arith}
use taste_runtime_common.Common.{false, Bool-cases, List, [], ◌∷◌, ◌++◌, length}
use taste_runtime_common.Common.{append_assoc, append-nil, none, some}
use taste_runtime_common.Memory.{ok, ◌>>=◌, store, window, update}
use taste_runtime_common.Memory.Laws.{>>=-ok}
use taste_runtime_common.Memory.Window.{window_snoc}
use taste_runtime_common.Escaper.{Escaper, Event, wait, data_byte, escaped_byte, step}
use taste_runtime_common.Escaper.{start_byte, stop_byte, escape_byte}
use taste_runtime_common.Escaper.Frame.{is_special, escape_bytes, frame}
use taste_runtime_common.Escaper.Decoder.{decode_bytes, after_events}

-- The decoder has put `x` behind the packet under way.
abbrev pub took : Escaper → ℕ → Escaper
took e x = record e {
  parse_state = data_byte;
  decoded_buffer = record (e.decoded_buffer) {
    byte = update e.decoded_buffer.byte e.decoded_index x;
  };
  decoded_index = e.decoded_index + 1;
}

-- A packet is under way, and there is room for `n` more bytes of it.
record Collecting (n : ℕ) (e : Escaper) : Type 0 where
  in_packet : e.parse_state ≡ data_byte
  room : e.decoded_index + n ≤ e.decoded_max_size
  max_in_buffer : e.decoded_max_size ≤ e.decoded_buffer.size

-- A byte after which nothing is delivered.
pub decode_silent :
    (bus : ℕ) (e : Escaper) (x : ℕ) (e' : Escaper) (rest : List ℕ)
    → step bus e x ≡ ok (e', none)
    → decode_bytes bus e (x ∷ rest) ≡ decode_bytes bus e' rest
unfolding decode_bytes
decode_silent bus e x e' rest h = rw h (>>=-ok (decode_bytes bus e' rest))

step-plain :
    (bus n : ℕ) (e : Escaper) (x : ℕ)
    → Collecting (suc n) e
    → is_special x ≡ false
    → step bus e x ≡ ok (took e x, none)
unfolding step store
step-plain bus n e x c h = ground arith

step-escape :
    (bus n : ℕ) (e : Escaper)
    → Collecting (suc n) e
    → step bus e escape_byte ≡ ok (record e { parse_state = escaped_byte }, none)
unfolding step
step-escape bus n e c = ground arith

step-escaped :
    (bus n : ℕ) (e : Escaper) (x : ℕ)
    → Collecting (suc n) e
    → step bus (record e { parse_state = escaped_byte }) x ≡ ok (took e x, none)
unfolding step store
step-escaped bus n e x c = ground arith

-- The bytes of the packet under way.
abbrev pub held : Escaper → List ℕ
held e = window e.decoded_buffer.byte 0 e.decoded_index

-- An escaped packet body is taken up byte by byte.
record Collected (e : Escaper) (xs : List ℕ) (e' : Escaper) : Type 0 where
  in_packet : e'.parse_state ≡ data_byte
  bytes : held e' ≡ held e ++ xs
  same_max : e'.decoded_max_size ≡ e.decoded_max_size
  same_size : e'.decoded_buffer.size ≡ e.decoded_buffer.size

Collected-of_took :
    {e e' : Escaper} {xs : List ℕ} (x : ℕ) → Collected (took e x) xs e' → Collected e (x ∷ xs) e'
Collected-of_took {e} {xs = xs} x c = ground (
  arith,
  window_snoc e.decoded_buffer.byte e.decoded_index x,
  append_assoc (window e.decoded_buffer.byte 0 e.decoded_index) (x ∷ []) xs,
)

decode-escape_bytes :
    (bus : ℕ) (e : Escaper) (xs rest : List ℕ)
    → Collecting (length xs) e
    → (e' : Escaper) × Collected e xs e'
      × (decode_bytes bus e (escape_bytes xs ++ rest) ≡ decode_bytes bus e' rest)
decode-escape_bytes bus e [] rest c =
    (e, ground (arith, append-nil (window e.decoded_buffer.byte 0 e.decoded_index)), refl)
decode-escape_bytes bus e (x ∷ xs) rest c =
    let (e', taken, same) = decode-escape_bytes bus (took e x) xs rest (ground arith) in
    (
      e',
      Collected-of_took x taken,
      elim (Bool-cases (is_special x)) [
        | inl special ↦ rw special (
            decode_silent bus _ _ _ _ (step-escape bus (length xs) e c)
            ∙ decode_silent bus _ _ _ _ (step-escaped bus (length xs) e x c)
            ∙ same)
        | inr plain ↦
            rw plain (decode_silent bus _ _ _ _ (step-plain bus (length xs) e x c plain) ∙ same)
      ],
    )

-- Between packets.
pub record IsIdle (e : Escaper) : Type 0 where
  pub waits : e.parse_state ≡ wait
  pub nothing_held : e.decoded_index ≡ 0

step-start :
    (bus : ℕ) (e : Escaper)
    → e.parse_state ≡ wait
    → step bus e start_byte ≡ ok (record e { parse_state = data_byte }, none)
unfolding step
step-start bus e i = ground arith

pub step-stop :
    (bus : ℕ) (e : Escaper)
    → e.parse_state ≡ data_byte
    → step bus e stop_byte
      ≡ ok (
        record e { parse_state = wait; decoded_index = 0 },
        some (record { bus = bus; packet = window e.decoded_buffer.byte 0 e.decoded_index }),
      )
unfolding step
step-stop bus e i = ground arith

-- An idle decoder with room for `max` bytes.
pub record IsIdleFor (max : ℕ) (e : Escaper) : Type 0 where
  pub idle : IsIdle e
  pub max_is : e.decoded_max_size ≡ max
  pub max_in_buffer : max ≤ e.decoded_buffer.size

pub decode_delivers :
    (bus : ℕ) (e : Escaper) (x : ℕ) (e' : Escaper) (event : Event) (rest : List ℕ)
    → step bus e x ≡ ok (e', some event)
    → decode_bytes bus e (x ∷ rest) ≡ (decode_bytes bus e' rest >>= after_events (event ∷ []))
unfolding decode_bytes
decode_delivers bus e x e' event rest h = rw h

-- A frame that reaches a waiting decoder with room for it is taken for its packet, behind the bytes
-- that the decoder holds already; the rest of the stream is handled by an idle decoder.
pub decode-frame_behind :
    (bus max : ℕ) (e : Escaper) (xs rest : List ℕ)
    → e.parse_state ≡ wait
    → e.decoded_index + length xs ≤ max
    → e.decoded_max_size ≡ max
    → max ≤ e.decoded_buffer.size
    → (e' : Escaper) × IsIdleFor max e'
      × (decode_bytes bus e (frame xs ++ rest) ≡ (
          decode_bytes bus e' rest
          >>= after_events (record { bus = bus; packet = held e ++ xs } ∷ [])))
decode-frame_behind bus max e xs rest waits fits max_is in_buffer =
    let e₁ : Escaper = record e { parse_state = data_byte } in
    let (e₂, c, same) = decode-escape_bytes bus e₁ xs (stop_byte ∷ rest) (ground arith) in
    let e₃ : Escaper = record e₂ { parse_state = wait; decoded_index = 0 } in
    (
      e₃,
      ground arith,
      decode_silent bus e start_byte e₁ _ (step-start bus e waits)
          ∙ ap (decode_bytes bus e₁) (append_assoc (escape_bytes xs) (stop_byte ∷ []) rest)
          ∙ same
          ∙ decode_delivers bus e₂ stop_byte e₃ _ rest (step-stop bus e₂ c.in_packet)
          ∙ ap
              (λ p.
                decode_bytes bus e₃ rest >>= after_events (record { bus = bus; packet = p } ∷ []))
              c.bytes,
    )

-- The same for an idle decoder, which holds no bytes.
pub decode-frame :
    (bus max : ℕ) (e : Escaper) (xs rest : List ℕ)
    → IsIdleFor max e
    → length xs ≤ max
    → (e' : Escaper) × IsIdleFor max e'
      × (decode_bytes bus e (frame xs ++ rest)
          ≡ (decode_bytes bus e' rest >>= after_events (record { bus = bus; packet = xs } ∷ [])))
decode-frame bus max e xs rest i fits =
    let (e', i', same) =
      decode-frame_behind bus max e xs rest i.idle.waits (omega arith) i.max_is i.max_in_buffer in
    (
      e',
      i',
      same
          ∙ ap
              (λ k.
                decode_bytes bus e' rest
                >>= after_events
                    (record { bus = bus; packet = window e.decoded_buffer.byte 0 k ++ xs } ∷ []))
              i.idle.nothing_held,
    )
