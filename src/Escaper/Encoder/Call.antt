-- ===== src/Escaper/Encoder/Call.antt =====
-- A call of `Escaper_encode_packet` sends the next bytes of what is pending.
use taste_runtime_common.Common.{ℕ, ◌≤◌, ◌<◌, ◌≡◌, refl, ap, ◌⊎◌, arith}
use taste_runtime_common.Common.{
  Bool, true, false, List, [], ◌∷◌, ◌++◌, length, drop, drop-length, append_assoc, append-nil,
  if◌then◌else◌,
}
use taste_runtime_common.Memory.{ok, Returns, store}
use taste_runtime_common.Memory.Laws.{Returns-bind}
use taste_runtime_common.Memory.Window.{window_snoc}
use taste_runtime_common.Escaper.{
  Escaper, Progress, start_byte, stop_byte, encode_start, encode_finish, encode_loop, encode_packet,
  encode_fuel,
}
use taste_runtime_common.Escaper.Encoder.{sent, left, body_left, stop_left, decoder_part, rounds}
use taste_runtime_common.Escaper.Encoder.Loop.{CanGoOn, Looped, encode_loop-Looped}

-- The start byte, unless it is sent.
abbrev pub start_left : Bool → List ℕ
start_left true = []
start_left false = start_byte ∷ []

-- The bytes of the frame of `bytes` that are still to be sent when `index` is the next one to encode.
abbrev pub pending : Escaper → List ℕ → ℕ → List ℕ
pending e bytes index =
    start_left e.encode_started
    ++ (body_left e.escape (drop index bytes) ++ stop_left e.encode_finished)

-- The send buffer has two bytes or more.
pub record HasSendBuffer (e : Escaper) : Type 0 where
  pub two_bytes : 2 ≤ e.encoded_max_size
  pub max_in_buffer : e.encoded_max_size ≤ e.encoded_buffer.size

-- The states between two calls for one packet, with a buffer of two bytes or more.
pub record EncoderReady (e : Escaper) (bytes : List ℕ) (index : ℕ) : Type 0 where
  pub in_bytes : index ≤ length bytes
  pub escape_in_bytes : e.escape ≡ true → index < length bytes
  pub finished_at_end : e.encode_finished ≡ true → index ≡ length bytes
  pub finished_started : e.encode_finished ≡ true → e.encode_started ≡ true
  pub buffer : HasSendBuffer e

-- What a call does: the bytes that it put into the buffer and those pending after it make up those
-- pending before it; it fills the buffer, or nothing is pending any more.
pub record Called (e : Escaper) (bytes : List ℕ) (index : ℕ) (q : Progress) : Type 0 where
  pub kept : sent q ++ pending q.escaper bytes q.index ≡ pending e bytes index
  pub in_max : q.count ≤ e.encoded_max_size
  pub full_or_done : (q.count ≡ e.encoded_max_size) ⊎ (pending q.escaper bytes q.index ≡ [])
  pub ready : EncoderReady q.escaper bytes q.index
  pub same_max : q.escaper.encoded_max_size ≡ e.encoded_max_size
  pub same_decoder : decoder_part q.escaper ≡ decoder_part e

abbrev entered : Escaper → ℕ → Progress
entered e index = record { count = 0; escaper = e; index = index }

-- After the start byte the loop can be entered.
record Started (e : Escaper) (bytes : List ℕ) (index : ℕ) (p : Progress) : Type 0 where
  goes_on : CanGoOn bytes p
  kept : sent p ++ left bytes p ≡ pending e bytes index
  few : rounds bytes p < encode_fuel (length bytes)
  started : p.escaper.encode_started ≡ true
  finished : p.escaper.encode_finished ≡ e.encode_finished
  same_index : p.index ≡ index
  same_max : p.escaper.encoded_max_size ≡ e.encoded_max_size
  same_size : p.escaper.encoded_buffer.size ≡ e.encoded_buffer.size
  same_decoder : decoder_part p.escaper ≡ decoder_part e

encode_start-Started :
    (e : Escaper) (bytes : List ℕ) (index : ℕ)
    → EncoderReady e bytes index
    → Returns (Started e bytes index) (encode_start (entered e index))
unfolding encode_start store
encode_start-Started e bytes index h = ground arith

-- The return from inside the loop.
Called-full :
    {e : Escaper} {bytes : List ℕ} {index : ℕ} {p q : Progress}
    → EncoderReady e bytes index
    → Started e bytes index p
    → Looped bytes p (true, q)
    → Called e bytes index q
Called-full h s l = ground (arith, l.full refl)

-- The end of the packet.
encode_finish-Called :
    {e : Escaper} {bytes : List ℕ} {index : ℕ} {p : Progress} (q : Progress)
    → EncoderReady e bytes index
    → Started e bytes index p
    → Looped bytes p (false, q)
    → Returns (Called e bytes index) (encode_finish (length bytes) q)
unfolding encode_finish store
encode_finish-Called {e} {bytes} {index} q h s l = ground (
  arith,
  l.at_end refl,
  drop-length bytes,
  ap (λ k. drop k bytes) (l.at_end refl).0,
  append-nil (sent q),
  window_snoc q.escaper.encoded_buffer.byte q.count stop_byte,
  append_assoc (sent q) (stop_byte ∷ []) [],
)

after_loop-Called :
    {e : Escaper} {bytes : List ℕ} {index : ℕ} {p : Progress} (r : Bool × Progress)
    → EncoderReady e bytes index
    → Started e bytes index p
    → Looped bytes p r
    → Returns (Called e bytes index) (if r.0 then ok r.1 else encode_finish (length bytes) r.1)
after_loop-Called (true, q) h s l = Called-full h s l
after_loop-Called (false, q) h s l = encode_finish-Called q h s l

-- A call for a packet, between calls, with a buffer of two bytes or more: it returns, without an
-- access out of bounds; the bytes that it put into the buffer, at most
-- `m_encoded_packet_max_size`, and those pending after it make up those pending before it, in
-- order; the buffer is full or nothing is pending any more; the state is again one between calls;
-- the buffer size and the decoder's fields are unchanged.
pub encode_packet-Called :
    (e : Escaper) (bytes : List ℕ) (index : ℕ)
    → EncoderReady e bytes index
    → Returns (Called e bytes index) (encode_packet e bytes (length bytes) index)
unfolding encode_packet
encode_packet-Called e bytes index h =
    Returns-bind (Started e bytes index) (Called e bytes index) (encode_start (entered e index)) _
      (encode_start-Started e bytes index h)
      λ p s.
        Returns-bind (Looped bytes p) (Called e bytes index)
          (encode_loop (encode_fuel (length bytes)) bytes (length bytes) p) _
          (encode_loop-Looped (encode_fuel (length bytes)) bytes p s.few s.goes_on)
          λ r l. after_loop-Called r h s l
