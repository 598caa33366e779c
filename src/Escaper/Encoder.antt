-- ===== src/Escaper/Encoder.antt =====
-- What one call of `Escaper_encode_packet` does, against the bytes that are still to be sent.
pub mod Loop
pub mod Call
use taste_runtime_common.Common.{
  ℕ, zero, suc, ◌+◌, ◌*◌, ◌-◌, ◌≤◌, ◌<◌, ◌≡◌, refl, sym, ap, ◌∙◌, arith,
}
use taste_runtime_common.Common.{Bool, true, false, List, [], ◌∷◌, ◌++◌, append_assoc, length, drop}
use taste_runtime_common.Common.{ltb, ◌==◌, if◌then◌else◌}
use native.Mathlib.Numerals.{add-one}
use taste_runtime_common.Memory.{Buffer, Result, ok, ◌>>=◌, Returns, store, read, window, update}
use taste_runtime_common.Memory.Laws.{read_lem, store_lem}
use taste_runtime_common.Memory.Window.{window_snoc}
use taste_runtime_common.Escaper.{
  Escaper, ParseState, Progress, emit, set_escape, encode_byte, start_byte, stop_byte, escape_byte,
}
use taste_runtime_common.Escaper.Frame.{escape_bytes, is_special}

-- The rest of the packet, after its escape byte where that is sent already.
abbrev pub body_left : Bool → List ℕ → List ℕ
body_left false xs = escape_bytes xs
body_left true [] = []
body_left true (x ∷ xs) = x ∷ escape_bytes xs

-- The stop byte, unless it is sent.
abbrev pub stop_left : Bool → List ℕ
stop_left true = []
stop_left false = stop_byte ∷ []

-- The bytes put into the buffer by this call, and those that the loop has still to send.
abbrev pub sent : Progress → List ℕ
sent p = window p.escaper.encoded_buffer.byte 0 p.count

abbrev pub left : List ℕ → Progress → List ℕ
left bytes p =
    body_left p.escaper.escape (drop p.index bytes) ++ stop_left p.escaper.encode_finished

-- Rounds that are left at most.
abbrev pub rounds : List ℕ → Progress → ℕ
rounds bytes p = 2 * (length bytes - p.index) - (if p.escaper.escape then 1 else 0)

-- The fields that only the decoder uses.
abbrev pub decoder_part : Escaper → ParseState × Buffer × ℕ × ℕ
decoder_part e = (e.parse_state, e.decoded_buffer, e.decoded_max_size, e.decoded_index)

-- From `p` to `q` one byte went out, and nothing is lost.
pub record Advanced (bytes : List ℕ) (p q : Progress) : Type 0 where
  pub was_in_bytes : p.index < length bytes
  pub one_more : q.count ≡ p.count + 1
  pub kept : sent q ++ left bytes q ≡ sent p ++ left bytes p
  pub in_bytes : q.index ≤ length bytes
  pub escape_in_bytes : q.escaper.escape ≡ true → q.index < length bytes
  pub fewer : rounds bytes q < rounds bytes p
  pub same_started : q.escaper.encode_started ≡ p.escaper.encode_started
  pub same_finished : q.escaper.encode_finished ≡ p.escaper.encode_finished
  pub same_max : q.escaper.encoded_max_size ≡ p.escaper.encoded_max_size
  pub same_size : q.escaper.encoded_buffer.size ≡ p.escaper.encoded_buffer.size
  pub same_decoder : decoder_part q.escaper ≡ decoder_part p.escaper

encode_byte-Advanced :
    (bytes : List ℕ) (p : Progress)
    → p.index < length bytes
    → p.count < p.escaper.encoded_buffer.size
    → Returns (Advanced bytes p) (encode_byte bytes p)
unfolding encode_byte store
encode_byte-Advanced bytes p i_in room =
    let (x, is_read, is_next) = read_lem bytes p.index i_in in
    rw is_read (
      ground (
        arith,
        is_next,
        ap (λ k. drop k bytes) (add-one p.index),
        window_snoc p.escaper.encoded_buffer.byte p.count x,
        window_snoc p.escaper.encoded_buffer.byte p.count escape_byte,
        append_assoc (sent p) (x ∷ [])
            (escape_bytes (drop (suc p.index) bytes) ++ stop_left p.escaper.encode_finished),
        append_assoc (sent p) (escape_byte ∷ [])
            (body_left true (drop p.index bytes) ++ stop_left p.escaper.encode_finished),
      ))
