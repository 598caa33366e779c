-- ===== src/Escaper/Session/Invariant.antt =====
-- What holds after any sequence of calls.
use mathlib.Core.Path.{subst}
use taste_runtime_common.Common.{ℕ, ◌≤◌, ◌≡◌, refl, sym, ap, ◌∙◌, arith}
use taste_runtime_common.Common.{List, length}
use taste_runtime_common.Memory.{Returns, Buffer}
use taste_runtime_common.Escaper.{Escaper, Progress}
use taste_runtime_common.Escaper.{decode_packet, encode_packet, start_encoder, start_decoder, init}
use taste_runtime_common.Escaper.Decoder.{decode_packet-eq-decode_bytes}
use taste_runtime_common.Escaper.Decoder.Sound.{IsSound}
use taste_runtime_common.Escaper.Encoder.Call.{
  EncoderReady, HasSendBuffer, Called, encode_packet-Called,
}
use taste_runtime_common.Escaper.Decoder.Serves.{encoder_part, Serves, decode_bytes-Serves}
use taste_runtime_common.Escaper.Session.{
  Session, Step, receive, begin, send, restart, Reach, here, next, opened,
}

-- The decoder is sound, and the encoder between two calls for the packet.
pub record IsValid (max : ℕ) (s : Session) : Type 0 where
  pub sound : IsSound max s.escaper
  pub ready : EncoderReady s.escaper s.packet s.index

Called-IsSound :
    {e : Escaper} {packet : List ℕ} {index max : ℕ} {p : Progress}
    → Called e packet index p
    → IsSound max e
    → IsSound max p.escaper
Called-IsSound {e} {max = max} {p = p} c h =
    let state : p.escaper.parse_state ≡ e.parse_state = ap (λ d. d.0) c.same_decoder in
    let buffer : p.escaper.decoded_buffer ≡ e.decoded_buffer = ap (λ d. d.1) c.same_decoder in
    let index : p.escaper.decoded_index ≡ e.decoded_index = ap (λ d. d.3) c.same_decoder in
    record {
      waits_empty = λ waits. index ∙ h.waits_empty (sym state ∙ waits);
      within = omega (arith, index, h.within);
      max_is = ap (λ d. d.2) c.same_decoder ∙ h.max_is;
      max_in_buffer = omega (arith, ap (λ b. b.size) buffer, h.max_in_buffer);
    }

EncoderReady-ext :
    {e e' : Escaper} {packet : List ℕ} {index : ℕ}
    → encoder_part e' ≡ encoder_part e
    → EncoderReady e packet index
    → EncoderReady e' packet index
EncoderReady-ext {e} {e'} same r =
    let started : e'.encode_started ≡ e.encode_started = ap (λ d. d.0) same in
    let escape : e'.escape ≡ e.escape = ap (λ d. d.1) same in
    let finished : e'.encode_finished ≡ e.encode_finished = ap (λ d. d.2) same in
    let buffer : e'.encoded_buffer ≡ e.encoded_buffer = ap (λ d. d.3) same in
    let max : e'.encoded_max_size ≡ e.encoded_max_size = ap (λ d. d.4) same in
    record {
      in_bytes = r.in_bytes;
      escape_in_bytes = λ on. r.escape_in_bytes (sym escape ∙ on);
      finished_at_end = λ on. r.finished_at_end (sym finished ∙ on);
      finished_started = λ on. started ∙ r.finished_started (sym finished ∙ on);
      buffer = record {
        two_bytes = omega (arith, max, r.buffer.two_bytes);
        max_in_buffer = omega (arith, max, ap (λ b. b.size) buffer, r.buffer.max_in_buffer);
      };
    }

begun-IsValid :
    {max : ℕ} (s : Session) (packet : List ℕ)
    → IsSound max s.escaper
    → HasSendBuffer s.escaper
    → IsValid max (record { escaper = start_encoder s.escaper; packet = packet; index = 0 })
unfolding start_encoder
begun-IsValid s packet h b = record {
  sound = ground (arith, h.within, h.max_is, h.max_in_buffer);
  ready = record {
    in_bytes = omega arith;
    escape_in_bytes = λ on. cc;
    finished_at_end = λ on. cc;
    finished_started = λ on. cc;
    buffer = record { two_bytes = b.two_bytes; max_in_buffer = b.max_in_buffer };
  };
}

received :
    (s : Session) (bus max : ℕ) (xs : List ℕ)
    → IsSound max s.escaper
    → Returns (Serves max s.escaper) (decode_packet s.escaper bus xs (length xs))
received s bus max xs h =
    rw (decode_packet-eq-decode_bytes s.escaper bus xs) (decode_bytes-Serves bus max s.escaper xs h)

Step-IsValid : {max : ℕ} {s t : Session} → Step s t → IsValid max s → IsValid max t
unfolding start_decoder
Step-IsValid {max} (receive s bus xs e events is) v =
    let served : Serves max s.escaper (e, events) =
      subst (Returns (Serves max s.escaper)) is (received s bus max xs v.sound) in
    record { sound = served.0; ready = EncoderReady-ext served.1 v.ready }
Step-IsValid (begin s packet) v = begun-IsValid s packet v.sound v.ready.buffer
Step-IsValid (send s p is) v =
    let called : Called s.escaper s.packet s.index p =
      subst (Returns (Called s.escaper s.packet s.index)) is
        (encode_packet-Called s.escaper s.packet s.index v.ready) in
    record { sound = Called-IsSound called v.sound; ready = called.ready }
Step-IsValid (restart s idle) v = record {
  sound = record {
    waits_empty = λ waits. v.sound.waits_empty idle;
    within = v.sound.within;
    max_is = v.sound.max_is;
    max_in_buffer = v.sound.max_in_buffer;
  };
  ready = EncoderReady-ext refl v.ready;
}

opened-IsValid :
    (encoded decoded : Buffer) (encoded_size max : ℕ) (packet : List ℕ)
    → 2 ≤ encoded_size
    → encoded_size ≤ encoded.size
    → max ≤ decoded.size
    → IsValid max (opened encoded encoded_size decoded max packet)
unfolding init
opened-IsValid encoded decoded encoded_size max packet two room room' = record {
  sound = record {
    waits_empty = λ waits. refl;
    within = omega arith;
    max_is = refl;
    max_in_buffer = room';
  };
  ready = record {
    in_bytes = omega arith;
    escape_in_bytes = λ on. cc;
    finished_at_end = λ on. cc;
    finished_started = λ on. cc;
    buffer = record { two_bytes = two; max_in_buffer = room };
  };
}

Reach-IsValid :
    (encoded decoded : Buffer) (encoded_size max : ℕ) (packet : List ℕ) {t : Session}
    → 2 ≤ encoded_size
    → encoded_size ≤ encoded.size
    → max ≤ decoded.size
    → Reach (opened encoded encoded_size decoded max packet) t
    → IsValid max t
Reach-IsValid encoded decoded encoded_size max packet two room room' here =
    opened-IsValid encoded decoded encoded_size max packet two room room'
Reach-IsValid encoded decoded encoded_size max packet two room room' (next r taken) =
    Step-IsValid taken (Reach-IsValid encoded decoded encoded_size max packet two room room' r)

-- The session is in order, and its next call of either kind returns.
pub record IsServing (max : ℕ) (t : Session) : Type 0 where
  pub valid : IsValid max t
  pub receives :
      (bus : ℕ) (xs : List ℕ)
      → Returns (Serves max t.escaper) (decode_packet t.escaper bus xs (length xs))
  pub sends :
      Returns
        (Called t.escaper t.packet t.index)
        (encode_packet t.escaper t.packet (length t.packet) t.index)

-- A new object with a send buffer of two bytes or more, both buffers as large as their sizes say, used
-- in any order for receptions of any bytes and for packets sent call by call, and whose decoder is
-- restarted between two packets only: its decoder holds bytes only while a packet is under way and no
-- more than its buffer has room for, and its encoder
-- is between two calls for the packet. A reception of any bytes returns and leaves the fields of the
-- encoder alone, and a call of the encoder returns, none with an access out of bounds.
pub Reach-IsServing :
    (encoded decoded : Buffer) (encoded_size max : ℕ) (packet : List ℕ) {t : Session}
    → 2 ≤ encoded_size
    → encoded_size ≤ encoded.size
    → max ≤ decoded.size
    → Reach (opened encoded encoded_size decoded max packet) t
    → IsServing max t
Reach-IsServing encoded decoded encoded_size max packet {t} two room room' reached =
    let v : IsValid max t =
      Reach-IsValid encoded decoded encoded_size max packet two room room' reached in
    record {
      valid = v;
      receives = λ bus xs. received t bus max xs v.sound;
      sends = encode_packet-Called t.escaper t.packet t.index v.ready;
    }
