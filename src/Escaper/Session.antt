-- ===== src/Escaper/Session.antt =====
-- One `Escaper` in use: reception of any bytes, and packets sent call by call, in any order.
pub mod Invariant
use mathlib.Core.Path.{subst}
use taste_runtime_common.Common.{ℕ, zero, ◌≤◌, ◌<◌, ◌≡◌, refl, sym, ap, ◌∙◌, inl, inr, arith}
use taste_runtime_common.Common.{true, false, Bool, Bool-cases, List, [], ◌∷◌, length}
use taste_runtime_common.Common.{leb, ◌==◌, Option, none, some}
use taste_runtime_common.Memory.{ok, ◌>>=◌, Returns, Buffer, store}
use taste_runtime_common.Memory.Laws.{Returns-and, Returns-bind, eq_of_Returns}
use taste_runtime_common.Escaper.{
  Escaper, Event, ParseState, Progress, wait, data_byte, escaped_byte,
}
use taste_runtime_common.Escaper.{step, wait_step, data_step, escape_step, dispatch}
use taste_runtime_common.Escaper.{decode_packet, encode_packet, start_encoder, start_decoder, init}
use taste_runtime_common.Escaper.Decoder.{decode_bytes, decode_packet-eq-decode_bytes}
use taste_runtime_common.Escaper.Decoder.Sound.{IsSound, StepIsSound, step-IsSound}
use taste_runtime_common.Escaper.Encoder.{decoder_part}
use taste_runtime_common.Escaper.Encoder.Call.{
  EncoderReady, HasSendBuffer, Called, encode_packet-Called,
}

-- An object together with the packet that its user is sending, and how far the user has come.
pub record Session : Type 0 where
  pub escaper : Escaper
  pub packet : List ℕ
  pub index : ℕ

-- What the user of an object does: he hands over bytes that arrived, begins another packet, calls the
-- encoder with the index that the last call returned, or restarts the decoder between two packets.
pub data Step : Session → Session → Type 0 where
  receive :
      (s : Session) (bus : ℕ) (xs : List ℕ) (e : Escaper) (events : List Event)
      → decode_packet s.escaper bus xs (length xs) ≡ ok (e, events)
      → Step s (record s { escaper = e })
  begin :
      (s : Session) (packet : List ℕ)
      → Step s (record { escaper = start_encoder s.escaper; packet = packet; index = 0 })
  send :
      (s : Session) (p : Progress)
      → encode_packet s.escaper s.packet (length s.packet) s.index ≡ ok p
      → Step s (record s { escaper = p.escaper; index = p.index })
  restart :
      (s : Session)
      → s.escaper.parse_state ≡ wait
      → Step s (record s { escaper = start_decoder s.escaper })

pub data Reach (s : Session) : Session → Type 0 where
  here : Reach s s
  next : {t u : Session} → Reach s t → Step t u → Reach s u

-- A session that starts with a new object.
abbrev pub opened : Buffer → ℕ → Buffer → ℕ → List ℕ → Session
opened encoded encoded_size decoded decoded_size packet = record {
  escaper = init encoded encoded_size decoded decoded_size;
  packet = packet;
  index = 0;
}
