-- ===== src/Escaper.antt =====
-- src/Escaper/Escaper.c, Escaper.h and EscaperInternal.h: packets on a byte stream, framed by a start
-- and a stop byte and with these and the escape byte escaped inside.
-- A call returns the new `Escaper` beside its result. The callback that receives a packet is the
-- environment's: each call of it is an `Event`, in order.
pub mod Frame
pub mod Decoder
pub mod Encoder
pub mod Transmit
pub mod RoundTrip
pub mod Pieces
pub mod Session
mod Tests
use taste_runtime_common.Common.{ℕ, zero, suc, ◌+◌, ◌*◌, ◌-◌, Bool, true, false, not, ◌&&◌}
use taste_runtime_common.Common.{Option, none, some, List, [], ◌∷◌, ltb, leb, ◌==◌, if◌then◌else◌}
use taste_runtime_common.Memory.{Result, ok, faulted, aborted, out_of_fuel, ◌>>=◌, ◌>>◌}
use taste_runtime_common.Memory.{Buffer, store, read, window}

abbrev pub start_byte : ℕ
start_byte = 0x00

abbrev pub stop_byte : ℕ
stop_byte = 0xff

abbrev pub escape_byte : ℕ
escape_byte = 0xfe

pub data ParseState : Type 0 where
  wait data_byte escaped_byte : ParseState

pub record Escaper : Type 0 where
  pub parse_state : ParseState
  pub encode_started : Bool
  pub escape : Bool
  pub encode_finished : Bool
  pub encoded_buffer : Buffer
  pub encoded_max_size : ℕ
  pub decoded_buffer : Buffer
  pub decoded_max_size : ℕ
  pub decoded_index : ℕ

-- `receivePacketFn(bus_id, buffer, length)`
pub record Event : Type 0 where
  pub bus : ℕ
  pub packet : List ℕ

pub init : Buffer → ℕ → Buffer → ℕ → Escaper
init encoded encoded_size decoded decoded_size = record {
  parse_state = wait;
  encode_started = false;
  escape = false;
  encode_finished = false;
  encoded_buffer = encoded;
  encoded_max_size = encoded_size;
  decoded_buffer = decoded;
  decoded_max_size = decoded_size;
  decoded_index = 0;
}

pub start_decoder : Escaper → Escaper
start_decoder e = record e { parse_state = wait }

-- case Escaper_State_Wait
pub wait_step : Escaper → ℕ → Result (Escaper × Option Event)
wait_step e x =
    if x == start_byte then ok (record e { parse_state = data_byte }, none) else ok (e, none)

-- case Escaper_State_Data_Byte
pub data_step : ℕ → Escaper → ℕ → Result (Escaper × Option Event)
data_step bus e x =
    if x == stop_byte
    then ok (
      record e { parse_state = wait; decoded_index = 0 },
      some (record { bus = bus; packet = window e.decoded_buffer.byte 0 e.decoded_index }),
    )
    else if x == escape_byte
    then ok (record e { parse_state = escaped_byte }, none)
    else if x == start_byte
    then ok (record e { parse_state = data_byte; decoded_index = 0 }, none)
    else if leb e.decoded_max_size e.decoded_index
    then ok (record e { parse_state = wait; decoded_index = 0 }, none)
    else do
      b ← store e.decoded_buffer e.decoded_index x
      ok (record e { decoded_buffer = b; decoded_index = e.decoded_index + 1 }, none)

-- case Escaper_State_Escape_Byte
pub escape_step : Escaper → ℕ → Result (Escaper × Option Event)
escape_step e x =
    if leb e.decoded_max_size e.decoded_index
    then ok (record e { parse_state = wait; decoded_index = 0 }, none)
    else do
      b ← store e.decoded_buffer e.decoded_index x
      ok (
        record e {
          parse_state = data_byte;
          decoded_buffer = b;
          decoded_index = e.decoded_index + 1;
        },
        none,
      )

pub dispatch : ParseState → ℕ → Escaper → ℕ → Result (Escaper × Option Event)
unfolding wait_step data_step escape_step
dispatch wait bus e x = wait_step e x
dispatch data_byte bus e x = data_step bus e x
dispatch escaped_byte bus e x = escape_step e x

-- The `switch` for one received byte.
pub step : ℕ → Escaper → ℕ → Result (Escaper × Option Event)
unfolding dispatch
step bus e x = dispatch e.parse_state bus e x

abbrev pub prepend : Option Event → List Event → List Event
prepend none events = events
prepend (some event) events = event ∷ events

-- The `for` loop, with `left` bytes still to read from index `i` on.
pub decode_loop : ℕ → Escaper → List ℕ → ℕ → ℕ → Result (Escaper × List Event)
decode_loop bus e buffer i zero = ok (e, [])
decode_loop bus e buffer i (suc left) = do
  x ← read buffer i
  (e', out) ← step bus e x
  (e'', events) ← decode_loop bus e' buffer (i + 1) left
  ok (e'', prepend out events)

pub decode_packet : Escaper → ℕ → List ℕ → ℕ → Result (Escaper × List Event)
decode_packet e bus buffer length = decode_loop bus e buffer 0 length

pub start_encoder : Escaper → Escaper
start_encoder e = record e { encode_finished = false; escape = false; encode_started = false }

-- What a call of the encoder has done so far: the bytes put into the buffer, the object, `*index`.
pub record Progress : Type 0 where
  pub count : ℕ
  pub escaper : Escaper
  pub index : ℕ

-- `self->m_encoded_packet_buffer[encoded_packet_buffer_index] = x; ++encoded_packet_buffer_index;`
pub emit : Progress → ℕ → Result Progress
emit p x = do
  b ← store p.escaper.encoded_buffer p.count x
  ok (record p { count = p.count + 1; escaper = record (p.escaper) { encoded_buffer = b } })

abbrev pub set_escape : Progress → Bool → Progress
set_escape p b = record p { escaper = record (p.escaper) { escape = b } }

-- The chain of tests in the body of the `while` loop.
pub encode_byte : List ℕ → Progress → Result Progress
unfolding emit
encode_byte bytes p = do
  x ← read bytes p.index
  if p.escaper.escape
      then (do q ← emit p x; ok (set_escape (record q { index = q.index + 1 }) false))
      else if x == start_byte
      then (do q ← emit p escape_byte; ok (set_escape q true))
      else if x == escape_byte
      then (do q ← emit p escape_byte; ok (set_escape q true))
      else if x == stop_byte
      then (do q ← emit p escape_byte; ok (set_escape q true))
      else (do q ← emit p x; ok (record q { index = q.index + 1 }))

-- The `while` loop; true beside the progress is the `return` inside it.
pub encode_loop : ℕ → List ℕ → ℕ → Progress → Result (Bool × Progress)
encode_loop zero bytes length p = out_of_fuel
encode_loop (suc fuel) bytes length p = elim (ltb p.index length) [
  | false ↦ ok (false, p)
  | true ↦ do
    q ← encode_byte bytes p
    let more = encode_loop fuel bytes length q
    if q.count == q.escaper.encoded_max_size then ok (true, q) else more
]

-- `if(!self->m_encode_started)`
pub encode_start : Progress → Result Progress
unfolding emit
encode_start p = if p.escaper.encode_started then ok p else do
  q ← emit p start_byte
  ok (record q { escaper = record (q.escaper) { encode_started = true } })

-- `if((*index == length) && (!self->m_encode_finished))`
pub encode_finish : ℕ → Progress → Result Progress
unfolding emit
encode_finish length p =
    if (p.index == length) && not p.escaper.encode_finished
    then (do
      q ← emit p stop_byte
      ok (record q { escaper = record (q.escaper) { encode_finished = true } }))
    else ok p

-- Each byte takes at most two rounds, and one more finds the end.
abbrev pub encode_fuel : ℕ → ℕ
encode_fuel length = 2 * length + 1

pub encode_packet : Escaper → List ℕ → ℕ → ℕ → Result Progress
unfolding encode_start encode_loop encode_byte encode_finish
encode_packet e bytes length index = do
  p ← encode_start (record { count = 0; escaper = e; index = index })
  (returned, q) ← encode_loop (encode_fuel length) bytes length p
  if returned then ok q else encode_finish length q
