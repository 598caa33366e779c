-- ===== src/Escaper/Decoder/Taker.antt =====
-- What frames of any size are to be taken for, independent of the decoder's states and of escapes.
use taste_runtime_common.Common.{ℕ, ◌+◌, ◌≤◌, ◌≡◌, sym, ap, ◌∙◌, arith, Option, none, some}
use taste_runtime_common.Common.{
  false, leb, ◌==◌, if◌then◌else◌, List, [], ◌∷◌, ◌++◌, length, length-append, append_assoc,
  append-nil,
}
use taste_runtime_common.Escaper.{Event, start_byte}

-- A receiver of a packet, with room for `max` bytes. It collects bytes; the first for which there is
-- no room makes it drop all, and wait for a start byte among the bytes of the packet that are left,
-- behind which it collects anew. `none` is a receiver that waits.
abbrev pub take_byte : ℕ → Option (List ℕ) → ℕ → Option (List ℕ)
take_byte max (some got) x = if leb max (length got) then none else some (got ++ (x ∷ []))
take_byte max none x = if x == start_byte then some [] else none

abbrev pub take_bytes : ℕ → Option (List ℕ) → List ℕ → Option (List ℕ)
take_bytes max got [] = got
take_bytes max got (x ∷ xs) = take_bytes max (take_byte max got x) xs

-- What such a receiver takes a packet for.
abbrev pub taken_for : ℕ → List ℕ → Option (List ℕ)
taken_for max packet = take_bytes max (some []) packet

abbrev pub event_of : ℕ → Option (List ℕ) → List Event
event_of bus none = []
event_of bus (some packet) = record { bus = bus; packet = packet } ∷ []

-- A packet that fits is taken as it is.
take_bytes-fits :
    (max : ℕ) (got xs : List ℕ)
    → length got + length xs ≤ max
    → take_bytes max (some got) xs ≡ some (got ++ xs)
take_bytes-fits max got [] fits = ap some (sym (append-nil got))
take_bytes-fits max got (x ∷ xs) fits =
    let more : leb max (length got) ≡ false = ground arith in
    let longer : length (got ++ (x ∷ [])) + length xs ≤ max =
      omega (arith, length-append got (x ∷ [])) in
    rw more
      (take_bytes-fits max (got ++ (x ∷ [])) xs longer ∙ ap some (append_assoc got (x ∷ []) xs))

pub taken_for-fits :
    (max : ℕ) (packet : List ℕ) → length packet ≤ max → taken_for max packet ≡ some packet
taken_for-fits max packet fits = take_bytes-fits max [] packet (omega arith)
