-- ===== src/Escaper/Frame.antt =====
-- The frames of the stream, independent of the code: what the encoder is to send for a packet.
use taste_runtime_common.Common.{ℕ, Bool, ◌||◌}
use taste_runtime_common.Common.{List, [], ◌∷◌, ◌++◌, ◌==◌, if◌then◌else◌}
use taste_runtime_common.Escaper.{start_byte, stop_byte, escape_byte}

abbrev pub is_special : ℕ → Bool
is_special x = x == start_byte || x == escape_byte || x == stop_byte

abbrev pub escape_bytes : List ℕ → List ℕ
escape_bytes [] = []
escape_bytes (x ∷ xs) =
    let rest = escape_bytes xs in if is_special x then escape_byte ∷ x ∷ rest else x ∷ rest

abbrev pub frame : List ℕ → List ℕ
frame packet = start_byte ∷ escape_bytes packet ++ stop_byte ∷ []
