-- ===== src/Escaper/Decoder.antt =====
-- The loop of `Escaper_decode_packet` as a function of the received bytes alone.
pub mod Safety
pub mod Packet
pub mod Stream
pub mod Sound
pub mod Serves
pub mod Rounds
pub mod Recovery
pub mod Taker
pub mod TakerRounds
pub mod Oversize
use taste_runtime_common.Common.{
  ℕ, zero, suc, ◌+◌, ◌≤◌, ◌<◌, ◌≡◌, refl, sym, ap, ◌∙◌, fun_ext, arith,
}
use taste_runtime_common.Common.{
  List, [], ◌∷◌, ◌++◌, length, take, take-length, drop, Option, none, some,
}
use native.Mathlib.Numerals.{add-one}
use taste_runtime_common.Memory.{Result, ok, faulted, aborted, out_of_fuel, ◌>>=◌, read}
use taste_runtime_common.Memory.Laws.{read_lem, >>=-assoc}
use taste_runtime_common.Escaper.{Escaper, Event, step, prepend, decode_loop, decode_packet}

-- The bytes one after the other, each handled by one round of the loop.
unfoldable pub decode_bytes : ℕ → Escaper → List ℕ → Result (Escaper × List Event)
decode_bytes bus e [] = ok (e, [])
decode_bytes bus e (x ∷ xs) = do
  (e', out) ← step bus e x
  (e'', events) ← decode_bytes bus e' xs
  ok (e'', prepend out events)

-- One round, with what handles the rest.
abbrev round :
    ℕ → Escaper → ℕ → (Escaper → Result (Escaper × List Event)) → Result (Escaper × List Event)
round bus e x rest = do
  (e', out) ← step bus e x
  (e'', events) ← rest e'
  ok (e'', prepend out events)

decode_loop-eq-decode_bytes :
    (bus : ℕ) (e : Escaper) (buffer : List ℕ) (i left : ℕ)
    → i + left ≤ length buffer
    → decode_loop bus e buffer i left ≡ decode_bytes bus e (take left (drop i buffer))
unfolding decode_loop decode_bytes
decode_loop-eq-decode_bytes bus e buffer i zero h = refl
decode_loop-eq-decode_bytes bus e buffer i (suc left) h =
    let (x, is_read, is_next) = read_lem buffer i (omega arith) in
    rw (is_read, is_next, ← add-one i)
      (ap (round bus e x)
        (fun_ext λ e'. decode_loop-eq-decode_bytes bus e' buffer (i + 1) left (omega arith)))

-- A call that is given all of a buffer handles its bytes in order.
pub decode_packet-eq-decode_bytes :
    (e : Escaper) (bus : ℕ) (buffer : List ℕ)
    → decode_packet e bus buffer (length buffer) ≡ decode_bytes bus e buffer
unfolding decode_packet
decode_packet-eq-decode_bytes e bus buffer =
    decode_loop-eq-decode_bytes bus e buffer 0 (length buffer) (omega arith)
    ∙ ap (decode_bytes bus e) (take-length buffer)

abbrev pub after_events : List Event → Escaper × List Event → Result (Escaper × List Event)
after_events events (e, later) = ok (e, events ++ later)

prepend-append :
    (out : Option Event) (es fs : List Event) → prepend out (es ++ fs) ≡ prepend out es ++ fs
prepend-append none es fs = refl
prepend-append (some event) es fs = refl

prepend_later :
    (out : Option Event) (es : List Event) (later : Result (Escaper × List Event))
    → (later >>= after_events es >>= λ (e, fs). ok (e, prepend out fs))
      ≡ (later >>= after_events (prepend out es))
prepend_later out es (ok (e, fs)) = rw prepend-append
prepend_later out es aborted = refl
prepend_later out es faulted = refl
prepend_later out es out_of_fuel = refl

-- A round that is followed by two parts, the second of them put off.
round_split :
    (out : Option Event) (first : Result (Escaper × List Event))
    (second : Escaper → Result (Escaper × List Event))
    → ((first >>= λ (e', es). second e' >>= after_events es) >>= λ (e'', fs).
        ok (e'', prepend out fs))
      ≡ ((first >>= λ (e', es). ok (e', prepend out es)) >>= λ (e', es).
          second e' >>= after_events es)
round_split out (ok (e, es)) second = prepend_later out es (second e)
round_split out aborted second = refl
round_split out faulted second = refl
round_split out out_of_fuel second = refl

-- Two lists of bytes after each other.
pub decode_bytes-append :
    (bus : ℕ) (e : Escaper) (xs ys : List ℕ)
    → decode_bytes bus e (xs ++ ys)
      ≡ (decode_bytes bus e xs >>= λ (e', events). decode_bytes bus e' ys >>= after_events events)
unfolding decode_bytes
decode_bytes-append bus e [] ys = ground arith
decode_bytes-append bus e (x ∷ xs) ys =
    ap (λ k. step bus e x >>= k)
      (fun_ext λ r.
        rw (decode_bytes-append bus r.0 xs ys)
          (round_split r.1 (decode_bytes bus r.0 xs) (λ e'. decode_bytes bus e' ys)))
    ∙ sym (>>=-assoc (step bus e x) _ _)
