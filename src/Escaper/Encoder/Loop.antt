-- ===== src/Escaper/Encoder/Loop.antt =====
-- The `while` loop of `Escaper_encode_packet`: it ends, inside the buffer, and loses no byte.
use taste_runtime_common.Common.{ℕ, zero, suc, ◌≤◌, ◌<◌, ◌≡◌, ◌∙◌, inl, inr, arith}
use taste_runtime_common.Common.{
  Bool, true, false, Bool-cases, List, ◌++◌, length, ltb, ltb→lt, ◌==◌, ==_iff,
}
use taste_runtime_common.Memory.{Returns}
use taste_runtime_common.Memory.Laws.{Returns-bind, Returns-map}
use taste_runtime_common.Escaper.{Progress, encode_byte, encode_loop}
use taste_runtime_common.Escaper.Encoder.{
  sent, left, decoder_part, rounds, Advanced, encode_byte-Advanced,
}

-- Before a round: `*index` is a position of the packet, and there is room for a byte.
pub record CanGoOn (bytes : List ℕ) (p : Progress) : Type 0 where
  pub in_bytes : p.index ≤ length bytes
  pub escape_in_bytes : p.escaper.escape ≡ true → p.index < length bytes
  pub below_max : p.count < p.escaper.encoded_max_size
  pub max_in_buffer : p.escaper.encoded_max_size ≤ p.escaper.encoded_buffer.size

-- What the loop, entered with `p`, leaves: true beside `q` is the return from inside the loop.
pub record Looped (bytes : List ℕ) (p : Progress) (r : Bool × Progress) : Type 0 where
  pub kept : sent r.1 ++ left bytes r.1 ≡ sent p ++ left bytes p
  pub in_bytes : r.1.index ≤ length bytes
  pub escape_in_bytes : r.1.escaper.escape ≡ true → r.1.index < length bytes
  pub full : r.0 ≡ true → (r.1.count ≡ p.escaper.encoded_max_size) × (p.index < length bytes)
  pub at_end : r.0 ≡ false → (r.1.index ≡ length bytes) × (r.1.count < p.escaper.encoded_max_size)
  pub same_started : r.1.escaper.encode_started ≡ p.escaper.encode_started
  pub same_finished : r.1.escaper.encode_finished ≡ p.escaper.encode_finished
  pub same_max : r.1.escaper.encoded_max_size ≡ p.escaper.encoded_max_size
  pub same_size : r.1.escaper.encoded_buffer.size ≡ p.escaper.encoded_buffer.size
  pub same_decoder : decoder_part r.1.escaper ≡ decoder_part p.escaper

Looped-of_Advanced :
    {bytes : List ℕ} {p q : Progress} {r : Bool × Progress}
    → Advanced bytes p q
    → Looped bytes q r
    → Looped bytes p r
Looped-of_Advanced a l = record {
  kept = l.kept ∙ a.kept;
  in_bytes = l.in_bytes;
  escape_in_bytes = l.escape_in_bytes;
  full = λ e. ((l.full e).0 ∙ a.same_max, a.was_in_bytes);
  at_end = λ e. ground (arith, l.at_end e, a.same_max);
  same_started = l.same_started ∙ a.same_started;
  same_finished = l.same_finished ∙ a.same_finished;
  same_max = l.same_max ∙ a.same_max;
  same_size = l.same_size ∙ a.same_size;
  same_decoder = l.same_decoder ∙ a.same_decoder;
}

-- A round that fills the buffer ends the loop.
Looped-full :
    {bytes : List ℕ} {p q : Progress}
    → Advanced bytes p q
    → q.count ≡ q.escaper.encoded_max_size
    → Looped bytes p (true, q)
Looped-full a e = ground arith

-- Another round can follow one that leaves room.
CanGoOn-of_Advanced :
    {bytes : List ℕ} {p q : Progress}
    → CanGoOn bytes p
    → Advanced bytes p q
    → (q.count == q.escaper.encoded_max_size) ≡ false
    → CanGoOn bytes q
CanGoOn-of_Advanced c a room = ground arith

pub encode_loop-Looped :
    (fuel : ℕ) (bytes : List ℕ) (p : Progress)
    → rounds bytes p < fuel
    → CanGoOn bytes p
    → Returns (Looped bytes p) (encode_loop fuel bytes (length bytes) p)
unfolding encode_loop
encode_loop-Looped zero bytes p h c = absurd (omega arith)
encode_loop-Looped (suc fuel) bytes p h c = elim (Bool-cases (ltb p.index (length bytes))) [
  | inl more ↦
      rw (more, encode_loop)
        (Returns-bind (Advanced bytes p) (Looped bytes p) (encode_byte bytes p) _
          (encode_byte-Advanced bytes p (ltb→lt _ _ more) (omega arith))
          λ q a. elim (Bool-cases (q.count == q.escaper.encoded_max_size)) [
            | inl full ↦ rw full (Looped-full a ((==_iff _ _).0 full))
            | inr room ↦ rw room (
                Returns-map (Looped bytes q) (Looped bytes p)
                  (encode_loop fuel bytes (length bytes) q) (λ r. Looped-of_Advanced a)
                  (encode_loop-Looped fuel bytes q (omega arith) (CanGoOn-of_Advanced c a room)))
          ])
  | inr done ↦ rw (done, encode_loop) (ground arith)
]
