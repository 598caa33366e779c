-- ===== src/Packetizer/Trailer.antt =====
-- The trailer of a packet: the sender PID, then the CRC of the header and the data.
use Prim.Native.Nat.{bit_and}
use taste_runtime_common.Common.{ℕ, ◌+◌, ◌/◌, ◌%◌, ◌≤◌, ◌<◌, ◌≡◌, ◌∙◌, arith}
use taste_runtime_common.Common.{mod-eq_of_lt}
use taste_runtime_common.Words.{u8, ◌>>>◌}
use taste_runtime_common.Words.Octets.{low_octet, high_octet}
use taste_runtime_common.Memory.{ok, ◌>>=◌, Returns, Buffer, store, update}
use taste_runtime_common.Memory.Laws.{Returns-of_eq, eq_of_Returns}
use taste_runtime_common.Crc16.{calculate_crc16}
use taste_runtime_common.Crc16.Sum.{calculate_crc16-Returns}
use taste_runtime_common.Packetizer.{size_t, write_sender_pid, write_crc}
use taste_runtime_common.Packetizer.Writers.{ChangedIn}

pub record PidWritten (data_size source : ℕ) (b c : Buffer) : Type 0 where
  pub changed : ChangedIn (8 + data_size) (10 + data_size) b c
  pub high : c.byte (8 + data_size) ≡ source / 256 % 256
  pub low : c.byte (9 + data_size) ≡ source % 256

pub record CrcWritten (data_size : ℕ) (b c : Buffer) : Type 0 where
  pub changed : ChangedIn (10 + data_size) (12 + data_size) b c
  pub sum : ℕ
  pub sum_is : calculate_crc16 b (8 + data_size) ≡ ok sum
  pub sum-lt : sum < 65536
  pub high : c.byte (10 + data_size) ≡ sum / 256
  pub low : c.byte (11 + data_size) ≡ sum % 256

module _ (size_mod : ℕ) where
  -- A packet that lies in a buffer is no larger than a `size_t` can say.
  pub write_sender_pid-Written :
      (b : Buffer) (data_size source : ℕ)
      → 12 + data_size ≤ b.size
      → b.size < size_mod
      → Returns (PidWritten data_size source b) (write_sender_pid size_mod b data_size source)
  unfolding write_sender_pid store
  write_sender_pid-Written b data_size source room fits =
      let e₀ : size_t size_mod (8 + data_size) ≡ 8 + data_size = mod-eq_of_lt (omega arith) in
      let e₁ : size_t size_mod (8 + data_size + 1) ≡ 9 + data_size =
        mod-eq_of_lt (omega arith) ∙ omega arith in
      rw (e₀, e₁) (ground (arith, low_octet source, high_octet source))

  write_crc-Written_of_sum :
      (b : Buffer) (data_size sum : ℕ)
      → 12 + data_size ≤ b.size
      → b.size < size_mod
      → calculate_crc16 b (8 + data_size) ≡ ok sum
      → sum < 65536
      → Returns (CrcWritten data_size b) (write_crc size_mod b data_size)
  unfolding write_crc store
  write_crc-Written_of_sum b data_size sum room fits sum_is small =
      let e₀ : size_t size_mod (8 + data_size) ≡ 8 + data_size = mod-eq_of_lt (omega arith) in
      let e₂ : size_t size_mod (8 + data_size + 2) ≡ 10 + data_size =
        mod-eq_of_lt (omega arith) ∙ omega arith in
      let e₃ : size_t size_mod (8 + data_size + 2 + 1) ≡ 11 + data_size =
        mod-eq_of_lt (omega arith) ∙ omega arith in
      rw (e₀, sum_is, e₂, e₃)
        (Returns-of_eq (CrcWritten data_size b) (stored (omega arith)) (written sum_is small))
    where
      c : Buffer
      c = record b {
        byte =
            update (update b.byte (10 + data_size) (u8 (bit_and (u8 (sum >>> 8)) 0xff)))
              (11 + data_size) (u8 (bit_and sum 0xff));
      }

      stored :
          12 + data_size ≤ b.size
          → (store b (10 + data_size) (u8 (bit_and (u8 (sum >>> 8)) 0xff)) >>= λ b₁.
              store b₁ (11 + data_size) (u8 (bit_and sum 0xff)))
            ≡ ok c
      stored room' = ground arith

      written : calculate_crc16 b (8 + data_size) ≡ ok sum → sum < 65536 → CrcWritten data_size b c
      written sum_is' small' = record {
        changed = ground arith;
        sum = sum;
        sum_is = sum_is';
        sum-lt = small';
        high = ground (arith, high_octet sum);
        low = ground (arith, low_octet sum);
      }

  pub write_crc-Written :
      (b : Buffer) (data_size : ℕ)
      → 12 + data_size ≤ b.size
      → b.size < size_mod
      → Returns (CrcWritten data_size b) (write_crc size_mod b data_size)
  write_crc-Written b data_size room fits =
      let (sum, sum_is, small) =
        eq_of_Returns (λ c. c < 65536) (calculate_crc16 b (8 + data_size))
          (calculate_crc16-Returns b (8 + data_size) (omega arith)) in
      write_crc-Written_of_sum b data_size sum room fits sum_is small
