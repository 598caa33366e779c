-- ===== src/IsoChecksum/Tests.antt =====
-- The checksum of src/Packetizer/IsoChecksum.c on concrete inputs.
use taste_runtime_common.Common.{◌+◌, ◌*◌, ◌≡◌, refl, arith}
use taste_runtime_common.Memory.{ok, Returns, Buffer, load}
use taste_runtime_common.IsoChecksum.{calculate, fletcher16, fletcher_loop, chunk_loop}
use taste_runtime_common.IsoChecksum.Checksum.{
  check_0, check_1, Completes, calculate-eq-check_bytes, calculate-Completes,
}

abbrev message : Buffer
message = record { size = 64; byte = λ j. 0xfa }

sum_of_message : calculate message 45 ≡ ok 0x2db4
unfolding calculate fletcher16 fletcher_loop chunk_loop load
sum_of_message = refl

calculate-eq-check_bytes_example :
    calculate message 45 ≡ ok (check_0 message.byte 45 * 256 + check_1 message.byte 45)
calculate-eq-check_bytes_example =
    calculate-eq-check_bytes message 45 (λ j. omega arith) (omega arith)

calculate-Completes_example : Returns (Completes message 45) (calculate message 45)
calculate-Completes_example = calculate-Completes message 45 (λ j. omega arith) (omega arith)
