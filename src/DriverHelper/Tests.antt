-- ===== src/DriverHelper/Tests.antt =====
-- Three devices on two buses.
use taste_runtime_common.Common.{ℕ, zero, suc, ◌<◌, ◌≡◌, refl, arith, List, [], ◌∷◌}
use taste_runtime_common.Memory.{ok, read}
use taste_runtime_common.DriverHelper.{get_remote_device_configuration, find_remote, is_remote}
use taste_runtime_common.DriverHelper.Remote.{
  IsTable, ByDevice, Remote, get_remote_device_configuration-ByDevice,
}

abbrev bus : ℕ → ℕ
bus zero = 1
bus (suc zero) = 2
bus (suc (suc i)) = 1

abbrev configuration : ℕ → ℕ
configuration zero = 70
configuration (suc zero) = 71
configuration (suc (suc i)) = 72

abbrev three : (ℕ → ℕ) → List ℕ
three f = f 0 ∷ f 1 ∷ f 2 ∷ []

three-IsTable : (f : ℕ → ℕ) → IsTable (three f) 3 f
unfolding read
three-IsTable f = record { length_is = refl; entry = entry }
  where
    entry : (i : ℕ) → i < 3 → read (three f) i ≡ ok (f i)
    entry zero below = refl
    entry (suc zero) below = refl
    entry (suc (suc zero)) below = refl
    entry (suc (suc (suc i))) below = absurd (omega arith)

found : get_remote_device_configuration 3 (three configuration) (three bus) 0 ≡ ok 72
unfolding get_remote_device_configuration find_remote is_remote read
found = refl

get_remote_device_configuration-ByDevice_example :
    ByDevice
      (Remote bus configuration 0 3)
      3
      0
      (get_remote_device_configuration 3 (three configuration) (three bus) 0)
get_remote_device_configuration-ByDevice_example =
    get_remote_device_configuration-ByDevice 3 (three configuration) (three bus) configuration bus
      (three-IsTable configuration) (three-IsTable bus) 0
