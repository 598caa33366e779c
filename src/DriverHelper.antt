-- ===== src/DriverHelper.antt =====
-- src/RuntimeCommon/DriverHelper.c: the configurations of the devices.
-- `SYSTEM_DEVICE_NUMBER` and the tables that the build generates are parameters; a pointer is a
-- number, NULL is 0.
pub mod Remote
mod Tests
use taste_runtime_common.Common.{ℕ, zero, suc, ◌+◌, Bool, false, List}
use taste_runtime_common.Common.{ltb, ◌==◌, if◌then◌else◌}
use taste_runtime_common.Memory.{Result, ok, ◌>>=◌, read}

-- PACKETIZER_DEFAULT
abbrev pub packetizer_default : ℕ
packetizer_default = 0

module _ (system_device_number : ℕ) where
  unfoldable pub get_device_configuration : List ℕ → ℕ → Result ℕ
  get_device_configuration device_configurations device =
      if ltb system_device_number device then ok 0 else read device_configurations device

  -- `index != device_id && device_to_bus_map[index] == bus_id`
  unfoldable pub is_remote : List ℕ → ℕ → ℕ → ℕ → Result Bool
  is_remote device_to_bus_map device bus index =
      if index == device
      then ok false
      else do other ← read device_to_bus_map index; ok (other == bus)

  -- The `for` loop, with `left` devices to go.
  unfoldable pub find_remote : List ℕ → List ℕ → ℕ → ℕ → ℕ → ℕ → Result ℕ
  find_remote device_configurations device_to_bus_map device bus index zero = ok 0
  find_remote device_configurations device_to_bus_map device bus index (suc left) = do
    found ← is_remote device_to_bus_map device bus index
    let rest = find_remote device_configurations device_to_bus_map device bus (index + 1) left
    if found then read device_configurations index else rest

  unfoldable pub get_remote_device_configuration : List ℕ → List ℕ → ℕ → Result ℕ
  get_remote_device_configuration device_configurations device_to_bus_map device =
      if ltb system_device_number device then ok 0 else do
        bus ← read device_to_bus_map device
        find_remote device_configurations device_to_bus_map device bus 0 system_device_number

  unfoldable pub get_device_packetizer_cfg : List ℕ → ℕ → Result ℕ
  get_device_packetizer_cfg packetizer_configurations device =
      if ltb system_device_number device
      then ok packetizer_default
      else read packetizer_configurations device
