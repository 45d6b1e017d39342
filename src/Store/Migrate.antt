-- ===== src/Store/Migrate.antt =====
-- `migrateDeviceKeys`: after it every device stands under its own key, and nothing is left to do.
use dra_linux_networks.Prelude.{String, ◌≡◌, ◌==◌, [], ◌∷◌, All, Option, none, some, if◌then◌else◌}
use dra_linux_networks.Prelude.Dict.{Dict}
use dra_linux_networks.Driver.{DeviceConfig, PodConfig}
use dra_linux_networks.Store.{Store, devices_of, canonical_key}

-- The device stands under the key that `deviceStoreKey` gives it.
abbrev pub IsFiled : String × DeviceConfig → Type 0
IsFiled (key, cfg) = canonical_key key cfg ≡ key

abbrev pub IsPodFiled : String × PodConfig → Type 0
IsPodFiled (uid, pod) = All IsFiled (devices_of pod)

-- The last device, in the order of the map, that belongs under a key.
abbrev pub last_filed : String → Dict DeviceConfig → Option DeviceConfig
last_filed key [] = none
last_filed key ((old_key, cfg) ∷ m) = elim (last_filed key m) [
  | some later ↦ some later
  | none ↦ if canonical_key old_key cfg == key then some cfg else none
]
