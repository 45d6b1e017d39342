-- ===== src/Plugin/Prepared.antt =====
-- What the store has when `prepareClaim` reports no error.
use dra_linux_networks.Prelude.{ℕ, String, ◌≡◌, ◌≢◌, some, List, ◌⊎◌}
use dra_linux_networks.Prelude.Dict.{Dict}
use dra_linux_networks.Kube.{Accessors, Server}
use dra_linux_networks.Driver.{DeviceConfig}
use dra_linux_networks.Store.{Store, Faults, set_device}
use dra_linux_networks.Store.Devices.{device_at}
use dra_linux_networks.Host.Kernel.{Netlink, Formats}
use dra_linux_networks.Plugin.Types.{KubePod, Services}
use dra_linux_networks.Plugin.Prepare.{Consumer, Allocated, ClaimObject}
use dra_linux_networks.Plugin.Inspect.{Inspect}
use dra_linux_networks.Plugin.Desk.{Desk, Setup, key_of}

-- The store has the device for the claim, as prepared.
abbrev pub IsReady : String → String → String → Store → Type 0
IsReady claim_uid uid key s =
    (cfg : DeviceConfig) × (device_at uid key s ≡ some cfg)
    × (cfg.claim_uid ≡ claim_uid)
    × (cfg.lifecycle_state ≡ "Prepared")

-- One device of the claim is written, as prepared.
abbrev Writes : String → String → String → Store → Store → Type 0
Writes claim_uid uid key s s' =
    (io : Faults) × (cfg : DeviceConfig) × (before : Store) × (before.state.pods ≡ s.state.pods)
    × (s' ≡ (set_device io uid key cfg before).1)
    × (cfg.claim_uid ≡ claim_uid)
    × (cfg.lifecycle_state ≡ "Prepared")

module _ {W : Type 0} (N : Netlink W) (F : Formats) (V : Services W) (I : Inspect W) (A : Accessors)
    (S : Server) (sha256 : String → List ℕ) (D : Setup) where
  -- What a round of the loop writes.
  abbrev Wrote : ClaimObject → Consumer → Allocated → Desk S W → Desk S W → Type 0
  Wrote claim reserved a desk desk' =
      Writes claim.uid reserved.uid (key_of claim a) desk.ipam.store desk'.ipam.store

  -- The allocated device is another driver's, or the store has it ready.
  abbrev pub IsDone : ClaimObject → Consumer → Store → Allocated → Type 0
  IsDone claim reserved s a =
      (a.driver ≢ D.driver_name) ⊎ IsReady claim.uid reserved.uid (key_of claim a) s

  module _ (claim : ClaimObject) (reserved : Consumer) (pod : KubePod) where
    abbrev Ready : String → Desk S W → Type 0
    Ready key desk = IsReady claim.uid reserved.uid key desk.ipam.store
