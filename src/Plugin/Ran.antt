-- ===== src/Plugin/Ran.antt =====
-- What `RunPodSandbox` has done when it reports no error.
use dra_linux_networks.Prelude.{In, ◌≢◌, String, ◌≡◌, ok, ◌⊎◌}
use dra_linux_networks.Prelude.Dict.{Dict}
use dra_linux_networks.Driver.{DeviceConfig}
use dra_linux_networks.Store.{Store, Faults, set_device}
use dra_linux_networks.Host.Kernel.{HostError, Netlink, Formats}
use dra_linux_networks.Host.Moves.{attach_host_device}
use dra_linux_networks.Host.Child.{Links, attach_link}
use dra_linux_networks.Plugin.Types.{Services, Node}
use dra_linux_networks.Plugin.Waiting.{Waiting}
use dra_linux_networks.Plugin.Run.{attached}

module _ {W : Type 0} (N : Netlink W) (F : Formats) (L : Links W)
    (pci_address : String → W → String) (describe : HostError → String) (V : Services W) where
  -- How a device comes to be in the pod whose namespace has this path, if these were the pod's
  -- devices when the method was called: a DPDK device is injected; a device that had a name in the
  -- pod before keeps it; for a physical one `attachHostDevice` has reported no error for the
  -- namespace, and for any other one `attachLink`, and the record tells what was attached.
  abbrev pub IsInjected : DeviceConfig → Type 0
  IsInjected c = (c.network.type ≡ "dpdk") × (c.lifecycle_state ≡ "Injected")

  abbrev pub HasStayed : Dict DeviceConfig → String → DeviceConfig → Type 0
  HasStayed before key c = In (key, c) before × (c.network.type ≢ "dpdk") × (c.attached_if ≢ "")

  abbrev pub IsMoved : String → Dict DeviceConfig → String → DeviceConfig → Type 0
  IsMoved ns_path before key c =
      (cfg : DeviceConfig) × (d : DeviceConfig) × (v : W) × (v' : W) × In (key, cfg) before
      × (cfg.network.type ≡ "host-device")
      × (attach_host_device N F pci_address ns_path cfg v ≡ (ok tt, d, v'))
      × (c ≡ attached d d.hardware_address)

  abbrev pub IsLinked : String → Dict DeviceConfig → String → DeviceConfig → Type 0
  IsLinked ns_path before key c =
      (cfg : DeviceConfig) × (address : String) × (v : W) × (v' : W) × In (key, cfg) before
      × (cfg.network.type ≢ "host-device")
      × (attach_link N F L ns_path cfg v ≡ (ok address, v'))
      × (c ≡ attached cfg address)

  abbrev pub IsUp : String → Dict DeviceConfig → String → DeviceConfig → Type 0
  IsUp ns_path before key c =
      IsInjected c
      ⊎ HasStayed before key c
      ⊎ IsMoved ns_path before key c
      ⊎ IsLinked ns_path before key c

  -- A device has been written that is in the pod.
  abbrev Written : String → Dict DeviceConfig → String → String → Store → Store → Type 0
  Written ns_path before uid name s s' =
      (io : Faults) × (c : DeviceConfig) × (s' ≡ (set_device io uid name c s).1)
      × IsUp ns_path before name c

  -- A round of the loop: the device was in the pod, or one is written that is.
  abbrev Round :
      String → Dict DeviceConfig → String → String → DeviceConfig → Node W → Node W → Type 0
  Round ns_path before uid name cfg n n' =
      ((n'.store ≡ n.store) × IsUp ns_path before name cfg)
      ⊎ Written ns_path before uid name n.store n'.store
