-- ===== src/Plugin/Prepare.antt =====
-- internal/driver/driver.go and dpdk.go: `prepareClaim`, which configures and records the devices
-- of a claim before its pod starts.
use dra_linux_networks.Prelude.{
  String, not, ◌&&◌, ◌||◌, Option, none, some, List, [], ◌∷◌, Result, ok, err, ◌==◌, if◌then◌else◌,
  contains, is_empty,
}
use dra_linux_networks.Prelude.Int.{pos}
use dra_linux_networks.Prelude.Dict.{Dict}
use dra_linux_networks.Config.{InterfaceConfig}
use dra_linux_networks.Driver.{NetworkConfig, DeviceConfig}
use dra_linux_networks.Driver.Network.{merge_config, ConfigError, validate_config}
use dra_linux_networks.Driver.Naming.{
  at_key, StaticError, pod_static_address, NameError, pod_interface_name,
}
use dra_linux_networks.Driver.Dpdk.{DpdkConfigError}
use dra_linux_networks.Store.{Store, StoreError, get_pod}
use dra_linux_networks.Ipam.Apply.{ApplyError}
use dra_linux_networks.Host.Kernel.{Fault, HostError}
use dra_linux_networks.Plugin.Types.{KubePod}

-- What is read of a ResourceClaim: the consumers, the allocated devices and the opaque
-- configurations; a parameter of an opaque configuration is its text, and `none` is no opaque one.
pub record Consumer : Type 0 where
  pub api_group : String
  pub resource : String
  pub name : String
  pub uid : String

pub record Allocated : Type 0 where
  pub driver : String
  pub pool : String
  pub device : String
  pub request : String
  pub share_id : Option String

pub record OpaqueConfig : Type 0 where
  pub opaque : Option (String × String)
  pub requests : List String

pub record ClaimObject : Type 0 where
  pub namespace : String
  pub name : String
  pub uid : String
  pub annotations : Dict String
  pub reserved_for : List Consumer
  pub results : List Allocated
  pub config : List OpaqueConfig

-- A `kubeletplugin.Device`
pub record Device : Type 0 where
  pub requests : List String
  pub pool_name : String
  pub device_name : String
  pub cdi_device_ids : List String

pub data PrepareError : Type 0 where
  many_consumers : PrepareError
  unsupported_consumer : String → String → PrepareError
  unknown_device bad_config no_pod report_failed gate_failed cdi_failed : String → PrepareError
  bad_name : NameError → PrepareError
  bad_address : StaticError → PrepareError
  not_allowed : ConfigError → PrepareError
  not_dpdk : DpdkConfigError → PrepareError
  no_address : ApplyError → PrepareError
  no_link : Fault → PrepareError
  no_snapshot : HostError → PrepareError
  unsafe_device : String → PrepareError
  not_kept : StoreError → PrepareError

-- The loop of `configForRequest`; `decode` is `json.Unmarshal`.
unfoldable pub config_for_request :
    (String → Result String NetworkConfig)
    → String
    → String
    → List OpaqueConfig
    → Result PrepareError (Option NetworkConfig)
config_for_request decode driver request [] = ok none
config_for_request decode driver request (item ∷ items) =
    let rest = config_for_request decode driver request items in
    elim item.opaque [
      | none ↦ rest
      | some (owner, raw) ↦
          if not (owner == driver)
            || not (is_empty item.requests) && not (contains item.requests request)
            || raw == ""
          then rest
          else elim (decode raw) [ err e ↦ err (bad_config e) | ok cfg ↦ ok (some cfg) ]
    ]

-- The zero value, where no configuration is for the request.
abbrev pub config_or_zero : Option NetworkConfig → NetworkConfig
config_or_zero (some cfg) = cfg
config_or_zero none = record {
  type = "";
  mode = "";
  interface_name = "";
  mtu = pos 0;
  ip_pool = "";
  address = "";
  addresses = [];
  gateway = "";
  routes = [];
}

abbrev default_config : InterfaceConfig → NetworkConfig
default_config ifc = record (config_or_zero none) {
  type = ifc.default_type;
  mode = ifc.default_mode;
  interface_name = ifc.default_pod_name;
  mtu = ifc.mtu;
}

abbrev with_name : NetworkConfig → String → NetworkConfig
with_name cfg name = record cfg { interface_name = name }

-- `claimReference := claim.Annotations["resource.kubernetes.io/pod-claim-name"]`
abbrev claim_reference : ClaimObject → String
claim_reference claim = at_key "resource.kubernetes.io/pod-claim-name" claim.annotations

-- The name of the interface in the pod.
unfoldable pub name_of :
    Store
    → KubePod
    → ClaimObject
    → Allocated
    → String
    → NetworkConfig
    → Result PrepareError NetworkConfig
name_of s pod claim a key cfg =
    if cfg.type == "macvlan" || cfg.type == "ipvlan"
    then elim (pod_interface_name (get_pod pod.uid s) pod.annotations (claim_reference claim)
        a.request key cfg.interface_name) [
          | err e ↦ err (bad_name e)
          | ok name ↦ ok (with_name cfg name)
        ]
    else ok cfg

-- The address that the pod's annotations ask for, and the check of the result.
unfoldable pub addressed :
    InterfaceConfig → KubePod → Allocated → NetworkConfig → Result PrepareError NetworkConfig
addressed ifc pod a cfg =
    elim (pod_static_address pod.annotations a.request cfg.interface_name cfg.ip_pool) [
      | err e ↦ err (bad_address e)
      | ok address ↦
          let cfg' = if address == "" then cfg else record cfg { address = address } in
          elim (validate_config ifc cfg') [ err e ↦ err (not_allowed e) | ok u ↦ ok cfg' ]
    ]

abbrev then_config :
    Result PrepareError NetworkConfig
    → (NetworkConfig → Result PrepareError NetworkConfig)
    → Result PrepareError NetworkConfig
then_config (ok cfg) next = next cfg
then_config (err e) next = err e

-- From the interface's defaults to the configuration that `applyIPAM` is given.
unfoldable pub requested_config :
    (String → Result String NetworkConfig)
    → String
    → InterfaceConfig
    → Store
    → KubePod
    → ClaimObject
    → Allocated
    → String
    → Result PrepareError NetworkConfig
requested_config decode driver ifc s pod claim a key =
    elim (config_for_request decode driver a.request claim.config) [
      | err e ↦ err e
      | ok user ↦
          let merged = merge_config (default_config ifc) (config_or_zero user) in
          let named =
            if merged.type == "host-device" && merged.interface_name == ""
            then with_name merged ifc.name
            else merged in
          then_config (name_of s pod claim a key named) (addressed ifc pod a)
    ]

-- A device of the claim that the store has already, with its host device's state.
unfoldable pub existing_host : String → Option DeviceConfig → Option DeviceConfig
existing_host claim_uid none = none
existing_host claim_uid (some cfg) = elim cfg.host_device [
  | none ↦ none
  | some host ↦ if cfg.claim_uid == claim_uid then some cfg else none
]
