-- ===== src/Driver/Network/Checks.antt =====
-- `validateConfig`: exactly the configurations that the interface allows.
use dra_linux_networks.Prelude.{
  ◌≡◌, ◌↔◌, ap, true, false, arith, ◌==◌, eq_iff, contains_iff, In, ok,
}
use dra_linux_networks.Config.{InterfaceConfig}
use dra_linux_networks.Driver.{NetworkConfig}
use dra_linux_networks.Driver.Network.{validate_config}

-- What the interface allows: the type, for macvlan and ipvlan the mode, and a host device only
-- for one claim and without a mode.
pub record Allows (ifc : InterfaceConfig) (cfg : NetworkConfig) : Type 0 where
  pub type : In cfg.type ifc.types
  pub macvlan : cfg.type ≡ "macvlan" → In cfg.mode ifc.macvlan_modes
  pub ipvlan : cfg.type ≡ "ipvlan" → In cfg.mode ifc.ipvlan_modes
  pub host_device :
      cfg.type ≡ "host-device" → (ifc.allocation_policy ≡ "exclusive") × (cfg.mode ≡ "")

module _ (ifc : InterfaceConfig) (cfg : NetworkConfig) where
  validate_config-Allows : validate_config ifc cfg ≡ ok tt → Allows ifc cfg
  unfolding validate_config
  validate_config-Allows h = record {
    type = (contains_iff ifc.types cfg.type).0 (ground arith);
    macvlan = λ e.
        (contains_iff ifc.macvlan_modes cfg.mode).0
          (let here : cfg.type == "macvlan" ≡ true = ap (λ t. t == "macvlan") e in ground arith);
    ipvlan = λ e. (contains_iff ifc.ipvlan_modes cfg.mode).0 (
        let not_macvlan : cfg.type == "macvlan" ≡ false = ap (λ t. t == "macvlan") e in
        let here : cfg.type == "ipvlan" ≡ true = ap (λ t. t == "ipvlan") e in ground arith);
    host_device = λ e.
        let not_macvlan : cfg.type == "macvlan" ≡ false = ap (λ t. t == "macvlan") e in
        let not_ipvlan : cfg.type == "ipvlan" ≡ false = ap (λ t. t == "ipvlan") e in
        let here : cfg.type == "host-device" ≡ true = ap (λ t. t == "host-device") e in
        (
          ground (arith, eq_iff ifc.allocation_policy "exclusive"),
          ground (arith, eq_iff cfg.mode ""),
        );
  }

  Allows-validate_config : Allows ifc cfg → validate_config ifc cfg ≡ ok tt
  unfolding validate_config
  Allows-validate_config a = ground (
    arith,
    a.macvlan,
    a.ipvlan,
    a.host_device,
    (contains_iff ifc.types cfg.type).1 a.type,
    (contains_iff ifc.macvlan_modes cfg.mode).1,
    (contains_iff ifc.ipvlan_modes cfg.mode).1,
    eq_iff cfg.type "macvlan",
    eq_iff cfg.type "ipvlan",
    eq_iff cfg.type "host-device",
    eq_iff ifc.allocation_policy "exclusive",
    eq_iff cfg.mode "",
  )

  -- `validateConfig` accepts a configuration exactly when the interface allows it.
  pub validate_config_iff_Allows : (validate_config ifc cfg ≡ ok tt) ↔ Allows ifc cfg
  validate_config_iff_Allows = (validate_config-Allows, Allows-validate_config)
