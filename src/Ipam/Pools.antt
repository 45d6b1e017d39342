-- ===== src/Ipam/Pools.antt =====
-- internal/driver/driver.go, `reloadIPPools`: the pools of the configuration and of the cluster.
pub mod Laws
use dra_linux_networks.Prelude.{
  String, Bool, true, false, Option, none, some, List, [], ◌∷◌, ◌==◌, if◌then◌else◌, is_empty,
  Result, ok, err,
}
use dra_linux_networks.Prelude.Dict.{Dict, insert}
use dra_linux_networks.Kube.{
  Value, object, Items, no_items, item, Fields, field_of, Accessors, Gvr, ip_pools, ApiError,
  Server,
}
use dra_linux_networks.Config.{IpRange, Route, IpPool}

pub data PoolError : Type 0 where
  spec_required subnet_required allocations_required : PoolError

-- The value that a field keeps if the key is missing.
abbrev or_zero : Option String → String
or_zero none = ""
or_zero (some s) = s

abbrev or_nil : Option (List String) → List String
or_nil none = []
or_nil (some ss) = ss

-- An object that is not a pool is left out.
add_pool : Result PoolError IpPool → Dict IpPool → Dict IpPool
add_pool (err e) pools = pools
add_pool (ok pool) pools = insert pool.name pool pools

module _ (A : Accessors) where
  open A use {nested_string, nested_slice, nested_string_slice, get_name}

  -- The loop of `ipRangesFromSpec`: what is not an object is left out.
  ranges_from : Items → List IpRange
  ranges_from no_items = []
  ranges_from (item (object r) rest) =
      record {
        name = or_zero (nested_string r ("name" ∷ []));
        addresses = or_nil (nested_string_slice r ("addresses" ∷ []));
        range_start = or_zero (nested_string r ("rangeStart" ∷ []));
        range_end = or_zero (nested_string r ("rangeEnd" ∷ []));
      }
      ∷ ranges_from rest
  ranges_from (item _ rest) = ranges_from rest

  unfoldable pub ip_ranges_from_spec : Fields → String → List IpRange
  unfolding ranges_from
  ip_ranges_from_spec spec key = elim (nested_slice spec (key ∷ [])) [
    | none ↦ []
    | some items ↦ ranges_from items
  ]

  routes_from : Items → List Route
  routes_from no_items = []
  routes_from (item (object r) rest) =
      record {
        destination = or_zero (nested_string r ("destination" ∷ []));
        gateway = or_zero (nested_string r ("gateway" ∷ []));
      }
      ∷ routes_from rest
  routes_from (item _ rest) = routes_from rest

  read_pool : Fields → Fields → IpPool
  unfolding routes_from ip_ranges_from_spec
  read_pool obj spec = record {
    name = get_name obj;
    subnet = or_zero (nested_string spec ("subnet" ∷ []));
    range_start = "";
    range_end = "";
    allocations = ip_ranges_from_spec spec "allocations";
    reservations = ip_ranges_from_spec spec "reservations";
    gateway = or_zero (nested_string spec ("gateway" ∷ []));
    routes = elim (nested_slice spec ("routes" ∷ [])) [
      | none ↦ []
      | some items ↦ routes_from items
    ];
  }

  check_pool : IpPool → Result PoolError IpPool
  check_pool pool =
      if pool.subnet == ""
      then err subnet_required
      else if is_empty pool.allocations
      then err allocations_required
      else ok pool

  pool_of_spec : Fields → Option Value → Result PoolError IpPool
  unfolding read_pool check_pool
  pool_of_spec obj (some (object spec)) = check_pool (read_pool obj spec)
  pool_of_spec obj _ = err spec_required

  unfoldable pub ip_pool_from_unstructured : Fields → Result PoolError IpPool
  unfolding pool_of_spec
  ip_pool_from_unstructured obj = pool_of_spec obj (field_of "spec" obj)

  -- A pool of the cluster replaces that of the configuration that has its name.
  add_listed : List Fields → Dict IpPool → Dict IpPool
  unfolding add_pool
  add_listed [] pools = pools
  add_listed (o ∷ items) pools = add_listed items (add_pool (ip_pool_from_unstructured o) pools)

configured : List IpPool → Dict IpPool → Dict IpPool
configured [] pools = pools
configured (pool ∷ rest) pools = configured rest (insert pool.name pool pools)

module _ (A : Accessors) (S : Server) where
  -- A list that fails leaves the pools of the configuration. That the driver has a dynamic client,
  -- which the code asks, is what Start requires of its options.
  unfoldable pub reload_ip_pools : List IpPool → S.World → Dict IpPool × S.World
  unfolding configured add_listed
  reload_ip_pools cfg w =
      let pools = configured cfg [] in
      let (r, w') = S.list ip_pools w in
      (elim r [ err e ↦ pools | ok items ↦ add_listed A items pools ], w')
