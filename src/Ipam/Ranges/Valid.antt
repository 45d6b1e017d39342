-- ===== src/Ipam/Ranges/Valid.antt =====
-- What `validateIPRanges` has established about a pool that it accepts.
use dra_linux_networks.Prelude.{
  ℕ, ◌+◌, String, ◌≡◌, true, List, [], ◌∷◌, arith, ok, inl, inr, Option-cases,
}
use dra_linux_networks.Net.{
  Ip4, IsIp4, to_u32, IpNet, contains_ip, parse_ip4, parse_ip4-IsIp4, contains_between,
}
use dra_linux_networks.Config.{IpRange}
use dra_linux_networks.Ipam.Ranges.{
  RangeKind, validate_addresses, validate_ends, validate_from, validate_ip_ranges, addresses_have,
  between_ends, value_in_ranges, ip_in_ranges,
}
use dra_linux_networks.Ipam.Ranges.Expand.{Covered, ip_in_ranges_iff_Covered, to_u32_injective}

module _ (pool_name : String) (net : IpNet) (kind : RangeKind) where
  addresses_inside :
      (i : ℕ) (texts : List String) (ip : Ip4)
      → IsIp4 ip
      → validate_addresses pool_name net kind i texts ≡ ok tt
      → addresses_have (to_u32 ip) texts ≡ true
      → contains_ip net ip ≡ true
  unfolding validate_addresses addresses_have
  addresses_inside i [] ip h v e = cc
  addresses_inside i (s ∷ texts) ip h v e = elim (Option-cases (parse_ip4 s)) [
    | inl bad ↦ ground arith
    | inr (w, parsed) ↦
        ground (
          arith,
          addresses_inside i texts ip h,
          to_u32_injective w ip (parse_ip4-IsIp4 s w parsed) h,
        )
  ]

  ends_inside :
      (i : ℕ) (r : IpRange) (ip : Ip4)
      → validate_ends pool_name net kind i r ≡ ok tt
      → between_ends (to_u32 ip) r ≡ true
      → contains_ip net ip ≡ true
  unfolding validate_ends between_ends
  ends_inside i r ip v e = elim (Option-cases (parse_ip4 r.range_start)) [
    | inl bad ↦ ground arith
    | inr (start, s_ok) ↦ elim (Option-cases (parse_ip4 r.range_end)) [
      | inl bad ↦ ground arith
      | inr (end, e_ok) ↦ ground (arith, contains_between net start ip end)
    ]
  ]

  values_inside :
      (i : ℕ) (ranges : List IpRange) (ip : Ip4)
      → IsIp4 ip
      → validate_from pool_name net kind i ranges ≡ ok tt
      → value_in_ranges (to_u32 ip) ranges ≡ true
      → contains_ip net ip ≡ true
  unfolding validate_from value_in_ranges
  values_inside i [] ip h v e = cc
  values_inside i (r ∷ ranges) ip h v e = ground (
    arith,
    addresses_inside i r.addresses ip h,
    ends_inside i r ip,
    values_inside (i + 1) ranges ip h,
  )

  -- When `validateIPRanges` accepts a list of ranges, every address of four bytes that the
  -- expansion of one of them lists lies in the subnet.
  pub validate_ip_ranges_sound :
      (ranges : List IpRange) (ip : Ip4)
      → IsIp4 ip
      → validate_ip_ranges pool_name net kind ranges ≡ ok tt
      → Covered ip ranges
      → contains_ip net ip ≡ true
  unfolding validate_ip_ranges
  validate_ip_ranges_sound ranges ip h v c =
      values_inside 0 ranges ip h v
        (unfold ip_in_ranges in (ip_in_ranges_iff_Covered ip ranges h).1 c)
