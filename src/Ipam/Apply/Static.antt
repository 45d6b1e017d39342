-- ===== src/Ipam/Apply/Static.antt =====
-- `normalizeRequestedAddress`: an address that a pod may ask for.
use dra_linux_networks.Prelude.{
  String, ◌<>◌, ◌≡◌, true, some, arith, eqb_iff, ok, inl, inr, Option-cases,
}
use dra_linux_networks.Prelude.Decimal.{itoa}
use dra_linux_networks.Net.{Ip4, ip_string, Ip, to4, IpNet, parse_cidr, contains_ip}
use dra_linux_networks.Ipam.Apply.{normalize_requested_address}

-- A requested address that `normalizeRequestedAddress` accepts is the text of an IPv4 address of
-- the subnet, in its standard form and with the prefix length of the subnet, which is also that of
-- the request.
pub normalize_requested_address-ok :
    (subnet : IpNet) (request address : String)
    → normalize_requested_address subnet request ≡ ok address
    → (v : Ip4) × (contains_ip subnet v ≡ true)
      × (address ≡ ip_string v <> ("/" <> itoa subnet.ones))
      × (ip : Ip) × (net : IpNet) × (parse_cidr request ≡ some (ip, net))
      × (to4 ip ≡ some v)
      × (net.ones ≡ subnet.ones)
unfolding normalize_requested_address
normalize_requested_address-ok subnet request address h = elim (Option-cases (parse_cidr request)) [
  | inl bad ↦ absurd (ground arith)
  | inr ((ip, net), good) ↦ elim (Option-cases (to4 ip)) [
    | inl six ↦ absurd (ground arith)
    | inr (v, four) ↦ (
      v,
      ground (arith, eqb_iff subnet.ones net.ones),
      ground arith,
      ip,
      net,
      good,
      four,
      ground (arith, eqb_iff subnet.ones net.ones),
    )
  ]
]
