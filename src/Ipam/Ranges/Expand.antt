-- ===== src/Ipam/Ranges/Expand.antt =====
-- What the range functions compute: one set of addresses, whichever way it is read.
use dra_linux_networks.Prelude.{
  ℕ, zero, suc, ◌+◌, ◌-◌, ◌%◌, ◌^◌, ◌≤◌, ◌<◌, String, ◌≡◌, sym, ap, ◌∙◌, true, ◌||◌, some, List, [],
  ◌∷◌, ◌++◌, arith, eqb, leb, ◌==◌, ◌⊎◌, inl, inr, ◌↔◌, In, In-append, In-append_left,
  In-append_right, Option-cases, Bool-cases,
}
use dra_linux_networks.Net.{
  Ip4, IsIp4, to_u32, of_u32, parse_ip4, parse_ip4-IsIp4, to_u32-of_u32, of_u32-to_u32, to_u32-lt,
}
use dra_linux_networks.Config.{IpRange}
use dra_linux_networks.Ipam.Ranges.{
  addresses_have, between_ends, ip_in_ranges, count_up, max_u32, expand_addresses, expand_ip_range,
}

-- Two addresses with the same value are the same address.
pub to_u32_injective : (x y : Ip4) → IsIp4 x → IsIp4 y → to_u32 x ≡ to_u32 y → x ≡ y
to_u32_injective x y hx hy e = sym (of_u32-to_u32 x hx) ∙ ap of_u32 e ∙ of_u32-to_u32 y hy

of_u32-eq_iff : (v : ℕ) (ip : Ip4) → v < 2 ^ 32 → IsIp4 ip → (of_u32 v ≡ ip) ↔ (v ≡ to_u32 ip)
of_u32-eq_iff v ip hv hi =
    (λ e. sym (to_u32-of_u32 v hv) ∙ ap to_u32 e, λ e. ap of_u32 e ∙ of_u32-to_u32 ip hi)

-- The values of a list of addresses are those from `lo` to `hi`.
abbrev Spans : ℕ → ℕ → List Ip4 → Type 0
Spans lo hi ips = (ip : Ip4) → IsIp4 ip → In ip ips ↔ ((lo ≤ to_u32 ip) × (to_u32 ip ≤ hi))

-- With enough rounds the loop ends, and has listed the range.
count_up_lem :
    (fuel current last : ℕ)
    → last + 1 - current < fuel
    → last < 2 ^ 32
    → current < 2 ^ 32
    → (ips : List Ip4) × (count_up fuel current last ≡ some ips) × Spans current last ips
unfolding count_up
count_up_lem zero current last enough hl hc = absurd (omega arith)
count_up_lem (suc fuel) current last enough hl hc = elim (Bool-cases (leb current last)) [
  | inr above ↦ ([], ground arith, λ ip h. (λ m. elim m [ ], λ b. absurd (ground arith)))
  | inl below ↦ elim (Bool-cases (eqb current max_u32)) [
    | inl top ↦ (
      of_u32 current ∷ [],
      ground arith,
      λ ip h. ground (arith, to_u32-lt ip h, of_u32-eq_iff current ip hc h),
    )
    | inr under ↦
        let (ips, run, spans) =
          count_up_lem fuel ((current + 1) % 2 ^ 32) last (ground arith) hl (omega arith) in
        (
          of_u32 current ∷ ips,
          ground (arith, run),
          λ ip h. ground (arith, spans ip h, of_u32-eq_iff current ip hc h),
        )
  ]
]

-- The addresses of the list that are IPv4, and no other.
In-expand_addresses :
    (texts : List String) (ip : Ip4)
    → IsIp4 ip
    → In ip (expand_addresses texts) ↔ (addresses_have (to_u32 ip) texts ≡ true)
unfolding expand_addresses addresses_have
In-expand_addresses [] ip h = (λ m. elim m [ ], λ e. cc)
In-expand_addresses (s ∷ texts) ip h = elim (Option-cases (parse_ip4 s)) [
  | inl not_ip4 ↦ ground (arith, In-expand_addresses texts ip h)
  | inr (v, parsed) ↦
      ground (
        arith,
        In-expand_addresses texts ip h,
        to_u32_injective v ip (parse_ip4-IsIp4 s v parsed) h,
      )
]

-- Membership in one range, as the two tests of `ipInRanges` read it.
abbrev pub InRange : ℕ → IpRange → Type 0
InRange value r = (addresses_have value r.addresses ≡ true) ⊎ (between_ends value r ≡ true)

-- The expansion of a range always ends, and an address of four bytes is listed exactly when it
-- passes one of the two tests of `ipInRanges` for the range.
pub expand_ip_range_lem :
    (r : IpRange)
    → (ips : List Ip4) × (expand_ip_range r ≡ some ips)
      × ((ip : Ip4) → IsIp4 ip → In ip ips ↔ InRange (to_u32 ip) r)
unfolding expand_ip_range between_ends
expand_ip_range_lem r = elim (Bool-cases (r.range_start == "" || r.range_end == "")) [
  | inl open_end ↦ (
    expand_addresses r.addresses,
    ground arith,
    λ ip h. ground (arith, In-expand_addresses r.addresses ip h),
  )
  | inr both ↦ elim (Option-cases (parse_ip4 r.range_start)) [
    | inl bad ↦ (
      expand_addresses r.addresses,
      ground arith,
      λ ip h. ground (arith, In-expand_addresses r.addresses ip h),
    )
    | inr (start, s_ok) ↦ elim (Option-cases (parse_ip4 r.range_end)) [
      | inl bad ↦ (
        expand_addresses r.addresses,
        ground arith,
        λ ip h. ground (arith, In-expand_addresses r.addresses ip h),
      )
      | inr (end, e_ok) ↦
          let (between, run, spans) =
            count_up_lem (suc (to_u32 end + 1 - to_u32 start)) (to_u32 start) (to_u32 end)
              (omega arith) (to_u32-lt end (parse_ip4-IsIp4 _ end e_ok))
              (to_u32-lt start (parse_ip4-IsIp4 _ start s_ok)) in
          (
            expand_addresses r.addresses ++ between,
            ground (arith, run),
            λ ip h. ground (
              arith,
              In-expand_addresses r.addresses ip h,
              spans ip h,
              In-append ip (expand_addresses r.addresses) between,
              In-append_left ip (expand_addresses r.addresses) between,
              In-append_right ip (expand_addresses r.addresses) between,
            ),
          )
    ]
  ]
]

-- An address is listed by the expansion of one of the ranges.
abbrev pub Covered : Ip4 → List IpRange → Type 0
Covered ip [] = ⊥
Covered ip (r ∷ ranges) =
    ((ips : List Ip4) × (expand_ip_range r ≡ some ips) × In ip ips) ⊎ Covered ip ranges

-- `ipInRanges` accepts an address of four bytes exactly when `expandIPRange` lists it for one of
-- the ranges.
pub ip_in_ranges_iff_Covered :
    (ip : Ip4) (ranges : List IpRange)
    → IsIp4 ip
    → (ip_in_ranges ip ranges ≡ true) ↔ Covered ip ranges
unfolding ip_in_ranges
ip_in_ranges_iff_Covered ip [] h = (λ e. cc, λ m. elim m [ ])
ip_in_ranges_iff_Covered ip (r ∷ ranges) h =
    let (ips, run, listed) = expand_ip_range_lem r in
    ground (arith, run, listed ip h, ip_in_ranges_iff_Covered ip ranges h)
