-- ===== src/Ipam/Ranges.antt =====
-- `validateIPRanges`, `ipInRanges`, `expandIPRange` and `normalizeRequestedAddress`.
pub mod Expand
pub mod Valid
use dra_linux_networks.Prelude.{
  ℕ, zero, suc, ◌+◌, ◌-◌, ◌*◌, ◌/◌, ◌%◌, ◌^◌, ◌≤◌, ◌<◌, String, ◌<>◌, ◌≡◌, refl, Bool, true, false,
  ◌&&◌, ◌||◌, not, Option, none, some, List, [], ◌∷◌, ◌++◌, arith, eqb, ltb, leb, ◌==◌,
  if◌then◌else◌, Result, ok, err, ◌>>=◌, ◌>>◌,
}
use dra_linux_networks.Net.{Ip4, to_u32, of_u32, IpNet, contains_ip, parse_ip4}
use dra_linux_networks.Config.{IpRange}

-- Which list of a pool is checked.
pub data RangeKind : Type 0 where
  allocation reservation : RangeKind

-- The errors, with the values that their texts show.
pub data IpamError : Type 0 where
  must_be_ipv4 : String → RangeKind → ℕ → String → IpamError
  address_outside : String → RangeKind → ℕ → String → IpamError
  range_not_ipv4 : String → RangeKind → ℕ → IpamError
  range_outside : String → RangeKind → ℕ → String → String → IpamError
  range_order : String → RangeKind → ℕ → IpamError

-- The inner loop over the addresses of a range.
validate_addresses : String → IpNet → RangeKind → ℕ → List String → Result IpamError (Unit {0})
validate_addresses pool_name subnet kind i [] = ok tt
validate_addresses pool_name subnet kind i (address ∷ rest) = elim (parse_ip4 address) [
  | none ↦ err (must_be_ipv4 pool_name kind i address)
  | some ip ↦
      if contains_ip subnet ip
      then validate_addresses pool_name subnet kind i rest
      else err (address_outside pool_name kind i address)
]

-- The checks of the two ends.
validate_ends : String → IpNet → RangeKind → ℕ → IpRange → Result IpamError (Unit {0})
validate_ends pool_name subnet kind i r =
    if r.range_start == "" && r.range_end == "" then ok tt else elim (parse_ip4 r.range_start) [
      | none ↦ err (range_not_ipv4 pool_name kind i)
      | some start ↦ elim (parse_ip4 r.range_end) [
        | none ↦ err (range_not_ipv4 pool_name kind i)
        | some end ↦
            if not (contains_ip subnet start) || not (contains_ip subnet end)
            then err (range_outside pool_name kind i r.range_start r.range_end)
            else if ltb (to_u32 end) (to_u32 start)
            then err (range_order pool_name kind i)
            else ok tt
      ]
    ]

-- The loop of `validateIPRanges`, from index `i`.
validate_from : String → IpNet → RangeKind → ℕ → List IpRange → Result IpamError (Unit {0})
validate_from pool_name subnet kind i [] = ok tt
validate_from pool_name subnet kind i (r ∷ ranges) = do
  validate_addresses pool_name subnet kind i r.addresses
  validate_ends pool_name subnet kind i r
  validate_from pool_name subnet kind (i + 1) ranges

unfoldable pub validate_ip_ranges :
    String → IpNet → RangeKind → List IpRange → Result IpamError (Unit {0})
unfolding validate_addresses validate_ends validate_from
validate_ip_ranges pool_name subnet kind ranges = validate_from pool_name subnet kind 0 ranges

-- Whether an address of the list has this value.
pub addresses_have : ℕ → List String → Bool
addresses_have value [] = false
addresses_have value (address ∷ rest) = elim (parse_ip4 address) [
  | none ↦ addresses_have value rest
  | some parsed ↦ if eqb (to_u32 parsed) value then true else addresses_have value rest
]

-- Whether the value lies between the two ends.
pub between_ends : ℕ → IpRange → Bool
between_ends value r =
    if r.range_start == "" || r.range_end == "" then false else elim (parse_ip4 r.range_start) [
      | none ↦ false
      | some start ↦ elim (parse_ip4 r.range_end) [
        | none ↦ false
        | some end ↦ leb (to_u32 start) value && leb value (to_u32 end)
      ]
    ]

-- The loop of `ipInRanges`.
value_in_ranges : ℕ → List IpRange → Bool
value_in_ranges value [] = false
value_in_ranges value (r ∷ ranges) =
    if addresses_have value r.addresses
    then true
    else if between_ends value r
    then true
    else value_in_ranges value ranges

unfoldable pub ip_in_ranges : Ip4 → List IpRange → Bool
unfolding addresses_have between_ends value_in_ranges
ip_in_ranges ip ranges = value_in_ranges (to_u32 ip) ranges

abbrev max_u32 : ℕ
max_u32 = 2 ^ 32 - 1

-- The loop `for current <= last`, in uint32 with its wrap-around and its break at the largest
-- value. `none` means that the rounds ran out.
count_up : ℕ → ℕ → ℕ → Option (List Ip4)
count_up zero current last = none
count_up (suc fuel) current last = elim (leb current last) [
  | false ↦ some []
  | true ↦ elim (eqb current max_u32) [
    | true ↦ some (of_u32 current ∷ [])
    | false ↦ elim (count_up fuel ((current + 1) % 2 ^ 32) last) [
      | none ↦ none
      | some ips ↦ some (of_u32 current ∷ ips)
    ]
  ]
]

-- The addresses of the list that are IPv4.
expand_addresses : List String → List Ip4
expand_addresses [] = []
expand_addresses (address ∷ rest) = elim (parse_ip4 address) [
  | none ↦ expand_addresses rest
  | some ip ↦ ip ∷ expand_addresses rest
]

-- `expandIPRange`. The loop makes at most `end - start + 1` rounds and the last test.
unfoldable pub expand_ip_range : IpRange → Option (List Ip4)
unfolding expand_addresses count_up
expand_ip_range r =
    let ips = expand_addresses r.addresses in
    if r.range_start == "" || r.range_end == "" then some ips else elim (parse_ip4 r.range_start) [
      | none ↦ some ips
      | some start ↦ elim (parse_ip4 r.range_end) [
        | none ↦ some ips
        | some end ↦
            elim (count_up (suc (to_u32 end + 1 - to_u32 start)) (to_u32 start) (to_u32 end)) [
              | none ↦ none
              | some between ↦ some (ips ++ between)
            ]
      ]
    ]
