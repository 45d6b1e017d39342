-- ===== src/Net/Cidr.antt =====
-- `net.ParseIP`, `net.ParseCIDR`, `IP.To4` and `IPNet.Contains`.
use native.Mathlib.Nat.{div-zero, le-div_iff_mul-le, div-mul-le_self, le_trans}
use dra_linux_networks.Prelude.{
  Option-cases, inl, inr, ap, ◌∙◌, ℕ, zero, suc, ◌+◌, ◌-◌, ◌/◌, ◌%◌, ◌^◌, ◌≤◌, code, String, ◌≡◌,
  refl, Bool, true, false, ◌&&◌, Option, none, some, List, [], ◌∷◌, arith, eqb, ltb, if◌then◌else◌,
}
use dra_linux_networks.Prelude.Decimal.{parse_digits}
use dra_linux_networks.Net.Address.{Ip4, IsIp4, to_u32, parse_ipv4, parse_ipv4-IsIp4}
use dra_linux_networks.Net.Ipv6.{parse_ipv6}

-- A `net.IP`: IPv4 text gives the four bytes (in their mapped form of sixteen), other text the
-- sixteen bytes that were written.
pub data Ip : Type 0 where
  ip4 : Ip4 → Ip
  ip6 : List ℕ → Ip

-- The first of `.`, `:` and `%` chooses the parser.
scan_family : String → String → Option Ip
scan_family whole String.[] = none
scan_family whole (String.◌∷◌ ch s) =
    let rest = scan_family whole s in
    if eqb (code ch) 46
    then (elim (parse_ipv4 whole) [ none ↦ none | some ip ↦ some (ip4 ip) ])
    else if eqb (code ch) 58
    then (elim (parse_ipv6 whole) [ none ↦ none | some bytes ↦ some (ip6 bytes) ])
    else if eqb (code ch) 37
    then none
    else rest

-- `net.ParseIP`; `none` is the nil address.
unfoldable pub parse_ip : String → Option Ip
unfolding scan_family parse_ipv4 parse_ipv6
parse_ip s = scan_family s s

-- `IP.To4`
unfoldable pub to4 : Ip → Option Ip4
to4 (ip4 ip) = some ip
to4 (ip6 (z₀ ∷ z₁ ∷ z₂ ∷ z₃ ∷ z₄ ∷ z₅ ∷ z₆ ∷ z₇ ∷ z₈ ∷ z₉ ∷ f₀ ∷ f₁ ∷ a ∷ b ∷ c ∷ d ∷ [])) =
    if eqb (z₀ + z₁ + z₂ + z₃ + z₄ + z₅ + z₆ + z₇ + z₈ + z₉) 0 && eqb f₀ 255 && eqb f₁ 255
    then some (record { a = a % 256; b = b % 256; c = c % 256; d = d % 256 })
    else none
to4 (ip6 _) = none

-- `net.ParseIP(text).To4()`
unfoldable pub parse_ip4 : String → Option Ip4
unfolding parse_ip to4
parse_ip4 s = elim (parse_ip s) [ none ↦ none | some ip ↦ to4 ip ]

-- A `net.IPNet`: the address, and the mask by its number of leading ones and its length.
pub record IpNet : Type 0 where
  pub ip : Ip
  pub ones : ℕ
  pub bits : ℕ

-- The part of a text before the first slash and the part behind it.
cut_slash : String → Option (String × String)
cut_slash String.[] = none
cut_slash (String.◌∷◌ ch s) =
    let rest = cut_slash s in
    if eqb (code ch) 47
    then some ("", s)
    else (elim rest [ none ↦ none | some (p, q) ↦ some (String.◌∷◌ ch p, q) ])

bit_len : Ip → ℕ
bit_len (ip4 _) = 32
bit_len (ip6 _) = 128

-- `net.ParseCIDR`: the address as written, and its network.
unfoldable pub parse_cidr : String → Option (Ip × IpNet)
unfolding cut_slash bit_len parse_ip parse_digits
parse_cidr s = elim (cut_slash s) [
  | none ↦ none
  | some (addr, mask) ↦ elim (parse_ip addr) [
    | none ↦ none
    | some ip ↦ elim (parse_digits mask) [
      | none ↦ none
      | some n ↦
          if ltb (bit_len ip) n
          then none
          else some (ip, record { ip = ip; ones = n; bits = bit_len ip })
    ]
  ]
]

-- The leading ones of the last four bytes of the mask.
unfoldable pub ones4 : IpNet → ℕ
ones4 net = if eqb net.bits 32 then net.ones else net.ones - 96

-- `IPNet.Contains` of an IPv4 address: the network numbers under the mask are equal. A network
-- that has no IPv4 form contains none.
unfoldable pub contains_ip : IpNet → Ip4 → Bool
unfolding ones4
contains_ip net ip = elim (to4 net.ip) [
  | none ↦ false
  | some nn ↦ eqb (to_u32 nn / 2 ^ (32 - ones4 net)) (to_u32 ip / 2 ^ (32 - ones4 net))
]

to4-IsIp4 : (ip : Ip) (v : Ip4) → ((w : Ip4) → ip ≡ ip4 w → IsIp4 w) → to4 ip ≡ some v → IsIp4 v
unfolding to4
to4-IsIp4 (ip4 ip) v h e = ground (arith, h ip refl)
to4-IsIp4 (ip6 (z₀ ∷ z₁ ∷ z₂ ∷ z₃ ∷ z₄ ∷ z₅ ∷ z₆ ∷ z₇ ∷ z₈ ∷ z₉ ∷ f₀ ∷ f₁ ∷ a ∷ b ∷ c ∷ d ∷ [])) v h
      e =
    ground arith
to4-IsIp4 (ip6 _) v h e = cc

scan_family-IsIp4 : (whole s : String) (w : Ip4) → scan_family whole s ≡ some (ip4 w) → IsIp4 w
unfolding scan_family
scan_family-IsIp4 whole String.[] w e = cc
scan_family-IsIp4 whole (String.◌∷◌ ch s) w e =
    ground (arith, scan_family-IsIp4 whole s w, parse_ipv4-IsIp4 whole w)

parse_ip_scan : (s : String) {o : Option Ip} → parse_ip s ≡ o → scan_family s s ≡ o
unfolding parse_ip
parse_ip_scan s e = e

pub parse_ip4-IsIp4 : (s : String) (v : Ip4) → parse_ip4 s ≡ some v → IsIp4 v
unfolding parse_ip4
parse_ip4-IsIp4 s v e = elim (Option-cases (parse_ip s)) [
  | inl nil_ip ↦ ground arith
  | inr (ip, parsed) ↦
      to4-IsIp4 ip v (λ w same. scan_family-IsIp4 s s w (parse_ip_scan s (parsed ∙ ap some same)))
        (ground arith)
]

div_mono : (k x y : ℕ) → x ≤ y → x / k ≤ y / k
div_mono zero x y h = rw (div-zero x, div-zero y) (omega arith)
div_mono (suc k) x y h =
    (le-div_iff_mul-le (omega arith)).1 (le_trans (div-mul-le_self x (suc k)) h)

squeeze : (n k lo x hi : ℕ) → n ≡ lo / k → n ≡ hi / k → lo ≤ x → x ≤ hi → n ≡ x / k
squeeze n k lo x hi hl hh le ge = omega (arith, div_mono k lo x le, div_mono k x hi ge)

-- A network that contains both ends of a range contains what lies between.
pub contains_between :
    (net : IpNet) (lo ip hi : Ip4)
    → contains_ip net lo ≡ true
    → contains_ip net hi ≡ true
    → to_u32 lo ≤ to_u32 ip
    → to_u32 ip ≤ to_u32 hi
    → contains_ip net ip ≡ true
unfolding contains_ip
contains_between net lo ip hi hl hh le ge = elim (Option-cases (to4 net.ip)) [
  | inl none_form ↦ ground arith
  | inr (nn, form) ↦ ground (
    arith,
    squeeze (to_u32 nn / 2 ^ (32 - ones4 net)) (2 ^ (32 - ones4 net)) (to_u32 lo) (to_u32 ip)
        (to_u32 hi),
  )
]

cidr_test :
    parse_cidr "10.1.0.0/16"
    ≡ some (
      ip4 (record { a = 10; b = 1; c = 0; d = 0 }),
      record { ip = ip4 (record { a = 10; b = 1; c = 0; d = 0 }); ones = 16; bits = 32 },
    )
unfolding parse_cidr
cidr_test = refl
