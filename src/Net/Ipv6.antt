-- ===== src/Net/Ipv6.antt =====
-- The parser of `net/netip` for IPv6 text, into the sixteen bytes. A zone is refused, as
-- `net.ParseIP` and `net.ParseCIDR` do.
use dra_linux_networks.Prelude.{
  ℕ, zero, suc, ◌+◌, ◌-◌, ◌*◌, ◌/◌, ◌%◌, code, Char, String, ◌≡◌, refl, Bool, true, false, ◌&&◌,
  ◌||◌, Option, none, some, List, [], ◌∷◌, ◌++◌, eqb, ltb, leb, if◌then◌else◌, length,
}
use dra_linux_networks.Net.Address.{parse_ipv4}

hex_value : Char → Option ℕ
hex_value ch =
    let n = code ch in
    if leb 48 n && leb n 57
    then some (n - 48)
    else if leb 97 n && leb n 102
    then some (n - 87)
    else if leb 65 n && leb n 70
    then some (n - 55)
    else none

-- The digits at the head of a field: how many, their value, and what follows; `none` for more
-- than four digits.
hex_field : String → ℕ → ℕ → Option (ℕ × ℕ × String)
hex_field String.[] off acc = some (off, acc, "")
hex_field (String.◌∷◌ ch s) off acc = elim (hex_value ch) [
  | none ↦ some (off, acc, String.◌∷◌ ch s)
  | some d ↦ if ltb 3 off then none else hex_field s (off + 1) (acc * 16 + d)
]

zeros : ℕ → List ℕ
zeros zero = []
zeros (suc n) = 0 ∷ zeros n

take : ℕ → List ℕ → List ℕ
take zero xs = []
take (suc n) [] = []
take (suc n) (x ∷ xs) = x ∷ take n xs

drop : ℕ → List ℕ → List ℕ
drop zero xs = xs
drop (suc n) [] = []
drop (suc n) (x ∷ xs) = drop n xs

-- The expansion of the ellipsis, which must stand for one field at least.
expand6 : List ℕ → Option ℕ → Option (List ℕ)
unfolding take drop zeros
expand6 bytes none = if eqb (length bytes) 16 then some bytes else none
expand6 bytes (some e) =
    if ltb (length bytes) 16
    then some (take e bytes ++ (zeros (16 - length bytes) ++ drop e bytes))
    else none

embedded4 : String → List ℕ → Option ℕ → Option (List ℕ)
unfolding expand6
embedded4 s bytes ellipsis = elim (parse_ipv4 s) [
  | none ↦ none
  | some ip ↦ expand6 (bytes ++ (ip.a ∷ ip.b ∷ ip.c ∷ ip.d ∷ [])) ellipsis
]

is_some : Option ℕ → Bool
is_some none = false
is_some (some _) = true

-- What follows a field of two bytes: the end, one more field, or an ellipsis.
pub data After : Type 0 where
  finished : After
  wrong : After
  field : String → After
  ellipsis_end : After
  ellipsis_field : String → After

after : String → After
after String.[] = finished
after (String.◌∷◌ ch String.[]) = wrong
after (String.◌∷◌ ch (String.◌∷◌ dh s)) =
    if eqb (code ch) 58
    then (if eqb (code dh) 58
        then (if eqb (length_of s) 0 then ellipsis_end else ellipsis_field s)
        else field (String.◌∷◌ dh s))
    else wrong
  where
    length_of : String → ℕ
    length_of String.[] = 0
    length_of (String.◌∷◌ _ _) = 1

starts_with_dot : String → Bool
starts_with_dot String.[] = false
starts_with_dot (String.◌∷◌ ch s) = eqb (code ch) 46

-- The loop over the fields. There are eight fields at most, so nine rounds are enough.
fields6 : ℕ → String → List ℕ → Option ℕ → Option (List ℕ)
fields6 zero s bytes ellipsis = none
fields6 (suc fuel) s bytes ellipsis = elim (ltb (length bytes) 16) [
  | false ↦ none
  | true ↦ elim (hex_field s 0 0) [
    | none ↦ none
    | some (zero, acc, rest) ↦ none
    | some (suc off, acc, rest) ↦ elim (starts_with_dot rest) [
      | true ↦
          if ltb 16 (length bytes + 4) || (not_some ellipsis && ltb (length bytes) 12)
          then none
          else embedded4 s bytes ellipsis
      | false ↦
          let bytes' = bytes ++ (acc / 256 ∷ acc % 256 ∷ []) in
          elim (after rest) [
            | finished ↦ expand6 bytes' ellipsis
            | wrong ↦ none
            | field r ↦ fields6 fuel r bytes' ellipsis
            | ellipsis_end ↦
                if is_some ellipsis then none else expand6 bytes' (some (length bytes'))
            | ellipsis_field r ↦ elim (is_some ellipsis) [
              | true ↦ none
              | false ↦ fields6 fuel r bytes' (some (length bytes'))
            ]
          ]
    ]
  ]
]
  where
    not_some : Option ℕ → Bool
    not_some none = true
    not_some (some _) = false

-- `parseIPv6`
unfoldable pub parse_ipv6 : String → Option (List ℕ)
unfolding fields6 hex_field hex_value expand6 embedded4 after starts_with_dot is_some parse_ipv4
parse_ipv6 (String.◌∷◌ c (String.◌∷◌ d String.[])) =
    if eqb (code c) 58 && eqb (code d) 58 then some (zeros 16) else none
parse_ipv6 (String.◌∷◌ c (String.◌∷◌ d (String.◌∷◌ e s))) =
    if eqb (code c) 58 && eqb (code d) 58
    then fields6 9 (String.◌∷◌ e s) [] (some 0)
    else fields6 9 (String.◌∷◌ c (String.◌∷◌ d (String.◌∷◌ e s))) [] none
parse_ipv6 _ = none

ipv6_test :
    parse_ipv6 "fd00:1::a"
    ≡ some (253 ∷ 0 ∷ 0 ∷ 1 ∷ 0 ∷ 0 ∷ 0 ∷ 0 ∷ 0 ∷ 0 ∷ 0 ∷ 0 ∷ 0 ∷ 0 ∷ 0 ∷ 10 ∷ [])
unfolding parse_ipv6
ipv6_test = refl

ipv6_mapped :
    parse_ipv6 "::ffff:10.0.0.1"
    ≡ some (0 ∷ 0 ∷ 0 ∷ 0 ∷ 0 ∷ 0 ∷ 0 ∷ 0 ∷ 0 ∷ 0 ∷ 255 ∷ 255 ∷ 10 ∷ 0 ∷ 0 ∷ 1 ∷ [])
unfolding parse_ipv6
ipv6_mapped = refl
