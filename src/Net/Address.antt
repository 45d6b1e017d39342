-- ===== src/Net/Address.antt =====
-- IPv4 addresses: the four bytes of a `net.IP` after `To4`, `binary.BigEndian` on them, the
-- dotted text of `IP.String`, and the parser of `net/netip` for that text.
use dra_linux_networks.Prelude.{
  ℕ, ◌+◌, ◌-◌, ◌*◌, ◌/◌, ◌%◌, ◌^◌, ◌<◌, code, String, ◌<>◌, ◌≡◌, refl, ◌&&◌, ◌||◌, Option, none,
  some, List, [], ◌∷◌, ◌++◌, arith, eqb, ltb, if◌then◌else◌,
}
use dra_linux_networks.Prelude.Decimal.{itoa, is_digit}

pub record Ip4 : Type 0 where
  pub a : ℕ
  pub b : ℕ
  pub c : ℕ
  pub d : ℕ

-- Each of the four is a byte.
pub record IsIp4 (ip : Ip4) : Type 0 where
  pub a_lt : ip.a < 256
  pub b_lt : ip.b < 256
  pub c_lt : ip.c < 256
  pub d_lt : ip.d < 256

-- `binary.BigEndian.Uint32`
unfoldable pub to_u32 : Ip4 → ℕ
to_u32 ip = ip.a * 2 ^ 24 + ip.b * 2 ^ 16 + ip.c * 2 ^ 8 + ip.d

-- `binary.BigEndian.PutUint32`: each byte is a conversion to `byte` of a shifted value.
unfoldable pub of_u32 : ℕ → Ip4
of_u32 v = record { a = v / 2 ^ 24 % 256; b = v / 2 ^ 16 % 256; c = v / 2 ^ 8 % 256; d = v % 256 }

-- `IP.String` of an IPv4 address
unfoldable pub ip_string : Ip4 → String
ip_string ip = itoa ip.a <> ("." <> (itoa ip.b <> ("." <> (itoa ip.c <> ("." <> itoa ip.d)))))

-- The end of the four fields.
unfoldable pub finish4 : List ℕ → ℕ → Option Ip4
finish4 (a ∷ b ∷ c ∷ []) d = some (record { a = a; b = b; c = c; d = d })
finish4 _ d = none

-- The loop of `parseIPv4Fields`: `val` is the value of the current field and `dig_len` the
-- number of its digits.
unfoldable pub fields4 : String → ℕ → ℕ → List ℕ → Option Ip4
unfolding is_digit finish4
fields4 String.[] val dig_len fields = if eqb dig_len 0 then none else finish4 fields val
fields4 (String.◌∷◌ ch s) val dig_len fields =
    let val' = val * 10 + (code ch - 48) in
    let more = fields4 s val' (dig_len + 1) fields in
    let next = fields4 s 0 0 (fields ++ (val ∷ [])) in
    if is_digit ch
    then (if (eqb dig_len 1 && eqb val 0) || ltb 255 val' then none else more)
    else if eqb (code ch) 46
    then (if eqb dig_len 0 then none else next)
    else none

unfoldable pub parse_ipv4 : String → Option Ip4
unfolding fields4
parse_ipv4 s = fields4 s 0 0 []

pub to_u32-of_u32 : (v : ℕ) → v < 2 ^ 32 → to_u32 (of_u32 v) ≡ v
unfolding to_u32 of_u32
to_u32-of_u32 v h = omega arith

-- `uint32ToIP` gives an address of four bytes back from the number that `ipToUint32` gives for it.
pub of_u32-to_u32 : (ip : Ip4) → IsIp4 ip → of_u32 (to_u32 ip) ≡ ip
unfolding to_u32 of_u32
of_u32-to_u32 ip h = λ i. record { a = a_eq i; b = b_eq i; c = c_eq i; d = d_eq i }
  where
    a_eq : (of_u32 (to_u32 ip)).a ≡ ip.a
    a_eq = omega arith

    b_eq : (of_u32 (to_u32 ip)).b ≡ ip.b
    b_eq = omega arith

    c_eq : (of_u32 (to_u32 ip)).c ≡ ip.c
    c_eq = omega arith

    d_eq : (of_u32 (to_u32 ip)).d ≡ ip.d
    d_eq = omega arith

pub of_u32-IsIp4 : (v : ℕ) → IsIp4 (of_u32 v)
unfolding of_u32
of_u32-IsIp4 v = omega arith

pub to_u32-lt : (ip : Ip4) → IsIp4 ip → to_u32 ip < 2 ^ 32
unfolding to_u32
to_u32-lt ip h = omega arith

-- Every field that has been read is a byte.
abbrev AllBytes : List ℕ → Type 0
AllBytes [] = Unit
AllBytes (x ∷ xs) = (x < 256) × AllBytes xs

AllBytes-concat : (xs : List ℕ) (v : ℕ) → AllBytes xs → v < 256 → AllBytes (xs ++ (v ∷ []))
AllBytes-concat [] v h k = (k, tt)
AllBytes-concat (x ∷ xs) v h k = (h.0, AllBytes-concat xs v h.1 k)

finish4-IsIp4 :
    (fields : List ℕ) (d : ℕ) (ip : Ip4)
    → AllBytes fields
    → d < 256
    → finish4 fields d ≡ some ip
    → IsIp4 ip
unfolding finish4
finish4-IsIp4 (a ∷ b ∷ c ∷ []) d ip h k e = ground arith
finish4-IsIp4 _ d ip h k e = cc

fields4-IsIp4 :
    (s : String) (val dig_len : ℕ) (fields : List ℕ) (ip : Ip4)
    → AllBytes fields
    → val < 256
    → fields4 s val dig_len fields ≡ some ip
    → IsIp4 ip
unfolding fields4
fields4-IsIp4 String.[] val dig_len fields ip h k e = finish4-IsIp4 fields val ip h k (ground arith)
fields4-IsIp4 (String.◌∷◌ ch s) val dig_len fields ip h k e = ground (
  arith,
  fields4-IsIp4 s (val * 10 + (code ch - 48)) (dig_len + 1) fields ip h,
  fields4-IsIp4 s 0 0 (fields ++ (val ∷ [])) ip (AllBytes-concat fields val h k),
)

pub parse_ipv4-IsIp4 : (s : String) (ip : Ip4) → parse_ipv4 s ≡ some ip → IsIp4 ip
unfolding parse_ipv4
parse_ipv4-IsIp4 s ip e = fields4-IsIp4 s 0 0 [] ip tt (omega arith) e

parse_test : parse_ipv4 "192.168.88.11" ≡ some (record { a = 192; b = 168; c = 88; d = 11 })
unfolding parse_ipv4
parse_test = refl

parse_bad : (parse_ipv4 "192.168.88" ≡ none) × (parse_ipv4 "1.2.3.04" ≡ none)
unfolding parse_ipv4
parse_bad = (refl, refl)
