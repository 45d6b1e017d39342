-- ===== src/Prelude/Decimal.antt =====
-- Go's package strconv: `Itoa` of a number that is not negative, and `Atoi`.
use Prim.Native.Nat.{ℕ, zero, suc, ◌+◌, ◌-◌, ◌*◌, ◌/◌, ◌%◌, ◌<◌}
use Prim.Native.Char.{Char, code}
use Prim.Native.String.{String, char_at}
use mathlib.Core.Path.{◌≡◌, refl}
use mathlib.Core.Bool.{Bool, true, false, ◌&&◌}
use mathlib.Core.Option.{Option, none, some}
use mathlib.Core.Bool.{not}
use native.Mathlib.Omega.{arith}
use dra_linux_networks.Prelude.Tests.{ltb, leb, if◌then◌else◌, all_below, all_below_sound}
use dra_linux_networks.Prelude.Text.{is_space}

unfoldable pub digit : ℕ → Char
digit d = char_at "0123456789" d

unfoldable pub is_digit : Char → Bool
is_digit c = leb 48 (code c) && leb (code c) 57

-- One round for each decimal place; a number has at most as many places as its value plus one.
unfoldable pub itoa_from : ℕ → ℕ → String → String
unfolding digit
itoa_from zero n out = out
itoa_from (suc fuel) n out =
    let out' = String.◌∷◌ (digit (n % 10)) out in
    elim (ltb n 10) [ true ↦ out' | false ↦ itoa_from fuel (n / 10) out' ]

-- `strconv.Itoa`, `%d`
unfoldable pub itoa : ℕ → String
unfolding itoa_from
itoa n = itoa_from (n + 1) n ""

unfoldable pub atoi_from : String → ℕ → Option ℕ
unfolding is_digit
atoi_from String.[] n = some n
atoi_from (String.◌∷◌ c s) n =
    let rest = atoi_from s (n * 10 + (code c - 48)) in if is_digit c then rest else none

-- The digits of a number, with no sign.
unfoldable pub parse_digits : String → Option ℕ
unfolding atoi_from
parse_digits String.[] = none
parse_digits (String.◌∷◌ c s) = atoi_from (String.◌∷◌ c s) 0

itoa_test : itoa 10250 ≡ "10250"
unfolding itoa
itoa_test = refl

atoi_test : parse_digits "0250" ≡ some 250
unfolding parse_digits
atoi_test = refl

digits_checked : all_below 10 (λ d. not (is_space (digit d))) ≡ true
unfolding all_below is_space digit
digits_checked = refl

pub is_space-digit : (d : ℕ) → d < 10 → is_space (digit d) ≡ false
is_space-digit d h =
    ground (arith, all_below_sound 10 (λ d. not (is_space (digit d))) d digits_checked h)
