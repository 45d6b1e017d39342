-- ===== src/Prelude/Text.antt =====
-- Go's package strings, as far as the program uses it. Letters are changed in case within
-- ASCII, which is what the kernel's sysfs files and Kubernetes names hold.
use Prim.Native.Nat.{ℕ, ◌-◌, ◌<◌}
use Prim.Native.Char.{Char, code}
use Prim.Native.String.{String, char_at, ◌++◌}
use mathlib.Core.Path.{◌≡◌, refl, sym, ap, ap₂, ◌∙◌}
use mathlib.Core.Logic.{inl, inr}
use mathlib.Core.Bool.{Bool, true, false, not, ◌&&◌, ◌||◌}
use mathlib.Core.Option.{Option, none, some}
use mathlib.Core.List.{List}
use native.Mathlib.Omega.{arith}
use text.Mathlib.Text.{◌==◌}
use dra_linux_networks.Prelude.Tests.{
  leb, eqb, if◌then◌else◌, Bool-cases, all_below, all_below_sound,
}

unfoldable pub is_upper : Char → Bool
is_upper c = leb 65 (code c) && leb (code c) 90

unfoldable pub is_lower : Char → Bool
is_lower c = leb 97 (code c) && leb (code c) 122

lower_of : ℕ → Char
lower_of i = char_at "abcdefghijklmnopqrstuvwxyz" i

upper_of : ℕ → Char
upper_of i = char_at "ABCDEFGHIJKLMNOPQRSTUVWXYZ" i

unfoldable pub lower_char : Char → Char
unfolding is_upper lower_of
lower_char c = if is_upper c then lower_of (code c - 65) else c

unfoldable pub upper_char : Char → Char
unfolding is_lower upper_of
upper_char c = if is_lower c then upper_of (code c - 97) else c

-- `strings.ToLower`
unfoldable pub to_lower : String → String
unfolding lower_char
to_lower String.[] = String.[]
to_lower (String.◌∷◌ c s) = String.◌∷◌ (lower_char c) (to_lower s)

-- `strings.ToUpper`
unfoldable pub to_upper : String → String
unfolding upper_char
to_upper String.[] = String.[]
to_upper (String.◌∷◌ c s) = String.◌∷◌ (upper_char c) (to_upper s)

-- `unicode.IsSpace`
unfoldable pub is_space : Char → Bool
is_space c =
    let n = code c in
    (leb 9 n && leb n 13)
    || eqb n 32
    || eqb n 0x85
    || eqb n 0xa0
    || eqb n 0x1680
    || (leb 0x2000 n && leb n 0x200a)
    || eqb n 0x2028
    || eqb n 0x2029
    || eqb n 0x202f
    || eqb n 0x205f
    || eqb n 0x3000

unfoldable pub trim_left : String → String
unfolding is_space
trim_left String.[] = String.[]
trim_left (String.◌∷◌ c s) = let rest = trim_left s in if is_space c then rest else String.◌∷◌ c s

unfoldable pub trim_right : String → String
unfolding is_space
trim_right String.[] = String.[]
trim_right (String.◌∷◌ c s) =
    let rest = trim_right s in if rest == "" && is_space c then String.[] else String.◌∷◌ c rest

-- `strings.TrimSpace`
unfoldable pub trim_space : String → String
unfolding trim_left trim_right
trim_space s = trim_right (trim_left s)

-- What follows a prefix, if the text has it.
unfoldable pub strip_prefix : String → String → Option String
strip_prefix String.[] s = some s
strip_prefix (String.◌∷◌ c p) String.[] = none
strip_prefix (String.◌∷◌ c p) (String.◌∷◌ d s) =
    let rest = strip_prefix p s in if eqb (code c) (code d) then rest else none

-- `strings.HasPrefix(s, prefix)`
unfoldable pub has_prefix : String → String → Bool
unfolding strip_prefix
has_prefix s prefix = elim (strip_prefix prefix s) [ none ↦ false | some _ ↦ true ]

-- `strings.TrimPrefix(s, prefix)`
unfoldable pub trim_prefix : String → String → String
unfolding strip_prefix
trim_prefix s prefix = elim (strip_prefix prefix s) [ none ↦ s | some rest ↦ rest ]

-- `strings.ReplaceAll(s, old, new)`, where `old` is the character with this number.
unfoldable pub replace_all : String → ℕ → String → String
replace_all String.[] old new = String.[]
replace_all (String.◌∷◌ c s) old new =
    let rest = replace_all s old new in if eqb (code c) old then new ++ rest else String.◌∷◌ c rest

has_code : String → ℕ → Bool
has_code String.[] n = false
has_code (String.◌∷◌ c s) n = eqb (code c) n || has_code s n

-- `strings.ContainsAny(s, chars)`
unfoldable pub contains_any : String → String → Bool
unfolding has_code
contains_any String.[] chars = false
contains_any (String.◌∷◌ c s) chars = has_code chars (code c) || contains_any s chars

-- `strings.Join(parts, separator)`
unfoldable pub join : List String → String → String
join List.[] separator = ""
join (List.◌∷◌ p List.[]) separator = p
join (List.◌∷◌ p ps) separator = p ++ (separator ++ join ps separator)

lower_of_table : all_below 26 (λ i. not (is_upper (lower_of i))) ≡ true
unfolding all_below is_upper lower_of
lower_of_table = refl

-- A lowered letter is not an upper-case letter.
lower_of-not_upper : (i : ℕ) → i < 26 → is_upper (lower_of i) ≡ false
lower_of-not_upper i h =
    ground (arith, all_below_sound 26 (λ i. not (is_upper (lower_of i))) i lower_of_table h)

upper_range : (c : Char) → is_upper c ≡ true → code c - 65 < 26
unfolding is_upper
upper_range c h = ground arith

lower_char_up : (c : Char) → is_upper c ≡ true → lower_char c ≡ lower_of (code c - 65)
unfolding lower_char
lower_char_up c h = ground (arith, h)

lower_char_other : (c : Char) → is_upper c ≡ false → lower_char c ≡ c
unfolding lower_char
lower_char_other c h = ground (arith, h)

lower_char_idem : (c : Char) → lower_char (lower_char c) ≡ lower_char c
lower_char_idem c = elim (Bool-cases (is_upper c)) [
  | inl up ↦
      rw (lower_char_up c up)
        (lower_char_other _ (lower_of-not_upper (code c - 65) (upper_range c up)))
  | inr low ↦ rw (lower_char_other c low) (lower_char_other c low)
]

pub to_lower_idem : (s : String) → to_lower (to_lower s) ≡ to_lower s
unfolding to_lower
to_lower_idem String.[] = refl
to_lower_idem (String.◌∷◌ c s) = ap₂ String.◌∷◌ (lower_char_idem c) (to_lower_idem s)

lower_test : to_lower "0x8086-ABZ" ≡ "0x8086-abz"
unfolding to_lower
lower_test = refl

trim_test : trim_space " \t a b\n" ≡ "a b"
unfolding trim_space
trim_test = refl

replace_test : replace_all "eth1.100" 46 "-" ≡ "eth1-100"
unfolding replace_all
replace_test = refl

trim_left_keeps :
    (c : Char) (s : String) → is_space c ≡ false → trim_left (String.◌∷◌ c s) ≡ String.◌∷◌ c s
unfolding trim_left
trim_left_keeps c s h = ap (λ b. if b then trim_left s else String.◌∷◌ c s) h

and_false : (b : Bool) → b && false ≡ false
and_false true = refl
and_false false = refl

trim_right_keeps :
    (c : Char) (s : String)
    → is_space c ≡ false
    → trim_right (String.◌∷◌ c s) ≡ String.◌∷◌ c (trim_right s)
unfolding trim_right
trim_right_keeps c s h =
    let rest = trim_right s in
    ap (λ b. if rest == "" && b then String.[] else String.◌∷◌ c rest) h
    ∙ ap (λ b. if b then String.[] else String.◌∷◌ c rest) (and_false (rest == ""))

cons_not_empty : (c : Char) (s : String) → String.◌∷◌ c s ≡ "" → ⊥
cons_not_empty c s e = cc

-- A text that does not begin with a space is not blank.
pub trim_space-nonblank :
    (c : Char) (s : String) → is_space c ≡ false → trim_space (String.◌∷◌ c s) ≡ "" → ⊥
unfolding trim_space
trim_space-nonblank c s h e =
    cons_not_empty c (trim_right s)
      (sym (ap trim_right (trim_left_keeps c s h) ∙ trim_right_keeps c s h) ∙ e)
