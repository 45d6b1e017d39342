-- ===== src/Net/Printed.antt =====
-- The text of an address is not blank: it begins with a digit.
use text.Mathlib.TextLemmas.{cons-append}
use dra_linux_networks.Prelude.{
  ℕ, zero, suc, ◌+◌, ◌/◌, ◌%◌, String, ◌<>◌, ◌≡◌, ◌≢◌, sym, subst, true, false, arith, ltb,
  is_space, trim_space, trim_space-nonblank, Bool-cases, inl, inr,
}
use dra_linux_networks.Prelude.Decimal.{itoa, itoa_from, digit, is_space-digit}
use dra_linux_networks.Net.Address.{Ip4, ip_string}

-- The first character is there and is not a space.
abbrev Begins : String → Type 0
Begins String.[] = ⊥
Begins (String.◌∷◌ c s) = is_space c ≡ false

itoa_from-Begins : (fuel n : ℕ) (out : String) → Begins out → Begins (itoa_from fuel n out)
unfolding itoa_from
itoa_from-Begins zero n out h = h
itoa_from-Begins (suc fuel) n out h =
    let out' = String.◌∷◌ (digit (n % 10)) out in
    let begins = is_space-digit (n % 10) (omega arith) in
    elim (Bool-cases (ltb n 10)) [
      | inl last ↦
          subst (λ b. Begins (elim b [ true ↦ out' | false ↦ itoa_from fuel (n / 10) out' ]))
            (sym last) begins
      | inr more ↦
          subst (λ b. Begins (elim b [ true ↦ out' | false ↦ itoa_from fuel (n / 10) out' ]))
            (sym more) (itoa_from-Begins fuel (n / 10) out' begins)
    ]

itoa_from-Begins_first : (fuel n : ℕ) (out : String) → Begins (itoa_from (suc fuel) n out)
unfolding itoa_from
itoa_from-Begins_first fuel n out =
    let out' = String.◌∷◌ (digit (n % 10)) out in
    let begins = is_space-digit (n % 10) (omega arith) in
    elim (Bool-cases (ltb n 10)) [
      | inl last ↦
          subst (λ b. Begins (elim b [ true ↦ out' | false ↦ itoa_from fuel (n / 10) out' ]))
            (sym last) begins
      | inr more ↦
          subst (λ b. Begins (elim b [ true ↦ out' | false ↦ itoa_from fuel (n / 10) out' ]))
            (sym more) (itoa_from-Begins fuel (n / 10) out' begins)
    ]

itoa-Begins : (n : ℕ) → Begins (itoa n)
unfolding itoa itoa_from
itoa-Begins n =
    let one_more : suc n ≡ n + 1 = omega arith in
    subst (λ k. Begins (itoa_from k n "")) one_more (itoa_from-Begins_first n n "")

Begins-append : (s t : String) → Begins s → Begins (s <> t)
Begins-append String.[] t h = elim h [ ]
Begins-append (String.◌∷◌ c s) t h = subst Begins (sym (cons-append c s t)) h

Begins-trim : (s : String) → Begins s → trim_space s ≢ ""
Begins-trim String.[] h = elim h [ ]
Begins-trim (String.◌∷◌ c s) h = trim_space-nonblank c s h

-- An address with a prefix length is not blank.
pub trim_space-ip_string : (ip : Ip4) (rest : String) → trim_space (ip_string ip <> rest) ≢ ""
unfolding ip_string
trim_space-ip_string ip rest =
    Begins-trim _ (Begins-append _ rest (Begins-append (itoa ip.a) _ (itoa-Begins ip.a)))
