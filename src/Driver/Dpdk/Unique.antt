-- ===== src/Driver/Dpdk/Unique.antt =====
-- `uniqueSorted`, before the sort: the values are distinct, and none is empty or the excluded one.
use dra_linux_networks.Prelude.{
  String, ◌≡◌, ◌≢◌, refl, ap, true, false, ◌||◌, List, [], ◌∷◌, arith, ◌==◌, eq_iff, eq_refl,
  contains, trim_space, to_lower, All, Bool-cases, inl, inr,
}
use dra_linux_networks.Driver.Dpdk.{unique}

-- No value stands twice.
abbrev pub AreDistinct : List String → Type 0
AreDistinct [] = Unit
AreDistinct (v ∷ values) = (contains values v ≡ false) × AreDistinct values

unique-seen :
    (excluded : String) (seen values : List String) (v : String)
    → contains seen v ≡ true
    → contains (unique excluded seen values) v ≡ false
unfolding unique
unique-seen excluded seen [] v h = refl
unique-seen excluded seen (raw ∷ values) v h =
    let value = to_lower (trim_space raw) in
    elim (Bool-cases (value == "" || value == to_lower excluded || contains seen value)) [
      | inl skip ↦ rw (skip, unique) (unique-seen excluded seen values v h)
      | inr take ↦
          let new : contains seen value ≡ false = ground arith in
          let other : value == v ≡ false =
            ground (arith, eq_iff value v, ap (contains seen) {x = value} {y = v}) in
          let later : value == v || contains seen v ≡ true = ground arith in
          rw (take, unique) (rw other (unique-seen excluded (value ∷ seen) values v later))
    ]

-- The values that `uniqueSorted` sorts are distinct, and none is empty or the excluded value.
pub unique-AreDistinct :
    (excluded : String) (seen values : List String)
    → AreDistinct (unique excluded seen values)
      × All (λ v. (v ≢ "") × (v ≢ to_lower excluded)) (unique excluded seen values)
unfolding unique
unique-AreDistinct excluded seen [] = (tt, tt)
unique-AreDistinct excluded seen (raw ∷ values) =
    let value = to_lower (trim_space raw) in
    elim (Bool-cases (value == "" || value == to_lower excluded || contains seen value)) [
      | inl skip ↦ rw (skip, unique) (unique-AreDistinct excluded seen values)
      | inr take ↦
          let (distinct, proper) = unique-AreDistinct excluded (value ∷ seen) values in
          rw (take, unique)
            (
              (
                unique-seen excluded (value ∷ seen) values value (rw (eq_refl value) refl),
                distinct,
              ),
              (
                (
                  λ e. ground (arith, eq_iff value ""),
                  λ e. ground (arith, eq_iff value (to_lower excluded)),
                ),
                proper,
              ),
            )
    ]
