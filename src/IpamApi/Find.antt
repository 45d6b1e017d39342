-- ===== src/IpamApi/Find.antt =====
-- `FindForClaim` finds a record of the claim exactly when there is one.
use dra_linux_networks.Prelude.{
  String, ◌≡◌, refl, ap, subst, sym, ◌∙◌, false, Option, some, none, List, [], ◌∷◌, arith, Result,
  ok, err, ◌==◌, eq_iff, Bool-cases, inl, inr, In, Result-cases,
}
use dra_linux_networks.Kube.{
  Fields, Accessors, ip_allocations, ApiError, not_found, is_not_found, Server, IsUndisturbed,
}
use dra_linux_networks.IpamApi.{Allocation, parse_allocation, find_item, after_find, find_for_claim}
use dra_linux_networks.IpamApi.Cleanup.{IsForeign, not_found_of}

module _ (A : Accessors) (S : Server) (U : IsUndisturbed A S) (claim_uid : String) where
  -- The answer is right of a list: a record of the claim that is listed, or there is none.
  abbrev Answers : List Fields → Option Allocation → Type 0
  Answers items (some a) =
      (o : Fields) × In o items × (parse_allocation A o ≡ ok a) × (a.claim.uid ≡ claim_uid)
  Answers items none = (o : Fields) → In o items → IsForeign A S U claim_uid o

  Answers-cons :
      (x : Fields) (items : List Fields) (r : Option Allocation)
      → IsForeign A S U claim_uid x
      → Answers items r
      → Answers (x ∷ items) r
  Answers-cons x items (some a) f (o, h, p, c) = (o, inr h, p, c)
  Answers-cons x items none f all = λ o h. elim h [
    | inl same ↦ λ a p. f a (ap (parse_allocation A) same ∙ p)
    | inr later ↦ all o later
  ]

  find_item-Answers : (items : List Fields) → Answers items (find_item A S claim_uid items)
  unfolding find_item
  find_item-Answers [] = λ o h. elim h [ ]
  find_item-Answers (x ∷ items) = elim (Result-cases (parse_allocation A x)) [
    | inr (e, bad) ↦
        rw (bad, find_item) (Answers-cons x items _ (λ a p. cc) (find_item-Answers items))
    | inl (a, good) ↦ elim (Bool-cases (a.claim.uid == claim_uid)) [
      | inl mine ↦ rw (good, find_item, mine) (x, inl refl, good, (eq_iff _ _).0 mine)
      | inr other ↦
          rw (good, find_item, other)
            (Answers-cons x items _ (λ b p. ground (arith, eq_iff a.claim.uid claim_uid))
              (find_item-Answers items))
    ]
  ]

  -- The answer is right of the cluster: a stored record of the claim, or there is none.
  abbrev pub IsFound : S.World → Option Allocation → Type 0
  IsFound w (some a) =
      (n : String) × (o : Fields) × (S.stored w ip_allocations n ≡ some o)
      × (parse_allocation A o ≡ ok a)
      × (a.claim.uid ≡ claim_uid)
  IsFound w none =
      (n : String) (o : Fields) → S.stored w ip_allocations n ≡ some o → IsForeign A S U claim_uid o

  IsFound-of_items :
      (w w' : S.World) (items : List Fields) (r : Option Allocation)
      → S.list ip_allocations w ≡ (ok items, w')
      → Answers items r
      → IsFound w r
  IsFound-of_items w w' items (some a) listed (o, h, p, c) =
      (A.get_name o, o, U.list_all ip_allocations w w' items listed o h, p, c)
  IsFound-of_items w w' items none listed all =
      λ n o s. all o (U.list_complete ip_allocations w w' items listed n o s)

  abbrev value_of : Result ApiError (Option Allocation) × S.World → Option Allocation × S.World
  value_of (ok r, w) = (r, w)
  value_of (err e, w) = (none, w)

  abbrev IsRight : S.World → Option Allocation × S.World → Type 0
  IsRight w (r, w') = IsFound w' r × (w' ≡ w)

  list_kept : (w : S.World) → (S.list ip_allocations w).1 ≡ w
  list_kept w =
      U.list_keeps ip_allocations w (S.list ip_allocations w).1 (S.list ip_allocations w).0 refl

  items-IsRight :
      (w : S.World) (items : List Fields)
      → (S.list ip_allocations w).0 ≡ ok items
      → IsRight w (value_of (find_for_claim A S claim_uid w))
  unfolding find_for_claim
  items-IsRight w items e =
      let listed : S.list ip_allocations w ≡ (ok items, w) = λ i. (e i, list_kept w i) in
      subst (λ a. IsRight w (value_of (after_find A S claim_uid a))) (sym listed)
        (
          IsFound-of_items w w items (find_item A S claim_uid items) listed
              (find_item-Answers items),
          refl,
        )

  missing-IsRight :
      (w : S.World)
      → (S.list ip_allocations w).0 ≡ err not_found
      → IsRight w (value_of (find_for_claim A S claim_uid w))
  unfolding find_for_claim
  missing-IsRight w e =
      let listed : S.list ip_allocations w ≡ (err not_found, w) = λ i. (e i, list_kept w i) in
      subst (λ a. IsRight w (value_of (after_find A S claim_uid a))) (sym listed)
        (λ n o s. absurd (cc (U.list_missing ip_allocations n w w listed)), refl)

  other_fault :
      (w w' : S.World) (r : Option Allocation) (f : ApiError)
      → (S.list ip_allocations w).0 ≡ err f
      → is_not_found f ≡ false
      → find_for_claim A S claim_uid w ≡ (ok r, w')
      → ⊥
  unfolding find_for_claim
  other_fault w w' r f e fault run = ground arith

  -- When `FindForClaim` succeeds and no other client writes, it changes nothing and answers with a
  -- stored record of the claim, or with `false` when no stored object is one.
  pub find_for_claim-IsFound :
      (w w' : S.World) (r : Option Allocation)
      → find_for_claim A S claim_uid w ≡ (ok r, w')
      → IsFound w' r × (w' ≡ w)
  find_for_claim-IsFound w w' r run =
      subst (IsRight w) (ap value_of run) (elim (Result-cases (S.list ip_allocations w).0) [
        | inl (items, e) ↦ items-IsRight w items e
        | inr (f, e) ↦ elim (Bool-cases (is_not_found f)) [
          | inl missing ↦ missing-IsRight w (e ∙ ap err (not_found_of f missing))
          | inr fault ↦ absurd (other_fault w w' r f e fault run)
        ]
      ])
