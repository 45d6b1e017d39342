-- ===== src/Controller/Live.antt =====
-- `Reconcile`: the record of a claim that is there is never deleted.
use dra_linux_networks.Prelude.{
  String, ◌≡◌, ◌≢◌, refl, ap, ◌∙◌, sym, subst, true, false, none, some, List, [], ◌∷◌, arith,
  Result, ok, err, from_ok, inl, inr, In, Result-cases,
}
use dra_linux_networks.Prelude.Dict.{Dict}
use dra_linux_networks.Kube.{
  Fields, Accessors, ApiError, Claim, Server, IsUndisturbed, ip_allocations,
}
use dra_linux_networks.IpamApi.{Allocation, ParseError, parse_allocation}
use dra_linux_networks.Controller.{
  ControllerError, PoolCounts, add_count, judge_claim, allocation_is_stale, delete_allocation,
  reconcile_items,
}
use dra_linux_networks.Controller.Counts.{
  is_live, allocation_is_stale-ok, judge_delete_world, delete_keeps_live,
}

module _ (A : Accessors) (S : Server) (U : IsUndisturbed A S) where
  judge_claim_world :
      (a : Allocation) (call : Result ApiError Claim × S.World)
      → (judge_claim A S a call).1 ≡ call.1
  unfolding judge_claim
  judge_claim_world a (ok c, w) = refl
  judge_claim_world a (err e, w) = refl

  allocation_is_stale_world : (a : Allocation) (w : S.World) → (allocation_is_stale A S a w).1 ≡ w
  unfolding allocation_is_stale
  allocation_is_stale_world a w =
      let call = S.get_claim a.claim.namespace a.claim.name w in
      judge_claim_world a call ∙ U.get_claim_keeps _ _ w call.1 call.0 refl

  delete_allocation_others :
      (o : Fields) (n : String) (w : S.World)
      → n ≢ A.get_name o
      → S.stored (delete_allocation A S o w).1 ip_allocations n ≡ S.stored w ip_allocations n
  unfolding delete_allocation
  delete_allocation_others o n w h =
      let call = S.delete ip_allocations (A.get_name o) (A.get_uid o) w in
      ap (λ v. S.stored v ip_allocations n) (judge_delete_world A S U o call)
      ∙ U.delete_others ip_allocations (A.get_name o) (A.get_uid o) n w call.1 call.0 refl h

  module _ (n : String) (o : Fields) (a : Allocation) (parses : parse_allocation A o ≡ ok a) where
    -- The object is stored under the name, and its claim is there.
    abbrev pub IsKept : S.World → Type 0
    IsKept w = (S.stored w ip_allocations n ≡ some o) × (is_live A S U w a ≡ true)

    -- An object that is the kept one has a claim that is there.
    clash :
        (x : Fields) (b : Allocation) (w : S.World)
        → x ≡ o
        → parse_allocation A x ≡ ok b
        → is_live A S U w b ≡ false
        → is_live A S U w a ≡ true
        → ⊥
    clash x b w same good dead live =
        let parsed : ◌≡◌ {A = Result ParseError Allocation} (ok b) (ok a) =
          sym good ∙ ap (parse_allocation A) same ∙ parses in
        let b_is_a : b ≡ a = ap (from_ok a) parsed in
        let differ : false ≡ true = sym dead ∙ ap (is_live A S U w) b_is_a ∙ live in cc

    -- The deletion of another object, or of one whose claim is gone, keeps it.
    delete_keeps :
        (x : Fields) (b : Allocation) (w : S.World)
        → (A.get_name x ≡ n → x ≡ o)
        → parse_allocation A x ≡ ok b
        → is_live A S U w b ≡ false
        → IsKept w
        → IsKept (delete_allocation A S x w).1
    delete_keeps x b w only good dead (held, live) = (
      delete_allocation_others x n w (λ same. clash x b w (only (sym same)) good dead live) ∙ held,
      delete_keeps_live A S U x w a ∙ live,
    )

    loop-IsKept :
        (items : List Fields) (counts : Dict PoolCounts) (w w' : S.World)
        (r : Result ControllerError (Dict PoolCounts))
        → ((x : Fields) → In x items → A.get_name x ≡ n → x ≡ o)
        → IsKept w
        → reconcile_items A S items counts w ≡ (r, w')
        → IsKept w'
    unfolding reconcile_items
    loop-IsKept [] counts w w' r only h e = subst IsKept (ap (λ t. t.1) e) h
    loop-IsKept (x ∷ items) counts w w' r only h e = elim (Result-cases (parse_allocation A x)) [
      | inr (bad, fails) ↦ loop-IsKept items counts w w' r (λ y i. only y (inr i)) h (ground arith)
      | inl (b, good) ↦
          let call = allocation_is_stale A S b w in
          let here = allocation_is_stale_world b w in
          let h' = subst IsKept (sym here) h in
          elim (Result-cases call.0) [
            | inr (bad, fails) ↦ subst IsKept (ground arith) h'
            | inl (false, live) ↦
                loop-IsKept items (add_count b counts) call.1 w' r (λ y i. only y (inr i)) h'
                  (ground arith)
            | inl (true, stale) ↦
                let (dead, _) = allocation_is_stale-ok A S U b w true stale in
                let gone : is_live A S U w b ≡ false = ground arith in
                let deleted = delete_allocation A S x call.1 in
                let kept =
                  delete_keeps x b call.1 (only x (inl refl)) good
                    (ap (λ v. is_live A S U v b) here ∙ gone) h' in
                elim (Result-cases deleted.0) [
                  | inr (bad, fails) ↦ subst IsKept (ground arith) kept
                  | inl (u, done) ↦
                      loop-IsKept items counts deleted.1 w' r (λ y i. only y (inr i)) kept
                        (ground arith)
                ]
          ]
    ]

    -- Whatever the loop of `Reconcile` over the listed allocations answers, an allocation whose
    -- claim is there under its namespace, name and UID is still stored, and its claim is still
    -- there, if no other client writes.
    pub reconcile_items-IsKept :
        (items : List Fields) (counts : Dict PoolCounts) (w w' : S.World)
        (r : Result ControllerError (Dict PoolCounts))
        → S.list ip_allocations w ≡ (ok items, w)
        → S.stored w ip_allocations n ≡ some o
        → is_live A S U w a ≡ true
        → reconcile_items A S items counts w ≡ (r, w')
        → IsKept w'
    reconcile_items-IsKept items counts w w' r listed held live e =
        loop-IsKept items counts w w' r
          (λ x i same.
            let found = U.list_all ip_allocations w w items listed x i in
            ap (λ v. elim v [ none ↦ o | some y ↦ y ])
              (sym found ∙ ap (S.stored w ip_allocations) same ∙ held))
          (held, live) e
