-- ===== src/Controller/Counts.antt =====
-- `Reconcile`: the numbers that it counts are those of the allocations whose claim is there.
use dra_linux_networks.Prelude.{
  ℕ, ◌+◌, String, ◌≡◌, refl, ap, ap₂, ◌∙◌, sym, subst, Bool, true, false, not, ◌&&◌, none, some,
  List, [], ◌∷◌, arith, ◌==◌, eq_iff, if◌then◌else◌, Result, ok, err, from_ok, inl, inr, Bool-cases,
  Result-cases,
}
use dra_linux_networks.Prelude.Dict.{Dict, lookup, lookup-insert}
use dra_linux_networks.Kube.{
  Fields, Accessors, ApiError, not_found, Claim, Server, IsUndisturbed, ip_allocations,
}
use dra_linux_networks.IpamApi.{Allocation, ParseError, parse_allocation}
use dra_linux_networks.Controller.{
  PoolCounts, counts_of, bump, add_count, judge_claim, allocation_is_stale, judge_delete,
  delete_allocation, reconcile_items,
}

abbrev pub count_at : String → Dict PoolCounts → PoolCounts
count_at pool counts = counts_of (lookup pool counts)

-- The three numbers of a pool agree.
abbrev pub AreSums : Dict PoolCounts → Type 0
AreSums counts =
    (pool : String)
    → (count_at pool counts).total ≡ (count_at pool counts).dynamic + (count_at pool counts).static

count_at-add_count :
    (a : Allocation) (pool : String) (counts : Dict PoolCounts)
    → count_at pool (add_count a counts) ≡ (
        if a.pool == pool
        then bump (a.allocation_type == "Static") (count_at pool counts)
        else count_at pool counts)
unfolding add_count
count_at-add_count a pool counts =
    let is_static = a.allocation_type == "Static" in
    let read =
      ap counts_of (lookup-insert a.pool pool (bump is_static (count_at a.pool counts)) counts) in
    elim (Bool-cases (a.pool == pool)) [
      | inl same ↦ rw same (
          (rw same at read)
          ∙ ap (λ p. bump is_static (count_at p counts)) ((eq_iff a.pool pool).0 same))
      | inr other ↦ rw other (rw other at read)
    ]

bump-sum :
    (is_static : Bool) (c : PoolCounts)
    → c.total ≡ c.dynamic + c.static
    → (bump is_static c).total ≡ (bump is_static c).dynamic + (bump is_static c).static
bump-sum true c h = omega arith
bump-sum false c h = omega arith

bump-total : (is_static : Bool) (c : PoolCounts) → (bump is_static c).total ≡ 1 + c.total
bump-total true c = omega arith
bump-total false c = omega arith

add_count-AreSums :
    (a : Allocation) (counts : Dict PoolCounts) → AreSums counts → AreSums (add_count a counts)
add_count-AreSums a counts h pool =
    subst (λ c. c.total ≡ c.dynamic + c.static) (sym (count_at-add_count a pool counts))
      (elim (Bool-cases (a.pool == pool)) [
        | inl same ↦ rw same (bump-sum (a.allocation_type == "Static") _ (h pool))
        | inr other ↦ rw other (h pool)
      ])

module _ (A : Accessors) (S : Server) (U : IsUndisturbed A S) where
  -- The claim of the allocation exists, under its namespace and name and with its UID.
  abbrev pub is_live : S.World → Allocation → Bool
  is_live w a = elim (S.claimed w a.claim.namespace a.claim.name) [
    | none ↦ false
    | some c ↦ c.uid == a.claim.uid
  ]

  judge_claim_lem :
      (a : Allocation) (call : Result ApiError Claim × S.World) (w : S.World) (stale : Bool)
      → S.get_claim a.claim.namespace a.claim.name w ≡ call
      → (judge_claim A S a call).0 ≡ ok stale
      → (stale ≡ not (is_live w a)) × ((judge_claim A S a call).1 ≡ w)
  unfolding judge_claim
  judge_claim_lem a (ok c, w') w stale got h =
      (ground (arith, U.get_claim_found _ _ c w w' got), U.get_claim_keeps _ _ w w' (ok c) got)
  judge_claim_lem a (err not_found, w') w stale got h = (
    ground (arith, U.get_claim_missing _ _ w w' got),
    U.get_claim_keeps _ _ w w' (err not_found) got,
  )
  judge_claim_lem a (err e, w') w stale got h = absurd (ground arith)

  pub judge_delete_world :
      (o : Fields) (call : Result ApiError (Unit {0}) × S.World)
      → (judge_delete A S o call).1 ≡ call.1
  unfolding judge_delete
  judge_delete_world o (ok u, w) = refl
  judge_delete_world o (err e, w) = refl

  -- A deletion of an allocation leaves the claims.
  pub delete_keeps_live :
      (o : Fields) (w : S.World) (a : Allocation)
      → is_live (delete_allocation A S o w).1 a ≡ is_live w a
  unfolding delete_allocation
  delete_keeps_live o w a =
      let call = S.delete ip_allocations (A.get_name o) (A.get_uid o) w in
      let same =
        U.delete_claimed ip_allocations (A.get_name o) (A.get_uid o) a.claim.namespace a.claim.name
          w call.1 call.0 refl in
      ap (λ v. is_live v a) (judge_delete_world o call)
      ∙ ap (λ c. elim c [ none ↦ false | some c ↦ c.uid == a.claim.uid ]) same

  one_live : S.World → String → Result ParseError Allocation → ℕ
  one_live w pool (err e) = 0
  one_live w pool (ok a) = if is_live w a && a.pool == pool then 1 else 0

  -- The number of the items that are allocations of the pool with a live claim.
  pub live_in : S.World → String → List Fields → ℕ
  unfolding one_live
  live_in w pool [] = 0
  live_in w pool (o ∷ items) = one_live w pool (parse_allocation A o) + live_in w pool items

  one_live_keeps :
      (w v : S.World) (pool : String) (r : Result ParseError Allocation)
      → ((a : Allocation) → is_live v a ≡ is_live w a)
      → one_live v pool r ≡ one_live w pool r
  unfolding one_live
  one_live_keeps w v pool (err e) h = refl
  one_live_keeps w v pool (ok a) h = ap (λ b. if b && a.pool == pool then 1 else 0) (h a)

  live_in_keeps :
      (w v : S.World) (pool : String) (items : List Fields)
      → ((a : Allocation) → is_live v a ≡ is_live w a)
      → live_in v pool items ≡ live_in w pool items
  unfolding live_in
  live_in_keeps w v pool [] h = refl
  live_in_keeps w v pool (o ∷ items) h =
      ap₂ (λ m n. m + n) (one_live_keeps w v pool (parse_allocation A o) h)
        (live_in_keeps w v pool items h)

  pub allocation_is_stale-ok :
      (a : Allocation) (w : S.World) (stale : Bool)
      → (allocation_is_stale A S a w).0 ≡ ok stale
      → (stale ≡ not (is_live w a)) × ((allocation_is_stale A S a w).1 ≡ w)
  unfolding allocation_is_stale judge_claim
  allocation_is_stale-ok a w stale h =
      let call = S.get_claim a.claim.namespace a.claim.name w in
      judge_claim_lem a call w stale refl h

  -- What one allocation adds to the count of a pool.
  add_count-total :
      (a : Allocation) (pool : String) (counts : Dict PoolCounts) (w : S.World)
      → is_live w a ≡ true
      → (count_at pool (add_count a counts)).total
        ≡ one_live w pool (ok a) + (count_at pool counts).total
  unfolding one_live
  add_count-total a pool counts w h =
      let step = ap (λ c. c.total) (count_at-add_count a pool counts) in
      let is_static = a.allocation_type == "Static" in
      elim (Bool-cases (a.pool == pool)) [
        | inl same ↦ rw (h, same) ((rw same at step) ∙ bump-total is_static (count_at pool counts))
        | inr other ↦ rw (h, other) ((rw other at step) ∙ omega arith)
      ]

  one_live-err :
      (w : S.World) (pool : String) (r : Result ParseError Allocation) (e : ParseError)
      → r ≡ err e
      → one_live w pool r ≡ 0
  unfolding one_live
  one_live-err w pool r e h = ap (one_live w pool) h

  one_live-dead :
      (w : S.World) (pool : String) (r : Result ParseError Allocation) (a : Allocation)
      → r ≡ ok a
      → is_live w a ≡ false
      → one_live w pool r ≡ 0
  unfolding one_live
  one_live-dead w pool r a h dead =
      ap (one_live w pool) h ∙ ap (λ b. if b && a.pool == pool then 1 else 0) dead

  -- When the loop of `Reconcile` over the listed allocations succeeds, the total of each pool has
  -- grown by the number of the items that are allocations of the pool with a live claim, and in
  -- each pool the total is the sum of the dynamic and the static number. It is required that no
  -- other client writes and that the numbers agree at the start.
  pub reconcile_items-counts :
      (items : List Fields) (counts counts' : Dict PoolCounts) (w w' : S.World)
      → AreSums counts
      → reconcile_items A S items counts w ≡ (ok counts', w')
      → AreSums counts'
        × ((pool : String)
            → (count_at pool counts').total ≡ live_in w pool items + (count_at pool counts).total)
  unfolding reconcile_items live_in
  reconcile_items-counts [] counts counts' w w' h e =
      let same : counts ≡ counts' = ap (λ t. from_ok counts t.0) e in
      (subst AreSums same h, λ pool. omega (arith, ap (λ c. (count_at pool c).total) same))
  reconcile_items-counts (o ∷ items) counts counts' w w' h e =
      let parsed = parse_allocation A o in
      elim (Result-cases parsed) [
        | inr (bad, fails) ↦
            let (sums, totals) =
              reconcile_items-counts items counts counts' w w' h (ground arith) in
            (sums, λ pool. omega (arith, totals pool, one_live-err w pool parsed bad fails))
        | inl (a, good) ↦
            let call = allocation_is_stale A S a w in
            elim (Result-cases call.0) [
              | inr (bad, fails) ↦ absurd (ground arith)
              | inl (true, stale) ↦
                  let (dead, here) = allocation_is_stale-ok a w true stale in
                  let deleted = delete_allocation A S o call.1 in
                  elim (Result-cases deleted.0) [
                    | inr (bad, fails) ↦ absurd (ground arith)
                    | inl (u, done) ↦
                        let (sums, totals) =
                          reconcile_items-counts items counts counts' deleted.1 w' h
                            (ground arith) in
                        (
                          sums,
                          λ pool. omega (
                            arith,
                            totals pool,
                            one_live-dead w pool parsed a good (ground arith),
                            live_in_keeps w deleted.1 pool items
                                (λ b. delete_keeps_live o call.1 b ∙ ap (λ v. is_live v b) here),
                          ),
                        )
                  ]
              | inl (false, live) ↦
                  let (alive, here) = allocation_is_stale-ok a w false live in
                  let (sums, totals) =
                    reconcile_items-counts items (add_count a counts) counts' call.1 w'
                      (add_count-AreSums a counts h) (ground arith) in
                  (
                    sums,
                    λ pool. omega (
                      arith,
                      totals pool,
                      ap (one_live w pool) good,
                      add_count-total a pool counts w (ground arith),
                      ap (λ v. live_in v pool items) here,
                    ),
                  )
            ]
      ]
