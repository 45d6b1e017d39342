-- ===== src/Store/Reserve.antt =====
-- `ReserveIP`: one address for each claim, and the first one stays.
use dra_linux_networks.Prelude.{
  String, ◌≡◌, refl, ap, ◌∙◌, arith, ◌==◌, eq_iff, ok, some, none, Option, subst, Bool-cases, ◌&&◌,
  Option-cases, inl, inr,
}
use dra_linux_networks.Prelude.Dict.{Dict, lookup, insert, lookup-insert, lookup-insert_self}
use dra_linux_networks.Driver.{IpAllocation}
use dra_linux_networks.Store.{
  Store, Faults, reserve_ip, reserve_over, persist_locked, allocation_for_claim,
}

-- Writing the file changes no state in memory.
pub persist-state : (io : Faults) (s : Store) → (persist_locked io s).1.state ≡ s.state
unfolding persist_locked
persist-state io s = ground arith

-- What the file system answers does not matter to what is reserved.
pub allocation-persist :
    (io : Faults) (claim : String) (s : Store)
    → allocation_for_claim claim (persist_locked io s).1 ≡ allocation_for_claim claim s
unfolding allocation_for_claim
allocation-persist io claim s = ap (λ t. lookup claim t.ip_allocations) (persist-state io s)

-- The entries that are left, by what the claim has.
abbrev Left : IpAllocation → Option IpAllocation → Dict IpAllocation → Dict IpAllocation → Type 0
Left entry (some current) before after = after ≡ before
Left entry none before after = after ≡ insert entry.claim_uid entry before

reserve_over-Left :
    (io : Faults) (entry : IpAllocation) (o : Option IpAllocation) (s : Store)
    → Left entry o s.state.ip_allocations (reserve_over io entry o s).1.state.ip_allocations
unfolding reserve_over
reserve_over-Left io entry none s = ap (λ t. t.ip_allocations) (persist-state io _)
reserve_over-Left io entry (some current) s =
    let both = current.pool == entry.pool && current.address == entry.address in
    elim (Bool-cases both) [ inl same ↦ rw same refl | inr differs ↦ rw differs refl ]

reserve_over-same :
    (io : Faults) (entry current : IpAllocation) (s : Store)
    → (reserve_over io entry (some current) s).0 ≡ ok tt
    → (current.pool ≡ entry.pool) × (current.address ≡ entry.address)
unfolding reserve_over
reserve_over-same io entry current s h =
    ground (arith, eq_iff current.pool entry.pool, eq_iff current.address entry.address)

module _ (io : Faults) (pool address claim pod : String) (s : Store) where
  abbrev entry : IpAllocation
  entry = record { pool = pool; address = address; claim_uid = claim; pod_uid = pod }

  abbrev old : Dict IpAllocation
  old = s.state.ip_allocations

  abbrev new : Dict IpAllocation
  new = (reserve_ip io pool address claim pod s).1.state.ip_allocations

  reserve_ip-Left : {o : Option IpAllocation} → lookup claim old ≡ o → Left entry o old new
  unfolding reserve_ip
  reserve_ip-Left e = subst (λ o. Left entry o old new) e (reserve_over-Left io entry _ s)

  -- A reservation that succeeds leaves the claim with this pool and this address, whether it is
  -- new or was there before.
  pub reserve_ip-ok :
      (reserve_ip io pool address claim pod s).0 ≡ ok tt
      → (a : IpAllocation) × (allocation_for_claim claim (reserve_ip io pool address claim pod s).1
          ≡ some a)
        × (a.pool ≡ pool)
        × (a.address ≡ address)
  unfolding reserve_ip allocation_for_claim
  reserve_ip-ok h = elim (Option-cases (lookup claim old)) [
    | inl free ↦ (
      entry,
      ap (lookup claim) (reserve_ip-Left free) ∙ lookup-insert_self claim entry old,
      refl,
      refl,
    )
    | inr (a, taken) ↦
        let same =
          reserve_over-same io entry a s
            (subst (λ o. (reserve_over io entry o s).0 ≡ ok tt) taken h) in
        (a, ap (lookup claim) (reserve_ip-Left taken) ∙ taken, same.0, same.1)
  ]

  -- Whatever the answer, a claim that has an address keeps it.
  pub reserve_ip-keeps :
      (other : String) (a : IpAllocation)
      → allocation_for_claim other s ≡ some a
      → allocation_for_claim other (reserve_ip io pool address claim pod s).1 ≡ some a
  unfolding allocation_for_claim
  reserve_ip-keeps other a h = elim (Option-cases (lookup claim old)) [
    | inl free ↦
        ap (lookup other) (reserve_ip-Left free)
        ∙ lookup-insert claim other entry old
        ∙ ground (arith, eq_iff claim other)
    | inr (b, taken) ↦ ap (lookup other) (reserve_ip-Left taken) ∙ h
  ]

reserve_over-pods :
    (io : Faults) (entry : IpAllocation) (found : Option IpAllocation) (s : Store)
    → (reserve_over io entry found s).1.state.pods ≡ s.state.pods
unfolding reserve_over
reserve_over-pods io entry (some current) s = ground (arith)
reserve_over-pods io entry none s = ap (λ t. t.pods) (persist-state io _)

-- A reservation leaves the pods alone.
pub reserve_ip-pods :
    (io : Faults) (pool address claim_uid pod_uid : String) (s : Store)
    → (reserve_ip io pool address claim_uid pod_uid s).1.state.pods ≡ s.state.pods
unfolding reserve_ip
reserve_ip-pods io pool address claim_uid pod_uid s =
    reserve_over-pods io _ (lookup claim_uid s.state.ip_allocations) s
