-- ===== src/Ipam/Apply/Dynamic.antt =====
-- `reserveDynamicAddress`: what is known of the address that it returns.
use dra_linux_networks.Prelude.{
  ℕ, String, ◌<>◌, ◌≡◌, ◌≢◌, refl, ap, ◌∙◌, sym, subst, false, none, some, List, [], ◌∷◌, arith,
  eqb, ok, inl, inr, In, Bool-cases, Result-cases, Option-cases, trim_space,
}
use dra_linux_networks.Prelude.Decimal.{itoa}
use dra_linux_networks.Net.{Ip4, to_u32, ip_string, IpNet, trim_space-ip_string}
use dra_linux_networks.Kube.{Fields, Accessors, IsAccessors, Server, IsLinearizable}
use dra_linux_networks.IpamApi.{ObjectReference, failed_exists, reserve}
use dra_linux_networks.IpamApi.Exclusive.{Holds, reserve-Holds}
use dra_linux_networks.Config.{IpRange, IpPool}
use dra_linux_networks.Ipam.Ranges.{ip_in_ranges, expand_ip_range}
use dra_linux_networks.Ipam.Ranges.Expand.{Covered}
use dra_linux_networks.Ipam.Apply.{
  expanded, requested, reserve_cluster_address, try_ips, try_ranges, reserve_dynamic_address,
}

expanded-Covered :
    (ip : Ip4) (r : IpRange) (ranges : List IpRange) → In ip (expanded r) → Covered ip (r ∷ ranges)
unfolding expanded
expanded-Covered ip r ranges h = elim (Option-cases (expand_ip_range r)) [
  | inl out ↦ ground arith
  | inr (ips, run) ↦ inl (ips, run, ground arith)
]

module _ (A : Accessors) (L : IsAccessors A) (S : Server) (M : IsLinearizable A S)
    (sha256 : String → List ℕ) (node : String) (claim pod : ObjectReference)
    (named : claim.uid ≢ "") where
  -- The cluster records the address for the claim.
  abbrev pub IsRecorded : S.World → String → String → String → Type 0
  IsRecorded w pool address kind =
      (o : Fields) × Holds A L S M sha256 w (requested A S sha256 node claim pod pool address kind)
        o

  pub reserve_cluster_address-ok :
      (pool address kind : String) (w : S.World)
      → trim_space pool ≢ ""
      → trim_space address ≢ ""
      → (reserve_cluster_address A S sha256 node claim pod pool address kind w).0 ≡ ok tt
      → IsRecorded
          (reserve_cluster_address A S sha256 node claim pod pool address kind w).1
          pool
          address
          kind
  unfolding reserve_cluster_address requested
  reserve_cluster_address-ok pool address kind w p a h =
      let wanted = requested A S sha256 node claim pod pool address kind in
      elim (Result-cases (reserve A S sha256 wanted w).0) [
        | inl (o, made) ↦ (
          o,
          reserve-Holds A L S M sha256 wanted o w _ (record { pool = p; address = a; uid = named })
              (λ i. (made i, (reserve A S sha256 wanted w).1)),
        )
        | inr (e, failed) ↦ absurd (ground arith)
      ]

  -- An address of the list `ips` that is not reserved for static use, as the pool's text.
  abbrev pub IsChosen : IpPool → ℕ → List Ip4 → String → Type 0
  IsChosen pool ones ips address =
      (ip : Ip4) × In ip ips
      × (ip_in_ranges ip pool.reservations ≡ false)
      × (address ≡ ip_string ip <> ("/" <> itoa ones))

  try_ips-ok :
      (pool : IpPool) (ones : ℕ) (ips : List Ip4) (address : String) (w w' : S.World)
      → trim_space pool.name ≢ ""
      → try_ips A S sha256 node claim pod pool ones ips w ≡ (ok (some address), w')
      → IsChosen pool ones ips address × IsRecorded w' pool.name address "Dynamic"
  unfolding try_ips
  try_ips-ok pool ones [] address w w' n h = absurd (ground arith)
  try_ips-ok pool ones (ip ∷ ips) address w w' n h =
      let text = ip_string ip <> ("/" <> itoa ones) in
      let call = reserve_cluster_address A S sha256 node claim pod pool.name text "Dynamic" w in
      elim (Bool-cases (ip_in_ranges ip pool.reservations)) [
        | inl kept ↦
            let (chosen, held) = try_ips-ok pool ones ips address w w' n (ground arith) in
            ((chosen.0, inr chosen.1, chosen.2, chosen.3), held)
        | inr free ↦ elim (Result-cases call.0) [
          | inl (u, made) ↦
              let same : text ≡ address = ground arith in
              let after : call.1 ≡ w' = ground arith in
              let held =
                reserve_cluster_address-ok pool.name text "Dynamic" w n (trim_space-ip_string ip _)
                  (ground arith) in
              (
                (ip, inl refl, free, sym same),
                subst (λ v. IsRecorded v pool.name address "Dynamic") after
                    (subst (λ s. IsRecorded call.1 pool.name s "Dynamic") same held),
              )
          | inr (e, failed) ↦ elim (Bool-cases (failed_exists e)) [
            | inl exists ↦ elim (Bool-cases (eqb (to_u32 ip) 0xffffffff)) [
              | inl last ↦ absurd (ground arith)
              | inr more ↦
                  let (chosen, held) =
                    try_ips-ok pool ones ips address call.1 w' n (ground arith) in
                  ((chosen.0, inr chosen.1, chosen.2, chosen.3), held)
            ]
            | inr other ↦ absurd (ground arith)
          ]
        ]
      ]

  -- The address is of an allocation range and not reserved for static use.
  abbrev pub IsDynamic : IpPool → ℕ → List IpRange → String → Type 0
  IsDynamic pool ones ranges address =
      (ip : Ip4) × Covered ip ranges
      × (ip_in_ranges ip pool.reservations ≡ false)
      × (address ≡ ip_string ip <> ("/" <> itoa ones))

  try_ranges-ok :
      (pool : IpPool) (ones : ℕ) (ranges : List IpRange) (address : String) (w w' : S.World)
      → trim_space pool.name ≢ ""
      → try_ranges A S sha256 node claim pod pool ones ranges w ≡ (ok address, w')
      → IsDynamic pool ones ranges address × IsRecorded w' pool.name address "Dynamic"
  unfolding try_ranges
  try_ranges-ok pool ones [] address w w' n h = absurd (ground arith)
  try_ranges-ok pool ones (r ∷ ranges) address w w' n h =
      let call = try_ips A S sha256 node claim pod pool ones (expanded r) w in
      elim (Result-cases call.0) [
        | inl (some found, e) ↦
            let same : found ≡ address = ground arith in
            let after : call.1 ≡ w' = ground arith in
            let run : call ≡ (ok (some address), w') =
              λ i. ((e ∙ ap (λ s. ok (some s)) same) i, after i) in
            let (chosen, held) = try_ips-ok pool ones (expanded r) address w w' n run in
            ((chosen.0, expanded-Covered chosen.0 r ranges chosen.1, chosen.2, chosen.3), held)
        | inl (none, e) ↦
            let (found, held) = try_ranges-ok pool ones ranges address call.1 w' n (ground arith) in
            ((found.0, inr found.1, found.2, found.3), held)
        | inr (e, failed) ↦ absurd (ground arith)
      ]

  -- An address that `reserveDynamicAddress` returns is one of an allocation range of the pool and
  -- of none of its reservations, with the prefix length of the subnet, and the cluster holds it for
  -- this claim. The pool must have a name that is not blank, the claim a UID, and the server must be
  -- linearizable; other clients may write between the calls.
  pub reserve_dynamic_address-ok :
      (pool : IpPool) (subnet : IpNet) (address : String) (w w' : S.World)
      → trim_space pool.name ≢ ""
      → reserve_dynamic_address A S sha256 node claim pod pool subnet w ≡ (ok address, w')
      → IsDynamic pool subnet.ones pool.allocations address
        × IsRecorded w' pool.name address "Dynamic"
  unfolding reserve_dynamic_address
  reserve_dynamic_address-ok pool subnet address w w' n h =
      try_ranges-ok pool subnet.ones pool.allocations address w w' n h
