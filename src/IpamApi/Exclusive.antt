-- ===== src/IpamApi/Exclusive.antt =====
-- An address of a pool is recorded for one claim at a time, whoever writes at the same time.
use dra_linux_networks.Prelude.{
  String, List, ℕ, ◌≡◌, refl, ap, ap₂, subst, sym, ◌∙◌, some, arith, Result, ok, err, eq_iff,
  Bool-cases, inl, inr,
}
use dra_linux_networks.Kube.{
  Fields, Accessors, IsAccessors, ip_allocations, ApiError, is_already_exists, Server,
  IsLinearizable,
}
use dra_linux_networks.IpamApi.{
  Allocation, ParseError, Failure, allocation_name, new_allocation_object, parse_allocation,
  reserve, after_create, after_get, compare_existing,
}
use dra_linux_networks.IpamApi.RoundTrip.{IsComplete, parse_spec_of, name-new_allocation_object}

module _ (A : Accessors) (L : IsAccessors A) (S : Server) (M : IsLinearizable A S)
    (sha256 : String → List ℕ) where
  -- The cluster's record of an allocation: the object of its name, which says the same claim,
  -- pool and address.
  pub record Holds (w : S.World) (a : Allocation) (o : Fields) : Type 0 where
    pub stored : S.stored w ip_allocations (allocation_name sha256 a.pool a.address) ≡ some o
    pub parsed : Allocation
    pub parses : parse_allocation A o ≡ ok parsed
    pub claim : parsed.claim.uid ≡ a.claim.uid
    pub pool : parsed.pool ≡ a.pool
    pub address : parsed.address ≡ a.address

  compare_existing-ok :
      (a : Allocation) (existing o : Fields) (r : Result ParseError Allocation)
      → compare_existing A S a existing r ≡ ok o
      → (existing ≡ o)
        × (p : Allocation) × (r ≡ ok p)
        × (p.claim.uid ≡ a.claim.uid)
        × (p.pool ≡ a.pool)
        × (p.address ≡ a.address)
  unfolding compare_existing
  compare_existing-ok a existing o (err e) h = cc
  compare_existing-ok a existing o (ok p) h = (
    ground arith,
    p,
    refl,
    ground (arith, eq_iff p.claim.uid a.claim.uid),
    ground (arith, eq_iff p.pool a.pool),
    ground (arith, eq_iff p.address a.address),
  )

  after_get-Holds :
      (a : Allocation) (o : Fields) (r : Result ApiError Fields) (w w₀ w' : S.World)
      → S.get ip_allocations (allocation_name sha256 a.pool a.address) w₀ ≡ (r, w)
      → after_get A S a (r, w) ≡ (ok o, w')
      → Holds w' a o
  unfolding after_get
  after_get-Holds a o (err e) w w₀ w' got h = cc
  after_get-Holds a o (ok existing) w w₀ w' got h =
      let (same, p, parses, uid, pool, address) =
        compare_existing-ok a existing o (parse_allocation A existing) (ap (λ t. t.0) h) in
      record {
        stored =
            subst
              (λ v. S.stored v ip_allocations (allocation_name sha256 a.pool a.address) ≡ some o)
              (ap (λ t. t.1) h) (M.get_stored _ _ existing w₀ w got ∙ ap some same);
        parsed = p;
        parses = ap (parse_allocation A) (sym same) ∙ parses;
        claim = uid;
        pool = pool;
        address = address;
      }

  created-Holds :
      (a : Allocation) (o : Fields) (w w' : S.World)
      → IsComplete a
      → S.create ip_allocations (new_allocation_object sha256 a) w ≡ (ok o, w')
      → Holds w' a o
  unfolding new_allocation_object
  created-Holds a o w w' c h =
      let (stored, spec) = M.create_stores ip_allocations _ o w w' h in
      record {
        stored = rw (← name-new_allocation_object A L sha256 a) stored;
        parsed = record a { name = A.get_name o };
        parses = parse_spec_of A L sha256 o a c spec;
        claim = refl;
        pool = refl;
        address = refl;
      }

  -- The answers of the two error types are the same answer.
  same_answer :
      (x y : Fields) (w w' : S.World)
      → ◌≡◌ {A = Result Failure Fields × S.World} (ok x, w) (ok y, w')
      → ◌≡◌ {A = Result ApiError Fields × S.World} (ok x, w) (ok y, w')
  same_answer x y w w' e = ground arith

  after_create-Holds :
      (a : Allocation) (o : Fields) (r : Result ApiError Fields) (w w₀ w' : S.World)
      → IsComplete a
      → S.create ip_allocations (new_allocation_object sha256 a) w₀ ≡ (r, w)
      → after_create A S a (allocation_name sha256 a.pool a.address) (r, w) ≡ (ok o, w')
      → Holds w' a o
  unfolding after_create
  after_create-Holds a o (ok o') w w₀ w' c created h =
      let done : ◌≡◌ {A = Result Failure Fields × S.World} (ok o', w) (ok o, w') = h in
      created-Holds a o w₀ w' c (created ∙ same_answer o' o w w' done)
  after_create-Holds a o (err e) w w₀ w' c failed h = elim (Bool-cases (is_already_exists e)) [
    | inl exists ↦ after_get-Holds a o _ _ w w' refl (rw exists at h)
    | inr other ↦ ground arith
  ]

  -- When `Reserve` succeeds, the cluster holds the object of this pool and address, and it is a
  -- record of this claim, pool and address, whether it was created now or was there before. The
  -- pool and the address must not be blank, the claim must have a UID, and the server must be
  -- linearizable; other clients may write between the calls.
  pub reserve-Holds :
      (a : Allocation) (o : Fields) (w w' : S.World)
      → IsComplete a
      → reserve A S sha256 a w ≡ (ok o, w')
      → Holds w' a o
  unfolding reserve
  reserve-Holds a o w w' c h =
      let answer = S.create ip_allocations (new_allocation_object sha256 a) w in
      after_create-Holds a o answer.0 answer.1 w w' c refl
        (ap (λ n. after_create A S a n answer) (sym (name-new_allocation_object A L sha256 a)) ∙ h)

  -- Two successful reservations of one address of a pool, with the object of the first still
  -- stored when the second has succeeded, are for the same claim. The pool and the address must not
  -- be blank, both claims must have a UID, and the server must be linearizable.
  pub reserve_exclusive :
      (a b : Allocation) (o p : Fields) (w w₁ w₂ w₃ : S.World)
      → IsComplete a
      → IsComplete b
      → a.pool ≡ b.pool
      → a.address ≡ b.address
      → reserve A S sha256 a w ≡ (ok o, w₁)
      → reserve A S sha256 b w₂ ≡ (ok p, w₃)
      → S.stored w₃ ip_allocations (allocation_name sha256 a.pool a.address) ≡ some o
      → a.claim.uid ≡ b.claim.uid
  reserve_exclusive a b o p w w₁ w₂ w₃ ca cb pool address ra rb kept =
      let first = reserve-Holds a o w w₁ ca ra in
      let second = reserve-Holds b p w₂ w₃ cb rb in
      cc (
        kept,
        second.stored,
        ap₂ (allocation_name sha256) pool address,
        first.parses,
        second.parses,
        first.claim,
        second.claim,
      )
