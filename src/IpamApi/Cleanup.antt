-- ===== src/IpamApi/Cleanup.antt =====
-- `DeleteForClaim` removes the records of one claim, and no other.
use dra_linux_networks.Prelude.{
  String, ◌≡◌, ◌≢◌, refl, ap, subst, sym, ◌∙◌, true, false, some, none, List, [], ◌∷◌, arith,
  Result, ok, err, ◌==◌, eq_iff, if◌then◌else◌, Bool-cases, inl, inr, In, Result-cases,
}
use dra_linux_networks.Kube.{
  Fields, Accessors, ip_allocations, ApiError, not_found, is_not_found, Server, IsUndisturbed,
}
use dra_linux_networks.IpamApi.{
  Allocation, parse_allocation, is_of_claim, delete_items, after_list, delete_for_claim,
}

pub not_found_of : (e : ApiError) → is_not_found e ≡ true → e ≡ not_found
not_found_of e h = ground arith

module _ (A : Accessors) (S : Server) (U : IsUndisturbed A S) (claim_uid : String) where
  -- An object that is not a well-formed record of the claim.
  abbrev pub IsForeign : Fields → Type 0
  IsForeign o = (a : Allocation) → parse_allocation A o ≡ ok a → a.claim.uid ≢ claim_uid

  is_of_claim-false :
      (o : Fields) → is_of_claim claim_uid (parse_allocation A o) ≡ false → IsForeign o
  unfolding is_of_claim
  is_of_claim-false o h a e = ground (arith, eq_iff a.claim.uid claim_uid)

  pub IsForeign-false :
      (o : Fields) → IsForeign o → is_of_claim claim_uid (parse_allocation A o) ≡ false
  unfolding is_of_claim
  IsForeign-false o f = elim (Result-cases (parse_allocation A o)) [
    | inl (a, parses) ↦ ground (arith, f a parses, eq_iff a.claim.uid claim_uid)
    | inr (e, fails) ↦ rw fails
  ]

  -- Each stored record of the claim is still to come in the list.
  abbrev Listed : List Fields → S.World → Type 0
  Listed items w =
      (n : String) (o : Fields)
      → S.stored w ip_allocations n ≡ some o
      → is_of_claim claim_uid (parse_allocation A o) ≡ true
      → In o items

  Listed-skip :
      (x : Fields) (items : List Fields) (w : S.World)
      → is_of_claim claim_uid (parse_allocation A x) ≡ false
      → Listed (x ∷ items) w
      → Listed items w
  Listed-skip x items w other listed n o s mine = elim (listed n o s mine) [
    | inl same ↦ cc
    | inr later ↦ later
  ]

  Listed-delete :
      (x : Fields) (items : List Fields) (w w' : S.World) (r : Result ApiError (Unit {0}))
      → S.delete ip_allocations (A.get_name x) (A.get_uid x) w ≡ (r, w')
      → S.stored w' ip_allocations (A.get_name x) ≡ none
      → Listed (x ∷ items) w
      → Listed items w'
  Listed-delete x items w w' r deleted gone listed n o s mine =
      elim (Bool-cases (n == A.get_name x)) [
        | inl same ↦ absurd (cc ((eq_iff n (A.get_name x)).0 same))
        | inr other ↦
            let n≢x : n ≢ A.get_name x = λ e. cc ((eq_iff n (A.get_name x)).1 e) in
            let s' : S.stored w ip_allocations n ≡ some o =
              sym (U.delete_others ip_allocations _ _ n w w' r deleted n≢x) ∙ s in
            elim (listed n o s' mine) [
              | inl same ↦
                  absurd
                    (n≢x (sym (U.stored_name w ip_allocations n o s') ∙ ap A.get_name (sym same)))
              | inr later ↦ later
            ]
      ]

  -- The ways in which a round of the loop goes.
  data Round (x : Fields) (items : List Fields) (w : S.World) : Type 0 where
    skipped :
        is_of_claim claim_uid (parse_allocation A x) ≡ false
        → delete_items A S claim_uid (x ∷ items) w ≡ delete_items A S claim_uid items w
        → Round x items w
    removed :
        (r : Result ApiError (Unit {0})) (w' : S.World)
        → is_of_claim claim_uid (parse_allocation A x) ≡ true
        → S.delete ip_allocations (A.get_name x) (A.get_uid x) w ≡ (r, w')
        → S.stored w' ip_allocations (A.get_name x) ≡ none
        → delete_items A S claim_uid (x ∷ items) w ≡ delete_items A S claim_uid items w'
        → Round x items w
    stopped :
        (e : ApiError) (w' : S.World)
        → is_of_claim claim_uid (parse_allocation A x) ≡ true
        → S.delete ip_allocations (A.get_name x) (A.get_uid x) w ≡ (err e, w')
        → delete_items A S claim_uid (x ∷ items) w ≡ (err e, w')
        → Round x items w

  round : (x : Fields) (items : List Fields) (w : S.World) → Round x items w
  unfolding delete_items
  round x items w = elim (Bool-cases (is_of_claim claim_uid (parse_allocation A x))) [
    | inr other ↦ skipped other (ground arith)
    | inl mine ↦
        let answer = S.delete ip_allocations (A.get_name x) (A.get_uid x) w in
        elim (Result-cases answer.0) [
          | inl (u, e) ↦
              let deleted : answer ≡ (ok u, answer.1) = ap (λ r. (r, answer.1)) e in
              removed (ok u) answer.1 mine deleted (U.delete_removes _ _ _ w _ u deleted)
                (ground (arith, mine, e))
          | inr (f, e) ↦
              let failed : answer ≡ (err f, answer.1) = ap (λ r. (r, answer.1)) e in
              elim (Bool-cases (is_not_found f)) [
                | inl missing ↦
                    removed (err f) answer.1 mine failed
                      (U.delete_missing _ _ _ w _
                        (failed ∙ ap (λ g. (err g, answer.1)) (not_found_of f missing)))
                      (ground (arith, mine, e, missing))
                | inr fault ↦ stopped f answer.1 mine failed (ground (arith, mine, e, fault))
              ]
        ]
  ]

  delete_items-nil : (w : S.World) → delete_items A S claim_uid [] w ≡ (ok tt, w)
  unfolding delete_items
  delete_items-nil w = refl

  -- What the loop leaves when it ends well.
  delete_items_removes :
      (items : List Fields) (w w' : S.World) (u : Unit {0})
      → Listed items w
      → delete_items A S claim_uid items w ≡ (ok u, w')
      → Listed [] w'
  delete_items_removes [] w w' u listed run =
      subst (Listed []) (ap (λ t. t.1) (sym (delete_items-nil w) ∙ run)) listed
  delete_items_removes (x ∷ items) w w' u listed run = elim (round x items w) [
    | skipped other same ↦
        delete_items_removes items w w' u (Listed-skip x items w other listed) (sym same ∙ run)
    | removed r w₁ mine deleted gone same ↦
        delete_items_removes items w₁ w' u (Listed-delete x items w w₁ r deleted gone listed)
          (sym same ∙ run)
    | stopped e w₁ mine deleted same ↦ absurd (cc)
  ]

  -- An object that no round names stays, however the loop ends.
  delete_items_keeps :
      (items : List Fields) (w w' : S.World) (r : Result ApiError (Unit {0})) (n : String)
      (o : Fields)
      → ((x : Fields)
          → In x items
          → is_of_claim claim_uid (parse_allocation A x) ≡ true
          → n ≢ A.get_name x)
      → S.stored w ip_allocations n ≡ some o
      → delete_items A S claim_uid items w ≡ (r, w')
      → S.stored w' ip_allocations n ≡ some o
  delete_items_keeps [] w w' r n o apart s run =
      subst (λ v. S.stored v ip_allocations n ≡ some o)
        (ap (λ t. t.1) (sym (delete_items-nil w) ∙ run)) s
  delete_items_keeps (x ∷ items) w w' r n o apart s run = elim (round x items w) [
    | skipped other same ↦
        delete_items_keeps items w w' r n o (λ y h. apart y (inr h)) s (sym same ∙ run)
    | removed q w₁ mine deleted gone same ↦
        delete_items_keeps items w₁ w' r n o (λ y h. apart y (inr h))
          (U.delete_others _ _ _ n w w₁ q deleted (apart x (inl refl) mine) ∙ s) (sym same ∙ run)
    | stopped e w₁ mine deleted same ↦
        subst (λ v. S.stored v ip_allocations n ≡ some o) (ap (λ t. t.1) (sym same ∙ run))
          (U.delete_others _ _ _ n w w₁ (err e) deleted (apart x (inl refl) mine) ∙ s)
  ]

  not_mine :
      (o : Fields)
      → ¬ (is_of_claim claim_uid (parse_allocation A o) ≡ true)
      → is_of_claim claim_uid (parse_allocation A o) ≡ false
  not_mine o h = elim (Bool-cases (is_of_claim claim_uid (parse_allocation A o))) [
    | inl mine ↦ absurd (h mine)
    | inr other ↦ other
  ]

  after_list-ok :
      (w : S.World) (items : List Fields)
      → (S.list ip_allocations w).0 ≡ ok items
      → (S.list ip_allocations w ≡ (ok items, w))
        × (delete_for_claim A S claim_uid w ≡ delete_items A S claim_uid items w)
  unfolding delete_for_claim
  after_list-ok w items e =
      let kept : (S.list ip_allocations w).1 ≡ w =
        U.list_keeps ip_allocations w (S.list ip_allocations w).1 (S.list ip_allocations w).0
          refl in
      let listed : S.list ip_allocations w ≡ (ok items, w) = λ i. (e i, kept i) in
      (listed, ap (after_list A S claim_uid) listed)

  after_list-err :
      (w : S.World) (e : ApiError)
      → (S.list ip_allocations w).0 ≡ err e
      → delete_for_claim A S claim_uid w
        ≡ (if is_not_found e then ok tt else err e, (S.list ip_allocations w).1)
  unfolding delete_for_claim
  after_list-err w e h = ap (λ r. after_list A S claim_uid (r, (S.list ip_allocations w).1)) h

  -- After a successful `DeleteForClaim`, with no other client writing, no stored object is a record
  -- of the claim.
  pub delete_for_claim_removes :
      (w w' : S.World) (u : Unit {0})
      → delete_for_claim A S claim_uid w ≡ (ok u, w')
      → (n : String) (o : Fields) → S.stored w' ip_allocations n ≡ some o
      → IsForeign o
  delete_for_claim_removes w w' u run n o s = elim (Result-cases (S.list ip_allocations w).0) [
    | inl (items, e) ↦
        let (listed, same) = after_list-ok w items e in
        is_of_claim-false o (
          not_mine o (λ mine.
            delete_items_removes items w w' u (λ m p q _. U.list_complete _ w w items listed m p q)
              (sym same ∙ run) n o s mine))
    | inr (f, e) ↦ elim (Bool-cases (is_not_found f)) [
      | inl missing ↦ absurd (
          cc (
            U.list_missing ip_allocations n w _
                (λ i. ((e ∙ ap err (not_found_of f missing)) i, (S.list ip_allocations w).1)),
            ap (λ t. t.1) (sym (after_list-err w f e) ∙ run),
          ))
      | inr fault ↦ absurd (cc (ap (λ t. t.0) (sym (after_list-err w f e) ∙ run), fault))
    ]
  ]

  -- Whatever `DeleteForClaim` answers, it leaves what is not a record of the claim, if no other
  -- client writes.
  pub delete_for_claim_keeps :
      (w w' : S.World) (r : Result ApiError (Unit {0})) (n : String) (o : Fields)
      → delete_for_claim A S claim_uid w ≡ (r, w')
      → S.stored w ip_allocations n ≡ some o
      → IsForeign o
      → S.stored w' ip_allocations n ≡ some o
  delete_for_claim_keeps w w' r n o run s f = elim (Result-cases (S.list ip_allocations w).0) [
    | inl (items, e) ↦
        let (listed, same) = after_list-ok w items e in
        delete_items_keeps items w w' r n o
          (λ x h mine same_name.
            absurd (cc (U.list_all _ w w items listed x h, IsForeign-false o f)))
          s (sym same ∙ run)
    | inr (g, e) ↦
        subst (λ v. S.stored v ip_allocations n ≡ some o)
          (sym (
              U.list_keeps ip_allocations w (S.list ip_allocations w).1 (S.list ip_allocations w).0
                refl)
            ∙ ap (λ t. t.1) (sym (after_list-err w g e) ∙ run))
          s
  ]
