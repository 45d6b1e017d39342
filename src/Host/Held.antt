-- ===== src/Host/Held.antt =====
-- The addresses of a link in `restoreLinkState`: those that were saved are on it afterwards.
use dra_linux_networks.Prelude.{
  ℕ, String, Option, none, some, List, [], ◌∷◌, Result, ok, err, ◌≡◌, refl, ◌∙◌, inl, inr, ◌==◌,
  Bool-cases, subst, All,
}
use dra_linux_networks.Driver.{HostDeviceState, HostAddressState}
use dra_linux_networks.Host.Kernel.{
  Fault, already_exists, fault, Link, Address, Formats, Action, Netlink, Gives, gives_bind,
  gives_done, gives_fail,
}
use dra_linux_networks.Host.Link.{
  unless_exists, add_address, delete_addresses, add_saved, saved_address, peer_of, peer_from,
  address_from, restore_addresses, saved_addresses,
}
use dra_linux_networks.Host.Laws.{Settings, IsNetlink}

module _ {W : Type 0} (N : Netlink W) (F : Formats) (at : W → ℕ → Option Settings)
    (holds : W → ℕ → Option String → Type 0) (law : IsNetlink N at holds) where
  -- The link has an address with the IP network of the saved text.
  abbrev pub IsHeld : ℕ → W → HostAddressState → Type 0
  IsHeld i w saved =
      (parsed : Address) × (F.parse_addr saved.cidr ≡ some parsed) × holds w i parsed.ip_net

  abbrev pub AreHeld : ℕ → List HostAddressState → W → Type 0
  AreHeld i saved w = All (IsHeld i w) saved

  pub held_mono :
      (i : ℕ) (w w' : W)
      → ((net : Option String) → holds w i net → holds w' i net)
      → (saved : List HostAddressState) → AreHeld i saved w
      → AreHeld i saved w'
  held_mono i w w' keep [] h = tt
  held_mono i w w' keep (x ∷ xs) h =
      let (parsed, e, held) = h.0 in
      ((parsed, e, keep parsed.ip_net held), held_mono i w w' keep xs h.1)

  -- What holds of the link while addresses are put on it.
  abbrev Holding : Link → Settings → List HostAddressState → W → Type 0
  Holding l s saved w = (at w l.index ≡ some s) × AreHeld l.index saved w

  unless_exists_keeps :
      (l : Link) (a : Address) (s : Settings) (saved : List HostAddressState) (w₀ : W)
      (p : Result Fault (Unit {0}) × W) (u : Unit {0}) (w' : W)
      → N.addr_add l a w₀ ≡ p
      → Holding l s saved p.1
      → unless_exists N F p ≡ (ok u, w')
      → Holding l s saved w' × holds w' l.index a.ip_net
  unfolding unless_exists
  unless_exists_keeps l a s saved w₀ (ok v, w) u w' run h e =
      let same : w ≡ w' = cc in
      subst (λ x. Holding l s saved x × holds x l.index a.ip_net) same (h, law.added l a w₀ w run)
  unless_exists_keeps l a s saved w₀ (err already_exists, w) u w' run h e =
      let same : w ≡ w' = cc in
      subst (λ x. Holding l s saved x × holds x l.index a.ip_net) same
        (h, law.there_already l a w₀ w run)
  unless_exists_keeps l a s saved w₀ (err (fault x), w) u w' run h e = absurd (cc)

  add_gives :
      (l : Link) (a : Address) (s : Settings) (saved : List HostAddressState)
      → Gives
          (Holding l s saved)
          (add_address N F l a)
          (λ u w. Holding l s saved w × holds w l.index a.ip_net)
  unfolding add_address
  add_gives l a s saved = record {
    run = λ w h u w' e.
        unless_exists_keeps l a s saved w (N.addr_add l a w) u w' refl
          (
            law.add_keeps l a w ∙ h.0,
            held_mono l.index w (N.addr_add l a w).1 (λ net. law.add_holds l a net w) saved h.1,
          )
          e;
  }

  -- Reading the saved texts does not touch the world.
  module _ (P : W → Type 0) where
    peer_from_gives : (text : String) (r : Option String) → Gives P (peer_from N F text r) (λ o. P)
    unfolding peer_from
    peer_from_gives text none = gives_fail P (λ o. P) _
    peer_from_gives text (some peer) = gives_done P (λ o. P) (some peer) (λ w h. h)

    peer_of_gives : (text : String) (old : Option String) → Gives P (peer_of N F text old) (λ o. P)
    unfolding peer_of
    peer_of_gives text old = elim (Bool-cases (text == "")) [
      | inl blank ↦ rw blank (gives_done P (λ o. P) old (λ w h. h))
      | inr given ↦ rw given (peer_from_gives text (F.parse_ip_net text))
    ]

    -- The address that is read has the IP network of the saved text.
    abbrev IsRead : HostAddressState → Address → W → Type 0
    IsRead saved a w =
        P w
        × ((parsed : Address) × (F.parse_addr saved.cidr ≡ some parsed)
            × (a.ip_net ≡ parsed.ip_net))

    address_from_gives :
        (saved : HostAddressState) (r : Option Address)
        → F.parse_addr saved.cidr ≡ r
        → Gives P (address_from N F saved r) (IsRead saved)
    unfolding address_from
    address_from_gives saved none e = gives_fail P (IsRead saved) _
    address_from_gives saved (some parsed) e =
        gives_bind P (λ o. P) (IsRead saved) _ _ (peer_of_gives saved.peer parsed.peer)
          (λ peer. gives_done P (IsRead saved) _ (λ w h. (h, (parsed, e, refl))))

    saved_address_gives :
        (saved : HostAddressState) → Gives P (saved_address N F saved) (IsRead saved)
    unfolding saved_address
    saved_address_gives saved = address_from_gives saved (F.parse_addr saved.cidr) refl

  -- Addresses that were put on the link before stay on it.
  add_saved_gives :
      (l : Link) (s : Settings) (saved before : List HostAddressState)
      → Gives
          (Holding l s before)
          (add_saved N F l saved)
          (λ u w. (at w l.index ≡ some s) × AreHeld l.index saved w × AreHeld l.index before w)
  unfolding add_saved
  add_saved_gives l s [] before = gives_done _ _ tt (λ w h. (h.0, tt, h.1))
  add_saved_gives l s (x ∷ xs) before =
      gives_bind (Holding l s before) (IsRead (Holding l s before) x) _ _ _
        (saved_address_gives (Holding l s before) x)
        (λ a.
          gives_bind (IsRead (Holding l s before) x a) (λ u. Holding l s (x ∷ before)) _ _ _ (one a)
            (λ u. weaken (add_saved_gives l s xs (x ∷ before))))
    where
      one :
          (a : Address)
          → Gives
              (IsRead (Holding l s before) x a)
              (add_address N F l a)
              (λ u. Holding l s (x ∷ before))
      one a = record {
        run = λ w h u w' e.
            let (kept, (parsed, read, net)) = h in
            let (still, held) = (add_gives l a s before).run w kept u w' e in
            (still.0, ((parsed, read, subst (λ t. holds w' l.index t) net held), still.1));
      }

      weaken :
          {m : Action W (Unit {0})}
          → Gives (Holding l s (x ∷ before)) m (λ u w.
            (at w l.index ≡ some s) × AreHeld l.index xs w × AreHeld l.index (x ∷ before) w)
          → Gives (Holding l s (x ∷ before)) m (λ u w.
            (at w l.index ≡ some s) × AreHeld l.index (x ∷ xs) w × AreHeld l.index before w)
      weaken g = record {
        run = λ w h u w' e.
            let (here, later, (first, earlier)) = g.run w h u w' e in
            (here, (first, later), earlier);
      }

  deleted_keep :
      (l : Link) (current : List Address) (w : W)
      → at (delete_addresses N F l current w) l.index ≡ at w l.index
  unfolding delete_addresses
  deleted_keep l [] w = refl
  deleted_keep l (a ∷ rest) w = deleted_keep l rest (N.addr_del l a w).1 ∙ law.del_keeps l a w

  pub addresses_give :
      (state : HostDeviceState) (l : Link) (current : List Address) (s : Settings)
      → Gives
          (λ w. at w l.index ≡ some s)
          (restore_addresses N F state l current)
          (λ u. Holding l s (saved_addresses state))
  unfolding restore_addresses
  addresses_give state l current s = record {
    run = λ w h u w' e.
        let (here, held, more) =
          (add_saved_gives l s (saved_addresses state) []).run (delete_addresses N F l current w)
            (deleted_keep l current w ∙ h, tt) u w' e in
        (here, held);
  }
