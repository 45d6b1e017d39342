-- ===== src/Host/LinkBack.antt =====
-- `restoreLinkState`: a link that has been put back is as it was saved.
use dra_linux_networks.Prelude.{
  ℕ, String, Bool, true, false, not, Option, none, some, List, ◌≡◌, refl, sym, ◌∙◌, ap, ◌⊎◌, inl,
  inr, ◌==◌, ◌&&◌, eq_iff, Bool-cases, arith, if◌then◌else◌, subst, All,
}
use dra_linux_networks.Prelude.Int.{is_positive, eq_int, eq_int_sound}
use dra_linux_networks.Driver.{HostDeviceState}
use dra_linux_networks.Host.Kernel.{
  Link, Address, Formats, Action, Netlink, call, while, set_if, Gives, gives_bind, gives_call,
  gives_done, gives_fail, gives_while, restore_name,
}
use dra_linux_networks.Host.Link.{
  equal_fold, hardware_from, set_hardware_address, named, restore_addresses, restore_link_state,
  saved_addresses,
}
use dra_linux_networks.Host.Held.{IsHeld, AreHeld, held_mono, addresses_give}
use dra_linux_networks.Host.Laws.{Settings, settings_of, IsNetlink, IsBack}

-- An action that is not taken leaves what held.
pub gives_if :
    {W : Type 0} (P : W → Type 0) (Q : Unit {0} → W → Type 0) (t : Bool) (m : Action W (Unit {0}))
    → (t ≡ true → Gives P m Q)
    → (t ≡ false → (w : W) → P w → Q tt w)
    → Gives P (set_if t m) Q
unfolding set_if
gives_if P Q true m h k = h refl
gives_if P Q false m h k = gives_done P Q tt (k refl)

module _ {W : Type 0} (N : Netlink W) (F : Formats) (at : W → ℕ → Option Settings)
    (holds : W → ℕ → Option String → Type 0) (law : IsNetlink N at holds) where
  -- The link has these settings, and the last argument is any answer.
  abbrev Has : {A : Type 0} → ℕ → Settings → A → W → Type 0
  Has i s answer w = at w i ≡ some s

  abbrev Found : String → Link → W → Type 0
  Found name l w = (at w l.index ≡ some (settings_of l)) × (l.name ≡ name)

  named_gives :
      (old : Link) (name : String)
      → Gives (λ w. at w old.index ≡ some (settings_of old)) (named N F old name) (Found name)
  unfolding named
  named_gives old name = elim (Bool-cases (old.name == name)) [
    | inl same ↦ rw same (gives_done _ (Found name) old (λ w h. (h, (eq_iff old.name name).0 same)))
    | inr other ↦ rw other (
        gives_bind _ (λ u w. Unit {0}) (Found name)
          (while restore_name (call (N.link_set_name old name))) (λ u. call (N.link_by_name name))
          (gives_while _ _ restore_name _ (gives_call _ _ _ (λ w h a w' e. tt)))
          (λ u. gives_call _ _ _ (λ w h l w' e. law.found_by_name name w w' l e)))
  ]

  -- The hardware address, as far as one was saved.
  abbrev MacBack : HostDeviceState → String → Type 0
  MacBack state mac =
      (state.original_mac ≡ "")
      ⊎ (equal_fold mac state.original_mac ≡ true)
      ⊎ (F.parse_mac state.original_mac ≡ some mac)

  -- The link is down, and everything but its admin state is as it was saved.
  abbrev AlmostBack : {A : Type 0} → HostDeviceState → Link → A → W → Type 0
  AlmostBack state l answer w =
      (s : Settings) × (at w l.index ≡ some s)
      × (s.up ≡ false)
      × (s.name ≡ state.original_name)
      × ((is_positive state.original_mtu ≡ false) ⊎ (s.mtu ≡ state.original_mtu))
      × MacBack state s.hardware_addr

  -- The link is down, and its hardware address is back.
  abbrev AddressBack : {A : Type 0} → HostDeviceState → Link → A → W → Type 0
  AddressBack state l answer w =
      (s : Settings) × (at w l.index ≡ some s)
      × (s.up ≡ false)
      × (s.name ≡ l.name)
      × (s.mtu ≡ l.mtu)
      × MacBack state s.hardware_addr

  hardware_from_gives :
      (state : HostDeviceState) (l : Link) (r : Option String)
      → F.parse_mac state.original_mac ≡ r
      → Gives
          (Has l.index (record (settings_of l) { up = false }) tt)
          (hardware_from N F l state.original_mac r)
          (AddressBack state l)
  unfolding hardware_from
  hardware_from_gives state l none e = gives_fail _ _ _
  hardware_from_gives state l (some mac) e = gives_call _ _ _ (λ w h u w' run. (
    record { name = l.name; mtu = l.mtu; hardware_addr = mac; up = false },
    law.has_address l mac w w' (record (settings_of l) { up = false }) h run,
    refl,
    refl,
    refl,
    inr (inr e),
  ))

  mac_gives :
      (state : HostDeviceState) (l : Link)
      → Gives
          (Has l.index (record (settings_of l) { up = false }) tt)
          (set_if
            (not (state.original_mac == "") && not (equal_fold l.hardware_addr state.original_mac))
            (set_hardware_address N F l state.original_mac))
          (AddressBack state l)
  unfolding set_hardware_address
  mac_gives state l =
      gives_if _ _ _ _ (λ t. hardware_from_gives state l (F.parse_mac state.original_mac) refl)
        (λ t w h. (
          record (settings_of l) { up = false },
          h,
          refl,
          refl,
          refl,
          elim (Bool-cases (state.original_mac == "")) [
            | inl blank ↦ inl ((eq_iff state.original_mac "").0 blank)
            | inr given ↦ inr (inl (ground (arith)))
          ],
        ))

  mtu_gives :
      (state : HostDeviceState) (l : Link)
      → l.name ≡ state.original_name
      → Gives
          (AddressBack state l tt)
          (set_if
            (is_positive state.original_mtu && not (eq_int l.mtu state.original_mtu))
            (call (N.link_set_mtu l state.original_mtu)))
          (AlmostBack state l)
  mtu_gives state l named =
      gives_if _ _ _ _
        (λ t. gives_call _ _ _ (λ w h u w' run.
          let (s, here, down, e, m, mac) = h in
          (
            record s { mtu = state.original_mtu },
            law.has_mtu l state.original_mtu w w' s here run,
            down,
            e ∙ named,
            inr refl,
            mac,
          )))
        (λ t w h.
          let (s, here, down, e, m, mac) = h in
          (
            s,
            here,
            down,
            e ∙ named,
            elim (Bool-cases (is_positive state.original_mtu)) [
              | inl set ↦ inr (m ∙ eq_int_sound l.mtu state.original_mtu (ground (arith)))
              | inr unset ↦ inl unset
            ],
            mac,
          ))

  -- The link with some index is as it was saved, and has every address that was saved.
  abbrev pub Back : {A : Type 0} → HostDeviceState → A → W → Type 0
  Back state answer w =
      (i : ℕ) × (s : Settings) × (at w i ≡ some s)
      × IsBack F state s
      × All (IsHeld N F at holds law i w) (saved_addresses state)

  -- All but the admin state is back.
  abbrev Addressed : {A : Type 0} → HostDeviceState → Link → A → W → Type 0
  Addressed state l answer w =
      AlmostBack state l answer w × AreHeld N F at holds law l.index (saved_addresses state) w

  admin_gives :
      (state : HostDeviceState) (l : Link) (b : Bool)
      → state.original_admin_up ≡ b
      → Gives
          (Addressed state l tt)
          (if b then call (N.link_set_up l) else call (N.link_set_down l))
          (Back state)
  admin_gives state l true e = gives_call _ _ _ (λ w h u w' run.
      let ((s, here, down, name, mtu, mac), held) = h in
      (
        l.index,
        record s { up = true },
        law.went_up l w w' s here run,
        record { name = name; up = sym e; mtu = mtu; mac = mac },
        held_mono N F at holds law l.index w w'
            (λ net had. subst (λ p. holds p.1 l.index net) run (law.up_holds l net w had))
            (saved_addresses state) held,
      ))
  admin_gives state l false e = gives_call _ _ _ (λ w h u w' run.
      let ((s, here, down, name, mtu, mac), held) = h in
      (
        l.index,
        record s { up = false },
        law.went_down l w w' s here run,
        record { name = name; up = sym e; mtu = mtu; mac = mac },
        held_mono N F at holds law l.index w w'
            (λ net had.
              subst (λ p. holds p.1 l.index net) run (law.down_holds l net w s here down had))
            (saved_addresses state) held,
      ))

  listed_gives :
      (state : HostDeviceState) (l : Link)
      → Gives (AlmostBack state l tt) (call (N.addr_list l)) (AlmostBack state l)
  listed_gives state l = gives_call _ _ _ (λ w h current w' run.
      let (s, here, down, name, mtu, mac) = h in
      (s, ap (λ p. at p.1 l.index) (sym run) ∙ law.list_keeps l w ∙ here, down, name, mtu, mac))

  added_gives :
      (state : HostDeviceState) (l : Link) (current : List Address)
      → Gives (AlmostBack state l tt) (restore_addresses N F state l current) (Addressed state l)
  added_gives state l current = record {
    run = λ w h u w' e.
        let (s, here, down, name, mtu, mac) = h in
        let (still, held) = (addresses_give N F at holds law state l current s).run w here u w' e in
        ((s, still, down, name, mtu, mac), held);
  }

  -- A part of what holds before may be used in the proof.
  gives_of_name :
      {A : Type 0} (P : W → Type 0) (m : Action W A) (Q : A → W → Type 0) (X : Type 0)
      → (X → Gives P m Q)
      → Gives (λ w. P w × X) m Q
  gives_of_name P m Q X h = record { run = λ w p a w' e. (h p.1).run w p.0 a w' e }

  -- What `restoreLinkState` gives back, of a link that is there.
  pub restore_link_state_gives :
      (l : Link) (state : HostDeviceState)
      → Gives
          (λ w. at w l.index ≡ some (settings_of l))
          (restore_link_state N F l state)
          (Back state)
  unfolding restore_link_state
  restore_link_state_gives old state =
      gives_bind _ (Found state.original_name) _ _ _ (named_gives old state.original_name) (λ l.
        gives_of_name _ _ _ (l.name ≡ state.original_name) (λ named.
          gives_bind _ (Has l.index (record (settings_of l) { up = false })) _ _ _
            (gives_call _ _ _ (λ w h u w' run. law.went_down l w w' (settings_of l) h run))
            (λ u. gives_bind _ (AddressBack state l) _ _ _ (mac_gives state l) (λ u.
              gives_bind _ (AlmostBack state l) _ _ _ (mtu_gives state l named) (λ u.
                gives_bind _ (AlmostBack state l) _ _ _ (listed_gives state l) (λ current.
                  gives_bind _ (Addressed state l) _ _ _ (added_gives state l current)
                    (λ u. admin_gives state l state.original_admin_up refl)))))))
