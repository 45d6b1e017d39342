-- ===== src/Host/Here.antt =====
-- What an action does to the namespace of the calling thread: the parts of the moves that work
-- inside one namespace leave the thread there.
use dra_linux_networks.Prelude.{
  ℕ, String, Bool, true, false, Option, none, some, List, [], ◌∷◌, Result, ok, err, ◌≡◌, refl, ◌∙◌,
  ◌==◌, Bool-cases, inl, inr, if◌then◌else◌,
}
use dra_linux_networks.Driver.{HostDeviceState, HostAddressState}
use dra_linux_networks.Host.Kernel.{
  Fault, already_exists, fault, Link, Address, Formats, HostError, Action, Call, Netlink, ◌>>=◌,
  done, fail, call, Step, while, set_if, after, answered, wrapped,
}
use dra_linux_networks.Host.Laws.{IsThread}
use dra_linux_networks.Host.Link.{
  link_with_address, found_or, found_by_name, find_link, unless_exists, add_address,
  delete_addresses, peer_from, peer_of, address_from, saved_address, add_saved, hardware_from,
  set_hardware_address, named, restore_addresses, restore_link_state, saved_addresses,
}

module _ {W : Type 0} (N : Netlink W) (F : Formats) (ns : W → ℕ) (law : IsThread N ns) where
  -- Whatever the action answers, the thread is in the namespace that it was in.
  pub record Stays {A : Type 0} (m : Action W A) : Type 0 where
    pub run : (w : W) → ns (m w).1 ≡ ns w

  Stays-after :
      {A B : Type 0} (f : A → Action W B) (p : Result HostError A × W)
      → ((a : A) → Stays (f a))
      → ns (after p f).1 ≡ ns p.1
  Stays-after f (ok a, w) h = (h a).run w
  Stays-after f (err e, w) h = refl

  pub Stays-bind :
      {A B : Type 0} (m : Action W A) (f : A → Action W B)
      → Stays m
      → ((a : A) → Stays (f a))
      → Stays (m >>= f)
  unfolding ◌>>=◌
  Stays-bind m f h k = record { run = λ w. Stays-after f (m w) k ∙ h.run w }

  stays_answered : {A : Type 0} (p : Result Fault A × W) → ns (answered p).1 ≡ ns p.1
  stays_answered (ok a, w) = refl
  stays_answered (err e, w) = refl

  pub Stays-call : {A : Type 0} (c : Call W A) → ((w : W) → ns (c w).1 ≡ ns w) → Stays (call c)
  unfolding call
  Stays-call c h = record { run = λ w. stays_answered (c w) ∙ h w }

  stays_wrapped :
      {A : Type 0} (step : Step) (p : Result HostError A × W) → ns (wrapped step p).1 ≡ ns p.1
  stays_wrapped step (ok a, w) = refl
  stays_wrapped step (err e, w) = refl

  pub Stays-while : {A : Type 0} (step : Step) (m : Action W A) → Stays m → Stays (while step m)
  unfolding while
  Stays-while step m h = record { run = λ w. stays_wrapped step (m w) ∙ h.run w }

  pub Stays-done : {A : Type 0} (a : A) → Stays (done a)
  unfolding done
  Stays-done a = record { run = λ w. refl }

  pub Stays-fail : {A : Type 0} (e : HostError) → Stays {A = A} (fail e)
  unfolding fail
  Stays-fail e = record { run = λ w. refl }

  pub Stays-if : (t : Bool) (m : Action W (Unit {0})) → Stays m → Stays (set_if t m)
  unfolding set_if
  Stays-if true m h = h
  Stays-if false m h = Stays-done tt

  -- The parts of a link's state.
  stays_unless : (p : Result Fault (Unit {0}) × W) → ns (unless_exists N F p).1 ≡ ns p.1
  unfolding unless_exists
  stays_unless (ok u, w) = refl
  stays_unless (err already_exists, w) = refl
  stays_unless (err (fault x), w) = refl

  pub add_address-Stays : (l : Link) (a : Address) → Stays (add_address N F l a)
  unfolding add_address
  add_address-Stays l a = record {
    run = λ w. stays_unless (N.addr_add l a w) ∙ law.add_stays l a w;
  }

  deleted-ns :
      (l : Link) (current : List Address) (w : W) → ns (delete_addresses N F l current w) ≡ ns w
  unfolding delete_addresses
  deleted-ns l [] w = refl
  deleted-ns l (a ∷ rest) w = deleted-ns l rest (N.addr_del l a w).1 ∙ law.del_stays l a w

  peer_from-Stays : (text : String) (r : Option String) → Stays (peer_from N F text r)
  unfolding peer_from
  peer_from-Stays text none = Stays-fail _
  peer_from-Stays text (some peer) = Stays-done _

  peer_of-Stays : (text : String) (old : Option String) → Stays (peer_of N F text old)
  unfolding peer_of
  peer_of-Stays text old = elim (Bool-cases (text == "")) [
    | inl blank ↦ rw blank (Stays-done old)
    | inr given ↦ rw given (peer_from-Stays text (F.parse_ip_net text))
  ]

  address_from-Stays :
      (saved : HostAddressState) (r : Option Address) → Stays (address_from N F saved r)
  unfolding address_from
  address_from-Stays saved none = Stays-fail _
  address_from-Stays saved (some parsed) =
      Stays-bind _ _ (peer_of-Stays saved.peer parsed.peer) (λ peer. Stays-done _)

  add_saved-Stays : (l : Link) (saved : List HostAddressState) → Stays (add_saved N F l saved)
  unfolding add_saved saved_address
  add_saved-Stays l [] = Stays-done tt
  add_saved-Stays l (x ∷ xs) =
      Stays-bind _ _ (address_from-Stays x (F.parse_addr x.cidr))
        (λ a. Stays-bind _ _ (add_address-Stays l a) (λ u. add_saved-Stays l xs))

  addresses-Stay :
      (state : HostDeviceState) (l : Link) (current : List Address)
      → Stays (restore_addresses N F state l current)
  unfolding restore_addresses
  addresses-Stay state l current = record {
    run = λ w.
        (add_saved-Stays l (saved_addresses state)).run (delete_addresses N F l current w)
        ∙ deleted-ns l current w;
  }

  hardware_from-Stays :
      (l : Link) (text : String) (r : Option String) → Stays (hardware_from N F l text r)
  unfolding hardware_from
  hardware_from-Stays l text none = Stays-fail _
  hardware_from-Stays l text (some mac) = Stays-call _ (law.mac_stays l mac)

  named-Stays : (l : Link) (name : String) → Stays (named N F l name)
  unfolding named
  named-Stays l name = elim (Bool-cases (l.name == name)) [
    | inl same ↦ rw same (Stays-done l)
    | inr other ↦ rw other (
        Stays-bind _ _ (Stays-while _ _ (Stays-call _ (law.rename_stays l name)))
          (λ u. Stays-call _ (law.name_stays name)))
  ]

  admin-Stays :
      (l : Link) (b : Bool) → Stays (if b then call (N.link_set_up l) else call (N.link_set_down l))
  admin-Stays l true = Stays-call _ (law.up_stays l)
  admin-Stays l false = Stays-call _ (law.down_stays l)

  pub restore_link_state-Stays :
      (l : Link) (state : HostDeviceState) → Stays (restore_link_state N F l state)
  unfolding restore_link_state set_hardware_address
  restore_link_state-Stays old state = Stays-bind _ _ (named-Stays old state.original_name) (λ l.
      Stays-bind _ _ (Stays-call _ (law.down_stays l)) (λ u.
        Stays-bind _ _
          (Stays-if _ _ (hardware_from-Stays l state.original_mac (F.parse_mac state.original_mac)))
          (λ u.
            Stays-bind _ _ (Stays-if _ _ (Stays-call _ (law.mtu_stays l state.original_mtu))) (λ u.
              Stays-bind _ _ (Stays-call _ (law.addresses_stay l)) (λ current.
                Stays-bind _ _ (addresses-Stay state l current)
                  (λ u. admin-Stays l state.original_admin_up))))))

  found_or-Stays : (name address : String) (o : Option Link) → Stays (found_or N F name address o)
  unfolding found_or
  found_or-Stays name address none = Stays-fail _
  found_or-Stays name address (some l) = Stays-done l

  found-ns :
      (name address : String) (p : Result Fault Link × W)
      → ns (found_by_name N F name address p).1 ≡ ns p.1
  unfolding found_by_name
  found-ns name address (ok l, w) = refl
  found-ns name address (err e, w) =
      Stays.run
        (Stays-bind (call N.link_list)
          (λ links. found_or N F name address (link_with_address address links))
          (Stays-call _ law.list_stays)
          (λ links. found_or-Stays name address (link_with_address address links)))
        w

  asked-ns :
      (name : String) (w : W) (blank : Bool)
      → ns (if blank then (err (fault ""), w) else N.link_by_name name w).1 ≡ ns w
  asked-ns name w true = refl
  asked-ns name w false = law.name_stays name w

  pub find_link-Stays : (name address : String) → Stays (find_link N F name address)
  unfolding find_link
  find_link-Stays name address = record {
    run = λ w.
        found-ns name address (if name == "" then (err (fault ""), w) else N.link_by_name name w)
        ∙ asked-ns name w (name == "");
  }
