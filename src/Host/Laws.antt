-- ===== src/Host/Laws.antt =====
-- What is documented of the kernel, as far as the driver relies on it, and what it means that a
-- link is what it was.
use dra_linux_networks.Prelude.{
  ℕ, String, Bool, true, false, List, Option, some, ◌≡◌, ◌⊎◌, ok, err, All,
}
use dra_linux_networks.Prelude.Int.{ℤ, is_positive}
use dra_linux_networks.Driver.{HostDeviceState}
use dra_linux_networks.Host.Kernel.{Fault, already_exists, Link, Address, Formats, Netlink}
use dra_linux_networks.Host.Link.{equal_fold}

-- The part of a link that the driver sets.
pub record Settings : Type 0 where
  pub name : String
  pub mtu : ℤ
  pub hardware_addr : String
  pub up : Bool

abbrev pub settings_of : Link → Settings
settings_of link = record {
  name = link.name;
  mtu = link.mtu;
  hardware_addr = link.hardware_addr;
  up = link.up;
}

-- A request that succeeds has its effect and no other; a link that is found is there; requests
-- about addresses leave the rest of a link alone. `at` tells the settings of the link with an
-- index, in the namespace of the calling thread, and `holds` that this link has an address with an
-- IP network. An address that is there already is what `os.IsExist` tells of, and a link that is
-- down keeps its addresses when it is set down again.
pub record IsNetlink {W : Type 0} (N : Netlink W) (at : W → ℕ → Option Settings)
    (holds : W → ℕ → Option String → Type 0) : Type 0 where
  pub found_by_name :
      (name : String) (w w' : W) (l : Link)
      → N.link_by_name name w ≡ (ok l, w')
      → (at w' l.index ≡ some (settings_of l)) × (l.name ≡ name)
  pub listed :
      (w w' : W) (ls : List Link)
      → N.link_list w ≡ (ok ls, w')
      → All (λ l. at w' l.index ≡ some (settings_of l)) ls
  pub went_down :
      (l : Link) (w w' : W) (s : Settings)
      → at w l.index ≡ some s
      → N.link_set_down l w ≡ (ok tt, w')
      → at w' l.index ≡ some (record s { up = false })
  pub went_up :
      (l : Link) (w w' : W) (s : Settings)
      → at w l.index ≡ some s
      → N.link_set_up l w ≡ (ok tt, w')
      → at w' l.index ≡ some (record s { up = true })
  pub has_mtu :
      (l : Link) (n : ℤ) (w w' : W) (s : Settings)
      → at w l.index ≡ some s
      → N.link_set_mtu l n w ≡ (ok tt, w')
      → at w' l.index ≡ some (record s { mtu = n })
  pub has_address :
      (l : Link) (mac : String) (w w' : W) (s : Settings)
      → at w l.index ≡ some s
      → N.link_set_hardware_addr l mac w ≡ (ok tt, w')
      → at w' l.index ≡ some (record s { hardware_addr = mac })
  pub list_keeps : (l : Link) (w : W) → at (N.addr_list l w).1 l.index ≡ at w l.index
  pub del_keeps : (l : Link) (a : Address) (w : W) → at (N.addr_del l a w).1 l.index ≡ at w l.index
  pub added :
      (l : Link) (a : Address) (w w' : W)
      → N.addr_add l a w ≡ (ok tt, w')
      → holds w' l.index a.ip_net
  pub there_already :
      (l : Link) (a : Address) (w w' : W)
      → N.addr_add l a w ≡ (err already_exists, w')
      → holds w' l.index a.ip_net
  pub add_holds :
      (l : Link) (a : Address) (net : Option String) (w : W)
      → holds w l.index net
      → holds (N.addr_add l a w).1 l.index net
  pub up_holds :
      (l : Link) (net : Option String) (w : W)
      → holds w l.index net
      → holds (N.link_set_up l w).1 l.index net
  pub down_holds :
      (l : Link) (net : Option String) (w : W) (s : Settings)
      → at w l.index ≡ some s
      → s.up ≡ false
      → holds w l.index net
      → holds (N.link_set_down l w).1 l.index net
  pub add_keeps : (l : Link) (a : Address) (w : W) → at (N.addr_add l a w).1 l.index ≡ at w l.index

-- What is documented of namespaces: no call but `netns.Set` takes the calling thread to another
-- one, `netns.Set` does not when it fails, and it brings the thread back to the namespace that
-- `netns.Get` has told. `ns` tells the namespace of the calling thread.
pub record IsThread {W : Type 0} (N : Netlink W) (ns : W → ℕ) : Type 0 where
  pub returned :
      (w w' : W) (target : ℕ)
      → N.netns_get w ≡ (ok target, w')
      → (v : W) → ns (N.netns_set target v).1 ≡ ns w
  pub not_set :
      (target : ℕ) (w w' : W) (e : Fault) → N.netns_set target w ≡ (err e, w') → ns w' ≡ ns w
  pub get_stays : (w : W) → ns (N.netns_get w).1 ≡ ns w
  pub path_stays : (path : String) (w : W) → ns (N.netns_from_path path w).1 ≡ ns w
  pub name_stays : (name : String) (w : W) → ns (N.link_by_name name w).1 ≡ ns w
  pub list_stays : (w : W) → ns (N.link_list w).1 ≡ ns w
  pub down_stays : (l : Link) (w : W) → ns (N.link_set_down l w).1 ≡ ns w
  pub up_stays : (l : Link) (w : W) → ns (N.link_set_up l w).1 ≡ ns w
  pub rename_stays : (l : Link) (name : String) (w : W) → ns (N.link_set_name l name w).1 ≡ ns w
  pub mtu_stays : (l : Link) (n : ℤ) (w : W) → ns (N.link_set_mtu l n w).1 ≡ ns w
  pub mac_stays : (l : Link) (mac : String) (w : W) → ns (N.link_set_hardware_addr l mac w).1 ≡ ns w
  pub move_stays : (l : Link) (target : ℕ) (w : W) → ns (N.link_set_ns_fd l target w).1 ≡ ns w
  pub addresses_stay : (l : Link) (w : W) → ns (N.addr_list l w).1 ≡ ns w
  pub del_stays : (l : Link) (a : Address) (w : W) → ns (N.addr_del l a w).1 ≡ ns w
  pub add_stays : (l : Link) (a : Address) (w : W) → ns (N.addr_add l a w).1 ≡ ns w

-- The link is as it was saved: its name, whether it is up, its MTU if one was saved, and its
-- hardware address if one was saved, up to case and to the notation of the saved text.
pub record IsBack (F : Formats) (saved : HostDeviceState) (now : Settings) : Type 0 where
  pub name : now.name ≡ saved.original_name
  pub up : now.up ≡ saved.original_admin_up
  pub mtu : (is_positive saved.original_mtu ≡ false) ⊎ (now.mtu ≡ saved.original_mtu)
  pub mac :
      (saved.original_mac ≡ "")
      ⊎ (equal_fold now.hardware_addr saved.original_mac ≡ true)
      ⊎ (F.parse_mac saved.original_mac ≡ some now.hardware_addr)
