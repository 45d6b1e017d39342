-- ===== src/Host/Link.antt =====
-- internal/driver/hostdevice.go and inventory.go: what a physical link is before it moves, and
-- how a link is found and put back into that state.
use dra_linux_networks.Prelude.{
  String, Bool, false, not, Option, none, some, List, [], ◌∷◌, Result, ok, err, ◌==◌, ◌&&◌,
  if◌then◌else◌, to_lower, map,
}
use dra_linux_networks.Prelude.Int.{ℤ, is_positive, eq_int}
use dra_linux_networks.Driver.{HostDeviceState, HostAddressState}
use dra_linux_networks.Host.Kernel.{
  Fault, already_exists, fault, Link, Address, Formats, restore_name, HostError, kernel, not_found,
  bad_text, Action, Netlink, ◌>>=◌, ◌>>◌, done, fail, call, while, set_if,
}

-- `strings.EqualFold`
abbrev pub equal_fold : String → String → Bool
equal_fold s t = to_lower s == to_lower t

-- The loop of `findLink`.
unfoldable pub link_with_address : String → List Link → Option Link
link_with_address address [] = none
link_with_address address (link ∷ links) =
    let rest = link_with_address address links in
    if not (address == "") && equal_fold link.hardware_addr address then some link else rest

-- `len(addressState) == 0`: the addresses are saved by their text only.
unfoldable pub saved_addresses : HostDeviceState → List HostAddressState
saved_addresses state = elim state.address_state [
  | [] ↦
      map
        (λ cidr. record {
          cidr = cidr;
          label = "";
          flags = ℤ.pos 0;
          scope = ℤ.pos 0;
          peer = "";
          broadcast = "";
          preferred_lft = ℤ.pos 0;
          valid_lft = ℤ.pos 0;
        })
        state.original_addresses
  | saved ∷ rest ↦ saved ∷ rest
]

abbrev text_of : Option String → String
text_of none = ""
text_of (some s) = s

module _ {W : Type 0} (N : Netlink W) (F : Formats) where
  unfoldable pub found_or : String → String → Option Link → Action W Link
  found_or name address none = fail (not_found name address)
  found_or name address (some link) = done link

  unfoldable pub found_by_name : String → String → Result Fault Link × W → Result HostError Link × W
  unfolding found_or
  found_by_name name address (ok link, w) = (ok link, w)
  found_by_name name address (err e, w) =
      (call N.link_list >>= λ links. found_or name address (link_with_address address links)) w

  unfoldable pub find_link : String → String → Action W Link
  unfolding found_by_name
  find_link name address w =
      found_by_name name address (if name == "" then (err (fault ""), w) else N.link_by_name name w)

  -- `err != nil && !os.IsExist(err)`
  unfoldable pub unless_exists : Result Fault (Unit {0}) × W → Result HostError (Unit {0}) × W
  unless_exists (ok u, w) = (ok tt, w)
  unless_exists (err already_exists, w) = (ok tt, w)
  unless_exists (err (fault e), w) = (err (kernel (fault e)), w)

  unfoldable pub add_address : Link → Address → Action W (Unit {0})
  add_address link address w = unless_exists (N.addr_add link address w)

  -- The errors of `AddrDel` are dropped.
  unfoldable pub delete_addresses : Link → List Address → W → W
  delete_addresses link [] w = w
  delete_addresses link (a ∷ as') w = delete_addresses link as' (N.addr_del link a w).1

  unfoldable pub peer_from : String → Option String → Action W (Option String)
  peer_from text none = fail (bad_text text)
  peer_from text (some peer) = done (some peer)

  unfoldable pub peer_of : String → Option String → Action W (Option String)
  peer_of text old = if text == "" then done old else peer_from text (F.parse_ip_net text)

  unfoldable pub address_from : HostAddressState → Option Address → Action W Address
  address_from saved none = fail (bad_text saved.cidr)
  address_from saved (some parsed) = peer_of saved.peer parsed.peer >>= λ peer.
      done (record parsed {
        label = saved.label;
        flags = saved.flags;
        scope = saved.scope;
        preferred_lft = saved.preferred_lft;
        valid_lft = saved.valid_lft;
        peer = peer;
        broadcast = if saved.broadcast == "" then parsed.broadcast else F.parse_ip saved.broadcast;
      })

  unfoldable pub saved_address : HostAddressState → Action W Address
  saved_address saved = address_from saved (F.parse_addr saved.cidr)

  unfoldable pub add_saved : Link → List HostAddressState → Action W (Unit {0})
  add_saved link [] = done tt
  add_saved link (saved ∷ rest) = do
    address ← saved_address saved
    add_address link address
    add_saved link rest

  unfoldable pub hardware_from : Link → String → Option String → Action W (Unit {0})
  hardware_from link text none = fail (bad_text text)
  hardware_from link text (some mac) = call (N.link_set_hardware_addr link mac)

  unfoldable pub set_hardware_address : Link → String → Action W (Unit {0})
  set_hardware_address link text = hardware_from link text (F.parse_mac text)

  unfoldable pub named : Link → String → Action W Link
  named link name =
      if link.name == name
      then done link
      else while restore_name (call (N.link_set_name link name)) >> call (N.link_by_name name)

  unfoldable pub restore_addresses : HostDeviceState → Link → List Address → Action W (Unit {0})
  restore_addresses state link current w =
      add_saved link (saved_addresses state) (delete_addresses link current w)

  unfoldable pub restore_link_state : Link → HostDeviceState → Action W (Unit {0})
  restore_link_state old state = do
    link ← named old state.original_name
    call (N.link_set_down link)
    set_if
        (not (state.original_mac == "") && not (equal_fold link.hardware_addr state.original_mac))
        (set_hardware_address link state.original_mac)
    set_if (is_positive state.original_mtu && not (eq_int link.mtu state.original_mtu))
        (call (N.link_set_mtu link state.original_mtu))
    current ← call (N.addr_list link)
    restore_addresses state link current
    if state.original_admin_up then call (N.link_set_up link) else call (N.link_set_down link)

  unfoldable pub saved_state :
      Option String → Address → List HostAddressState → List HostAddressState
  saved_state none address rest = rest
  saved_state (some cidr) address rest =
      record {
        cidr = cidr;
        label = address.label;
        flags = address.flags;
        scope = address.scope;
        peer = text_of address.peer;
        broadcast = text_of address.broadcast;
        preferred_lft = address.preferred_lft;
        valid_lft = address.valid_lft;
      }
      ∷ rest

  unfoldable pub snapshot_addresses : List Address → List HostAddressState
  unfolding saved_state
  snapshot_addresses [] = []
  snapshot_addresses (a ∷ as') = saved_state a.ip_net a (snapshot_addresses as')

  unfoldable pub snapshot_host_device : Link → String → Action W HostDeviceState
  snapshot_host_device link pod_interface_name = do
    addresses ← call (N.addr_list link)
    let saved = snapshot_addresses addresses
    done (record {
      original_name = link.name;
      pod_interface_name = pod_interface_name;
      original_admin_up = link.up;
      original_oper_state = to_lower link.oper_state;
      original_mtu = link.mtu;
      original_mac = link.hardware_addr;
      original_addresses = map (λ (a : HostAddressState). a.cidr) saved;
      address_state = saved;
      restored = false;
    })
