-- ===== src/Examples/Card.antt =====
-- A node with one physical link, as a kernel: it meets what is documented of the kernel.
use dra_linux_networks.Prelude.{
  ℕ, String, Bool, true, false, Option, none, some, List, [], ◌∷◌, ok, err, ◌≡◌, refl, ◌==◌, ◌&&◌,
  eq_iff, arith, if◌then◌else◌, All, eqb, In, inl, inr, subst, sym,
}
use dra_linux_networks.Host.Kernel.{Fault, fault, Link, Address, Call, Netlink}
use dra_linux_networks.Host.Laws.{Settings, settings_of, IsNetlink, IsThread}

-- The namespace that has the link, and the thread's.
pub record Card : Type 0 where
  pub place : ℕ
  pub here : ℕ
  pub link : Link
  pub addresses : List Address

abbrev present : Card → Bool
present c = eqb c.place c.here

abbrev missing : Fault
missing = fault "no such device"

-- A request about the link, which finds it only in its namespace.
abbrev request : (Link → Link) → Call Card (Unit {0})
request change c =
    if present c then (ok tt, record c { link = change c.link }) else (err missing, c)

abbrev by_name : String → Call Card Link
by_name name c =
    if present c
    then (if c.link.name == name then (ok c.link, c) else (err missing, c))
    else (err missing, c)

abbrev link_list : Call Card (List Link)
link_list c = (ok (if present c then c.link ∷ [] else []), c)

abbrev pub node_kernel : Netlink Card
node_kernel = record {
  netns_get = λ c. (ok c.here, c);
  netns_from_path =
      λ path c. if path == "/run/netns/pod" then (ok 1, c) else (err (fault "no such file"), c);
  netns_set = λ ns c. (ok tt, record c { here = ns });
  link_by_name = by_name;
  link_list = link_list;
  link_set_down = λ l. request (λ x. record x { up = false });
  link_set_up = λ l. request (λ x. record x { up = true });
  link_set_name = λ l name. request (λ x. record x { name = name });
  link_set_mtu = λ l n. request (λ x. record x { mtu = n });
  link_set_hardware_addr = λ l mac. request (λ x. record x { hardware_addr = mac });
  link_set_ns_fd =
      λ l ns c. if present c then (ok tt, record c { place = ns }) else (err missing, c);
  addr_list = λ l c. (ok c.addresses, c);
  addr_del = λ l a c. (ok tt, record c { addresses = [] });
  addr_add = λ l a c. (ok tt, record c { addresses = a ∷ c.addresses });
}

abbrev settings_if : Bool → Link → Option Settings
settings_if true link = some (settings_of link)
settings_if false link = none

abbrev pub node_at : Card → ℕ → Option Settings
node_at c i = settings_if (present c && eqb c.link.index i) c.link

self : (c : Card) → present c ≡ true → node_at c c.link.index ≡ some (settings_of c.link)
self c p = ground (arith)

request-at :
    (change : Link → Link) (set : Settings → Settings) (i : ℕ) (c c' : Card) (s : Settings)
    → ((l : Link) → (change l).index ≡ l.index)
    → ((l : Link) → settings_of (change l) ≡ set (settings_of l))
    → node_at c i ≡ some s
    → request change c ≡ (ok tt, c')
    → node_at c' i ≡ some (set s)
request-at change set i c c' s keeps sets h e = ground (arith, keeps c.link, sets c.link)

by_name-found :
    (name : String) (c c' : Card) (l : Link)
    → by_name name c ≡ (ok l, c')
    → (node_at c' l.index ≡ some (settings_of l)) × (l.name ≡ name)
by_name-found name c c' l e = ground (arith, eq_iff c.link.name name)

link_list-found :
    (c c' : Card) (ls : List Link)
    → link_list c ≡ (ok ls, c')
    → All (λ l. node_at c' l.index ≡ some (settings_of l)) ls
link_list-found c c' ls e = ground (arith)

-- The card has an address with the network.
abbrev pub NodeHolds : Card → ℕ → Option String → Type 0
NodeHolds c i net = (a : Address) × In a c.addresses × (a.ip_net ≡ net)

set_up-addresses : (l : Link) (c : Card) → (node_kernel.link_set_up l c).1.addresses ≡ c.addresses
set_up-addresses l c = ground (arith)

set_down-addresses :
    (l : Link) (c : Card) → (node_kernel.link_set_down l c).1.addresses ≡ c.addresses
set_down-addresses l c = ground (arith)

pub node_law : IsNetlink node_kernel node_at NodeHolds
node_law = record {
  found_by_name = by_name-found;
  listed = link_list-found;
  went_down = λ l c c' s h e.
      request-at (λ x. record x { up = false }) (λ t. record t { up = false }) l.index c c' s
        (λ x. refl) (λ x. refl) h e;
  went_up = λ l c c' s h e.
      request-at (λ x. record x { up = true }) (λ t. record t { up = true }) l.index c c' s
        (λ x. refl) (λ x. refl) h e;
  has_mtu = λ l n c c' s h e.
      request-at (λ x. record x { mtu = n }) (λ t. record t { mtu = n }) l.index c c' s (λ x. refl)
        (λ x. refl) h e;
  has_address = λ l mac c c' s h e.
      request-at (λ x. record x { hardware_addr = mac }) (λ t. record t { hardware_addr = mac })
        l.index c c' s (λ x. refl) (λ x. refl) h e;
  list_keeps = λ l c. refl;
  del_keeps = λ l a c. refl;
  add_keeps = λ l a c. refl;
  added = λ l a c c' e. subst (λ p. NodeHolds p.1 l.index a.ip_net) e (a, inl refl, refl);
  there_already = λ l a c c' e. absurd (cc);
  add_holds = λ l a net c h. let (b, here, same) = h in (b, inr here, same);
  up_holds = λ l net c h.
      let (a, here, same) = h in (a, subst (In a) (sym (set_up-addresses l c)) here, same);
  down_holds = λ l net c s e down h.
      let (a, here, same) = h in (a, subst (In a) (sym (set_down-addresses l c)) here, same);
}

request-here : (change : Link → Link) (c : Card) → (request change c).1.here ≡ c.here
request-here change c = ground (arith)

by_name-here : (name : String) (c : Card) → (by_name name c).1.here ≡ c.here
by_name-here name c = ground (arith)

move-here :
    (l : Link) (target : ℕ) (c : Card) → (node_kernel.link_set_ns_fd l target c).1.here ≡ c.here
move-here l target c = ground (arith)

path-here : (path : String) (c : Card) → (node_kernel.netns_from_path path c).1.here ≡ c.here
path-here path c = ground (arith)

abbrev pub node_ns : Card → ℕ
node_ns c = c.here

got : (c c' : Card) (target : ℕ) → node_kernel.netns_get c ≡ (ok target, c') → target ≡ c.here
got c c' target e = cc

pub node_kernel-IsThread : IsThread node_kernel node_ns
node_kernel-IsThread = record {
  returned = λ c c' target e v. got c c' target e;
  not_set = λ target c c' e set. absurd (cc);
  get_stays = λ c. refl;
  path_stays = path-here;
  name_stays = by_name-here;
  list_stays = λ c. refl;
  down_stays = λ l c. request-here (λ x. record x { up = false }) c;
  up_stays = λ l c. request-here (λ x. record x { up = true }) c;
  rename_stays = λ l name c. request-here (λ x. record x { name = name }) c;
  mtu_stays = λ l n c. request-here (λ x. record x { mtu = n }) c;
  mac_stays = λ l mac c. request-here (λ x. record x { hardware_addr = mac }) c;
  move_stays = move-here;
  addresses_stay = λ l c. refl;
  del_stays = λ l a c. refl;
  add_stays = λ l a c. refl;
}
