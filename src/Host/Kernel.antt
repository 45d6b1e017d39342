-- ===== src/Host/Kernel.antt =====
-- The packages netlink and netns, which internal/driver/hostdevice.go calls: a world that each
-- call changes and answers from. The world holds the namespace of the calling thread, which
-- `netns.Set` changes, and every other call is about that namespace.
use dra_linux_networks.Prelude.{
  ℕ, String, Bool, Option, List, Result, ok, err, ◌≡◌, refl, subst, if◌then◌else◌,
}
use dra_linux_networks.Prelude.Int.{ℤ}

-- An error of the kernel; `os.IsExist` tells the first.
pub data Fault : Type 0 where
  already_exists : Fault
  fault : String → Fault

-- What `link.Attrs()` gives, with the hardware address and the flags as text and as a test.
pub record Link : Type 0 where
  pub index : ℕ
  pub name : String
  pub mtu : ℤ
  pub hardware_addr : String
  pub up : Bool
  pub oper_state : String
  pub master_index : ℕ

-- `netlink.Addr`, with networks and addresses by their text.
pub record Address : Type 0 where
  pub ip_net : Option String
  pub label : String
  pub flags : ℤ
  pub scope : ℤ
  pub peer : Option String
  pub broadcast : Option String
  pub preferred_lft : ℤ
  pub valid_lft : ℤ

-- The texts that the driver hands to a parser: `netlink.ParseAddr`, `netlink.ParseIPNet`,
-- `net.ParseIP` and `net.ParseMAC`, which give what prints as the text.
pub record Formats : Type 0 where
  pub parse_addr : String → Option Address
  pub parse_ip_net : String → Option String
  pub parse_ip : String → Option String
  pub parse_mac : String → Option String

-- What a step was about when it failed, which the error's text says.
pub data Step : Type 0 where
  find_host_device open_namespace set_host_device_down move_into_pod rename_in_pod : Step
  open_for_restore move_back find_restored restore_name : Step

pub data HostError : Type 0 where
  kernel : Fault → HostError
  during : Step → HostError → HostError
  state_missing : HostError
  identity_changed : String → HostError
  not_found : String → String → HostError
  bad_text : String → HostError
  namespace_unavailable : String → HostError
  rollback_failed : HostError → HostError → HostError
  unsupported_type : String → HostError

-- A call: the world before, the answer and the world after.
abbrev pub Action : Type 0 → Type 0 → Type 0
Action W A = W → Result HostError A × W

abbrev pub Call : Type 0 → Type 0 → Type 0
Call W A = W → Result Fault A × W

pub record Netlink (W : Type 0) : Type 0 where
  pub netns_get : Call W ℕ
  pub netns_from_path : String → Call W ℕ
  pub netns_set : ℕ → Call W (Unit {0})
  pub link_by_name : String → Call W Link
  pub link_list : Call W (List Link)
  pub link_set_down : Link → Call W (Unit {0})
  pub link_set_up : Link → Call W (Unit {0})
  pub link_set_name : Link → String → Call W (Unit {0})
  pub link_set_mtu : Link → ℤ → Call W (Unit {0})
  pub link_set_hardware_addr : Link → String → Call W (Unit {0})
  pub link_set_ns_fd : Link → ℕ → Call W (Unit {0})
  pub addr_list : Link → Call W (List Address)
  pub addr_del : Link → Address → Call W (Unit {0})
  pub addr_add : Link → Address → Call W (Unit {0})

module _ {W A B : Type 0} where
  abbrev pub after : Result HostError A × W → (A → Action W B) → Result HostError B × W
  after (ok a, w) f = f a w
  after (err e, w) f = (err e, w)

infixl 5 ◌>>=◌ ◌>>◌
-- `if err != nil { return err }`
unfoldable pub ◌>>=◌ : {W A B : Type 0} → Action W A → (A → Action W B) → Action W B
m >>= f = λ w. after (m w) f

abbrev pub ◌>>◌ : {W B : Type 0} → Action W (Unit {0}) → Action W B → Action W B
m >> k = m >>= λ _. k

module _ {W A : Type 0} where
  unfoldable pub done : A → Action W A
  done a w = (ok a, w)

  unfoldable pub fail : HostError → Action W A
  fail e w = (err e, w)

  abbrev pub answered : Result Fault A × W → Result HostError A × W
  answered (ok a, w) = (ok a, w)
  answered (err e, w) = (err (kernel e), w)

  -- A call whose error is handed up.
  unfoldable pub call : Call W A → Action W A
  call c w = answered (c w)

  abbrev pub wrapped : Step → Result HostError A × W → Result HostError A × W
  wrapped step (ok a, w) = (ok a, w)
  wrapped step (err e, w) = (err (during step e), w)

  -- `fmt.Errorf("…: %w", err)`
  unfoldable pub while : Step → Action W A → Action W A
  while step m w = wrapped step (m w)

  -- What holds after an action that succeeds, if `P` holds before it.
  pub record Gives (P : W → Type 0) (m : Action W A) (Q : A → W → Type 0) : Type 0 where
    pub run : (w : W) → P w → (a : A) (w' : W) → m w ≡ (ok a, w') → Q a w'

-- `if test { … }`
unfoldable pub set_if : {W : Type 0} → Bool → Action W (Unit {0}) → Action W (Unit {0})
set_if test action = if test then action else done tt

module _ {W A B : Type 0} (P : W → Type 0) (R : A → W → Type 0) (Q : B → W → Type 0) where
  after_gives :
      (f : A → Action W B) (p : Result HostError A × W)
      → ((a : A) (w : W) → p ≡ (ok a, w) → R a w)
      → ((a : A) → Gives (R a) (f a) Q)
      → (b : B) (w' : W) → after p f ≡ (ok b, w')
      → Q b w'
  after_gives f (ok a, w) h k b w' e = (k a).run w (h a w refl) b w' e
  after_gives f (err x, w) h k b w' e = absurd (cc)

  pub gives_bind :
      (m : Action W A) (f : A → Action W B)
      → Gives P m R
      → ((a : A) → Gives (R a) (f a) Q)
      → Gives P (m >>= f) Q
  unfolding ◌>>=◌
  gives_bind m f h k = record { run = λ w p b w' e. after_gives f (m w) (h.run w p) k b w' e }

module _ {W A : Type 0} (P : W → Type 0) (Q : A → W → Type 0) where
  answered_gives :
      (p : Result Fault A × W)
      → ((a : A) (w : W) → p ≡ (ok a, w) → Q a w)
      → (a : A) (w : W) → answered p ≡ (ok a, w)
      → Q a w
  answered_gives (ok a, w) h b w' e =
      let same : ◌≡◌ {A = Result Fault A × W} (ok a, w) (ok b, w') = cc in h b w' same
  answered_gives (err x, w) h b w' e = absurd (cc)

  pub gives_call :
      (c : Call W A)
      → ((w : W) → P w → (a : A) (w' : W) → c w ≡ (ok a, w') → Q a w')
      → Gives P (call c) Q
  unfolding call
  gives_call c h = record { run = λ w p a w' e. answered_gives (c w) (h w p) a w' e }

  wrapped_gives :
      (step : Step) (p : Result HostError A × W)
      → ((a : A) (w : W) → p ≡ (ok a, w) → Q a w)
      → (a : A) (w : W) → wrapped step p ≡ (ok a, w)
      → Q a w
  wrapped_gives step (ok a, w) h b w' e = h b w' e
  wrapped_gives step (err x, w) h b w' e = absurd (cc)

  pub gives_while : (step : Step) (m : Action W A) → Gives P m Q → Gives P (while step m) Q
  unfolding while
  gives_while step m h = record { run = λ w p a w' e. wrapped_gives step (m w) (h.run w p) a w' e }

  pub gives_done : (a : A) → ((w : W) → P w → Q a w) → Gives P (done a) Q
  unfolding done
  gives_done a h = record {
    run = λ w p b w' e.
        let same : a ≡ b = cc in
        let there : w ≡ w' = cc in subst (Q b) there (subst (λ c. Q c w) same (h w p));
  }

  pub gives_fail : (x : HostError) → Gives P (fail x) Q
  unfolding fail
  gives_fail x = record { run = λ w p b w' e. absurd (cc) }
