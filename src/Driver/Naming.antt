-- ===== src/Driver/Naming.antt =====
-- internal/driver/driver.go: the names of a pod's interfaces, and the address that its annotations
-- ask for. Annotations are maps; a key that is missing reads as the empty text.
pub mod Unused
pub mod Static
use dra_linux_networks.Prelude.{
  ℕ, zero, suc, ◌+◌, ◌-◌, ◌<◌, Char, code, String, ◌<>◌, Bool, true, false, not, ◌&&◌, ◌||◌, Option,
  none, some, List, [], ◌∷◌, ltb, leb, eqb, ◌==◌, if◌then◌else◌, is_empty, contains, contains_any,
  has_prefix, trim_prefix, trim_space, replace_all, Result, ok, err,
}
use dra_linux_networks.Prelude.Decimal.{itoa, parse_digits}
use dra_linux_networks.Prelude.Dict.{Dict, lookup}
use dra_linux_networks.Driver.{NetworkConfig, DeviceConfig, PodConfig}

-- A text that may be missing from a map.
abbrev pub at_key : String → Dict String → String
at_key k m = elim (lookup k m) [ none ↦ "" | some s ↦ s ]

abbrev pub attr_prefix : String
attr_prefix = "linux-net.dra.infinitydon.com"

pub data StaticError : Type 0 where
  set_together no_claim_pool : String → StaticError
  pool_differs : String → String → String → StaticError

-- The loop of `podStaticAddress` over the two names that an annotation may use.
static_from : Dict String → String → List String → Result StaticError String
static_from annotations expected_pool [] = ok ""
static_from annotations expected_pool (base ∷ bases) =
    let rest = static_from annotations expected_pool bases in
    let address = trim_space (at_key (base <> ".address") annotations) in
    let pool = trim_space (at_key (base <> ".ip-pool") annotations) in
    if address == "" && pool == ""
    then rest
    else if address == "" || pool == ""
    then err (set_together base)
    else if expected_pool == ""
    then err (no_claim_pool base)
    else if not (pool == expected_pool)
    then err (pool_differs base pool expected_pool)
    else ok address

unfoldable pub pod_static_address :
    Dict String → String → String → String → Result StaticError String
unfolding static_from
pod_static_address annotations request interface_name expected_pool =
    if is_empty annotations
    then ok ""
    else static_from annotations expected_pool
        ((attr_prefix <> ("/" <> request)) ∷ (attr_prefix <> ("/" <> interface_name)) ∷ [])

-- The bytes of a text in UTF-8, which is what Go's `len` counts.
byte_size : Char → ℕ
byte_size c =
    if ltb (code c) 0x80
    then 1
    else if ltb (code c) 0x800
    then 2
    else if ltb (code c) 0x10000
    then 3
    else 4

unfoldable pub byte_len : String → ℕ
unfolding byte_size
byte_len String.[] = 0
byte_len (String.◌∷◌ c s) = byte_size c + byte_len s

pub data NameError : Type 0 where
  bad_length bad_characters name_in_use needs_annotation no_name_left : String → NameError
  bad_annotation : String → NameError → NameError

unfoldable pub validate_pod_interface_name : String → Result NameError (Unit {0})
unfolding byte_len
validate_pod_interface_name name =
    if name == "" || ltb 15 (byte_len name)
    then err (bad_length name)
    else if name == "." || name == ".." || contains_any name "/: \t\r\n"
    then err (bad_characters name)
    else ok tt

-- The interface names of a pod's devices that are not empty.
unfoldable pub used_names : Dict DeviceConfig → List String
used_names [] = []
used_names ((key, cfg) ∷ devices) =
    let rest = used_names devices in
    if cfg.network.interface_name == "" then rest else cfg.network.interface_name ∷ rest

-- `strconv.Atoi`, of a text of at most 15 bytes, if the number is not negative.
unfoldable pub atoi : String → Option ℕ
atoi s = if has_prefix s "+" then parse_digits (trim_prefix s "+") else parse_digits s

-- The loop over the indices, with as many rounds as there are indices left.
search_index : List String → ℕ → ℕ → Option String
search_index used zero index = none
search_index used (suc rounds) index =
    let later = search_index used rounds (index + 1) in
    let candidate = "net" <> itoa index in if contains used candidate then later else some candidate

-- The name of the configuration, or the next one that is free.
configured_name : List String → String → Result NameError String
unfolding search_index
configured_name used configured = elim (validate_pod_interface_name configured) [
  | err e ↦ err e
  | ok u ↦
      if not (contains used configured)
      then ok configured
      else if not (has_prefix configured "net")
      then err (needs_annotation configured)
      else (elim (atoi (trim_prefix configured "net")) [
        | none ↦ err (needs_annotation configured)
        | some start ↦
            if ltb start 1
            then err (needs_annotation configured)
            else (elim (search_index used (10000 - (start + 1)) (start + 1)) [
              | none ↦ err (no_name_left configured)
              | some name ↦ ok name
            ])
      ])
]

-- The loop over the two references by which an annotation may name the interface.
annotated_name :
    Dict String → List String → List String → Result NameError String → Result NameError String
annotated_name annotations used [] otherwise = otherwise
annotated_name annotations used (reference ∷ references) otherwise =
    let rest = annotated_name annotations used references otherwise in
    let key = attr_prefix <> ("/" <> (reference <> ".interface-name")) in
    let override = trim_space (at_key key annotations) in
    if reference == "" || override == ""
    then rest
    else (elim (validate_pod_interface_name override) [
      | err e ↦ err (bad_annotation key e)
      | ok u ↦ if contains used override then err (name_in_use override) else ok override
    ])

abbrev pub devices_or_none : Option PodConfig → Dict DeviceConfig
devices_or_none none = []
devices_or_none (some pod) = elim pod.devices [ none ↦ [] | some devices ↦ devices ]

new_name : Dict DeviceConfig → Dict String → String → String → String → Result NameError String
unfolding annotated_name configured_name used_names
new_name devices annotations claim_reference request configured =
    let used = used_names devices in
    annotated_name annotations used (trim_space claim_reference ∷ request ∷ [])
      (configured_name used (if configured == "" then "net1" else configured))

-- `podInterfaceName`, of the pod that the store has, if it has one. `claim_reference` is the
-- claim's annotation with the pod's name of the claim.
unfoldable pub pod_interface_name :
    Option PodConfig → Dict String → String → String → String → String → Result NameError String
unfolding new_name
pod_interface_name existing annotations claim_reference request storage_key configured =
    let devices = devices_or_none existing in
    let fresh = new_name devices annotations claim_reference request configured in
    elim (lookup storage_key devices) [
      | none ↦ fresh
      | some cfg ↦ if cfg.network.interface_name == "" then fresh else ok cfg.network.interface_name
    ]

unfoldable pub device_name : String → String
device_name if_name = replace_all if_name 46 "-"

-- The first characters of a text; a claim's UID is ASCII.
first_chars : ℕ → String → String
first_chars zero s = ""
first_chars (suc n) String.[] = ""
first_chars (suc n) (String.◌∷◌ c s) = String.◌∷◌ c (first_chars n s)

unfoldable pub host_child_name : DeviceConfig → String
unfolding first_chars byte_len
host_child_name cfg =
    let base = "lnd" <> replace_all cfg.claim_uid 45 "" in
    if ltb 12 (byte_len base) then first_chars 12 base else base
