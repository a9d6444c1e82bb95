-- ===== src/Lab/Validate.antt =====
-- supervisor/internal/lab/validate.go. The maps are functions; `Violation` has a constructor for each
-- error of the source.
pub mod Steps
pub mod Nodes
pub mod NodeMaps
pub mod Endpoints
pub mod EndpointLoop
pub mod Links
pub mod Refinement
mod Runs
use iolbox.Common.{
  ℕ, ◌+◌, ◌≡◌, Bool, true, false, not, ◌&&◌, ◌||◌, ◌==◌, ltb, if◌then◌else◌, List, [], ◌∷◌, length,
  Option, none, some,
}
use iolbox.Common.Ints.{ℤ, pos, negsuc, is_negative, is_above, eq_int}
use iolbox.Common.Texts.{Text, codes, eq_text}
use iolbox.Netmap.{validate_instance}
use iolbox.Netmap.Names.{parse_iface}
use iolbox.Lab.{
  Kind, RawMessage, ImageRef, Node, LinkType, Endpoint, Link, Lab, lab_version, effective_type,
}

pub data Violation : Type 0 where
  bad_version : ℤ → Violation
  lab_id_required lab_name_required : Violation
  negative_node_id : Text → Violation
  duplicate_node_id node_name_required image_required instance_range : ℤ → Violation
  pack_required pack_not_string unknown_kind : ℤ → Violation
  ethernet_range serial_range ram_too_low : ℤ → Violation
  negative_link_id : Violation
  duplicate_link_id too_few_endpoints not_p2p : ℤ → Violation
  unknown_node empty_interface bad_interface : ℤ → Violation
  not_eth0 not_eth1 referenced_twice : ℤ → Violation

-- What a check comes to: nil with a value, or the first violation.
pub data Checked {ℓ} (A : Type ℓ) : Type ℓ where
  refused : Violation → Checked A
  ok : A → Checked A

-- `if … { return err }`, by the test that passes.
abbrev pub unless : Bool → Violation → Checked (Unit {0})
unless false violation = refused violation
unless true violation = ok tt

infixl 5 ◌>>=◌ ◌>>◌
abbrev pub ◌>>=◌ {κ ℓ} : {A : Type κ} {B : Type ℓ} → Checked A → (A → Checked B) → Checked B
refused violation >>= next = refused violation
ok value >>= next = next value

abbrev pub ◌>>◌ {κ} : {B : Type κ} → Checked (Unit {0}) → Checked B → Checked B
first >> next = first >>= λ passed. next

abbrev pub is_empty : Text → Bool
is_empty [] = true
is_empty (c ∷ s) = false

abbrev pub is_some {ℓ} : {A : Type ℓ} → Option A → Bool
is_some none = false
is_some (some a) = true

pub has_image : Option ImageRef → Bool
has_image none = false
has_image (some image) = not (is_empty image.id)

-- `netmap.ValidateInstance`, on an id that is not negative.
pub valid_instance : ℤ → Bool
valid_instance (pos n) = validate_instance n
valid_instance (negsuc n) = false

-- `refused != nil || packID == ""`: `null` leaves the string empty.
pub is_pack_name : RawMessage → Bool
is_pack_name (RawMessage.json_string s) = not (is_empty s)
is_pack_name _ = false

pub check_pack : ℤ → Option RawMessage → Checked (Unit {0})
check_pack id none = refused (pack_required id)
check_pack id (some pack) = unless (is_pack_name pack) (pack_not_string id)

-- The `switch` on the kind of a node.
pub check_kind : Kind → Node → Checked (Unit {0})
unfolding check_pack
check_kind Kind.iol n = do
  unless (has_image n.image) (image_required n.id)
  unless (valid_instance n.id) (instance_range n.id)
check_kind Kind.vpcs n = ok tt
check_kind Kind.nat n = ok tt
check_kind Kind.tool n = check_pack n.id (n.config (codes "pack"))
check_kind Kind.pc n = ok tt
check_kind (Kind.other_kind k) n = refused (unknown_kind n.id)

-- `p != nil && (*p < 0 || *p > 16)`, denied.
pub groups_in_range : Option ℤ → Bool
groups_in_range none = true
groups_in_range (some z) = not (is_negative z || is_above 16 z)

-- `n.RAM != 0 && n.RAM < 32`, denied.
pub enough_ram : ℤ → Bool
enough_ram (pos n) = n == 0 || not (ltb n 32)
enough_ram (negsuc n) = false

abbrev pub NodeMap : Type 0
NodeMap = ℤ → Option Node

abbrev pub put_node : NodeMap → Node → NodeMap
put_node nodes n z = if eq_int z n.id then some n else nodes z

-- The body of the loop over the nodes, up to the map.
pub check_node : NodeMap → Node → Checked (Unit {0})
unfolding check_kind
check_node nodes n = do
  unless (not (is_negative n.id)) (negative_node_id n.name)
  unless (not (is_some (nodes n.id))) (duplicate_node_id n.id)
  unless (not (is_empty n.name)) (node_name_required n.id)
  check_kind n.kind n
  unless (groups_in_range n.ethernet) (ethernet_range n.id)
  unless (groups_in_range n.serial) (serial_range n.id)
  unless (enough_ram n.ram) (ram_too_low n.id)

pub check_nodes : NodeMap → List Node → Checked NodeMap
unfolding check_node
check_nodes nodes [] = ok nodes
check_nodes nodes (n ∷ rest) = do check_node nodes n; check_nodes (put_node nodes n) rest

-- `extEndpoints`
abbrev pub Counts : Type 0
Counts = ℤ → ℕ

abbrev pub bump : Counts → ℤ → Counts
bump counts id z = if eq_int z id then counts z + 1 else counts z

pub count_endpoint : Counts → ℤ → Checked Counts
count_endpoint counts id = do
  unless (not (ltb 1 (bump counts id id))) (referenced_twice id)
  ok (bump counts id)

-- The `switch` on the kind of the node that an endpoint is on.
pub check_interface : Kind → ℤ → Counts → Endpoint → Checked Counts
unfolding count_endpoint
check_interface Kind.iol link counts ep = do
  unless (is_some (parse_iface ep.interface)) (bad_interface link)
  ok counts
check_interface Kind.nat link counts ep = do
  unless (eq_text ep.interface (codes "eth0")) (not_eth0 link)
  count_endpoint counts ep.node
check_interface Kind.tool link counts ep = do
  unless (eq_text ep.interface (codes "eth1")) (not_eth1 link)
  count_endpoint counts ep.node
check_interface Kind.pc link counts ep = do
  unless (eq_text ep.interface (codes "eth1")) (not_eth1 link)
  count_endpoint counts ep.node
check_interface _ link counts ep = ok counts

pub check_endpoint_on : Option Node → ℤ → Counts → Endpoint → Checked Counts
unfolding check_interface
check_endpoint_on none link counts ep = refused (unknown_node link)
check_endpoint_on (some n) link counts ep = do
  unless (not (is_empty ep.interface)) (empty_interface link)
  check_interface n.kind link counts ep

pub check_endpoints : NodeMap → ℤ → Counts → List Endpoint → Checked Counts
unfolding check_endpoint_on
check_endpoints nodes link counts [] = ok counts
check_endpoints nodes link counts (ep ∷ rest) = do
  counts' ← check_endpoint_on (nodes ep.node) link counts ep
  check_endpoints nodes link counts' rest

abbrev pub is_p2p : LinkType → Bool
is_p2p LinkType.p2p = true
is_p2p _ = false

abbrev pub put_link : (ℤ → Bool) → ℤ → ℤ → Bool
put_link ids id z = if eq_int z id then true else ids z

-- The tests of a link before its endpoints.
pub check_link : (ℤ → Bool) → Link → Checked (Unit {0})
unfolding effective_type
check_link ids l = do
  unless (not (is_negative l.id)) negative_link_id
  unless (not (ids l.id)) (duplicate_link_id l.id)
  unless (not (ltb (length l.endpoints) 2)) (too_few_endpoints l.id)
  unless (not (is_p2p (effective_type l.type) && not (length l.endpoints == 2))) (not_p2p l.id)

pub check_links : NodeMap → (ℤ → Bool) → Counts → List Link → Checked (Unit {0})
unfolding check_link check_endpoints
check_links nodes ids counts [] = ok tt
check_links nodes ids counts (l ∷ rest) = do
  check_link ids l
  counts' ← check_endpoints nodes l.id counts l.endpoints
  check_links nodes (put_link ids l.id) counts' rest

-- `ok tt` is nil.
pub validate : Lab → Checked (Unit {0})
unfolding check_nodes check_links
validate l = do
  unless (eq_int l.version lab_version) (bad_version l.version)
  unless (not (is_empty l.id)) lab_id_required
  unless (not (is_empty l.name)) lab_name_required
  nodes ← check_nodes (λ _. none) l.nodes
  check_links nodes (λ _. false) (λ _. 0) l.links
