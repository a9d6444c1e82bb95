-- ===== src/Netmap.antt =====
-- supervisor/internal/netmap/netmap.go: the interfaces of a node and the reserved instance ids. The
-- set of the real instances is a function. The text of a NETMAP file and of an interface name is not
-- modelled.
pub mod Pool
pub mod Interfaces
pub mod Names
mod Runs
use iolbox.Common.{
  ℕ, zero, suc, ◌+◌, ◌-◌, ◌*◌, Bool, true, false, ◌||◌, ltb, leb, if◌then◌else◌, List, [], ◌∷◌,
  ◌++◌, length, Option, some, none,
}

abbrev pub ports_per_adapter : ℕ
ports_per_adapter = 16

abbrev pub ports_per_group : ℕ
ports_per_group = 4

abbrev pub max_iol_instance : ℕ
max_iol_instance = 1024

abbrev pub pseudo_instance_base : ℕ
pseudo_instance_base = 500

unfoldable pub instance_id : ℕ → ℕ
instance_id node_id = node_id + 1

-- `false` is the error.
unfoldable pub validate_instance : ℕ → Bool
unfolding instance_id
validate_instance node_id =
    let inst = instance_id node_id in
    if ltb inst 1 || ltb max_iol_instance inst then false else true

-- The loop of `AllocPseudoInstances`, with the number of ids that are left from `id` on.
pub alloc_loop : ℕ → (ℕ → Bool) → ℕ → ℕ → List ℕ → List ℕ
alloc_loop zero real n id out = out
alloc_loop (suc left) real n id out =
    let rest = alloc_loop left real n (id + 1) (if real id then out else out ++ (id ∷ [])) in
    if ltb (length out) n then rest else out

pub alloc_pseudo_instances : (ℕ → Bool) → ℕ → Option (List ℕ)
alloc_pseudo_instances real n =
    let out =
      alloc_loop (max_iol_instance + 1 - pseudo_instance_base) real n pseudo_instance_base [] in
    if ltb (length out) n then none else some out

pub data IfaceType : Type 0 where
  ethernet serial : IfaceType

pub record Iface : Type 0 where
  pub type : IfaceType
  pub adapter : ℕ
  pub port : ℕ

pub index : Iface → ℕ
index i = i.adapter * ports_per_adapter + i.port

-- The inner loop of `IfacesForCounts`: `k` ports of a group from `p` on.
pub group_ports : IfaceType → ℕ → ℕ → ℕ → List Iface
group_ports t a zero p = []
group_ports t a (suc k) p = record { type = t; adapter = a; port = p } ∷ group_ports t a k (p + 1)

-- One of its outer loops: `n` groups from `a` on.
pub groups : IfaceType → ℕ → ℕ → List Iface
groups t zero a = []
groups t (suc n) a = group_ports t a ports_per_group 0 ++ groups t n (a + 1)

pub ifaces_for_counts : ℕ → ℕ → List Iface
ifaces_for_counts eth_groups serial_groups =
    groups IfaceType.ethernet eth_groups 0 ++ groups IfaceType.serial serial_groups 0
