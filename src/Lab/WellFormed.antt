-- ===== src/Lab/WellFormed.antt =====
-- What a lab document must be, said without the order of the checks and without their maps: the
-- invariants that the comment on `Validate` in supervisor/internal/lab/validate.go lists.
use iolbox.Common.{
  ℕ, ◌+◌, ◌≤◌, ◌≡◌, ◌≢◌, ◌⊎◌, if◌then◌else◌, List, [], ◌∷◌, ◌++◌, length, map, Option, none, some,
  All,
}
use mathlib.Core.List.{Memᴰ}
use iolbox.Common.Ints.{ℤ, pos, negsuc, eq_int}
use iolbox.Common.Texts.{Text, codes}
use iolbox.Netmap.{Iface}
use iolbox.Netmap.Names.{parse_iface}
use iolbox.Lab.{Kind, RawMessage, ImageRef, Node, LinkType, Endpoint, Link, Lab, lab_version}

-- `lo ≤ z ≤ hi`
abbrev pub Within : ℕ → ℕ → ℤ → Type 0
Within lo hi (pos n) = (lo ≤ n) × (n ≤ hi)
Within lo hi (negsuc n) = ⊥

abbrev pub IsNat : ℤ → Type 0
IsNat (pos n) = Unit {0}
IsNat (negsuc n) = ⊥

abbrev pub OptionalWithin : ℕ → ℕ → Option ℤ → Type 0
OptionalWithin lo hi none = Unit {0}
OptionalWithin lo hi (some z) = Within lo hi z

-- Zero, which stands for the default, or 32 at least.
abbrev pub RamOk : ℤ → Type 0
RamOk (pos n) = (n ≡ 0) ⊎ (32 ≤ n)
RamOk (negsuc n) = ⊥

-- What a node of the kind has of its own; an IOL node's instance id is its id plus one.
abbrev pub KindOk : Kind → Node → Type 0
KindOk Kind.iol n =
    ((image : ImageRef) × (n.image ≡ some image) × (image.id ≢ [])) × Within 0 1023 n.id
KindOk Kind.vpcs n = Unit {0}
KindOk Kind.nat n = Unit {0}
KindOk Kind.tool n =
    (s : Text) × (n.config (codes "pack") ≡ some (RawMessage.json_string s)) × (s ≢ [])
KindOk Kind.pc n = Unit {0}
KindOk (Kind.other_kind k) n = ⊥

abbrev pub NodeOk : Node → Type 0
NodeOk n =
    IsNat n.id
    × (n.name ≢ [])
    × KindOk n.kind n
    × OptionalWithin 0 16 n.ethernet
    × OptionalWithin 0 16 n.serial
    × RamOk n.ram

-- No id twice.
abbrev pub Distinct : List ℤ → Type 0
Distinct [] = Unit {0}
Distinct (z ∷ zs) = All (λ y. y ≢ z) zs × Distinct zs

abbrev pub InterfaceOk : Kind → Text → Type 0
InterfaceOk Kind.iol s = (i : Iface) × (parse_iface s ≡ some i)
InterfaceOk Kind.nat s = s ≡ codes "eth0"
InterfaceOk Kind.tool s = s ≡ codes "eth1"
InterfaceOk Kind.pc s = s ≡ codes "eth1"
InterfaceOk _ s = Unit {0}

-- The kinds with one interface.
abbrev pub IsSingle : Kind → Type 0
IsSingle Kind.nat = Unit {0}
IsSingle Kind.tool = Unit {0}
IsSingle Kind.pc = Unit {0}
IsSingle _ = ⊥

-- An endpoint on a node of the document, at an interface that the node's kind can have.
abbrev pub EndpointOk : List Node → Endpoint → Type 0
EndpointOk nodes ep =
    (n : Node) × Memᴰ n nodes
    × (n.id ≡ ep.node)
    × (ep.interface ≢ [])
    × InterfaceOk n.kind ep.interface

-- Two ends exactly, when the type says so or says nothing.
abbrev pub EndsOk : LinkType → ℕ → Type 0
EndsOk LinkType.unset k = k ≡ 2
EndsOk LinkType.p2p k = k ≡ 2
EndsOk LinkType.segment k = 2 ≤ k
EndsOk (LinkType.other_type t) k = 2 ≤ k

abbrev pub LinkOk : List Node → Link → Type 0
LinkOk nodes l =
    IsNat l.id × EndsOk l.type (length l.endpoints) × All (EndpointOk nodes) l.endpoints

-- How many endpoints are on a node.
abbrev pub references : ℤ → List Endpoint → ℕ
references z [] = 0
references z (ep ∷ eps) = (if eq_int z ep.node then 1 else 0) + references z eps

abbrev pub all_endpoints : List Link → List Endpoint
all_endpoints [] = []
all_endpoints (l ∷ ls) = l.endpoints ++ all_endpoints ls

abbrev pub node_ids : List Node → List ℤ
node_ids = map (λ n. n.id)

abbrev pub link_ids : List Link → List ℤ
link_ids = map (λ l. l.id)

pub record WellFormed (l : Lab) : Type 0 where
  pub version : l.version ≡ lab_version
  pub lab_id : l.id ≢ []
  pub lab_name : l.name ≢ []
  pub nodes_ok : All NodeOk l.nodes
  pub node_ids_distinct : Distinct (node_ids l.nodes)
  pub links_ok : All (LinkOk l.nodes) l.links
  pub link_ids_distinct : Distinct (link_ids l.links)
  pub single_interfaces :
      (n : Node) → Memᴰ n l.nodes → IsSingle n.kind → references n.id (all_endpoints l.links) ≤ 1
