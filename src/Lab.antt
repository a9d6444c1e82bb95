-- ===== src/Lab.antt =====
-- supervisor/internal/lab/lab.go and interfaces.go: the lab document, with the fields that the checks
-- and the interface list read; the fields that are only shown or passed on (positions, icons, texts,
-- capture and fault) are left out. A `Kind` or `LinkType` outside the constants is `other_…`.
pub mod Validate
pub mod WellFormed
use iolbox.Common.{ℕ, Bool, true, false, ltb, if◌then◌else◌, List, [], ◌∷◌, map, Option, none, some}
use iolbox.Common.Ints.{ℤ, pos, negsuc}
use iolbox.Common.Texts.{Text, codes}
use iolbox.Netmap.{ifaces_for_counts}
use iolbox.Netmap.Names.{iface_name}

abbrev pub lab_version : ℤ
lab_version = pos 1

pub data Kind : Type 0 where
  iol vpcs nat tool pc : Kind
  other_kind : Text → Kind

-- A value of `Config`, a raw JSON text, by what `json.Unmarshal` into a string does with it.
pub data RawMessage : Type 0 where
  json_string : Text → RawMessage
  json_null other_json : RawMessage

pub record ImageRef : Type 0 where
  pub id : Text
  pub filename : Text

-- A nil pointer is `none`.
pub record Node : Type 0 where
  pub id : ℤ
  pub kind : Kind
  pub name : Text
  pub image : Option ImageRef
  pub ram : ℤ
  pub ethernet : Option ℤ
  pub serial : Option ℤ
  pub config : Text → Option RawMessage

pub data LinkType : Type 0 where
  unset p2p segment : LinkType
  other_type : Text → LinkType

pub record Endpoint : Type 0 where
  pub node : ℤ
  pub interface : Text

pub record Link : Type 0 where
  pub id : ℤ
  pub type : LinkType
  pub endpoints : List Endpoint

pub record Lab : Type 0 where
  pub version : ℤ
  pub id : Text
  pub name : Text
  pub nodes : List Node
  pub links : List Link

pub effective_type : LinkType → LinkType
effective_type LinkType.unset = LinkType.p2p
effective_type t = t

-- `if p != nil && *p > 0 { groups = *p }`
group_count : ℕ → Option ℤ → ℕ
group_count unset_count none = unset_count
group_count unset_count (some (pos n)) = if ltb 0 n then n else unset_count
group_count unset_count (some (negsuc n)) = unset_count

pub counted_interfaces : Option ℤ → Option ℤ → List Text
unfolding group_count
counted_interfaces ethernet serial =
    map iface_name (ifaces_for_counts (group_count 1 ethernet) (group_count 0 serial))

interfaces_of : Kind → Option ℤ → Option ℤ → List Text
interfaces_of Kind.vpcs e s = codes "eth0" ∷ []
interfaces_of Kind.nat e s = codes "eth0" ∷ []
interfaces_of Kind.pc e s = codes "eth1" ∷ []
interfaces_of Kind.tool e s = codes "eth1" ∷ []
interfaces_of _ e s = counted_interfaces e s

pub interfaces : Node → List Text
unfolding interfaces_of
interfaces n = interfaces_of n.kind n.ethernet n.serial
