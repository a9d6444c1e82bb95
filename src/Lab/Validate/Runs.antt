-- ===== src/Lab/Validate/Runs.antt =====
-- validate.go: a lab of an IOL router and a NAT node.
use iolbox.Common.{◌≡◌, ◌↔◌, refl, [], ◌∷◌, none, some}
use iolbox.Common.Ints.{pos}
use iolbox.Common.Texts.{codes}
use iolbox.Netmap.{validate_instance}
use iolbox.Netmap.Names.{parse_iface}
use iolbox.Lab.{Kind, Node, LinkType, Link, Lab}
use iolbox.Lab.WellFormed.{WellFormed}
use iolbox.Lab.Validate.{
  ok, refused, referenced_twice, pack_required, validate, has_image, valid_instance,
  groups_in_range, enough_ram,
}
use iolbox.Lab.Validate.Refinement.{validate-WellFormed}

abbrev router : Node
router = record {
  id = pos 0;
  kind = Kind.iol;
  name = codes "R1";
  image = some (record { id = codes "a1b2"; filename = codes "l3.bin" });
  ram = pos 512;
  ethernet = some (pos 1);
  serial = none;
  config = λ _. none;
}

abbrev nat_node : Node
nat_node = record {
  id = pos 7;
  kind = Kind.nat;
  name = codes "NAT";
  image = none;
  ram = pos 0;
  ethernet = none;
  serial = none;
  config = λ _. none;
}

abbrev uplink : Link
uplink = record {
  id = pos 1;
  type = LinkType.unset;
  endpoints =
      record { node = pos 0; interface = codes "e0/0" }
      ∷ record { node = pos 7; interface = codes "eth0" }
      ∷ [];
}

abbrev small_lab : Lab
small_lab = record {
  version = pos 1;
  id = codes "lab1";
  name = codes "Uplink";
  nodes = router ∷ nat_node ∷ [];
  links = uplink ∷ [];
}

small_lab_accepted : validate small_lab ≡ ok tt
unfolding validate has_image valid_instance validate_instance groups_in_range enough_ram parse_iface
small_lab_accepted = refl

nat_node_twice :
    validate (record small_lab { links = uplink ∷ record uplink { id = pos 2 } ∷ [] })
    ≡ refused (referenced_twice (pos 7))
unfolding validate has_image valid_instance validate_instance groups_in_range enough_ram parse_iface
nat_node_twice = refl

tool_without_pack :
    validate (record small_lab { nodes = router ∷ record nat_node { kind = Kind.tool } ∷ [] })
    ≡ refused (pack_required (pos 7))
unfolding validate has_image valid_instance validate_instance groups_in_range enough_ram parse_iface
tool_without_pack = refl

validate-WellFormed_example : (validate small_lab ≡ ok tt) ↔ WellFormed small_lab
validate-WellFormed_example = validate-WellFormed small_lab
