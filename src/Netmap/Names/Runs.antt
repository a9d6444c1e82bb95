-- ===== src/Netmap/Names/Runs.antt =====
-- netmap.go: interface names.
use iolbox.Common.{◌≡◌, refl, none, some, arith}
use iolbox.Common.Texts.{codes}
use iolbox.Netmap.{Iface, IfaceType}
use iolbox.Netmap.Names.{parse_iface, iface_name}
use iolbox.Netmap.Names.Parse.{parse_iface-iface_name}

abbrev serial_port : Iface
serial_port = record { type = IfaceType.serial; adapter = 12; port = 3 }

long_name : parse_iface (codes " Serial12/+3\n") ≡ some serial_port
unfolding parse_iface
long_name = refl

port_sixteen : parse_iface (codes "e0/16") ≡ none
unfolding parse_iface
port_sixteen = refl

serial_name : iface_name serial_port ≡ codes "s12/3"
unfolding iface_name
serial_name = refl

parse_iface-iface_name_example : parse_iface (iface_name serial_port) ≡ some serial_port
parse_iface-iface_name_example = parse_iface-iface_name serial_port (omega arith) (omega arith)
