-- ===== src/Groups/Trunk/Examples.antt =====
-- internal/groups/trunk.go: a bridge with two ports, the gateway behind the second.
use perch_apd.Base.{
  Option, none, some, [], ◌∷◌, ◌≡◌, refl, ◌==◌, bytes_eq, bytes_beq, if◌then◌else◌, Bytes, codes,
}
use perch_apd.Base.Int.{ℤ, pos}
use perch_apd.Base.Number.{atoi, parse_hex32}
use perch_apd.Base.Text.{fields, split, itoa, trim_space}
use perch_apd.Groups.Trunk.{
  Fs, detect_trunk, default_route, bridge_of, neighbor_mac, port_no, fdb_port, find_port,
}
use perch_apd.Groups.Trunk.Learned.{IsTrunk, detect_trunk-IsTrunk}

abbrev parse_mac : Bytes → Option Bytes
parse_mac s = if s == codes "02:00:00:00:00:01" then some (2 ∷ 0 ∷ 0 ∷ 0 ∷ 0 ∷ 1 ∷ []) else none

abbrev parse_int : Bytes → Option ℤ
parse_int s =
    if s == codes "0x1" then some (pos 1) else if s == codes "0x2" then some (pos 2) else none

-- The bridge's own entry for the address comes first.
abbrev dump : Bytes
dump =
    2 ∷ 0 ∷ 0 ∷ 0 ∷ 0 ∷ 1 ∷ 1 ∷ 1 ∷ 0 ∷ 0 ∷ 0 ∷ 0 ∷ 0 ∷ 0 ∷ 0 ∷ 0 ∷ 2 ∷ 0 ∷ 0 ∷ 0 ∷ 0 ∷ 1 ∷ 2 ∷ 0
    ∷ 9 ∷ 0 ∷ 0 ∷ 0 ∷ 0 ∷ 0 ∷ 0 ∷ 0 ∷ []

abbrev read_file : Bytes → Option Bytes
read_file path =
    if path == codes "proc/net/route"
    then some (codes "Iface Destination Gateway\nbr-lan.7 00000000 0101A8C0 0003 0 0 0 00000000\n")
    else if path == codes "proc/net/arp"
    then some (codes "192.168.1.1 0x1 0x2 02:00:00:00:00:01 * br-lan\n")
    else if path == codes "sys/class/net/br-lan/brforward"
    then some dump
    else if path == codes "sys/class/net/br-lan/brif/lan1/port_no"
    then some (codes "0x1\n")
    else if path == codes "sys/class/net/br-lan/brif/lan2/port_no"
    then some (codes "0x2\n")
    else none

abbrev two_ports : Fs
two_ports = record {
  read = read_file;
  list = λ path.
      if path == codes "sys/class/net/br-lan/brif"
      then some (codes "lan1" ∷ codes "lan2" ∷ [])
      else none;
}

trunk_found : detect_trunk parse_mac parse_int 9223372036854775808 two_ports ≡ some (codes "lan2")
unfolding detect_trunk default_route bridge_of neighbor_mac port_no fdb_port find_port fields split
    itoa trim_space atoi parse_hex32 bytes_beq
trunk_found = refl

detect_trunk-IsTrunk_example :
    IsTrunk parse_mac parse_int 9223372036854775808 two_ports (codes "lan2")
detect_trunk-IsTrunk_example =
    detect_trunk-IsTrunk parse_mac parse_int 9223372036854775808 two_ports (codes "lan2")
      trunk_found
