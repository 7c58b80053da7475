-- ===== src/Groups/Trunk.antt =====
-- internal/groups/trunk.go: the port that the default gateway is behind. The files are parameters, and so
-- are `net.ParseMAC` and `strconv.ParseInt` in base 0. The lines of /proc are shorter than a scanner's limit.
pub mod Learned
mod Examples
use perch_apd.Base.{
  ℕ, zero, suc, ◌+◌, ◌*◌, ◌/◌, ◌%◌, Bool, true, false, not, ◌&&◌, ◌||◌, Option, none, some, List,
  [], ◌∷◌, ◌++◌, ◌==◌, nat_eq, bytes_eq, ltb, leb, if◌then◌else◌, Bytes, codes, length, take, drop,
}
use perch_apd.Base.Int.{ℤ, pos, int_eq}
use perch_apd.Base.Number.{atoi, parse_hex32}
use perch_apd.Base.Text.{fields, split, itoa, trim_space, cut}

-- `FS`: what is read and listed below its root.
pub record Fs : Type 0 where
  pub read : Bytes → Option Bytes
  pub list : Bytes → Option (List Bytes)

abbrev pub byte_at : ℕ → Bytes → ℕ
byte_at n [] = 0
byte_at zero (c ∷ s) = c
byte_at (suc n) (c ∷ s) = byte_at n s

abbrev field_at : ℕ → List Bytes → Bytes
field_at n [] = []
field_at zero (w ∷ ws) = w
field_at (suc n) (w ∷ ws) = field_at n ws

-- An entry of a `brforward` dump for this address, on a port and not the bridge's own.
abbrev pub is_entry : Bytes → Bytes → Bool
is_entry mac e = take 6 e == mac && byte_at 7 e == 0

abbrev pub entry_port : Bytes → ℕ
entry_port e = byte_at 12 e * 256 + byte_at 6 e

-- The loop of `fdbPort`, with the number of rounds as fuel.
unfoldable pub fdb_from : ℕ → Bytes → Bytes → Option ℕ
fdb_from zero raw mac = none
fdb_from (suc n) raw mac =
    let rest = fdb_from n (drop 16 raw) mac in
    if leb 16 (length raw)
    then (if is_entry mac (take 16 raw) then some (entry_port (take 16 raw)) else rest)
    else none

-- `fdbPort`.
unfoldable pub fdb_port : Bytes → Bytes → Option ℕ
unfolding fdb_from
fdb_port raw mac = fdb_from (length raw) raw mac

-- A `uint32` in little endian.
abbrev little_endian : ℕ → Bytes
little_endian v = v % 256 ∷ v / 256 % 256 ∷ v / 65536 % 256 ∷ v / 16777216 % 256 ∷ []

-- `String` of an IPv4 address.
abbrev dotted : Bytes → Bytes
dotted [] = []
dotted (a ∷ []) = itoa a
dotted (a ∷ b ∷ s) = itoa a ++ b'.' ∷ dotted (b ∷ s)

is_default : List Bytes → Bool
is_default f =
    leb 8 (length f) && (field_at 1 f == codes "00000000" && field_at 7 f == codes "00000000")

abbrev not_zero : Option ℕ → Option ℕ
not_zero none = none
not_zero (some v) = if v == 0 then none else some v

-- One line of /proc/net/route.
route_of : List Bytes → Option (Bytes × Bytes)
unfolding is_default parse_hex32
route_of f = if not (is_default f) then none else elim (not_zero (parse_hex32 (field_at 2 f))) [
  | none ↦ none
  | some v ↦ some (field_at 0 f, little_endian v)
]

unfoldable pub first_route : List Bytes → Option (Bytes × Bytes)
unfolding route_of fields
first_route [] = none
first_route (l ∷ ls) =
    let rest = first_route ls in elim (route_of (fields l)) [ none ↦ rest | some r ↦ some r ]

-- `defaultRoute`: the device and the gateway.
unfoldable pub default_route : Fs → Option (Bytes × Bytes)
unfolding first_route split
default_route fs = elim (fs.read (codes "proc/net/route")) [
  | none ↦ none
  | some b ↦ first_route (split b'\n' b)
]

-- The parts of a device's name before and behind its last dot.
last_dot : Bytes → Option (Bytes × Bytes)
last_dot [] = none
last_dot (c ∷ s) =
    let rest = last_dot s in
    elim rest [
      | some (before, behind) ↦ some (c ∷ before, behind)
      | none ↦ if c == b'.' then some ([], s) else none
    ]

-- The device without its VLAN; an `int` is below `limit`.
unfoldable pub bridge_of : ℕ → Bytes → Bytes
unfolding last_dot atoi
bridge_of limit dev = elim (last_dot dev) [
  | none ↦ dev
  | some ([], id) ↦ dev
  | some (c ∷ parent, id) ↦ elim (atoi limit id) [ none ↦ dev | some _ ↦ c ∷ parent ]
]

-- A file of the bridge.
abbrev pub bridge_file : Bytes → Bytes → Bytes
bridge_file bridge name = codes "sys/class/net/" ++ (bridge ++ (codes "/" ++ name))

abbrev has_number : ℕ → Option ℤ → Bool
has_number n none = false
has_number n (some i) = i == pos n

module _ (parse_mac : Bytes → Option Bytes) (parse_int : Bytes → Option ℤ) where
  neighbor_of : Bytes → List Bytes → Option Bytes
  neighbor_of ip f =
      if leb 4 (length f) && field_at 0 f == ip && not (field_at 3 f == codes "00:00:00:00:00:00")
      then parse_mac (field_at 3 f)
      else none

  first_neighbor : Bytes → List Bytes → Option Bytes
  unfolding neighbor_of fields
  first_neighbor ip [] = none
  first_neighbor ip (l ∷ ls) =
      let rest = first_neighbor ip ls in
      elim (neighbor_of ip (fields l)) [ none ↦ rest | some mac ↦ some mac ]

  -- `neighborMAC`.
  unfoldable pub neighbor_mac : Fs → Bytes → Option Bytes
  unfolding first_neighbor itoa split
  neighbor_mac fs ip = elim (fs.read (codes "proc/net/arp")) [
    | none ↦ none
    | some b ↦ first_neighbor (dotted ip) (split b'\n' b)
  ]

  -- The number of a port of the bridge.
  unfoldable pub port_no : Fs → Bytes → Bytes → Option ℤ
  unfolding trim_space
  port_no fs bridge p =
      elim (fs.read (bridge_file bridge (codes "brif/" ++ (p ++ codes "/port_no")))) [
        | none ↦ none
        | some b ↦ parse_int (trim_space b)
      ]

  -- The loop over the ports.
  unfoldable pub find_port : Fs → Bytes → ℕ → List Bytes → Option Bytes
  unfolding port_no
  find_port fs bridge n [] = none
  find_port fs bridge n (p ∷ ps) =
      let rest = find_port fs bridge n ps in
      if has_number n (port_no fs bridge p) then some p else rest

  learned_on : Fs → Bytes → List Bytes → Bytes → Option Bytes → Option Bytes
  unfolding fdb_port find_port
  learned_on fs bridge ports mac none = none
  learned_on fs bridge ports mac (some raw) = elim (fdb_port raw mac) [
    | none ↦ none
    | some n ↦ find_port fs bridge n ports
  ]

  behind_bridge : Fs → Bytes → List Bytes → Bytes → Option Bytes
  unfolding learned_on neighbor_mac
  behind_bridge fs bridge ports gw = elim (neighbor_mac fs gw) [
    | none ↦ none
    | some mac ↦ learned_on fs bridge ports mac (fs.read (bridge_file bridge (codes "brforward")))
  ]

  port_behind : Fs → Bytes → Bytes → Option Bytes
  unfolding behind_bridge
  port_behind fs bridge gw = elim (fs.list (bridge_file bridge (codes "brif"))) [
    | none ↦ some bridge
    | some ports ↦ behind_bridge fs bridge ports gw
  ]

  -- `DetectTrunk`, or none for an error.
  unfoldable pub detect_trunk : ℕ → Fs → Option Bytes
  unfolding default_route bridge_of port_behind
  detect_trunk limit fs = elim (default_route fs) [
    | none ↦ none
    | some (dev, gw) ↦ port_behind fs (bridge_of limit dev) gw
  ]
