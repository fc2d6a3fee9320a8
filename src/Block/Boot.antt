-- ===== src/Block/Boot.antt =====
-- Which disk `block_init` binds when the firmware's path is the encoding of a list of nodes.
use funny_os.Common.{
  get_or-append, ℕ, suc, ◌+◌, ◌%◌, ◌≤◌, ◌<◌, ◌≡◌, refl, sym, ap, false, Option, none, some, List,
  [], ◌∷◌, ◌++◌, arith, ltb, ◌==◌, length, length-append, All,
}
use funny_os.BootInfo.{BootInfo}
use funny_os.Pci.{Ports, PciAddress, PciDeviceInfo, Pci, pci_read_config8, pci_read_device_info}
use funny_os.Block.{
  BlockPathParseResult, invalid, absent, found, block_boot_path_to_ata, BlockPciPathHop,
  resolve_from, at_port, resolved, block_boot_path_to_ahci,
}
use funny_os.Block.Nodes.{
  Node, pci, sata, atapi, other, encode, encode_path, IsNode, hops_of, port_of, drive_of, Holds,
  Holds-start,
}
use funny_os.Block.EncodedAta.{walk_ata}
use funny_os.Block.Encoded.{walk_ahci}
use funny_os.Block.Bound.{ahci_bytes}

abbrev address_of : (bus : ℕ) → BlockPciPathHop → PciAddress
address_of bus hop = record { bus = bus; device = hop.device; function = hop.function }

-- The devices on the way lead from a bus to a controller, when the configuration space is read from
-- one state to another: each but the last is a PCI bridge (class 6, subclass 4), whose register 0x19
-- holds the number of the bus behind it, which is a byte and not 0xff.
pub data Leads {W : Type 0} (ports : Ports W)
    : ℕ → List BlockPciPathHop → Pci W → PciAddress → Pci W → Type 0 where
  controller :
      (bus : ℕ) (hop : BlockPciPathHop) (info : PciDeviceInfo) (s t : Pci W)
      → pci_read_device_info ports (address_of bus hop) s ≡ (some info, t)
      → Leads ports bus (hop ∷ []) s (address_of bus hop) t
  bridge :
      (bus behind : ℕ) (hop next_hop : BlockPciPathHop) (hops : List BlockPciPathHop)
      (info : PciDeviceInfo) (a : PciAddress) (s t u v : Pci W)
      → pci_read_device_info ports (address_of bus hop) s ≡ (some info, t)
      → info.class_code ≡ 6
      → info.subclass ≡ 4
      → pci_read_config8 ports (address_of bus hop) 0x19 t ≡ (behind, u)
      → behind < 0xff
      → Leads ports behind (next_hop ∷ hops) u a v
      → Leads ports bus (hop ∷ next_hop ∷ hops) s a v

pub Leads-resolve_from :
    {W : Type 0} (ports : Ports W) (bus : ℕ) (hops : List BlockPciPathHop) (s v : Pci W)
    (a : PciAddress)
    → Leads ports bus hops s a v
    → resolve_from ports bus hops s ≡ (some a, v)
unfolding resolve_from
Leads-resolve_from ports bus hops s v a (controller _ hop info _ _ e) = rw e refl
Leads-resolve_from ports bus hops s v a
      (bridge _ behind hop next_hop later info _ _ t u _ e class_code subclass r small rest) =
    let ih = Leads-resolve_from ports behind (next_hop ∷ later) u v a rest in
    let z : (behind == 0xff) ≡ false = ground arith in
    let more : (length (next_hop ∷ later) == 0) ≡ false = ground arith in
    rw (e, more, class_code, subclass, r, z) ih

pub Leads-some_hop :
    {W : Type 0} (ports : Ports W) (bus : ℕ) (hops : List BlockPciPathHop) (s v : Pci W)
    (a : PciAddress)
    → Leads ports bus hops s a v
    → (length hops == 0) ≡ false
Leads-some_hop ports bus hops s v a (controller _ hop info _ _ e) = ground arith
Leads-some_hop ports bus hops s v a
      (bridge _ behind hop next_hop later info _ _ t u _ e class_code subclass r small rest) =
    ground arith

-- The fields of an address are bytes.
abbrev pub IsAddress : PciAddress → Type 0
IsAddress a = (a.bus < 256) × (a.device < 256) × (a.function < 256)

abbrev pub IsHop : BlockPciPathHop → Type 0
IsHop hop = (hop.device < 256) × (hop.function < 256)

pub Leads-IsAddress :
    {W : Type 0} (ports : Ports W) (bus : ℕ) (hops : List BlockPciPathHop) (s v : Pci W)
    (a : PciAddress)
    → bus < 256
    → All IsHop hops
    → Leads ports bus hops s a v
    → IsAddress a
Leads-IsAddress ports bus hops s v a h k (controller _ hop info _ _ e) = (h, (k.0).0, (k.0).1)
Leads-IsAddress ports bus hops s v a h k
      (bridge _ behind hop next_hop later info _ _ t u _ e class_code subclass r small rest) =
    Leads-IsAddress ports behind (next_hop ∷ later) u v a (omega arith) k.1 rest

pub hops_of-IsHop : (ns : List Node) → All IsNode ns → All IsHop (hops_of ns)
hops_of-IsHop [] v = tt
hops_of-IsHop (pci function device ∷ ns) v = (((v.0).1, (v.0).0), hops_of-IsHop ns v.1)
hops_of-IsHop (sata port multiplier ∷ ns) v = hops_of-IsHop ns v.1
hops_of-IsHop (atapi channel drive ∷ ns) v = hops_of-IsHop ns v.1
hops_of-IsHop (other type subtype data_bytes ∷ ns) v = hops_of-IsHop ns v.1

abbrev pub IsPort : Option ℕ → Type 0
IsPort none = Unit {0}
IsPort (some port) = port < 32

pub port_of-IsPort :
    (found_port : Option ℕ) (ns : List Node)
    → IsPort found_port
    → All IsNode ns
    → IsPort (port_of found_port ns)
port_of-IsPort found_port [] h v = h
port_of-IsPort found_port (pci function device ∷ ns) h v = port_of-IsPort found_port ns h v.1
port_of-IsPort found_port (sata port multiplier ∷ ns) h v =
    port_of-IsPort (some port) ns (v.0).0 v.1
port_of-IsPort found_port (atapi channel drive ∷ ns) h v = port_of-IsPort found_port ns h v.1
port_of-IsPort found_port (other type subtype data_bytes ∷ ns) h v =
    port_of-IsPort found_port ns h v.1

-- A drive's address is exact as well.
abbrev pub IsDrive : BlockPathParseResult → Type 0
IsDrive invalid = ⊥
IsDrive absent = Unit {0}
IsDrive (found a) = (a.channel < 2) × (a.drive < 2)

pub drive_of-IsDrive : (ns : List Node) → All IsNode ns → IsDrive (drive_of ns)
drive_of-IsDrive [] v = tt
drive_of-IsDrive (pci function device ∷ ns) v = drive_of-IsDrive ns v.1
drive_of-IsDrive (sata port multiplier ∷ ns) v = drive_of-IsDrive ns v.1
drive_of-IsDrive (atapi channel drive ∷ ns) v = v.0
drive_of-IsDrive (other type subtype data_bytes ∷ ns) v = drive_of-IsDrive ns v.1

pub ahci_bytes_lem :
    (a : PciAddress) (port : ℕ)
    → IsAddress a
    → port < 32
    → ahci_bytes (record { controller = a; port = port }) ≡ record { controller = a; port = port }
ahci_bytes_lem a port v h =
    let e1 : a.bus % 256 ≡ a.bus = omega (arith, v.0) in
    let e2 : a.device % 256 ≡ a.device = omega (arith, v.1) in
    let e3 : a.function % 256 ≡ a.function = omega (arith, v.2) in
    let e4 : port % 256 ≡ port = omega arith in rw (e1, e2, e3, e4) refl

-- A path in the array of the boot information, with what stands behind it there.
pub record IsBootPath (info : BootInfo) (nodes : List Node) : Type 0 where
  pub nodes_valid : All IsNode nodes
  pub rest : List ℕ
  pub bytes : info.boot_device_path ≡ encode_path nodes ++ rest
  pub size : info.boot_device_path_size ≡ length (encode_path nodes)
  pub depth : length (hops_of nodes) ≤ 8

length-encode_path_ge : (ns : List Node) → 4 ≤ length (encode_path ns)
length-encode_path_ge [] = omega arith
length-encode_path_ge (n ∷ ns) =
    omega (arith, length-append (encode n) (encode_path ns), length-encode_path_ge ns)

module _ (info : BootInfo) (nodes : List Node) (path : IsBootPath info nodes) where
  path-Holds : Holds info.boot_device_path 0 (encode_path nodes)
  path-Holds k h =
      let e : 0 + k ≡ k = omega arith in
      rw (path.bytes, e)
        (rw (sym (get_or-append (encode_path nodes) path.rest k 0 h))
          (rw e at (Holds-start nodes path.nodes_valid k h)))

  long_enough : ltb info.boot_device_path_size 4 ≡ false
  long_enough = ground (arith, path.size, length-encode_path_ge nodes)

  pub block_boot_path_to_ata-drive_of : block_boot_path_to_ata info ≡ some (drive_of nodes)
  unfolding block_boot_path_to_ata
  block_boot_path_to_ata-drive_of = rw long_enough (
      walk_ata info.boot_device_path info.boot_device_path_size (suc info.boot_device_path_size) 0
        nodes path.nodes_valid path-Holds (omega (arith, path.size)) (omega arith))

  pub block_boot_path_to_ahci-port_of :
      {W : Type 0} (ports : Ports W) (s : Pci W)
      → block_boot_path_to_ahci ports info s
        ≡ some (at_port ports (port_of none nodes) (hops_of nodes) s)
  unfolding block_boot_path_to_ahci
  block_boot_path_to_ahci-port_of ports s = rw long_enough (
      ap (λ o. resolved ports o s)
        (walk_ahci info.boot_device_path info.boot_device_path_size (suc info.boot_device_path_size)
          0 nodes (record { hops = []; port = none }) path.nodes_valid path-Holds
          (omega (arith, path.depth)) (omega (arith, path.size)) (omega arith)))
