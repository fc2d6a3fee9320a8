-- ===== src/Block.antt =====
-- kernel/block.c: the boot device, found by the firmware's device path, and the access to its
-- sectors.
pub mod Path
pub mod Init
pub mod Nodes
pub mod Encoded
pub mod EncodedAta
pub mod Bound
pub mod Boot
pub mod BootDisk
pub mod Quiet
pub mod RamDrive
mod Tests
use funny_os.Common.{
  ℕ, zero, suc, ◌+◌, ◌-◌, ◌*◌, ◌/◌, ◌%◌, Bool, not, ◌&&◌, ◌||◌, Option, none, some, List, [], ◌∷◌,
  ◌++◌, ltb, leb, ◌==◌, if◌then◌else◌, length, get_or, take,
}
use funny_os.BootInfo.{BootInfo}
use funny_os.Driver.{}
use funny_os.Pci.{
  Ports, PciAddress, PciDeviceInfo, Pci, pci_read_config8, device_info, pci_read_device_info,
}

-- A device path node at a place of the path's bytes: `DevicePathNode` and the fields after it.
abbrev pub byte_at : List ℕ → ℕ → ℕ
byte_at bytes at = get_or bytes at 0 % 256

abbrev pub half_at : List ℕ → ℕ → ℕ
half_at bytes at = byte_at bytes at + byte_at bytes (at + 1) * 256

abbrev pub device_path_length : List ℕ → ℕ → ℕ
device_path_length bytes at = half_at bytes (at + 2)

abbrev pub is_node : (type subtype : ℕ) → List ℕ → ℕ → Bool
is_node type subtype bytes at = byte_at bytes at == type && byte_at bytes (at + 1) == subtype

abbrev pub device_path_is_end : List ℕ → ℕ → Bool
device_path_is_end bytes at = is_node 0x7f 0xff bytes at

-- What is decided at a node, and at the end of the path.
pub data Visit (S A : Type 0) : Type 0 where
  next : S → Visit S A
  stop : A → Visit S A

abbrev pub go_on : {S A : Type 0} → (S → Option (Visit S A)) → Visit S A → Option (Visit S A)
go_on rest (next s) = rest s
go_on rest (stop a) = some (stop a)

-- The loop over the nodes that both searches have; `none` if the rounds were not enough. `visit` is
-- given the place of a node and its length.
unfoldable pub walk_nodes :
    {S A : Type 0}
    → (visit : (at node_length : ℕ) → S → Visit S A) (invalid : A) (bytes : List ℕ) (size : ℕ)
      (rounds at : ℕ)
    → S
    → Option (Visit S A)
walk_nodes visit invalid bytes size zero at s = none
walk_nodes visit invalid bytes size (suc rounds) at s =
    let node_length = device_path_length bytes at in
    let rest = walk_nodes visit invalid bytes size rounds (at + node_length) in
    if not (leb (at + 4) size && ltb at size)
    then some (next s)
    else if ltb node_length 4
    then some (stop invalid)
    else if ltb size (at + node_length)
    then some (stop invalid)
    else if device_path_is_end bytes at
    then some (next s)
    else go_on rest (visit at node_length s)

pub record AtaDeviceAddress : Type 0 where
  pub channel : ℕ
  pub drive : ℕ

-- `BlockPathParseResult`, with the address that is found.
pub data BlockPathParseResult : Type 0 where
  invalid : BlockPathParseResult
  absent : BlockPathParseResult
  found : AtaDeviceAddress → BlockPathParseResult

unfoldable pub visit_ata :
    List ℕ → (at node_length : ℕ) → Unit {0} → Visit (Unit {0}) BlockPathParseResult
visit_ata bytes at node_length s =
    if not (is_node 3 1 bytes at && leb 8 node_length)
    then next tt
    else if ltb 1 (byte_at bytes (at + 4)) || ltb 1 (byte_at bytes (at + 5))
    then stop invalid
    else stop (found (record { channel = byte_at bytes (at + 4); drive = byte_at bytes (at + 5) }))

abbrev pub absent_if_none :
    Option (Visit (Unit {0}) BlockPathParseResult) → Option BlockPathParseResult
absent_if_none none = none
absent_if_none (some (next s)) = some absent
absent_if_none (some (stop r)) = some r

-- A node takes four bytes at least: a round for each byte, and one for the end, are enough.
unfoldable pub block_boot_path_to_ata : BootInfo → Option BlockPathParseResult
block_boot_path_to_ata info =
    let size = info.boot_device_path_size in
    if ltb size 4
    then some absent
    else absent_if_none (
        walk_nodes (visit_ata info.boot_device_path) invalid info.boot_device_path size (suc size) 0
          tt)

pub record BlockPciPathHop : Type 0 where
  pub device : ℕ
  pub function : ℕ

abbrev pub max_pci_path_depth : ℕ
max_pci_path_depth = 8

-- `hops` up to `hop_count`, and the port if one was found.
pub record AhciPath : Type 0 where
  pub hops : List BlockPciPathHop
  pub port : Option ℕ

unfoldable pub visit_ahci : List ℕ → (at node_length : ℕ) → AhciPath → Visit AhciPath (Unit {0})
visit_ahci bytes at node_length s =
    if is_node 1 1 bytes at && leb 6 node_length
    then (if leb max_pci_path_depth (length s.hops)
        then stop tt
        else next (record s {
          hops =
              s.hops
              ++ (record { device = byte_at bytes (at + 5); function = byte_at bytes (at + 4) }
                  ∷ []);
        }))
    else if is_node 3 0x12 bytes at && leb 10 node_length
    then (if leb 32 (half_at bytes (at + 4))
        then stop tt
        else if not (half_at bytes (at + 6) == 0) && not (half_at bytes (at + 6) == 0xffff)
        then stop tt
        else if not (half_at bytes (at + 8) == 0)
        then stop tt
        else next (record s { port = some (half_at bytes (at + 4)) }))
    else next s

pub record AhciDeviceAddress : Type 0 where
  pub controller : PciAddress
  pub port : ℕ

module _ {W : Type 0} (ports : Ports W) where
  -- At a hop: each but the last is a bridge, which leads to the next one's bus.
  abbrev pub resolve_next :
      (rest : (bus : ℕ) → Pci W → Option PciAddress × Pci W) (hops : List BlockPciPathHop)
      → PciAddress
      → Option PciDeviceInfo × Pci W
      → Option PciAddress × Pci W
  resolve_next rest hops a (none, s) = (none, s)
  resolve_next rest hops a (some info, s) =
      let secondary = pci_read_config8 ports a 0x19 s in
      let further = rest secondary.0 secondary.1 in
      if length hops == 0
      then (some a, s)
      else if not (info.class_code == 6) || not (info.subclass == 4)
      then (none, s)
      else if secondary.0 == 0xff
      then (none, secondary.1)
      else further

  unfoldable pub resolve_from : (bus : ℕ) → List BlockPciPathHop → Pci W → Option PciAddress × Pci W
  resolve_from bus [] s = (none, s)
  resolve_from bus (hop ∷ hops) s =
      let a : PciAddress = record { bus = bus; device = hop.device; function = hop.function } in
      resolve_next (λ bus' s'. resolve_from bus' hops s') hops a (pci_read_device_info ports a s)

  unfoldable pub block_resolve_pci_path : List BlockPciPathHop → Pci W → Option PciAddress × Pci W
  block_resolve_pci_path hops s = resolve_from 0 hops s

  abbrev pub with_controller :
      (port : ℕ) → Option PciAddress × Pci W → Option AhciDeviceAddress × Pci W
  with_controller port (none, s) = (none, s)
  with_controller port (some a, s) = (some (record { controller = a; port = port }), s)

  -- The port, if a SATA node was found, of the controller that the hops lead to.
  abbrev pub at_port : Option ℕ → List BlockPciPathHop → Pci W → Option AhciDeviceAddress × Pci W
  at_port none hops s = (none, s)
  at_port (some port) hops s =
      if length hops == 0 then (none, s) else with_controller port (block_resolve_pci_path hops s)

  abbrev pub resolved :
      Option (Visit AhciPath (Unit {0})) → Pci W → Option (Option AhciDeviceAddress × Pci W)
  resolved none s = none
  resolved (some (stop _)) s = some (none, s)
  resolved (some (next p)) s = some (at_port p.port p.hops s)

  unfoldable pub block_boot_path_to_ahci :
      BootInfo → Pci W → Option (Option AhciDeviceAddress × Pci W)
  block_boot_path_to_ahci info s =
      let size = info.boot_device_path_size in
      if ltb size 4
      then some (none, s)
      else resolved
          (walk_nodes (visit_ahci info.boot_device_path) tt info.boot_device_path size (suc size) 0
            (record { hops = []; port = none }))
          s
