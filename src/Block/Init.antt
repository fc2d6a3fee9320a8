-- ===== src/Block/Init.antt =====
-- kernel/block.c: `block_init`, and the sectors of the device that it binds. kernel/ahci.c and
-- kernel/ata.c are parameters.
use funny_os.Common.{
  ℕ, ◌%◌, Bool, true, false, not, ◌&&◌, Option, none, some, List, [], ◌∷◌, ◌++◌, ◌==◌,
  if◌then◌else◌, get_or,
}
use funny_os.BootInfo.{BootInfo}
use funny_os.Driver.{DriverOps, driver_core_register, driver_core_probe}
use funny_os.Pci.{Ports, Pci}
use funny_os.Fat32.Volume.{Device}
use funny_os.Block.{
  AtaDeviceAddress, BlockPathParseResult, invalid, absent, found, block_boot_path_to_ata,
  AhciDeviceAddress, block_boot_path_to_ahci,
}

pub data BlockBackendKind : Type 0 where
  backend_none : BlockBackendKind
  backend_ata_pio : BlockBackendKind
  backend_ahci : BlockBackendKind

-- `g_block_device`, and the devices. The two function pointers are those of the backend, and NULL
-- if there is none.
pub record BlockDevice (W : Type 0) : Type 0 where
  pub backend : BlockBackendKind
  pub pci : Pci W

-- The interface of kernel/ahci.h, and that of kernel/ata.h.
pub record Controller (Address W : Type 0) : Type 0 where
  pub init : Address → Pci W → Bool × Pci W
  pub sectors : Device (Pci W)

-- `DriverDevice`, with its array of payload words; the fields that `block_init` sets to 0 and nothing
-- reads are left out.
pub record DriverDevice : Type 0 where
  pub bus_type : ℕ
  pub class_type : ℕ
  pub prog_if : ℕ
  pub payload : List ℕ

abbrev pub class_block : ℕ
class_block = 1

abbrev pub kind_ahci : ℕ
kind_ahci = 1

abbrev pub kind_ata : ℕ
kind_ata = 2

abbrev pub is_kind : (kind : ℕ) → DriverDevice → Bool
is_kind kind d = d.class_type == class_block && get_or d.payload 0 0 == kind

-- The conversions to `uint8_t`
abbrev pub ahci_address : DriverDevice → AhciDeviceAddress
ahci_address d = record {
  controller = record {
    bus = get_or d.payload 1 0 % 256;
    device = get_or d.payload 2 0 % 256;
    function = get_or d.payload 3 0 % 256;
  };
  port = d.prog_if % 256;
}

abbrev pub ata_address : DriverDevice → AtaDeviceAddress
ata_address d = record { channel = get_or d.payload 1 0 % 256; drive = get_or d.payload 2 0 % 256 }

abbrev pub ahci_candidate : AhciDeviceAddress → DriverDevice
ahci_candidate a = record {
  bus_type = 2;
  class_type = class_block;
  prog_if = a.port;
  payload = kind_ahci ∷ a.controller.bus ∷ a.controller.device ∷ a.controller.function ∷ [];
}

abbrev pub ata_candidate : AtaDeviceAddress → DriverDevice
ata_candidate a = record {
  bus_type = 1;
  class_type = class_block;
  prog_if = 0;
  payload = kind_ata ∷ a.channel ∷ a.drive ∷ 0 ∷ [];
}

abbrev pub default_ata_device : AtaDeviceAddress
default_ata_device = record { channel = 0; drive = 0 }

abbrev pub ahci_candidates : Option AhciDeviceAddress → List DriverDevice
ahci_candidates none = []
ahci_candidates (some a) = ahci_candidate a ∷ []

module _ {W : Type 0} (ports : Ports W) (ahci : Controller AhciDeviceAddress W)
    (ata : Controller AtaDeviceAddress W) where
  -- What a probe leaves: the backend is set if the device could be initialised.
  abbrev pub bind : BlockBackendKind → BlockDevice W → Bool × Pci W → Bool × BlockDevice W
  bind kind b r =
      if not r.0
      then (false, record b { pci = r.1 })
      else (true, record { backend = kind; pci = r.1 })

  abbrev pub ahci_driver : DriverOps DriverDevice (BlockDevice W)
  ahci_driver = record {
    match_device = is_kind kind_ahci;
    probe = λ d b. bind backend_ahci b (ahci.init (ahci_address d) b.pci);
  }

  abbrev pub ata_driver : DriverOps DriverDevice (BlockDevice W)
  ata_driver = record {
    match_device = is_kind kind_ata;
    probe = λ d b. bind backend_ata_pio b (ata.init (ata_address d) b.pci);
  }

  abbrev pub is_bound : BlockBackendKind → Bool
  is_bound backend_none = false
  is_bound _ = true

  abbrev pub bound_outcome :
      Option (DriverOps DriverDevice (BlockDevice W) × DriverDevice) × BlockDevice W
      → Bool × BlockDevice W
  bound_outcome (none, b) = (false, b)
  bound_outcome (some bound, b) = (is_bound b.backend, b)

  -- The drivers are searched for the candidates.
  unfoldable pub probe_candidates :
      List DriverDevice
      → List (DriverOps DriverDevice (BlockDevice W))
      → BlockDevice W
      → Bool × BlockDevice W
  probe_candidates candidates registered b =
      bound_outcome (driver_core_probe candidates registered b)

  abbrev pub with_ata :
      BlockPathParseResult
      → List DriverDevice
      → List (DriverOps DriverDevice (BlockDevice W))
      → BlockDevice W
      → Bool × BlockDevice W
  with_ata invalid candidates registered b = (false, b)
  with_ata (found a) candidates registered b =
      probe_candidates (candidates ++ (ata_candidate a ∷ [])) registered b
  with_ata absent candidates registered b =
      probe_candidates (candidates ++ (ata_candidate default_ata_device ∷ [])) registered b

  abbrev pub init_from :
      Option (Option AhciDeviceAddress × Pci W)
      → Option BlockPathParseResult
      → List (DriverOps DriverDevice (BlockDevice W))
      → Option (Bool × BlockDevice W)
  init_from (some (address, s)) (some ata_result) registered = some (
      with_ata ata_result (ahci_candidates address) registered
        (record { backend = backend_none; pci = s }))
  init_from _ _ registered = none

  -- `none` only if a search of the path has too few rounds.
  unfoldable pub block_init : BootInfo → BlockDevice W → Option (Bool × BlockDevice W)
  block_init info b =
      let first = driver_core_register ahci_driver [] in
      let second = driver_core_register ata_driver first.1 in
      let b' : BlockDevice W = record b { backend = backend_none } in
      if not first.0
      then some (false, b')
      else if not second.0
      then some (false, b')
      else init_from (block_boot_path_to_ahci ports info b.pci) (block_boot_path_to_ata info)
          second.1

  unfoldable pub block_read_sectors :
      (lba count : ℕ) (out : List ℕ) → BlockDevice W → Bool × (List ℕ × BlockDevice W)
  block_read_sectors lba count out b =
      let through : Device (Pci W) → Bool × (List ℕ × BlockDevice W) = λ device.
        (let r = device.read_sectors lba count out b.pci in
          (r.0, ((r.1).0, record b { pci = (r.1).1 }))) in
      elim b.backend [
        | backend_none ↦ (false, (out, b))
        | backend_ata_pio ↦ through ata.sectors
        | backend_ahci ↦ through ahci.sectors
      ]

  unfoldable pub block_write_sectors :
      (lba count : ℕ) (bytes : List ℕ) → BlockDevice W → Bool × BlockDevice W
  block_write_sectors lba count bytes b =
      let through : Device (Pci W) → Bool × BlockDevice W = λ device.
        (let r = device.write_sectors lba count bytes b.pci in (r.0, record b { pci = r.1 })) in
      elim b.backend [
        | backend_none ↦ (false, b)
        | backend_ata_pio ↦ through ata.sectors
        | backend_ahci ↦ through ahci.sectors
      ]

  -- The functions that the file system calls.
  abbrev pub block_device : Device (BlockDevice W)
  block_device = record { read_sectors = block_read_sectors; write_sectors = block_write_sectors }
