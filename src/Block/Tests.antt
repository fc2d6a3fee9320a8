-- ===== src/Block/Tests.antt =====
-- A device path that leads to a disk behind a SATA controller.
use funny_os.Common.{
  get_or-append, ℕ, ◌≡◌, refl, inr, true, false, some, List, [], ◌∷◌, ◌++◌, arith, ◌==◌,
}
use funny_os.BootInfo.{BootInfo}
use funny_os.Pci.{
  PciAddress, PciDeviceInfo, Pci, pci_read_config8, pci_read_config16, pci_read_device_info,
}
use funny_os.Block.RamDrive.{some_ports, lifted}
use funny_os.Fat32.RamDisk.{Sectors}
use funny_os.Block.{
  AtaDeviceAddress, block_boot_path_to_ata, AhciDeviceAddress, block_boot_path_to_ahci,
}
use funny_os.Block.Init.{backend_none, BlockDevice, Controller, block_init}
use funny_os.Block.Path.{Same, block_boot_path-Same}
use funny_os.Block.Nodes.{Node, pci, sata, atapi, other, encode_path, hops_of}
use funny_os.Block.Boot.{Leads, controller, IsBootPath}
use funny_os.Block.BootDisk.{Boots, block_init-Boots_ahci}

-- The controller's node, with function 2 and device 31, the disk's, with port 5, and the end.
abbrev some_path : List ℕ
some_path =
    1 ∷ 1 ∷ 6 ∷ 0 ∷ 2 ∷ 31 ∷ 3 ∷ 0x12 ∷ 10 ∷ 0 ∷ 5 ∷ 0 ∷ 0xff ∷ 0xff ∷ 0 ∷ 0 ∷ 0x7f ∷ 0xff ∷ 4 ∷ 0
    ∷ []

abbrev some_info : BootInfo
some_info = record {
  magic = 0;
  bytes_per_sector = 512;
  partition_lba_start = 3;
  partition_sector_count = 40;
  acpi_rsdp = 0;
  acpi_revision = 0;
  boot_device_path_size = 20;
  boot_device_path = some_path;
  console_flags = 0;
  screen_columns = 0;
  screen_rows = 0;
  framebuffer_base = 0;
  framebuffer_width = 0;
  framebuffer_height = 0;
  framebuffer_pixels_per_scanline = 0;
  framebuffer_format = 0;
  memory_map = record { base = 0; size = 0; descriptor_size = 0; descriptor_version = 0 };
}

abbrev some_pci : Pci Sectors
some_pci = record { available = true; world = λ s. [] }

abbrev some_ahci : Controller AhciDeviceAddress Sectors
some_ahci = record { init = λ a s. (true, s); sectors = lifted }

abbrev some_ata : Controller AtaDeviceAddress Sectors
some_ata = record { init = λ a s. (false, s); sectors = lifted }

some_path-Same : Same 20 some_path (some_path ++ (7 ∷ []))
some_path-Same i h = get_or-append some_path (7 ∷ []) i 0 h

block_boot_path-Same_example :
    (block_boot_path_to_ata some_info
      ≡ block_boot_path_to_ata (record some_info { boot_device_path = some_path ++ (7 ∷ []) }))
    × (block_boot_path_to_ahci some_ports some_info some_pci
        ≡ block_boot_path_to_ahci some_ports
            (record some_info { boot_device_path = some_path ++ (7 ∷ []) })
            some_pci)
block_boot_path-Same_example =
    block_boot_path-Same some_ports some_info (some_path ++ (7 ∷ [])) some_pci some_path-Same

abbrev nothing_bound : BlockDevice Sectors
nothing_bound = record { backend = backend_none; pci = some_pci }

abbrev some_nodes : List Node
some_nodes = pci 2 31 ∷ sata 5 0xffff ∷ []

some_info-IsBootPath : IsBootPath some_info some_nodes
some_info-IsBootPath = record {
  nodes_valid = (omega arith, ((omega arith, inr refl), tt));
  rest = [];
  bytes = refl;
  size = refl;
  depth = omega arith;
}

abbrev some_controller : PciAddress
some_controller = record { bus = 0; device = 31; function = 2 }

abbrev some_device : PciDeviceInfo
some_device = record {
  address = some_controller;
  vendor_id = 0x8086;
  device_id = 0x8086;
  revision_id = 6;
  prog_if = 6;
  subclass = 6;
  class_code = 6;
  header_type = 6;
}

reads_device :
    pci_read_device_info some_ports some_controller some_pci ≡ (some some_device, some_pci)
unfolding pci_read_device_info pci_read_config8 pci_read_config16
reads_device = refl

Leads-to_controller : Leads some_ports 0 (hops_of some_nodes) some_pci some_controller some_pci
Leads-to_controller =
    controller 0 (record { device = 31; function = 2 }) some_device some_pci some_pci reads_device

-- The SATA disk at port 5.
block_init-Boots_ahci_example :
    Boots some_ports some_ahci some_ata lifted true some_pci
      (block_init some_ports some_ahci some_ata some_info nothing_bound)
block_init-Boots_ahci_example =
    block_init-Boots_ahci some_ports some_ahci some_ata some_info some_nodes some_info-IsBootPath
      nothing_bound 5 some_controller some_pci some_pci refl Leads-to_controller refl

-- A path to drive 1 of channel 0, with a node that is passed over before it.
abbrev drive_nodes : List Node
drive_nodes = other 2 1 (7 ∷ []) ∷ atapi 0 1 ∷ []

abbrev drive_info : BootInfo
drive_info = record some_info {
  boot_device_path_size = 17;
  boot_device_path = encode_path drive_nodes ++ (9 ∷ []);
}

abbrev one_drive : Controller AtaDeviceAddress Sectors
one_drive = record { init = λ a s. (a.drive == 1, s); sectors = lifted }
