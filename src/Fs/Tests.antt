-- ===== src/Fs/Tests.antt =====
-- The start of the file system from an ATA drive in memory, and calls after it.
use funny_os.Common.{
  ◌+◌, ◌≤◌, ◌<◌, ◌≡◌, refl, ap, inl, true, false, some, List, [], ◌∷◌, arith, ◌==◌, if◌then◌else◌,
  replicate, u32,
}
use funny_os.BootInfo.{BootInfo}
use funny_os.Pci.{Pci}
use funny_os.Pci.Quiet.{IsQuiet}
use funny_os.Driver.{driver_core_register, probe_device, driver_core_probe}
use funny_os.Fat32.Volume.{Volume, read_sectors_from, read_sectors}
use funny_os.Fat32.RamDisk.{Sectors, sectors_from, boot_bytes}
use funny_os.Fat32.Calls.{Call, make_dir, remove, perform_all}
use funny_os.Fat32.Mount.{boot_sector, is_mountable, load_result, load_table, fat32_mount}
use funny_os.Fat32.Mount.Ready.{sectors_at, ended}
use funny_os.Block.{
  AtaDeviceAddress, block_boot_path_to_ata, AhciDeviceAddress, block_boot_path_to_ahci,
}
use funny_os.Block.RamDrive.{some_ports, lifted, lifted-IsDisk}
use funny_os.Block.Init.{
  backend_none, backend_ata_pio, BlockDevice, Controller, probe_candidates, block_init,
  block_read_sectors, block_device,
}
use funny_os.Fs.{fs_init}
use funny_os.Fs.Start.{fs_init-Keeps}

abbrev boot_info : BootInfo
boot_info = record {
  magic = 0;
  bytes_per_sector = 512;
  partition_lba_start = 3;
  partition_sector_count = 40;
  acpi_rsdp = 0;
  acpi_revision = 0;
  boot_device_path_size = 0;
  boot_device_path = [];
  console_flags = 0;
  screen_columns = 0;
  screen_rows = 0;
  framebuffer_base = 0;
  framebuffer_width = 0;
  framebuffer_height = 0;
  framebuffer_pixels_per_scanline = 0;
  framebuffer_format = 0;
  memory_map = record { base = 0; size = 0; descriptor_size = 0; descriptor_version = 0 };
}

abbrev no_ahci : Controller AhciDeviceAddress Sectors
no_ahci = record { init = λ a s. (false, s); sectors = lifted }

abbrev one_ata : Controller AtaDeviceAddress Sectors
one_ata = record { init = λ a s. (true, s); sectors = lifted }

abbrev on_disk : Pci Sectors
on_disk = record { available = true; world = λ s. if s == 3 then boot_bytes else replicate 512 0 }

abbrev before : Volume (BlockDevice Sectors)
before = record {
  geometry = record {
    mounted = false;
    sectors_per_cluster = 0;
    fat_count = 0;
    reserved_sectors = 0;
    sectors_per_fat = 0;
    partition_lba = 0;
    root_cluster = 0;
    data_lba = 0;
    cluster_size = 0;
    fat_lba = 0;
  };
  table = record { entries = []; total_clusters = 0 };
  buffer = [];
  world = record { backend = backend_none; pci = on_disk };
}

abbrev bound : BlockDevice Sectors
bound = record { backend = backend_ata_pio; pci = on_disk }

abbrev mounted : Volume (BlockDevice Sectors)
mounted =
    (fat32_mount (block_device some_ports no_ahci one_ata) 3 512 []
      (record before { world = bound })).1

some_ports-IsQuiet : IsQuiet some_ports (λ w s. w s)
some_ports-IsQuiet = record {
  select_keeps = λ value w i. refl;
  in8_keeps = λ port w i. refl;
  in16_keeps = λ port w i. refl;
}

binds : block_init some_ports no_ahci one_ata boot_info before.world ≡ some (true, bound)
unfolding block_init block_boot_path_to_ahci block_boot_path_to_ata driver_core_register
    driver_core_probe probe_device probe_candidates
binds = refl

mounts :
    (fat32_mount
      (block_device some_ports no_ahci one_ata)
      3
      512
      []
      (record before { world = bound })).0
    ≡ true
unfolding boot_sector sectors_from fat32_mount is_mountable load_table load_result read_sectors
    read_sectors_from block_read_sectors
mounts = refl

starts : fs_init some_ports no_ahci one_ata boot_info [] before ≡ some (true, mounted)
unfolding fs_init
starts = rw binds (ap (λ x. some (x, mounted)) mounts)

fits :
    3 + sectors_at (block_device some_ports no_ahci one_ata) 3 [] (record before { world = bound })
    < u32
unfolding boot_sector sectors_from block_read_sectors
fits = omega arith

within :
    3 + sectors_at (block_device some_ports no_ahci one_ata) 3 [] (record before { world = bound })
    ≤ 43
unfolding boot_sector sectors_from block_read_sectors
within = omega arith

abbrev calls : List Call
calls = make_dir (0x2f ∷ 0x44 ∷ []) ∷ remove (0x2f ∷ 0x44 ∷ []) ∷ []

fs_init-Keeps_example :
    (ended (perform_all (block_device some_ports no_ahci one_ata) 9 calls mounted)).world.pci.world
      2
    ≡ before.world.pci.world 2
fs_init-Keeps_example =
    fs_init-Keeps some_ports no_ahci one_ata (λ w s. w s) some_ports-IsQuiet (λ a s i. refl)
      (λ a s i. refl) 43 (lifted-IsDisk 43) (lifted-IsDisk 43) 9 calls boot_info [] before mounted
      bound binds starts fits within 2 (inl (omega arith))
