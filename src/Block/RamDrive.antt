-- ===== src/Block/RamDrive.antt =====
-- A drive that keeps its sectors in memory, for the tests of the block devices.
use funny_os.Common.{ℕ, refl}
use funny_os.Pci.{Ports, Pci}
use funny_os.Fat32.Volume.{Device}
use funny_os.Fat32.Safe.{IsDisk}
use funny_os.Fat32.RamDisk.{Sectors, disk, disk-IsDisk}

-- Every address has a device, whose registers are all the same.
abbrev pub some_ports : Ports Sectors
some_ports = record {
  io_out8 = λ port value w. w;
  io_out16 = λ port value w. w;
  io_out32 = λ port value w. w;
  io_in8 = λ port w. (6, w);
  io_in16 = λ port w. (0x8086, w);
  io_in32 = λ port w. (0, w);
}

abbrev pub lifted : Device (Pci Sectors)
lifted = record {
  read_sectors = λ lba count out s. (
    (disk.read_sectors lba count out s.world).0,
    (((disk.read_sectors lba count out s.world).1).0, s),
  );
  write_sectors = λ lba count bytes s. (
    (disk.write_sectors lba count bytes s.world).0,
    record s { world = (disk.write_sectors lba count bytes s.world).1 },
  );
}

pub lifted-IsDisk : (size : ℕ) → IsDisk lifted (λ s. s.world) size
lifted-IsDisk size = record {
  read_keeps = λ lba count out s i. refl;
  write_keeps = λ lba count bytes s i below o.
      (disk-IsDisk size).write_keeps lba count bytes s.world i below o;
}
