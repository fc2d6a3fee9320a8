-- ===== src/Fat32/Mount/Tests.antt =====
-- A mount of a partition of forty sectors, and calls after it.
use funny_os.Common.{
  ◌≤◌, ◌+◌, ◌^◌, ◌<◌, ◌≡◌, refl, inl, true, false, List, [], ◌∷◌, arith, ◌==◌, if◌then◌else◌,
  replicate,
}
use funny_os.Fat32.Calls.{Call, write_file, make_dir, remove, perform_all}
use funny_os.Fat32.Volume.{Volume, read_sectors_from, read_sectors}
use funny_os.Fat32.Mount.{boot_sector, is_mountable, load_result, load_table, fat32_mount}
use funny_os.Fat32.Mount.Ready.{sectors_at, fat32_mount-IsReady, ended, perform_all-fat32_mount}
use funny_os.Fat32.Mount.Layout.{IsReady}
use funny_os.Fat32.RamDisk.{Sectors, sectors_from, disk, disk-IsDisk, boot_bytes}

abbrev unmounted : Volume Sectors
unmounted = record {
  geometry = record {
    mounted = false;
    sectors_per_cluster = 0;
    fat_count = 0;
    reserved_sectors = 0;
    sectors_per_fat = 0;
    partition_lba = 0;
    root_cluster = 0;
    data_lba = 0;
    cluster_size = 0;
    fat_lba = 0;
  };
  table = record { entries = []; total_clusters = 0 };
  buffer = [];
  world = λ s. if s == 3 then boot_bytes else replicate 512 0;
}

partition_fits : 3 + sectors_at disk 3 [] unmounted < 2 ^ 32
unfolding boot_sector sectors_from
partition_fits = omega arith

partition_within : 3 + sectors_at disk 3 [] unmounted ≤ 43
unfolding boot_sector sectors_from
partition_within = omega arith

mount_succeeds : (fat32_mount disk 3 512 [] unmounted).0 ≡ true
unfolding boot_sector sectors_from fat32_mount is_mountable load_table load_result read_sectors
    read_sectors_from
mount_succeeds = refl

fat32_mount-IsReady_example :
    IsReady (fat32_mount disk 3 512 [] unmounted).1 3 (3 + sectors_at disk 3 [] unmounted)
fat32_mount-IsReady_example =
    fat32_mount-IsReady disk 3 512 [] unmounted partition_fits mount_succeeds

abbrev calls : List Call
calls =
    make_dir (0x2f ∷ 0x44 ∷ [])
    ∷ write_file (0x2f ∷ 0x44 ∷ 0x2f ∷ 0x41 ∷ 0x62 ∷ []) (1 ∷ 2 ∷ 3 ∷ []) false
    ∷ remove (0x2f ∷ 0x44 ∷ [])
    ∷ []

perform_all-fat32_mount_example :
    (ended (perform_all disk 9 calls (fat32_mount disk 3 512 [] unmounted).1)).world 3
    ≡ unmounted.world 3
perform_all-fat32_mount_example =
    perform_all-fat32_mount disk (λ w s. w s) 43 (disk-IsDisk 43) 9 calls 3 512 [] unmounted
      partition_fits partition_within mount_succeeds 3 (inl (omega arith))
