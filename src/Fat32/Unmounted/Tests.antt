-- ===== src/Fat32/Unmounted/Tests.antt =====
-- The operations on a volume with nothing in it.
use funny_os.Common.{ℕ, ◌≡◌, refl, true, false, List, [], ◌∷◌}
use funny_os.Fat32.Chain.{io_error}
use funny_os.Fat32.Calls.{collect}
use funny_os.Fat32.Volume.{Volume, fails}
use funny_os.Fat32.RamDisk.{Sectors, disk, boot_bytes}
use funny_os.Fat32.Files.{fat32_stat, fat32_list_dir, fat32_read_file}
use funny_os.Fat32.Unmounted.{require_mounted-fails}
use funny_os.Fat32.Changes.{fat32_write_file, fat32_make_dir, fat32_remove, fat32_rename}

abbrev no_volume : Volume Sectors
no_volume = record {
  geometry = record {
    mounted = false;
    sectors_per_cluster = 0;
    fat_count = 0;
    reserved_sectors = 0;
    sectors_per_fat = 0;
    partition_lba = 0;
    root_cluster = 0;
    data_lba = 0;
    cluster_size = 0;
    fat_lba = 0;
  };
  table = record { entries = []; total_clusters = 0 };
  buffer = [];
  world = λ s. boot_bytes;
}

abbrev some_name : List ℕ
some_name = 0x2f ∷ 0x41 ∷ []

require_mounted-fails_example :
    (fat32_stat disk 9 some_name no_volume ≡ fails io_error no_volume)
    × (fat32_list_dir disk 9 some_name collect [] no_volume ≡ fails io_error no_volume)
    × (fat32_read_file disk 9 some_name collect [] no_volume ≡ fails io_error no_volume)
    × (fat32_write_file disk 9 some_name [] true no_volume ≡ fails io_error no_volume)
    × (fat32_make_dir disk 9 some_name no_volume ≡ fails io_error no_volume)
    × (fat32_remove disk 9 some_name no_volume ≡ fails io_error no_volume)
    × (fat32_rename disk 9 some_name some_name no_volume ≡ fails io_error no_volume)
require_mounted-fails_example =
    require_mounted-fails disk 9 some_name some_name [] true collect collect [] [] no_volume refl
