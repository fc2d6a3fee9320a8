-- ===== src/Fat32/Safe/Tests.antt =====
-- Calls on a small volume: four sectors before it, two copies of a table of one sector, then six
-- clusters of one sector.
use funny_os.Common.{refl, true, false, List, [], ◌∷◌, arith, replicate}
use funny_os.Fat32.Calls.{Call, write_file, make_dir, remove, rename, perform_all}
use funny_os.Fat32.Volume.{Geometry, Volume}
use funny_os.Fat32.Safe.{IsLaidOut, IsMounted, After}
use funny_os.Fat32.RamDisk.{Sectors, disk, disk-IsDisk}
use funny_os.Fat32.Safe.Files.{perform_all-Keeps}

abbrev small_geometry : Geometry
small_geometry = record {
  mounted = true;
  sectors_per_cluster = 1;
  fat_count = 2;
  reserved_sectors = 1;
  sectors_per_fat = 1;
  partition_lba = 3;
  root_cluster = 2;
  data_lba = 6;
  cluster_size = 512;
  fat_lba = 4;
}

small_geometry-IsLaidOut : IsLaidOut small_geometry 8 12
small_geometry-IsLaidOut = record {
  limit_small = omega arith;
  copies = omega arith;
  area = omega arith;
}

-- The root directory's cluster is the only one in use.
abbrev small_volume : Volume Sectors
small_volume = record {
  geometry = small_geometry;
  table = record { entries = 0 ∷ 0 ∷ 0x0fffffff ∷ replicate 125 0; total_clusters = 8 };
  buffer = replicate 4096 0;
  world = λ s. replicate 512 0;
}

small_volume-IsMounted : IsMounted {W = Sectors} (λ w s. w s) small_geometry 8 12 small_volume
small_volume-IsMounted = record {
  same_geometry = refl;
  same_clusters = refl;
  table = record { covers = omega arith; small = omega arith };
}

-- A directory "/D", a file "/D/Ab" of three bytes, and what is then there.
abbrev some_calls : List Call
some_calls =
    make_dir (0x2f ∷ 0x44 ∷ [])
    ∷ write_file (0x2f ∷ 0x44 ∷ 0x2f ∷ 0x41 ∷ 0x62 ∷ []) (1 ∷ 2 ∷ 3 ∷ []) false
    ∷ rename (0x2f ∷ 0x44 ∷ []) (0x2f ∷ 0x45 ∷ [])
    ∷ remove (0x2f ∷ 0x45 ∷ [])
    ∷ []

perform_all-Keeps_example :
    After {W = Sectors}
      (λ w s. w s)
      small_geometry
      8
      12
      small_volume
      (perform_all disk 9 some_calls small_volume)
perform_all-Keeps_example =
    perform_all-Keeps disk (λ w s. w s) 9 small_geometry 8 12 (disk-IsDisk 12)
      small_geometry-IsLaidOut some_calls small_volume small_volume-IsMounted
