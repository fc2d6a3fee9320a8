-- ===== src/Fat32/Mount.antt =====
-- kernel/fat32.c: `fat32_mount`.
pub mod Layout
pub mod Ready
mod Tests
use funny_os.Common.{
  ℕ, ◌-◌, ◌*◌, ◌/◌, Bool, true, false, not, ◌||◌, List, ◌++◌, ltb, leb, ◌==◌, if◌then◌else◌,
  replicate, add32, sub32, mul32,
}
use funny_os.Fat32.Bytes.{u8, u16, u32_at, bytes_of, words_of}
use funny_os.Fat32.Volume.{sector_size, max_cluster_sectors, Device, Geometry, Volume, read_sectors}

abbrev pub max_fat_sectors : ℕ
max_fat_sectors = 4096

-- `BootSector`, the fields that are read
pub record BootSector : Type 0 where
  pub bytes_per_sector : ℕ
  pub sectors_per_cluster : ℕ
  pub reserved_sectors : ℕ
  pub fat_count : ℕ
  pub total_sectors16 : ℕ
  pub total_sectors32 : ℕ
  pub sectors_per_fat32 : ℕ
  pub root_cluster : ℕ

unfoldable pub boot_sector : List ℕ → BootSector
boot_sector bytes = record {
  bytes_per_sector = u16 bytes 11;
  sectors_per_cluster = u8 bytes 13;
  reserved_sectors = u16 bytes 14;
  fat_count = u8 bytes 16;
  total_sectors16 = u16 bytes 19;
  total_sectors32 = u32_at bytes 32;
  sectors_per_fat32 = u32_at bytes 36;
  root_cluster = u32_at bytes 44;
}

abbrev pub total_sectors : BootSector → ℕ
total_sectors b = if not (b.total_sectors16 == 0) then b.total_sectors16 else b.total_sectors32

abbrev pub non_data_sectors : BootSector → ℕ
non_data_sectors b = add32 b.reserved_sectors (mul32 b.fat_count b.sectors_per_fat32)

abbrev pub cluster_count : BootSector → ℕ
cluster_count b = add32 (sub32 (total_sectors b) (non_data_sectors b) / b.sectors_per_cluster) 2

abbrev pub fat_entry_count : BootSector → ℕ
fat_entry_count b = mul32 b.sectors_per_fat32 sector_size / 4

-- The checks, each of which returns false.
unfoldable pub is_mountable : BootSector → Bool
is_mountable b =
    if not (b.bytes_per_sector == sector_size)
    then false
    else if b.sectors_per_fat32 == 0 || ltb max_fat_sectors b.sectors_per_fat32
    then false
    else if b.sectors_per_cluster == 0 || ltb max_cluster_sectors b.sectors_per_cluster
    then false
    else if b.fat_count == 0 || b.reserved_sectors == 0
    then false
    else if ltb b.root_cluster 2
    then false
    else if total_sectors b == 0
    then false
    else if leb (total_sectors b) (non_data_sectors b)
    then false
    else if ltb (fat_entry_count b) (cluster_count b)
    then false
    else not (leb (cluster_count b) b.root_cluster)

abbrev pub geometry_of : (partition_lba : ℕ) → BootSector → (mounted : Bool) → Geometry
geometry_of partition_lba b mounted = record {
  mounted = mounted;
  sectors_per_cluster = b.sectors_per_cluster;
  fat_count = b.fat_count;
  reserved_sectors = b.reserved_sectors;
  sectors_per_fat = b.sectors_per_fat32;
  partition_lba = partition_lba;
  root_cluster = b.root_cluster;
  data_lba = add32 (add32 partition_lba b.reserved_sectors) (mul32 b.fat_count b.sectors_per_fat32);
  cluster_size = mul32 b.sectors_per_cluster b.bytes_per_sector;
  fat_lba = add32 partition_lba b.reserved_sectors;
}

-- The entries of `g_fat`: those of the sectors read, and zeros.
abbrev pub fat_entries : ℕ
fat_entries = max_fat_sectors * sector_size / 4

abbrev pub loaded_entries : (sectors : ℕ) (bytes : List ℕ) → List ℕ
loaded_entries sectors bytes =
    words_of (sectors * 128) 0 bytes ++ replicate (fat_entries - sectors * 128) 0

-- The geometry and the table are set, whether the table could be read or not.
unfoldable pub load_result :
    {W : Type 0}
    → (partition_lba : ℕ) → BootSector
    → Volume W
    → Bool × (List ℕ × W)
    → Bool × Volume W
load_result partition_lba b v r =
    let g = geometry_of partition_lba b v.geometry.mounted in
    let v' = record v {
      geometry = g;
      table = record { entries = words_of fat_entries 0 (r.1).0; total_clusters = cluster_count b };
      world = (r.1).1;
    } in
    if not r.0 then (false, v') else (
      true,
      record v' {
        geometry = record g { mounted = true };
        table = record {
          entries = loaded_entries g.sectors_per_fat (r.1).0;
          total_clusters = cluster_count b;
        };
        buffer = replicate 4096 0;
      },
    )

module _ {W : Type 0} (device : Device W) where
  -- The table is read over what `g_fat` holds.
  unfoldable pub load_table : (partition_lba : ℕ) → BootSector → Volume W → Bool × Volume W
  load_table partition_lba b v =
      let g = geometry_of partition_lba b v.geometry.mounted in
      load_result partition_lba b v
        (read_sectors device g.fat_lba g.sectors_per_fat (bytes_of v.table.entries) v.world)

  -- `g_sector_buffer` is a local of the call: nothing else reads it.
  unfoldable pub fat32_mount :
      (partition_lba bytes_per_sector : ℕ) (sector : List ℕ) → Volume W → Bool × Volume W
  fat32_mount partition_lba bytes_per_sector sector v =
      let r = device.read_sectors partition_lba 1 sector v.world in
      let b = boot_sector (r.1).0 in
      let v' = record v { world = (r.1).1 } in
      if not (bytes_per_sector == sector_size)
      then (false, v)
      else if not r.0
      then (false, v')
      else if not (is_mountable b)
      then (false, v')
      else load_table partition_lba b v'
