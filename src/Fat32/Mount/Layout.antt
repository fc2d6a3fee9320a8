-- ===== src/Fat32/Mount/Layout.antt =====
-- What `fat32_mount` accepts.
use native.Mathlib.Nat.{div-mul-le_self, mul-le-mul}
use funny_os.Common.{
  ℕ, zero, suc, ◌+◌, ◌-◌, ◌*◌, ◌/◌, ◌≤◌, ◌<◌, ◌≡◌, refl, ap, Bool, true, false, List, arith, length,
  replicate, length-append, length-replicate, u32, add32, sub32, mul32,
}
use funny_os.Fat32.Bytes.{words_of}
use funny_os.Fat32.Chain.Table.{IsTable}
use funny_os.Fat32.Volume.{sector_size, max_cluster_sectors, Volume}
use funny_os.Fat32.Mount.{
  max_fat_sectors, BootSector, boot_sector, total_sectors, non_data_sectors, cluster_count,
  fat_entry_count, is_mountable, geometry_of, fat_entries, loaded_entries, load_result,
}
use funny_os.Fat32.Safe.{IsLaidOut}

-- The checks that were passed.
pub record IsAccepted (b : BootSector) : Type 0 where
  pub sectors : b.bytes_per_sector ≡ sector_size
  pub table_small : b.sectors_per_fat32 ≤ max_fat_sectors
  pub reserved_some : 1 ≤ b.reserved_sectors
  pub copies_some : 1 ≤ b.fat_count
  pub table_some : 1 ≤ b.sectors_per_fat32
  pub cluster_some : 1 ≤ b.sectors_per_cluster
  pub cluster_small : b.sectors_per_cluster ≤ max_cluster_sectors
  pub root_low : 2 ≤ b.root_cluster
  pub data_some : non_data_sectors b < total_sectors b
  pub covered : cluster_count b ≤ fat_entry_count b
  pub root_high : b.root_cluster < cluster_count b

pub is_mountable-IsAccepted : (b : BootSector) → is_mountable b ≡ true → IsAccepted b
unfolding is_mountable
is_mountable-IsAccepted b t = record {
  sectors = ground arith;
  table_small = ground arith;
  reserved_some = ground arith;
  copies_some = ground arith;
  table_some = ground arith;
  cluster_some = ground arith;
  cluster_small = ground arith;
  root_low = ground arith;
  data_some = ground arith;
  covered = ground arith;
  root_high = ground arith;
}

-- A volume that the operations can work on, from its first sector on and below a limit.
pub record IsReady {W : Type 0} (v : Volume W) (first limit : ℕ) : Type 0 where
  pub mounted : v.geometry.mounted ≡ true
  pub table : IsTable v.table
  pub laid : IsLaidOut v.geometry v.table.total_clusters limit
  pub after_first : first < v.geometry.fat_lba
  pub root_low : 2 ≤ v.geometry.root_cluster
  pub root_high : v.geometry.root_cluster < v.table.total_clusters
  pub cluster : v.geometry.cluster_size ≡ v.geometry.sectors_per_cluster * sector_size
  pub buffer : v.geometry.cluster_size ≤ length v.buffer

module _ (bytes : List ℕ) (h : IsAccepted (boot_sector bytes)) where
  abbrev b : BootSector
  b = boot_sector bytes

  tables_small : b.fat_count * b.sectors_per_fat32 ≤ 256 * 4096
  unfolding boot_sector
  tables_small = mul-le-mul {n₂ = 256} (omega arith) h.table_small

  tables_some : 1 ≤ b.fat_count * b.sectors_per_fat32
  tables_some = mul-le-mul {n₁ = 1} {m₁ = 1} h.copies_some h.table_some

  -- The sectors before the clusters, and the clusters, without a wrap.
  non_data_lem : non_data_sectors b ≡ b.reserved_sectors + b.fat_count * b.sectors_per_fat32
  unfolding boot_sector
  non_data_lem = omega (arith, tables_small)

  total_small : total_sectors b < u32
  unfolding boot_sector
  total_small = ground arith

  clusters_lem :
      cluster_count b ≡ (total_sectors b - non_data_sectors b) / b.sectors_per_cluster + 2
  unfolding boot_sector
  clusters_lem =
      let left : sub32 (total_sectors b) (non_data_sectors b)
          ≡ total_sectors b - non_data_sectors b =
        omega (arith, h.data_some, total_small) in
      let q = (total_sectors b - non_data_sectors b) / b.sectors_per_cluster in
      let small : q * 1 ≤ q * b.sectors_per_cluster =
        mul-le-mul {n₁ = q} (omega arith) h.cluster_some in
      let within = div-mul-le_self (total_sectors b - non_data_sectors b) b.sectors_per_cluster in
      rw left
        (omega (arith, small, within, total_small, non_data_lem, h.reserved_some, tables_some))

  geometry-IsLaidOut :
      (first : ℕ) (mounted : Bool)
      → first + total_sectors b < u32
      → IsLaidOut (geometry_of first b mounted) (cluster_count b) (first + total_sectors b)
  geometry-IsLaidOut first mounted small =
      let within = div-mul-le_self (total_sectors b - non_data_sectors b) b.sectors_per_cluster in
      let start : add32 first b.reserved_sectors ≡ first + b.reserved_sectors =
        omega (arith, non_data_lem, h.data_some) in
      let left : add32 (add32 first b.reserved_sectors) (mul32 b.fat_count b.sectors_per_fat32)
          ≡ first + non_data_sectors b =
        rw (start, non_data_lem) (omega (arith, non_data_lem, h.data_some)) in
      let q = (total_sectors b - non_data_sectors b) / b.sectors_per_cluster in
      let same : q + 2 - 2 ≡ q = omega arith in
      record {
        limit_small = small;
        copies = omega (arith, start, left, non_data_lem);
        area = rw (left, clusters_lem, same) (omega (arith, within, h.data_some));
      }

length-words_of : (count at : ℕ) (bytes : List ℕ) → length (words_of count at bytes) ≡ count
length-words_of zero at bytes = refl
length-words_of (suc count) at bytes = ap suc (length-words_of count (at + 4) bytes)

loaded_entries-covers :
    (bytes : List ℕ) (h : IsAccepted (boot_sector bytes)) (entries : List ℕ)
    → cluster_count (boot_sector bytes)
      ≤ length (loaded_entries (boot_sector bytes).sectors_per_fat32 entries)
loaded_entries-covers bytes h entries =
    let sectors = (boot_sector bytes).sectors_per_fat32 in
    omega (
      arith,
      h.covered,
      h.table_small,
      length-words_of (sectors * 128) 0 entries,
      length-append (words_of (sectors * 128) 0 entries)
          (replicate (fat_entries - sectors * 128) 0),
    )

pub load_result-IsReady :
    {W : Type 0} (first : ℕ) (bytes : List ℕ) (v : Volume W) (r : Bool × (List ℕ × W))
    → IsAccepted (boot_sector bytes)
    → first + total_sectors (boot_sector bytes) < u32
    → (load_result first (boot_sector bytes) v r).0 ≡ true
    → IsReady
        (load_result first (boot_sector bytes) v r).1
        first
        (first + total_sectors (boot_sector bytes))
unfolding load_result
load_result-IsReady first bytes v (false, read) h small t = absurd (ground (arith, t))
load_result-IsReady first bytes v (true, read) h small t = record {
  mounted = refl;
  table = record {
    covers = loaded_entries-covers bytes h read.0;
    small = omega (arith, h.covered, h.table_small);
  };
  laid = geometry-IsLaidOut bytes h first true small;
  after_first = omega (arith, h.reserved_some, h.data_some, non_data_lem bytes h);
  root_low = h.root_low;
  root_high = h.root_high;
  cluster = rw h.sectors (omega (arith, h.cluster_small));
  buffer = rw h.sectors (omega (arith, h.cluster_small, length-replicate {A = ℕ} 4096 0));
}
