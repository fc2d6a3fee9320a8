-- ===== src/Fat32/Mount/Ready.antt =====
-- After `fat32_mount`.
use funny_os.Common.{
  ℕ, zero, suc, ◌+◌, ◌-◌, ◌*◌, ◌≤◌, ◌<◌, ◌≡◌, refl, ◌∙◌, ◌⊎◌, inl, inr, Bool, true, false, List,
  arith, ◌==◌, Bool-cases, drop, u32, add32,
}
use funny_os.Fat32.Calls.{Call, perform_all}
use funny_os.Fat32.Volume.{
  sector_size, Device, Geometry, Volume, Run, returns, fails, stuck, chunk_of, read_sectors_from,
  read_sectors,
}
use funny_os.Fat32.Mount.{
  BootSector, boot_sector, total_sectors, is_mountable, load_result, load_table, fat32_mount,
}
use funny_os.Fat32.Mount.Layout.{is_mountable-IsAccepted, IsReady, load_result-IsReady}
use funny_os.Fat32.Safe.{IsDisk, IsDisk-below, Keeps, After}
use funny_os.Fat32.Safe.Files.{perform_all-Keeps}

module _ {W : Type 0} (device : Device W) where
  -- The number of sectors that the boot sector gives.
  abbrev pub sectors_at : (first : ℕ) (sector : List ℕ) → Volume W → ℕ
  sectors_at first sector v =
      total_sectors (boot_sector ((device.read_sectors first 1 sector v.world).1).0)

  -- A mount that succeeds, of a partition that ends below 2^32 sectors, leaves a mounted volume: a
  -- table with an entry for each cluster, the copies of the table and the clusters in this order
  -- after the partition's first sector and before its end, a root directory among the clusters, and
  -- a cluster size of whole sectors that the cluster buffer can hold.
  pub fat32_mount-IsReady :
      (first bytes_per_sector : ℕ) (sector : List ℕ) (v : Volume W)
      → first + sectors_at first sector v < u32
      → (fat32_mount device first bytes_per_sector sector v).0 ≡ true
      → IsReady
          (fat32_mount device first bytes_per_sector sector v).1
          first
          (first + sectors_at first sector v)
  unfolding fat32_mount load_table
  fat32_mount-IsReady first bytes_per_sector sector v small t =
      let r = device.read_sectors first 1 sector v.world in
      elim (Bool-cases (bytes_per_sector == sector_size)) [
        | inr p ↦ absurd (ground (arith, p, t))
        | inl p ↦ elim (Bool-cases r.0) [
          | inr q ↦ absurd (ground (arith, p, q, t))
          | inl q ↦ elim (Bool-cases (is_mountable (boot_sector (r.1).0))) [
            | inr m ↦ absurd (ground (arith, p, q, m, t))
            | inl m ↦
                rw (p, q, m)
                  (load_result-IsReady first (r.1).0 _ _ (is_mountable-IsAccepted _ m) small
                    (ground (arith, p, q, m, t)))
          ]
        ]
      ]

-- The volume at the end of a run.
abbrev pub ended : {W A : Type 0} → Run W A → Volume W
ended (returns a v) = v
ended (fails r v) = v
ended (stuck v) = v

module _ {W : Type 0} (device : Device W) (contents : W → ℕ → List ℕ) (size : ℕ)
    (disk : IsDisk device contents size) where
  read_sectors_from-Keeps :
      (rounds lba count : ℕ) (out : List ℕ) (w : W) (s : ℕ)
      → contents ((read_sectors_from device rounds lba count out w).1).1 s ≡ contents w s
  unfolding read_sectors_from
  read_sectors_from-Keeps zero lba count out w s = refl
  read_sectors_from-Keeps (suc rounds) lba count out w s =
      let r = device.read_sectors lba (chunk_of count) out w in
      let here = disk.read_keeps lba (chunk_of count) out w s in
      elim (Bool-cases (count == 0)) [
        | inl t ↦ rw t refl
        | inr t ↦ elim (Bool-cases r.0) [
          | inr u ↦ rw (t, u) here
          | inl u ↦
              rw (t, u)
                (read_sectors_from-Keeps rounds (add32 lba (chunk_of count))
                    (count - chunk_of count) (drop (chunk_of count * sector_size) (r.1).0) (r.1).1 s
                  ∙ here)
        ]
      ]

  load_result-world :
      (first : ℕ) (b : BootSector) (v : Volume W) (r : Bool × (List ℕ × W))
      → (load_result first b v r).1.world ≡ (r.1).1
  unfolding load_result
  load_result-world first b v (true, read) = refl
  load_result-world first b v (false, read) = refl

  -- Mounting writes nothing.
  fat32_mount-Keeps :
      (first bytes_per_sector : ℕ) (sector : List ℕ) (v : Volume W) (s : ℕ)
      → contents (fat32_mount device first bytes_per_sector sector v).1.world s ≡ contents v.world s
  unfolding fat32_mount load_table read_sectors
  fat32_mount-Keeps first bytes_per_sector sector v s =
      let r = device.read_sectors first 1 sector v.world in
      let here = disk.read_keeps first 1 sector v.world s in
      elim (Bool-cases (bytes_per_sector == sector_size)) [
        | inr p ↦ rw p refl
        | inl p ↦ elim (Bool-cases r.0) [
          | inr q ↦ rw (p, q) here
          | inl q ↦ elim (Bool-cases (is_mountable (boot_sector (r.1).0))) [
            | inr m ↦ rw (p, q, m) here
            | inl m ↦
                rw (p, q, m)
                  (rw (load_result-world first (boot_sector (r.1).0) _ _)
                    (read_sectors_from-Keeps _ _ _ _ _ s ∙ here))
          ]
        ]
      ]

  ended-Keeps :
      {A : Type 0} (g : Geometry) (clusters limit : ℕ) (v : Volume W) (r : Run W A)
      → After contents g clusters limit v r
      → Keeps contents g.fat_lba limit v.world (ended r).world
  ended-Keeps g clusters limit v (returns a w) p = p.1
  ended-Keeps g clusters limit v (fails e w) p = p.1
  ended-Keeps g clusters limit v (stuck w) p = p.1

  -- On a disk whose writes below `size` touch no sectors but those that they name, mounting a
  -- partition that ends there at the latest and below 2^32 sectors, if it succeeds, and then any sequence of calls, each of which may fail, leave
  -- the partition's first sector, all before it and all from its end on as they were, at every end
  -- of the run, that of a loop whose rounds are used up among them.
  pub perform_all-fat32_mount :
      (fuel : ℕ) (calls : List Call) (first bytes_per_sector : ℕ) (sector : List ℕ) (v : Volume W)
      → first + sectors_at device first sector v < u32
      → first + sectors_at device first sector v ≤ size
      → (fat32_mount device first bytes_per_sector sector v).0 ≡ true
      → (s : ℕ) → ((s ≤ first) ⊎ (first + sectors_at device first sector v ≤ s))
      → contents
          (ended (
            perform_all device fuel calls
              (fat32_mount device first bytes_per_sector sector v).1)).world
          s
        ≡ contents v.world s
  perform_all-fat32_mount fuel calls first bytes_per_sector sector v small fits t s o =
      let m = (fat32_mount device first bytes_per_sector sector v).1 in
      let ready = fat32_mount-IsReady device first bytes_per_sector sector v small t in
      let limit = first + sectors_at device first sector v in
      let outside : (s < m.geometry.fat_lba) ⊎ (limit ≤ s) = elim o [
        | inl h ↦ inl (omega (arith, ready.after_first))
        | inr h ↦ inr h
      ] in
      let after =
        perform_all-Keeps device contents fuel m.geometry m.table.total_clusters limit
          (IsDisk-below device contents size limit fits disk) ready.laid calls m
          (record { same_geometry = refl; same_clusters = refl; table = ready.table }) in
      ended-Keeps m.geometry m.table.total_clusters limit m _ after s outside
      ∙ fat32_mount-Keeps first bytes_per_sector sector v s
