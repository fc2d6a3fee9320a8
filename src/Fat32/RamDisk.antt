-- ===== src/Fat32/RamDisk.antt =====
-- A disk in memory, for the tests of the file system: a sector is what was last written to it.
use funny_os.Common.{
  ℕ, zero, suc, ◌+◌, ◌-◌, ◌*◌, ◌≤◌, ◌<◌, ◌≡◌, refl, ◌⊎◌, inl, inr, Bool, true, false, ◌&&◌, List,
  [], ◌∷◌, ◌++◌, arith, ltb, leb, if◌then◌else◌, drop, replicate,
}
use funny_os.Fat32.Bytes.{slice}
use funny_os.Fat32.Volume.{sector_size, Device}
use funny_os.Fat32.Safe.{IsDisk}

abbrev pub Sectors : Type 0
Sectors = ℕ → List ℕ

unfoldable pub sectors_from : (count lba : ℕ) → Sectors → List ℕ
sectors_from zero lba w = []
sectors_from (suc count) lba w = w lba ++ sectors_from count (suc lba) w

abbrev pub is_written : (lba count s : ℕ) → Bool
is_written lba count s = leb lba s && ltb s (lba + count)

-- A device that keeps what is written.
abbrev pub disk : Device Sectors
disk = record {
  read_sectors =
      λ lba count out w. (true, (sectors_from count lba w ++ drop (count * sector_size) out, w));
  write_sectors = λ lba count bytes w. (
    true,
    λ s. if is_written lba count s then slice ((s - lba) * sector_size) sector_size bytes else w s,
  );
}

not_written : (lba count s : ℕ) → ((s < lba) ⊎ (lba + count ≤ s)) → is_written lba count s ≡ false
not_written lba count s (inl h) = ground arith
not_written lba count s (inr h) = ground arith

pub disk-IsDisk : (size : ℕ) → IsDisk disk (λ w s. w s) size
disk-IsDisk size = record {
  read_keeps = λ lba count out w s. refl;
  write_keeps = λ lba count bytes w s below h. rw (not_written lba count s h) refl;
}

-- The boot sector: 512 bytes for a sector, one sector for a cluster, one reserved sector, two copies
-- of a table of one sector, forty sectors, and the root directory in cluster two.
abbrev pub boot_bytes : List ℕ
boot_bytes =
    replicate 11 0
    ++ (0 ∷ 2 ∷ 1 ∷ 1 ∷ 0 ∷ 2 ∷ 0 ∷ 0 ∷ 40 ∷ 0 ∷ [])
    ++ replicate 15 0
    ++ (1 ∷ 0 ∷ 0 ∷ 0 ∷ [])
    ++ replicate 4 0
    ++ (2 ∷ 0 ∷ 0 ∷ 0 ∷ [])
    ++ replicate 464 0
