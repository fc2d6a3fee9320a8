-- ===== src/Fs/Start.antt =====
-- What the start of the file system and the calls after it leave alone.
use mathlib.Core.Option.{some-injective}
use funny_os.Common.{ℕ, ◌+◌, ◌≤◌, ◌<◌, ◌≡◌, sym, ap, subst, ◌∙◌, ◌⊎◌, true, some, List, u32}
use funny_os.BootInfo.{BootInfo}
use funny_os.Pci.{Ports}
use funny_os.Pci.Quiet.{IsQuiet}
use funny_os.Fat32.Volume.{Volume}
use funny_os.Fat32.Calls.{Call, perform_all}
use funny_os.Fat32.Mount.{fat32_mount}
use funny_os.Fat32.Mount.Ready.{sectors_at, ended, perform_all-fat32_mount}
use funny_os.Fat32.Safe.{IsDisk}
use funny_os.Block.{AtaDeviceAddress, AhciDeviceAddress}
use funny_os.Block.Init.{BlockDevice, Controller, block_init, block_device}
use funny_os.Block.Bound.{block_device-IsDisk}
use funny_os.Block.Quiet.{IsMild, block_init-Keeps}
use funny_os.Fs.{mount_bound, fs_init}

module _ {W : Type 0} (ports : Ports W) (ahci : Controller AhciDeviceAddress W)
    (ata : Controller AtaDeviceAddress W) (contents : W → ℕ → List ℕ)
    (quiet : IsQuiet ports contents) (mild_ahci : IsMild ahci contents)
    (mild_ata : IsMild ata contents) (size : ℕ)
    (disk_ahci : IsDisk ahci.sectors (λ p. contents p.world) size)
    (disk_ata : IsDisk ata.sectors (λ p. contents p.world) size) where
  fs_init-mounted :
      (info : BootInfo) (sector : List ℕ) (v v' : Volume (BlockDevice W)) (b : BlockDevice W)
      → block_init ports ahci ata info v.world ≡ some (true, b)
      → fs_init ports ahci ata info sector v ≡ some (true, v')
      → fat32_mount
          (block_device ports ahci ata)
          info.partition_lba_start
          info.bytes_per_sector
          sector
          (record v { world = b })
        ≡ (true, v')
  unfolding fs_init
  fs_init-mounted info sector v v' b bound started =
      some-injective _ _ (ap (mount_bound ports ahci ata info sector v) (sym bound) ∙ started)

  -- If the configuration space and the two drivers' set-up leave the disks' contents alone, and the
  -- drivers' writes below `size` touch no sectors but those that they name, then the start of the file
  -- system, when it succeeds on a partition that ends at `size` at the latest and below 2^32 sectors,
  -- and any sequence of calls after it change no sector before the partition's second and none from
  -- its end on. (`size` is the part of the disk that both drivers can address: for kernel/ata.c, which
  -- has 28 bits for a sector and compares only the first one of a transfer with them, at most 2^28.)
  pub fs_init-Keeps :
      (fuel : ℕ) (calls : List Call) (info : BootInfo) (sector : List ℕ)
      (v v' : Volume (BlockDevice W)) (b : BlockDevice W)
      → block_init ports ahci ata info v.world ≡ some (true, b)
      → fs_init ports ahci ata info sector v ≡ some (true, v')
      → info.partition_lba_start
          + sectors_at
              (block_device ports ahci ata)
              info.partition_lba_start
              sector
              (record v { world = b })
        < u32
      → info.partition_lba_start
          + sectors_at
              (block_device ports ahci ata)
              info.partition_lba_start
              sector
              (record v { world = b })
        ≤ size
      → (s : ℕ)
      → ((s ≤ info.partition_lba_start)
          ⊎ (info.partition_lba_start
                + sectors_at
                    (block_device ports ahci ata)
                    info.partition_lba_start
                    sector
                    (record v { world = b })
              ≤ s))
      → contents (ended (perform_all (block_device ports ahci ata) fuel calls v')).world.pci.world s
        ≡ contents v.world.pci.world s
  fs_init-Keeps fuel calls info sector v v' b bound started small fits s o =
      let device = block_device ports ahci ata in
      let mounted = fs_init-mounted info sector v v' b bound started in
      let kept =
        perform_all-fat32_mount device (λ w. contents w.pci.world) size
          (block_device-IsDisk ports ahci ata (λ p. contents p.world) size disk_ahci disk_ata) fuel
          calls info.partition_lba_start info.bytes_per_sector sector (record v { world = b }) small
          fits (ap (λ r. r.0) mounted) s o in
      subst
        (λ r.
          contents (ended (perform_all device fuel calls r.1)).world.pci.world s
          ≡ contents v.world.pci.world s)
        mounted
        (kept
          ∙ block_init-Keeps ports ahci ata contents quiet mild_ahci mild_ata info v.world (true, b)
              s bound)
