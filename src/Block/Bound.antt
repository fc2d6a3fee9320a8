-- ===== src/Block/Bound.antt =====
-- What `block_init` binds, and where the bound device reads and writes.
use funny_os.Common.{
  ℕ, ◌≡◌, refl, ap, ◌∙◌, inl, inr, Bool, true, false, Option, none, some, List, [], ◌∷◌, ◌++◌,
  if◌then◌else◌, Bool-cases,
}
use funny_os.BootInfo.{BootInfo}
use funny_os.Driver.{DriverOps, driver_core_register}
use funny_os.Pci.{Ports, Pci}
use funny_os.Fat32.Safe.{IsDisk}
use funny_os.Block.{
  AtaDeviceAddress, BlockPathParseResult, invalid, absent, found, block_boot_path_to_ata,
  AhciDeviceAddress, block_boot_path_to_ahci,
}
use funny_os.Block.Init.{
  backend_none, backend_ata_pio, backend_ahci, BlockDevice, Controller, DriverDevice, ahci_address,
  ata_address, ahci_candidate, ata_candidate, default_ata_device, ahci_candidates, ahci_driver,
  ata_driver, bound_outcome, probe_candidates, with_ata, init_from, block_init, block_read_sectors,
  block_write_sectors, block_device,
}
use funny_os.Block.Path.{block_boot_path_to_ata-ends, block_boot_path_to_ahci-ends}
use funny_os.Driver.Probe.{first_working, driver_core_probe_lem}

-- The address with its fields as bytes.
abbrev pub ahci_bytes : AhciDeviceAddress → AhciDeviceAddress
ahci_bytes a = ahci_address (ahci_candidate a)

abbrev pub ata_bytes : AtaDeviceAddress → AtaDeviceAddress
ata_bytes a = ata_address (ata_candidate a)

module _ {W : Type 0} (ports : Ports W) (ahci : Controller AhciDeviceAddress W)
    (ata : Controller AtaDeviceAddress W) where
  -- The ATA drive alone.
  abbrev pub ata_only : AtaDeviceAddress → Pci W → Bool × BlockDevice W
  ata_only a s =
      let r = ata.init (ata_bytes a) s in
      (r.0, record { backend = if r.0 then backend_ata_pio else backend_none; pci = r.1 })

  -- The AHCI disk if there is one that works, else the ATA drive.
  abbrev pub first_that_works :
      Option AhciDeviceAddress → AtaDeviceAddress → Pci W → Bool × BlockDevice W
  first_that_works none a s = ata_only a s
  first_that_works (some c) a s =
      let r = ahci.init (ahci_bytes c) s in
      if r.0 then (true, record { backend = backend_ahci; pci = r.1 }) else ata_only a r.1

  -- The drive of the firmware's path, or the first one.
  abbrev pub chosen : BlockPathParseResult → Option AhciDeviceAddress → Pci W → Bool × BlockDevice W
  chosen invalid c s = (false, record { backend = backend_none; pci = s })
  chosen (found a) c s = first_that_works c a s
  chosen absent c s = first_that_works c default_ata_device s

  abbrev drivers : List (DriverOps DriverDevice (BlockDevice W))
  drivers = ahci_driver ports ahci ata ∷ ata_driver ports ahci ata ∷ []

  probe-ata :
      (a : AtaDeviceAddress) (s : Pci W)
      → bound_outcome ports ahci ata (
          first_working
            ((ata_driver ports ahci ata, ata_candidate a) ∷ [])
            (record { backend = backend_none; pci = s }))
        ≡ ata_only a s
  probe-ata a s = elim (Bool-cases (ata.init (ata_bytes a) s).0) [
    | inl t ↦ rw t refl
    | inr t ↦ rw t refl
  ]

  probe-ahci :
      (c : AhciDeviceAddress) (a : AtaDeviceAddress) (s : Pci W)
      → bound_outcome ports ahci ata (
          first_working
            ((ahci_driver ports ahci ata, ahci_candidate c)
              ∷ (ata_driver ports ahci ata, ata_candidate a)
              ∷ [])
            (record { backend = backend_none; pci = s }))
        ≡ first_that_works (some c) a s
  probe-ahci c a s = elim (Bool-cases (ahci.init (ahci_bytes c) s).0) [
    | inl t ↦ rw t refl
    | inr t ↦ rw t (probe-ata a (ahci.init (ahci_bytes c) s).1)
  ]

  probe-first_that_works :
      (c : Option AhciDeviceAddress) (a : AtaDeviceAddress) (s : Pci W)
      → probe_candidates ports ahci ata
          (ahci_candidates c ++ (ata_candidate a ∷ []))
          drivers
          (record { backend = backend_none; pci = s })
        ≡ first_that_works c a s
  unfolding probe_candidates
  probe-first_that_works none a s =
      ap (bound_outcome ports ahci ata) (driver_core_probe_lem (ata_candidate a ∷ []) drivers _)
      ∙ probe-ata a s
  probe-first_that_works (some c) a s =
      ap (bound_outcome ports ahci ata)
        (driver_core_probe_lem (ahci_candidate c ∷ ata_candidate a ∷ []) drivers _)
      ∙ probe-ahci c a s

  with_ata-chosen :
      (r : BlockPathParseResult) (c : Option AhciDeviceAddress) (s : Pci W)
      → with_ata ports ahci ata r
          (ahci_candidates c)
          drivers
          (record { backend = backend_none; pci = s })
        ≡ chosen r c s
  with_ata-chosen invalid c s = refl
  with_ata-chosen (found a) c s = probe-first_that_works c a s
  with_ata-chosen absent c s = probe-first_that_works c default_ata_device s

  init_from-chosen :
      (found_ahci : Option (Option AhciDeviceAddress × Pci W))
      (found_ata : Option BlockPathParseResult) (x : Option AhciDeviceAddress × Pci W)
      (r : BlockPathParseResult)
      → found_ahci ≡ some x
      → found_ata ≡ some r
      → init_from ports ahci ata found_ahci found_ata drivers ≡ some (chosen r x.0 x.1)
  init_from-chosen found_ahci found_ata (c, s) r p q = rw (p, q) (ap some (with_ata-chosen r c s))

  -- `block_init` returns, and it binds the AHCI disk of the firmware's path if that can be
  -- initialised, else the ATA drive of the path, or the first ATA drive if the path has none; a path
  -- with a bad ATA node, and devices of which none can be initialised, give `false` and no backend.
  pub block_init-chosen :
      (info : BootInfo) (b : BlockDevice W)
      → (x : Option AhciDeviceAddress × Pci W) × (r : BlockPathParseResult)
        × (block_boot_path_to_ahci ports info b.pci ≡ some x)
        × (block_boot_path_to_ata info ≡ some r)
        × (block_init ports ahci ata info b ≡ some (chosen r x.0 x.1))
  unfolding block_init driver_core_register
  block_init-chosen info b =
      let (x, p) = block_boot_path_to_ahci-ends ports info b.pci in
      let (r, q) = block_boot_path_to_ata-ends info in (x, r, p, q, init_from-chosen _ _ x r p q)

-- The sectors of the bound device are those of its driver: a disk behind each of the two drivers is
-- a disk of the same size for the file system, also while none is bound.
pub block_device-IsDisk :
    {W : Type 0} (ports : Ports W) (ahci : Controller AhciDeviceAddress W)
    (ata : Controller AtaDeviceAddress W) (contents : Pci W → ℕ → List ℕ) (size : ℕ)
    → IsDisk ahci.sectors contents size
    → IsDisk ata.sectors contents size
    → IsDisk (block_device ports ahci ata) (λ b. contents b.pci) size
unfolding block_read_sectors block_write_sectors
block_device-IsDisk ports ahci ata contents size p q = record {
  read_keeps = λ lba count out b s.
      elim b.backend
        as (λ k.
          contents
            (((block_read_sectors ports ahci ata lba count out (record b { backend = k })).1).1).pci
            s
          ≡ contents b.pci s) [
            | backend_none ↦ refl
            | backend_ata_pio ↦ q.read_keeps lba count out b.pci s
            | backend_ahci ↦ p.read_keeps lba count out b.pci s
          ];
  write_keeps = λ lba count bytes b s below o.
      elim b.backend
        as (λ k.
          contents
            ((block_write_sectors ports ahci ata lba count bytes (record b { backend = k })).1).pci
            s
          ≡ contents b.pci s) [
            | backend_none ↦ refl
            | backend_ata_pio ↦ q.write_keeps lba count bytes b.pci s below o
            | backend_ahci ↦ p.write_keeps lba count bytes b.pci s below o
          ];
}
