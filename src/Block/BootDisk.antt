-- ===== src/Block/BootDisk.antt =====
-- The disk of the firmware's path, and the sectors of the bound device.
use mathlib.Core.Option.{some-injective}
use funny_os.Common.{
  ℕ, ◌<◌, ◌≡◌, refl, sym, ap, subst, ◌∙◌, ◌⊎◌, Bool, true, false, Option, none, some, List, arith,
  ◌==◌, length,
}
use funny_os.BootInfo.{BootInfo}
use funny_os.Fat32.Volume.{Device}
use funny_os.Pci.{Ports, PciAddress, Pci}
use funny_os.Block.{
  AtaDeviceAddress, BlockPathParseResult, invalid, absent, found, AhciDeviceAddress,
  block_resolve_pci_path, at_port,
}
use funny_os.Block.Init.{
  backend_ahci, BlockDevice, Controller, block_init, block_read_sectors, block_write_sectors,
}
use funny_os.Block.Nodes.{Node, hops_of, port_of, drive_of}
use funny_os.Block.Boot.{
  Leads, Leads-resolve_from, Leads-some_hop, Leads-IsAddress, hops_of-IsHop, IsPort, port_of-IsPort,
  IsDrive, drive_of-IsDrive, ahci_bytes_lem, IsBootPath, block_boot_path_to_ata-drive_of,
  block_boot_path_to_ahci-port_of,
}
use funny_os.Block.Bound.{ahci_bytes, chosen, block_init-chosen}

module _ {W : Type 0} (ports : Ports W) (ahci : Controller AhciDeviceAddress W)
    (ata : Controller AtaDeviceAddress W) where
  -- In whatever state the devices are, the sectors of the bound device are those of `disk`.
  abbrev pub Serves : Device (Pci W) → BlockDevice W → Type 0
  Serves disk d =
      ((lba count : ℕ) (out : List ℕ) (s : Pci W)
        → block_read_sectors ports ahci ata lba count out (record d { pci = s }) ≡ (
          (disk.read_sectors lba count out s).0,
          (
            ((disk.read_sectors lba count out s).1).0,
            record d { pci = ((disk.read_sectors lba count out s).1).1 },
          ),
        ))
      × ((lba count : ℕ) (bytes : List ℕ) (s : Pci W)
          → block_write_sectors ports ahci ata lba count bytes (record d { pci = s }) ≡ (
            (disk.write_sectors lba count bytes s).0,
            record d { pci = (disk.write_sectors lba count bytes s).1 },
          ))

  -- `block_init` returns `ok`, leaves the devices in a state, and if it succeeds binds the disk.
  abbrev pub Boots :
      (disk : Device (Pci W)) (ok : Bool) (s : Pci W) → Option (Bool × BlockDevice W) → Type 0
  Boots disk ok s r =
      (d : BlockDevice W) × (r ≡ some (ok, d)) × (d.pci ≡ s) × (ok ≡ true → Serves disk d)

  Serves-ahci : (s : Pci W) → Serves ahci.sectors (record { backend = backend_ahci; pci = s })
  unfolding block_read_sectors block_write_sectors
  Serves-ahci s = (λ lba count out t. refl, λ lba count bytes t. refl)

  chosen-ahci :
      (r : BlockPathParseResult) (c : AhciDeviceAddress) (s t : Pci W)
      → IsDrive r
      → ahci.init (ahci_bytes c) s ≡ (true, t)
      → chosen ports ahci ata r (some c) s ≡ (true, record { backend = backend_ahci; pci = t })
  chosen-ahci invalid c s t v e = absurd v
  chosen-ahci absent c s t v e = rw e refl
  chosen-ahci (found a) c s t v e = rw e refl

  -- The drive that the path names, or the first one.
  abbrev pub IsTheDrive : BlockPathParseResult → AtaDeviceAddress → Type 0
  IsTheDrive r a = (r ≡ found a) ⊎ ((r ≡ absent) × (a ≡ record { channel = 0; drive = 0 }))

  module _ (info : BootInfo) (nodes : List Node) (path : IsBootPath info nodes)
      (b : BlockDevice W) where
    -- What `block_init` chooses, by the nodes.
    block_init-nodes :
        block_init ports ahci ata info b
        ≡ some (
            chosen ports ahci ata
              (drive_of nodes)
              (at_port ports (port_of none nodes) (hops_of nodes) b.pci).0
              (at_port ports (port_of none nodes) (hops_of nodes) b.pci).1)
    block_init-nodes =
        let (x, r, p, q, e) = block_init-chosen ports ahci ata info b in
        let ex =
          some-injective _ _
            (sym p ∙ block_boot_path_to_ahci-port_of info nodes path ports b.pci) in
        let er = some-injective _ _ (sym q ∙ block_boot_path_to_ata-drive_of info nodes path) in
        e
        ∙ ap (λ y. some (chosen ports ahci ata r y.0 y.1)) ex
        ∙ ap
            (λ q. some (
              chosen ports ahci ata q (at_port ports (port_of none nodes) (hops_of nodes) b.pci).0
                (at_port ports (port_of none nodes) (hops_of nodes) b.pci).1))
            er

    at_port-Leads :
        (port : ℕ) (a : PciAddress) (s : Pci W)
        → port_of none nodes ≡ some port
        → Leads ports 0 (hops_of nodes) b.pci a s
        → at_port ports (port_of none nodes) (hops_of nodes) b.pci
          ≡ (some (record { controller = a; port = port }), s)
    unfolding block_resolve_pci_path
    at_port-Leads port a s p leads =
        let z : (length (hops_of nodes) == 0) ≡ false =
          Leads-some_hop ports 0 (hops_of nodes) b.pci s a leads in
        rw (p, z, Leads-resolve_from ports 0 (hops_of nodes) b.pci s a leads) refl

    -- Of a firmware's path that is the encoding of nodes, with at most eight PCI devices, ports below
    -- 32, no port multipliers and ATA drives of the two channels: if it names a SATA disk, its PCI
    -- devices lead, each through the bridge before it, to a controller, and the disk at that
    -- controller's address and the named port can be initialised, then `block_init` succeeds, and
    -- from then on reads and writes of the bound device are those of the AHCI driver that was given
    -- this address.
    pub block_init-Boots_ahci :
        (port : ℕ) (a : PciAddress) (s t : Pci W)
        → port_of none nodes ≡ some port
        → Leads ports 0 (hops_of nodes) b.pci a s
        → ahci.init (record { controller = a; port = port }) s ≡ (true, t)
        → Boots ahci.sectors true t (block_init ports ahci ata info b)
    block_init-Boots_ahci port a s t p leads e =
        let v =
          Leads-IsAddress ports 0 (hops_of nodes) b.pci s a (omega arith)
            (hops_of-IsHop nodes path.nodes_valid) leads in
        let small : port < 32 = subst IsPort p (port_of-IsPort none nodes tt path.nodes_valid) in
        let e' : ahci.init (ahci_bytes (record { controller = a; port = port })) s ≡ (true, t) =
          rw (ahci_bytes_lem a port v small) e in
        (
          record { backend = backend_ahci; pci = t },
          block_init-nodes
              ∙ ap (λ y. some (chosen ports ahci ata (drive_of nodes) y.0 y.1))
                  (at_port-Leads port a s p leads)
              ∙ ap some (
                  chosen-ahci (drive_of nodes) (record { controller = a; port = port }) s t
                    (drive_of-IsDrive nodes path.nodes_valid) e'),
          refl,
          λ h. Serves-ahci t,
        )

    -- The path names no SATA disk, or its disk cannot be initialised; the devices are then in a
    -- state.
    abbrev pub NoSata : Pci W → Type 0
    NoSata s =
        ((port_of none nodes ≡ none) × (s ≡ b.pci))
        ⊎ ((port : ℕ) × (a : PciAddress) × (t : Pci W) × (port_of none nodes ≡ some port)
            × Leads ports 0 (hops_of nodes) b.pci a t
            × (ahci.init (record { controller = a; port = port }) t ≡ (false, s)))
