-- ===== src/Block/Quiet.antt =====
-- `block_init` leaves the contents of the disks alone.
use mathlib.Core.Option.{some-injective}
use funny_os.Common.{
  ℕ, ◌≡◌, refl, sym, subst, ◌∙◌, inl, inr, Bool, not, ◌||◌, Option, none, some, List, [], ◌∷◌,
  arith, ltb, ◌==◌, Bool-cases, length,
}
use funny_os.Pci.{Ports, PciAddress, PciDeviceInfo, Pci, pci_read_config8, pci_read_device_info}
use funny_os.Pci.Quiet.{IsQuiet, if-either, pci_read_config8-Keeps, pci_read_device_info-Keeps}
use funny_os.BootInfo.{BootInfo}
use funny_os.Block.{
  Visit, next, stop, AtaDeviceAddress, BlockPathParseResult, invalid, absent, found,
  BlockPciPathHop, AhciPath, AhciDeviceAddress, resolve_next, resolve_from, block_resolve_pci_path,
  with_controller, at_port, resolved, block_boot_path_to_ahci,
}
use funny_os.Block.Init.{BlockDevice, Controller, default_ata_device, block_init}
use funny_os.Block.Bound.{ahci_bytes, ata_bytes, first_that_works, chosen, block_init-chosen}

-- A driver that initialises its device without a change to the contents of disks.
abbrev pub IsMild : {Address W : Type 0} → Controller Address W → (W → ℕ → List ℕ) → Type 0
IsMild driver contents =
    (a : _) (s : Pci _) (i : ℕ) → contents (driver.init a s).1.world i ≡ contents s.world i

module _ {W : Type 0} (ports : Ports W) (contents : W → ℕ → List ℕ)
    (quiet : IsQuiet ports contents) where
  resolve_next-Keeps :
      (rest : (bus : ℕ) → Pci W → Option PciAddress × Pci W) (hops : List BlockPciPathHop)
      (a : PciAddress) (r : Option PciDeviceInfo × Pci W) (i : ℕ) (old : List ℕ)
      → contents r.1.world i ≡ old
      → ((bus : ℕ) (s : Pci W) → contents (rest bus s).1.world i ≡ contents s.world i)
      → contents (resolve_next ports rest hops a r).1.world i ≡ old
  resolve_next-Keeps rest hops a (none, s) i old here later = here
  resolve_next-Keeps rest hops a (some info, s) i old here later =
      let secondary = pci_read_config8 ports a 0x19 s in
      let read = pci_read_config8-Keeps ports contents quiet a 0x19 s i ∙ here in
      let P : Option PciAddress × Pci W → Type 0 = λ x. contents x.1.world i ≡ old in
      if-either P (length hops == 0) _ _ here (
        if-either P (not (info.class_code == 6) || not (info.subclass == 4)) _ _ here
          (if-either P (secondary.0 == 0xff) _ _ read (later secondary.0 secondary.1 ∙ read)))

  resolve_from-Keeps :
      (hops : List BlockPciPathHop) (i bus : ℕ) (s : Pci W)
      → contents (resolve_from ports bus hops s).1.world i ≡ contents s.world i
  unfolding resolve_from
  resolve_from-Keeps [] i bus s = refl
  resolve_from-Keeps (hop ∷ hops) i bus s =
      let a : PciAddress = record { bus = bus; device = hop.device; function = hop.function } in
      resolve_next-Keeps (λ bus' s'. resolve_from ports bus' hops s') hops a
        (pci_read_device_info ports a s) i (contents s.world i)
        (pci_read_device_info-Keeps ports contents quiet a s i)
        (λ bus' s'. resolve_from-Keeps hops i bus' s')

  with_controller-Keeps :
      (port : ℕ) (r : Option PciAddress × Pci W) (i : ℕ)
      → contents (with_controller ports port r).1.world i ≡ contents r.1.world i
  with_controller-Keeps port (none, s) i = refl
  with_controller-Keeps port (some a, s) i = refl

  at_port-Keeps :
      (port : Option ℕ) (hops : List BlockPciPathHop) (s : Pci W) (i : ℕ)
      → contents (at_port ports port hops s).1.world i ≡ contents s.world i
  unfolding block_resolve_pci_path
  at_port-Keeps none hops s i = refl
  at_port-Keeps (some port) hops s i =
      let P : Option AhciDeviceAddress × Pci W → Type 0 =
        λ r. contents r.1.world i ≡ contents s.world i in
      if-either P (length hops == 0) _ _ refl (
        with_controller-Keeps port (block_resolve_pci_path ports hops s) i
        ∙ resolve_from-Keeps hops i 0 s)

  -- Whatever a search answers.
  resolved-Keeps :
      (o : Option (Visit AhciPath (Unit {0}))) (s : Pci W) (x : Option AhciDeviceAddress × Pci W)
      (i : ℕ)
      → resolved ports o s ≡ some x
      → contents x.1.world i ≡ contents s.world i
  resolved-Keeps none s x i e = absurd (ground (arith, e))
  resolved-Keeps (some (stop _)) s x i e =
      subst (λ y. contents y.1.world i ≡ contents s.world i) (some-injective _ _ e) refl
  resolved-Keeps (some (next p)) s x i e =
      subst (λ y. contents y.1.world i ≡ contents s.world i) (some-injective _ _ e)
        (at_port-Keeps p.port p.hops s i)

  block_boot_path_to_ahci-Keeps :
      (info : BootInfo) (s : Pci W) (x : Option AhciDeviceAddress × Pci W) (i : ℕ)
      → block_boot_path_to_ahci ports info s ≡ some x
      → contents x.1.world i ≡ contents s.world i
  unfolding block_boot_path_to_ahci
  block_boot_path_to_ahci-Keeps info s x i e =
      elim (Bool-cases (ltb info.boot_device_path_size 4)) [
        | inl t ↦ resolved-Keeps (some (stop tt)) s x i (rw t at e)
        | inr t ↦ resolved-Keeps _ s x i (rw t at e)
      ]

module _ {W : Type 0} (ports : Ports W) (ahci : Controller AhciDeviceAddress W)
    (ata : Controller AtaDeviceAddress W) (contents : W → ℕ → List ℕ)
    (quiet : IsQuiet ports contents) (mild_ahci : IsMild ahci contents)
    (mild_ata : IsMild ata contents) where
  first_that_works-Keeps :
      (c : Option AhciDeviceAddress) (a : AtaDeviceAddress) (s : Pci W) (i : ℕ)
      → contents (first_that_works ports ahci ata c a s).1.pci.world i ≡ contents s.world i
  first_that_works-Keeps none a s i = mild_ata (ata_bytes a) s i
  first_that_works-Keeps (some c) a s i =
      let r = ahci.init (ahci_bytes c) s in
      let here = mild_ahci (ahci_bytes c) s i in
      let P : Bool × BlockDevice W → Type 0 = λ x. contents x.1.pci.world i ≡ contents s.world i in
      if-either P r.0 _ _ here (mild_ata (ata_bytes a) r.1 i ∙ here)

  chosen-Keeps :
      (r : BlockPathParseResult) (c : Option AhciDeviceAddress) (s : Pci W) (i : ℕ)
      → contents (chosen ports ahci ata r c s).1.pci.world i ≡ contents s.world i
  chosen-Keeps invalid c s i = refl
  chosen-Keeps (found a) c s i = first_that_works-Keeps c a s i
  chosen-Keeps absent c s i = first_that_works-Keeps c default_ata_device s i

  pub block_init-Keeps :
      (info : BootInfo) (b : BlockDevice W) (r : Bool × BlockDevice W) (i : ℕ)
      → block_init ports ahci ata info b ≡ some r
      → contents r.1.pci.world i ≡ contents b.pci.world i
  block_init-Keeps info b r i e =
      let (x, p, path, found_ata, value) = block_init-chosen ports ahci ata info b in
      subst (λ y. contents y.1.pci.world i ≡ contents b.pci.world i)
        (some-injective _ _ (sym value ∙ e))
        (chosen-Keeps p x.0 x.1 i
          ∙ block_boot_path_to_ahci-Keeps ports contents quiet info b.pci x i path)
