-- ===== src/Pci/Quiet.antt =====
-- Reading the configuration space changes nothing that reads of its ports do not change.
use funny_os.Common.{
  ℕ, ◌≡◌, refl, ◌∙◌, inl, inr, Bool, true, false, not, ◌||◌, Option, List, leb, ◌==◌, if◌then◌else◌,
  Bool-cases,
}
use funny_os.Pci.{
  Ports, PciAddress, PciDeviceInfo, Pci, config_address_port, pci_max_device_count,
  pci_max_function_count, pci_read_config8, pci_read_config16, device_info, pci_read_device_info,
}

-- The contents of the disks are left alone when a register is selected and when it is read.
pub record IsQuiet {W : Type 0} (ports : Ports W) (contents : W → ℕ → List ℕ) : Type 0 where
  pub select_keeps :
      (value : ℕ) (w : W) (i : ℕ)
      → contents (ports.io_out32 config_address_port value w) i ≡ contents w i
  pub in8_keeps : (port : ℕ) (w : W) (i : ℕ) → contents (ports.io_in8 port w).1 i ≡ contents w i
  pub in16_keeps : (port : ℕ) (w : W) (i : ℕ) → contents (ports.io_in16 port w).1 i ≡ contents w i

-- What holds of both branches.
pub if-either :
    {A : Type 0} (P : A → Type 0) (b : Bool) (x y : A) → P x → P y → P (if b then x else y)
if-either P true x y p q = p
if-either P false x y p q = q

module _ {W : Type 0} (ports : Ports W) (contents : W → ℕ → List ℕ)
    (quiet : IsQuiet ports contents) where
  pub pci_read_config8-Keeps :
      (a : PciAddress) (offset : ℕ) (s : Pci W) (i : ℕ)
      → contents (pci_read_config8 ports a offset s).1.world i ≡ contents s.world i
  unfolding pci_read_config8
  pci_read_config8-Keeps a offset s i = elim (Bool-cases s.available) [
    | inr t ↦ rw t refl
    | inl t ↦ rw t (quiet.in8_keeps _ _ i ∙ quiet.select_keeps _ s.world i)
  ]

  pci_read_config16-Keeps :
      (a : PciAddress) (offset : ℕ) (s : Pci W) (i : ℕ)
      → contents (pci_read_config16 ports a offset s).1.world i ≡ contents s.world i
  unfolding pci_read_config16
  pci_read_config16-Keeps a offset s i = elim (Bool-cases s.available) [
    | inr t ↦ rw t refl
    | inl t ↦ rw t (quiet.in16_keeps _ _ i ∙ quiet.select_keeps _ s.world i)
  ]

  device_info-Keeps :
      (a : PciAddress) (vendor_id : ℕ) (s : Pci W) (i : ℕ)
      → contents (device_info ports a vendor_id s).1.world i ≡ contents s.world i
  device_info-Keeps a vendor_id s i =
      let s1 = (pci_read_config16 ports a 2 s).1 in
      let s2 = (pci_read_config8 ports a 8 s1).1 in
      let s3 = (pci_read_config8 ports a 9 s2).1 in
      let s4 = (pci_read_config8 ports a 10 s3).1 in
      let s5 = (pci_read_config8 ports a 11 s4).1 in
      pci_read_config8-Keeps a 14 s5 i
      ∙ pci_read_config8-Keeps a 11 s4 i
      ∙ pci_read_config8-Keeps a 10 s3 i
      ∙ pci_read_config8-Keeps a 9 s2 i
      ∙ pci_read_config8-Keeps a 8 s1 i
      ∙ pci_read_config16-Keeps a 2 s i

  pub pci_read_device_info-Keeps :
      (a : PciAddress) (s : Pci W) (i : ℕ)
      → contents (pci_read_device_info ports a s).1.world i ≡ contents s.world i
  unfolding pci_read_device_info
  pci_read_device_info-Keeps a s i =
      let vendor = pci_read_config16 ports a 0 s in
      let here = pci_read_config16-Keeps a 0 s i in
      let P : Option PciDeviceInfo × Pci W → Type 0 =
        λ r. contents r.1.world i ≡ contents s.world i in
      if-either P (not s.available) _ _ refl (
        if-either P (leb pci_max_device_count a.device || leb pci_max_function_count a.function) _ _
          refl
          (if-either P (vendor.0 == 0xffff) _ _ here
            (device_info-Keeps a vendor.0 vendor.1 i ∙ here)))
