-- ===== src/Pci.antt =====
-- kernel/pci.c: the configuration space of the PCI bus, through its two ports.
pub mod Quiet
use Prim.Native.Nat.{bit_or}
use funny_os.Common.{
  ℕ, zero, suc, ◌+◌, ◌-◌, ◌*◌, ◌^◌, bit_and, bit_or, Bool, true, not, ◌||◌, Option, none, some, leb,
  ◌==◌, if◌then◌else◌,
}

-- kernel/io.h: the processor's ports, on the state of the devices.
pub record Ports (W : Type 0) : Type 0 where
  pub io_out8 : (port value : ℕ) → W → W
  pub io_out16 : (port value : ℕ) → W → W
  pub io_out32 : (port value : ℕ) → W → W
  pub io_in8 : (port : ℕ) → W → ℕ × W
  pub io_in16 : (port : ℕ) → W → ℕ × W
  pub io_in32 : (port : ℕ) → W → ℕ × W

pub record PciAddress : Type 0 where
  pub bus : ℕ
  pub device : ℕ
  pub function : ℕ

pub record PciDeviceInfo : Type 0 where
  pub address : PciAddress
  pub vendor_id : ℕ
  pub device_id : ℕ
  pub revision_id : ℕ
  pub prog_if : ℕ
  pub subclass : ℕ
  pub class_code : ℕ
  pub header_type : ℕ

-- `g_pci_available`, and the devices.
pub record Pci (W : Type 0) : Type 0 where
  pub available : Bool
  pub world : W

abbrev pub config_address_port : ℕ
config_address_port = 0xcf8

abbrev pub config_data_port : ℕ
config_data_port = 0xcfc

abbrev pub pci_max_device_count : ℕ
pci_max_device_count = 32

abbrev pub pci_max_function_count : ℕ
pci_max_function_count = 8

abbrev pub pci_max_bar_count : ℕ
pci_max_bar_count = 6

unfoldable pub pci_config_address : PciAddress → (offset : ℕ) → ℕ
pci_config_address a offset =
    bit_or
      (bit_or (bit_or (bit_or 0x80000000 (a.bus * 2 ^ 16)) (a.device * 2 ^ 11))
        (a.function * 2 ^ 8))
      (bit_and offset 0xfc)

module _ {W : Type 0} (ports : Ports W) where
  unfoldable pub pci_init : Pci W → Bool × Pci W
  pci_init s = (true, record s { available = true })

  -- The address of a register is written to the address port.
  abbrev selected : PciAddress → (offset : ℕ) → Pci W → W
  selected a offset s = ports.io_out32 config_address_port (pci_config_address a offset) s.world

  abbrev read_value : (otherwise : ℕ) → ℕ × W → Pci W → ℕ × Pci W
  read_value otherwise r s =
      if not s.available then (otherwise, s) else (r.0, record s { world = r.1 })

  unfoldable pub pci_read_config8 : PciAddress → (offset : ℕ) → Pci W → ℕ × Pci W
  pci_read_config8 a offset s =
      read_value 0xff (ports.io_in8 (config_data_port + bit_and offset 3) (selected a offset s)) s

  unfoldable pub pci_read_config16 : PciAddress → (offset : ℕ) → Pci W → ℕ × Pci W
  pci_read_config16 a offset s =
      read_value 0xffff (ports.io_in16 (config_data_port + bit_and offset 2) (selected a offset s))
        s

  unfoldable pub pci_read_config32 : PciAddress → (offset : ℕ) → Pci W → ℕ × Pci W
  pci_read_config32 a offset s =
      read_value 0xffffffff (ports.io_in32 config_data_port (selected a offset s)) s

  unfoldable pub pci_write_config8 : PciAddress → (offset value : ℕ) → Pci W → Pci W
  pci_write_config8 a offset value s = if not s.available then s else record s {
    world = ports.io_out8 (config_data_port + bit_and offset 3) value (selected a offset s);
  }

  unfoldable pub pci_write_config16 : PciAddress → (offset value : ℕ) → Pci W → Pci W
  pci_write_config16 a offset value s = if not s.available then s else record s {
    world = ports.io_out16 (config_data_port + bit_and offset 2) value (selected a offset s);
  }

  unfoldable pub pci_write_config32 : PciAddress → (offset value : ℕ) → Pci W → Pci W
  pci_write_config32 a offset value s =
      if not s.available
      then s
      else record s { world = ports.io_out32 config_data_port value (selected a offset s) }

  -- The registers after the vendor's, in the order in which they are read.
  abbrev pub device_info : PciAddress → (vendor_id : ℕ) → Pci W → PciDeviceInfo × Pci W
  device_info a vendor_id s =
      let device_id = pci_read_config16 a 2 s in
      let revision_id = pci_read_config8 a 8 device_id.1 in
      let prog_if = pci_read_config8 a 9 revision_id.1 in
      let subclass = pci_read_config8 a 10 prog_if.1 in
      let class_code = pci_read_config8 a 11 subclass.1 in
      let header_type = pci_read_config8 a 14 class_code.1 in
      (
        record {
          address = a;
          vendor_id = vendor_id;
          device_id = device_id.0;
          revision_id = revision_id.0;
          prog_if = prog_if.0;
          subclass = subclass.0;
          class_code = class_code.0;
          header_type = header_type.0;
        },
        header_type.1,
      )

  unfoldable pub pci_read_device_info : PciAddress → Pci W → Option PciDeviceInfo × Pci W
  pci_read_device_info a s =
      let vendor = pci_read_config16 a 0 s in
      let info = device_info a vendor.0 vendor.1 in
      if not s.available
      then (none, s)
      else if leb pci_max_device_count a.device || leb pci_max_function_count a.function
      then (none, s)
      else if vendor.0 == 0xffff
      then (none, vendor.1)
      else (some info.0, info.1)

  unfoldable pub pci_read_bar : PciAddress → (bar_index : ℕ) → Pci W → ℕ × Pci W
  pci_read_bar a bar_index s =
      if not s.available || leb pci_max_bar_count bar_index
      then (0, s)
      else pci_read_config32 a (0x10 + bar_index * 4) s

  unfoldable pub pci_read_bar64 : PciAddress → (bar_index : ℕ) → Pci W → ℕ × Pci W
  pci_read_bar64 a bar_index s =
      let low = pci_read_bar a bar_index s in
      let high = pci_read_bar a (bar_index + 1) low.1 in
      if not s.available || leb pci_max_bar_count bar_index
      then (0, s)
      else if not (bit_and low.0 1 == 0)
      then low
      else if not (bit_and low.0 6 == 4)
      then low
      else if leb pci_max_bar_count (bar_index + 1)
      then (0, low.1)
      else (bit_or (high.0 * 2 ^ 32) low.0, high.1)

  module _ {S : Type 0} (visit : PciDeviceInfo → S → Pci W → Bool × (S × Pci W)) where
    -- The functions from one on; the first part is false once the visitor has ended the search.
    unfoldable pub enumerate_functions :
        (count function : ℕ) → PciAddress → S → Pci W → Bool × (S × Pci W)
    enumerate_functions zero function a c s = (true, (c, s))
    enumerate_functions (suc count) function a c s =
        let r = pci_read_device_info (record a { function = function }) s in
        elim r.0 [
          | none ↦ enumerate_functions count (suc function) a c r.1
          | some info ↦
              let v = visit info c r.1 in
              let rest = enumerate_functions count (suc function) a (v.1).0 (v.1).1 in
              if not v.0 then v else rest
        ]

    unfoldable pub enumerate_devices : (count device bus : ℕ) → S → Pci W → Bool × (S × Pci W)
    enumerate_devices zero device bus c s = (true, (c, s))
    enumerate_devices (suc count) device bus c s =
        let a : PciAddress = record { bus = bus; device = device; function = 0 } in
        let r = pci_read_device_info a s in
        elim r.0 [
          | none ↦ enumerate_devices count (suc device) bus c r.1
          | some info ↦
              let v = visit info c r.1 in
              let functions =
                if not (bit_and info.header_type 0x80 == 0)
                then pci_max_function_count - 1
                else 0 in
              let others = enumerate_functions functions 1 a (v.1).0 (v.1).1 in
              let rest = enumerate_devices count (suc device) bus (others.1).0 (others.1).1 in
              if not v.0 then v else if not others.0 then others else rest
        ]

    unfoldable pub enumerate_buses : (count bus : ℕ) → S → Pci W → Bool × (S × Pci W)
    enumerate_buses zero bus c s = (true, (c, s))
    enumerate_buses (suc count) bus c s =
        let r = enumerate_devices pci_max_device_count 0 bus c s in
        let rest = enumerate_buses count (suc bus) (r.1).0 (r.1).1 in if not r.0 then r else rest

    unfoldable pub pci_enumerate : S → Pci W → S × Pci W
    pci_enumerate c s = if not s.available then (c, s) else (enumerate_buses 256 0 c s).1
