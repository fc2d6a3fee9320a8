-- ===== src/BootInfo.antt =====
-- common/bootinfo.h: what the boot loader hands to the kernel.
use funny_os.Common.{ℕ, List}

pub record BootMemoryMap : Type 0 where
  pub base : ℕ
  pub size : ℕ
  pub descriptor_size : ℕ
  pub descriptor_version : ℕ

-- The reserved bytes are left out. `boot_device_path` is the array of BOOTINFO_DEVICE_PATH_CAPACITY
-- bytes.
pub record BootInfo : Type 0 where
  pub magic : ℕ
  pub bytes_per_sector : ℕ
  pub partition_lba_start : ℕ
  pub partition_sector_count : ℕ
  pub acpi_rsdp : ℕ
  pub acpi_revision : ℕ
  pub boot_device_path_size : ℕ
  pub boot_device_path : List ℕ
  pub console_flags : ℕ
  pub screen_columns : ℕ
  pub screen_rows : ℕ
  pub framebuffer_base : ℕ
  pub framebuffer_width : ℕ
  pub framebuffer_height : ℕ
  pub framebuffer_pixels_per_scanline : ℕ
  pub framebuffer_format : ℕ
  pub memory_map : BootMemoryMap
