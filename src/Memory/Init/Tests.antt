-- ===== src/Memory/Init/Tests.antt =====
-- A boot with three memory descriptors.
use funny_os.Common.{
  ℕ, ◌≡◌, ◌≢◌, refl, true, [], ◌∷◌, some, none, arith, All, align_up, align_down, if◌then◌else◌,
  ◌==◌,
}
use funny_os.BootInfo.{BootInfo}
use funny_os.Memory.Pages.{
  walk, rejoin, place, insert_new, join_next, append_free_range, reserve_from, overlap,
  reserve_range,
}
use funny_os.Memory.Pages.Ranges.{IsRange, IsFree}
use funny_os.Memory.Heap.{Memory}
use funny_os.Memory.Init.{
  EfiMemoryDescriptor, add_descriptor_range, add_descriptor, scan, reserve, reserve_framebuffer,
  reserve_all, memory_init, empty_table,
}
use funny_os.Memory.Init.Descriptors.{IsConventional}
use funny_os.Memory.Init.Safe.{IsUsable, memory_init-IsUsable, memory_init-ends}

-- The map lies at 0x9000, in steps of 48 bytes.
abbrev firmware : ℕ → EfiMemoryDescriptor
firmware cursor =
    if cursor == 0x9000
    then record { type = 7; physical_start = 0; number_of_pages = 160 }
    else if cursor == 0x9030
    then record { type = 7; physical_start = 0x10_0000; number_of_pages = 4096 }
    else record { type = 4; physical_start = 0x110_0000; number_of_pages = 64 }

abbrev boot : BootInfo
boot = record {
  magic = 0x534f_4e46;
  bytes_per_sector = 512;
  partition_lba_start = 2048;
  partition_sector_count = 65536;
  acpi_rsdp = 0;
  acpi_revision = 0;
  boot_device_path_size = 0;
  boot_device_path = [];
  console_flags = 4;
  screen_columns = 80;
  screen_rows = 25;
  framebuffer_base = 0x8000_0000;
  framebuffer_width = 640;
  framebuffer_height = 480;
  framebuffer_pixels_per_scanline = 640;
  framebuffer_format = 1;
  memory_map = record { base = 0x9000; size = 144; descriptor_size = 48; descriptor_version = 1 };
}

abbrev cold : Memory
cold = record { table = empty_table; heap = [] }

-- The kernel lies from 2 MiB to 2 MiB + 0x3a000.
abbrev booted : Memory
booted = record {
  table = record {
    ranges =
        record { base = 0x10_0000; page_count = 256 }
        ∷ record { base = 0x23_a000; page_count = 3782 }
        ∷ [];
    total_pages = 4256;
    ready = true;
  };
  heap = [];
}

boots : memory_init firmware 0x20_0000 0x23_9f00 145 (some boot) cold ≡ some (true, booted)
unfolding memory_init scan add_descriptor add_descriptor_range append_free_range walk rejoin place
    insert_new join_next reserve_all reserve reserve_framebuffer reserve_range reserve_from overlap
    align_up align_down
boots = refl

memory_init-ends_example : memory_init firmware 0x20_0000 0x23_9f00 145 (some boot) cold ≢ none
memory_init-ends_example = memory_init-ends 0x20_0000 0x23_9f00 boot firmware cold (omega arith)

memory_init-IsUsable_example :
    All IsRange booted.table.ranges
    × (booted.table.ready ≡ true)
    × ((a : ℕ)
        → IsFree a booted.table.ranges
        → IsUsable 0x20_0000 0x23_9f00 boot a × IsConventional firmware boot.memory_map a)
memory_init-IsUsable_example =
    memory_init-IsUsable 0x20_0000 0x23_9f00 boot firmware 145 cold booted (omega arith)
      (omega arith) (omega arith) (omega arith) (omega arith) boots
