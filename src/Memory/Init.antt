-- ===== src/Memory/Init.antt =====
-- kernel/memory.c: `memory_init`. The firmware's memory map is a parameter, read by address: what
-- `*(const EfiMemoryDescriptor*)cursor` is. So are the bounds of the kernel image, which the linker
-- sets.
pub mod Descriptors
pub mod Safe
mod Tests
use funny_os.Common.{
  ℕ, zero, suc, ◌+◌, ◌-◌, ◌*◌, ◌/◌, Bool, true, false, not, ◌&&◌, ◌||◌, List, [], Option, none,
  some, if◌then◌else◌, leb, ltb, ◌==◌, add64, sub64, mul64, align_up, align_down, bit_and, length,
}
use funny_os.BootInfo.{BootInfo, BootMemoryMap}
use funny_os.Memory.Pages.{PageTable, page_size, append_free_range, reserve_range}
use funny_os.Memory.Heap.{Memory}

abbrev pub memory_max_phys_addr : ℕ
memory_max_phys_addr = 0x1_0000_0000

abbrev pub memory_reserved_low_end : ℕ
memory_reserved_low_end = 0x10_0000

abbrev pub process_abi_region_start : ℕ
process_abi_region_start = 0x80_0000_0000

abbrev pub process_abi_region_end : ℕ
process_abi_region_end = 0x80_0010_0000

abbrev pub efi_memory_type_conventional : ℕ
efi_memory_type_conventional = 7

-- `sizeof(EfiMemoryDescriptor)`
abbrev pub descriptor_bytes : ℕ
descriptor_bytes = 40

-- The fields that `memory_init` reads.
pub record EfiMemoryDescriptor : Type 0 where
  pub type : ℕ
  pub physical_start : ℕ
  pub number_of_pages : ℕ

abbrev pub clip : ℕ → ℕ
clip end = align_down (if ltb memory_max_phys_addr end then memory_max_phys_addr else end) page_size

-- `none` is the result `false`, which leaves the table as it was.
pub add_descriptor_range : ℕ → ℕ → PageTable → Option PageTable
add_descriptor_range start end t =
    if leb memory_max_phys_addr start
    then some t
    else let clipped_start = align_up start page_size in
      let clipped_end = clip end in
      if leb clipped_end clipped_start
      then some t
      else let pages = sub64 clipped_end clipped_start / page_size in
        elim (append_free_range clipped_start pages t.ranges) [
          | none ↦ none
          | some ranges ↦
              some (record t { ranges = ranges; total_pages = add64 t.total_pages pages })
        ]

-- The body of the loop over the memory map.
pub add_descriptor : EfiMemoryDescriptor → PageTable → Option PageTable
add_descriptor d t =
    if not (d.type == efi_memory_type_conventional) || d.number_of_pages == 0
    then some t
    else add_descriptor_range d.physical_start
        (add64 d.physical_start (mul64 d.number_of_pages page_size)) t

pub data Scan : Type 0 where
  done failed : PageTable → Scan
  out_of_fuel : Scan

module _ (descriptor : ℕ → EfiMemoryDescriptor) where
  -- The loop from `cursor` on, over a map that ends at `limit`, in steps of `stride`.
  pub scan : ℕ → ℕ → ℕ → ℕ → PageTable → Scan
  scan zero cursor limit stride t = Scan.out_of_fuel
  scan (suc fuel) cursor limit stride t =
      if leb (add64 cursor stride) limit
      then elim (add_descriptor (descriptor cursor) t) [
        | none ↦ Scan.failed t
        | some t' ↦ scan fuel (add64 cursor stride) limit stride t'
      ]
      else Scan.done t

abbrev pub has_memory_map : BootMemoryMap → Bool
has_memory_map map =
    not (map.base == 0 || map.size == 0 || ltb map.descriptor_size descriptor_bytes)

-- `reserve_range` on a table.
pub reserve : ℕ → ℕ → PageTable → Bool × PageTable
reserve start end t =
    let (ok, ranges) = reserve_range start end t.ranges in (ok, record t { ranges = ranges })

abbrev pub and_then : Bool × PageTable → (PageTable → Bool × PageTable) → Bool × PageTable
and_then (false, t) k = (false, t)
and_then (true, t) k = k t

-- The address just past the framebuffer.
abbrev pub framebuffer_end : BootInfo → ℕ
framebuffer_end b =
    add64 b.framebuffer_base
      (mul64 (mul64 b.framebuffer_pixels_per_scanline b.framebuffer_height) 4)

abbrev pub has_framebuffer : BootInfo → Bool
has_framebuffer b = not (bit_and b.console_flags 0x0004 == 0)

pub reserve_framebuffer : BootInfo → PageTable → Bool × PageTable
reserve_framebuffer b t =
    if has_framebuffer b then reserve b.framebuffer_base (framebuffer_end b) t else (true, t)

-- The four calls of `reserve_range`; the first that fails ends the initialisation.
pub reserve_all : ℕ → ℕ → BootInfo → PageTable → Bool × PageTable
reserve_all image_start image_end b t = and_then (reserve 0 memory_reserved_low_end t) λ t.
    and_then (reserve image_start image_end t) λ t.
      and_then (reserve process_abi_region_start process_abi_region_end t)
        λ t. reserve_framebuffer b t

-- `g_memory_ready = g_free_range_count != 0u`, and its value returned.
abbrev pub finish : Bool × PageTable → Bool × Memory
finish (false, t) = (false, record { table = t; heap = [] })
finish (true, t) =
    let ready = not (length t.ranges == 0) in
    (ready, record { table = record t { ready = ready }; heap = [] })

abbrev pub empty_table : PageTable
empty_table = record { ranges = []; total_pages = 0; ready = false }

-- `none` means that the fuel, which bounds the rounds of the loop, ran out. A NULL `boot_info` is
-- the option `none`.
pub memory_init :
    (ℕ → EfiMemoryDescriptor) → ℕ → ℕ → ℕ → Option BootInfo → Memory → Option (Bool × Memory)
memory_init descriptor image_start image_end fuel none m = some (false, m)
memory_init descriptor image_start image_end fuel (some b) m =
    let map = b.memory_map in
    if not (has_memory_map map)
    then some (false, m)
    else elim (scan descriptor fuel map.base (add64 map.base map.size) map.descriptor_size
        empty_table) [
          | Scan.out_of_fuel ↦ none
          | Scan.failed t ↦ some (false, record { table = t; heap = [] })
          | Scan.done t ↦ some (finish (reserve_all image_start image_end b t))
        ]
