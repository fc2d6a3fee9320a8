-- ===== src/Process/Image.antt =====
-- kernel/process.c: where an ELF file's segments go, and that copying them stays there.
pub mod Segments
pub mod Layout
pub mod Copy
mod Tests
use funny_os.Common.{
  ℕ, zero, suc, ◌+◌, ◌-◌, ◌*◌, ◌%◌, ◌/◌, ◌^◌, Bool, true, false, ◌&&◌, ◌||◌, not, List, [], ◌∷◌,
  leb, ltb, ◌==◌, if◌then◌else◌, add64, sub64, mul64, word, align_down, align_up,
}

abbrev pub elf_magic : ℕ
elf_magic = 0x464c_457f

-- `Elf64Header`, the fields that are read
pub record Elf64Header : Type 0 where
  pub magic : ℕ
  pub ident_class : ℕ
  pub machine : ℕ
  pub entry : ℕ
  pub phoff : ℕ
  pub phentsize : ℕ
  pub phnum : ℕ

-- `Elf64ProgramHeader`, the fields that are read
pub record Elf64ProgramHeader : Type 0 where
  pub kind : ℕ
  pub offset : ℕ
  pub vaddr : ℕ
  pub filesz : ℕ
  pub memsz : ℕ

-- The file buffer: the header at its start, and the program header that stands at an offset.
pub record ElfFile : Type 0 where
  pub header : Elf64Header
  pub segment_at : ℕ → Elf64ProgramHeader

-- process_layout.h
abbrev pub region_start : ℕ
region_start = 0x80_0000_0000

abbrev pub region_end : ℕ
region_end = 0x80_0010_0000

abbrev pub abi_stack_size : ℕ
abi_stack_size = 65536

abbrev pub abi_stack_base : ℕ
abi_stack_base = region_end - abi_stack_size

abbrev pub stack_gap : ℕ
stack_gap = 4096

abbrev pub image_limit : ℕ
image_limit = abi_stack_base - stack_gap

-- The messages of a refusal.
pub data Refusal : Type 0 where
  invalid_program : Refusal
  program_too_large : Refusal
  overlaps_kernel : Refusal

pub data Checked {ℓ} (A : Type ℓ) : Type ℓ where
  refused : Refusal → Checked A
  passed : A → Checked A

-- `image_min`, `image_end` and `has_load_segment`
pub record Extent : Type 0 where
  pub image_min : ℕ
  pub image_end : ℕ
  pub has_load_segment : Bool

-- The fields of `Process` that the layout sets.
pub record ImageLayout : Type 0 where
  pub image_base : ℕ
  pub image_capacity : ℕ
  pub image_page_count : ℕ
  pub entry_point : ℕ
  pub file_size : ℕ

abbrev pub nth_segment : ElfFile → ℕ → Elf64ProgramHeader
nth_segment e index = e.segment_at (add64 e.header.phoff (mul64 index e.header.phentsize))

abbrev pub is_load : Elf64ProgramHeader → Bool
is_load s = s.kind == 1

-- The parts of a segment that are not in the file, or do not fit into its memory.
abbrev pub exceeds_file : (file_size : ℕ) → Elf64ProgramHeader → Bool
exceeds_file file_size s =
    ltb file_size s.offset || ltb (sub64 file_size s.offset) s.filesz || ltb s.memsz s.filesz

abbrev pub exceeds_region : Elf64ProgramHeader → Bool
exceeds_region s =
    ltb s.vaddr region_start || leb image_limit s.vaddr || ltb (sub64 image_limit s.vaddr) s.memsz

abbrev pub segment_start : Elf64ProgramHeader → ℕ
segment_start s = align_down s.vaddr 4096

abbrev pub segment_end : Elf64ProgramHeader → ℕ
segment_end s = align_up (add64 s.vaddr s.memsz) 4096

abbrev pub extend : Elf64ProgramHeader → Extent → Extent
extend s x = record {
  image_min = if ltb (segment_start s) x.image_min then segment_start s else x.image_min;
  image_end = if ltb x.image_end (segment_end s) then segment_end s else x.image_end;
  has_load_segment = true;
}

-- The loop over the program headers, `count` of them from `index` on.
unfoldable pub scan_segments :
    (count index : ℕ) (e : ElfFile) (file_size : ℕ) → Extent → Checked Extent
scan_segments zero index e file_size x = passed x
scan_segments (suc count) index e file_size x =
    let s = nth_segment e index in
    let skipped = scan_segments count (suc index) e file_size x in
    let taken = scan_segments count (suc index) e file_size (extend s x) in
    if not (is_load s)
    then skipped
    else if exceeds_file file_size s
    then refused invalid_program
    else if exceeds_region s
    then refused program_too_large
    else taken

abbrev pub bytes_to_pages : ℕ → ℕ
bytes_to_pages size = sub64 (add64 size 4096) 1 / 4096

abbrev pub layout_of : (e : ElfFile) (file_size : ℕ) → Extent → ImageLayout
layout_of e file_size x = record {
  image_base = x.image_min;
  image_capacity = sub64 x.image_end x.image_min;
  image_page_count = bytes_to_pages (sub64 x.image_end x.image_min);
  entry_point = e.header.entry;
  file_size = file_size;
}

-- The checks after the loop.
abbrev pub check_extent :
    (kernel_image_end : ℕ) (e : ElfFile) (file_size : ℕ) → Extent → Checked ImageLayout
check_extent kernel_image_end e file_size x =
    if not x.has_load_segment
    then refused invalid_program
    else if ltb x.image_min kernel_image_end
    then refused overlaps_kernel
    else if ltb e.header.entry x.image_min || leb x.image_end e.header.entry
    then refused invalid_program
    else if leb x.image_end x.image_min
    then refused invalid_program
    else if ltb x.image_min region_start || ltb image_limit x.image_end
    then refused program_too_large
    else if ltb abi_stack_base (add64 x.image_end stack_gap)
    then refused program_too_large
    else passed (layout_of e file_size x)

abbrev pub bad_header : (e : ElfFile) (file_size : ℕ) → Bool
bad_header e file_size =
    not (e.header.magic == elf_magic)
    || not (e.header.ident_class == 2)
    || not (e.header.machine == 62)
    || not (e.header.phentsize == 56)
    || ltb file_size e.header.phoff
    || ltb (sub64 file_size e.header.phoff) (mul64 e.header.phnum e.header.phentsize)

abbrev pub checked_extent :
    (kernel_image_end : ℕ) (e : ElfFile) (file_size : ℕ) → Checked Extent → Checked ImageLayout
checked_extent kernel_image_end e file_size (refused r) = refused r
checked_extent kernel_image_end e file_size (passed x) = check_extent kernel_image_end e file_size x

-- `kernel_image_end` is the address of the linker's symbol `__kernel_image_end`. The fields that
-- a refusal after the loop leaves set in the process are not read again and are left out.
unfoldable pub configure_image_layout :
    (kernel_image_end : ℕ) (e : ElfFile) (file_size : ℕ) → Checked ImageLayout
configure_image_layout kernel_image_end e file_size =
    if ltb file_size 64
    then refused invalid_program
    else if bad_header e file_size
    then refused invalid_program
    else checked_extent kernel_image_end e file_size (
        scan_segments e.header.phnum 0 e file_size
          (record { image_min = word - 1; image_end = 0; has_load_segment = false }))

-- One `k_memset` of the process's memory, or one `k_memcpy` to it from the file buffer.
pub data Write : Type 0 where
  zeroes : (addr size : ℕ) → Write
  copies : (addr offset size : ℕ) → Write

abbrev pub cons_writes : Write → Write → Checked (List Write) → Checked (List Write)
cons_writes a b (refused r) = refused r
cons_writes a b (passed ws) = passed (a ∷ b ∷ ws)

unfoldable pub copy_from : (count index : ℕ) (e : ElfFile) (file_size : ℕ) → Checked (List Write)
copy_from zero index e file_size = passed []
copy_from (suc count) index e file_size =
    let s = nth_segment e index in
    let rest = copy_from count (suc index) e file_size in
    if not (is_load s)
    then rest
    else if exceeds_file file_size s
    then refused invalid_program
    else cons_writes (zeroes s.vaddr s.memsz) (copies s.vaddr s.offset s.filesz) rest

abbrev pub first_write : Write → Checked (List Write) → Checked (List Write)
first_write a (refused r) = refused r
first_write a (passed ws) = passed (a ∷ ws)

-- The writes that the copying does, in order.
unfoldable pub copy_image_segments :
    (l : ImageLayout) (e : ElfFile) (file_size : ℕ) → Checked (List Write)
copy_image_segments l e file_size =
    first_write (zeroes l.image_base l.image_capacity) (copy_from e.header.phnum 0 e file_size)
