-- ===== src/Lib.antt =====
-- The FunnyOS kernel, a small x86-64 operating system.
--
-- The loader hands a memory map to `memory_init`, which fills the table of free page ranges; pages
-- are taken and given back by `alloc_pages` and `free_pages`, and `kmalloc` serves small blocks from
-- pages that it takes. The file system keeps FAT32's allocation table in memory, walks and edits the
-- chains of clusters in it, and reads and writes clusters on the block device that `block_init` has
-- bound. A line is typed at the keyboard or the serial port, and the shell turns the names in it into
-- absolute paths with `path_normalize`. A program is an ELF file, whose segments are laid out in a fixed region and copied
-- there; while it runs, interrupts bring its system calls and faults back to the kernel.
--
-- Files, with the code that each is about; its paths are those under src/:
--   Common           shared names: lists, choices, and the words of common/types.h (Common/Words)
--   BootInfo         common/bootinfo.h
--   Memory/Pages     kernel/memory.c: append_free_range, reserve_range, alloc_pages, free_pages. The
--                    array `g_free_ranges` with its count is a list; an insertion that walks the
--                    array is a walk over the list.
--   Memory/Init      kernel/memory.c: add_descriptor_range, memory_init
--   Memory/Heap      kernel/memory.c: the heap_ functions, kmalloc, kfree. The linked list of blocks
--                    is a list of their addresses, sizes and marks. Freeing a pointer that is not
--                    the payload of a listed block gives none: the code writes 24 bytes before
--                    it, to memory that the list does not describe.
--   Driver           kernel/driver.c, over any type of devices and any world that probes change
--   KString          kernel/kstring.c. A C string is the list of its bytes before the NUL.
--   Path             kernel/path.c, over the output buffer and the array of component starts.
--                    Path/Resolve has the abstract walk, Path/Answer that the code implements it.
--   Fat32/Chain      kernel/fat32.c: fat32_next_cluster, fat32_set_cluster, find_free_cluster,
--                    free_cluster_chain_in_memory, trim_cluster_chain, append_cluster_to_chain,
--                    get_cluster_at_index. `g_fat` is a list of its entries.
--   Fat32/Names      kernel/fat32.c: validate_long_name, name_equals_ignore_case,
--                    short_name_checksum, format_short_name
--   Fat32/Bytes      the packed fields of kernel/fat32.c's structures on the disk
--   Fat32/Entry      kernel/fat32.c: DirectoryEntry, LfnState, process_lfn_entry and what it uses,
--                    decode_directory_entry_name
--   Fat32/Alias      kernel/fat32.c: make_short_name_if_possible, build_short_alias, the entries that
--                    build_name_entries makes
--   Fat32/Volume     kernel/fat32.c: the variables of the volume, the access to sectors, clusters and
--                    the table's copies, and the commands on a volume as a monad. The block device is
--                    a parameter; a result other than FAT32_OK ends a command.
--   Fat32/Clusters   kernel/fat32.c: allocate_cluster_chain, ensure_cluster_chain_length,
--                    write_data_to_chain
--   Fat32/Directory  kernel/fat32.c: the loops over the entries of a directory
--   Fat32/Paths      kernel/fat32.c: split_path, resolve_path, build_name_entries, the spans of
--                    entries. The array of 128 bytes for the parent's path is a list without a bound:
--                    its callers in the kernel pass paths of at most 128 bytes with the NUL.
--   Fat32/Files      kernel/fat32.c: fat32_stat, fat32_list_dir, fat32_read_file
--   Fat32/Changes    kernel/fat32.c: fat32_write_file, fat32_make_dir, fat32_remove, fat32_rename
--   Fat32/Mount      kernel/fat32.c: fat32_mount; Fat32/Mount/Ready says what it leaves
--   Fat32/Calls      the calls of kernel/fat32.h in a sequence
--   Fat32/Safe       where those calls write
--   Fat32/Unmounted  the operations before a mount
--   Fat32/RamDisk    a disk in memory, for the tests
--   Keyboard         kernel/keyboard.c, over what each round finds at the serial port and the keyboard
--   Pci              kernel/pci.c, over an interface of ports (kernel/io.h)
--   Block            kernel/block.c: the searches of the firmware's device path. Block/Init has
--                    block_init and the access to sectors; the drivers of kernel/ahci.c and
--                    kernel/ata.c are parameters. Block/Nodes has the layout of a device path as a
--                    list of nodes, Block/Encoded and Block/EncodedAta what the two searches find
--                    in it, Block/BootDisk which disk is bound.
--   Fs               kernel/fs.c; Fs/Start has the whole path from block_init to the file operations
--   Process/Image    kernel/process.c: process_configure_image_layout and
--                    process_copy_image_segments, whose writes are a list in their order
--   Process/Syscall  kernel/process.c: the range checks, process_handle_syscall,
--                    process_handle_fault; kernel/trap.c: interrupt_dispatch
--
-- Numbers are natural numbers; the arithmetic of 32-bit and 64-bit words has its wrap written out
-- (`add32`, `add64`, `sub64`). `&` with a mask is the bit operation, and Common/Words says what it
-- computes for the masks of the code.
--
-- Loops are recursions over what they walk. Where nothing in the code bounds a loop, there is a bound
-- on its rounds, and `none` is returned when it is used up: `memory_init` reads the memory map with one
-- round for each descriptor that fits, `kmalloc` calls itself once, a path has fewer components than
-- bytes, a device path is searched with one round for each of its bytes, and a chain is freed or
-- followed with one round for each cluster. The theorems say that these bounds are enough. The loops over directories and over the data of files follow chains that the disk
-- gives, which may be cycles, and the search for an alias goes on after a read error: they have a bound
-- that is a parameter, and end as `stuck`, with the volume as it is then, when it is used up. What is
-- said of these calls is said of that end too.
--
-- Not modelled: drivers and output (kernel/ata.c, kernel/ahci.c, kernel/apic.c, kernel/timer.c,
-- kernel/console.c, kernel/serial.c, kernel/panic.c), which are device registers; assembly; the boot
-- loader, which calls the firmware; and kernel/paging.c, kernel/shell.c, kernel/program.c,
-- kernel/acpi.c, and the start and the end of a program in kernel/process.c. The console and the
-- keyboard are parameters of the system calls, the AHCI and ATA drivers of the block devices, and the
-- address of the kernel's end, which the linker sets, is a parameter of the image layout.
pub mod Common
pub mod Memory
pub mod BootInfo
pub mod KString
pub mod Path
pub mod Fat32
pub mod Process
pub mod Driver
pub mod Keyboard
pub mod Pci
pub mod Block
pub mod Fs
