-- ===== src/Memory/Heap.antt =====
-- kernel/memory.c: the heap of blocks. A list holds the blocks in the order of their `next` links;
-- a block's address is where its header lies.
pub mod Layout
pub mod Merge
pub mod Alloc
pub mod Free
pub mod Grow
pub mod Kmalloc
mod Tests
use funny_os.Common.{
  ℕ, zero, suc, ◌+◌, ◌-◌, ◌*◌, ◌/◌, Bool, true, false, not, ◌&&◌, ◌||◌, List, [], ◌∷◌, Option, none,
  some, if◌then◌else◌, leb, ltb, ◌==◌, add64, sub64, mul64, align_up,
}
use funny_os.Memory.Pages.{PageTable, page_size, alloc_pages}

-- `sizeof(HeapBlock)`: a size, a byte with its padding, and a pointer
abbrev pub header_size : ℕ
header_size = 24

abbrev pub heap_alignment : ℕ
heap_alignment = 16

pub record HeapBlock : Type 0 where
  pub addr : ℕ
  pub size : ℕ
  pub free : Bool

-- The state of memory.c.
pub record Memory : Type 0 where
  pub table : PageTable
  pub heap : List HeapBlock

-- `(uintptr_t)(block + 1)`, and the end of the block
abbrev pub payload : HeapBlock → ℕ
payload b = add64 b.addr header_size

abbrev pub block_end : HeapBlock → ℕ
block_end b = add64 (payload b) b.size

pub heap_insert_block : HeapBlock → List HeapBlock → List HeapBlock
heap_insert_block block [] = block ∷ []
heap_insert_block block (b ∷ bs) =
    if ltb b.addr block.addr then b ∷ heap_insert_block block bs else block ∷ b ∷ bs

abbrev pub joins : HeapBlock → HeapBlock → Bool
joins b c = b.free && c.free && block_end b == c.addr

abbrev pub joined : HeapBlock → HeapBlock → HeapBlock
joined b c = record b { size = add64 b.size (add64 header_size c.size) }

-- The loop of `heap_merge_adjacent` at a block, with those that follow it.
pub merge_from : HeapBlock → List HeapBlock → List HeapBlock
merge_from b [] = b ∷ []
merge_from b (c ∷ bs) =
    let rest = merge_from (if joins b c then joined b c else c) bs in
    if joins b c then rest else b ∷ rest

pub heap_merge_adjacent : List HeapBlock → List HeapBlock
heap_merge_adjacent [] = []
heap_merge_adjacent (b ∷ bs) = merge_from b bs

pub heap_init_region : ℕ → ℕ → List HeapBlock
heap_init_region base bytes =
    record { addr = base; size = sub64 bytes header_size; free = true } ∷ []

-- A block that is used from now on: split where the rest has room for a block of its own.
pub use_block : HeapBlock → ℕ → List HeapBlock → List HeapBlock
use_block b n bs =
    if leb (add64 (add64 n header_size) heap_alignment) b.size
    then record b { size = n; free = false }
      ∷ record {
        addr = add64 (payload b) n;
        size = sub64 (sub64 b.size n) header_size;
        free = true;
      }
      ∷ bs
    else record b { free = false } ∷ bs

-- First fit; `none` is NULL.
pub heap_alloc_from_list : ℕ → List HeapBlock → Option (ℕ × List HeapBlock)
heap_alloc_from_list n [] = none
heap_alloc_from_list n (b ∷ bs) =
    let later = heap_alloc_from_list n bs in
    if b.free && leb n b.size
    then some (payload b, use_block b n bs)
    else elim later [ none ↦ none | some (ptr, rest) ↦ some (ptr, b ∷ rest) ]

-- `block->free = true` for the block at an address. `none` means that no block of the heap lies
-- there: the write then hits memory that the list does not describe, and nothing is known of the heap.
pub mark_free : ℕ → List HeapBlock → Option (List HeapBlock)
mark_free addr [] = none
mark_free addr (b ∷ bs) =
    let later = mark_free addr bs in
    if b.addr == addr
    then some (record b { free = true } ∷ bs)
    else elim later [ none ↦ none | some rest ↦ some (b ∷ rest) ]

-- `none` as for `mark_free`.
pub heap_free_to_list : ℕ → List HeapBlock → Option (List HeapBlock)
heap_free_to_list ptr bs =
    if ptr == 0 then some bs else elim (mark_free (sub64 ptr header_size) bs) [
      | none ↦ none
      | some marked ↦ some (heap_merge_adjacent marked)
    ]

-- The pages that `heap_grow` asks for, and the block that it makes of them.
abbrev pub grow_pages : ℕ → ℕ
grow_pages minimum_size = align_up (add64 header_size minimum_size) page_size / page_size

abbrev pub grown_block : ℕ → ℕ → HeapBlock
grown_block addr pages = record {
  addr = addr;
  size = sub64 (mul64 pages page_size) header_size;
  free = true;
}

-- `none` is NULL. The table is changed only where pages are found.
pub heap_grow : ℕ → Memory → Option Memory
heap_grow minimum_size m =
    let pages = grow_pages minimum_size in
    let (addr, table) = alloc_pages pages m.table in
    if addr == 0
    then none
    else some (record {
      table = table;
      heap = heap_merge_adjacent (heap_insert_block (grown_block addr pages) m.heap);
    })

-- The address is 0 for NULL. `none` means that the fuel, which bounds the calls that `kmalloc` makes
-- of itself, ran out.
pub kmalloc : ℕ → ℕ → Memory → Option (ℕ × Memory)
kmalloc zero size m = none
kmalloc (suc fuel) size m =
    if not m.table.ready || size == 0
    then some (0, m)
    else elim (heap_alloc_from_list (align_up size heap_alignment) m.heap) [
      | some (ptr, heap) ↦ some (ptr, record m { heap = heap })
      | none ↦ elim (heap_grow (align_up size heap_alignment) m) [
        | none ↦ some (0, m)
        | some m' ↦ kmalloc fuel size m'
      ]
    ]

-- `none` as for `mark_free`.
pub kfree : ℕ → Memory → Option Memory
kfree ptr m = elim (heap_free_to_list ptr m.heap) [
  | none ↦ none
  | some heap ↦ some (record m { heap = heap })
]
