-- ===== src/Memory/Heap/Tests.antt =====
-- Runs of the heap.
use funny_os.Common.{
  ℕ, ◌-◌, ◌<◌, ◌≡◌, refl, true, false, none, some, List, [], ◌∷◌, arith, All, word, align_up,
}
use funny_os.Memory.Heap.{
  heap_alignment, HeapBlock, Memory, payload, merge_from, heap_merge_adjacent, use_block,
  heap_alloc_from_list, mark_free, heap_free_to_list, kmalloc,
}
use funny_os.Memory.Heap.Layout.{used}
use funny_os.Memory.Heap.Merge.{Merged, heap_merge_adjacent-Merged}
use funny_os.Memory.Heap.Alloc.{Served, heap_alloc-Served, heap_alloc-fails}
use funny_os.Memory.Heap.Free.{Freed, heap_free_to_list-Freed, heap_free-heap_alloc}
use funny_os.Memory.Heap.Grow.{IsSound}
use funny_os.Memory.Heap.Kmalloc.{Answers, kmalloc-Answers, kmalloc_wraps}

abbrev block : ℕ → ℕ → HeapBlock
block addr size = record { addr = addr; size = size; free = true }

abbrev taken : ℕ → ℕ → HeapBlock
taken addr size = record { addr = addr; size = size; free = false }

-- One page: 64 bytes in use, then 104 free, then the rest in use.
abbrev page : List HeapBlock
page = taken 0x20_0000 64 ∷ block 0x20_0058 104 ∷ taken 0x20_00d8 3856 ∷ []

alloc_splits :
    heap_alloc_from_list 32 page
    ≡ some (
      0x20_0070,
      taken 0x20_0000 64 ∷ taken 0x20_0058 32 ∷ block 0x20_0090 48 ∷ taken 0x20_00d8 3856 ∷ [],
    )
unfolding heap_alloc_from_list use_block
alloc_splits = refl

free_merges :
    heap_free_to_list 0x20_0018 page ≡ some (block 0x20_0000 192 ∷ taken 0x20_00d8 3856 ∷ [])
unfolding heap_free_to_list mark_free heap_merge_adjacent merge_from
free_merges = refl

-- No block has its payload at 0x20_0020.
free_wild : heap_free_to_list 0x20_0020 page ≡ none
unfolding heap_free_to_list mark_free
free_wild = refl

heap_merge_adjacent-Merged_example :
    Merged 0
      (block 0x20_0000 64 ∷ block 0x20_0058 104 ∷ [])
      (heap_merge_adjacent (block 0x20_0000 64 ∷ block 0x20_0058 104 ∷ []))
heap_merge_adjacent-Merged_example =
    heap_merge_adjacent-Merged 0 (block 0x20_0000 64 ∷ block 0x20_0058 104 ∷ []) (omega arith)

abbrev after_alloc : List HeapBlock
after_alloc =
    taken 0x20_0000 64 ∷ taken 0x20_0058 32 ∷ block 0x20_0090 48 ∷ taken 0x20_00d8 3856 ∷ []

heap_alloc-Served_example : Served 0 32 0x20_0070 page after_alloc
heap_alloc-Served_example =
    heap_alloc-Served 32 page 0x20_0070 after_alloc (omega arith) (omega arith) alloc_splits

heap_alloc-fails_example : All (λ b. b.free ≡ true → b.size < 112) page
heap_alloc-fails_example = heap_alloc-fails 112 page (unfold heap_alloc_from_list use_block in refl)

heap_free_to_list-Freed_example :
    (new : List HeapBlock) × (heap_free_to_list 0x20_0018 page ≡ some new)
    × Freed [] ((0x20_00f0, 3856) ∷ []) page new
heap_free_to_list-Freed_example =
    heap_free_to_list-Freed page 0x20_0018 64 [] ((0x20_00f0, 3856) ∷ []) (omega arith) refl
      (omega arith)

heap_free-heap_alloc_example :
    (freed : List HeapBlock) × (heap_free_to_list 0x20_0070 after_alloc ≡ some freed)
    × (used freed ≡ used page)
heap_free-heap_alloc_example =
    heap_free-heap_alloc 32 page 0x20_0070 after_alloc (omega arith) (omega arith) alloc_splits

-- A heap of one page, and 16 free pages.
abbrev machine : Memory
machine = record {
  table = record {
    ranges = record { base = 0x40_0000; page_count = 16 } ∷ [];
    total_pages = 16;
    ready = true;
  };
  heap = block 0x20_0000 4072 ∷ [];
}

machine-IsSound : IsSound machine
machine-IsSound = record {
  ordered = omega arith;
  layout = omega arith;
  apart = λ a f c. ground arith;
}

kmalloc-Answers_example : Answers 6000 machine (kmalloc 2 6000 machine)
kmalloc-Answers_example = kmalloc-Answers 0 6000 machine (omega arith) machine-IsSound

-- A heap of one page with a block in use before the free one.
abbrev busy_machine : Memory
busy_machine = record machine { heap = taken 0x20_0000 64 ∷ block 0x20_0058 3984 ∷ [] }

-- A request of 2^64 - 8 bytes is answered with the block just past the one in use.
kmalloc_wraps_example :
    (heap : List HeapBlock) × (align_up (word - 8) heap_alignment ≡ 0)
    × (kmalloc 1 (word - 8) busy_machine
        ≡ some (payload (block 0x20_0058 3984), record busy_machine { heap = heap }))
    × Served 0 0 (payload (block 0x20_0058 3984)) busy_machine.heap heap
kmalloc_wraps_example =
    kmalloc_wraps 0 (word - 8) busy_machine (taken 0x20_0000 64 ∷ []) [] (block 0x20_0058 3984)
      (omega arith) (omega arith) refl (omega arith) refl (refl, tt) refl
