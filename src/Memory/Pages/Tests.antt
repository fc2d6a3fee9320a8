-- ===== src/Memory/Pages/Tests.antt =====
-- Runs of the page allocator on small tables.
use funny_os.Common.{
  ℕ, ◌<◌, ◌≡◌, refl, ◌↔◌, true, List, [], ◌∷◌, some, arith, All, align_down, align_up,
}
use funny_os.Memory.Pages.{
  FreeRange, PageTable, walk, rejoin, place, join_next, append_free_range, reserve_from, overlap,
  reserve_range, take_pages, alloc_pages, free_pages, count_from, memory_free_pages,
}
use funny_os.Memory.Pages.Ranges.{IsOrdered}
use funny_os.Memory.Pages.Append.{Added, append_free_range-Added}
use funny_os.Memory.Pages.Alloc.{Allocated, alloc_pages-Allocated, alloc_pages-fails_iff}
use funny_os.Memory.Pages.RoundTrip.{free_pages-alloc_pages, free_pages_twice}
use funny_os.Memory.Pages.Ownership.{World, IsSound, Reach, here, next, alloc, Reach-IsSound}
use funny_os.Memory.Pages.Reserve.{Reserved, reserve_range-Reserved, reserve_range-IsOrdered}

abbrev range : ℕ → ℕ → FreeRange
range base page_count = record { base = base; page_count = page_count }

-- 16 pages at 2 MiB, 4 pages at 4 MiB
abbrev two_ranges : List FreeRange
two_ranges = range 0x20_0000 16 ∷ range 0x40_0000 4 ∷ []

abbrev small_table : PageTable
small_table = record { ranges = two_ranges; total_pages = 20; ready = true }

-- 8 pages between the two ranges, which join the first one
append_joins :
    append_free_range 0x21_0000 8 two_ranges ≡ some (range 0x20_0000 24 ∷ range 0x40_0000 4 ∷ [])
unfolding append_free_range walk place join_next rejoin
append_joins = refl

alloc_first_fit :
    alloc_pages 6 small_table
    ≡ (0x20_0000, record small_table { ranges = range 0x20_6000 10 ∷ range 0x40_0000 4 ∷ [] })
unfolding alloc_pages take_pages
alloc_first_fit = refl

reserve_splits :
    reserve_range 0x20_2100 0x20_2f00 two_ranges
    ≡ (true, range 0x20_0000 2 ∷ range 0x20_3000 13 ∷ range 0x40_0000 4 ∷ [])
unfolding reserve_range reserve_from overlap align_down align_up
reserve_splits = refl

free_count : memory_free_pages small_table ≡ 20
unfolding memory_free_pages count_from
free_count = refl

append_free_range-Added_example :
    (new : List FreeRange) × (append_free_range 0x21_0000 8 two_ranges ≡ some new)
    × Added 0x21_0000 8 two_ranges new
append_free_range-Added_example =
    append_free_range-Added 0x21_0000 8 two_ranges (omega arith) (omega arith) (omega arith)
      (omega arith)

alloc_pages-Allocated_example :
    let (ptr, t') = alloc_pages 6 small_table in Allocated ptr 6 small_table t'
alloc_pages-Allocated_example =
    alloc_pages-Allocated 6 small_table (omega arith) (unfold alloc_pages take_pages in omega arith)

alloc_pages-fails_iff_example :
    ((alloc_pages 17 small_table).0 ≡ 0) ↔ All (λ r. r.page_count < 17) two_ranges
alloc_pages-fails_iff_example =
    alloc_pages-fails_iff 17 small_table refl (omega arith) (omega arith)

free_pages-alloc_pages_example :
    (free_pages (alloc_pages 6 small_table).0 6 (alloc_pages 6 small_table).1).ranges ≡ two_ranges
free_pages-alloc_pages_example =
    free_pages-alloc_pages 6 small_table refl (omega arith) (omega arith)
      (unfold alloc_pages take_pages in omega arith)

-- pages 1 and 2 of the second range, which are free already
free_pages_twice_example :
    ((free_pages 0x40_1000 2 small_table).ranges
      ≡ range 0x20_0000 16 ∷ range 0x40_0000 4 ∷ range 0x40_1000 2 ∷ [])
    × ¬ IsOrdered (free_pages 0x40_1000 2 small_table).ranges
free_pages_twice_example =
    free_pages_twice small_table (range 0x20_0000 16 ∷ []) [] (range 0x40_0000 4) 0x40_1000 2 refl
      (omega arith) (omega arith) (omega arith) refl (omega arith) (omega arith)

abbrev start : World
start = record { table = small_table; held = [] }

start-IsSound : IsSound start
start-IsSound = record { ready = refl; ordered = omega arith; owned = tt; disjoint = tt }

abbrev one_held : World
one_held = record {
  table = (alloc_pages 6 small_table).1;
  held = record { start = (alloc_pages 6 small_table).0; count = 6 } ∷ [];
}

one_alloc : Reach start one_held
one_alloc = next here (alloc start 6 (unfold alloc_pages take_pages in omega arith))

Reach-IsSound_example : IsSound one_held
Reach-IsSound_example = Reach-IsSound start-IsSound one_alloc

reserve_range-Reserved_example :
    Reserved 0x20_2100 0x20_2f00 two_ranges (reserve_range 0x20_2100 0x20_2f00 two_ranges).1
reserve_range-Reserved_example =
    reserve_range-Reserved 0x20_2100 0x20_2f00 two_ranges (omega arith) (omega arith) (omega arith)
      (unfold reserve_range reserve_from overlap align_down align_up in refl)

reserve_range-IsOrdered_example :
    ((reserve_range 0x20_2100 0x20_2f00 two_ranges).0 ≡ true)
    × IsOrdered (reserve_range 0x20_2100 0x20_2f00 two_ranges).1
reserve_range-IsOrdered_example =
    reserve_range-IsOrdered 0x20_2100 0x20_2f00 two_ranges (omega arith) (omega arith) (omega arith)
      (omega arith)
