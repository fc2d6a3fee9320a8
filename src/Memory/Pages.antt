-- ===== src/Memory/Pages.antt =====
-- kernel/memory.c: the sorted table of free page ranges. The list is `g_free_ranges` up to
-- `g_free_range_count`, which is its length; the loops that shift the entries of the array are
-- insertions into the list and removals from it.
pub mod Ranges
pub mod Append
pub mod Alloc
pub mod Unique
pub mod RoundTrip
pub mod Ownership
pub mod Loose
mod Tests
pub mod Reserve
use funny_os.Common.{
  ℕ, ◌+◌, ◌-◌, ◌*◌, ◌/◌, Bool, true, false, not, ◌&&◌, ◌||◌, List, [], ◌∷◌, Option, none, some,
  length, if◌then◌else◌, leb, ltb, ◌==◌, add64, sub64, mul64, align_down, align_up,
}

abbrev pub page_size : ℕ
page_size = 4096

abbrev pub max_free_ranges : ℕ
max_free_ranges = 256

pub record FreeRange : Type 0 where
  pub base : ℕ
  pub page_count : ℕ

-- `g_free_ranges`, `g_total_pages` and `g_memory_ready`
pub record PageTable : Type 0 where
  pub ranges : List FreeRange
  pub total_pages : ℕ
  pub ready : Bool

-- the address just past a run of pages
abbrev pub run_end : ℕ → ℕ → ℕ
run_end base page_count = add64 base (mul64 page_count page_size)

abbrev pub range_end : FreeRange → ℕ
range_end r = run_end r.base r.page_count

-- The ranges before index `insert_at`, nearest first, and those from there on.
unfoldable pub walk : ℕ → List FreeRange → List FreeRange → List FreeRange × List FreeRange
walk base before [] = (before, [])
walk base before (r ∷ rs) = if ltb r.base base then walk base (r ∷ before) rs else (before, r ∷ rs)

unfoldable pub rejoin : List FreeRange → List FreeRange → List FreeRange
rejoin [] after = after
rejoin (r ∷ before) after = rejoin before (r ∷ after)

-- the range at `insert_at` begins before the new one ends
abbrev pub overlaps_next : ℕ → List FreeRange → Bool
overlaps_next end [] = false
overlaps_next end (r ∷ rs) = ltb r.base end

-- The new range has been added to `prev`; join it to the next range where they meet.
unfoldable pub join_next : FreeRange → List FreeRange → List FreeRange
join_next prev [] = prev ∷ []
join_next prev (r ∷ rs) =
    if range_end prev == r.base
    then record prev { page_count = add64 prev.page_count r.page_count } ∷ rs
    else prev ∷ r ∷ rs

-- No range ends where the new one begins: extend the next range downwards, or insert.
unfoldable pub insert_new : ℕ → ℕ → List FreeRange → List FreeRange
insert_new base page_count [] = record { base = base; page_count = page_count } ∷ []
insert_new base page_count (r ∷ rs) =
    if run_end base page_count == r.base
    then record { base = base; page_count = add64 r.page_count page_count } ∷ rs
    else record { base = base; page_count = page_count } ∷ r ∷ rs

unfoldable pub place : ℕ → ℕ → List FreeRange → List FreeRange → List FreeRange
place base page_count [] after = insert_new base page_count after
place base page_count (prev ∷ before) after =
    if range_end prev == base
    then rejoin before
        (join_next (record prev { page_count = add64 prev.page_count page_count }) after)
    else rejoin (prev ∷ before) (insert_new base page_count after)

-- `none` is the result `false`, which leaves the table as it was.
unfoldable pub append_free_range : ℕ → ℕ → List FreeRange → Option (List FreeRange)
append_free_range base page_count ranges =
    if page_count == 0
    then some ranges
    else if leb max_free_ranges (length ranges)
    then none
    else let (before, after) = walk base [] ranges in
      if overlaps_next (run_end base page_count) after
      then none
      else some (place base page_count before after)

-- How `reserve_range` finds a free range to lie to the reserved one.
pub data Overlap : Type 0 where
  apart covered front back inside : Overlap

unfoldable pub overlap : ℕ → ℕ → FreeRange → Overlap
overlap start end r =
    if leb end r.base || leb (range_end r) start
    then Overlap.apart
    else if leb start r.base && leb (range_end r) end
    then Overlap.covered
    else if leb start r.base
    then Overlap.front
    else if leb (range_end r) end
    then Overlap.back
    else Overlap.inside

abbrev pub keep : FreeRange → Bool × List FreeRange → Bool × List FreeRange
keep r (done, rs) = (done, r ∷ rs)

-- The loop of `reserve_range` from one index on; `count` is `g_free_range_count`. Where it fails,
-- what it has changed before stays changed.
unfoldable pub reserve_from : ℕ → ℕ → ℕ → List FreeRange → Bool × List FreeRange
reserve_from start end count [] = (true, [])
reserve_from start end count (r ∷ rs) = elim (overlap start end r) [
  | Overlap.apart ↦ keep r (reserve_from start end count rs)
  | Overlap.covered ↦ reserve_from start end (count - 1) rs
  | Overlap.front ↦
      keep (record { base = end; page_count = sub64 (range_end r) end / page_size })
        (reserve_from start end count rs)
  | Overlap.back ↦
      keep (record r { page_count = sub64 start r.base / page_size })
        (reserve_from start end count rs)
  | Overlap.inside ↦
      let rest = reserve_from start end (count + 1) rs in
      if leb max_free_ranges count
      then (false, r ∷ rs)
      else keep (record r { page_count = sub64 start r.base / page_size })
          (keep (record { base = end; page_count = sub64 (range_end r) end / page_size }) rest)
]

unfoldable pub reserve_range : ℕ → ℕ → List FreeRange → Bool × List FreeRange
reserve_range reserve_start reserve_end ranges =
    let start = align_down reserve_start page_size in
    let end = align_up reserve_end page_size in
    if leb end start then (true, ranges) else reserve_from start end (length ranges) ranges

-- First fit: the address that is handed out, and the ranges left; `none` where no range is large
-- enough.
unfoldable pub take_pages : ℕ → List FreeRange → Option (ℕ × List FreeRange)
take_pages page_count [] = none
take_pages page_count (r ∷ rs) =
    let later = take_pages page_count rs in
    if leb page_count r.page_count
    then some (
      r.base,
      if r.page_count - page_count == 0
          then rs
          else record { base = run_end r.base page_count; page_count = r.page_count - page_count }
            ∷ rs,
    )
    else elim later [ none ↦ none | some (base, rest) ↦ some (base, r ∷ rest) ]

-- A pointer is its address, and `NULL` is 0.
unfoldable pub alloc_pages : ℕ → PageTable → ℕ × PageTable
alloc_pages page_count t =
    if not t.ready || page_count == 0 then (0, t) else elim (take_pages page_count t.ranges) [
      | none ↦ (0, t)
      | some (base, rest) ↦ (base, record t { ranges = rest })
    ]

-- A failed `append_free_range` is not reported.
unfoldable pub free_pages : ℕ → ℕ → PageTable → PageTable
free_pages ptr page_count t =
    if not t.ready || ptr == 0 || page_count == 0
    then t
    else elim (append_free_range ptr page_count t.ranges) [
      | none ↦ t
      | some ranges ↦ record t { ranges = ranges }
    ]

pub count_from : ℕ → List FreeRange → ℕ
count_from total [] = total
count_from total (r ∷ rs) = count_from (add64 total r.page_count) rs

pub memory_free_pages : PageTable → ℕ
memory_free_pages t = count_from 0 t.ranges
