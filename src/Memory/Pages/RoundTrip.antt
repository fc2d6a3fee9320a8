-- ===== src/Memory/Pages/RoundTrip.antt =====
-- Sequences of `alloc_pages` and `free_pages`.
use funny_os.Common.{
  ℕ, ◌+◌, ◌*◌, ◌≤◌, ◌<◌, ◌≡◌, sym, subst, ◌∙◌, ◌≢◌, true, false, not, ◌||◌, List, [], ◌∷◌, ◌++◌,
  arith, ltb, leb, ◌==◌, length,
}
use funny_os.Memory.Pages.{
  max_free_ranges, FreeRange, PageTable, run_end, walk, rejoin, overlaps_next, insert_new, place,
  append_free_range, alloc_pages, free_pages,
}
use funny_os.Memory.Pages.Ranges.{IsRun, IsRange, limit_of, Rises, IsOrdered}
use funny_os.Memory.Pages.Alloc.{alloc_pages-Allocated, free_pages-Added}
use funny_os.Memory.Pages.Unique.{IsOrdered-unique}

-- Giving back at once what `alloc_pages` handed out restores the table of free ranges entry by
-- entry, if the table is ready, in order and has fewer than 256 ranges.
pub free_pages-alloc_pages :
    (n : ℕ) (t : PageTable)
    → t.ready ≡ true
    → IsOrdered t.ranges
    → length t.ranges < max_free_ranges
    → (alloc_pages n t).0 ≢ 0
    → (free_pages (alloc_pages n t).0 n (alloc_pages n t).1).ranges ≡ t.ranges
free_pages-alloc_pages n t ready v room some_ptr =
    let (ptr, t') = alloc_pages n t in
    let k = alloc_pages-Allocated n t v some_ptr in
    let b =
      free_pages-Added ptr n t' (k.ready ∙ ready) some_ptr k.run k.ordered k.avoids
        (omega (arith, k.room)) in
    IsOrdered-unique (free_pages ptr n t').ranges t.ranges b.ordered v
      λ a. ((λ f. (k.free a).1 ((b.free a).0 f)), (λ f. (b.free a).1 ((k.free a).0 f)))

-- A range of an ordered table, and those after it.
Rises-middle :
    (lo : ℕ) (before after : List FreeRange) (r : FreeRange)
    → Rises lo (before ++ (r ∷ after))
    → IsRange r × (lo ≤ r.base) × Rises (limit_of r + 1) after
Rises-middle lo [] after r v = v
Rises-middle lo (b ∷ before) after r v =
    let w = Rises-middle (limit_of b + 1) before after r v.2 in (w.0, omega (arith, w.1), w.2)

module _ (r : FreeRange) (ptr n : ℕ) (run : IsRun ptr n) where
  -- Where a run from the inside of a range is placed: behind that range.
  abbrev IsPlacedAfter : List FreeRange → List FreeRange → List FreeRange × List FreeRange → Type 0
  IsPlacedAfter acc whole (before, after) =
      (overlaps_next (run_end ptr n) after ≡ false) × (place ptr n before after ≡ rejoin acc whole)

  walk-last :
      (acc after : List FreeRange)
      → IsRange r
      → r.base < ptr
      → ptr + n * 4096 ≤ limit_of r
      → Rises (limit_of r + 1) after
      → IsPlacedAfter acc
          (r ∷ record { base = ptr; page_count = n } ∷ after)
          (walk ptr (r ∷ acc) after)
  unfolding walk place insert_new rejoin
  walk-last acc [] v lo hi w = ground arith
  walk-last acc (s ∷ after) v lo hi w = ground arith

  walk-inside :
      (m : ℕ) (acc before after : List FreeRange)
      → r.base < ptr
      → ptr + n * 4096 ≤ limit_of r
      → Rises m (before ++ (r ∷ after))
      → IsPlacedAfter acc
          (before ++ (r ∷ record { base = ptr; page_count = n } ∷ after))
          (walk ptr acc (before ++ (r ∷ after)))
  unfolding walk rejoin
  walk-inside m acc [] after lo hi v =
      let t : ltb r.base ptr ≡ true = ground arith in rw t (walk-last acc after v.0 lo hi v.2)
  walk-inside m acc (b ∷ before) after lo hi v =
      let w = Rises-middle (limit_of b + 1) before after r v.2 in
      let t : ltb b.base ptr ≡ true = ground (arith, w.1) in
      rw t (walk-inside (limit_of b + 1) (b ∷ acc) before after lo hi v.2)

-- `free_pages` compares a run only with the range after it: pages from the inside of a free range,
-- past its first page, are taken for a new range, which is put behind that range. The table, which
-- was ready, in order and of fewer than 256 ranges, is no longer in order.
pub free_pages_twice :
    (t : PageTable) (before after : List FreeRange) (r : FreeRange) (ptr n : ℕ)
    → t.ready ≡ true
    → IsOrdered t.ranges
    → length t.ranges < max_free_ranges
    → IsRun ptr n
    → t.ranges ≡ before ++ (r ∷ after)
    → r.base < ptr
    → ptr + n * 4096 ≤ limit_of r
    → ((free_pages ptr n t).ranges ≡ before ++ (r ∷ record { base = ptr; page_count = n } ∷ after))
      × ¬ IsOrdered (free_pages ptr n t).ranges
unfolding free_pages append_free_range rejoin
free_pages_twice t before after r ptr n ready v room run e lo hi =
    let v' = subst IsOrdered e v in
    let w =
      subst
        (λ rs.
          IsPlacedAfter r ptr n run []
            (before ++ (r ∷ record { base = ptr; page_count = n } ∷ after)) (walk ptr [] rs))
        (sym e) (walk-inside r ptr n run 0 [] before after lo hi v') in
    let z1 : (not t.ready || ptr == 0 || n == 0) ≡ false = ground arith in
    let z2 : (n == 0) ≡ false = ground arith in
    let z3 : leb max_free_ranges (length t.ranges) ≡ false = ground arith in
    let q : (free_pages ptr n t).ranges
        ≡ before ++ (r ∷ record { base = ptr; page_count = n } ∷ after) =
      rw (z1, z2, z3, w.0, w.1) in
    (
      q,
      λ o. let k = Rises-middle 0 before _ r (subst IsOrdered q o) in absurd (omega (arith, k.2.1)),
    )
