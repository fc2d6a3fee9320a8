-- ===== src/Memory/Pages/Append.antt =====
-- `append_free_range` and `free_pages`: a run given back is added to the free addresses, in order.
use funny_os.Common.{
  ℕ, ◌+◌, ◌*◌, ◌≤◌, ◌<◌, ◌≡◌, refl, sym, ap, subst, ◌∙◌, ◌↔◌, ◌⊎◌, inl, inr, false, List, [], ◌∷◌,
  some, arith, length, ltb, ◌==◌, Bool-cases, add64,
}
use funny_os.Memory.Pages.{
  FreeRange, max_free_ranges, run_end, range_end, walk, rejoin, overlaps_next, join_next,
  insert_new, place, append_free_range,
}
use funny_os.Memory.Pages.Ranges.{
  IsRun, IsRange, limit_of, InRun, IsFree, Rises, Falls, IsOrdered, pages, AvoidsAll, Rises-weaken,
  Rises-rejoin, IsFree-rejoin, pages-rejoin, length-rejoin,
}

module _ (base page_count : ℕ) (run : IsRun base page_count) where
  abbrev first : FreeRange
  first = record { base = base; page_count = page_count }

  -- The ranges from the new one on.
  insert_new-Rises :
      (m : ℕ) (after : List FreeRange)
      → m ≤ base
      → Rises (base + page_count * 4096) after
      → Rises m (insert_new base page_count after)
  unfolding insert_new
  insert_new-Rises m [] h v = (run, h, tt)
  insert_new-Rises m (r ∷ rs) h v =
      ground
        (arith, Rises-weaken (limit_of r + 1) (base + add64 r.page_count page_count * 4096 + 1) rs)

  insert_new-IsFree :
      (a : ℕ) (after : List FreeRange)
      → Rises (base + page_count * 4096) after
      → IsFree a (insert_new base page_count after) ↔ (InRun base page_count a ⊎ IsFree a after)
  unfolding insert_new
  insert_new-IsFree a [] v = ground arith
  insert_new-IsFree a (r ∷ rs) v = ground arith

  pages-insert_new :
      (after : List FreeRange)
      → Rises (base + page_count * 4096) after
      → pages (insert_new base page_count after) ≡ page_count + pages after
  unfolding insert_new
  pages-insert_new [] v = omega arith
  pages-insert_new (r ∷ rs) v = ground arith

  join_next-Rises :
      (m : ℕ) (after : List FreeRange)
      → m ≤ base
      → Rises (base + page_count * 4096) after
      → Rises m (join_next first after)
  unfolding join_next
  join_next-Rises m [] h v = (run, h, tt)
  join_next-Rises m (r ∷ rs) h v =
      ground
        (arith, Rises-weaken (limit_of r + 1) (base + add64 page_count r.page_count * 4096 + 1) rs)

  join_next-IsFree :
      (a : ℕ) (after : List FreeRange)
      → Rises (base + page_count * 4096) after
      → IsFree a (join_next first after) ↔ (InRun base page_count a ⊎ IsFree a after)
  unfolding join_next
  join_next-IsFree a [] v = ground arith
  join_next-IsFree a (r ∷ rs) v = ground arith

  pages-join_next :
      (after : List FreeRange)
      → Rises (base + page_count * 4096) after
      → pages (join_next first after) ≡ page_count + pages after
  unfolding join_next
  pages-join_next [] v = omega arith
  pages-join_next (r ∷ rs) v = ground arith

Falls-weaken : (m h : ℕ) (rs : List FreeRange) → m ≤ h → Falls m rs → Falls h rs
Falls-weaken m h [] le v = tt
Falls-weaken m h (r ∷ rs) le v = (v.0, omega arith, v.2)

-- What `walk` leaves: ranges that end at the new base at the latest, and ranges that begin at its
-- end at the earliest.
record Split (base page_count : ℕ) (whole before after : List FreeRange) : Type 0 where
  low : Falls (base + 1) before
  high : Rises (base + page_count * 4096) after
  same : rejoin before after ≡ whole

walk-Split :
    (base page_count m : ℕ) (before rs : List FreeRange)
    → m ≤ base + 1
    → Falls m before
    → Rises m rs
    → AvoidsAll base page_count rs
    → let (b, a) = walk base before rs in Split base page_count (rejoin before rs) b a
unfolding walk rejoin
walk-Split base page_count m before [] h f v d = record {
  low = Falls-weaken m (base + 1) before h f;
  high = tt;
  same = refl;
}
walk-Split base page_count m before (r ∷ rs) h f v d = elim (Bool-cases (ltb r.base base)) [
  | inl t ↦ rw t (
      walk-Split base page_count (limit_of r + 1) (r ∷ before) rs (ground arith)
        (v.0, omega arith, Falls-weaken m r.base before v.1 f) v.2 d.1)
  | inr t ↦ rw t (record {
    low = Falls-weaken m (base + 1) before h f;
    high = (v.0, ground arith, v.2);
    same = refl;
  })
]

module _ (base page_count : ℕ) (run : IsRun base page_count) where
  -- A range that ends at the new base, with the new pages added.
  grown-IsRun :
      (p : FreeRange)
      → IsRange p
      → range_end p ≡ base
      → IsRun p.base (add64 p.page_count page_count)
        × (p.base + add64 p.page_count page_count * 4096 ≡ base + page_count * 4096)
        × (limit_of p ≡ base)
        × (add64 p.page_count page_count ≡ p.page_count + page_count)
  grown-IsRun p v e = (omega arith, omega arith, omega arith, omega arith)

  place-IsOrdered :
      (before after : List FreeRange)
      → Falls (base + 1) before
      → Rises (base + page_count * 4096) after
      → IsOrdered (place base page_count before after)
  unfolding place
  place-IsOrdered [] after f v = insert_new-Rises base page_count run 0 after (omega arith) v
  place-IsOrdered (p ∷ before) after f v = elim (Bool-cases (range_end p == base)) [
    | inl t ↦
        let g = grown-IsRun p f.0 (ground arith) in
        rw t (
          Rises-rejoin p.base before
            (join_next (record p { page_count = add64 p.page_count page_count }) after) f.2
            (join_next-Rises p.base (add64 p.page_count page_count) g.0 p.base after (omega arith)
              (Rises-weaken _ _ after (omega arith) v)))
    | inr t ↦ rw t (
        Rises-rejoin base (p ∷ before) (insert_new base page_count after) (f.0, ground arith, f.2)
          (insert_new-Rises base page_count run base after (omega arith) v))
  ]

  place-IsFree :
      (a : ℕ) (before after : List FreeRange)
      → Falls (base + 1) before
      → Rises (base + page_count * 4096) after
      → IsFree a (place base page_count before after)
        ↔ (InRun base page_count a ⊎ IsFree a (rejoin before after))
  unfolding place rejoin
  place-IsFree a [] after f v = insert_new-IsFree base page_count run a after v
  place-IsFree a (p ∷ before) after f v = elim (Bool-cases (range_end p == base)) [
    | inl t ↦
        let g = grown-IsRun p f.0 (ground arith) in
        let n = add64 p.page_count page_count in
        rw t (
          ground (
            arith,
            IsFree-rejoin a before (join_next (record p { page_count = n }) after),
            IsFree-rejoin a before (p ∷ after),
            join_next-IsFree p.base n g.0 a after (Rises-weaken _ _ after (omega arith) v),
          ))
    | inr t ↦ rw t (
        ground (
          arith,
          IsFree-rejoin a before (p ∷ insert_new base page_count after),
          IsFree-rejoin a before (p ∷ after),
          insert_new-IsFree base page_count run a after v,
        ))
  ]

  pages-place :
      (before after : List FreeRange)
      → Falls (base + 1) before
      → Rises (base + page_count * 4096) after
      → pages (place base page_count before after) ≡ page_count + pages (rejoin before after)
  unfolding place rejoin
  pages-place [] after f v = pages-insert_new base page_count run after v
  pages-place (p ∷ before) after f v = elim (Bool-cases (range_end p == base)) [
    | inl t ↦
        let g = grown-IsRun p f.0 (ground arith) in
        let n = add64 p.page_count page_count in
        rw t (
          omega (
            arith,
            pages-rejoin before (join_next (record p { page_count = n }) after),
            pages-rejoin before (p ∷ after),
            pages-join_next p.base n g.0 after (Rises-weaken _ _ after (omega arith) v),
          ))
    | inr t ↦ rw t (
        omega (
          arith,
          pages-rejoin before (p ∷ insert_new base page_count after),
          pages-rejoin before (p ∷ after),
          pages-insert_new base page_count run after v,
        ))
  ]

length-insert_new :
    (base page_count : ℕ) (after : List FreeRange)
    → length (insert_new base page_count after) ≤ length after + 1
unfolding insert_new
length-insert_new base page_count [] = omega arith
length-insert_new base page_count (r ∷ rs) = ground arith

length-join_next :
    (p : FreeRange) (after : List FreeRange) → length (join_next p after) ≤ length after + 1
unfolding join_next
length-join_next p [] = omega arith
length-join_next p (r ∷ rs) = ground arith

length-place :
    (base page_count : ℕ) (before after : List FreeRange)
    → length (place base page_count before after) ≤ length (rejoin before after) + 1
unfolding place rejoin
length-place base page_count [] after = length-insert_new base page_count after
length-place base page_count (p ∷ before) after = ground (
  arith,
  length-rejoin before (join_next (record p { page_count = add64 p.page_count page_count }) after),
  length-rejoin (p ∷ before) (insert_new base page_count after),
  length-rejoin (p ∷ before) after,
  length-insert_new base page_count after,
  length-join_next (record p { page_count = add64 p.page_count page_count }) after,
)

overlaps_next-false :
    (end : ℕ) (after : List FreeRange) → Rises end after → overlaps_next end after ≡ false
overlaps_next-false end [] v = refl
overlaps_next-false end (r ∷ rs) v = ground arith

-- What a table holds after a run of pages has been added to it.
pub record Added (base page_count : ℕ) (old new : List FreeRange) : Type 0 where
  pub ordered : IsOrdered new
  pub free : (a : ℕ) → IsFree a new ↔ (InRun base page_count a ⊎ IsFree a old)
  pub total : pages new ≡ page_count + pages old
  pub room : length new ≤ length old + 1

place-Added :
    (base page_count : ℕ) (old before after : List FreeRange)
    → IsRun base page_count
    → Split base page_count old before after
    → Added base page_count old (place base page_count before after)
place-Added base page_count old before after run s = record {
  ordered = place-IsOrdered base page_count run before after s.low s.high;
  free = λ a.
      subst
        (λ rs.
          IsFree a (place base page_count before after) ↔ (InRun base page_count a ⊎ IsFree a rs))
        s.same (place-IsFree base page_count run a before after s.low s.high);
  total =
      pages-place base page_count run before after s.low s.high
      ∙ ap (λ rs. page_count + pages rs) s.same;
  room =
      subst (λ rs. length (place base page_count before after) ≤ length rs + 1) s.same
        (length-place base page_count before after);
}

-- Giving back a run of whole pages that is not free yet succeeds while the table has fewer than 256
-- ranges. The table stays in order with gaps between its ranges; exactly the addresses of the run
-- become free; the pages of the run are added to the total; at most one entry is used.
pub append_free_range-Added :
    (base page_count : ℕ) (rs : List FreeRange)
    → IsRun base page_count
    → IsOrdered rs
    → AvoidsAll base page_count rs
    → length rs < max_free_ranges
    → (new : List FreeRange) × (append_free_range base page_count rs ≡ some new)
      × Added base page_count rs new
unfolding append_free_range rejoin
append_free_range-Added base page_count rs run v d room =
    let s = walk-Split base page_count 0 [] rs (omega arith) tt v d in
    let (before, after) = walk base [] rs in
    let e : run_end base page_count ≡ base + page_count * 4096 = omega arith in
    (
      place base page_count before after,
      ground (
        arith,
        overlaps_next-false (run_end base page_count) after
            (subst (λ m. Rises m after) (sym e) s.high),
      ),
      place-Added base page_count rs before after run s,
    )
