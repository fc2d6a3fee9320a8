-- ===== src/Memory/Pages/Alloc.antt =====
-- `alloc_pages` and `free_pages`: what is handed out was free and is free no longer, and giving it
-- back restores the table's meaning.
use funny_os.Common.{
  ℕ, ◌+◌, ◌-◌, ◌*◌, ◌≤◌, ◌<◌, ◌≡◌, ◌≢◌, refl, sym, subst, subst₂, ◌↔◌, ◌⊎◌, inl, inr, true, not,
  ◌||◌, List, [], ◌∷◌, none, some, arith, length, All, leb, ◌==◌, if◌then◌else◌, Bool-cases,
  Option-cases,
}
use funny_os.Memory.Pages.{
  FreeRange, PageTable, max_free_ranges, run_end, take_pages, alloc_pages, free_pages,
  memory_free_pages,
}
use funny_os.Memory.Pages.Ranges.{
  IsRun, IsRange, limit_of, InRun, IsFree, Rises, IsOrdered, pages, AvoidsAll, Rises-weaken,
  memory_free_pages_lem,
}
use funny_os.Memory.Pages.Append.{Added, append_free_range-Added}

-- What a table holds after a run of pages has been taken from it.
record TakenFrom (lo base page_count : ℕ) (old new : List FreeRange) : Type 0 where
  above : lo ≤ base
  run : IsRun base page_count
  ordered : Rises lo new
  avoids : AvoidsAll base page_count new
  free : (a : ℕ) → IsFree a old ↔ (InRun base page_count a ⊎ IsFree a new)
  total : pages old ≡ page_count + pages new
  room : length new ≤ length old

Rises-AvoidsAll :
    (base page_count lo : ℕ) (rs : List FreeRange)
    → base + page_count * 4096 ≤ lo
    → Rises lo rs
    → AvoidsAll base page_count rs
Rises-AvoidsAll base page_count lo [] h v = tt
Rises-AvoidsAll base page_count lo (r ∷ rs) h v =
    (inr (omega arith), Rises-AvoidsAll base page_count (limit_of r + 1) rs (omega arith) v.2)

-- The first pages of a range are taken.
take_first :
    (n lo : ℕ) (r : FreeRange) (rs : List FreeRange)
    → 0 < n
    → n ≤ r.page_count
    → Rises lo (r ∷ rs)
    → TakenFrom lo r.base n (r ∷ rs) (
        if r.page_count - n == 0
        then rs
        else record { base = run_end r.base n; page_count = r.page_count - n } ∷ rs)
take_first n lo r rs pos fits v = elim (Bool-cases (r.page_count - n == 0)) [
  | inl t ↦
      let e : r.page_count ≡ n = ground arith in
      rw t (record {
        above = v.1;
        run = omega arith;
        ordered = Rises-weaken _ lo rs (omega arith) v.2;
        avoids = Rises-AvoidsAll r.base n (limit_of r + 1) rs (omega arith) v.2;
        free = λ a. ground arith;
        total = omega arith;
        room = omega arith;
      })
  | inr t ↦
      let e : n < r.page_count = ground arith in
      rw t (record {
        above = v.1;
        run = omega arith;
        ordered = (omega arith, omega arith, Rises-weaken _ _ rs (omega arith) v.2);
        avoids = (omega arith, Rises-AvoidsAll r.base n (limit_of r + 1) rs (omega arith) v.2);
        free = λ a. ground arith;
        total = omega arith;
        room = omega arith;
      })
]

TakenFrom-cong :
    {lo b b' n : ℕ} {old new new' : List FreeRange}
    → b ≡ b'
    → new ≡ new'
    → TakenFrom lo b n old new
    → TakenFrom lo b' n old new'
TakenFrom-cong {lo} {n = n} {old = old} p q t = subst₂ (λ b new. TakenFrom lo b n old new) p q t

-- A range that is too small stays in front of what is left of the others.
keep_range :
    (n lo base : ℕ) (r : FreeRange) (rs rest : List FreeRange)
    → IsRange r
    → lo ≤ r.base
    → TakenFrom (limit_of r + 1) base n rs rest
    → TakenFrom lo base n (r ∷ rs) (r ∷ rest)
keep_range n lo base r rs rest v h t = record {
  above = omega (arith, t.above);
  run = t.run;
  ordered = (v, h, t.ordered);
  avoids = (inl (omega (arith, t.above)), t.avoids);
  free = λ a. ground (arith, t.free a);
  total = omega (arith, t.total);
  room = omega (arith, t.room);
}

take_pages-TakenFrom :
    (n lo : ℕ) (rs : List FreeRange) (base : ℕ) (rest : List FreeRange)
    → 0 < n
    → Rises lo rs
    → take_pages n rs ≡ some (base, rest)
    → TakenFrom lo base n rs rest
unfolding take_pages
take_pages-TakenFrom n lo [] base rest pos v e = absurd (cc)
take_pages-TakenFrom n lo (r ∷ rs) base rest pos v e = elim (Bool-cases (leb n r.page_count)) [
  | inl t ↦ TakenFrom-cong (ground arith) (ground arith) (take_first n lo r rs pos (ground arith) v)
  | inr t ↦ elim (Option-cases (take_pages n rs)) [
    | inl f ↦ absurd (ground arith)
    | inr ((b, rest'), f) ↦ TakenFrom-cong (ground arith) (ground arith) (
        keep_range n lo b r rs rest' v.0 v.1
          (take_pages-TakenFrom n (limit_of r + 1) rs b rest' pos v.2 f))
  ]
]

-- A failed search has seen only ranges that are too small.
take_pages-none :
    (n : ℕ) (rs : List FreeRange) → take_pages n rs ≡ none → All (λ r. r.page_count < n) rs
unfolding take_pages
take_pages-none n [] e = tt
take_pages-none n (r ∷ rs) e = elim (Option-cases (take_pages n rs)) [
  | inl t ↦ (ground arith, take_pages-none n rs t)
  | inr (s, t) ↦ absurd (ground arith)
]

take_pages-small :
    (n : ℕ) (rs : List FreeRange) → All (λ r. r.page_count < n) rs → take_pages n rs ≡ none
unfolding take_pages
take_pages-small n [] h = refl
take_pages-small n (r ∷ rs) h = ground (arith, take_pages-small n rs h.1)

-- What a successful `alloc_pages` did to a table in order.
pub record Allocated (ptr page_count : ℕ) (old new : PageTable) : Type 0 where
  pub run : IsRun ptr page_count
  pub ordered : IsOrdered new.ranges
  pub avoids : AvoidsAll ptr page_count new.ranges
  pub free : (a : ℕ) → IsFree a old.ranges ↔ (InRun ptr page_count a ⊎ IsFree a new.ranges)
  pub total : memory_free_pages old ≡ page_count + memory_free_pages new
  pub room : length new.ranges ≤ length old.ranges
  pub ready : new.ready ≡ old.ready

-- A pointer other than NULL that `alloc_pages` returns is the start of a run of whole pages that was
-- free. The table stays in order, no range of it meets the run, exactly the run's addresses are no
-- longer free, and the number of free pages falls by the run's.
pub alloc_pages-Allocated :
    (n : ℕ) (t : PageTable)
    → IsOrdered t.ranges
    → (alloc_pages n t).0 ≢ 0
    → let (ptr, t') = alloc_pages n t in Allocated ptr n t t'
unfolding alloc_pages
alloc_pages-Allocated n t v some_ptr = elim (Bool-cases (not t.ready || n == 0)) [
  | inl b ↦ absurd (ground arith)
  | inr b ↦ elim (Option-cases (take_pages n t.ranges)) [
    | inl e ↦ absurd (ground arith)
    | inr ((base, rest), e) ↦
        let k = take_pages-TakenFrom n 0 t.ranges base rest (ground arith) v e in
        rw (b, e)
          (record {
            run = k.run;
            ordered = k.ordered;
            avoids = k.avoids;
            free = k.free;
            total = omega (
              arith,
              memory_free_pages_lem t v,
              memory_free_pages_lem (record t { ranges = rest }) k.ordered,
              k.total,
            );
            room = k.room;
            ready = refl;
          })
  ]
]

-- On a ready table whose ranges do not begin at address 0, a request for at least one page fails
-- exactly if every free range is too short.
pub alloc_pages-fails_iff :
    (n : ℕ) (t : PageTable)
    → t.ready ≡ true
    → 0 < n
    → Rises 1 t.ranges
    → ((alloc_pages n t).0 ≡ 0) ↔ All (λ r. r.page_count < n) t.ranges
unfolding alloc_pages
alloc_pages-fails_iff n t ready pos v = (
  λ z. elim (Option-cases (take_pages n t.ranges)) [
    | inl e ↦ take_pages-none n t.ranges e
    | inr ((base, rest), e) ↦
        absurd (ground (arith, take_pages-TakenFrom n 1 t.ranges base rest pos v e))
  ],
  λ small. ground (arith, take_pages-small n t.ranges small),
)

-- `free_pages` of a run that is not free succeeds while the table has fewer than 256 ranges: exactly
-- the run becomes free.
pub free_pages-Added :
    (ptr n : ℕ) (t : PageTable)
    → t.ready ≡ true
    → ptr ≢ 0
    → IsRun ptr n
    → IsOrdered t.ranges
    → AvoidsAll ptr n t.ranges
    → length t.ranges < max_free_ranges
    → Added ptr n t.ranges (free_pages ptr n t).ranges
unfolding free_pages
free_pages-Added ptr n t ready nonnull run v d room =
    let (new, e, added) = append_free_range-Added ptr n t.ranges run v d room in
    let same : (free_pages ptr n t).ranges ≡ new = ground arith in
    subst (Added ptr n t.ranges) (sym same) added
