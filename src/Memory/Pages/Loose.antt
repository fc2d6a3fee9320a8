-- ===== src/Memory/Pages/Loose.antt =====
-- Tables whose ranges need not be in order, as a careless memory map may leave them.
use funny_os.Common.{
  ℕ, ◌≡◌, refl, subst, ◌⊎◌, inl, inr, List, [], ◌∷◌, some, arith, All, ltb, ◌==◌, Bool-cases, add64,
}
use funny_os.Memory.Pages.{
  FreeRange, range_end, walk, rejoin, join_next, insert_new, place, append_free_range,
}
use funny_os.Memory.Pages.Ranges.{IsRun, IsRange, InRun, IsFree, IsFree-rejoin}

All-rejoin :
    (before after : List FreeRange)
    → All IsRange before
    → All IsRange after
    → All IsRange (rejoin before after)
unfolding rejoin
All-rejoin [] after v w = w
All-rejoin (r ∷ before) after v w = All-rejoin before (r ∷ after) v.1 (v.0, w)

All-walk :
    (base : ℕ) (before rs : List FreeRange)
    → All IsRange before
    → All IsRange rs
    → All IsRange (walk base before rs).0 × All IsRange (walk base before rs).1
unfolding walk
All-walk base before [] v w = (v, tt)
All-walk base before (r ∷ rs) v w = elim (Bool-cases (ltb r.base base)) [
  | inl t ↦ rw t (All-walk base (r ∷ before) rs (w.0, v) w.1)
  | inr t ↦ rw t (v, w)
]

rejoin-walk :
    (base : ℕ) (before rs : List FreeRange)
    → rejoin (walk base before rs).0 (walk base before rs).1 ≡ rejoin before rs
unfolding walk rejoin
rejoin-walk base before [] = refl
rejoin-walk base before (r ∷ rs) = elim (Bool-cases (ltb r.base base)) [
  | inl t ↦ rw t (rejoin-walk base (r ∷ before) rs)
  | inr t ↦ rw t
]

-- The table's ranges stay whole pages below 4 GiB, and no address becomes free outside the new run.
abbrev pub Within : ℕ → ℕ → List FreeRange → List FreeRange → Type 0
Within base page_count old new =
    All IsRange new × ((a : ℕ) → IsFree a new → InRun base page_count a ⊎ IsFree a old)

insert_new-Within :
    (base page_count : ℕ) (after : List FreeRange)
    → IsRun base page_count
    → All IsRange after
    → Within base page_count after (insert_new base page_count after)
unfolding insert_new
insert_new-Within base page_count [] run v = (ground arith, λ a f. f)
insert_new-Within base page_count (r ∷ rs) run v = (ground arith, λ a f. ground arith)

join_next-Within :
    (p : FreeRange) (after : List FreeRange)
    → IsRange p
    → All IsRange after
    → Within p.base p.page_count after (join_next p after)
unfolding join_next
join_next-Within p [] run v = (ground arith, λ a f. f)
join_next-Within p (r ∷ rs) run v = (ground arith, λ a f. ground arith)

place-Within :
    (base page_count : ℕ) (before after : List FreeRange)
    → IsRun base page_count
    → All IsRange before
    → All IsRange after
    → Within base page_count (rejoin before after) (place base page_count before after)
unfolding place rejoin
place-Within base page_count [] after run v w = insert_new-Within base page_count after run w
place-Within base page_count (p ∷ before) after run v w = elim (Bool-cases (range_end p == base)) [
  | inl t ↦
      let q : FreeRange = record p { page_count = add64 p.page_count page_count } in
      let g : IsRange q = ground arith in
      let j = join_next-Within q after g w in
      rw t (
        All-rejoin before (join_next q after) v.1 j.0,
        λ a f. ground (
          arith,
          IsFree-rejoin a before (join_next q after),
          IsFree-rejoin a before (p ∷ after),
          j.1 a,
        ),
      )
  | inr t ↦
      let j = insert_new-Within base page_count after run w in
      rw t (
        All-rejoin before (p ∷ insert_new base page_count after) v.1 (v.0, j.0),
        λ a f. ground (
          arith,
          IsFree-rejoin a before (p ∷ insert_new base page_count after),
          IsFree-rejoin a before (p ∷ after),
          j.1 a,
        ),
      )
]

-- Whatever table `append_free_range` is given, it adds no address but those of the run.
pub append_free_range-Within :
    (base page_count : ℕ) (rs new : List FreeRange)
    → IsRun base page_count
    → All IsRange rs
    → append_free_range base page_count rs ≡ some new
    → Within base page_count rs new
unfolding append_free_range rejoin
append_free_range-Within base page_count rs new run v e =
    let (before, after) = walk base [] rs in
    let (vb, va) = All-walk base [] rs tt v in
    let same : place base page_count before after ≡ new = ground arith in
    subst (Within base page_count rs) same (
      subst (λ old. Within base page_count old (place base page_count before after))
        (rejoin-walk base [] rs) (place-Within base page_count before after run vb va))
