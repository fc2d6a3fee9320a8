-- ===== src/Memory/Pages/Ranges.antt =====
-- What the table of free ranges means: the addresses that are free, and the order of the ranges.
use funny_os.Common.{
  ℕ, ◌+◌, ◌*◌, ◌%◌, ◌≤◌, ◌<◌, ◌≡◌, ◌↔◌, ◌⊎◌, inl, inr, List, [], ◌∷◌, arith, length, All, add64,
  word,
}
use funny_os.Memory.Pages.{FreeRange, PageTable, range_end, rejoin, count_from, memory_free_pages}

-- MEMORY_MAX_PHYS_ADDR
abbrev pub max_phys_addr : ℕ
max_phys_addr = 0x1_0000_0000

-- A run of whole pages below the 4 GiB limit.
pub record IsRun (base page_count : ℕ) : Type 0 where
  pub aligned : base % 4096 ≡ 0
  pub nonempty : 0 < page_count
  pub below : base + page_count * 4096 ≤ max_phys_addr

abbrev pub IsRange : FreeRange → Type 0
IsRange r = IsRun r.base r.page_count

abbrev pub limit_of : FreeRange → ℕ
limit_of r = r.base + r.page_count * 4096

pub range_end_lem : (r : FreeRange) → IsRange r → range_end r ≡ limit_of r
range_end_lem r v = omega arith

-- An address lies in a run, or in some free range.
abbrev pub InRun : ℕ → ℕ → ℕ → Type 0
InRun base page_count a = (base ≤ a) × (a < base + page_count * 4096)

abbrev pub IsFree : ℕ → List FreeRange → Type 0
IsFree a [] = ⊥
IsFree a (r ∷ rs) = InRun r.base r.page_count a ⊎ IsFree a rs

-- The ranges rise, with a gap between any two, from `lo` on; or fall likewise, down from `hi`.
abbrev pub Rises : ℕ → List FreeRange → Type 0
Rises lo [] = Unit {0}
Rises lo (r ∷ rs) = IsRange r × (lo ≤ r.base) × Rises (limit_of r + 1) rs

abbrev pub Falls : ℕ → List FreeRange → Type 0
Falls hi [] = Unit {0}
Falls hi (r ∷ rs) = IsRange r × (limit_of r + 1 ≤ hi) × Falls r.base rs

abbrev pub IsOrdered : List FreeRange → Type 0
IsOrdered rs = Rises 0 rs

abbrev pub pages : List FreeRange → ℕ
pages [] = 0
pages (r ∷ rs) = r.page_count + pages rs

-- A run of pages that no range of the list meets.
abbrev pub AvoidsAll : ℕ → ℕ → List FreeRange → Type 0
AvoidsAll base page_count = All λ r. (limit_of r ≤ base) ⊎ (base + page_count * 4096 ≤ r.base)

pub not-IsFree_of_avoids :
    (base n : ℕ) (rs : List FreeRange) (a : ℕ)
    → AvoidsAll base n rs
    → InRun base n a
    → ¬ IsFree a rs
not-IsFree_of_avoids base n [] a d h f = f
not-IsFree_of_avoids base n (r ∷ rs) a d h (inl f) = absurd (omega (arith, d.0))
not-IsFree_of_avoids base n (r ∷ rs) a d h (inr f) = not-IsFree_of_avoids base n rs a d.1 h f

pub Rises-weaken : (m lo : ℕ) (rs : List FreeRange) → lo ≤ m → Rises m rs → Rises lo rs
Rises-weaken m lo [] h v = tt
Rises-weaken m lo (r ∷ rs) h v = (v.0, omega arith, v.2)

pub Rises-All : (lo : ℕ) (rs : List FreeRange) → Rises lo rs → All IsRange rs
Rises-All lo [] v = tt
Rises-All lo (r ∷ rs) v = (v.0, Rises-All (limit_of r + 1) rs v.2)

pub Rises-rejoin :
    (m : ℕ) (before after : List FreeRange)
    → Falls m before
    → Rises m after
    → IsOrdered (rejoin before after)
unfolding rejoin
Rises-rejoin m [] after f v = Rises-weaken m 0 after (omega arith) v
Rises-rejoin m (r ∷ before) after f v =
    Rises-rejoin r.base before (r ∷ after) f.2
      (f.0, omega arith, Rises-weaken m (limit_of r + 1) after f.1 v)

pub IsFree-rejoin :
    (a : ℕ) (before after : List FreeRange)
    → IsFree a (rejoin before after) ↔ (IsFree a before ⊎ IsFree a after)
unfolding rejoin
IsFree-rejoin a [] after = (inr, elim [ inl h ↦ absurd h | inr h ↦ h ])
IsFree-rejoin a (r ∷ before) after = ground (arith, IsFree-rejoin a before (r ∷ after))

pub pages-rejoin :
    (before after : List FreeRange) → pages (rejoin before after) ≡ pages before + pages after
unfolding rejoin
pages-rejoin [] after = omega arith
pages-rejoin (r ∷ before) after = omega (arith, pages-rejoin before (r ∷ after))

pub length-rejoin :
    (before after : List FreeRange) → length (rejoin before after) ≡ length before + length after
unfolding rejoin
length-rejoin [] after = omega arith
length-rejoin (r ∷ before) after = omega (arith, length-rejoin before (r ∷ after))

-- The ranges of an ordered table hold no more pages than the machine has.
pub pages-le :
    (lo : ℕ) (rs : List FreeRange)
    → Rises lo rs
    → lo ≤ max_phys_addr + 1
    → lo + pages rs * 4096 ≤ max_phys_addr + 1
pages-le lo [] v h = omega arith
pages-le lo (r ∷ rs) v h = omega (arith, pages-le (limit_of r + 1) rs v.2 (omega arith))

count_from_lem :
    (total : ℕ) (rs : List FreeRange)
    → total + pages rs < word
    → count_from total rs ≡ total + pages rs
unfolding count_from
count_from_lem total [] h = omega arith
count_from_lem total (r ∷ rs) h =
    omega (arith, count_from_lem (add64 total r.page_count) rs (omega arith))

pub memory_free_pages_lem :
    (t : PageTable) → IsOrdered t.ranges → memory_free_pages t ≡ pages t.ranges
unfolding memory_free_pages
memory_free_pages_lem t v =
    omega (arith, pages-le 0 t.ranges v (omega arith), count_from_lem 0 t.ranges)
