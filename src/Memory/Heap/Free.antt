-- ===== src/Memory/Heap/Free.antt =====
-- `heap_free_to_list`, and what it does after `heap_alloc_from_list`.
use funny_os.Common.{
  ℕ, ◌+◌, ◌%◌, ◌≤◌, ◌<◌, ◌≡◌, refl, sym, ap, subst, subst₂, ◌∙◌, ◌↔◌, ◌⊎◌, inl, inr, true, false,
  some, List, [], ◌∷◌, ◌++◌, arith, ◌==◌, if◌then◌else◌, Bool-cases, word, sub64,
}
use funny_os.Memory.Heap.{
  header_size, HeapBlock, heap_merge_adjacent, heap_alloc_from_list, mark_free, heap_free_to_list,
}
use funny_os.Memory.Heap.Layout.{past, Layout, IsHeap, Covered, used, IsCoalesced}
use funny_os.Memory.Heap.Merge.{heap_merge_adjacent-Merged}
use funny_os.Memory.Heap.Alloc.{heap_alloc-Served}

-- A pointer to a payload of a list of payloads.
abbrev pub IsPayload : ℕ → List (ℕ × ℕ) → Type 0
IsPayload ptr [] = ⊥
IsPayload ptr ((p, n) ∷ us) = (p ≡ ptr) ⊎ IsPayload ptr us

IsPayload-middle : (ptr n : ℕ) (xs ys : List (ℕ × ℕ)) → IsPayload ptr (xs ++ ((ptr, n) ∷ ys))
IsPayload-middle ptr n [] ys = inl refl
IsPayload-middle ptr n (x ∷ xs) ys = inr (IsPayload-middle ptr n xs ys)

-- The payloads in use without the one at an address.
pub release : ℕ → List (ℕ × ℕ) → List (ℕ × ℕ)
release ptr [] = []
release ptr ((p, n) ∷ us) = if p == ptr then us else (p, n) ∷ release ptr us

release-absent :
    (ptr lo : ℕ) (bs : List HeapBlock)
    → Layout lo bs
    → ptr < lo + 24
    → release ptr (used bs) ≡ used bs
unfolding release
release-absent ptr lo [] v h = refl
release-absent ptr lo (b ∷ bs) v h = ground (arith, release-absent ptr (past b) bs v.2)

-- The blocks with the one at an address free.
pub marked : ℕ → List HeapBlock → List HeapBlock
marked addr [] = []
marked addr (b ∷ bs) = if b.addr == addr then record b { free = true } ∷ bs else b ∷ marked addr bs

-- A payload in use has its block in the list.
mark_free-marked :
    (addr : ℕ) (bs : List HeapBlock)
    → IsPayload (addr + 24) (used bs)
    → mark_free addr bs ≡ some (marked addr bs)
unfolding mark_free marked
mark_free-marked addr [] p = absurd p
mark_free-marked addr (b ∷ bs) p = elim (Bool-cases (b.addr == addr)) [
  | inl t ↦ rw t refl
  | inr t ↦
      let later : IsPayload (addr + 24) (used bs) = ground arith in
      rw (t, mark_free-marked addr bs later) refl
]

marked-Layout : (lo addr : ℕ) (bs : List HeapBlock) → Layout lo bs → Layout lo (marked addr bs)
unfolding marked
marked-Layout lo addr [] v = tt
marked-Layout lo addr (b ∷ bs) v = ground (arith, marked-Layout (past b) addr bs v.2)

Covered-marked :
    (addr : ℕ) (bs : List HeapBlock) (a : ℕ) → Covered a (marked addr bs) ↔ Covered a bs
unfolding marked
Covered-marked addr [] a = ground arith
Covered-marked addr (b ∷ bs) a = ground (arith, Covered-marked addr bs a)

used-marked :
    (lo addr : ℕ) (bs : List HeapBlock)
    → Layout lo bs
    → used (marked addr bs) ≡ release (addr + 24) (used bs)
unfolding marked release
used-marked lo addr [] v = refl
used-marked lo addr (b ∷ bs) v =
    ground (arith, used-marked (past b) addr bs v.2, release-absent (addr + 24) (past b) bs v.2)

-- Payloads in use have rising addresses.
abbrev UsedRise : ℕ → List (ℕ × ℕ) → Type 0
UsedRise lo [] = Unit {0}
UsedRise lo ((p, n) ∷ us) = (lo ≤ p) × UsedRise (p + 1) us

UsedRise-weaken : (m lo : ℕ) (us : List (ℕ × ℕ)) → lo ≤ m → UsedRise m us → UsedRise lo us
UsedRise-weaken m lo [] h u = tt
UsedRise-weaken m lo ((p, n) ∷ us) h u = (omega arith, u.1)

Layout-UsedRise : (lo : ℕ) (bs : List HeapBlock) → Layout lo bs → UsedRise (lo + 24) (used bs)
Layout-UsedRise lo [] v = tt
Layout-UsedRise lo (b ∷ bs) v = ground (
  arith,
  UsedRise-weaken (past b + 24) (lo + 24) (used bs) (omega arith) (Layout-UsedRise (past b) bs v.2),
  UsedRise-weaken (past b + 24) (b.addr + 24 + 1) (used bs) (omega arith)
      (Layout-UsedRise (past b) bs v.2),
)

UsedRise-ge : (lo p n : ℕ) (xs ys : List (ℕ × ℕ)) → UsedRise lo (xs ++ ((p, n) ∷ ys)) → lo ≤ p
UsedRise-ge lo p n [] ys u = u.0
UsedRise-ge lo p n ((q, k) ∷ xs) ys u = omega (arith, UsedRise-ge (q + 1) p n xs ys u.1)

release-middle :
    (lo p n : ℕ) (xs ys : List (ℕ × ℕ))
    → UsedRise lo (xs ++ ((p, n) ∷ ys))
    → release p (xs ++ ((p, n) ∷ ys)) ≡ xs ++ ys
unfolding release
release-middle lo p n [] ys u = ground arith
release-middle lo p n ((q, k) ∷ xs) ys u =
    ground (arith, UsedRise-ge (q + 1) p n xs ys u.1, release-middle (q + 1) p n xs ys u.1)

-- What freeing the payload between `before` and `after` does to the heap.
pub record Freed (before after : List (ℕ × ℕ)) (old new : List HeapBlock) : Type 0 where
  pub layout : IsHeap new
  pub covers : (a : ℕ) → Covered a new ↔ Covered a old
  pub in_use : used new ≡ before ++ after
  pub coalesced : IsCoalesced new

-- Freeing the pointer of a payload in use takes that payload out of those in use and leaves the
-- others alone. The blocks stay apart, they cover the same memory, and no two free ones are left
-- side by side.
pub heap_free_to_list-Freed :
    (bs : List HeapBlock) (ptr n : ℕ) (before after : List (ℕ × ℕ))
    → IsHeap bs
    → used bs ≡ before ++ ((ptr, n) ∷ after)
    → ptr < word
    → (new : List HeapBlock) × (heap_free_to_list ptr bs ≡ some new) × Freed before after bs new
unfolding heap_free_to_list
heap_free_to_list-Freed bs ptr n before after v u k =
    let rise = subst (UsedRise 24) u (Layout-UsedRise 0 bs v) in
    let h = UsedRise-ge 24 ptr n before after rise in
    let addr = sub64 ptr header_size in
    let e : addr + 24 ≡ ptr = omega arith in
    let p = subst₂ IsPayload (sym e) (sym u) (IsPayload-middle ptr n before after) in
    let m = heap_merge_adjacent-Merged 0 (marked addr bs) (marked-Layout 0 addr bs v) in
    let z : (ptr == 0) ≡ false = ground arith in
    (
      heap_merge_adjacent (marked addr bs),
      rw (z, mark_free-marked addr bs p) refl,
      record {
        layout = m.layout;
        covers = λ a. ground (arith, m.covers a, Covered-marked addr bs a);
        in_use =
            m.in_use
            ∙ used-marked 0 addr bs v
            ∙ ap (λ q. release q (used bs)) e
            ∙ ap (release ptr) u
            ∙ release-middle 24 ptr n before after rise;
        coalesced = m.coalesced;
      },
    )

-- Freeing what was just handed out succeeds and brings back the payloads that were in use before.
pub heap_free-heap_alloc :
    (n : ℕ) (bs : List HeapBlock) (ptr : ℕ) (new : List HeapBlock)
    → n % 8 ≡ 0
    → IsHeap bs
    → heap_alloc_from_list n bs ≡ some (ptr, new)
    → (freed : List HeapBlock) × (heap_free_to_list ptr new ≡ some freed) × (used freed ≡ used bs)
heap_free-heap_alloc n bs ptr new al v e =
    let s = heap_alloc-Served n bs ptr new al v e in
    let (freed, q, f) =
      heap_free_to_list-Freed new ptr s.size s.before s.after s.layout s.new_use
        (omega (arith, s.below)) in
    (freed, q, f.in_use ∙ sym s.old_use)
