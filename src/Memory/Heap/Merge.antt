-- ===== src/Memory/Heap/Merge.antt =====
-- `heap_merge_adjacent` and `heap_insert_block`.
use funny_os.Common.{
  ℕ, ◌≤◌, ◌<◌, ◌≡◌, refl, sym, subst, ◌∙◌, ◌⊎◌, ◌↔◌, true, List, [], ◌∷◌, arith, Bool-cases, inl,
  inr,
}
use funny_os.Memory.Heap.{
  HeapBlock, joins, joined, merge_from, heap_merge_adjacent, heap_insert_block,
}
use funny_os.Memory.Heap.Layout.{
  IsBlock, past, Layout, IsHeap, Covered, used, IsCoalesced, Layout-weaken, joined_lem,
}

merge_from-Layout :
    (lo : ℕ) (b : HeapBlock) (bs : List HeapBlock)
    → Layout lo (b ∷ bs)
    → Layout lo (merge_from b bs)
unfolding merge_from
merge_from-Layout lo b [] v = v
merge_from-Layout lo b (c ∷ bs) v = elim (Bool-cases (joins b c)) [
  | inl t ↦
      let j = joined_lem b c v.0 v.2.0 t in
      rw t
        (merge_from-Layout lo (joined b c) bs (j.0, v.1, subst (λ m. Layout m bs) (sym j.1) v.2.2))
  | inr t ↦ rw t (v.0, v.1, merge_from-Layout (past b) c bs v.2)
]

used-merge_from :
    (lo : ℕ) (b : HeapBlock) (bs : List HeapBlock)
    → Layout lo (b ∷ bs)
    → used (merge_from b bs) ≡ used (b ∷ bs)
unfolding merge_from
used-merge_from lo b [] v = refl
used-merge_from lo b (c ∷ bs) v = elim (Bool-cases (joins b c)) [
  | inl t ↦
      let j = joined_lem b c v.0 v.2.0 t in
      rw t (
        ground (
          arith,
          used-merge_from lo (joined b c) bs (j.0, v.1, subst (λ m. Layout m bs) (sym j.1) v.2.2),
        ))
  | inr t ↦ rw t (ground (arith, used-merge_from (past b) c bs v.2))
]

Covered-merge_from :
    (lo : ℕ) (b : HeapBlock) (bs : List HeapBlock) (a : ℕ)
    → Layout lo (b ∷ bs)
    → Covered a (merge_from b bs) ↔ Covered a (b ∷ bs)
unfolding merge_from
Covered-merge_from lo b [] a v = ground arith
Covered-merge_from lo b (c ∷ bs) a v = elim (Bool-cases (joins b c)) [
  | inl t ↦
      let j = joined_lem b c v.0 v.2.0 t in
      rw t (
        ground (
          arith,
          Covered-merge_from lo (joined b c) bs a
              (j.0, v.1, subst (λ m. Layout m bs) (sym j.1) v.2.2),
        ))
  | inr t ↦ rw t (ground (arith, Covered-merge_from (past b) c bs a v.2))
]

-- What the merged list begins with.
merge_from-head :
    (b : HeapBlock) (bs : List HeapBlock)
    → (c : HeapBlock) × (rest : List HeapBlock) × (merge_from b bs ≡ c ∷ rest)
      × (c.addr ≡ b.addr)
      × (c.free ≡ b.free)
unfolding merge_from
merge_from-head b [] = (b, [], refl, refl, refl)
merge_from-head b (c ∷ bs) = elim (Bool-cases (joins b c)) [
  | inl t ↦ rw t (merge_from-head (joined b c) bs)
  | inr t ↦ rw t (b, merge_from c bs, refl, refl, refl)
]

merge_from-IsCoalesced : (b : HeapBlock) (bs : List HeapBlock) → IsCoalesced (merge_from b bs)
unfolding merge_from
merge_from-IsCoalesced b [] = tt
merge_from-IsCoalesced b (c ∷ bs) = elim (Bool-cases (joins b c)) [
  | inl t ↦ rw t (merge_from-IsCoalesced (joined b c) bs)
  | inr t ↦
      let (d, rest, e, p, q) = merge_from-head c bs in
      let ih : IsCoalesced (d ∷ rest) = subst IsCoalesced e (merge_from-IsCoalesced c bs) in
      rw (t, e) (ground arith, ih)
]

-- Merging keeps the blocks apart, the memory they cover, and the payloads in use, and leaves no two
-- free blocks side by side.
pub record Merged (lo : ℕ) (old new : List HeapBlock) : Type 0 where
  pub layout : Layout lo new
  pub covers : (a : ℕ) → Covered a new ↔ Covered a old
  pub in_use : used new ≡ used old
  pub coalesced : IsCoalesced new

pub heap_merge_adjacent-Merged :
    (lo : ℕ) (bs : List HeapBlock) → Layout lo bs → Merged lo bs (heap_merge_adjacent bs)
unfolding heap_merge_adjacent
heap_merge_adjacent-Merged lo [] v = record {
  layout = tt;
  covers = λ a. ground arith;
  in_use = refl;
  coalesced = tt;
}
heap_merge_adjacent-Merged lo (b ∷ bs) v = record {
  layout = merge_from-Layout lo b bs v;
  covers = λ a. Covered-merge_from lo b bs a v;
  in_use = used-merge_from lo b bs v;
  coalesced = merge_from-IsCoalesced b bs;
}

-- A block that covers no address of the heap.
abbrev pub IsOutside : HeapBlock → List HeapBlock → Type 0
IsOutside block [] = Unit {0}
IsOutside block (b ∷ bs) = ((past b ≤ block.addr) ⊎ (past block ≤ b.addr)) × IsOutside block bs

pub insert-Layout :
    (lo : ℕ) (block : HeapBlock) (bs : List HeapBlock)
    → lo ≤ block.addr
    → IsBlock block
    → Layout lo bs
    → IsOutside block bs
    → Layout lo (heap_insert_block block bs)
unfolding heap_insert_block
insert-Layout lo block [] h k v o = (k, h, tt)
insert-Layout lo block (b ∷ bs) h k v o =
    ground (arith, insert-Layout (past b) block bs, Layout-weaken (past b) (past block) bs)

Covered-insert :
    (block : HeapBlock) (bs : List HeapBlock) (a : ℕ)
    → Covered a (heap_insert_block block bs)
      ↔ (((block.addr ≤ a) × (a < past block)) ⊎ Covered a bs)
unfolding heap_insert_block
Covered-insert block [] a = ground arith
Covered-insert block (b ∷ bs) a = ground (arith, Covered-insert block bs a)

used-insert :
    (block : HeapBlock) (bs : List HeapBlock)
    → block.free ≡ true
    → used (heap_insert_block block bs) ≡ used bs
unfolding heap_insert_block
used-insert block [] f = ground arith
used-insert block (b ∷ bs) f = ground (arith, used-insert block bs f)

-- A free block outside the heap that is inserted and merged adds its memory, and no payload in use.
pub insert_merge :
    (block : HeapBlock) (bs : List HeapBlock)
    → IsBlock block
    → block.free ≡ true
    → IsHeap bs
    → IsOutside block bs
    → let new = heap_merge_adjacent (heap_insert_block block bs) in
      IsHeap new
      × ((a : ℕ) → Covered a new ↔ (((block.addr ≤ a) × (a < past block)) ⊎ Covered a bs))
      × (used new ≡ used bs)
      × IsCoalesced new
insert_merge block bs k f v o =
    let m =
      heap_merge_adjacent-Merged 0 (heap_insert_block block bs)
        (insert-Layout 0 block bs (omega arith) k v o) in
    (
      m.layout,
      (λ a. ground (arith, m.covers a, Covered-insert block bs a)),
      m.in_use ∙ used-insert block bs f,
      m.coalesced,
    )
