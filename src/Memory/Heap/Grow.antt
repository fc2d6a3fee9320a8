-- ===== src/Memory/Heap/Grow.antt =====
-- `heap_grow`: the heap takes free pages, and has room afterwards.
use funny_os.Common.{
  ℕ, ◌+◌, ◌*◌, ◌/◌, ◌≤◌, ◌<◌, ◌≡◌, refl, sym, subst, ◌⊎◌, true, ◌&&◌, List, [], ◌∷◌, arith,
  Bool-cases, leb, ◌==◌, inl, inr, some, add64, word, align_up-page,
}
use native.Mathlib.Decide.{dec_lt}
use funny_os.Memory.Heap.{
  joins, joined, merge_from, HeapBlock, Memory, payload, heap_alloc_from_list, heap_insert_block,
  heap_merge_adjacent, use_block, heap_grow, grow_pages, grown_block,
}
use funny_os.Memory.Heap.Layout.{IsBlock, past, Layout, IsHeap, Covered, used, joined_lem}
use funny_os.Memory.Heap.Merge.{insert-Layout, insert_merge, IsOutside}
use funny_os.Memory.Pages.{alloc_pages}
use funny_os.Memory.Pages.Ranges.{IsRun, IsFree, IsOrdered, not-IsFree_of_avoids}
use funny_os.Memory.Pages.Alloc.{alloc_pages-Allocated}

-- The table and the heap are in order, and no address is both free in the table and in the heap.
pub record IsSound (m : Memory) : Type 0 where
  pub ordered : IsOrdered m.table.ranges
  pub layout : IsHeap m.heap
  pub apart : (a : ℕ) → IsFree a m.table.ranges → ¬ Covered a m.heap

-- A run of free pages lies outside the blocks of the heap.
free_IsOutside :
    (block : HeapBlock) (bs : List HeapBlock)
    → ((a : ℕ) → block.addr ≤ a → a < past block → ¬ Covered a bs)
    → IsOutside block bs
free_IsOutside block [] h = tt
free_IsOutside block (b ∷ bs) h =
    (outside_one, free_IsOutside block bs (λ a p q c. h a p q (inr c)))
  where
    outside_one : (past b ≤ block.addr) ⊎ (past block ≤ b.addr)
    outside_one = elim (dec_lt block.addr b.addr) [
      | yes p ↦ elim (dec_lt b.addr (past block)) [
        | yes q ↦ absurd (h b.addr (omega arith) q (inl (omega arith)))
        | no q ↦ inr (omega arith)
      ]
      | no p ↦ elim (dec_lt block.addr (past b)) [
        | yes q ↦ absurd (h block.addr (omega arith) (omega arith) (inl (omega arith)))
        | no q ↦ inl (omega arith)
      ]
    ]

grow_pages_lem : (n : ℕ) → n + 24 + 4095 < word → grow_pages n ≡ (n + 24 + 4095) / 4096
grow_pages_lem n h = omega (arith, align_up-page (add64 24 n) (omega arith))

grown-IsBlock :
    (addr n : ℕ)
    → n + 24 + 4095 < word
    → IsRun addr (grow_pages n)
    → IsBlock (grown_block addr (grow_pages n))
      × (past (grown_block addr (grow_pages n)) ≡ addr + grow_pages n * 4096)
      × (n ≤ (grown_block addr (grow_pages n)).size)
grown-IsBlock addr n h r = omega (arith, grow_pages_lem n h)

-- Some free block has at least `n` bytes.
abbrev pub HasRoom : ℕ → List HeapBlock → Type 0
HasRoom n [] = ⊥
HasRoom n (b ∷ bs) = ((b.free ≡ true) × (n ≤ b.size)) ⊎ HasRoom n bs

HasRoom-insert :
    (n : ℕ) (block : HeapBlock) (bs : List HeapBlock)
    → block.free ≡ true
    → n ≤ block.size
    → HasRoom n (heap_insert_block block bs)
unfolding heap_insert_block
HasRoom-insert n block [] f h = inl (f, h)
HasRoom-insert n block (b ∷ bs) f h = ground (arith, HasRoom-insert n block bs f h)

HasRoom-merge_from :
    (n lo : ℕ) (b : HeapBlock) (bs : List HeapBlock)
    → Layout lo (b ∷ bs)
    → HasRoom n (b ∷ bs)
    → HasRoom n (merge_from b bs)
unfolding merge_from
HasRoom-merge_from n lo b [] v r = r
HasRoom-merge_from n lo b (c ∷ bs) v r = elim (Bool-cases (joins b c)) [
  | inl t ↦
      let j = joined_lem b c v.0 v.2.0 t in
      rw t (
        HasRoom-merge_from n lo (joined b c) bs (j.0, v.1, subst (λ m. Layout m bs) (sym j.1) v.2.2)
          (ground arith))
  | inr t ↦ rw t (ground (arith, HasRoom-merge_from n (past b) c bs v.2))
]

HasRoom-merge :
    (n : ℕ) (bs : List HeapBlock) → IsHeap bs → HasRoom n bs → HasRoom n (heap_merge_adjacent bs)
unfolding heap_merge_adjacent
HasRoom-merge n [] v r = r
HasRoom-merge n (b ∷ bs) v r = HasRoom-merge_from n 0 b bs v r

pub HasRoom-served :
    (n : ℕ) (bs : List HeapBlock)
    → HasRoom n bs
    → (r : ℕ × List HeapBlock) × (heap_alloc_from_list n bs ≡ some r)
unfolding heap_alloc_from_list
HasRoom-served n [] h = absurd h
HasRoom-served n (b ∷ bs) h = elim (Bool-cases (b.free && leb n b.size)) [
  | inl t ↦ rw t ((payload b, use_block b n bs), refl)
  | inr t ↦ let (r, e) = HasRoom-served n bs (ground arith) in rw (t, e) ((r.0, b ∷ r.1), refl)
]

-- What a successful `heap_grow` did.
pub record Grown (n : ℕ) (old new : Memory) : Type 0 where
  pub sound : IsSound new
  pub in_use : used new.heap ≡ used old.heap
  pub has_room : HasRoom n new.heap
  pub ready : new.table.ready ≡ old.table.ready

pub heap_grow-Grown :
    (n : ℕ) (m m' : Memory)
    → n + 24 + 4095 < word
    → IsSound m
    → heap_grow n m ≡ some m'
    → Grown n m m'
unfolding heap_grow
heap_grow-Grown n m m' h s e = elim (Bool-cases ((alloc_pages (grow_pages n) m.table).0 == 0)) [
  | inl t ↦ absurd (ground arith)
  | inr t ↦
      let (addr, table) = alloc_pages (grow_pages n) m.table in
      let k = alloc_pages-Allocated (grow_pages n) m.table s.ordered (ground arith) in
      let block = grown_block addr (grow_pages n) in
      let g = grown-IsBlock addr n h k.run in
      let o =
        free_IsOutside block m.heap
          (λ a p q. s.apart a ((k.free a).1 (inl (p, omega (arith, g.1))))) in
      let i = insert_merge block m.heap g.0 refl s.layout o in
      let same : record {
        table = table;
        heap = heap_merge_adjacent (heap_insert_block block m.heap);
      }
          ≡ m' =
        ground arith in
      subst (Grown n m) same (record {
        sound = record {
          ordered = k.ordered;
          layout = i.0;
          apart = λ a f c. elim ((i.1 a).0 c) [
            | inl p ↦
                not-IsFree_of_avoids addr (grow_pages n) table.ranges a k.avoids
                  (omega (arith, g.1)) f
            | inr q ↦ s.apart a ((k.free a).1 (inr f)) q
          ];
        };
        in_use = i.2;
        has_room =
            HasRoom-merge n _ (insert-Layout 0 block m.heap (omega arith) g.0 s.layout o)
              (HasRoom-insert n block m.heap refl g.2);
        ready = k.ready;
      })
]
