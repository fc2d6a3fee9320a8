-- ===== src/Memory/Heap/Kmalloc.antt =====
-- `kmalloc`.
use funny_os.Common.{
  ℕ, suc, ◌+◌, ◌-◌, ◌≤◌, ◌<◌, ◌≡◌, refl, sym, subst, ◌∙◌, ◌≢◌, ◌⊎◌, inl, inr, true, false, not,
  ◌||◌, Option, none, some, List, [], ◌∷◌, ◌++◌, arith, ◌==◌, Bool-cases, Option-cases, All, word,
  align_up, align_up-heap, align_up-heap_wraps,
}
use funny_os.Memory.Heap.{
  heap_alignment, HeapBlock, Memory, payload, use_block, heap_alloc_from_list, heap_grow, kmalloc,
}
use funny_os.Memory.Heap.Layout.{IsHeap, used}
use funny_os.Memory.Heap.Alloc.{Served, heap_alloc-Served}
use funny_os.Memory.Heap.Grow.{IsSound, HasRoom-served, heap_grow-Grown}

-- What `kmalloc` of `size` bytes returns: NULL with the payloads in use as they were, or a payload
-- of at least `size` bytes that was not in use.
abbrev pub Serves : ℕ → List HeapBlock → ℕ → List HeapBlock → Type 0
Serves size old ptr new =
    ((ptr ≡ 0) × (used new ≡ used old))
    ⊎ ((actual : ℕ) × (before : List (ℕ × ℕ)) × (after : List (ℕ × ℕ)) × (ptr ≢ 0)
        × (size ≤ actual)
        × (used old ≡ before ++ after)
        × (used new ≡ before ++ ((ptr, actual) ∷ after)))

abbrev pub Answers : ℕ → Memory → Option (ℕ × Memory) → Type 0
Answers size m r =
    (ptr : ℕ) × (m' : Memory) × (r ≡ some (ptr, m')) × IsSound m' × Serves size m.heap ptr m'.heap

IsSound-Served :
    (m : Memory) (n ptr : ℕ) (heap : List HeapBlock)
    → IsSound m
    → Served 0 n ptr m.heap heap
    → IsSound (record m { heap = heap })
IsSound-Served m n ptr heap s v = record {
  ordered = s.ordered;
  layout = v.layout;
  apart = λ a f c. s.apart a f ((v.covers a).0 c);
}

kmalloc_hit :
    (fuel size : ℕ) (m : Memory) (r : ℕ × List HeapBlock)
    → size + 4200 ≤ word
    → IsSound m
    → (not m.table.ready || size == 0) ≡ false
    → heap_alloc_from_list (align_up size heap_alignment) m.heap ≡ some r
    → Answers size m (kmalloc (suc fuel) size m)
unfolding kmalloc
kmalloc_hit fuel size m (ptr, heap) h s live e =
    let a = align_up-heap size (omega arith) in
    let v = heap_alloc-Served (align_up size 16) m.heap ptr heap (omega (arith, a)) s.layout e in
    (
      ptr,
      record m { heap = heap },
      rw (live, e),
      IsSound-Served m (align_up size 16) ptr heap s v,
      inr (v.size, v.before, v.after, v.nonnull, omega (arith, a, v.enough), v.old_use, v.new_use),
    )

kmalloc_step :
    (fuel size : ℕ) (m m' : Memory)
    → (not m.table.ready || size == 0) ≡ false
    → heap_alloc_from_list (align_up size heap_alignment) m.heap ≡ none
    → heap_grow (align_up size heap_alignment) m ≡ some m'
    → kmalloc (suc fuel) size m ≡ kmalloc fuel size m'
unfolding kmalloc
kmalloc_step fuel size m m' t e f = rw (t, e, f)

kmalloc_null :
    (fuel size : ℕ) (m : Memory)
    → IsSound m
    → kmalloc (suc fuel) size m ≡ some (0, m)
    → Answers size m (kmalloc (suc fuel) size m)
kmalloc_null fuel size m s e = (0, m, e, s, inl (refl, refl))

Serves-old :
    (size : ℕ) (old old' : List HeapBlock) (ptr : ℕ) (new : List HeapBlock)
    → used old' ≡ used old
    → Serves size old' ptr new
    → Serves size old ptr new
Serves-old size old old' ptr new e (inl (z, u)) = inl (z, u ∙ e)
Serves-old size old old' ptr new e (inr (n, xs, ys, nz, le, p, q)) =
    inr (n, xs, ys, nz, le, sym e ∙ p, q)

kmalloc_retry :
    (fuel size : ℕ) (m m' : Memory)
    → size + 4200 ≤ word
    → IsSound m
    → (not m.table.ready || size == 0) ≡ false
    → heap_grow (align_up size heap_alignment) m ≡ some m'
    → Answers size m (kmalloc (suc fuel) size m')
kmalloc_retry fuel size m m' h s live f =
    let n = align_up size heap_alignment in
    let g = heap_grow-Grown n m m' (omega (arith, align_up-heap size (omega arith))) s f in
    let (r, e) = HasRoom-served n m'.heap g.has_room in
    let live' : (not m'.table.ready || size == 0) ≡ false = rw g.ready live in
    let (ptr, m'', e', s', v) = kmalloc_hit fuel size m' r h g.sound live' e in
    (ptr, m'', e', s', Serves-old size m.heap m'.heap ptr m''.heap g.in_use v)

-- `kmalloc` keeps the page table and the heap sound and apart. It returns NULL and leaves the
-- payloads in use, or a payload of at least the bytes asked for that was not in use; no other
-- payload changes. Two calls suffice: the second, after `heap_grow`, finds room.
pub kmalloc-Answers :
    (fuel size : ℕ) (m : Memory)
    → size + 4200 ≤ word
    → IsSound m
    → Answers size m (kmalloc (suc (suc fuel)) size m)
kmalloc-Answers fuel size m h s = elim (Bool-cases (not m.table.ready || size == 0)) [
  | inl t ↦ kmalloc_null (suc fuel) size m s (unfold kmalloc in rw t)
  | inr t ↦ elim (Option-cases (heap_alloc_from_list (align_up size heap_alignment) m.heap)) [
    | inr (r, e) ↦ kmalloc_hit (suc fuel) size m r h s t e
    | inl e ↦ elim (Option-cases (heap_grow (align_up size heap_alignment) m)) [
      | inl f ↦ kmalloc_null (suc fuel) size m s (unfold kmalloc in rw (t, e, f))
      | inr (m', f) ↦
          subst (Answers size m) (sym (kmalloc_step (suc fuel) size m m' t e f))
            (kmalloc_retry fuel size m m' h s t f)
    ]
  ]
]

-- Every block is large enough for a request of 0 bytes.
heap_alloc_zero :
    (before after : List HeapBlock) (b : HeapBlock)
    → All (λ c. c.free ≡ false) before
    → b.free ≡ true
    → heap_alloc_from_list 0 (before ++ (b ∷ after))
      ≡ some (payload b, before ++ use_block b 0 after)
unfolding heap_alloc_from_list
heap_alloc_zero [] after b busy f = ground arith
heap_alloc_zero (c ∷ before) after b busy f =
    ground (arith, heap_alloc_zero before after b busy.1 f, busy.0)

-- A request of more than 2^64 - 16 bytes is rounded up to 0 bytes: on a sound heap with a free block
-- `kmalloc` answers it with the payload of the first one, of which fewer than 40 bytes are handed
-- out.
pub kmalloc_wraps :
    (fuel size : ℕ) (m : Memory) (before after : List HeapBlock) (b : HeapBlock)
    → word - 16 < size
    → size < word
    → m.table.ready ≡ true
    → IsHeap m.heap
    → m.heap ≡ before ++ (b ∷ after)
    → All (λ c. c.free ≡ false) before
    → b.free ≡ true
    → (heap : List HeapBlock) × (align_up size heap_alignment ≡ 0)
      × (kmalloc (suc fuel) size m ≡ some (payload b, record m { heap = heap }))
      × Served 0 0 (payload b) m.heap heap
unfolding kmalloc
kmalloc_wraps fuel size m before after b lo hi ready v e busy f =
    let z : align_up size 16 ≡ 0 = align_up-heap_wraps size (omega arith) hi in
    let live : (not m.table.ready || size == 0) ≡ false = ground arith in
    let a : heap_alloc_from_list 0 m.heap ≡ some (payload b, before ++ use_block b 0 after) =
      rw e (heap_alloc_zero before after b busy f) in
    (
      before ++ use_block b 0 after,
      z,
      rw (live, z, a),
      heap_alloc-Served 0 m.heap (payload b) (before ++ use_block b 0 after) (omega arith) v a,
    )
