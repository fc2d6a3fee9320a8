-- ===== src/Memory/Heap/Alloc.antt =====
-- `heap_alloc_from_list` and `heap_free_to_list`.
use funny_os.Common.{
  ℕ, ◌+◌, ◌-◌, ◌%◌, ◌≤◌, ◌<◌, ◌≡◌, ◌≢◌, subst₂, ◌↔◌, true, ◌&&◌, List, [], ◌∷◌, ◌++◌, arith,
  Bool-cases, if◌then◌else◌, leb, inl, inr, some, none, Option-cases, All, add64, sub64,
}
use funny_os.Memory.Heap.{HeapBlock, payload, use_block, heap_alloc_from_list, header_size}
use funny_os.Memory.Heap.Layout.{past, Layout, IsHeap, Covered, used, IsCoalesced, Layout-weaken}
use funny_os.Memory.Pages.Ranges.{max_phys_addr}

-- What a successful allocation of `n` bytes did: one payload more is in use, among the old ones.
pub record Served (lo n ptr : ℕ) (old new : List HeapBlock) : Type 0 where
  pub layout : Layout lo new
  pub covers : (a : ℕ) → Covered a new ↔ Covered a old
  pub size : ℕ
  pub before : List (ℕ × ℕ)
  pub after : List (ℕ × ℕ)
  pub old_use : used old ≡ before ++ after
  pub new_use : used new ≡ before ++ ((ptr, size) ∷ after)
  pub enough : n ≤ size
  pub waste : size < n + 40
  pub nonnull : ptr ≢ 0
  pub below : ptr + size ≤ max_phys_addr

use_block-Layout :
    (lo n : ℕ) (b : HeapBlock) (bs : List HeapBlock)
    → n % 8 ≡ 0
    → n ≤ b.size
    → Layout lo (b ∷ bs)
    → Layout lo (use_block b n bs)
unfolding use_block
use_block-Layout lo n b bs al fits v = ground (
  arith,
  Layout-weaken (past b) (b.addr + 24 + n + 24 + (b.size - n - 24)) bs,
  Layout-weaken (past b) (add64 (payload b) n + 24 + sub64 (sub64 b.size n) header_size) bs,
)

Covered-use_block :
    (lo n : ℕ) (b : HeapBlock) (bs : List HeapBlock) (a : ℕ)
    → n ≤ b.size
    → Layout lo (b ∷ bs)
    → Covered a (use_block b n bs) ↔ Covered a (b ∷ bs)
unfolding use_block
Covered-use_block lo n b bs a fits v = ground arith

-- The size of the payload that `use_block` hands out.
abbrev payload_size : HeapBlock → ℕ → ℕ
payload_size b n = if leb (add64 (add64 n header_size) 16) b.size then n else b.size

used-use_block :
    (lo n : ℕ) (b : HeapBlock) (bs : List HeapBlock)
    → n ≤ b.size
    → Layout lo (b ∷ bs)
    → used (use_block b n bs) ≡ (payload b, payload_size b n) ∷ used bs
unfolding use_block
used-use_block lo n b bs fits v = ground arith

use_block-IsCoalesced :
    (lo n : ℕ) (b : HeapBlock) (bs : List HeapBlock)
    → n ≤ b.size
    → Layout lo (b ∷ bs)
    → b.free ≡ true
    → IsCoalesced (b ∷ bs)
    → IsCoalesced (use_block b n bs)
unfolding use_block
use_block-IsCoalesced lo n b [] fits v f c = ground arith
use_block-IsCoalesced lo n b (d ∷ bs) fits v f c = ground arith

-- Taking a block in front of others, and keeping one in front.
serve_first :
    (lo n : ℕ) (b : HeapBlock) (bs : List HeapBlock)
    → n % 8 ≡ 0
    → Layout lo (b ∷ bs)
    → b.free ≡ true
    → n ≤ b.size
    → Served lo n (payload b) (b ∷ bs) (use_block b n bs)
serve_first lo n b bs al v f fits = record {
  layout = use_block-Layout lo n b bs al fits v;
  covers = λ a. Covered-use_block lo n b bs a fits v;
  size = payload_size b n;
  before = [];
  after = used bs;
  old_use = ground arith;
  new_use = used-use_block lo n b bs fits v;
  enough = ground arith;
  waste = ground arith;
  nonnull = omega arith;
  below = ground arith;
}

serve_later :
    (lo n ptr : ℕ) (b : HeapBlock) (bs rest : List HeapBlock)
    → Layout lo (b ∷ bs)
    → Served (past b) n ptr bs rest
    → Served lo n ptr (b ∷ bs) (b ∷ rest)
serve_later lo n ptr b bs rest v s = record {
  layout = (v.0, v.1, s.layout);
  covers = λ a. ground (arith, s.covers a);
  size = s.size;
  before = if b.free then s.before else (b.addr + 24, b.size) ∷ s.before;
  after = s.after;
  old_use = ground (arith, s.old_use);
  new_use = ground (arith, s.new_use);
  enough = s.enough;
  waste = s.waste;
  nonnull = s.nonnull;
  below = s.below;
}

alloc-Served :
    (lo n : ℕ) (bs : List HeapBlock) (ptr : ℕ) (new : List HeapBlock)
    → n % 8 ≡ 0
    → Layout lo bs
    → heap_alloc_from_list n bs ≡ some (ptr, new)
    → Served lo n ptr bs new
unfolding heap_alloc_from_list
alloc-Served lo n [] ptr new al v e = absurd (cc)
alloc-Served lo n (b ∷ bs) ptr new al v e = elim (Bool-cases (b.free && leb n b.size)) [
  | inl t ↦
      let p : payload b ≡ ptr = ground arith in
      let q : use_block b n bs ≡ new = ground arith in
      subst₂ (λ x y. Served lo n x (b ∷ bs) y) p q
        (serve_first lo n b bs al v (ground arith) (ground arith))
  | inr t ↦ elim (Option-cases (heap_alloc_from_list n bs)) [
    | inl f ↦ absurd (ground arith)
    | inr ((x, rest), f) ↦
        let p : x ≡ ptr = ground arith in
        let q : b ∷ rest ≡ new = ground arith in
        subst₂ (λ x y. Served lo n x (b ∷ bs) y) p q
          (serve_later lo n x b bs rest v (alloc-Served (past b) n bs x rest al v.2 f))
  ]
]

-- A block that `heap_alloc_from_list` hands out gives the caller a payload of at least the bytes
-- asked for, and of less than 40 more, that was free: the other payloads in use stay as they are,
-- the blocks stay apart, and they cover the same memory.
pub heap_alloc-Served :
    (n : ℕ) (bs : List HeapBlock) (ptr : ℕ) (new : List HeapBlock)
    → n % 8 ≡ 0
    → IsHeap bs
    → heap_alloc_from_list n bs ≡ some (ptr, new)
    → Served 0 n ptr bs new
heap_alloc-Served = alloc-Served 0

-- It fails only if every free block is too small.
pub heap_alloc-fails :
    (n : ℕ) (bs : List HeapBlock)
    → heap_alloc_from_list n bs ≡ none
    → All (λ b. b.free ≡ true → b.size < n) bs
unfolding heap_alloc_from_list
heap_alloc-fails n [] e = tt
heap_alloc-fails n (b ∷ bs) e = elim (Bool-cases (b.free && leb n b.size)) [
  | inl t ↦ absurd (ground arith)
  | inr t ↦ elim (Option-cases (heap_alloc_from_list n bs)) [
    | inl f ↦ ((λ g. ground arith), heap_alloc-fails n bs f)
    | inr ((x, rest), f) ↦ absurd (ground arith)
  ]
]
