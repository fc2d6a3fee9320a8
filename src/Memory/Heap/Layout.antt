-- ===== src/Memory/Heap/Layout.antt =====
-- The shape of the heap: blocks that rise without overlap, the memory they cover, and the payloads
-- that are in use.
use funny_os.Common.{
  ℕ, ◌+◌, ◌%◌, ◌≤◌, ◌<◌, ◌≡◌, ◌⊎◌, true, false, List, [], ◌∷◌, arith, if◌then◌else◌,
}
use funny_os.Memory.Heap.{HeapBlock, block_end, joins, joined}
use funny_os.Memory.Pages.Ranges.{max_phys_addr}

pub record IsBlock (b : HeapBlock) : Type 0 where
  pub addr_aligned : b.addr % 8 ≡ 0
  pub size_aligned : b.size % 8 ≡ 0
  pub below : b.addr + 24 + b.size ≤ max_phys_addr

-- the address just past a block
abbrev pub past : HeapBlock → ℕ
past b = b.addr + 24 + b.size

abbrev pub Layout : ℕ → List HeapBlock → Type 0
Layout lo [] = Unit {0}
Layout lo (b ∷ bs) = IsBlock b × (lo ≤ b.addr) × Layout (past b) bs

abbrev pub IsHeap : List HeapBlock → Type 0
IsHeap bs = Layout 0 bs

-- An address lies in some block, header or payload.
abbrev pub Covered : ℕ → List HeapBlock → Type 0
Covered a [] = ⊥
Covered a (b ∷ bs) = ((b.addr ≤ a) × (a < past b)) ⊎ Covered a bs

-- The payloads in use, by address and size.
abbrev pub used : List HeapBlock → List (ℕ × ℕ)
used [] = []
used (b ∷ bs) = if b.free then used bs else (b.addr + 24, b.size) ∷ used bs

-- No free block ends where the next block begins and is free too.
abbrev pub IsCoalesced : List HeapBlock → Type 0
IsCoalesced [] = Unit {0}
IsCoalesced (b ∷ []) = Unit {0}
IsCoalesced (b ∷ c ∷ bs) = (joins b c ≡ false) × IsCoalesced (c ∷ bs)

pub Layout-weaken : (m lo : ℕ) (bs : List HeapBlock) → lo ≤ m → Layout m bs → Layout lo bs
Layout-weaken m lo [] h v = tt
Layout-weaken m lo (b ∷ bs) h v = (v.0, omega arith, v.2)

pub block_end_lem : (b : HeapBlock) → IsBlock b → block_end b ≡ past b
block_end_lem b v = omega arith

-- Two blocks that join make one block over both.
pub joined_lem :
    (b c : HeapBlock)
    → IsBlock b
    → IsBlock c
    → joins b c ≡ true
    → IsBlock (joined b c)
      × (past (joined b c) ≡ past c)
      × (c.addr ≡ past b)
      × (b.free ≡ true)
      × (c.free ≡ true)
joined_lem b c v w t = ground arith
