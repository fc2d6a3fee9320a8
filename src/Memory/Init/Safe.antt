-- ===== src/Memory/Init/Safe.antt =====
-- What `memory_init` leaves free.
use funny_os.Common.{
  ℕ, suc, ◌+◌, ◌*◌, ◌≤◌, ◌<◌, ◌≡◌, ◌≢◌, refl, sym, subst, ◌⊎◌, inl, inr, Bool, true, false, [],
  none, some, arith, All, Bool-cases, add64, word,
}
use funny_os.BootInfo.{BootInfo}
use funny_os.Memory.Pages.{PageTable, reserve_range}
use funny_os.Memory.Pages.Ranges.{IsRange, IsFree}
use funny_os.Memory.Pages.Reserve.{reserve_range-Reserved}
use funny_os.Memory.Heap.{Memory}
use funny_os.Memory.Init.{
  EfiMemoryDescriptor, Scan, scan, reserve, and_then, reserve_framebuffer, reserve_all, finish,
  memory_init, empty_table, has_memory_map, has_framebuffer, framebuffer_end,
  memory_reserved_low_end, process_abi_region_start, process_abi_region_end,
}
use funny_os.Memory.Init.Descriptors.{IsConventional, scan-Backed, scan-ends}

and_then-true :
    (r : Bool × PageTable) (k : PageTable → Bool × PageTable) (t' : PageTable)
    → and_then r k ≡ (true, t')
    → (t : PageTable) × (r ≡ (true, t)) × (k t ≡ (true, t'))
and_then-true (false, t) k t' e = absurd (ground arith)
and_then-true (true, t) k t' e = (t, refl, e)

-- The ranges stay valid, the addresses of a request are gone, and none is added.
abbrev Loses : ℕ → ℕ → PageTable → PageTable → Type 0
Loses start end t t' =
    All IsRange t'.ranges
    × ((a : ℕ) → IsFree a t'.ranges → ((a < start) ⊎ (end ≤ a)) × IsFree a t.ranges)

reserve-Loses :
    (start end : ℕ) (t t' : PageTable)
    → start < word
    → end + 4095 < word
    → All IsRange t.ranges
    → reserve start end t ≡ (true, t')
    → Loses start end t t'
unfolding reserve
reserve-Loses start end t t' hs he v e =
    let ok : (reserve_range start end t.ranges).0 ≡ true = ground arith in
    let r = reserve_range-Reserved start end t.ranges hs he v ok in
    let same : (reserve_range start end t.ranges).1 ≡ t'.ranges = ground arith in
    subst
      (λ rs.
        All IsRange rs × ((a : ℕ) → IsFree a rs → ((a < start) ⊎ (end ≤ a)) × IsFree a t.ranges))
      same (r.valid, λ a f. (r.gone a f, r.only a f))

-- The stretches that `memory_init` keeps out of the free pages.
pub record IsUsable (image_start image_end : ℕ) (b : BootInfo) (a : ℕ) : Type 0 where
  pub above_low : memory_reserved_low_end ≤ a
  pub not_image : (a < image_start) ⊎ (image_end ≤ a)
  pub not_process : (a < process_abi_region_start) ⊎ (process_abi_region_end ≤ a)
  pub not_framebuffer :
      has_framebuffer b ≡ true → (a < b.framebuffer_base) ⊎ (framebuffer_end b ≤ a)

framebuffer-Loses :
    (b : BootInfo) (t t' : PageTable)
    → b.framebuffer_base < word
    → framebuffer_end b + 4095 < word
    → All IsRange t.ranges
    → reserve_framebuffer b t ≡ (true, t')
    → All IsRange t'.ranges
      × ((a : ℕ)
          → IsFree a t'.ranges
          → (has_framebuffer b ≡ true → (a < b.framebuffer_base) ⊎ (framebuffer_end b ≤ a))
            × IsFree a t.ranges)
unfolding reserve_framebuffer
framebuffer-Loses b t t' hs he v e = elim (Bool-cases (has_framebuffer b)) [
  | inl fb ↦
      let l = reserve-Loses b.framebuffer_base (framebuffer_end b) t t' hs he v (ground arith) in
      (l.0, λ a f. ((λ _. (l.1 a f).0), (l.1 a f).1))
  | inr fb ↦
      let same : t ≡ t' = ground arith in
      subst
        (λ u.
          All IsRange u.ranges
          × ((a : ℕ)
              → IsFree a u.ranges
              → (has_framebuffer b ≡ true → (a < b.framebuffer_base) ⊎ (framebuffer_end b ≤ a))
                × IsFree a t.ranges))
        same (v, λ a f. ((λ h. absurd (ground arith)), f))
]

Scan-cases :
    (s : Scan)
    → (s ≡ Scan.out_of_fuel)
      ⊎ ((t : PageTable) × (s ≡ Scan.failed t))
      ⊎ ((t : PageTable) × (s ≡ Scan.done t))
Scan-cases (Scan.done t) = inr (inr (t, refl))
Scan-cases (Scan.failed t) = inr (inl (t, refl))
Scan-cases Scan.out_of_fuel = inl refl

finish-true :
    (r : Bool × PageTable) (m' : Memory)
    → finish r ≡ (true, m')
    → (t : PageTable) × (r ≡ (true, t))
      × (m'.table.ranges ≡ t.ranges)
      × (m'.table.ready ≡ true)
      × (m'.heap ≡ [])
finish-true (false, t) m' e = absurd (ground arith)
finish-true (true, t) m' e = (t, refl, ground arith, ground arith, ground arith)

-- A successful `memory_init` has scanned the whole map and made every reservation.
memory_init-true :
    (image_start image_end : ℕ) (b : BootInfo) (descriptor : ℕ → EfiMemoryDescriptor) (fuel : ℕ)
    (m m' : Memory)
    → memory_init descriptor image_start image_end fuel (some b) m ≡ some (true, m')
    → let map = b.memory_map in
      (t : PageTable) × (scan descriptor fuel map.base
          (add64 map.base map.size)
          map.descriptor_size
          empty_table
        ≡ Scan.done t)
      × (finish (reserve_all image_start image_end b t) ≡ (true, m'))
unfolding memory_init
memory_init-true image_start image_end b descriptor fuel m m' e =
    elim (Bool-cases (has_memory_map b.memory_map)) [
      | inr t ↦ absurd (ground arith)
      | inl t ↦
          elim (Scan-cases (
            scan descriptor fuel b.memory_map.base (add64 b.memory_map.base b.memory_map.size)
              b.memory_map.descriptor_size empty_table)) [
                | inl s ↦ absurd (ground arith)
                | inr (inl (u, s)) ↦ absurd (ground arith)
                | inr (inr (u, s)) ↦ (u, s, ground arith)
              ]
    ]

module _ (image_start image_end : ℕ) (b : BootInfo) where
  reserve_all-IsUsable :
      (t t' : PageTable)
      → image_start < word
      → image_end + 4095 < word
      → b.framebuffer_base < word
      → framebuffer_end b + 4095 < word
      → All IsRange t.ranges
      → reserve_all image_start image_end b t ≡ (true, t')
      → All IsRange t'.ranges
        × ((a : ℕ) → IsFree a t'.ranges → IsUsable image_start image_end b a × IsFree a t.ranges)
  unfolding reserve_all
  reserve_all-IsUsable t t' hs he fs fe v e =
      let (t1, e1, k1) = and_then-true (reserve 0 memory_reserved_low_end t) _ t' e in
      let l1 = reserve-Loses 0 memory_reserved_low_end t t1 (omega arith) (omega arith) v e1 in
      let (t2, e2, k2) = and_then-true (reserve image_start image_end t1) _ t' k1 in
      let l2 = reserve-Loses image_start image_end t1 t2 hs he l1.0 e2 in
      let (t3, e3, k3) =
        and_then-true (reserve process_abi_region_start process_abi_region_end t2) _ t' k2 in
      let l3 =
        reserve-Loses process_abi_region_start process_abi_region_end t2 t3 (omega arith)
          (omega arith) l2.0 e3 in
      let l4 = framebuffer-Loses b t3 t' fs fe l3.0 k3 in
      (
        l4.0,
        λ a f.
            let f3 = l4.1 a f in
            let f2 = l3.1 a f3.1 in
            let f1 = l2.1 a f2.1 in
            let f0 = l1.1 a f1.1 in
            (
              record {
                above_low = omega (arith, f0.0);
                not_image = f1.0;
                not_process = f2.0;
                not_framebuffer = f3.0;
              },
              f0.1,
            ),
      )

  -- If `memory_init` returns true, every free address is conventional memory of an entry inside the
  -- firmware's map, below 4 GiB, and lies outside the low megabyte, the kernel image, the program
  -- region and the framebuffer. The map's entries may overlap. The map ends at least one descriptor
  -- below the top of the address space; the ends of the image and of the framebuffer, rounded up to
  -- a page, must not wrap.
  pub memory_init-IsUsable :
      (descriptor : ℕ → EfiMemoryDescriptor) (fuel : ℕ) (m m' : Memory)
      → b.memory_map.base + b.memory_map.size + b.memory_map.descriptor_size < word
      → image_start < word
      → image_end + 4095 < word
      → b.framebuffer_base < word
      → framebuffer_end b + 4095 < word
      → memory_init descriptor image_start image_end fuel (some b) m ≡ some (true, m')
      → All IsRange m'.table.ranges
        × (m'.table.ready ≡ true)
        × ((a : ℕ)
            → IsFree a m'.table.ranges
            → IsUsable image_start image_end b a × IsConventional descriptor b.memory_map a)
  memory_init-IsUsable descriptor fuel m m' hm hs he fs fe e =
      let (t, scanned, finished) =
        memory_init-true image_start image_end b descriptor fuel m m' e in
      let (u, reserved, same, ready, heap) =
        finish-true (reserve_all image_start image_end b t) m' finished in
      let start : b.memory_map.base ≡ b.memory_map.base + 0 * b.memory_map.descriptor_size =
        omega arith in
      let v =
        scan-Backed descriptor b.memory_map fuel 0 empty_table t hm (omega arith)
          (tt, λ a f. absurd f)
          (subst
            (λ c.
              scan descriptor fuel c (add64 b.memory_map.base b.memory_map.size)
                b.memory_map.descriptor_size empty_table
              ≡ Scan.done t)
            start scanned) in
      let w = reserve_all-IsUsable t u hs he fs fe v.0 reserved in
      (
        subst (All IsRange) (sym same) w.0,
        ready,
        λ a f. let g = w.1 a (subst (IsFree a) same f) in (g.0, v.1 a g.1),
      )

-- With one more round than the map has bytes, `memory_init` returns a result, if the map ends at
-- least one descriptor below the top of the address space.
pub memory_init-ends :
    (image_start image_end : ℕ) (b : BootInfo) (descriptor : ℕ → EfiMemoryDescriptor) (m : Memory)
    → b.memory_map.base + b.memory_map.size + b.memory_map.descriptor_size < word
    → memory_init descriptor image_start image_end (suc b.memory_map.size) (some b) m ≢ none
unfolding memory_init
memory_init-ends image_start image_end b descriptor m h e =
    elim (Bool-cases (has_memory_map b.memory_map)) [
      | inr t ↦ absurd (ground arith)
      | inl t ↦
          elim (Scan-cases (
            scan descriptor (suc b.memory_map.size) b.memory_map.base
              (add64 b.memory_map.base b.memory_map.size) b.memory_map.descriptor_size
              empty_table)) [
                | inl s ↦
                    scan-ends descriptor b.memory_map.size b.memory_map.base _
                      b.memory_map.descriptor_size empty_table (ground arith) (omega arith)
                      (omega arith) (omega arith) s
                | inr (inl (u, s)) ↦ absurd (ground arith)
                | inr (inr (u, s)) ↦ absurd (ground arith)
              ]
    ]
