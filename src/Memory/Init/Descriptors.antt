-- ===== src/Memory/Init/Descriptors.antt =====
-- The loop of `memory_init` over the firmware's memory map.
use funny_os.Common.{
  ℕ, zero, suc, ◌+◌, ◌*◌, ◌/◌, ◌%◌, ◌≤◌, ◌<◌, ◌≡◌, subst, ◌≢◌, ◌⊎◌, inl, inr, false, not, ◌||◌,
  some, map, arith, ltb, leb, ◌==◌, Bool-cases, Option-cases, All, word, add64, sub64, mul64,
  align_up, align_down-page, align_up-page,
}
use funny_os.BootInfo.{BootMemoryMap}
use funny_os.Memory.Pages.{page_size, PageTable, append_free_range}
use funny_os.Memory.Pages.Ranges.{IsRun, IsRange, IsFree}
use funny_os.Memory.Pages.Loose.{append_free_range-Within}
use funny_os.Memory.Init.{
  memory_max_phys_addr, EfiMemoryDescriptor, clip, add_descriptor_range, add_descriptor, Scan, scan,
}

clip_lem :
    (end : ℕ)
    → end < word
    → (clip end % 4096 ≡ 0) × (clip end ≤ end) × (clip end ≤ memory_max_phys_addr)
clip_lem end h = elim (Bool-cases (ltb memory_max_phys_addr end)) [
  | inl t ↦ rw t (ground (arith, align_down-page memory_max_phys_addr (omega arith)))
  | inr t ↦ rw t (ground (arith, align_down-page end h))
]

-- Only addresses between two bounds become free, and the ranges stay valid.
abbrev Gains : ℕ → ℕ → PageTable → PageTable → Type 0
Gains start end t t' =
    All IsRange t'.ranges
    × ((a : ℕ) → IsFree a t'.ranges → ((start ≤ a) × (a < end)) ⊎ IsFree a t.ranges)

Gains-same :
    (start end : ℕ) (t t' : PageTable) → All IsRange t.ranges → t ≡ t' → Gains start end t t'
Gains-same start end t t' v e = subst (Gains start end t) e (v, λ a f. inr f)

add_clipped :
    (start end : ℕ) (t t' : PageTable)
    → end < word
    → All IsRange t.ranges
    → leb memory_max_phys_addr start ≡ false
    → leb (clip end) (align_up start page_size) ≡ false
    → add_descriptor_range start end t ≡ some t'
    → Gains start end t t'
unfolding add_descriptor_range
add_clipped start end t t' h v low large e =
    let from = align_up start page_size in
    let n = sub64 (clip end) from / page_size in
    let up = align_up-page start (ground arith) in
    let down = clip_lem end h in
    let run : IsRun from n = record {
      aligned = omega (arith, up);
      nonempty = ground (arith, up, down);
      below = ground (arith, up, down);
    } in
    elim (Option-cases (append_free_range from n t.ranges)) [
      | inl f ↦ absurd (ground arith)
      | inr (new, f) ↦
          let w = append_free_range-Within from n t.ranges new run v f in
          let same : new ≡ t'.ranges = ground arith in
          subst
            (λ rs.
              All IsRange rs
              × ((a : ℕ) → IsFree a rs → ((start ≤ a) × (a < end)) ⊎ IsFree a t.ranges))
            same (w.0, λ a g. ground (arith, w.1 a g, up, down, large))
    ]

add_descriptor_range-Gains :
    (start end : ℕ) (t t' : PageTable)
    → end < word
    → All IsRange t.ranges
    → add_descriptor_range start end t ≡ some t'
    → Gains start end t t'
add_descriptor_range-Gains start end t t' h v e =
    elim (Bool-cases (leb memory_max_phys_addr start)) [
      | inl high ↦ Gains-same start end t t' v (unfold add_descriptor_range in ground arith)
      | inr low ↦ elim (Bool-cases (leb (clip end) (align_up start page_size))) [
        | inl small ↦ Gains-same start end t t' v (unfold add_descriptor_range in ground arith)
        | inr large ↦ add_clipped start end t t' h v low large e
      ]
    ]

-- The end of a descriptor's memory, as the code computes it.
abbrev pub descriptor_end : EfiMemoryDescriptor → ℕ
descriptor_end d = add64 d.physical_start (mul64 d.number_of_pages page_size)

-- An address of the memory that an entry of the map, the one at index `i`, calls conventional. The
-- entry lies within the map.
abbrev pub IsConventional : (ℕ → EfiMemoryDescriptor) → BootMemoryMap → ℕ → Type 0
IsConventional descriptor map a =
    (i : ℕ) × (i * map.descriptor_size + map.descriptor_size ≤ map.size)
    × ((descriptor (map.base + i * map.descriptor_size)).type ≡ 7)
    × ((descriptor (map.base + i * map.descriptor_size)).physical_start ≤ a)
    × (a < descriptor_end (descriptor (map.base + i * map.descriptor_size)))

module _ (descriptor : ℕ → EfiMemoryDescriptor) where
  module _ (map : BootMemoryMap) where
    abbrev pub Backed : PageTable → Type 0
    Backed t =
        All IsRange t.ranges × ((a : ℕ) → IsFree a t.ranges → IsConventional descriptor map a)

    add_descriptor-Backed :
        (i : ℕ) (t t' : PageTable)
        → i * map.descriptor_size + map.descriptor_size ≤ map.size
        → Backed t
        → add_descriptor (descriptor (map.base + i * map.descriptor_size)) t ≡ some t'
        → Backed t'
    unfolding add_descriptor
    add_descriptor-Backed i t t' within v e =
        let d = descriptor (map.base + i * map.descriptor_size) in
        elim (Bool-cases (not (d.type == 7) || d.number_of_pages == 0)) [
          | inl skip ↦ let same : t ≡ t' = ground arith in subst Backed same v
          | inr taken ↦
              let e' : add_descriptor_range d.physical_start (descriptor_end d) t ≡ some t' =
                ground arith in
              let g = add_descriptor_range-Gains _ _ t t' (omega arith) v.0 e' in
              (
                g.0,
                λ a f. elim (g.1 a f) [
                  | inl k ↦ (i, within, ground arith, k.0, k.1)
                  | inr k ↦ v.1 a k
                ],
              )
        ]

    -- The loop at the entry of index `i`.
    pub scan-Backed :
        (fuel i : ℕ) (t t' : PageTable)
        → map.base + map.size + map.descriptor_size < word
        → i * map.descriptor_size ≤ map.size
        → Backed t
        → scan descriptor fuel
            (map.base + i * map.descriptor_size)
            (add64 map.base map.size)
            map.descriptor_size
            t
          ≡ Scan.done t'
        → Backed t'
    unfolding scan
    scan-Backed zero i t t' nowrap h v e = absurd (cc)
    scan-Backed (suc fuel) i t t' nowrap h v e =
        let cursor = map.base + i * map.descriptor_size in
        elim (Bool-cases (leb (add64 cursor map.descriptor_size) (add64 map.base map.size))) [
          | inl more ↦ elim (Option-cases (add_descriptor (descriptor cursor) t)) [
            | inl f ↦ absurd (ground arith)
            | inr (u, f) ↦
                let within : i * map.descriptor_size + map.descriptor_size ≤ map.size =
                  ground arith in
                let next : add64 cursor map.descriptor_size
                    ≡ map.base + suc i * map.descriptor_size =
                  omega arith in
                let e' : scan descriptor fuel (add64 cursor map.descriptor_size)
                      (add64 map.base map.size) map.descriptor_size u
                    ≡ Scan.done t' =
                  ground arith in
                scan-Backed fuel (suc i) u t' nowrap (omega (arith, within))
                  (add_descriptor-Backed i t u within v f) (rw next at e')
          ]
          | inr last ↦ let same : t ≡ t' = ground arith in subst Backed same v
        ]

  -- The loop ends within as many rounds as the map has bytes, plus one.
  pub scan-ends :
      (fuel cursor limit stride : ℕ) (t : PageTable)
      → 0 < stride
      → limit + stride < word
      → cursor ≤ limit
      → limit ≤ cursor + fuel
      → scan descriptor (suc fuel) cursor limit stride t ≢ Scan.out_of_fuel
  unfolding scan
  scan-ends zero cursor limit stride t pos nowrap below h e = ground arith
  scan-ends (suc fuel) cursor limit stride t pos nowrap below h e =
      elim (Bool-cases (leb (add64 cursor stride) limit)) [
        | inl more ↦ elim (Option-cases (add_descriptor (descriptor cursor) t)) [
          | inl f ↦ absurd (ground arith)
          | inr (u, f) ↦
              scan-ends fuel (add64 cursor stride) limit stride u pos nowrap (ground arith)
                (ground arith) (ground arith)
        ]
        | inr last ↦ absurd (ground arith)
      ]
