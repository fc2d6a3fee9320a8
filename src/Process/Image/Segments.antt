-- ===== src/Process/Image/Segments.antt =====
-- The loop over the program headers keeps the extent around every segment.
use funny_os.Common.{
  ℕ, zero, suc, ◌+◌, ◌*◌, ◌/◌, ◌≤◌, ◌<◌, ◌≡◌, refl, sym, ap, subst, ◌∙◌, true, false, arith, inl,
  inr, Bool-cases, word, add64, mul64, align_down-page, align_up-page, align_up,
}
use funny_os.Process.Image.{
  Elf64ProgramHeader, ElfFile, Extent, Checked, refused, passed, nth_segment, is_load, exceeds_file,
  exceeds_region, segment_start, segment_end, extend, scan_segments,
}

-- A segment's bytes are in the file, and its memory lies between two addresses.
pub record Within (file_size lo hi : ℕ) (s : Elf64ProgramHeader) : Type 0 where
  pub in_file : s.offset + s.filesz ≤ file_size
  pub fits : s.filesz ≤ s.memsz
  pub above : lo ≤ s.vaddr
  pub below : s.vaddr + s.memsz ≤ hi

-- Every segment to load, `count` of them from `index` on, lies within.
abbrev pub AllWithin : (count index : ℕ) (e : ElfFile) (file_size lo hi : ℕ) → Type 0
AllWithin zero index e file_size lo hi = Unit
AllWithin (suc count) index e file_size lo hi =
    (is_load (nth_segment e index) ≡ true → Within file_size lo hi (nth_segment e index))
    × AllWithin count (suc index) e file_size lo hi

-- The fields are words of 64 bits.
abbrev pub AreWords : ElfFile → Type 0
AreWords e =
    (at : ℕ)
    → ((e.segment_at at).offset < word)
      × ((e.segment_at at).vaddr < word)
      × ((e.segment_at at).filesz < word)
      × ((e.segment_at at).memsz < word)

scan_skips :
    (count index : ℕ) (e : ElfFile) (file_size : ℕ) (x : Extent)
    → is_load (nth_segment e index) ≡ false
    → scan_segments (suc count) index e file_size x ≡ scan_segments count (suc index) e file_size x
unfolding scan_segments
scan_skips count index e file_size x t = rw t refl

scan_step :
    (count index : ℕ) (e : ElfFile) (file_size : ℕ) (x : Extent)
    → is_load (nth_segment e index) ≡ true
    → exceeds_file file_size (nth_segment e index) ≡ false
    → exceeds_region (nth_segment e index) ≡ false
    → scan_segments (suc count) index e file_size x
      ≡ scan_segments count (suc index) e file_size (extend (nth_segment e index) x)
unfolding scan_segments
scan_step count index e file_size x t u v = rw (t, u, v) refl

scan_takes :
    (count index : ℕ) (e : ElfFile) (file_size : ℕ) (x y : Extent)
    → is_load (nth_segment e index) ≡ true
    → scan_segments (suc count) index e file_size x ≡ passed y
    → (exceeds_file file_size (nth_segment e index) ≡ false)
      × (exceeds_region (nth_segment e index) ≡ false)
      × (scan_segments count (suc index) e file_size (extend (nth_segment e index) x) ≡ passed y)
unfolding scan_segments
scan_takes count index e file_size x y t h =
    elim (Bool-cases (exceeds_file file_size (nth_segment e index))) [
      | inl u ↦ absurd (cc (t, u, h))
      | inr u ↦ elim (Bool-cases (exceeds_region (nth_segment e index))) [
        | inl v ↦ absurd (cc (t, u, v, h))
        | inr v ↦ (u, v, sym (scan_step count index e file_size x t u v) ∙ h)
      ]
    ]

segment-Within :
    (file_size : ℕ) (s : Elf64ProgramHeader) (x : Extent)
    → file_size < word
    → s.offset < word
    → s.vaddr < word
    → s.memsz < word
    → exceeds_file file_size s ≡ false
    → exceeds_region s ≡ false
    → Within file_size (extend s x).image_min (extend s x).image_end s
segment-Within file_size s x small o v m a b =
    let lo : segment_start s ≡ s.vaddr / 4096 * 4096 = align_down-page s.vaddr v in
    let sum : add64 s.vaddr s.memsz ≡ s.vaddr + s.memsz = ground arith in
    let hi : segment_end s ≡ (s.vaddr + s.memsz + 4095) / 4096 * 4096 =
      ap (λ n. align_up n 4096) sum ∙ align_up-page (s.vaddr + s.memsz) (ground arith) in
    record {
      in_file = ground arith;
      fits = ground arith;
      above = ground (arith, lo);
      below = ground (arith, hi);
    }

Within-wider :
    (file_size lo hi lo' hi' : ℕ) (s : Elf64ProgramHeader)
    → lo' ≤ lo
    → hi ≤ hi'
    → Within file_size lo hi s
    → Within file_size lo' hi' s
Within-wider file_size lo hi lo' hi' s l h w = record {
  in_file = w.in_file;
  fits = w.fits;
  above = omega (arith, w.above);
  below = omega (arith, w.below);
}

extend_widens :
    (s : Elf64ProgramHeader) (x : Extent)
    → ((extend s x).image_min ≤ x.image_min) × (x.image_end ≤ (extend s x).image_end)
extend_widens s x = (ground arith, ground arith)

abbrev Widened : Extent → Extent → Type 0
Widened x y = (y.image_min ≤ x.image_min) × (x.image_end ≤ y.image_end) × Unit

abbrev extent_of : Extent → Checked Extent → Extent
extent_of x (refused r) = x
extent_of x (passed y) = y

passed_injective : (x y : Extent) → passed x ≡ passed y → x ≡ y
passed_injective x y e = ap (extent_of x) e

-- The loop only widens the extent, and every segment is within it in the end.
pub scan_segments-AllWithin :
    (count index : ℕ) (e : ElfFile) (file_size : ℕ) (x y : Extent)
    → AreWords e
    → file_size < word
    → scan_segments count index e file_size x ≡ passed y
    → (y.image_min ≤ x.image_min)
      × (x.image_end ≤ y.image_end)
      × AllWithin count index e file_size y.image_min y.image_end
scan_segments-AllWithin zero index e file_size x y words small h =
    unfold scan_segments in
    (subst (Widened x) (passed_injective x y h) (omega arith, omega arith, tt))
scan_segments-AllWithin (suc count) index e file_size x y words small h =
    let s = nth_segment e index in
    elim (Bool-cases (is_load s)) [
      | inr t ↦
          let r =
            scan_segments-AllWithin count (suc index) e file_size x y words small
              (sym (scan_skips count index e file_size x t) ∙ h) in
          (r.0, r.1, (λ u. absurd (cc (t, u)), r.2))
      | inl t ↦
          let g = scan_takes count index e file_size x y t h in
          let r =
            scan_segments-AllWithin count (suc index) e file_size (extend s x) y words small g.2 in
          let wider = extend_widens s x in
          let w = words (add64 e.header.phoff (mul64 index e.header.phentsize)) in
          (
            omega (arith, r.0, wider.0),
            omega (arith, r.1, wider.1),
            (
              λ u.
                  Within-wider file_size _ _ y.image_min y.image_end s r.0 r.1
                    (segment-Within file_size s x small w.0 w.1 w.3 g.0 g.1),
              r.2,
            ),
          )
    ]
