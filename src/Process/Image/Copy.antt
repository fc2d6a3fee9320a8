-- ===== src/Process/Image/Copy.antt =====
-- Copying the segments of an accepted file.
use funny_os.Common.{
  ℕ, zero, suc, ◌+◌, ◌≤◌, ◌<◌, ◌≡◌, refl, ◌∙◌, true, false, List, [], ◌∷◌, arith, inl, inr,
  Bool-cases, word, All,
}
use funny_os.Process.Image.{
  Elf64ProgramHeader, ElfFile, ImageLayout, passed, nth_segment, is_load, exceeds_file,
  configure_image_layout, Write, zeroes, copies, copy_from, copy_image_segments,
}
use funny_os.Process.Image.Segments.{Within, AllWithin, AreWords}
use funny_os.Process.Image.Layout.{configure_image_layout-LaidOut}

-- A write that stays between two addresses, and reads the file inside its size only.
abbrev pub Stays : (file_size lo hi : ℕ) → Write → Type 0
Stays file_size lo hi (zeroes addr size) = (lo ≤ addr) × (addr + size ≤ hi)
Stays file_size lo hi (copies addr offset size) =
    (lo ≤ addr) × (addr + size ≤ hi) × (offset + size ≤ file_size)

copy_skips :
    (count index : ℕ) (e : ElfFile) (file_size : ℕ)
    → is_load (nth_segment e index) ≡ false
    → copy_from (suc count) index e file_size ≡ copy_from count (suc index) e file_size
unfolding copy_from
copy_skips count index e file_size t = rw t refl

copy_takes :
    (count index : ℕ) (e : ElfFile) (file_size : ℕ) (ws : List Write)
    → is_load (nth_segment e index) ≡ true
    → exceeds_file file_size (nth_segment e index) ≡ false
    → copy_from count (suc index) e file_size ≡ passed ws
    → copy_from (suc count) index e file_size
      ≡ passed (
          zeroes (nth_segment e index).vaddr (nth_segment e index).memsz
          ∷ copies
              (nth_segment e index).vaddr
              (nth_segment e index).offset
              (nth_segment e index).filesz
          ∷ ws)
unfolding copy_from
copy_takes count index e file_size ws t u h = rw (t, u, h) refl

in_file_lem :
    (file_size lo hi : ℕ) (s : Elf64ProgramHeader)
    → file_size < word
    → Within file_size lo hi s
    → exceeds_file file_size s ≡ false
in_file_lem file_size lo hi s small w = ground (arith, w.in_file, w.fits)

copy_from-Stays :
    (count index : ℕ) (e : ElfFile) (file_size lo hi : ℕ)
    → file_size < word
    → AllWithin count index e file_size lo hi
    → (ws : List Write) × (copy_from count index e file_size ≡ passed ws)
      × All (Stays file_size lo hi) ws
copy_from-Stays zero index e file_size lo hi small v = unfold copy_from in ([], refl, tt)
copy_from-Stays (suc count) index e file_size lo hi small v =
    let (ws, h, a) = copy_from-Stays count (suc index) e file_size lo hi small v.1 in
    elim (Bool-cases (is_load (nth_segment e index))) [
      | inr t ↦ (ws, copy_skips count index e file_size t ∙ h, a)
      | inl t ↦
          let w = v.0 t in
          let s = nth_segment e index in
          (
            zeroes s.vaddr s.memsz ∷ copies s.vaddr s.offset s.filesz ∷ ws,
            copy_takes count index e file_size ws t (in_file_lem file_size lo hi s small w) h,
            ((w.above, w.below), ((w.above, omega (arith, w.below, w.fits), w.in_file), a)),
          )
    ]

-- If the layout of an ELF file is accepted, copying its segments succeeds, writes only inside the
-- image and reads only inside the file.
pub copy_image_segments-Stays :
    (kernel_image_end : ℕ) (e : ElfFile) (file_size : ℕ) (l : ImageLayout)
    → AreWords e
    → file_size < word
    → configure_image_layout kernel_image_end e file_size ≡ passed l
    → (ws : List Write) × (copy_image_segments l e file_size ≡ passed ws)
      × All (Stays file_size l.image_base (l.image_base + l.image_capacity)) ws
unfolding copy_image_segments
copy_image_segments-Stays kernel_image_end e file_size l words small h =
    let v = configure_image_layout-LaidOut kernel_image_end e file_size l words small h in
    let (ws, c, a) =
      copy_from-Stays e.header.phnum 0 e file_size l.image_base (l.image_base + l.image_capacity)
        small v.segments in
    (zeroes l.image_base l.image_capacity ∷ ws, rw c refl, ((omega arith, omega arith), a))
