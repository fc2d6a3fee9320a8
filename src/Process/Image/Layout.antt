-- ===== src/Process/Image/Layout.antt =====
-- A layout that is accepted keeps the program in the region for images, and its copy too.
use funny_os.Common.{
  ℕ, ◌+◌, ◌*◌, ◌≤◌, ◌<◌, ◌≡◌, refl, sym, ap, subst, true, false, not, ◌||◌, arith, leb, ltb, word,
  if◌then◌else◌, sub64, add64, Bool,
}
use funny_os.Process.Image.{
  ElfFile, Extent, ImageLayout, Checked, refused, passed, Refusal, scan_segments, region_start,
  image_limit, abi_stack_base, stack_gap, bad_header, check_extent, checked_extent, layout_of,
  configure_image_layout,
}
use funny_os.Process.Image.Segments.{AllWithin, AreWords, scan_segments-AllWithin}

-- The image lies in its region, above the kernel and a gap below the stack; the entry point and
-- every segment lie in it, and its pages are enough.
pub record LaidOut (kernel_image_end : ℕ) (e : ElfFile) (file_size : ℕ) (l : ImageLayout)
    : Type 0 where
  pub starts : region_start ≤ l.image_base
  pub above_kernel : kernel_image_end ≤ l.image_base
  pub ends : l.image_base + l.image_capacity + stack_gap ≤ abi_stack_base
  pub entry_above : l.image_base ≤ l.entry_point
  pub entry_below : l.entry_point < l.image_base + l.image_capacity
  pub pages : l.image_capacity ≤ l.image_page_count * 4096
  pub segments :
      AllWithin e.header.phnum 0 e file_size l.image_base (l.image_base + l.image_capacity)

abbrev layout_in : ImageLayout → Checked ImageLayout → ImageLayout
layout_in d (refused r) = d
layout_in d (passed l) = l

-- What the checks after the loop have found out.
record Accepted (kernel_image_end : ℕ) (e : ElfFile) (x : Extent) : Type 0 where
  kernel : kernel_image_end ≤ x.image_min
  entry_above : x.image_min ≤ e.header.entry
  entry_below : e.header.entry < x.image_end
  region : region_start ≤ x.image_min
  limit : x.image_end ≤ image_limit

-- A check that has not refused.
not_refused {ℓ} :
    {A : Type ℓ} (b : Bool) (r : Refusal) (z : Checked A) (y : A)
    → (if b then refused r else z) ≡ passed y
    → (b ≡ false) × (z ≡ passed y)
not_refused true r z y h = absurd (cc h)
not_refused false r z y h = (refl, h)

check_extent-Accepted :
    (kernel_image_end : ℕ) (e : ElfFile) (file_size : ℕ) (x : Extent) (l : ImageLayout)
    → check_extent kernel_image_end e file_size x ≡ passed l
    → Accepted kernel_image_end e x × (layout_of e file_size x ≡ l)
check_extent-Accepted kernel_image_end e file_size x l h =
    let h1 = not_refused (not x.has_load_segment) _ _ l h in
    let h2 = not_refused (ltb x.image_min kernel_image_end) _ _ l h1.1 in
    let h3 =
      not_refused (ltb e.header.entry x.image_min || leb x.image_end e.header.entry) _ _ l h2.1 in
    let h4 = not_refused (leb x.image_end x.image_min) _ _ l h3.1 in
    let h5 = not_refused (ltb x.image_min region_start || ltb image_limit x.image_end) _ _ l h4.1 in
    let h6 = not_refused (ltb abi_stack_base (add64 x.image_end stack_gap)) _ _ l h5.1 in
    (
      record {
        kernel = ground (arith, h2.0);
        entry_above = ground (arith, h3.0);
        entry_below = ground (arith, h3.0);
        region = ground (arith, h5.0);
        limit = ground (arith, h5.0);
      },
      ap (layout_in (layout_of e file_size x)) h6.1,
    )

layout_of-LaidOut :
    (kernel_image_end : ℕ) (e : ElfFile) (file_size : ℕ) (x : Extent)
    → Accepted kernel_image_end e x
    → AllWithin e.header.phnum 0 e file_size x.image_min x.image_end
    → LaidOut kernel_image_end e file_size (layout_of e file_size x)
layout_of-LaidOut kernel_image_end e file_size x v segments =
    let whole : x.image_min + sub64 x.image_end x.image_min ≡ x.image_end =
      omega (arith, v.limit, v.entry_above, v.entry_below) in
    record {
      starts = v.region;
      above_kernel = v.kernel;
      ends = omega (arith, whole, v.limit);
      entry_above = v.entry_above;
      entry_below = omega (arith, whole, v.entry_below);
      pages = omega (arith, v.limit, v.entry_above, v.entry_below);
      segments = subst (AllWithin e.header.phnum 0 e file_size x.image_min) (sym whole) segments;
    }

checked_extent-LaidOut :
    (kernel_image_end : ℕ) (e : ElfFile) (file_size : ℕ) (x : Extent) (r : Checked Extent)
    (l : ImageLayout)
    → AreWords e
    → file_size < word
    → scan_segments e.header.phnum 0 e file_size x ≡ r
    → checked_extent kernel_image_end e file_size r ≡ passed l
    → LaidOut kernel_image_end e file_size l
checked_extent-LaidOut kernel_image_end e file_size x (refused r) l words small scanned h =
    absurd (cc h)
checked_extent-LaidOut kernel_image_end e file_size x (passed y) l words small scanned h =
    let (v, same) = check_extent-Accepted kernel_image_end e file_size y l h in
    let w = scan_segments-AllWithin e.header.phnum 0 e file_size x y words small scanned in
    subst (LaidOut kernel_image_end e file_size) same
      (layout_of-LaidOut kernel_image_end e file_size y v w.2)

-- If the layout of an ELF file is accepted, the image lies in the region for images, above the
-- kernel and at least a gap below the stack, its pages are enough, the entry point lies in it,
-- and so does every segment to load, whose bytes lie in the file.
pub configure_image_layout-LaidOut :
    (kernel_image_end : ℕ) (e : ElfFile) (file_size : ℕ) (l : ImageLayout)
    → AreWords e
    → file_size < word
    → configure_image_layout kernel_image_end e file_size ≡ passed l
    → LaidOut kernel_image_end e file_size l
unfolding configure_image_layout
configure_image_layout-LaidOut kernel_image_end e file_size l words small h =
    let h1 = not_refused (ltb file_size 64) _ _ l h in
    let h2 = not_refused (bad_header e file_size) _ _ l h1.1 in
    checked_extent-LaidOut kernel_image_end e file_size _ _ l words small refl h2.1
