-- ===== src/Memory/Pages/Reserve.antt =====
-- `reserve_range`: the reserved addresses, and no others, are taken out of the free ones.
use funny_os.Common.{
  ℕ, ◌+◌, ◌-◌, ◌*◌, ◌/◌, ◌%◌, ◌≤◌, ◌<◌, ◌≡◌, refl, ◌⊎◌, inl, inr, true, List, [], ◌∷◌, arith,
  length, All, word, sub64, align_down, align_up, align_down-page, align_up-page, Bool-cases, leb,
}
use funny_os.Memory.Pages.{
  FreeRange, overlap, reserve_from, reserve_range, page_size, range_end, max_free_ranges,
}
use funny_os.Memory.Pages.Ranges.{IsRange, limit_of, IsFree, Rises, IsOrdered, Rises-weaken}

-- A page-aligned stretch of addresses.
record IsStretch (start end : ℕ) : Type 0 where
  start_aligned : start % 4096 ≡ 0
  end_aligned : end % 4096 ≡ 0
  rising : start < end

reserve_from-valid :
    (s e count : ℕ) (rs : List FreeRange)
    → IsStretch s e
    → All IsRange rs
    → (reserve_from s e count rs).0 ≡ true
    → All IsRange (reserve_from s e count rs).1
unfolding reserve_from overlap
reserve_from-valid s e count [] h v ok = tt
reserve_from-valid s e count (r ∷ rs) h v ok = ground (
  arith,
  reserve_from-valid s e count rs h v.1,
  reserve_from-valid s e (count - 1) rs h v.1,
  reserve_from-valid s e (count + 1) rs h v.1,
)

reserve_from-kept :
    (s e count : ℕ) (rs : List FreeRange) (a : ℕ)
    → IsStretch s e
    → All IsRange rs
    → (reserve_from s e count rs).0 ≡ true
    → IsFree a rs
    → ((s ≤ a) × (a < e)) ⊎ IsFree a (reserve_from s e count rs).1
unfolding reserve_from overlap
reserve_from-kept s e count [] a h v ok f = absurd f
reserve_from-kept s e count (r ∷ rs) a h v ok f = ground (
  arith,
  reserve_from-kept s e count rs a h v.1,
  reserve_from-kept s e (count - 1) rs a h v.1,
  reserve_from-kept s e (count + 1) rs a h v.1,
)

reserve_from-only :
    (s e count : ℕ) (rs : List FreeRange) (a : ℕ)
    → IsStretch s e
    → All IsRange rs
    → (reserve_from s e count rs).0 ≡ true
    → IsFree a (reserve_from s e count rs).1
    → IsFree a rs × ((a < s) ⊎ (e ≤ a))
unfolding reserve_from overlap
reserve_from-only s e count [] a h v ok f = absurd f
reserve_from-only s e count (r ∷ rs) a h v ok f = ground (
  arith,
  reserve_from-only s e count rs a h v.1,
  reserve_from-only s e (count - 1) rs a h v.1,
  reserve_from-only s e (count + 1) rs a h v.1,
)

-- Order is kept even where the loop gives up.
reserve_from-Rises :
    (s e count lo : ℕ) (rs : List FreeRange)
    → IsStretch s e
    → Rises lo rs
    → Rises lo (reserve_from s e count rs).1
unfolding reserve_from overlap
reserve_from-Rises s e count lo [] h v = tt
reserve_from-Rises s e count lo (r ∷ rs) h v =
    let stays = reserve_from-Rises s e count (limit_of r + 1) rs h v.2 in
    let fewer = reserve_from-Rises s e (count - 1) (limit_of r + 1) rs h v.2 in
    let more = reserve_from-Rises s e (count + 1) (limit_of r + 1) rs h v.2 in
    let left = sub64 s r.base / page_size in
    let right = sub64 (range_end r) e / page_size in
    ground (
      arith,
      stays,
      Rises-weaken (limit_of r + 1) lo (reserve_from s e (count - 1) rs).1 (omega arith) fewer,
      Rises-weaken (limit_of r + 1) (e + right * 4096 + 1) (reserve_from s e count rs).1,
      Rises-weaken (limit_of r + 1) (r.base + left * 4096 + 1) (reserve_from s e count rs).1,
      Rises-weaken (limit_of r + 1) (e + right * 4096 + 1) (reserve_from s e (count + 1) rs).1,
      more,
    )

-- Past the stretch nothing is changed.
reserve_from-past :
    (s e count : ℕ) (rs : List FreeRange) → Rises e rs → reserve_from s e count rs ≡ (true, rs)
unfolding reserve_from overlap
reserve_from-past s e count [] v = refl
reserve_from-past s e count (r ∷ rs) v =
    ground (arith, reserve_from-past s e count rs, Rises-weaken (limit_of r + 1) e rs)

-- At most one range of a table in order is split, so one entry to spare is enough.
reserve_from-room :
    (s e count lo : ℕ) (rs : List FreeRange)
    → IsStretch s e
    → Rises lo rs
    → count < max_free_ranges
    → (reserve_from s e count rs).0 ≡ true
unfolding reserve_from overlap
reserve_from-room s e count lo [] h v room = refl
reserve_from-room s e count lo (r ∷ rs) h v room = ground (
  arith,
  reserve_from-room s e count (limit_of r + 1) rs h v.2,
  reserve_from-room s e (count - 1) (limit_of r + 1) rs h v.2,
  reserve_from-past s e (count + 1) rs,
  Rises-weaken (limit_of r + 1) e rs,
)

-- What `reserve_range` promises of a request, with the bounds rounded outwards to whole pages.
pub record Reserved (reserve_start reserve_end : ℕ) (old new : List FreeRange) : Type 0 where
  pub valid : All IsRange new
  pub gone : (a : ℕ) → IsFree a new → (a < reserve_start) ⊎ (reserve_end ≤ a)
  pub only : (a : ℕ) → IsFree a new → IsFree a old
  pub kept :
      (a : ℕ)
      → IsFree a old
      → ((reserve_start / 4096 * 4096 ≤ a) × (a < (reserve_end + 4095) / 4096 * 4096))
        ⊎ IsFree a new

-- A successful `reserve_range` leaves no address of the request free, frees no address, and takes
-- only addresses of the pages that the request touches. The ranges need not be in order. The end of
-- the request, rounded up to a page, must not wrap.
pub reserve_range-Reserved :
    (s e : ℕ) (rs : List FreeRange)
    → s < word
    → e + 4095 < word
    → All IsRange rs
    → (reserve_range s e rs).0 ≡ true
    → Reserved s e rs (reserve_range s e rs).1
unfolding reserve_range
reserve_range-Reserved s e rs hs he v ok =
    elim (Bool-cases (leb (align_up e 4096) (align_down s 4096))) [
      | inl t ↦ rw t (record {
        valid = v;
        gone = λ a f. ground (arith, align_down-page s hs, align_up-page e he);
        only = λ a f. f;
        kept = λ a f. inr f;
      })
      | inr t ↦
          let (lo, hi) = bounds in
          let h : IsStretch (align_down s 4096) (align_up e 4096) = record {
            start_aligned = omega (arith, lo);
            end_aligned = omega (arith, hi);
            rising = ground arith;
          } in
          let done : (reserve_from (align_down s 4096) (align_up e 4096) (length rs) rs).0 ≡ true =
            ground arith in
          rw t (record {
            valid = reserve_from-valid _ _ (length rs) rs h v done;
            gone = λ a f. ground (arith, lo, hi, reserve_from-only _ _ (length rs) rs a h v done f);
            only = λ a f. (reserve_from-only _ _ (length rs) rs a h v done f).0;
            kept = λ a f. ground (arith, lo, hi, reserve_from-kept _ _ (length rs) rs a h v done f);
          })
    ]
  where
    bounds : (align_down s 4096 ≡ s / 4096 * 4096) × (align_up e 4096 ≡ (e + 4095) / 4096 * 4096)
    bounds = (align_down-page s hs, align_up-page e he)

-- On a table in order with an entry to spare it succeeds, and it keeps the order.
pub reserve_range-IsOrdered :
    (s e : ℕ) (rs : List FreeRange)
    → s < word
    → e + 4095 < word
    → IsOrdered rs
    → length rs < max_free_ranges
    → ((reserve_range s e rs).0 ≡ true) × IsOrdered (reserve_range s e rs).1
unfolding reserve_range
reserve_range-IsOrdered s e rs hs he v room =
    elim (Bool-cases (leb (align_up e 4096) (align_down s 4096))) [
      | inl t ↦ rw t (refl, v)
      | inr t ↦
          let h : IsStretch (align_down s 4096) (align_up e 4096) = record {
            start_aligned = omega (arith, align_down-page s hs);
            end_aligned = omega (arith, align_up-page e he);
            rising = ground arith;
          } in
          rw t (
            reserve_from-room _ _ (length rs) 0 rs h v room,
            reserve_from-Rises _ _ (length rs) 0 rs h v,
          )
    ]
