-- ===== src/Fat32/Safe/Access.antt =====
-- The access to the table and to the clusters is safe.
use native.Mathlib.Nat.{mul-le-mul_left, mul_comm}
use funny_os.Common.{
  ℕ, zero, suc, ◌+◌, ◌-◌, ◌*◌, ◌≤◌, ◌<◌, ◌≡◌, refl, ap, ◌∙◌, ◌⊎◌, inl, inr, false, Option, none,
  some, List, arith, ◌==◌, Bool-cases, add32, sub32, mul32,
}
use funny_os.Fat32.Chain.{Fat, Result, ok}
use funny_os.Fat32.Chain.Table.{IsTable}
use funny_os.Fat32.Clusters.{with_table, on_table}
use funny_os.Fat32.Volume.{
  Device, Geometry, Volume, chunk_of, write_sectors_from, write_sectors, cluster_to_lba,
  bad_cluster, read_cluster, write_cluster, flush_from, flush_fat,
}
use funny_os.Fat32.Safe.{
  IsDisk, IsLaidOut, Keeps, Keeps-trans, IsMounted, After, IsSafe, IsMounted-same, After-later,
}
use funny_os.Fat32.Safe.Shape.{AllShaped}
use funny_os.Fat32.Bytes.{bytes_of}

-- A place before the end of an array of equal parts.
part_fits : (a b n : ℕ) → a < b → a * n + n ≤ b * n
part_fits a b n h =
    omega (arith, mul-le-mul_left {m = suc a} {n = b} n h, mul_comm a n, mul_comm b n)

module _ {W : Type 0} (contents : W → ℕ → List ℕ) (g : Geometry) (clusters limit : ℕ) where
  shaped-After :
      (v : Volume W) (o : Option (Result × ℕ × Fat))
      → IsMounted contents g clusters limit v
      → AllShaped v.table o
      → After contents g clusters limit v (with_table v o)
  shaped-After v none h p = (h, λ s o. refl)
  shaped-After v (some (r, n, f)) h p =
      let done : IsMounted contents g clusters limit (record v { table = f }) = record {
        same_geometry = h.same_geometry;
        same_clusters = p.total ∙ h.same_clusters;
        table = p.table;
      } in
      elim r as (λ k. After contents g clusters limit v (with_table v (some (k, n, f)))) [
        | ok ↦ (done, λ s o. refl)
        | _ ↦ (done, λ s o. refl)
      ]

  pub IsSafe-on_table :
      (op : Fat → Option (Result × ℕ × Fat))
      → ((f : Fat) → IsTable f → AllShaped f (op f))
      → IsSafe contents g clusters limit (on_table op)
  unfolding on_table
  IsSafe-on_table op shaped = record {
    run = λ v h. shaped-After v (op v.table) h (shaped v.table h.table);
  }

-- What is outside of an area is outside of a part of it.
outside :
    (lba count lo hi s : ℕ)
    → lo ≤ lba
    → lba + count ≤ hi
    → ((s < lo) ⊎ (hi ≤ s))
    → ((s < lba) ⊎ (lba + count ≤ s))
outside lba count lo hi s above below (inl o) = inl (omega arith)
outside lba count lo hi s above below (inr o) = inr (omega arith)

module _ {W : Type 0} (device : Device W) (contents : W → ℕ → List ℕ) (g : Geometry)
    (clusters limit : ℕ) (disk : IsDisk device contents limit)
    (laid : IsLaidOut g clusters limit) where
  pub IsSafe-read_cluster :
      (cluster : ℕ) → IsSafe contents g clusters limit (read_cluster device cluster)
  unfolding read_cluster
  IsSafe-read_cluster cluster = record {
    run = λ v h. elim (Bool-cases (bad_cluster device v cluster)) [
      | inl t ↦ rw t (h, λ s o. refl)
      | inr t ↦
          rw t (IsMounted-same contents g clusters limit v h _ _, λ s o. disk.read_keeps _ _ _ _ s)
    ];
  }

  -- Where a cluster lies.
  cluster_place :
      (v : Volume W) (cluster : ℕ)
      → IsMounted contents g clusters limit v
      → bad_cluster device v cluster ≡ false
      → (g.fat_lba ≤ cluster_to_lba device v.geometry cluster)
        × (cluster_to_lba device v.geometry cluster + v.geometry.sectors_per_cluster ≤ limit)
  cluster_place v cluster h t =
      let fits =
        part_fits (cluster - 2) (clusters - 2) g.sectors_per_cluster
          (ground (arith, t, h.same_clusters)) in
      let spc : v.geometry.sectors_per_cluster ≡ g.sectors_per_cluster =
        ap (λ x. x.sectors_per_cluster) h.same_geometry in
      let start : v.geometry.data_lba ≡ g.data_lba = ap (λ x. x.data_lba) h.same_geometry in
      let low : sub32 cluster 2 ≡ cluster - 2 = ground (arith, t, h.same_clusters, h.table.small) in
      let lba : cluster_to_lba device v.geometry cluster
          ≡ g.data_lba + (cluster - 2) * g.sectors_per_cluster =
        rw (start, spc, low) (omega (arith, fits, laid.area, laid.limit_small)) in
      (omega (arith, lba, laid.copies), omega (arith, lba, spc, fits, laid.area))

  pub IsSafe-write_cluster :
      (cluster : ℕ) → IsSafe contents g clusters limit (write_cluster device cluster)
  unfolding write_cluster
  IsSafe-write_cluster cluster = record {
    run = λ v h. elim (Bool-cases (bad_cluster device v cluster)) [
      | inl t ↦ rw t (h, λ s o. refl)
      | inr t ↦
          let place = cluster_place v cluster h t in
          rw t (
            IsMounted-same contents g clusters limit v h _ _,
            λ s o.
                disk.write_keeps _ _ _ _ s place.1
                  (outside _ _ g.fat_lba limit s place.0 place.1 o),
          )
    ];
  }

  -- A run of sectors written in chunks.
  write_sectors_from-Keeps :
      (rounds lba count : ℕ) (bytes : List ℕ) (w : W)
      → g.fat_lba ≤ lba
      → lba + count ≤ limit
      → Keeps contents g.fat_lba limit w (write_sectors_from device rounds lba count bytes w).1
  unfolding write_sectors_from
  write_sectors_from-Keeps zero lba count bytes w above below = λ s o. refl
  write_sectors_from-Keeps (suc rounds) lba count bytes w above below =
      let chunk = chunk_of count in
      let r = device.write_sectors lba chunk bytes w in
      let small : chunk ≤ count = ground arith in
      let here : Keeps contents g.fat_lba limit w r.1 = λ s o.
        disk.write_keeps lba chunk bytes w s (omega arith)
          (outside lba chunk g.fat_lba limit s above (omega arith) o) in
      elim (Bool-cases (count == 0)) [
        | inl t ↦ rw t (λ s o. refl)
        | inr t ↦ elim (Bool-cases r.0) [
          | inr u ↦ rw (t, u) here
          | inl u ↦
              let e : add32 lba chunk ≡ lba + chunk = omega (arith, laid.limit_small) in
              rw (t, u)
                (Keeps-trans contents g.fat_lba limit w r.1 _ here (
                  write_sectors_from-Keeps rounds (add32 lba chunk) (count - chunk) _ r.1
                    (omega (arith, e)) (omega (arith, e))))
        ]
      ]

  flush_from-After :
      (count i : ℕ) (v : Volume W)
      → IsMounted contents g clusters limit v
      → i + count ≤ g.fat_count
      → After contents g clusters limit v (flush_from device count i v)
  unfolding flush_from write_sectors
  flush_from-After zero i v h within = (h, λ s o. refl)
  flush_from-After (suc count) i v h within =
      let fits = part_fits i g.fat_count g.sectors_per_fat (omega arith) in
      let start : v.geometry.fat_lba ≡ g.fat_lba = ap (λ x. x.fat_lba) h.same_geometry in
      let spf : v.geometry.sectors_per_fat ≡ g.sectors_per_fat =
        ap (λ x. x.sectors_per_fat) h.same_geometry in
      let at : add32 v.geometry.fat_lba (mul32 i v.geometry.sectors_per_fat)
          ≡ g.fat_lba + i * g.sectors_per_fat =
        rw (start, spf) (omega (arith, fits, laid.copies, laid.area, laid.limit_small)) in
      let r =
        write_sectors_from device v.geometry.sectors_per_fat
          (add32 v.geometry.fat_lba (mul32 i v.geometry.sectors_per_fat)) v.geometry.sectors_per_fat
          (bytes_of v.table.entries) v.world in
      let here : Keeps contents g.fat_lba limit v.world r.1 =
        write_sectors_from-Keeps v.geometry.sectors_per_fat _ v.geometry.sectors_per_fat _ v.world
          (omega (arith, at)) (omega (arith, at, spf, fits, laid.copies, laid.area)) in
      let v' = record v { world = r.1 } in
      let h' = IsMounted-same contents g clusters limit v h v.buffer r.1 in
      elim (Bool-cases r.0) [
        | inr t ↦ rw t (h', here)
        | inl t ↦ rw t (
            After-later contents g clusters limit v v' _ here
              (flush_from-After count (suc i) v' h' (omega arith)))
      ]

  pub IsSafe-flush_fat : IsSafe contents g clusters limit (flush_fat device)
  unfolding flush_fat
  IsSafe-flush_fat = record {
    run = λ v h.
        flush_from-After v.geometry.fat_count 0 v h
          (omega (arith, ap (λ x. x.fat_count) h.same_geometry));
  }
