-- ===== src/Fat32/Safe.antt =====
-- Where the file system writes: commands that keep the geometry and the size of the table, and leave
-- every sector outside the volume's table and data area.
pub mod Shape
pub mod Access
pub mod Clusters
pub mod Directory
pub mod Paths
pub mod Files
mod Tests
use funny_os.Common.{
  ℕ, ◌+◌, ◌-◌, ◌*◌, ◌≤◌, ◌<◌, ◌≡◌, refl, ap, ◌∙◌, ◌⊎◌, inl, inr, Bool, true, false, none, List,
  if◌then◌else◌, set, u32, arith,
}
use funny_os.Fat32.Chain.{Fat, Result, ok}
use funny_os.Fat32.Chain.Table.{IsTable}
use funny_os.Fat32.Volume.{
  Device, Geometry, Volume, Run, returns, fails, stuck, Cmd, pure, fail, diverge, caught, attempt,
  and_then, ◌>>=◌, ◌>>◌, geometry, table, buffer, set_buffer, write_sectors, read_sectors,
}

-- A device whose sectors have contents: reads change none, and a write of sectors below `size`
-- changes at most the sectors that it names.
pub record IsDisk {W : Type 0} (device : Device W) (contents : W → ℕ → List ℕ) (size : ℕ)
    : Type 0 where
  pub read_keeps :
      (lba count : ℕ) (out : List ℕ) (w : W) (s : ℕ)
      → contents ((device.read_sectors lba count out w).1).1 s ≡ contents w s
  pub write_keeps :
      (lba count : ℕ) (bytes : List ℕ) (w : W) (s : ℕ)
      → lba + count ≤ size
      → ((s < lba) ⊎ (lba + count ≤ s))
      → contents (device.write_sectors lba count bytes w).1 s ≡ contents w s

-- A disk is one up to each smaller size.
pub IsDisk-below :
    {W : Type 0} (device : Device W) (contents : W → ℕ → List ℕ) (size limit : ℕ)
    → limit ≤ size
    → IsDisk device contents size
    → IsDisk device contents limit
IsDisk-below device contents size limit h disk = record {
  read_keeps = disk.read_keeps;
  write_keeps = λ lba count bytes w s below o. disk.write_keeps lba count bytes w s (omega arith) o;
}

-- The table's copies and then the clusters lie between two sectors, with no wrap.
pub record IsLaidOut (g : Geometry) (clusters limit : ℕ) : Type 0 where
  pub limit_small : limit < u32
  pub copies : g.fat_lba + g.fat_count * g.sectors_per_fat ≤ g.data_lba
  pub area : g.data_lba + (clusters - 2) * g.sectors_per_cluster ≤ limit

module _ {W : Type 0} (contents : W → ℕ → List ℕ) (lo hi : ℕ) where
  -- No sector outside has changed.
  abbrev pub Keeps : W → W → Type 0
  Keeps w w' = (s : ℕ) → ((s < lo) ⊎ (hi ≤ s)) → contents w' s ≡ contents w s

  pub Keeps-trans : (u v w : W) → Keeps u v → Keeps v w → Keeps u w
  Keeps-trans u v w p q s h = q s h ∙ p s h

module _ {W : Type 0} (contents : W → ℕ → List ℕ) (g : Geometry) (clusters limit : ℕ) where
  -- A volume with this geometry and a table for this many clusters.
  pub record IsMounted (v : Volume W) : Type 0 where
    pub same_geometry : v.geometry ≡ g
    pub same_clusters : v.table.total_clusters ≡ clusters
    pub table : IsTable v.table

  abbrev pub After : {A : Type 0} → Volume W → Run W A → Type 0
  After v (returns a v') = IsMounted v' × Keeps contents g.fat_lba limit v.world v'.world
  After v (fails r v') = IsMounted v' × Keeps contents g.fat_lba limit v.world v'.world
  After v (stuck v') = IsMounted v' × Keeps contents g.fat_lba limit v.world v'.world

  -- The command keeps the volume mounted, and the sectors outside.
  pub record IsSafe {A : Type 0} (m : Cmd W A) : Type 0 where
    pub run : (v : Volume W) → IsMounted v → After v (m v)

  -- The buffer and the world are free.
  pub IsMounted-same :
      (v : Volume W)
      → IsMounted v
      → (b : List ℕ) (w : W) → IsMounted (record v { buffer = b; world = w })
  IsMounted-same v h b w = record {
    same_geometry = h.same_geometry;
    same_clusters = h.same_clusters;
    table = h.table;
  }

  pub After-later :
      {A : Type 0} (u v : Volume W) (r : Run W A)
      → Keeps contents g.fat_lba limit u.world v.world
      → After v r
      → After u r
  After-later u v (returns a w) k p =
      (p.0, Keeps-trans contents g.fat_lba limit u.world v.world w.world k p.1)
  After-later u v (fails e w) k p =
      (p.0, Keeps-trans contents g.fat_lba limit u.world v.world w.world k p.1)
  After-later u v (stuck w) k p =
      (p.0, Keeps-trans contents g.fat_lba limit u.world v.world w.world k p.1)

  pub IsSafe-pure : {A : Type 0} (a : A) → IsSafe (pure a)
  IsSafe-pure a = record { run = λ v h. (h, λ s o. refl) }

  pub IsSafe-fail : {A : Type 0} (r : Result) → IsSafe (fail {A = A} r)
  IsSafe-fail r = record { run = λ v h. (h, λ s o. refl) }

  pub IsSafe-diverge : {A : Type 0} → IsSafe (diverge {A = A})
  IsSafe-diverge = record { run = λ v h. (h, λ s o. refl) }

  then-After :
      {A B : Type 0} (k : A → Cmd W B) (v : Volume W) (r : Run W A)
      → ((a : A) → IsSafe (k a))
      → After v r
      → After v (and_then r k)
  then-After k v (returns a w) safe p = After-later v w (k a w) p.1 ((safe a).run w p.0)
  then-After k v (fails e w) safe p = p
  then-After k v (stuck w) safe p = p

  pub IsSafe->>= :
      {A B : Type 0} (m : Cmd W A) (k : A → Cmd W B)
      → IsSafe m
      → ((a : A) → IsSafe (k a))
      → IsSafe (m >>= k)
  unfolding ◌>>=◌
  IsSafe->>= m k safe later = record { run = λ v h. then-After k v (m v) later (safe.run v h) }

  caught-After : {A : Type 0} (v : Volume W) (r : Run W A) → After v r → After v (caught r)
  caught-After v (returns a w) p = p
  caught-After v (fails e w) p = p
  caught-After v (stuck w) p = p

  pub IsSafe-attempt : {A : Type 0} (m : Cmd W A) → IsSafe m → IsSafe (attempt m)
  unfolding attempt
  IsSafe-attempt m safe = record { run = λ v h. caught-After v (m v) (safe.run v h) }

  pub IsSafe-if :
      {A : Type 0} (b : Bool) (m n : Cmd W A) → IsSafe m → IsSafe n → IsSafe (if b then m else n)
  IsSafe-if true m n p q = p
  IsSafe-if false m n p q = q

  -- The result of a call that is looked at.
  pub IsSafe-result :
      {A B : Type 0} (p : Result → Cmd W B) (q : A → Cmd W B)
      → ((e : Result) → IsSafe (p e))
      → ((a : A) → IsSafe (q a))
      → (r : Result ⊎ A) → IsSafe (elim r [ inl e ↦ p e | inr a ↦ q a ])
  IsSafe-result p q h k (inl e) = h e
  IsSafe-result p q h k (inr a) = k a

  pub IsSafe-geometry : IsSafe geometry
  IsSafe-geometry = record { run = λ v h. (h, λ s o. refl) }

  pub IsSafe-table : IsSafe table
  IsSafe-table = record { run = λ v h. (h, λ s o. refl) }

  pub IsSafe-buffer : IsSafe buffer
  IsSafe-buffer = record { run = λ v h. (h, λ s o. refl) }

  pub IsSafe-set_buffer : (b : List ℕ) → IsSafe (set_buffer b)
  IsSafe-set_buffer b = record {
    run = λ v h. (
      record { same_geometry = h.same_geometry; same_clusters = h.same_clusters; table = h.table },
      λ s o. refl,
    );
  }

  pub ruleset safe = (
    IsSafe-pure, IsSafe-fail, IsSafe-diverge, IsSafe->>=, IsSafe-attempt, IsSafe-if, IsSafe-result,
    IsSafe-geometry, IsSafe-table, IsSafe-buffer, IsSafe-set_buffer,
  )
