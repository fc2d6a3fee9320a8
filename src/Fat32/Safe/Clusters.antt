-- ===== src/Fat32/Safe/Clusters.antt =====
-- The commands on chains of clusters are safe.
use funny_os.Common.{ℕ, zero, suc, refl, ◌∙◌, Bool, List}
use funny_os.Fat32.Chain.{Result}
use funny_os.Fat32.Clusters.{
  free_chain, append_cluster, trim_chain, give_back, allocate_from, zero_from,
  allocate_cluster_chain, append_from, ensure_cluster_chain_length, write_data_from,
  write_data_to_chain,
}
use funny_os.Fat32.Volume.{
  Device, Geometry, Cmd, ◌>>=◌, require, fat32_next_cluster, fat32_set_cluster, must_read,
  must_write, must_flush, zero_cluster,
}
use funny_os.Fat32.Safe.{
  IsDisk, IsLaidOut, IsSafe, IsSafe-pure, IsSafe->>=, IsSafe-if, IsSafe-result, safe,
}
use funny_os.Fat32.Safe.Shape.{
  set_cluster-Shaped, free_cluster_chain-Shaped, append_cluster_to_chain-Shaped,
  trim_cluster_chain-Shaped,
}
use funny_os.Fat32.Safe.Access.{
  IsSafe-on_table, IsSafe-read_cluster, IsSafe-write_cluster, IsSafe-flush_fat,
}

module _ {W : Type 0} (device : Device W) (contents : W → ℕ → List ℕ) (fuel : ℕ) (g : Geometry)
    (clusters limit : ℕ) (disk : IsDisk device contents limit)
    (laid : IsLaidOut g clusters limit) where
  -- A command of this volume that is safe.
  abbrev pub Safe : {A : Type 0} → Cmd W A → Type 0
  Safe m = IsSafe contents g clusters limit m

  pub IsSafe-require : (b : Bool) (r : Result) → Safe (require b r)
  IsSafe-require b r = search safe

  pub IsSafe-must_read : (cluster : ℕ) → Safe (must_read device cluster)
  unfolding must_read
  IsSafe-must_read cluster =
      search (safe, IsSafe-read_cluster device contents g clusters limit disk laid, IsSafe-require)

  pub IsSafe-must_write : (cluster : ℕ) → Safe (must_write device cluster)
  unfolding must_write
  IsSafe-must_write cluster =
      search (safe, IsSafe-write_cluster device contents g clusters limit disk laid, IsSafe-require)

  pub IsSafe-must_flush : Safe (must_flush device)
  unfolding must_flush
  IsSafe-must_flush =
      search (safe, IsSafe-flush_fat device contents g clusters limit disk laid, IsSafe-require)

  pub IsSafe-zero_cluster : (cluster : ℕ) → Safe (zero_cluster device cluster)
  unfolding zero_cluster
  IsSafe-zero_cluster cluster = search (safe, IsSafe-must_write)

  pub IsSafe-fat32_next_cluster : (cluster : ℕ) → Safe (fat32_next_cluster cluster)
  unfolding fat32_next_cluster
  IsSafe-fat32_next_cluster cluster = search safe

  pub IsSafe-fat32_set_cluster : (cluster value : ℕ) → Safe (fat32_set_cluster cluster value)
  unfolding fat32_set_cluster ◌>>=◌
  IsSafe-fat32_set_cluster cluster value = record {
    run = λ v h.
        let s = set_cluster-Shaped cluster value v.table h.table in
        (
          record {
            same_geometry = h.same_geometry;
            same_clusters = s.total ∙ h.same_clusters;
            table = s.table;
          },
          λ s o. refl,
        );
  }

  pub IsSafe-free_chain : (cluster : ℕ) → Safe (free_chain fuel cluster)
  unfolding free_chain
  IsSafe-free_chain cluster = search (IsSafe-on_table, free_cluster_chain-Shaped)

  pub IsSafe-append_cluster : (first : ℕ) → Safe (append_cluster fuel first)
  unfolding append_cluster
  IsSafe-append_cluster first = search (IsSafe-on_table, append_cluster_to_chain-Shaped)

  pub IsSafe-trim_chain : (first required : ℕ) → Safe (trim_chain fuel first required)
  unfolding trim_chain
  IsSafe-trim_chain first required = search (IsSafe-on_table, trim_cluster_chain-Shaped)

  pub ruleset access = (
    IsSafe-require, IsSafe-must_read, IsSafe-must_write, IsSafe-must_flush, IsSafe-zero_cluster,
    IsSafe-fat32_next_cluster, IsSafe-fat32_set_cluster, IsSafe-free_chain, IsSafe-append_cluster,
    IsSafe-trim_chain,
  )

  IsSafe-give_back :
      {A : Type 0} (first : ℕ) (r : Result) → Safe {A = A} (give_back device fuel first r)
  IsSafe-give_back first r = search (safe, access)

  IsSafe-allocate_from : (count first last : ℕ) → Safe (allocate_from device fuel count first last)
  unfolding allocate_from
  IsSafe-allocate_from zero first last = search safe
  IsSafe-allocate_from (suc count) first last =
      search (safe, access, IsSafe-give_back, IsSafe-allocate_from count) depth 9

  IsSafe-zero_from : (count first last : ℕ) → Safe (zero_from device fuel count first last)
  unfolding zero_from
  IsSafe-zero_from zero first last = search safe
  IsSafe-zero_from (suc count) first last =
      IsSafe-if contents g clusters limit _ _ _ (IsSafe-pure contents g clusters limit tt) (
        IsSafe->>= contents g clusters limit _ _ (search (safe, access)) (λ r.
          IsSafe->>= contents g clusters limit _ _ (search access) (λ next.
            IsSafe-result contents g clusters limit _ _ (λ e. search IsSafe-give_back)
              (λ a. search (safe, IsSafe-zero_from count)) r)))

  pub IsSafe-allocate_cluster_chain : (count : ℕ) → Safe (allocate_cluster_chain device fuel count)
  unfolding allocate_cluster_chain
  IsSafe-allocate_cluster_chain count = search (safe, IsSafe-allocate_from, IsSafe-zero_from)

  IsSafe-append_from : (count first : ℕ) → Safe (append_from device fuel count first)
  unfolding append_from
  IsSafe-append_from zero first = search safe
  IsSafe-append_from (suc count) first = search (safe, access, IsSafe-append_from count) depth 10

  pub IsSafe-ensure_cluster_chain_length :
      (first current required : ℕ)
      → Safe (ensure_cluster_chain_length device fuel first current required)
  unfolding ensure_cluster_chain_length
  IsSafe-ensure_cluster_chain_length first current required =
      search (safe, IsSafe-allocate_cluster_chain, IsSafe-append_from)

  IsSafe-write_data_from :
      (rounds cluster offset : ℕ) (bytes : List ℕ) (remaining : ℕ)
      → Safe (write_data_from device fuel rounds cluster offset bytes remaining)
  unfolding write_data_from
  IsSafe-write_data_from zero cluster offset bytes remaining = search safe
  IsSafe-write_data_from (suc rounds) cluster offset bytes remaining =
      search (safe, access, IsSafe-write_data_from rounds) depth 14

  pub IsSafe-write_data_to_chain :
      (first start : ℕ) (bytes : List ℕ) (size : ℕ)
      → Safe (write_data_to_chain device fuel first start bytes size)
  unfolding write_data_to_chain
  IsSafe-write_data_to_chain first start bytes size =
      search (safe, access, IsSafe-write_data_from) depth 9

  pub ruleset chains = (
    IsSafe-allocate_cluster_chain, IsSafe-ensure_cluster_chain_length, IsSafe-write_data_to_chain,
  )
