-- ===== src/Fat32/Safe/Directory.antt =====
-- The commands on directories are safe.
use funny_os.Common.{ℕ, zero, suc, not, Option, none, some, List, ◌==◌, if◌then◌else◌, add32}
use funny_os.Fat32.Directory.{
  entries_per_cluster, Step, next, stop, Found, scan_entries, walk_entries, short_name_exists,
  directory_is_empty, cluster_for_directory_index, read_directory_entry, write_directory_entry,
  count_lfn_entries, refer, find_entry, find_free_entry,
}
use funny_os.Fat32.Entry.{DirectoryEntry, attributes, fat32_lfn}
use funny_os.Fat32.Volume.{Device, Geometry, Cmd, pure, ◌>>=◌}
use funny_os.Fat32.Safe.{
  IsDisk, IsLaidOut, IsSafe, IsSafe-pure, IsSafe->>=, IsSafe-attempt, IsSafe-if, IsSafe-result,
  safe,
}
use funny_os.Fat32.Safe.Clusters.{access}

module _ {W : Type 0} (contents : W → ℕ → List ℕ) (g : Geometry) (clusters limit : ℕ) where
  -- The answer of a search that is looked at.
  pub IsSafe-step :
      {S A B : Type 0} (p : A → Cmd W B) (q : S → Cmd W B)
      → ((a : A) → IsSafe contents g clusters limit (p a))
      → ((s : S) → IsSafe contents g clusters limit (q s))
      → (x : Step S A) → IsSafe contents g clusters limit (elim x [ stop a ↦ p a | next s ↦ q s ])
  IsSafe-step p q h k (next s) = k s
  IsSafe-step p q h k (stop a) = h a

  pub IsSafe-option :
      {A B : Type 0} (p : Cmd W B) (q : A → Cmd W B)
      → IsSafe contents g clusters limit p
      → ((a : A) → IsSafe contents g clusters limit (q a))
      → (x : Option A) → IsSafe contents g clusters limit (elim x [ none ↦ p | some a ↦ q a ])
  IsSafe-option p q h k none = h
  IsSafe-option p q h k (some a) = k a

  pub ruleset answers = (IsSafe-step, IsSafe-option)

module _ {W : Type 0} (device : Device W) (contents : W → ℕ → List ℕ) (fuel : ℕ) (g : Geometry)
    (clusters limit : ℕ) (disk : IsDisk device contents limit)
    (laid : IsLaidOut g clusters limit) where
  abbrev Safe : {A : Type 0} → Cmd W A → Type 0
  Safe m = IsSafe contents g clusters limit m

  pub IsSafe-walk_entries :
      {S A : Type 0} (round : ℕ → DirectoryEntry → S → Step S A) (rounds cluster base : ℕ) (s : S)
      → Safe (walk_entries device fuel round rounds cluster base s)
  unfolding walk_entries
  IsSafe-walk_entries round zero cluster base s = search safe
  IsSafe-walk_entries round (suc rounds) cluster base s =
      IsSafe-if contents g clusters limit _ _ _ (IsSafe-pure contents g clusters limit (next s)) (
        IsSafe->>= contents g clusters limit _ _ (search access) (λ _.
          IsSafe->>= contents g clusters limit _ _ (search safe) (λ h.
            IsSafe->>= contents g clusters limit _ _ (search safe) (λ bytes.
              IsSafe-step contents g clusters limit _ _ (λ a. search safe)
                (λ s'. search (safe, access, IsSafe-walk_entries round rounds))
                (scan_entries (λ i. round (add32 base i)) (entries_per_cluster h) 0 bytes s)))))

  pub IsSafe-short_name_exists :
      (first : ℕ) (short_name : List ℕ) (ignore : Option (List ℕ))
      → Safe (short_name_exists device fuel first short_name ignore)
  unfolding short_name_exists
  IsSafe-short_name_exists first short_name ignore = search (safe, answers, IsSafe-walk_entries)

  pub IsSafe-directory_is_empty : (first : ℕ) → Safe (directory_is_empty device fuel first)
  unfolding directory_is_empty
  IsSafe-directory_is_empty first = search (safe, answers, IsSafe-walk_entries)

  IsSafe-cluster_for_directory_index :
      (first index : ℕ) → Safe (cluster_for_directory_index device fuel first index)
  unfolding cluster_for_directory_index
  IsSafe-cluster_for_directory_index first index = search safe

  pub IsSafe-read_directory_entry :
      (first index : ℕ) → Safe (read_directory_entry device fuel first index)
  unfolding read_directory_entry
  IsSafe-read_directory_entry first index =
      search (safe, access, IsSafe-cluster_for_directory_index) depth 8

  pub IsSafe-write_directory_entry :
      (first index : ℕ) (e : DirectoryEntry)
      → Safe (write_directory_entry device fuel first index e)
  unfolding write_directory_entry
  IsSafe-write_directory_entry first index e =
      search (safe, access, IsSafe-cluster_for_directory_index) depth 9

  counted :
      (first j : ℕ) (e : DirectoryEntry)
      → Safe (count_lfn_entries device fuel first j)
      → Safe (
          if not (attributes e == fat32_lfn)
          then pure 0
          else do n ← count_lfn_entries device fuel first j; pure (suc n))
  counted first j e h =
      IsSafe-if contents g clusters limit _ _ _ (IsSafe-pure contents g clusters limit 0) (
        IsSafe->>= contents g clusters limit _ (λ n. pure (suc n)) h
          (λ n. IsSafe-pure contents g clusters limit (suc n)))

  IsSafe-count_lfn_entries : (first j : ℕ) → Safe (count_lfn_entries device fuel first j)
  unfolding count_lfn_entries
  IsSafe-count_lfn_entries first zero = search safe
  IsSafe-count_lfn_entries first (suc j) =
      IsSafe->>= contents g clusters limit _ _
        (IsSafe-attempt contents g clusters limit _ (IsSafe-read_directory_entry first j))
        (λ r.
          IsSafe-result contents g clusters limit _ _ (λ e. search safe)
            (λ e. counted first j e (IsSafe-count_lfn_entries first j)) r)

  IsSafe-refer : (first : ℕ) (f : Found) → Safe (refer device fuel first f)
  IsSafe-refer first f = search (safe, IsSafe-count_lfn_entries)

  pub IsSafe-find_entry : (first : ℕ) (name : List ℕ) → Safe (find_entry device fuel first name)
  unfolding find_entry
  IsSafe-find_entry first name = search (safe, answers, IsSafe-walk_entries, IsSafe-refer) depth 7

  pub IsSafe-find_free_entry : (first needed : ℕ) → Safe (find_free_entry device fuel first needed)
  unfolding find_free_entry
  IsSafe-find_free_entry first needed =
      IsSafe->>= contents g clusters limit _ _ (search IsSafe-walk_entries) (λ r.
        IsSafe-step contents g clusters limit _ _ (λ a. search safe)
          (λ s. search (safe, access) depth 8) r)

  pub ruleset entries = (
    IsSafe-short_name_exists, IsSafe-directory_is_empty, IsSafe-read_directory_entry,
    IsSafe-write_directory_entry, IsSafe-find_entry, IsSafe-find_free_entry,
  )
