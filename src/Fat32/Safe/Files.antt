-- ===== src/Fat32/Safe/Files.antt =====
-- The operations on files and directories are safe.
use funny_os.Common.{
  ℕ, zero, suc, ◌⊎◌, inl, inr, Bool, Option, none, some, List, [], ◌∷◌, if◌then◌else◌,
}
use funny_os.Fat32.Chain.{Result, not_found, already_exists, is_a_directory}
use funny_os.Fat32.Directory.{EntryRef}
use funny_os.Fat32.Entry.{DirectoryEntry, is_directory}
use funny_os.Fat32.Paths.{DirectoryRef}
use funny_os.Fat32.Files.{
  NodeInfo, require_mounted, fat32_stat, list_cluster_dir, fat32_list_dir, read_file_from,
  fat32_read_file,
}
use funny_os.Fat32.Volume.{Device, Geometry, Volume, Cmd, pure, fail}
use funny_os.Fat32.Safe.{
  IsDisk, IsLaidOut, IsMounted, After, IsSafe, IsSafe->>=, IsSafe-attempt, safe,
}
use funny_os.Fat32.Safe.Clusters.{access, chains}
use funny_os.Fat32.Safe.Directory.{answers, IsSafe-walk_entries, entries}
use funny_os.Fat32.Safe.Paths.{paths}
use funny_os.Fat32.Calls.{
  Call, stat, list_dir, read_file, write_file, make_dir, remove, rename, called, perform,
  perform_all,
}
use funny_os.Fat32.Changes.{
  existing_file, write_name, replace_contents, append_contents, fat32_write_file, require_absent,
  fat32_make_dir, fat32_remove, move_entries, fat32_rename,
}

module _ {W : Type 0} (device : Device W) (contents : W → ℕ → List ℕ) (fuel : ℕ) (g : Geometry)
    (clusters limit : ℕ) (disk : IsDisk device contents limit)
    (laid : IsLaidOut g clusters limit) where
  abbrev Safe : {A : Type 0} → Cmd W A → Type 0
  Safe m = IsSafe contents g clusters limit m

  IsSafe-require_mounted : Safe (require_mounted device fuel)
  IsSafe-require_mounted = search (safe, access)

  pub IsSafe-fat32_stat : (path : List ℕ) → Safe (fat32_stat device fuel path)
  unfolding fat32_stat
  IsSafe-fat32_stat path = search (safe, answers, paths, IsSafe-require_mounted) depth 7

  IsSafe-list_cluster_dir :
      {S : Type 0} (callback : NodeInfo → S → Bool × S) (first : ℕ) (s : S)
      → Safe (list_cluster_dir device fuel callback first s)
  unfolding list_cluster_dir
  IsSafe-list_cluster_dir callback first s = search (safe, answers, IsSafe-walk_entries) depth 7

  pub IsSafe-fat32_list_dir :
      {S : Type 0} (path : List ℕ) (callback : NodeInfo → S → Bool × S) (s : S)
      → Safe (fat32_list_dir device fuel path callback s)
  unfolding fat32_list_dir
  IsSafe-fat32_list_dir path callback s =
      search (safe, paths, IsSafe-require_mounted, IsSafe-list_cluster_dir) depth 7

  IsSafe-read_file_from :
      {S : Type 0} (callback : List ℕ → S → Bool × S) (rounds cluster remaining : ℕ) (s : S)
      → Safe (read_file_from device fuel callback rounds cluster remaining s)
  unfolding read_file_from
  IsSafe-read_file_from callback zero cluster remaining s = search safe
  IsSafe-read_file_from callback (suc rounds) cluster remaining s =
      search (safe, access, IsSafe-read_file_from callback rounds) depth 12

  pub IsSafe-fat32_read_file :
      {S : Type 0} (path : List ℕ) (callback : List ℕ → S → Bool × S) (s : S)
      → Safe (fat32_read_file device fuel path callback s)
  unfolding fat32_read_file
  IsSafe-fat32_read_file path callback s =
      search (safe, answers, paths, IsSafe-require_mounted, IsSafe-read_file_from) depth 8

  existing-Safe :
      (r : Result ⊎ EntryRef)
      → Safe {A = Option EntryRef} (elim r [
        | inr ref ↦ if is_directory ref.entry then fail is_a_directory else pure (some ref)
        | inl not_found ↦ pure none
        | inl e ↦ fail e
      ])
  existing-Safe (inr ref) = search safe
  existing-Safe (inl not_found) = search safe
  existing-Safe (inl e) = search safe

  IsSafe-existing_file : (first : ℕ) (name : List ℕ) → Safe (existing_file device fuel first name)
  unfolding existing_file
  IsSafe-existing_file first name = search (safe, entries, existing-Safe)

  IsSafe-write_name :
      (parent : DirectoryRef) (name : List ℕ) (first size : ℕ) (existing : Option EntryRef)
      → Safe (write_name device fuel parent name first size existing)
  unfolding write_name
  IsSafe-write_name parent name first size (some ref) = search paths
  IsSafe-write_name parent name first size none = search (safe, entries, paths) depth 7

  IsSafe-replace_contents :
      (parent : DirectoryRef) (name bytes : List ℕ) (size : ℕ) (existing : Option EntryRef)
      → Safe (replace_contents device fuel parent name bytes size existing)
  unfolding replace_contents
  IsSafe-replace_contents parent name bytes size existing =
      search (safe, access, chains, IsSafe-write_name) depth 9

  IsSafe-append_contents :
      (parent : DirectoryRef) (name bytes : List ℕ) (size : ℕ) (existing : Option EntryRef)
      → Safe (append_contents device fuel parent name bytes size existing)
  unfolding append_contents
  IsSafe-append_contents parent name bytes size existing =
      search (safe, access, chains, IsSafe-write_name) depth 9

  pub IsSafe-fat32_write_file :
      (path bytes : List ℕ) (append : Bool) → Safe (fat32_write_file device fuel path bytes append)
  unfolding fat32_write_file
  IsSafe-fat32_write_file path bytes append =
      search
        (
          safe, paths, IsSafe-require_mounted, IsSafe-existing_file, IsSafe-replace_contents,
          IsSafe-append_contents,
        )
        depth 9

  absent-Safe :
      (r : Result ⊎ EntryRef)
      → Safe {A = Unit {0}}
          (elim r [ inr _ ↦ fail already_exists | inl not_found ↦ pure tt | inl e ↦ fail e ])
  absent-Safe (inr ref) = search safe
  absent-Safe (inl not_found) = search safe
  absent-Safe (inl e) = search safe

  IsSafe-require_absent : (first : ℕ) (name : List ℕ) → Safe (require_absent device fuel first name)
  unfolding require_absent
  IsSafe-require_absent first name = search (safe, entries, absent-Safe)

  pub IsSafe-fat32_make_dir : (path : List ℕ) → Safe (fat32_make_dir device fuel path)
  unfolding fat32_make_dir
  IsSafe-fat32_make_dir path =
      search (safe, access, chains, entries, paths, IsSafe-require_mounted, IsSafe-require_absent)
        depth 16

  pub IsSafe-fat32_remove : (path : List ℕ) → Safe (fat32_remove device fuel path)
  unfolding fat32_remove
  IsSafe-fat32_remove path = search (safe, access, entries, paths, IsSafe-require_mounted) depth 14

  IsSafe-move_entries :
      (old_parent new_parent : DirectoryRef) (old : EntryRef) (es : List DirectoryEntry)
      → Safe (move_entries device fuel old_parent new_parent old es)
  unfolding move_entries
  IsSafe-move_entries old_parent new_parent old es = search (safe, entries, paths) depth 8

  pub IsSafe-fat32_rename :
      (old_path new_path : List ℕ) → Safe (fat32_rename device fuel old_path new_path)
  unfolding fat32_rename
  IsSafe-fat32_rename old_path new_path =
      search
        (
          safe, access, entries, paths, IsSafe-require_mounted, IsSafe-require_absent,
          IsSafe-move_entries,
        )
        depth 16

  IsSafe-called : {A : Type 0} (m : Cmd W A) → Safe m → Safe (called m)
  IsSafe-called m h =
      IsSafe->>= contents g clusters limit _ _ (IsSafe-attempt contents g clusters limit m h)
        (λ _. search safe)

  IsSafe-perform : (c : Call) → Safe (perform device fuel c)
  unfolding perform
  IsSafe-perform (stat path) = search (IsSafe-called, IsSafe-fat32_stat)
  IsSafe-perform (list_dir path) = search (IsSafe-called, IsSafe-fat32_list_dir)
  IsSafe-perform (read_file path) = search (IsSafe-called, IsSafe-fat32_read_file)
  IsSafe-perform (write_file path bytes append) = search (IsSafe-called, IsSafe-fat32_write_file)
  IsSafe-perform (make_dir path) = search (IsSafe-called, IsSafe-fat32_make_dir)
  IsSafe-perform (remove path) = search (IsSafe-called, IsSafe-fat32_remove)
  IsSafe-perform (rename old_path new_path) = search (IsSafe-called, IsSafe-fat32_rename)

  IsSafe-perform_all : (calls : List Call) → Safe (perform_all device fuel calls)
  unfolding perform_all
  IsSafe-perform_all [] = search safe
  IsSafe-perform_all (c ∷ calls) =
      IsSafe->>= contents g clusters limit _ _ (IsSafe-perform c) (λ _. IsSafe-perform_all calls)

  -- On a disk whose reads change nothing and whose writes below the end of the volume touch no sectors
  -- but those that they name, a volume with a well-formed
  -- table, whose copies of the table and clusters lie between two sectors, goes through any sequence
  -- of calls, each of which may fail, with its geometry, a well-formed table of the same number of
  -- clusters, and no sector before the first copy of the table or after the last cluster changed. It
  -- holds at every end of a run, that of a loop whose rounds are used up among them.
  pub perform_all-Keeps :
      (calls : List Call) (v : Volume W)
      → IsMounted contents g clusters limit v
      → After contents g clusters limit v (perform_all device fuel calls v)
  perform_all-Keeps calls v h = (IsSafe-perform_all calls).run v h
