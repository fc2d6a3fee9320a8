-- ===== src/Fat32/Safe/Paths.antt =====
-- The commands on paths and on the entries of a name are safe.
use funny_os.Common.{ℕ, zero, suc, Option, none, some, List, [], ◌∷◌, add32}
use funny_os.Fat32.Directory.{EntryRef}
use funny_os.Fat32.Entry.{DirectoryEntry, attributes}
use funny_os.Fat32.Paths.{
  directory_of, resolve_from, resolve_path, as_directory, resolve_directory, lookup_split,
  lookup_parent_and_name, unused_alias, exact_short_name, build_name_entries, write_entry_span_at,
  write_entry_at, mark_entry_range_deleted, mark_entry_deleted, update_directory_parent,
}
use funny_os.Fat32.Volume.{Device, Geometry, Cmd}
use funny_os.Fat32.Safe.{IsDisk, IsLaidOut, IsSafe, IsSafe->>=, safe}
use funny_os.Fat32.Safe.Clusters.{access}
use funny_os.Fat32.Safe.Directory.{answers, entries}

module _ {W : Type 0} (device : Device W) (contents : W → ℕ → List ℕ) (fuel : ℕ) (g : Geometry)
    (clusters limit : ℕ) (disk : IsDisk device contents limit)
    (laid : IsLaidOut g clusters limit) where
  abbrev Safe : {A : Type 0} → Cmd W A → Type 0
  Safe m = IsSafe contents g clusters limit m

  IsSafe-directory_of : (current : Option DirectoryEntry) → Safe (directory_of device fuel current)
  IsSafe-directory_of none = search safe
  IsSafe-directory_of (some e) = search safe

  IsSafe-resolve_from :
      (rounds : ℕ) (cursor : List ℕ) (current : Option DirectoryEntry)
      → Safe (resolve_from device fuel rounds cursor current)
  unfolding resolve_from
  IsSafe-resolve_from zero cursor current = search safe
  IsSafe-resolve_from (suc rounds) cursor current =
      search (safe, access, entries, IsSafe-directory_of, IsSafe-resolve_from rounds) depth 10

  pub IsSafe-resolve_path : (path : List ℕ) → Safe (resolve_path device fuel path)
  unfolding resolve_path
  IsSafe-resolve_path path = search IsSafe-resolve_from

  IsSafe-as_directory : (found : Option DirectoryEntry) → Safe (as_directory device fuel found)
  IsSafe-as_directory none = search safe
  IsSafe-as_directory (some e) = search safe

  pub IsSafe-resolve_directory : (path : List ℕ) → Safe (resolve_directory device fuel path)
  unfolding resolve_directory
  IsSafe-resolve_directory path = search (safe, IsSafe-resolve_path, IsSafe-as_directory)

  IsSafe-lookup_split : (split : Option (List ℕ × List ℕ)) → Safe (lookup_split device fuel split)
  IsSafe-lookup_split none = search safe
  IsSafe-lookup_split (some (parent_path, name)) = search (safe, access, IsSafe-resolve_directory)

  pub IsSafe-lookup_parent_and_name :
      (path : List ℕ) → Safe (lookup_parent_and_name device fuel path)
  unfolding lookup_parent_and_name
  IsSafe-lookup_parent_and_name path = search IsSafe-lookup_split

  IsSafe-unused_alias :
      (rounds ordinal directory : ℕ) (name : List ℕ) (ignore : Option (List ℕ))
      → Safe (unused_alias device fuel rounds ordinal directory name ignore)
  unfolding unused_alias
  IsSafe-unused_alias zero ordinal directory name ignore = search safe
  IsSafe-unused_alias (suc rounds) ordinal directory name ignore =
      search (safe, entries, IsSafe-unused_alias rounds) depth 7

  IsSafe-exact_short_name :
      (directory : ℕ) (ignore exact : Option (List ℕ))
      → Safe (exact_short_name device fuel directory ignore exact)
  unfolding exact_short_name
  IsSafe-exact_short_name directory ignore none = search safe
  IsSafe-exact_short_name directory ignore (some short_name) = search (safe, entries)

  pub IsSafe-build_name_entries :
      (directory : ℕ) (name : List ℕ) (attributes first size : ℕ) (ignore : Option (List ℕ))
      → Safe (build_name_entries device fuel directory name attributes first size ignore)
  unfolding build_name_entries
  IsSafe-build_name_entries directory name attributes first size ignore =
      search (safe, access, answers, IsSafe-exact_short_name, IsSafe-unused_alias) depth 8

  pub IsSafe-write_entry_span_at :
      (first start : ℕ) (es : List DirectoryEntry)
      → Safe (write_entry_span_at device fuel first start es)
  unfolding write_entry_span_at
  IsSafe-write_entry_span_at first start [] = search safe
  IsSafe-write_entry_span_at first start (e ∷ es) =
      IsSafe->>= contents g clusters limit _ _ (search entries)
        (λ _. IsSafe-write_entry_span_at first (add32 start 1) es)

  pub IsSafe-write_entry_at :
      (ref : EntryRef) (e : DirectoryEntry) → Safe (write_entry_at device fuel ref e)
  unfolding write_entry_at
  IsSafe-write_entry_at ref e = search entries

  pub IsSafe-mark_entry_range_deleted :
      (first start count : ℕ) → Safe (mark_entry_range_deleted device fuel first start count)
  unfolding mark_entry_range_deleted
  IsSafe-mark_entry_range_deleted first start zero = search safe
  IsSafe-mark_entry_range_deleted first start (suc count) =
      IsSafe->>= contents g clusters limit _ _ (search entries) (λ e.
        IsSafe->>= contents g clusters limit _ _ (search entries)
          (λ _. IsSafe-mark_entry_range_deleted first (add32 start 1) count))

  pub IsSafe-mark_entry_deleted : (ref : EntryRef) → Safe (mark_entry_deleted device fuel ref)
  unfolding mark_entry_deleted
  IsSafe-mark_entry_deleted ref = search IsSafe-mark_entry_range_deleted

  pub IsSafe-update_directory_parent :
      (cluster parent : ℕ) → Safe (update_directory_parent device fuel cluster parent)
  unfolding update_directory_parent
  IsSafe-update_directory_parent cluster parent = search (safe, access)

  pub ruleset paths = (
    IsSafe-resolve_path, IsSafe-resolve_directory, IsSafe-lookup_parent_and_name,
    IsSafe-build_name_entries, IsSafe-write_entry_span_at, IsSafe-write_entry_at,
    IsSafe-mark_entry_range_deleted, IsSafe-mark_entry_deleted, IsSafe-update_directory_parent,
  )
