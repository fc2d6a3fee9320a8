-- ===== src/Fat32/Changes.antt =====
-- kernel/fat32.c: the operations that change files and directories.
use funny_os.Common.{
  ℕ, ◌+◌, ◌-◌, inl, inr, Bool, true, not, ◌&&◌, Option, none, some, List, [], ◌∷◌, leb, ◌==◌,
  if◌then◌else◌, length, replicate, add32, sub32,
}
use funny_os.Fat32.Chain.{
  not_found, already_exists, is_a_directory, directory_not_empty, invalid_name, clusters_for_size,
}
use funny_os.Fat32.Entry.{
  DirectoryEntry, entry_name, attributes, file_size, entry_first_cluster, entry_set_first_cluster,
  fat32_directory, fat32_archive, is_directory,
}
use funny_os.Fat32.Clusters.{
  free_chain, trim_chain, allocate_cluster_chain, ensure_cluster_chain_length, write_data_to_chain,
}
use funny_os.Fat32.Directory.{is_equal, EntryRef, directory_is_empty, find_entry, find_free_entry}
use funny_os.Fat32.Paths.{
  DirectoryRef, path_is_descendant_of, lookup_parent_and_name, build_name_entries,
  write_entry_span_at, write_entry_at, mark_entry_range_deleted, mark_entry_deleted,
  update_directory_parent,
}
use funny_os.Fat32.Volume.{
  Device, Cmd, pure, fail, attempt, ◌>>=◌, ◌>>◌, require, geometry, buffer, set_buffer, must_write,
  must_flush, cleared,
}
use funny_os.Fat32.Bytes.{put_u32}
use funny_os.KString.{k_memcpy, k_strcmp}
use funny_os.Fat32.Alias.{short_entry}
use funny_os.Fat32.Files.{require_mounted}

-- "." and "..", as the entries of a new directory.
abbrev pub special_entry : (name : List ℕ) (cluster : ℕ) → DirectoryEntry
special_entry name cluster =
    short_entry (k_memcpy (replicate 11 0x20) 0 name) fat32_directory cluster 0

abbrev pub parent_cluster : DirectoryRef → ℕ
parent_cluster d = if d.is_root then 0 else d.first_cluster

-- `write_entry_at(&entry_ref, &entry)` with the first cluster and the size set.
abbrev pub updated : (first_cluster size : ℕ) → DirectoryEntry → DirectoryEntry
updated first_cluster size e = put_u32 28 size (entry_set_first_cluster first_cluster e)

module _ {W : Type 0} (device : Device W) (fuel : ℕ) where
  -- The entry of a file that is written to, if it exists.
  unfoldable pub existing_file : (first_cluster : ℕ) (name : List ℕ) → Cmd W (Option EntryRef)
  existing_file first_cluster name = do
    r ← attempt (find_entry device fuel first_cluster name)
    elim r [
      | inr ref ↦ if is_directory ref.entry then fail is_a_directory else pure (some ref)
      | inl not_found ↦ pure none
      | inl e ↦ fail e
    ]

  -- The end of `fat32_write_file`: the entry that exists is written, or those of the new name.
  unfoldable pub write_name :
      (parent : DirectoryRef) (name : List ℕ) (first_cluster size : ℕ)
      → Option EntryRef
      → Cmd W (Unit {0})
  write_name parent name first_cluster size (some ref) =
      write_entry_at device fuel ref (updated first_cluster size ref.entry)
  write_name parent name first_cluster size none = do
    entries ←
        build_name_entries device fuel parent.first_cluster name fat32_archive first_cluster size
          none
    slot ← find_free_entry device fuel parent.first_cluster (length entries)
    write_entry_span_at device fuel parent.first_cluster slot.entry_index entries

  abbrev pub old_size : Option EntryRef → ℕ
  old_size none = 0
  old_size (some ref) = file_size ref.entry

  abbrev pub old_cluster : Option EntryRef → ℕ
  old_cluster none = 0
  old_cluster (some ref) = entry_first_cluster ref.entry

  -- `trim_cluster_chain(&first_cluster, …)` gives the first cluster back.
  unfoldable pub replace_contents :
      (parent : DirectoryRef) (name bytes : List ℕ) (size : ℕ) → Option EntryRef → Cmd W (Unit {0})
  replace_contents parent name bytes size existing = do
    g ← geometry
    let required = clusters_for_size g.cluster_size size
    first ←
        ensure_cluster_chain_length device fuel (old_cluster existing)
          (clusters_for_size g.cluster_size (old_size existing)) required
    first' ← trim_chain fuel first required
    must_flush device
    write_data_to_chain device fuel first' 0 bytes size
    write_name parent name first' size existing

  unfoldable pub append_contents :
      (parent : DirectoryRef) (name bytes : List ℕ) (size : ℕ) → Option EntryRef → Cmd W (Unit {0})
  append_contents parent name bytes size existing = do
    g ← geometry
    first ←
        ensure_cluster_chain_length device fuel (old_cluster existing)
          (clusters_for_size g.cluster_size (old_size existing))
          (clusters_for_size g.cluster_size (add32 (old_size existing) size))
    must_flush device
    write_data_to_chain device fuel first (old_size existing) bytes size
    write_name parent name first (add32 (old_size existing) size) existing

  -- `size` is the number of bytes.
  unfoldable pub fat32_write_file : (path bytes : List ℕ) (append : Bool) → Cmd W (Unit {0})
  fat32_write_file path bytes append = do
    require_mounted device fuel
    (parent, (name, parent_path)) ← lookup_parent_and_name device fuel path
    existing ← existing_file parent.first_cluster name
    if append
        then append_contents parent name bytes (length bytes) existing
        else replace_contents parent name bytes (length bytes) existing

  -- `if (result == FAT32_OK) return FAT32_ALREADY_EXISTS; if (result != FAT32_NOT_FOUND) return result;`
  unfoldable pub require_absent : (first_cluster : ℕ) (name : List ℕ) → Cmd W (Unit {0})
  require_absent first_cluster name = do
    r ← attempt (find_entry device fuel first_cluster name)
    elim r [ inr _ ↦ fail already_exists | inl not_found ↦ pure tt | inl e ↦ fail e ]

  abbrev pub new_directory : (cluster parent : ℕ) (b : List ℕ) → List ℕ
  new_directory cluster parent b =
      k_memcpy (k_memcpy b 0 (special_entry (0x2e ∷ []) cluster)) 32
        (special_entry (0x2e ∷ 0x2e ∷ []) parent)

  unfoldable pub fat32_make_dir : (path : List ℕ) → Cmd W (Unit {0})
  fat32_make_dir path = do
    require_mounted device fuel
    (parent, (name, parent_path)) ← lookup_parent_and_name device fuel path
    require_absent parent.first_cluster name
    dir_cluster ← allocate_cluster_chain device fuel 1
    must_flush device
    g ← geometry
    b ← buffer
    set_buffer (new_directory dir_cluster (parent_cluster parent) (cleared device g.cluster_size b))
    must_write device dir_cluster
    entries ←
        build_name_entries device fuel parent.first_cluster name fat32_directory dir_cluster 0 none
    slot ← find_free_entry device fuel parent.first_cluster (length entries)
    write_entry_span_at device fuel parent.first_cluster slot.entry_index entries

  unfoldable pub fat32_remove : (path : List ℕ) → Cmd W (Unit {0})
  fat32_remove path = do
    require_mounted device fuel
    (parent, (name, parent_path)) ← lookup_parent_and_name device fuel path
    ref ← find_entry device fuel parent.first_cluster name
    empty ←
        (if is_directory ref.entry
          then directory_is_empty device fuel (entry_first_cluster ref.entry)
          else pure true)
    require empty directory_not_empty
    mark_entry_deleted device fuel ref
    (if leb 2 (entry_first_cluster ref.entry)
        then free_chain fuel (entry_first_cluster ref.entry)
        else pure 0)
    must_flush device

  abbrev pub same_directory : (a b : DirectoryRef) → Bool
  same_directory a b =
      (if a.is_root then b.is_root else not b.is_root) && a.first_cluster == b.first_cluster

  -- The old entries, in a directory whose entry has moved or not.
  unfoldable pub move_entries :
      (old_parent new_parent : DirectoryRef) (old : EntryRef) (entries : List DirectoryEntry)
      → Cmd W (Unit {0})
  move_entries old_parent new_parent old entries =
      let start = sub32 old.entry_index old.lfn_entry_count in
      let span = old.lfn_entry_count + 1 in
      if same_directory old_parent new_parent && leb (length entries) span
      then (do
        write_entry_span_at device fuel old_parent.first_cluster start entries
        mark_entry_range_deleted device fuel old_parent.first_cluster (add32 start (length entries))
            (span - length entries))
      else (do
        slot ← find_free_entry device fuel new_parent.first_cluster (length entries)
        write_entry_span_at device fuel new_parent.first_cluster slot.entry_index entries
        mark_entry_deleted device fuel old)

  unfoldable pub fat32_rename : (old_path new_path : List ℕ) → Cmd W (Unit {0})
  fat32_rename old_path new_path = do
    require_mounted device fuel
    if is_equal (k_strcmp old_path new_path) then pure tt else do
      (old_parent, (old_name, old_parent_path)) ← lookup_parent_and_name device fuel old_path
      (new_parent, (new_name, new_parent_path)) ← lookup_parent_and_name device fuel new_path
      old ← find_entry device fuel old_parent.first_cluster old_name
      require (not (is_directory old.entry && path_is_descendant_of new_parent_path old_path 0))
          invalid_name
      require_absent new_parent.first_cluster new_name
      entries ←
          build_name_entries device fuel new_parent.first_cluster new_name (attributes old.entry)
            (entry_first_cluster old.entry) (file_size old.entry)
            (if same_directory old_parent new_parent then some (entry_name old.entry) else none)
      move_entries old_parent new_parent old entries
      if is_directory old.entry
          then update_directory_parent device fuel (entry_first_cluster old.entry)
              (parent_cluster new_parent)
          else pure tt
