-- ===== src/Fat32/Paths.antt =====
-- kernel/fat32.c: paths resolved to directories and entries, and the entries of a new name.
use funny_os.Common.{
  ℕ, zero, suc, ◌+◌, Bool, true, false, not, ◌||◌, Option, none, some, List, [], ◌∷◌, ◌++◌, ltb,
  leb, ◌==◌, if◌then◌else◌, length, get_or, take, drop, add32, sub32,
}
use funny_os.Path.{slash, skip_slashes, name_of, after_name}
use funny_os.Fat32.Chain.{not_a_directory, invalid_name}
use funny_os.Fat32.Names.{name_capacity, validate_long_name, short_name_checksum}
use funny_os.Fat32.Entry.{
  DirectoryEntry, attributes, entry_first_cluster, entry_set_first_cluster, fat32_deleted,
  is_directory,
}
use funny_os.Fat32.Alias.{
  make_short_name_if_possible, build_short_alias, lfn_entry_count_for_name, lfn_entries,
  short_entry,
}
use funny_os.Fat32.Volume.{
  Device, Cmd, pure, fail, diverge, ◌>>=◌, ◌>>◌, require, geometry, buffer, set_buffer, must_read,
  must_write,
}
use funny_os.Fat32.Directory.{
  EntryRef, nth_entry, short_name_exists, read_directory_entry, write_directory_entry, find_entry,
}
use funny_os.Fat32.Bytes.{put_u8}
use funny_os.KString.{k_memcpy}

-- `ResolvedPath` is `none` for the root; `DirectoryRef` is a record.
pub record DirectoryRef : Type 0 where
  pub is_root : Bool
  pub first_cluster : ℕ

-- The index of the last separator; `path` starts with one.
unfoldable pub last_slash : (i last : ℕ) (path : List ℕ) → ℕ
last_slash i last [] = last
last_slash i last (c ∷ cs) = last_slash (suc i) (if c == slash then i else last) cs

-- `parent_out` and `name_out`
unfoldable pub split_path : (path : List ℕ) → Option (List ℕ × List ℕ)
split_path path =
    let at = last_slash 0 0 path in
    let name = drop (at + 1) path in
    let parent = if at == 0 then slash ∷ [] else take at path in
    if not (get_or path 0 0 == slash) || ltb (length path) 2
    then none
    else if length name == 0
    then none
    else if leb name_capacity (length name)
    then none
    else some (parent, name)

-- The loop over two paths; they are read from their starts.
unfoldable pub path_is_descendant_of : (path parent : List ℕ) (before : ℕ) → Bool
path_is_descendant_of path [] before =
    if before == slash then true else get_or path 0 0 == slash || length path == 0
path_is_descendant_of [] (p ∷ ps) before = false
path_is_descendant_of (c ∷ cs) (p ∷ ps) before =
    let rest = path_is_descendant_of cs ps p in if c == p then rest else false

module _ {W : Type 0} (device : Device W) (fuel : ℕ) where
  -- The directory that a component is looked up in.
  abbrev pub directory_of : Option DirectoryEntry → Cmd W ℕ
  directory_of none = do g ← geometry; pure g.root_cluster
  directory_of (some e) =
      if not (is_directory e) then fail not_a_directory else pure (entry_first_cluster e)

  abbrev pub is_empty : List ℕ → Bool
  is_empty s = length s == 0

  -- The rounds of the loop, of which each takes a component.
  unfoldable pub resolve_from :
      (rounds : ℕ) (cursor : List ℕ) → Option DirectoryEntry → Cmd W (Option DirectoryEntry)
  resolve_from zero cursor current = if is_empty cursor then pure current else diverge
  resolve_from (suc rounds) cursor current =
      if is_empty cursor
      then pure current
      else if leb name_capacity (length (name_of cursor))
          || not (validate_long_name (name_of cursor))
      then fail invalid_name
      else do
        first_cluster ← directory_of current
        found ← find_entry device fuel first_cluster (name_of cursor)
        let rest = skip_slashes (after_name cursor)
        require (is_empty rest || is_directory found.entry) not_a_directory
        resolve_from rounds rest (some found.entry)

  unfoldable pub resolve_path : (path : List ℕ) → Cmd W (Option DirectoryEntry)
  resolve_path path = resolve_from (length path) (skip_slashes path) none

  abbrev pub as_directory : Option DirectoryEntry → Cmd W DirectoryRef
  as_directory none = do
    g ← geometry
    pure (record { is_root = true; first_cluster = g.root_cluster })
  as_directory (some e) =
      if not (is_directory e)
      then fail not_a_directory
      else pure (record { is_root = false; first_cluster = entry_first_cluster e })

  unfoldable pub resolve_directory : (path : List ℕ) → Cmd W DirectoryRef
  resolve_directory path = do found ← resolve_path path; as_directory found

  -- The parent, the name and the parent's path.
  abbrev pub lookup_split : Option (List ℕ × List ℕ) → Cmd W (DirectoryRef × (List ℕ × List ℕ))
  lookup_split none = fail invalid_name
  lookup_split (some (parent_path, name)) = do
    require (validate_long_name name) invalid_name
    parent ← resolve_directory parent_path
    pure (parent, (name, parent_path))

  unfoldable pub lookup_parent_and_name : (path : List ℕ) → Cmd W (DirectoryRef × (List ℕ × List ℕ))
  lookup_parent_and_name path = lookup_split (split_path path)

  -- The loop that tries aliases from an ordinal on, at most `rounds` of them.
  unfoldable pub unused_alias :
      (rounds ordinal directory_cluster : ℕ) (name : List ℕ) (ignore : Option (List ℕ))
      → Cmd W (List ℕ)
  unused_alias zero ordinal directory_cluster name ignore = diverge
  unused_alias (suc rounds) ordinal directory_cluster name ignore = do
    let short_name = build_short_alias name ordinal
    exists ← short_name_exists device fuel directory_cluster short_name ignore
    if exists
        then unused_alias rounds (add32 ordinal 1) directory_cluster name ignore
        else pure short_name

  -- The short name to use, if the name itself is one that is not in use.
  unfoldable pub exact_short_name :
      (directory_cluster : ℕ) (ignore : Option (List ℕ)) → Option (List ℕ) → Cmd W (Option (List ℕ))
  exact_short_name directory_cluster ignore none = pure none
  exact_short_name directory_cluster ignore (some short_name) = do
    exists ← short_name_exists device fuel directory_cluster short_name ignore
    pure (if exists then none else some short_name)

  abbrev pub entries_with :
      (lfn_count : ℕ) (short_name name : List ℕ) (attributes first_cluster size : ℕ)
      → List DirectoryEntry
  entries_with lfn_count short_name name attributes first_cluster size =
      lfn_entries lfn_count lfn_count (short_name_checksum short_name) name
      ++ (short_entry short_name attributes first_cluster size ∷ [])

  unfoldable pub build_name_entries :
      (directory_cluster : ℕ) (name : List ℕ) (attributes first_cluster size : ℕ)
      (ignore : Option (List ℕ))
      → Cmd W (List DirectoryEntry)
  build_name_entries directory_cluster name attributes first_cluster size ignore =
      if not (validate_long_name name) then fail invalid_name else do
        exact ← exact_short_name directory_cluster ignore (make_short_name_if_possible name)
        elim exact [
          | some short_name ↦ pure (entries_with 0 short_name name attributes first_cluster size)
          | none ↦ do
            short_name ← unused_alias fuel 1 directory_cluster name ignore
            let lfn_count = lfn_entry_count_for_name name
            require (leb (lfn_count + 1) 11) invalid_name
            pure (entries_with lfn_count short_name name attributes first_cluster size)
        ]

  -- `write_entry_span_at`: the entries from an index on.
  unfoldable pub write_entry_span_at :
      (first_cluster start_index : ℕ) → List DirectoryEntry → Cmd W (Unit {0})
  write_entry_span_at first_cluster start_index [] = pure tt
  write_entry_span_at first_cluster start_index (e ∷ es) = do
    write_directory_entry device fuel first_cluster start_index e
    write_entry_span_at first_cluster (add32 start_index 1) es

  unfoldable pub write_entry_at : EntryRef → DirectoryEntry → Cmd W (Unit {0})
  write_entry_at ref e =
      write_directory_entry device fuel ref.directory_first_cluster ref.entry_index e

  unfoldable pub mark_entry_range_deleted : (first_cluster start_index count : ℕ) → Cmd W (Unit {0})
  mark_entry_range_deleted first_cluster start_index zero = pure tt
  mark_entry_range_deleted first_cluster start_index (suc count) = do
    e ← read_directory_entry device fuel first_cluster start_index
    write_directory_entry device fuel first_cluster start_index (put_u8 0 fat32_deleted e)
    mark_entry_range_deleted first_cluster (add32 start_index 1) count

  -- The entry and those of its long name.
  unfoldable pub mark_entry_deleted : EntryRef → Cmd W (Unit {0})
  mark_entry_deleted ref =
      mark_entry_range_deleted ref.directory_first_cluster
        (sub32 ref.entry_index ref.lfn_entry_count) (ref.lfn_entry_count + 1)

  unfoldable pub update_directory_parent : (dir_cluster parent_cluster : ℕ) → Cmd W (Unit {0})
  update_directory_parent dir_cluster parent_cluster = do
    must_read device dir_cluster
    b ← buffer
    set_buffer (k_memcpy b 32 (entry_set_first_cluster parent_cluster (nth_entry b 1)))
    must_write device dir_cluster
