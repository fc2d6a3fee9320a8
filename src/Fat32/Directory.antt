-- ===== src/Fat32/Directory.antt =====
-- kernel/fat32.c: directories, as chains of clusters full of entries.
use funny_os.Common.{
  ℕ, zero, suc, ◌+◌, ◌-◌, ◌*◌, ◌/◌, ◌%◌, inl, inr, Bool, true, false, not, ◌||◌, Option, none, some,
  List, [], leb, ◌==◌, if◌then◌else◌, add32,
}
use funny_os.Fat32.Bytes.{slice}
use funny_os.Fat32.Chain.{not_found, io_error, goes_on, get_cluster_at_index}
use funny_os.Fat32.Entry.{
  DirectoryEntry, entry_size, entry_name, first_byte, attributes, fat32_lfn, fat32_deleted,
  is_volume_id, should_skip_entry, LfnState, lfn_state_reset, process_lfn_entry, lfn_matches,
  decode_directory_entry_name,
}
use funny_os.Fat32.Clusters.{append_cluster}
use funny_os.Fat32.Volume.{
  Device, Geometry, Cmd, pure, fail, diverge, attempt, ◌>>=◌, ◌>>◌, require, geometry, table,
  buffer, set_buffer, fat32_next_cluster, must_read, must_write, must_flush, zero_cluster,
}
use funny_os.KString.{k_memcpy, Sign, equal, k_memcmp}
use funny_os.Fat32.Names.{name_equals_ignore_case}

-- `k_memcmp(a, b, 11u) == 0`
abbrev pub is_equal : Sign → Bool
is_equal equal = true
is_equal _ = false

abbrev pub same_short_name : (a b : List ℕ) → Bool
same_short_name a b = is_equal (k_memcmp a b 11)

-- `EntryRef`; `found` is `true` for a reference to an entry and `false` for a free place.
pub record EntryRef : Type 0 where
  pub found : Bool
  pub directory_first_cluster : ℕ
  pub entry_index : ℕ
  pub lfn_entry_count : ℕ
  pub entry : DirectoryEntry

abbrev pub entries_per_cluster : Geometry → ℕ
entries_per_cluster g = g.cluster_size / entry_size

abbrev pub nth_entry : List ℕ → ℕ → DirectoryEntry
nth_entry bytes i = slice (i * entry_size) entry_size bytes

abbrev pub empty_lfn : LfnState
empty_lfn = record { active = false; valid = false; checksum = 0; expected_order = 0; name = [] }

-- What one round of a loop over entries decides.
pub data Step (S A : Type 0) : Type 0 where
  next : S → Step S A
  stop : A → Step S A

-- One round of `short_name_exists_in_directory`.
unfoldable pub exists_round :
    (short_name : List ℕ) (ignore : Option (List ℕ)) (i : ℕ)
    → DirectoryEntry
    → Unit {0}
    → Step (Unit {0}) Bool
exists_round short_name ignore i e s =
    let ignored : Bool = elim ignore [ none ↦ false | some n ↦ same_short_name (entry_name e) n ] in
    if first_byte e == 0
    then stop false
    else if first_byte e == fat32_deleted || attributes e == fat32_lfn || is_volume_id e || ignored
    then next tt
    else if same_short_name (entry_name e) short_name
    then stop true
    else next tt

-- What a search has found: the index, the entry, and the long name's state.
pub record Found : Type 0 where
  pub index : ℕ
  pub entry : DirectoryEntry
  pub lfn : LfnState

-- One round of `find_entry_in_cluster_dir`.
unfoldable pub find_round :
    (name : List ℕ) (index : ℕ) → DirectoryEntry → LfnState → Step LfnState (Option Found)
find_round name index e s =
    if first_byte e == 0
    then stop none
    else if first_byte e == fat32_deleted
    then next (lfn_state_reset s)
    else if attributes e == fat32_lfn
    then next (process_lfn_entry e s)
    else if should_skip_entry e
    then next (lfn_state_reset s)
    else if name_equals_ignore_case (decode_directory_entry_name e s) name
    then stop (some (record { index = index; entry = e; lfn = s }))
    else next (lfn_state_reset s)

-- `run_start`, `run_count` and the entries seen, of `find_free_entry_in_cluster_dir`.
pub record FreeRun : Type 0 where
  pub run_start : ℕ
  pub run_count : ℕ
  pub seen : ℕ

abbrev pub is_free_entry : DirectoryEntry → Bool
is_free_entry e = first_byte e == 0 || first_byte e == fat32_deleted

abbrev pub longer : (index : ℕ) → FreeRun → FreeRun
longer index s = record {
  run_start = if s.run_count == 0 then index else s.run_start;
  run_count = s.run_count + 1;
  seen = index + 1;
}

unfoldable pub free_round : (needed index : ℕ) → DirectoryEntry → FreeRun → Step FreeRun ℕ
free_round needed index e s =
    let s' = longer index s in
    if is_free_entry e
    then (if leb needed s'.run_count then stop s'.run_start else next s')
    else next (record s { run_count = 0; seen = index + 1 })

-- One round of `directory_is_empty`; the state of the long name is not used.
unfoldable pub empty_round : (index : ℕ) → DirectoryEntry → Unit {0} → Step (Unit {0}) Bool
empty_round index e s =
    if first_byte e == 0
    then stop true
    else if first_byte e == fat32_deleted || attributes e == fat32_lfn || should_skip_entry e
    then next tt
    else if first_byte e == 0x2e
    then next tt
    else stop false

-- The loop over the entries of a cluster that is in the buffer, `count` of them from `i` on.
unfoldable pub scan_entries :
    {S A : Type 0}
    → (round : ℕ → DirectoryEntry → S → Step S A) → (count i : ℕ) (bytes : List ℕ) → S
    → Step S A
scan_entries round zero i bytes s = next s
scan_entries round (suc count) i bytes s = elim (round i (nth_entry bytes i) s) [
  | next s' ↦ scan_entries round count (suc i) bytes s'
  | stop a ↦ stop a
]

module _ {W : Type 0} (device : Device W) (fuel : ℕ) where
  -- The loop `while (cluster >= 2u && cluster < FAT32_END_OF_CHAIN)` over the clusters of a directory,
  -- with a round for each entry. It gives the answer of the round that stops, if one does.
  unfoldable pub walk_entries :
      {S A : Type 0}
      → (round : ℕ → DirectoryEntry → S → Step S A) → (fuel cluster base : ℕ) → S
      → Cmd W (Step S A)
  walk_entries round zero cluster base s = diverge
  walk_entries round (suc fuel) cluster base s = if not (goes_on cluster) then pure (next s) else do
    must_read device cluster
    g ← geometry
    bytes ← buffer
    elim (scan_entries (λ i. round (add32 base i)) (entries_per_cluster g) 0 bytes s) [
      | stop a ↦ pure (stop a)
      | next s' ↦ do
        cluster' ← fat32_next_cluster cluster
        walk_entries round fuel cluster' (add32 base (entries_per_cluster g)) s'
    ]

  -- A failed read counts as "exists".
  unfoldable pub short_name_exists :
      (first_cluster : ℕ) (short_name : List ℕ) (ignore : Option (List ℕ)) → Cmd W Bool
  short_name_exists first_cluster short_name ignore = do
    r ← attempt (walk_entries (exists_round short_name ignore) fuel first_cluster 0 tt)
    elim r [ inl _ ↦ pure true | inr s ↦ elim s [ next _ ↦ pure false | stop b ↦ pure b ] ]

  -- A failed read counts as "not empty".
  unfoldable pub directory_is_empty : (first_cluster : ℕ) → Cmd W Bool
  directory_is_empty first_cluster = do
    r ← attempt (walk_entries empty_round fuel first_cluster 0 tt)
    elim r [ inl _ ↦ pure false | inr s ↦ elim s [ next _ ↦ pure true | stop b ↦ pure b ] ]

  unfoldable pub cluster_for_directory_index : (first_cluster entry_index : ℕ) → Cmd W ℕ
  cluster_for_directory_index first_cluster entry_index = do
    g ← geometry
    f ← table
    pure (get_cluster_at_index f first_cluster (entry_index / entries_per_cluster g))

  unfoldable pub read_directory_entry : (first_cluster entry_index : ℕ) → Cmd W DirectoryEntry
  read_directory_entry first_cluster entry_index = do
    cluster ← cluster_for_directory_index first_cluster entry_index
    require (goes_on cluster) not_found
    must_read device cluster
    g ← geometry
    bytes ← buffer
    pure (nth_entry bytes (entry_index % entries_per_cluster g))

  unfoldable pub write_directory_entry :
      (first_cluster entry_index : ℕ) → DirectoryEntry → Cmd W (Unit {0})
  write_directory_entry first_cluster entry_index e = do
    cluster ← cluster_for_directory_index first_cluster entry_index
    require (goes_on cluster) io_error
    must_read device cluster
    g ← geometry
    bytes ← buffer
    set_buffer (k_memcpy bytes (entry_index % entries_per_cluster g * entry_size) e)
    must_write device cluster

  -- The loop that counts the entries of a long name before the entry at `j`.
  unfoldable pub count_lfn_entries : (first_cluster j : ℕ) → Cmd W ℕ
  count_lfn_entries first_cluster zero = pure 0
  count_lfn_entries first_cluster (suc j) = do
    r ← attempt (read_directory_entry first_cluster j)
    elim r [
      | inl _ ↦ pure 0
      | inr e ↦
          if not (attributes e == fat32_lfn)
          then pure 0
          else do n ← count_lfn_entries first_cluster j; pure (suc n)
    ]

  abbrev pub reference : (first_cluster lfn_count : ℕ) → Found → EntryRef
  reference first_cluster lfn_count f = record {
    found = true;
    directory_first_cluster = first_cluster;
    entry_index = f.index;
    lfn_entry_count = lfn_count;
    entry = f.entry;
  }

  abbrev pub refer : (first_cluster : ℕ) → Found → Cmd W EntryRef
  refer first_cluster f =
      if lfn_matches f.entry f.lfn
      then (do n ← count_lfn_entries first_cluster f.index; pure (reference first_cluster n f))
      else pure (reference first_cluster 0 f)

  unfoldable pub find_entry : (first_cluster : ℕ) (name : List ℕ) → Cmd W EntryRef
  find_entry first_cluster name = do
    r ← walk_entries (find_round name) fuel first_cluster 0 empty_lfn
    elim r [
      | next _ ↦ fail not_found
      | stop o ↦ elim o [ none ↦ fail not_found | some f ↦ refer first_cluster f ]
    ]

  abbrev pub free_place : (first_cluster needed index : ℕ) → EntryRef
  free_place first_cluster needed index = record {
    found = false;
    directory_first_cluster = first_cluster;
    entry_index = index;
    lfn_entry_count = needed - 1;
    entry = [];
  }

  -- A directory without enough free entries in a row gets a cluster more.
  unfoldable pub find_free_entry : (first_cluster needed : ℕ) → Cmd W EntryRef
  find_free_entry first_cluster needed = do
    r ←
        walk_entries (free_round needed) fuel first_cluster 0
          (record { run_start = 0; run_count = 0; seen = 0 })
    elim r [
      | stop index ↦ pure (free_place first_cluster needed index)
      | next s ↦ do
        new_cluster ← append_cluster fuel first_cluster
        zero_cluster device new_cluster
        must_flush device
        pure (
            free_place first_cluster needed
              (if not (s.run_count == 0) then s.run_start else s.seen))
    ]
