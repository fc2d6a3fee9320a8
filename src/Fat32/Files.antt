-- ===== src/Fat32/Files.antt =====
-- kernel/fat32.c: the operations that look at files and directories.
use funny_os.Common.{
  ℕ, zero, suc, ◌-◌, Bool, true, not, ◌&&◌, none, some, List, [], ◌∷◌, ltb, ◌==◌, if◌then◌else◌,
  length, take,
}
use funny_os.Path.{slash}
use funny_os.Fat32.Chain.{is_a_directory, io_error, goes_on}
use funny_os.Fat32.Entry.{
  DirectoryEntry, first_byte, attributes, file_size, entry_first_cluster, fat32_lfn, fat32_deleted,
  is_directory, should_skip_entry, LfnState, lfn_state_reset, process_lfn_entry,
  decode_directory_entry_name,
}
use funny_os.Fat32.Directory.{empty_lfn, Step, next, stop, walk_entries}
use funny_os.Fat32.Paths.{resolve_path, resolve_directory}
use funny_os.Fat32.Volume.{
  Device, Cmd, pure, fail, diverge, ◌>>=◌, ◌>>◌, require, geometry, buffer, fat32_next_cluster,
  must_read,
}

-- `Fat32NodeInfo`
pub record NodeInfo : Type 0 where
  pub name : List ℕ
  pub is_dir : Bool
  pub size : ℕ

unfoldable pub decode_node_info : DirectoryEntry → List ℕ → NodeInfo
decode_node_info e name = record { name = name; is_dir = is_directory e; size = file_size e }

-- What stands after the last separator that is not the last byte; `last` is what is there so far.
unfoldable pub base_name : (last path : List ℕ) → List ℕ
base_name last [] = last
base_name last (c ∷ cs) = base_name (if c == slash && not (length cs == 0) then cs else last) cs

-- A round of `list_cluster_dir`; the callback may change its context and may end the loop.
unfoldable pub list_round :
    {S : Type 0}
    → (callback : NodeInfo → S → Bool × S) → (index : ℕ) → DirectoryEntry
    → LfnState × S
    → Step (LfnState × S) S
list_round callback index e (lfn, s) =
    let r = callback (decode_node_info e (decode_directory_entry_name e lfn)) s in
    if first_byte e == 0
    then stop s
    else if first_byte e == fat32_deleted
    then next (lfn_state_reset lfn, s)
    else if attributes e == fat32_lfn
    then next (process_lfn_entry e lfn, s)
    else if should_skip_entry e
    then next (lfn_state_reset lfn, s)
    else if first_byte e == 0x2e
    then next (lfn, s)
    else if not r.0
    then stop r.1
    else next (lfn_state_reset lfn, r.1)

module _ {W : Type 0} (device : Device W) (fuel : ℕ) where
  abbrev pub require_mounted : Cmd W (Unit {0})
  require_mounted = do g ← geometry; require g.mounted io_error

  abbrev pub root_info : NodeInfo
  root_info = record { name = slash ∷ []; is_dir = true; size = 0 }

  unfoldable pub fat32_stat : (path : List ℕ) → Cmd W NodeInfo
  fat32_stat path = do
    require_mounted
    found ← resolve_path device fuel path
    elim found [ none ↦ pure root_info | some e ↦ pure (decode_node_info e (base_name path path)) ]

  unfoldable pub list_cluster_dir :
      {S : Type 0} → (callback : NodeInfo → S → Bool × S) → (first_cluster : ℕ) → S → Cmd W S
  list_cluster_dir callback first_cluster s = do
    r ← walk_entries device fuel (list_round callback) fuel first_cluster 0 (empty_lfn, s)
    elim r [ next (lfn, s') ↦ pure s' | stop s' ↦ pure s' ]

  unfoldable pub fat32_list_dir :
      {S : Type 0} → (path : List ℕ) → (callback : NodeInfo → S → Bool × S) → S → Cmd W S
  fat32_list_dir path callback s = do
    require_mounted
    d ← resolve_directory device fuel path
    list_cluster_dir callback d.first_cluster s

  -- The loop over the clusters of a file: `remaining` bytes from `cluster` on.
  unfoldable pub read_file_from :
      {S : Type 0}
      → (callback : List ℕ → S → Bool × S) → (rounds cluster remaining : ℕ) → S
      → Cmd W S
  read_file_from callback zero cluster remaining s = diverge
  read_file_from callback (suc rounds) cluster remaining s =
      if remaining == 0 then pure s else if not (goes_on cluster) then fail io_error else do
        must_read device cluster
        g ← geometry
        b ← buffer
        let chunk = if ltb remaining g.cluster_size then remaining else g.cluster_size
        let r = callback (take chunk b) s
        require r.0 io_error
        cluster' ← fat32_next_cluster cluster
        read_file_from callback rounds cluster' (remaining - chunk) r.1

  unfoldable pub fat32_read_file :
      {S : Type 0} → (path : List ℕ) → (callback : List ℕ → S → Bool × S) → S → Cmd W S
  fat32_read_file path callback s = do
    require_mounted
    found ← resolve_path device fuel path
    elim found [
      | none ↦ fail is_a_directory
      | some e ↦
          if is_directory e
          then fail is_a_directory
          else read_file_from callback fuel (entry_first_cluster e) (file_size e) s
    ]
