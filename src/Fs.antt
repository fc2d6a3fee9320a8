-- ===== src/Fs.antt =====
-- kernel/fs.c: the file system as the shell and the program loader call it.
pub mod Start
mod Tests
use funny_os.Common.{
  ℕ, zero, suc, ◌-◌, ◌/◌, ap, Bool, true, false, not, Option, none, some, List, [], ◌∷◌, map,
  if◌then◌else◌,
}
use funny_os.BootInfo.{BootInfo}
use funny_os.Pci.{Ports}
use funny_os.Fat32.Chain.{
  Fat, Result, ok, not_found, already_exists, not_a_directory, is_a_directory, directory_not_empty,
  invalid_name, no_space, io_error,
}
use funny_os.Fat32.Volume.{Device, Volume, Run, returns, fails, stuck, fail, ◌>>=◌, ◌>>◌, buffer}
use funny_os.Fat32.Files.{NodeInfo, fat32_stat, fat32_list_dir, fat32_read_file}
use funny_os.Fat32.Mount.{fat32_mount}
use funny_os.Block.{AtaDeviceAddress, invalid, found, AhciDeviceAddress}
use funny_os.Block.Init.{BlockDevice, Controller, block_init, block_device}
use funny_os.Fat32.Changes.{fat32_write_file, fat32_make_dir, fat32_remove, fat32_rename}

pub data FsResult : Type 0 where
  fs_ok : FsResult
  fs_not_found : FsResult
  fs_already_exists : FsResult
  fs_not_a_directory : FsResult
  fs_is_a_directory : FsResult
  fs_directory_not_empty : FsResult
  fs_invalid_name : FsResult
  fs_no_space : FsResult
  fs_io_error : FsResult

pub data FsNodeType : Type 0 where
  fs_node_file : FsNodeType
  fs_node_dir : FsNodeType

pub record FsNodeInfo : Type 0 where
  pub name : List ℕ
  pub node_type : FsNodeType
  pub size : ℕ

unfoldable pub map_result : Result → FsResult
map_result ok = fs_ok
map_result not_found = fs_not_found
map_result already_exists = fs_already_exists
map_result not_a_directory = fs_not_a_directory
map_result is_a_directory = fs_is_a_directory
map_result directory_not_empty = fs_directory_not_empty
map_result invalid_name = fs_invalid_name
map_result no_space = fs_no_space
map_result io_error = fs_io_error

-- The loop that copies a name, with room for so many bytes before the NUL.
unfoldable pub copy_name : (room : ℕ) → List ℕ → List ℕ
copy_name zero name = []
copy_name (suc room) [] = []
copy_name (suc room) (c ∷ name) = c ∷ copy_name room name

unfoldable pub copy_node_info : NodeInfo → FsNodeInfo
copy_node_info n = record {
  name = copy_name 127 n.name;
  node_type = if n.is_dir then fs_node_dir else fs_node_file;
  size = n.size;
}

-- A call's result for its caller, with what it gives if it succeeds.
pub data Answer (W A : Type 0) : Type 0 where
  answers : FsResult → Option A → Volume W → Answer W A
  no_answer : Volume W → Answer W A

abbrev pub with_answer : {W A B : Type 0} → (A → B) → Run W A → Answer W B
with_answer f (returns a v) = answers fs_ok (some (f a)) v
with_answer f (fails r v) = answers (map_result r) none v
with_answer f (stuck v) = no_answer v

module _ {W : Type 0} (device : Device W) (fuel : ℕ) where
  unfoldable pub fs_stat : (path : List ℕ) → Volume W → Answer W FsNodeInfo
  fs_stat path v = with_answer copy_node_info (fat32_stat device fuel path v)

  -- `fs_list_adapter` hands the callback a copy of each entry.
  unfoldable pub fs_list_dir :
      {S : Type 0}
      → (path : List ℕ) → (callback : FsNodeInfo → S → Bool × S) → S
      → Volume W
      → Answer W S
  fs_list_dir path callback s v =
      with_answer (λ r. r) (fat32_list_dir device fuel path (λ n. callback (copy_node_info n)) s v)

  unfoldable pub fs_read_file :
      {S : Type 0}
      → (path : List ℕ) → (callback : List ℕ → S → Bool × S) → S
      → Volume W
      → Answer W S
  fs_read_file path callback s v =
      with_answer (λ r. r) (fat32_read_file device fuel path callback s v)

  unfoldable pub fs_write_file :
      (path bytes : List ℕ) (append : Bool) → Volume W → Answer W (Unit {0})
  fs_write_file path bytes append v =
      with_answer (λ r. r) (fat32_write_file device fuel path bytes append v)

  unfoldable pub fs_make_dir : (path : List ℕ) → Volume W → Answer W (Unit {0})
  fs_make_dir path v = with_answer (λ r. r) (fat32_make_dir device fuel path v)

  unfoldable pub fs_remove : (path : List ℕ) → Volume W → Answer W (Unit {0})
  fs_remove path v = with_answer (λ r. r) (fat32_remove device fuel path v)

  unfoldable pub fs_rename : (old_path new_path : List ℕ) → Volume W → Answer W (Unit {0})
  fs_rename old_path new_path v =
      with_answer (λ r. r) (fat32_rename device fuel old_path new_path v)

module _ {W : Type 0} (ports : Ports W) (ahci : Controller AhciDeviceAddress W)
    (ata : Controller AtaDeviceAddress W) where
  -- The mount, on the device that `block_init` has bound. `g_sector_buffer` holds `sector`.
  abbrev pub mount_bound :
      BootInfo
      → (sector : List ℕ) → Volume (BlockDevice W)
      → Option (Bool × BlockDevice W)
      → Option (Bool × Volume (BlockDevice W))
  mount_bound info sector v none = none
  mount_bound info sector v (some (false, b)) = some (false, record v { world = b })
  mount_bound info sector v (some (true, b)) = some (
      fat32_mount (block_device ports ahci ata) info.partition_lba_start info.bytes_per_sector
        sector (record v { world = b }))

  unfoldable pub fs_init :
      BootInfo → (sector : List ℕ) → Volume (BlockDevice W) → Option (Bool × Volume (BlockDevice W))
  fs_init info sector v = mount_bound info sector v (block_init ports ahci ata info v.world)
