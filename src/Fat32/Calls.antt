-- ===== src/Fat32/Calls.antt =====
-- kernel/fat32.h: the calls of the file system, one after another.
use funny_os.Common.{ℕ, Bool, true, List, [], ◌∷◌}
use funny_os.Fat32.Files.{fat32_stat, fat32_list_dir, fat32_read_file}
use funny_os.Fat32.Volume.{Device, Cmd, pure, attempt, ◌>>◌}
use funny_os.Fat32.Changes.{fat32_write_file, fat32_make_dir, fat32_remove, fat32_rename}

-- The functions that `fat32.h` declares, but for the mount; what the callbacks and the results are
-- used for is left to the caller.
pub data Call : Type 0 where
  stat : (path : List ℕ) → Call
  list_dir : (path : List ℕ) → Call
  read_file : (path : List ℕ) → Call
  write_file : (path bytes : List ℕ) (append : Bool) → Call
  make_dir : (path : List ℕ) → Call
  remove : (path : List ℕ) → Call
  rename : (old_path new_path : List ℕ) → Call

-- A callback that goes on, and keeps all that it is given.
abbrev pub collect : {A : Type 0} → A → List A → Bool × List A
collect a s = (true, a ∷ s)

-- A call whose result the caller has looked at.
abbrev pub called : {W A : Type 0} → Cmd W A → Cmd W (Unit {0})
called m = do attempt m; pure tt

module _ {W : Type 0} (device : Device W) (fuel : ℕ) where
  unfoldable pub perform : Call → Cmd W (Unit {0})
  perform (stat path) = called (fat32_stat device fuel path)
  perform (list_dir path) = called (fat32_list_dir device fuel path collect [])
  perform (read_file path) = called (fat32_read_file device fuel path collect [])
  perform (write_file path bytes append) = called (fat32_write_file device fuel path bytes append)
  perform (make_dir path) = called (fat32_make_dir device fuel path)
  perform (remove path) = called (fat32_remove device fuel path)
  perform (rename old_path new_path) = called (fat32_rename device fuel old_path new_path)

  unfoldable pub perform_all : List Call → Cmd W (Unit {0})
  perform_all [] = pure tt
  perform_all (c ∷ calls) = do perform c; perform_all calls
