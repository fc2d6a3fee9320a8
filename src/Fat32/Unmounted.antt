-- ===== src/Fat32/Unmounted.antt =====
-- The operations before a mount.
mod Tests
use funny_os.Common.{ℕ, ◌-◌, ◌/◌, ◌≡◌, refl, ap, Bool, false, not, List}
use funny_os.Fat32.Chain.{Fat, io_error}
use funny_os.Fat32.Volume.{Device, Volume, returns, fails, fail, ◌>>=◌, ◌>>◌, require, geometry}
use funny_os.Fat32.Files.{NodeInfo, require_mounted, fat32_stat, fat32_list_dir, fat32_read_file}
use funny_os.Fat32.Changes.{fat32_write_file, fat32_make_dir, fat32_remove, fat32_rename}

-- On a volume that is not mounted, every operation returns the I/O error at once, with nothing read,
-- written or changed.
pub require_mounted-fails :
    {W S T : Type 0} (device : Device W) (fuel : ℕ) (path new_path bytes : List ℕ) (append : Bool)
    (list : NodeInfo → S → Bool × S) (read : List ℕ → T → Bool × T) (s : S) (t : T) (v : Volume W)
    → v.geometry.mounted ≡ false
    → (fat32_stat device fuel path v ≡ fails io_error v)
      × (fat32_list_dir device fuel path list s v ≡ fails io_error v)
      × (fat32_read_file device fuel path read t v ≡ fails io_error v)
      × (fat32_write_file device fuel path bytes append v ≡ fails io_error v)
      × (fat32_make_dir device fuel path v ≡ fails io_error v)
      × (fat32_remove device fuel path v ≡ fails io_error v)
      × (fat32_rename device fuel path new_path v ≡ fails io_error v)
unfolding ◌>>=◌ fat32_stat fat32_list_dir fat32_read_file fat32_write_file fat32_make_dir
    fat32_remove fat32_rename
require_mounted-fails device fuel path new_path bytes append list read s t v h =
    (rw h refl, rw h refl, rw h refl, rw h refl, rw h refl, rw h refl, rw h refl)
