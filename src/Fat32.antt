-- ===== src/Fat32.antt =====
-- kernel/fat32.c: the file system.
pub mod Chain
pub mod Names
pub mod Bytes
pub mod Volume
pub mod Entry
pub mod Alias
pub mod Clusters
pub mod Directory
pub mod Paths
pub mod Files
pub mod Changes
pub mod Calls
pub mod Mount
pub mod Safe
pub mod RamDisk
pub mod Unmounted
