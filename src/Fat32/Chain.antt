-- ===== src/Fat32/Chain.antt =====
-- kernel/fat32.c: the file allocation table in memory and the chains of clusters in it.
pub mod Table
pub mod Walk
pub mod Free
pub mod Append
pub mod Trim
mod Tests
use funny_os.Common.{
  ℕ, zero, suc, ◌+◌, ◌-◌, ◌/◌, ◌%◌, ◌*◌, ◌^◌, Bool, true, false, ◌&&◌, ◌||◌, not, List, [], ◌∷◌,
  Option, some, none, get_or, set, leb, ltb, ◌==◌, if◌then◌else◌, add32, sub32, mul32, u32, bit_and,
  bit_or,
}

abbrev pub end_of_chain : ℕ
end_of_chain = 0x0fff_fff8

abbrev pub fat_entry_mask : ℕ
fat_entry_mask = 0x0fff_ffff

-- `g_fat` and `g_total_clusters`
pub record Fat : Type 0 where
  pub entries : List ℕ
  pub total_clusters : ℕ

-- `Fat32Result`, with its constructors in the source's order
pub data Result : Type 0 where
  ok : Result
  not_found : Result
  already_exists : Result
  not_a_directory : Result
  is_a_directory : Result
  directory_not_empty : Result
  invalid_name : Result
  no_space : Result
  io_error : Result

abbrev pub is_valid_data_cluster : Fat → ℕ → Bool
is_valid_data_cluster f cluster = leb 2 cluster && ltb cluster f.total_clusters

unfoldable pub next_cluster : Fat → ℕ → ℕ
next_cluster f cluster =
    if not (is_valid_data_cluster f cluster)
    then end_of_chain
    else bit_and (get_or f.entries cluster 0) fat_entry_mask

unfoldable pub set_cluster : (cluster value : ℕ) → Fat → Fat
set_cluster cluster value f =
    if not (is_valid_data_cluster f cluster)
    then f
    else record f { entries = set f.entries cluster (bit_and value fat_entry_mask) }

-- `cluster >= 2u && cluster < FAT32_END_OF_CHAIN`
abbrev pub goes_on : ℕ → Bool
goes_on cluster = leb 2 cluster && ltb cluster end_of_chain

-- The clusters from `cluster` on, `count` of them.
unfoldable pub find_free_from : (count cluster : ℕ) → Fat → ℕ
find_free_from zero cluster f = 0
find_free_from (suc count) cluster f =
    let rest = find_free_from count (suc cluster) f in
    if get_or f.entries cluster 0 == 0 then cluster else rest

unfoldable pub find_free_cluster : Fat → ℕ
find_free_cluster f = find_free_from (f.total_clusters - 2) 2 f

-- At most `fuel` rounds; `none` when they are not enough.
unfoldable pub free_cluster_chain : (fuel cluster : ℕ) → Fat → Option Fat
free_cluster_chain zero cluster f = none
free_cluster_chain (suc fuel) cluster f =
    let rest = free_cluster_chain fuel (next_cluster f cluster) (set_cluster cluster 0 f) in
    if goes_on cluster then rest else some f

-- The loop ends at the latest after `index` rounds.
unfoldable pub get_cluster_at_index : Fat → (cluster index : ℕ) → ℕ
get_cluster_at_index f cluster zero = cluster
get_cluster_at_index f cluster (suc index) =
    let rest = get_cluster_at_index f (next_cluster f cluster) index in
    if goes_on cluster then rest else cluster

-- The last cluster of the chain, by the loop of `append_cluster_to_chain`.
unfoldable pub last_of_chain : (fuel : ℕ) → Fat → ℕ → Option ℕ
last_of_chain zero f cluster = none
last_of_chain (suc fuel) f cluster =
    let next = next_cluster f cluster in
    let rest = last_of_chain fuel f next in if goes_on next then rest else some cluster

-- The result, the new cluster and the table. `*new_cluster_out` is set on success only.
unfoldable pub append_cluster_to_chain : (fuel first_cluster : ℕ) → Fat → Option (Result × ℕ × Fat)
append_cluster_to_chain fuel first_cluster f =
    let free_cluster = find_free_cluster f in
    let f' = set_cluster free_cluster end_of_chain f in
    if free_cluster == 0
    then some (no_space, 0, f)
    else if first_cluster == 0
    then some (ok, free_cluster, f')
    else elim (last_of_chain fuel f' first_cluster) [
      | none ↦ none
      | some last ↦ some (ok, free_cluster, set_cluster last free_cluster f')
    ]

-- The result, `*first_cluster` and the table.
abbrev pub with_first : Result → ℕ → Option Fat → Option (Result × ℕ × Fat)
with_first r first_cluster none = none
with_first r first_cluster (some f) = some (r, first_cluster, f)

abbrev pub cut_after : (fuel first_cluster cluster : ℕ) → Fat → Option (Result × ℕ × Fat)
cut_after fuel first_cluster cluster f =
    let next = next_cluster f cluster in
    let f' = set_cluster cluster end_of_chain f in
    if goes_on next
    then with_first ok first_cluster (free_cluster_chain fuel next f')
    else some (ok, first_cluster, f')

unfoldable pub trim_cluster_chain :
    (fuel first_cluster required_count : ℕ) → Fat → Option (Result × ℕ × Fat)
trim_cluster_chain fuel first_cluster zero f =
    if leb 2 first_cluster
    then with_first ok 0 (free_cluster_chain fuel first_cluster f)
    else some (ok, 0, f)
trim_cluster_chain fuel first_cluster (suc more) f =
    let cluster = get_cluster_at_index f first_cluster more in
    if ltb first_cluster 2
    then some (ok, first_cluster, f)
    else if not (goes_on cluster)
    then some (io_error, first_cluster, f)
    else cut_after fuel first_cluster cluster f

unfoldable pub clusters_for_size : (cluster_size size : ℕ) → ℕ
clusters_for_size cluster_size size =
    if size == 0 then 0 else sub32 (add32 size cluster_size) 1 / cluster_size
