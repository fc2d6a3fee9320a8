-- ===== src/Fat32/Clusters.antt =====
-- kernel/fat32.c: chains of clusters on the mounted volume.
use funny_os.Common.{
  ℕ, zero, suc, ◌-◌, ◌/◌, ◌%◌, not, List, Option, some, none, take, drop, leb, ltb, ◌==◌,
  if◌then◌else◌, sub32, inl, inr,
}
use funny_os.KString.{k_memcpy}
use funny_os.Fat32.Chain.{
  Fat, Result, ok, no_space, io_error, goes_on, end_of_chain, find_free_cluster, free_cluster_chain,
  append_cluster_to_chain, trim_cluster_chain, get_cluster_at_index,
}
use funny_os.Fat32.Volume.{
  Device, Geometry, Volume, Run, Cmd, returns, fails, stuck, pure, fail, diverge, attempt, ◌>>=◌,
  ◌>>◌, require, geometry, table, buffer, set_buffer, fat32_next_cluster, fat32_set_cluster,
  must_read, must_write, zero_cluster,
}

abbrev pub freed : Option Fat → Option (Result × ℕ × Fat)
freed none = none
freed (some f) = some (ok, 0, f)

module _ {W : Type 0} where
  -- A function on the table, with its result and a number that it gives.
  abbrev pub with_table : Volume W → Option (Result × ℕ × Fat) → Run W ℕ
  with_table v none = stuck v
  with_table v (some (ok, n, f)) = returns n (record v { table = f })
  with_table v (some (r, n, f)) = fails r (record v { table = f })

  unfoldable pub on_table : (Fat → Option (Result × ℕ × Fat)) → Cmd W ℕ
  on_table op v = with_table v (op v.table)

  unfoldable pub free_chain : (fuel cluster : ℕ) → Cmd W ℕ
  free_chain fuel cluster = on_table (λ f. freed (free_cluster_chain fuel cluster f))

  unfoldable pub append_cluster : (fuel first_cluster : ℕ) → Cmd W ℕ
  append_cluster fuel first_cluster = on_table (append_cluster_to_chain fuel first_cluster)

  unfoldable pub trim_chain : (fuel first_cluster required_count : ℕ) → Cmd W ℕ
  trim_chain fuel first_cluster required_count =
      on_table (trim_cluster_chain fuel first_cluster required_count)

module _ {W : Type 0} (device : Device W) (fuel : ℕ) where
  -- A call that failed after the chain from `first` was allocated: the chain is given back.
  abbrev pub give_back : {A : Type 0} → (first : ℕ) → Result → Cmd W A
  give_back first r = do free_chain fuel first; fail r

  -- The loop that allocates, `count` more clusters; the first cluster of the chain is given.
  unfoldable pub allocate_from : (count first last : ℕ) → Cmd W ℕ
  allocate_from zero first last = pure first
  allocate_from (suc count) first last = do
    f ← table
    let cluster = find_free_cluster f
    if cluster == 0 then give_back first no_space else do
      fat32_set_cluster cluster end_of_chain
      if last == 0
          then allocate_from count cluster cluster
          else do fat32_set_cluster last cluster; allocate_from count first cluster

  -- The loop that clears the new clusters, at most `count` of them.
  unfoldable pub zero_from : (count first last : ℕ) → Cmd W (Unit {0})
  zero_from zero first last = pure tt
  zero_from (suc count) first last = if not (goes_on last) then pure tt else do
    r ← attempt (zero_cluster device last)
    next ← fat32_next_cluster last
    elim r [
      | inl e ↦ give_back first e
      | inr _ ↦ if leb end_of_chain next then pure tt else zero_from count first next
    ]

  unfoldable pub allocate_cluster_chain : (count : ℕ) → Cmd W ℕ
  allocate_cluster_chain count =
      if count == 0
      then pure 0
      else do first ← allocate_from count 0 0; zero_from count first first; pure first

  -- The loop that appends, `count` more clusters.
  unfoldable pub append_from : (count first_cluster : ℕ) → Cmd W (Unit {0})
  append_from zero first_cluster = pure tt
  append_from (suc count) first_cluster = do
    new_cluster ← append_cluster fuel first_cluster
    r ← attempt (zero_cluster device new_cluster)
    elim r [
      | inl e ↦ do fat32_set_cluster new_cluster 0; fail e
      | inr _ ↦ append_from count first_cluster
    ]

  -- The first cluster after the call.
  unfoldable pub ensure_cluster_chain_length :
      (first_cluster current_count required_count : ℕ) → Cmd W ℕ
  ensure_cluster_chain_length first_cluster current_count required_count =
      if leb required_count current_count
      then pure first_cluster
      else if current_count == 0
      then allocate_cluster_chain required_count
      else do append_from (required_count - current_count) first_cluster; pure first_cluster

  abbrev pub chunk_at : Geometry → (offset remaining : ℕ) → ℕ
  chunk_at g offset remaining =
      let chunk = sub32 g.cluster_size offset in if ltb remaining chunk then remaining else chunk

  -- The loop over the clusters that the data goes to, a round for each.
  unfoldable pub write_data_from :
      (fuel cluster offset : ℕ) (bytes : List ℕ) (remaining : ℕ) → Cmd W (Unit {0})
  write_data_from zero cluster offset bytes remaining = diverge
  write_data_from (suc fuel) cluster offset bytes remaining = if remaining == 0 then pure tt else do
    must_read device cluster
    g ← geometry
    b ← buffer
    let chunk = chunk_at g offset remaining
    set_buffer (k_memcpy b offset (take chunk bytes))
    must_write device cluster
    if remaining - chunk == 0 then pure tt else do
      next ← fat32_next_cluster cluster
      require (goes_on next) io_error
      write_data_from fuel next 0 (drop chunk bytes) (remaining - chunk)

  -- `size` bytes of data, all of them in the list.
  unfoldable pub write_data_to_chain :
      (first_cluster start_offset : ℕ) (bytes : List ℕ) (size : ℕ) → Cmd W (Unit {0})
  write_data_to_chain first_cluster start_offset bytes size =
      if size == 0 then pure tt else if ltb first_cluster 2 then fail io_error else do
        g ← geometry
        f ← table
        let cluster = get_cluster_at_index f first_cluster (start_offset / g.cluster_size)
        require (goes_on cluster) io_error
        write_data_from fuel cluster (start_offset % g.cluster_size) bytes size
