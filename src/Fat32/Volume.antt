-- ===== src/Fat32/Volume.antt =====
-- kernel/fat32.c: the mounted volume, the commands on it, and the access to its clusters.
use funny_os.Common.{
  ℕ, zero, suc, ◌-◌, ◌*◌, Bool, true, false, ◌||◌, not, List, ◌++◌, take, drop, ltb, ◌==◌,
  if◌then◌else◌, replicate, add32, sub32, mul32, ◌⊎◌, inl, inr,
}
use funny_os.Fat32.Bytes.{bytes_of}
use funny_os.Fat32.Chain.{Fat, Result, io_error, is_valid_data_cluster, next_cluster, set_cluster}

abbrev pub sector_size : ℕ
sector_size = 512

abbrev pub max_cluster_sectors : ℕ
max_cluster_sectors = 8

-- kernel/block.c's `block_read_sectors` and `block_write_sectors`. A read returns the result and
-- the buffer as it is after the call.
pub record Device (W : Type 0) : Type 0 where
  pub read_sectors : (lba count : ℕ) (out : List ℕ) → W → Bool × (List ℕ × W)
  pub write_sectors : (lba count : ℕ) (bytes : List ℕ) → W → Bool × W

-- The variables that `fat32_mount` sets, and the other functions read.
pub record Geometry : Type 0 where
  pub mounted : Bool
  pub sectors_per_cluster : ℕ
  pub fat_count : ℕ
  pub reserved_sectors : ℕ
  pub sectors_per_fat : ℕ
  pub partition_lba : ℕ
  pub root_cluster : ℕ
  pub data_lba : ℕ
  pub cluster_size : ℕ
  pub fat_lba : ℕ

-- `g_fat` with `g_total_clusters`, `g_cluster_buffer`, and the device's state.
pub record Volume (W : Type 0) : Type 0 where
  pub geometry : Geometry
  pub table : Fat
  pub buffer : List ℕ
  pub world : W

-- A call returns a value, or ends with a result that is not `FAT32_OK`; `stuck` is a loop for which
-- the rounds were not enough, with the volume as it is then.
pub data Run (W A : Type 0) : Type 0 where
  returns : A → Volume W → Run W A
  fails : Result → Volume W → Run W A
  stuck : Volume W → Run W A

abbrev pub Cmd : Type 0 → Type 0 → Type 0
Cmd W A = Volume W → Run W A

module _ {W A : Type 0} where
  abbrev pub pure : A → Cmd W A
  pure a v = returns a v

  abbrev pub fail : Result → Cmd W A
  fail r v = fails r v

  abbrev pub diverge : Cmd W A
  diverge v = stuck v

  abbrev pub caught : Run W A → Run W (Result ⊎ A)
  caught (returns a v) = returns (inr a) v
  caught (fails r v) = returns (inl r) v
  caught (stuck v) = stuck v

  -- The result of a call, looked at by its caller.
  unfoldable pub attempt : Cmd W A → Cmd W (Result ⊎ A)
  attempt m v = caught (m v)

module _ {W A B : Type 0} where
  abbrev pub and_then : Run W A → (A → Cmd W B) → Run W B
  and_then (returns a v) k = k a v
  and_then (fails r v) k = fails r v
  and_then (stuck v) k = stuck v

  infixl 5 ◌>>=◌ ◌>>◌
  unfoldable pub ◌>>=◌ : Cmd W A → (A → Cmd W B) → Cmd W B
  m >>= k = λ v. and_then (m v) k

  abbrev pub ◌>>◌ : Cmd W A → Cmd W B → Cmd W B
  m >> n = m >>= λ _. n

-- `if (!b) return r;`
abbrev pub require : {W : Type 0} → Bool → Result → Cmd W (Unit {0})
require b r = if b then pure tt else fail r

module _ {W : Type 0} where
  abbrev pub geometry : Cmd W Geometry
  geometry v = returns v.geometry v

  abbrev pub table : Cmd W Fat
  table v = returns v.table v

  abbrev pub buffer : Cmd W (List ℕ)
  buffer v = returns v.buffer v

  abbrev pub set_table : Fat → Cmd W (Unit {0})
  set_table f v = returns tt (record v { table = f })

  abbrev pub set_buffer : List ℕ → Cmd W (Unit {0})
  set_buffer b v = returns tt (record v { buffer = b })

  unfoldable pub fat32_next_cluster : ℕ → Cmd W ℕ
  fat32_next_cluster cluster = do f ← table; pure (next_cluster f cluster)

  unfoldable pub fat32_set_cluster : (cluster value : ℕ) → Cmd W (Unit {0})
  fat32_set_cluster cluster value = do f ← table; set_table (set_cluster cluster value f)

-- The chunk of at most 255 sectors that one call of the block device takes.
abbrev pub chunk_of : ℕ → ℕ
chunk_of count = if ltb 255 count then 255 else count

module _ {W : Type 0} (device : Device W) where
  -- A round takes a sector at least, so `count` rounds are enough.
  unfoldable pub write_sectors_from : (fuel lba count : ℕ) (bytes : List ℕ) → W → Bool × W
  write_sectors_from zero lba count bytes w = (true, w)
  write_sectors_from (suc fuel) lba count bytes w =
      let chunk = chunk_of count in
      let r = device.write_sectors lba chunk bytes w in
      let rest =
        write_sectors_from fuel (add32 lba chunk) (count - chunk) (drop (chunk * sector_size) bytes)
          r.1 in
      if count == 0 then (true, w) else if not r.0 then r else rest

  unfoldable pub write_sectors : (lba count : ℕ) (bytes : List ℕ) → W → Bool × W
  write_sectors lba count bytes w = write_sectors_from count lba count bytes w

  -- The bytes read so far stand before `out`, the rest of the buffer.
  unfoldable pub read_sectors_from : (fuel lba count : ℕ) (out : List ℕ) → W → Bool × (List ℕ × W)
  read_sectors_from zero lba count out w = (true, (out, w))
  read_sectors_from (suc fuel) lba count out w =
      let chunk = chunk_of count in
      let r = device.read_sectors lba chunk out w in
      let rest =
        read_sectors_from fuel (add32 lba chunk) (count - chunk)
          (drop (chunk * sector_size) (r.1).0) (r.1).1 in
      if count == 0
      then (true, (out, w))
      else if not r.0
      then r
      else (rest.0, (take (chunk * sector_size) (r.1).0 ++ (rest.1).0, (rest.1).1))

  unfoldable pub read_sectors : (lba count : ℕ) (out : List ℕ) → W → Bool × (List ℕ × W)
  read_sectors lba count out w = read_sectors_from count lba count out w

  -- `cluster - 2u` and the product are of 32 bits.
  abbrev pub cluster_to_lba : Geometry → ℕ → ℕ
  cluster_to_lba g cluster = add32 g.data_lba (mul32 (sub32 cluster 2) g.sectors_per_cluster)

  abbrev pub bad_cluster : Volume W → ℕ → Bool
  bad_cluster v cluster =
      v.geometry.sectors_per_cluster == 0
      || ltb max_cluster_sectors v.geometry.sectors_per_cluster
      || not (is_valid_data_cluster v.table cluster)

  unfoldable pub read_cluster : ℕ → Cmd W Bool
  read_cluster cluster v =
      let r =
        device.read_sectors (cluster_to_lba v.geometry cluster) v.geometry.sectors_per_cluster
          v.buffer v.world in
      if bad_cluster v cluster
      then returns false v
      else returns r.0 (record v { buffer = (r.1).0; world = (r.1).1 })

  unfoldable pub write_cluster : ℕ → Cmd W Bool
  write_cluster cluster v =
      let r =
        device.write_sectors (cluster_to_lba v.geometry cluster) v.geometry.sectors_per_cluster
          v.buffer v.world in
      if bad_cluster v cluster then returns false v else returns r.0 (record v { world = r.1 })

  -- The loop over the copies of the table, `count` of them from `i` on.
  unfoldable pub flush_from : (count i : ℕ) → Cmd W Bool
  flush_from zero i v = returns true v
  flush_from (suc count) i v =
      let r =
        write_sectors (add32 v.geometry.fat_lba (mul32 i v.geometry.sectors_per_fat))
          v.geometry.sectors_per_fat (bytes_of v.table.entries) v.world in
      let rest = flush_from count (suc i) (record v { world = r.1 }) in
      if not r.0 then returns false (record v { world = r.1 }) else rest

  unfoldable pub flush_fat : Cmd W Bool
  flush_fat v = flush_from v.geometry.fat_count 0 v

  -- `if (!read_cluster(cluster)) return FAT32_IO_ERROR;`, and likewise for the writes.
  unfoldable pub must_read : ℕ → Cmd W (Unit {0})
  must_read cluster = do done ← read_cluster cluster; require done io_error

  unfoldable pub must_write : ℕ → Cmd W (Unit {0})
  must_write cluster = do done ← write_cluster cluster; require done io_error

  unfoldable pub must_flush : Cmd W (Unit {0})
  must_flush = do done ← flush_fat; require done io_error

  abbrev pub cleared : (size : ℕ) → List ℕ → List ℕ
  cleared size bytes = replicate size 0 ++ drop size bytes

  unfoldable pub zero_cluster : ℕ → Cmd W (Unit {0})
  zero_cluster cluster = do
    g ← geometry
    b ← buffer
    set_buffer (cleared g.cluster_size b)
    must_write cluster
