-- ===== src/Fat32/Entry.antt =====
-- kernel/fat32.c: directory entries of 32 bytes, and the names that they hold.
use funny_os.Common.{
  ℕ, suc, ◌+◌, ◌-◌, ◌*◌, ◌/◌, ◌%◌, Bool, true, false, ◌&&◌, ◌||◌, not, List, [], ◌∷◌, Option, some,
  none, get_or, set, take, length, ltb, ◌==◌, if◌then◌else◌, replicate, add32, sub32,
}
use funny_os.Fat32.Bytes.{u8, u16, u32_at, put_u16}
use funny_os.Fat32.Names.{
  name_capacity, is_invalid_lfn_character, short_name_checksum, format_short_name,
}

-- `DirectoryEntry`: the name at 0, the attributes at 11, the first cluster at 20 and 26, the size
-- at 28. `LfnDirectoryEntry` is laid over it: the order at 0, the checksum at 13, the
-- characters at 1, 14 and 28.
abbrev pub DirectoryEntry : Type 0
DirectoryEntry = List ℕ

abbrev pub entry_size : ℕ
entry_size = 32

abbrev pub entry_name : DirectoryEntry → List ℕ
entry_name e = take 11 e

abbrev pub first_byte : DirectoryEntry → ℕ
first_byte e = u8 e 0

abbrev pub attributes : DirectoryEntry → ℕ
attributes e = u8 e 11

abbrev pub file_size : DirectoryEntry → ℕ
file_size e = u32_at e 28

abbrev pub entry_first_cluster : DirectoryEntry → ℕ
entry_first_cluster e = u16 e 20 * 65536 + u16 e 26

abbrev pub entry_set_first_cluster : ℕ → DirectoryEntry → DirectoryEntry
entry_set_first_cluster cluster e = put_u16 20 (cluster / 65536) (put_u16 26 cluster e)

abbrev pub fat32_lfn : ℕ
fat32_lfn = 0x0f

abbrev pub fat32_directory : ℕ
fat32_directory = 0x10

abbrev pub fat32_archive : ℕ
fat32_archive = 0x20

abbrev pub fat32_deleted : ℕ
fat32_deleted = 0xe5

-- `attributes & FAT32_DIRECTORY` and `attributes & FAT32_VOLUME_ID`
abbrev pub is_directory : DirectoryEntry → Bool
is_directory e = attributes e / 16 % 2 == 1

abbrev pub is_volume_id : DirectoryEntry → Bool
is_volume_id e = attributes e / 8 % 2 == 1

unfoldable pub should_skip_entry : DirectoryEntry → Bool
should_skip_entry e =
    if first_byte e == 0 || first_byte e == fat32_deleted then true else is_volume_id e

-- The bytes of a buffer before its first NUL.
unfoldable pub c_string : List ℕ → List ℕ
c_string [] = []
c_string (c ∷ cs) = let rest = c_string cs in if c == 0 then [] else c ∷ rest

-- `LfnState`; `name` is a buffer of `FAT32_NAME_CAPACITY` bytes.
pub record LfnState : Type 0 where
  pub active : Bool
  pub valid : Bool
  pub checksum : ℕ
  pub expected_order : ℕ
  pub name : List ℕ

unfoldable pub lfn_state_reset : LfnState → LfnState
lfn_state_reset s = record {
  active = false;
  valid = false;
  checksum = 0;
  expected_order = 0;
  name = set s.name 0 0;
}

-- `none` is the result `false`; what is stored then is not read.
unfoldable pub decode_lfn_character : ℕ → Option ℕ
decode_lfn_character value =
    if value == 0 || value == 0xffff
    then some 0
    else if not (value / 256 == 0)
    then none
    else if is_invalid_lfn_character (value % 256)
    then none
    else some (value % 256)

unfoldable pub lfn_store_character : (index value : ℕ) → List ℕ → List ℕ
lfn_store_character index value name =
    if ltb (add32 index 1) name_capacity then set name index value else name

-- A buffer without a NUL gets one as its last byte.
unfoldable pub lfn_terminate_name : List ℕ → List ℕ
lfn_terminate_name name =
    if ltb (length (c_string name)) name_capacity then name else set name (name_capacity - 1) 0

-- Where the characters of `name1`, `name2` and `name3` stand in an entry.
abbrev pub lfn_offsets : List ℕ
lfn_offsets = 1 ∷ 3 ∷ 5 ∷ 7 ∷ 9 ∷ 14 ∷ 16 ∷ 18 ∷ 20 ∷ 22 ∷ 24 ∷ 28 ∷ 30 ∷ []

abbrev pub stored : (index : ℕ) → Option ℕ → LfnState → LfnState
stored index none s = record s { valid = false }
stored index (some c) s = record s { name = lfn_store_character index c s.name }

-- The three loops over the characters, as one over their offsets.
unfoldable pub decode_characters :
    (offsets : List ℕ) (index : ℕ) → DirectoryEntry → LfnState → LfnState
decode_characters [] index e s = record s { name = lfn_terminate_name s.name }
decode_characters (at ∷ offsets) index e s =
    let c = decode_lfn_character (u16 e at) in
    let s' = stored index c s in
    let rest = decode_characters offsets (suc index) e s' in elim c [ none ↦ s' | some _ ↦ rest ]

abbrev pub lfn_order : DirectoryEntry → ℕ
lfn_order e = u8 e 0 % 32

abbrev pub is_last_lfn : DirectoryEntry → Bool
is_last_lfn e = u8 e 0 / 64 % 2 == 1

abbrev pub lfn_checksum : DirectoryEntry → ℕ
lfn_checksum e = u8 e 13

abbrev pub started : DirectoryEntry → LfnState
started e = record {
  active = true;
  valid = true;
  checksum = lfn_checksum e;
  expected_order = lfn_order e;
  name = replicate name_capacity 0;
}

-- An entry that does not go on with the name.
abbrev pub breaks_name : DirectoryEntry → LfnState → Bool
breaks_name e s =
    not s.active
    || not s.valid
    || not (lfn_checksum e == s.checksum)
    || lfn_order e == 0
    || not (lfn_order e == sub32 s.expected_order 1)

unfoldable pub process_lfn_entry : DirectoryEntry → LfnState → LfnState
process_lfn_entry e s =
    if is_last_lfn e
    then (if lfn_order e == 0
        then lfn_state_reset s
        else decode_characters lfn_offsets ((lfn_order e - 1) * 13) e (started e))
    else if breaks_name e s
    then lfn_state_reset s
    else decode_characters lfn_offsets ((lfn_order e - 1) * 13) e
        (record s { expected_order = lfn_order e })

abbrev pub lfn_matches : DirectoryEntry → LfnState → Bool
lfn_matches e s =
    s.active && s.valid && s.expected_order == 1 && s.checksum == short_name_checksum (entry_name e)

unfoldable pub decode_directory_entry_name : DirectoryEntry → LfnState → List ℕ
decode_directory_entry_name e s =
    if lfn_matches e s && not (get_or s.name 0 0 == 0)
    then c_string s.name
    else c_string (format_short_name (entry_name e))
