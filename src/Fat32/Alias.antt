-- ===== src/Fat32/Alias.antt =====
-- kernel/fat32.c: short names made from long ones, and the entries that spell out a long name.
use funny_os.Common.{
  ℕ, zero, suc, ◌+◌, ◌-◌, ◌*◌, ◌/◌, ◌%◌, Bool, ◌&&◌, ◌||◌, not, List, [], ◌∷◌, ◌++◌, Option, some,
  none, get_or, set, take, length, leb, ltb, ◌==◌, if◌then◌else◌, replicate, add32, sub32, u32,
}
use funny_os.KString.{k_memcpy, k_toupper, k_is_space}
use funny_os.Fat32.Bytes.{put_u8, put_u16, put_u32}
use funny_os.Fat32.Names.{is_invalid_lfn_character, validate_long_name}
use funny_os.Fat32.Entry.{DirectoryEntry, fat32_lfn, entry_set_first_cluster, lfn_offsets}

-- 0xFFFFFFFF stands for no dot.
abbrev pub no_dot : ℕ
no_dot = 0xffff_ffff

unfoldable pub find_last_dot : (i last : ℕ) (name : List ℕ) → ℕ
find_last_dot i last [] = last
find_last_dot i last (c ∷ cs) = find_last_dot (suc i) (if c == 0x2e then i else last) cs

-- A dot at the start or at the end is none.
unfoldable pub last_dot_of : List ℕ → ℕ
last_dot_of name =
    let at = find_last_dot 0 no_dot name in
    if at == 0 || at == sub32 (length name) 1 then no_dot else at

-- `out`, `base_len` and `ext_len`
pub record ShortName : Type 0 where
  pub out : List ℕ
  pub base_len : ℕ
  pub ext_len : ℕ

abbrev pub blank : List ℕ
blank = replicate 11 0x20

abbrev pub is_not_short : ℕ → Bool
is_not_short c =
    k_is_space c || c == 0x2b || c == 0x2c || c == 0x3b || c == 0x3d || c == 0x5b || c == 0x5d

abbrev pub in_base : (last_dot i : ℕ) → Bool
in_base last_dot i = last_dot == no_dot || ltb i last_dot

-- The loop over the characters from `i` on; `none` is the result `false`.
unfoldable pub make_short_from : (last_dot i : ℕ) (name : List ℕ) → ShortName → Option ShortName
make_short_from last_dot i [] s = some s
make_short_from last_dot i (c ∷ cs) s =
    let skipped = make_short_from last_dot (suc i) cs s in
    let with_base =
      make_short_from last_dot (suc i) cs
        (record s { out = set s.out s.base_len (k_toupper c); base_len = s.base_len + 1 }) in
    let with_ext =
      make_short_from last_dot (suc i) cs
        (record s { out = set s.out (8 + s.ext_len) (k_toupper c); ext_len = s.ext_len + 1 }) in
    if c == 0x2e
    then (if last_dot == no_dot || not (i == last_dot) then none else skipped)
    else if is_not_short c
    then none
    else if in_base last_dot i
    then (if leb 8 s.base_len then none else with_base)
    else (if leb 3 s.ext_len then none else with_ext)

unfoldable pub make_short_name_if_possible : List ℕ → Option (List ℕ)
make_short_name_if_possible name =
    let made =
      make_short_from (last_dot_of name) 0 name
        (record { out = blank; base_len = 0; ext_len = 0 }) in
    if not (validate_long_name name)
    then none
    else elim made [ none ↦ none | some s ↦ if s.base_len == 0 then none else some s.out ]

-- The characters that a short alias keeps, in two buffers whose ends are their lengths.
unfoldable pub alias_parts : (last_dot i : ℕ) (name base ext : List ℕ) → List ℕ × List ℕ
alias_parts last_dot i [] base ext = (base, ext)
alias_parts last_dot i (c ∷ cs) base ext =
    let skipped = alias_parts last_dot (suc i) cs base ext in
    let with_base = alias_parts last_dot (suc i) cs (base ++ (k_toupper c ∷ [])) ext in
    let with_ext = alias_parts last_dot (suc i) cs base (ext ++ (k_toupper c ∷ [])) in
    if c == 0x2e || (is_invalid_lfn_character c || k_is_space c)
    then skipped
    else if not (last_dot == no_dot) && ltb last_dot i
    then (if ltb (length ext) 3 then with_ext else skipped)
    else (if ltb (length base) 8 then with_base else skipped)

-- The loop over the ordinal's digits, the last one first; at most ten rounds.
unfoldable pub digits_from : (fuel ordinal : ℕ) (digits : List ℕ) → List ℕ
digits_from zero ordinal digits = digits
digits_from (suc fuel) ordinal digits =
    let longer = digits ++ ((0x30 + ordinal % 10) ∷ []) in
    let rest = digits_from fuel (ordinal / 10) longer in if ordinal / 10 == 0 then longer else rest

abbrev pub reversed : List ℕ → List ℕ
reversed [] = []
reversed (x ∷ xs) = reversed xs ++ (x ∷ [])

abbrev pub named_base : List ℕ → List ℕ
named_base [] = 0x46 ∷ []
named_base (c ∷ cs) = c ∷ cs

-- `copy_len = 8u - (digits_len + 1u)`, at most the length of the base
abbrev pub copy_length : (digits base : List ℕ) → ℕ
copy_length digits base =
    let n = sub32 8 (length digits + 1) in if ltb (length base) n then length base else n

unfoldable pub build_short_alias : (name : List ℕ) (ordinal : ℕ) → List ℕ
build_short_alias name ordinal =
    let parts = alias_parts (last_dot_of name) 0 name [] [] in
    let base = named_base parts.0 in
    let digits = digits_from 10 ordinal [] in
    let n = copy_length digits base in
    k_memcpy (k_memcpy (k_memcpy blank 0 (take n base)) n (0x7e ∷ reversed digits)) 8 parts.1

unfoldable pub lfn_entry_count_for_name : List ℕ → ℕ
lfn_entry_count_for_name name = add32 (length name % u32) 12 / 13

-- The character at an index: the name's, then a NUL, then 0xFFFF.
abbrev pub lfn_character : (name : List ℕ) (index : ℕ) → ℕ
lfn_character name index =
    if ltb index (length name)
    then get_or name index 0
    else if index == length name
    then 0
    else 0xffff

-- The three loops over the characters, as one over their offsets.
unfoldable pub fill_characters :
    (offsets : List ℕ) (index : ℕ) (name : List ℕ) → DirectoryEntry → DirectoryEntry
fill_characters [] index name e = e
fill_characters (at ∷ offsets) index name e =
    fill_characters offsets (suc index) name (put_u16 at (lfn_character name index) e)

-- The order is at most 10, so that `|= FAT32_LFN_LAST` adds its bit.
abbrev pub order_byte : (lfn_count order : ℕ) → ℕ
order_byte lfn_count order = if order == lfn_count then order % 256 + 0x40 else order % 256

abbrev pub lfn_header : (order checksum : ℕ) → DirectoryEntry
lfn_header order checksum =
    put_u8 13 checksum (put_u8 11 fat32_lfn (put_u8 0 order (replicate 32 0)))

unfoldable pub lfn_entry : (lfn_count order checksum : ℕ) (name : List ℕ) → DirectoryEntry
lfn_entry lfn_count order checksum name =
    fill_characters lfn_offsets ((order - 1) * 13) name
      (lfn_header (order_byte lfn_count order) checksum)

-- The entries with `order` and the lower orders.
unfoldable pub lfn_entries : (lfn_count order checksum : ℕ) (name : List ℕ) → List DirectoryEntry
lfn_entries lfn_count zero checksum name = []
lfn_entries lfn_count (suc order) checksum name =
    lfn_entry lfn_count (suc order) checksum name ∷ lfn_entries lfn_count order checksum name

unfoldable pub short_entry :
    (short_name : List ℕ) (attributes first_cluster size : ℕ) → DirectoryEntry
short_entry short_name attributes first_cluster size = put_u32 28 size (
    entry_set_first_cluster first_cluster
      (put_u8 11 attributes (k_memcpy (replicate 32 0) 0 short_name)))
