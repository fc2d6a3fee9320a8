-- ===== src/Fat32/Names.antt =====
-- kernel/fat32.c: file names, short and long. A C string is the list of its bytes before the NUL.
pub mod Valid
mod Tests
use funny_os.Common.{
  ℕ, zero, suc, ◌+◌, ◌-◌, ◌*◌, ◌/◌, ◌%◌, ◌≤◌, Bool, true, false, ◌&&◌, ◌||◌, not, List, [], ◌∷◌,
  ◌++◌, Option, some, none, get_or, set, take, drop, length, leb, ltb, ◌==◌, if◌then◌else◌, bit_and,
  replicate,
}
use funny_os.KString.{k_toupper, k_is_space}

abbrev pub name_capacity : ℕ
name_capacity = 128

-- `char` is signed: a byte of 128 or more is below 0x20.
unfoldable pub is_invalid_lfn_character : ℕ → Bool
is_invalid_lfn_character c =
    ltb c 0x20
    || leb 128 c
    || c == 0x22
    || c == 0x2a
    || c == 0x2f
    || c == 0x3a
    || c == 0x3c
    || c == 0x3e
    || c == 0x3f
    || c == 0x5c
    || c == 0x7c

-- "." and ".."
abbrev pub is_special_name : List ℕ → Bool
is_special_name name =
    (length name == 1 && get_or name 0 0 == 0x2e)
    || (length name == 2 && get_or name 0 0 == 0x2e && get_or name 1 0 == 0x2e)

-- The loop over the characters, with `length` of them read.
unfoldable pub validate_from : (length : ℕ) (rest : List ℕ) → Bool
validate_from n [] = true
validate_from n (c ∷ cs) =
    let rest = validate_from (suc n) cs in
    if leb name_capacity (n + 1) then false else if is_invalid_lfn_character c then false else rest

abbrev pub last_of : List ℕ → ℕ
last_of name = get_or name (length name - 1) 0

-- The length that it stores is the length of the list.
unfoldable pub validate_long_name : List ℕ → Bool
validate_long_name name =
    if length name == 0
    then false
    else if is_special_name name
    then false
    else if not (validate_from 0 name)
    then false
    else not (last_of name == 0x20 || last_of name == 0x2e)

unfoldable pub name_equals_ignore_case : (lhs rhs : List ℕ) → Bool
name_equals_ignore_case [] rhs = length rhs == 0
name_equals_ignore_case (a ∷ xs) [] = false
name_equals_ignore_case (a ∷ xs) (b ∷ bs) =
    let rest = name_equals_ignore_case xs bs in
    if not (k_toupper a == k_toupper b) then false else rest

-- One round of the sum, in 8 bits.
abbrev pub checksum_step : (sum c : ℕ) → ℕ
checksum_step sum c = ((if not (sum % 2 == 0) then 0x80 else 0) + sum / 2 + c) % 256

unfoldable pub checksum_from : (sum : ℕ) (name : List ℕ) → ℕ
checksum_from sum [] = sum
checksum_from sum (c ∷ cs) = checksum_from (checksum_step sum c) cs

-- The name has 11 bytes.
unfoldable pub short_name_checksum : List ℕ → ℕ
short_name_checksum name = checksum_from 0 name

-- The bytes up to the first space.
unfoldable pub until_space : List ℕ → List ℕ
until_space [] = []
until_space (c ∷ cs) = let rest = until_space cs in if c == 0x20 then [] else c ∷ rest

unfoldable pub has_extension : List ℕ → Bool
has_extension [] = false
has_extension (c ∷ cs) = let rest = has_extension cs in if not (c == 0x20) then true else rest

unfoldable pub format_short_name : List ℕ → List ℕ
format_short_name raw =
    if has_extension (drop 8 raw)
    then until_space (take 8 raw) ++ (0x2e ∷ until_space (drop 8 raw))
    else until_space (take 8 raw)
