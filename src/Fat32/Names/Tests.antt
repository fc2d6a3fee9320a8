-- ===== src/Fat32/Names/Tests.antt =====
-- "a.b" and "A.B".
use funny_os.Common.{ℕ, ◌≡◌, ◌↔◌, refl, true, List, [], ◌∷◌, map}
use funny_os.KString.{k_toupper}
use funny_os.Fat32.Names.{
  validate_long_name, validate_from, is_invalid_lfn_character, name_equals_ignore_case,
  short_name_checksum, checksum_from, format_short_name, has_extension, until_space,
}
use funny_os.Fat32.Names.Valid.{name_equals_ignore_case_iff}

abbrev lower : List ℕ
lower = 0x61 ∷ 0x2e ∷ 0x62 ∷ []

abbrev upper : List ℕ
upper = 0x41 ∷ 0x2e ∷ 0x42 ∷ []

-- "A       B  "
abbrev raw : List ℕ
raw = 0x41 ∷ 0x20 ∷ 0x20 ∷ 0x20 ∷ 0x20 ∷ 0x20 ∷ 0x20 ∷ 0x20 ∷ 0x42 ∷ 0x20 ∷ 0x20 ∷ []

formats : format_short_name raw ≡ upper
unfolding format_short_name has_extension until_space
formats = refl

sums : short_name_checksum (0x41 ∷ 0x42 ∷ []) ≡ 0xe2
unfolding short_name_checksum checksum_from
sums = refl

accepts : validate_long_name lower ≡ true
unfolding validate_long_name validate_from is_invalid_lfn_character
accepts = refl

name_equals_ignore_case_iff_example :
    (name_equals_ignore_case lower upper ≡ true) ↔ (map k_toupper lower ≡ map k_toupper upper)
name_equals_ignore_case_iff_example = name_equals_ignore_case_iff lower upper
