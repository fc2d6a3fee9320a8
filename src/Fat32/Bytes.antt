-- ===== src/Fat32/Bytes.antt =====
-- The packed little-endian fields of kernel/fat32.c's on-disk structures, in lists of bytes.
use funny_os.Common.{ℕ, zero, suc, ◌+◌, ◌*◌, ◌/◌, ◌%◌, List, [], ◌∷◌, get_or, set, take, drop}

-- A load of one, two or four bytes.
abbrev pub u8 : List ℕ → ℕ → ℕ
u8 bytes at = get_or bytes at 0 % 256

abbrev pub u16 : List ℕ → ℕ → ℕ
u16 bytes at = u8 bytes at + u8 bytes (at + 1) * 256

abbrev pub u32_at : List ℕ → ℕ → ℕ
u32_at bytes at = u16 bytes at + u16 bytes (at + 2) * 65536

-- A store of one, two or four bytes.
abbrev pub put_u8 : ℕ → ℕ → List ℕ → List ℕ
put_u8 at value bytes = set bytes at (value % 256)

abbrev pub put_u16 : ℕ → ℕ → List ℕ → List ℕ
put_u16 at value bytes = put_u8 (at + 1) (value / 256) (put_u8 at value bytes)

abbrev pub put_u32 : ℕ → ℕ → List ℕ → List ℕ
put_u32 at value bytes = put_u16 (at + 2) (value / 65536) (put_u16 at value bytes)

abbrev pub slice : (at size : ℕ) → List ℕ → List ℕ
slice at size bytes = take size (drop at bytes)

-- An array of 32-bit words as its bytes, and back.
abbrev pub bytes_of : List ℕ → List ℕ
bytes_of [] = []
bytes_of (x ∷ xs) = x % 256 ∷ x / 256 % 256 ∷ x / 65536 % 256 ∷ x / 16777216 % 256 ∷ bytes_of xs

abbrev pub words_of : (count at : ℕ) → List ℕ → List ℕ
words_of zero at bytes = []
words_of (suc count) at bytes = u32_at bytes at ∷ words_of count (at + 4) bytes
