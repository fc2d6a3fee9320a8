-- ===== src/KString.antt =====
-- kernel/kstring.c: the string routines. A C string is the list of its bytes before the NUL; a byte
-- is a number below 256, and `char` is signed, so a byte of 128 or more compares as negative.
use funny_os.Common.{
  ℕ, zero, suc, ◌-◌, Bool, ◌&&◌, ◌||◌, not, List, [], ◌∷◌, length, get_or, set, leb, ltb, ◌==◌,
  if◌then◌else◌,
}

-- `out[i] = in[i]` for `i` from `at` on
unfoldable pub k_memcpy : (dst : List ℕ) (at : ℕ) (src : List ℕ) → List ℕ
k_memcpy dst at [] = dst
k_memcpy dst at (x ∷ xs) = k_memcpy (set dst at x) (suc at) xs

unfoldable pub k_strlen : List ℕ → ℕ
k_strlen s = length s

-- The sign of the C result: below, equal or above.
pub data Sign : Type 0 where
  below : Sign
  equal : Sign
  above : Sign

unfoldable pub sign_of : (a b : ℕ) → Sign
sign_of a b = if ltb a b then below else if a == b then equal else above

-- Bytes are read from `i` on, `count` of them.
unfoldable pub memcmp_from : (count i : ℕ) (lhs rhs : List ℕ) → Sign
memcmp_from zero i lhs rhs = equal
memcmp_from (suc count) i lhs rhs =
    let rest = memcmp_from count (suc i) lhs rhs in
    if not (get_or lhs i 0 == get_or rhs i 0)
    then sign_of (get_or lhs i 0) (get_or rhs i 0)
    else rest

unfoldable pub k_memcmp : (lhs rhs : List ℕ) (count : ℕ) → Sign
k_memcmp lhs rhs count = memcmp_from count 0 lhs rhs

unfoldable pub k_strcmp : (lhs rhs : List ℕ) → Sign
k_strcmp [] rhs = sign_of 0 (get_or rhs 0 0)
k_strcmp (a ∷ s) [] = sign_of a 0
k_strcmp (a ∷ s) (b ∷ t) = let rest = k_strcmp s t in if not (a == b) then sign_of a b else rest

unfoldable pub k_toupper : ℕ → ℕ
k_toupper c = if leb 97 c && leb c 122 then c - 32 else c

unfoldable pub k_is_space : ℕ → Bool
k_is_space c = c == 32 || c == 9 || c == 13 || c == 10
