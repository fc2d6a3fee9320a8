-- ===== src/Common/Words.antt =====
-- The unsigned machine words of common/types.h, as native numbers with the wrap written out, and
-- `&` with a mask as arithmetic.
use Prim.Native.Nat.{
  ℕ, zero, suc, ◌+◌, ◌-◌, ◌*◌, ◌/◌, ◌%◌, ◌^◌, ◌≤◌, ◌<◌, min, bit_and, digits, bit_and-bitwise,
}
use mathlib.Core.Path.{◌≡◌, refl, ap, ◌∙◌}
use native.Mathlib.Omega.{arith}

abbrev pub word : ℕ
word = 2 ^ 64

abbrev pub u32 : ℕ
u32 = 2 ^ 32

-- `uint64_t` arithmetic, also that of `size_t` and `uintptr_t`
abbrev pub add64 : ℕ → ℕ → ℕ
add64 a b = (a + b) % word

abbrev pub sub64 : ℕ → ℕ → ℕ
sub64 a b = (a + word - b) % word

abbrev pub mul64 : ℕ → ℕ → ℕ
mul64 a b = (a * b) % word

-- `uint32_t` arithmetic
abbrev pub add32 : ℕ → ℕ → ℕ
add32 a b = (a + b) % u32

abbrev pub sub32 : ℕ → ℕ → ℕ
sub32 a b = (a + u32 - b) % u32

abbrev pub mul32 : ℕ → ℕ → ℕ
mul32 a b = (a * b) % u32

-- `&` digit by digit, over at most `rounds` binary digits of `x`.
abbrev conj : (rounds x y : ℕ) → ℕ
conj rounds x y = digits (λ rest. zero) min rounds x y

-- As many rounds as `x` are enough; more change nothing. The recursion is on a bound of `x`.
conj_enough : (bound rounds x y : ℕ) → x ≤ bound → x ≤ rounds → conj rounds x y ≡ conj x x y
conj_enough bound zero zero y small long = refl
conj_enough bound (suc rounds) zero y small long = refl
conj_enough bound zero (suc x) y small long = absurd (omega arith)
conj_enough zero (suc rounds) (suc x) y small long = absurd (omega arith)
conj_enough (suc bound) (suc rounds) (suc x) y small long =
    let left = conj_enough bound rounds (suc x / 2) (y / 2) (omega arith) (omega arith) in
    let right = conj_enough bound x (suc x / 2) (y / 2) (omega arith) (omega arith) in
    omega (arith, left, right)

pub bit_and_step : (x y : ℕ) → bit_and x y ≡ bit_and (x / 2) (y / 2) * 2 + min (x % 2) (y % 2)
bit_and_step zero y = omega (arith, bit_and-bitwise zero y, bit_and-bitwise zero (y / 2))
bit_and_step (suc x) y =
    let half = suc x / 2 in
    let enough = conj_enough half x half (y / 2) (omega arith) (omega arith) in
    omega (arith, enough, bit_and-bitwise half (y / 2), bit_and-bitwise (suc x) y)

-- No bit is left by a mask of zeros.
bit_and-zero_below : (bound x : ℕ) → x ≤ bound → bit_and x zero ≡ zero
bit_and-zero_below bound zero small = bit_and-bitwise zero zero
bit_and-zero_below zero (suc x) small = absurd (omega arith)
bit_and-zero_below (suc bound) (suc x) small =
    let rest = bit_and-zero_below bound (suc x / 2) (omega arith) in
    omega (arith, rest, bit_and_step (suc x) zero)

pub bit_and-zero : (x : ℕ) → bit_and x zero ≡ zero
bit_and-zero x = bit_and-zero_below x x (omega arith)

-- `k` ones, and two to the power `k`, by recursion on `k`.
abbrev ones : ℕ → ℕ
ones zero = 0
ones (suc k) = ones k * 2 + 1

abbrev two_pow : ℕ → ℕ
two_pow zero = 1
two_pow (suc k) = two_pow k * 2

bit_and-ones : (k a : ℕ) → a < two_pow k → bit_and a (ones k) ≡ a
bit_and-ones zero a h = omega (arith, bit_and-zero a)
bit_and-ones (suc k) a h = omega (
  arith,
  bit_and_step a (ones k * 2 + 1),
  ap (bit_and (a / 2)) (half (ones k)),
  bit_and-ones k (a / 2) (omega arith),
)
  where
    half : (n : ℕ) → (n * 2 + 1) / 2 ≡ n
    half n = omega arith

-- `&` with 28 ones keeps a word of 28 bits.
pub bit_and-low28 : (a : ℕ) → a < 2 ^ 28 → bit_and a 0x0fff_ffff ≡ a
bit_and-low28 a h = bit_and-ones 28 a h

-- `a` without its `j` low bits, as `j` halvings and as many doublings.
abbrev halve : ℕ → ℕ → ℕ
halve zero a = a
halve (suc j) a = halve j (a / 2)

abbrev clear : ℕ → ℕ → ℕ
clear zero a = a
clear (suc j) a = clear j (a / 2) * 2

abbrev high_ones : ℕ → ℕ → ℕ
high_ones zero k = ones k
high_ones (suc j) k = high_ones j k * 2

bit_and-high : (j k a : ℕ) → halve j a < two_pow k → bit_and a (high_ones j k) ≡ clear j a
bit_and-high zero k a h = bit_and-ones k a h
bit_and-high (suc j) k a h = omega (
  arith,
  bit_and_step a (high_ones j k * 2),
  ap (bit_and (a / 2)) (half (high_ones j k)),
  bit_and-high j k (a / 2) h,
)
  where
    half : (n : ℕ) → n * 2 / 2 ≡ n
    half n = omega arith

-- `value & ~(alignment - 1u)` and `(value + alignment - 1u) & ~(alignment - 1u)` of 64-bit words
unfoldable pub align_down : ℕ → ℕ → ℕ
align_down value alignment = bit_and value (word - alignment)

unfoldable pub align_up : ℕ → ℕ → ℕ
align_up value alignment = bit_and (sub64 (add64 value alignment) 1) (word - alignment)

pub align_down-page : (a : ℕ) → a < word → align_down a 4096 ≡ a / 4096 * 4096
unfolding align_down
align_down-page a h = bit_and-high 12 52 a (omega arith) ∙ omega arith

pub align_up-page : (a : ℕ) → a + 4095 < word → align_up a 4096 ≡ (a + 4095) / 4096 * 4096
unfolding align_up
align_up-page a h =
    ap (λ n. bit_and n (word - 4096)) (omega arith)
    ∙ bit_and-high 12 52 (a + 4095) (omega arith)
    ∙ omega arith

pub align_up-heap : (a : ℕ) → a + 15 < word → align_up a 16 ≡ (a + 15) / 16 * 16
unfolding align_up
align_up-heap a h =
    ap (λ n. bit_and n (word - 16)) (omega arith)
    ∙ bit_and-high 4 60 (a + 15) (omega arith)
    ∙ omega arith

-- The sum wraps for the largest values.
pub align_up-heap_wraps : (a : ℕ) → word < a + 16 → a < word → align_up a 16 ≡ 0
unfolding align_up
align_up-heap_wraps a h k =
    ap (λ n. bit_and n (word - 16)) (omega arith)
    ∙ bit_and-high 4 60 (a + 15 - word) (omega arith)
    ∙ omega arith
