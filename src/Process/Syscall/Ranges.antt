-- ===== src/Process/Syscall/Ranges.antt =====
-- The check of a range of user memory.
use funny_os.Common.{ℕ, ◌+◌, ◌≤◌, ◌<◌, ◌≡◌, ◌⊎◌, ◌↔◌, true, ◌||◌, arith, word, Bool}
use funny_os.Process.Syscall.{Process, process_range_contains, process_user_range_valid}

-- The bytes from `ptr` on lie between `base` and its end.
abbrev pub IsInside : (base size ptr length : ℕ) → Type 0
IsInside base size ptr length = (base ≤ ptr) × (ptr + length ≤ base + size)

pub process_range_contains_iff :
    (base size ptr length : ℕ)
    → base + size < word
    → ptr < word
    → (process_range_contains base size ptr length ≡ true)
      ↔ ((length ≡ 0) ⊎ IsInside base size ptr length)
unfolding process_range_contains
process_range_contains_iff base size ptr length fits p = (λ h. ground arith, λ h. ground arith)

-- The image and the stack lie below 2^64.
abbrev pub Fits : Process → Type 0
Fits p = (p.image_base + p.image_capacity < word) × (p.stack_base + p.stack_size < word)

abbrev pub InUser : Process → (ptr length : ℕ) → Type 0
InUser p ptr length =
    (length ≡ 0)
    ⊎ (IsInside p.image_base p.image_capacity ptr length
        ⊎ IsInside p.stack_base p.stack_size ptr length)

or_iff : (a b : Bool) → ((a || b) ≡ true) ↔ ((a ≡ true) ⊎ (b ≡ true))
or_iff a b = ground arith

-- A range is accepted exactly if it is empty or lies as a whole in the program's image or as a
-- whole in its stack; no sum of the check wraps.
pub process_user_range_valid_iff :
    (p : Process) (ptr length : ℕ)
    → Fits p
    → ptr < word
    → (process_user_range_valid p ptr length ≡ true) ↔ InUser p ptr length
unfolding process_user_range_valid
process_user_range_valid_iff p ptr length fits h =
    let image = process_range_contains_iff p.image_base p.image_capacity ptr length fits.0 h in
    let stack = process_range_contains_iff p.stack_base p.stack_size ptr length fits.1 h in
    ground (arith, image, stack)
