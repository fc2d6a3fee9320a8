-- ===== src/Path/Tests.antt =====
-- Runs of `path_normalize`, among them those of tests/path_test.c.
use funny_os.Common.{
  ℕ, ◌≡◌, refl, true, false, List, [], ◌∷◌, arith, take, replicate, some, Option, Bool, none,
}
use funny_os.Path.{
  path_normalize, absorb_path, absorb_from, absorb_component, push_component, pop_component,
  put_upper, skip_slashes, name_of, after_name, is_dot, is_dot_dot,
}
use funny_os.KString.{k_toupper}
use funny_os.Path.Answer.{Writes, resolve_input, path_normalize-Writes}

abbrev zeros : List ℕ
zeros = replicate 128 0

-- "/MYDIR" and "../b/./c"
abbrev my_dir : List ℕ
my_dir = 0x2f ∷ 0x4d ∷ 0x59 ∷ 0x44 ∷ 0x49 ∷ 0x52 ∷ []

abbrev up_and_down : List ℕ
up_and_down = 0x2e ∷ 0x2e ∷ 0x2f ∷ 0x62 ∷ 0x2f ∷ 0x2e ∷ 0x2f ∷ 0x63 ∷ []

abbrev shown : Option (Bool × List ℕ) → Bool × List ℕ
shown none = (false, [])
shown (some (ok, out)) = (ok, take 6 out)

normalizes :
    shown (path_normalize my_dir up_and_down 128 zeros zeros)
    ≡ (true, 0x2f ∷ 0x42 ∷ 0x2f ∷ 0x43 ∷ 0 ∷ 0x52 ∷ [])
unfolding path_normalize absorb_path absorb_from absorb_component push_component pop_component
    put_upper skip_slashes name_of after_name is_dot is_dot_dot k_toupper
normalizes = refl

abbrev four : List ℕ
four = replicate 4 0

too_small : shown (path_normalize (0x2f ∷ []) my_dir 4 four zeros) ≡ (false, 0x2f ∷ 0 ∷ 0 ∷ 0 ∷ [])
unfolding path_normalize absorb_path absorb_from absorb_component push_component skip_slashes
    name_of after_name is_dot is_dot_dot
too_small = refl

path_normalize-Writes_example :
    Writes 128
      (resolve_input 128 my_dir up_and_down)
      (path_normalize my_dir up_and_down 128 zeros zeros)
path_normalize-Writes_example =
    path_normalize-Writes my_dir up_and_down 128 zeros zeros (omega arith) (omega arith)
      (omega arith) (omega arith) refl refl
